-- ===== src/Nodes/Moves.antt =====
-- A simultaneous update of the paths of rows under a prefix, and that it breaks no constraint.
use evukb.Common.{
  [], ◌∷◌, ◌++◌, ◌≡◌, refl, sym, inl, inr, Bool, true, false, ◌&&◌, ◌||◌, Bool-cases, and-eq-true,
  or-eq-false, any, All, All-imp, if◌then◌else◌, arith, some, find,
}
use evukb.Common.Text.{Text, text_eq, text_eq_iff, text_eq_refl, truthy}
use evukb.Storage.Posix.{slash}
use evukb.Nodes.Rows.{Node, Table, clashes, consistent, update_rows}
use evukb.Nodes.Repository.{in_corpus, is_under, next_path, with_path}
use evukb.Nodes.Prefix.{Goes, goes, next_path-is_under, next_path-inj}

-- The rows for which the test holds go from the old prefix to the new one, all at once.
abbrev pub shifted : Text → Text → (Node → Bool) → Table → Table
shifted old_prefix new_prefix p t =
    update_rows p (λ n. with_path (next_path old_prefix new_prefix n.path) n) t

abbrev pub moves : Text → Text → Text → Node → Bool
moves workspace corpus old_prefix n = in_corpus workspace corpus n && is_under old_prefix n.path

-- A row in the way: a row of the corpus under the new prefix, or at the old one with a bare slash.
abbrev pub blocks : Text → Text → Text → Node → Bool
blocks corpus old_prefix new_prefix n =
    text_eq n.corpus_id corpus
    && (is_under new_prefix n.path || text_eq n.path (old_prefix ++ slash ∷ []))

text_eq_sym : (s t : Text) → text_eq s t ≡ true → text_eq t s ≡ true
text_eq_sym s t h = let e = (text_eq_iff s t).0 h in rw e (text_eq_refl t)

abbrev pub SameId : Node → Node → Type 0
SameId n m = text_eq m.id n.id ≡ true → m ≡ n

-- A row with the id of a row of the table is that row.
clash_free-SameId :
    (n : Node) (t : Table) → any (clashes n) t ≡ false → All (λ m. SameId n m × SameId m n) t
unfolding clashes
clash_free-SameId n [] h = tt
clash_free-SameId n (m ∷ t) h = (
  ((λ e. ground (arith, text_eq_sym m.id n.id e)), (λ e. ground arith)),
  clash_free-SameId n t (ground arith),
)

pub consistent-SameId : (t : Table) → consistent t ≡ true → All (λ n. All (SameId n) t) t
unfolding consistent
consistent-SameId [] h = tt
consistent-SameId (n ∷ t) h =
    let both = clash_free-SameId n t (ground arith) in
    (
      ((λ e. refl), All-imp _ (SameId n) t (λ m p. p.0) both),
      go t both (consistent-SameId t (ground arith)),
    )
  where
    go :
        (s : Table)
        → All (λ m. SameId n m × SameId m n) s
        → All (λ m. All (SameId m) t) s
        → All (λ m. All (SameId m) (n ∷ t)) s
    go [] a b = tt
    go (m ∷ s) ((_, p), a) (q, b) = ((p, q), go s a b)

pub find-All :
    (P : Node → Type 0) (p : Node → Bool) (t : Table) (n : Node) → All P t → find p t ≡ some n → P n
find-All P p [] n h e = cc
find-All P p (m ∷ t) n (x, h) e = elim (Bool-cases (p m)) [
  | inl y ↦ let same : m ≡ n = ground arith in rw (sym same) x
  | inr nn ↦ find-All P p t n h (ground arith)
]

-- Rows of a consistent table that are found by any tests are the same if they have the same id.
pub found_same :
    (p q : Node → Bool) (t : Table) (n m : Node)
    → consistent t ≡ true
    → find p t ≡ some n
    → find q t ≡ some m
    → text_eq m.id n.id ≡ true
    → m ≡ n
found_same p q t n m whole e f h =
    find-All (SameId n) q t m (find-All (λ x. All (SameId x) t) p t n (consistent-SameId t whole) e)
      f h

clash_kept :
    (a b : Node) (q r : Text)
    → (a.corpus_id ≡ b.corpus_id → q ≡ r → a.path ≡ b.path)
    → clashes a b ≡ false
    → clashes (with_path q a) (with_path r b) ≡ false
unfolding clashes
clash_kept a b q r k h = elim (Bool-cases (text_eq a.corpus_id b.corpus_id && text_eq q r)) [
  | inl y ↦
      let (c, e) = and-eq-true (text_eq a.corpus_id b.corpus_id) (text_eq q r) y in
      let same = k ((text_eq_iff a.corpus_id b.corpus_id).0 c) ((text_eq_iff q r).0 e) in
      ground (arith, (text_eq_iff a.path b.path).1 same)
  | inr nn ↦ ground arith
]

module _ (workspace corpus old_prefix new_prefix : Text) (given : truthy new_prefix ≡ true) where
  abbrev pub shift : (Node → Bool) → Table → Table
  shift p t = shifted old_prefix new_prefix p t

  abbrev one : (Node → Bool) → Node → Node
  one p n = if p n then with_path (next_path old_prefix new_prefix n.path) n else n

  one-with_path : (p : Node → Bool) (n : Node) → one p n ≡ with_path (one p n).path n
  one-with_path p n = elim (Bool-cases (p n)) [ inl y ↦ rw y refl | inr nn ↦ rw nn refl ]

  blocks-Goes :
      (n : Node)
      → blocks corpus old_prefix new_prefix n ≡ false
      → moves workspace corpus old_prefix n ≡ true
      → Goes old_prefix new_prefix given n.path
  blocks-Goes n b m =
      goes old_prefix new_prefix given n.path (ground arith)
        (λ e. ground (arith, text_eq_iff n.path (old_prefix ++ slash ∷ [])))

  module _ (p : Node → Bool) where
    abbrev pub Chosen : Type 0
    Chosen = (n : Node) → p n ≡ true → moves workspace corpus old_prefix n ≡ true

    -- Rows at the same place after the update were at the same place before.
    same_place :
        Chosen
        → (a b : Node) → blocks corpus old_prefix new_prefix a ≡ false
        → blocks corpus old_prefix new_prefix b ≡ false
        → a.corpus_id ≡ b.corpus_id
        → (one p a).path ≡ (one p b).path
        → a.path ≡ b.path
    same_place c a b f g k e = elim (Bool-cases (p a)) [
      | inl y ↦ elim (Bool-cases (p b)) [
        | inl z ↦
            next_path-inj old_prefix new_prefix given a.path b.path (blocks-Goes a f (c a y))
              (blocks-Goes b g (c b z)) (ground arith)
        | inr z ↦ ground (
          arith,
          c a y,
          next_path-is_under old_prefix new_prefix given a.path (blocks-Goes a f (c a y)),
        )
      ]
      | inr y ↦ elim (Bool-cases (p b)) [
        | inl z ↦ ground (
          arith,
          c b z,
          next_path-is_under old_prefix new_prefix given b.path (blocks-Goes b g (c b z)),
        )
        | inr z ↦ ground arith
      ]
    ]

    shift_clash :
        Chosen
        → (a b : Node) → blocks corpus old_prefix new_prefix a ≡ false
        → blocks corpus old_prefix new_prefix b ≡ false
        → clashes a b ≡ false
        → clashes (one p a) (one p b) ≡ false
    shift_clash c a b f g h =
        rw (one-with_path p a, one-with_path p b)
          (clash_kept a b (one p a).path (one p b).path (same_place c a b f g) h)

    shift-any :
        Chosen
        → (a : Node) (t : Table) → blocks corpus old_prefix new_prefix a ≡ false
        → All (λ n. blocks corpus old_prefix new_prefix n ≡ false) t
        → any (clashes a) t ≡ false
        → any (clashes (one p a)) (shift p t) ≡ false
    shift-any c a [] f g h = refl
    shift-any c a (b ∷ t) f (g, gs) h =
        let (x, y) = or-eq-false (clashes a b) (any (clashes a) t) h in
        rw (shift_clash c a b f g x) (shift-any c a t f gs y)

    -- The update breaks no constraint.
    pub shift-consistent :
        Chosen
        → (t : Table) → All (λ n. blocks corpus old_prefix new_prefix n ≡ false) t
        → consistent t ≡ true
        → consistent (shift p t) ≡ true
    unfolding consistent
    shift-consistent c [] f h = refl
    shift-consistent c (a ∷ t) (f, fs) h =
        ground (arith, shift-any c a t f fs, shift-consistent c t fs)
