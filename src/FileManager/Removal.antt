-- ===== src/FileManager/Removal.antt =====
-- The table without what `deleteNodes` collects is a tree again: no node is left without its
-- parent.
use evukb.Common.{
  List, [], ◌∷◌, ◌≡◌, refl, sym, inl, inr, Bool, true, false, Bool-cases, any, all, remove, arith,
  All, All-imp, All-and,
}
use evukb.Common.Text.{Text, text_eq_iff, truthy}
use evukb.Nodes.Rows.{Node, Table, clashes, consistent}
use evukb.Nodes.Repository.{in_corpus, is_one_of}
use evukb.Nodes.Moves.{SameId, consistent-SameId}
use evukb.FileManager.Changes.{to_delete}
use evukb.FileManager.Tree.{
  Place, place_of, places, is_parent, has_parent, same_place, unique_places, IsTree,
}
use evukb.FileManager.Closure.{rows, Listed, rows-Listed, to_delete-child}

any-remove :
    (q : Place → Bool) (p : Node → Bool) (t : Table)
    → All (λ f. q (place_of f) ≡ true → p f ≡ false) t
    → any q (places t) ≡ true
    → any q (places (remove p t)) ≡ true
any-remove q p [] h e = e
any-remove q p (f ∷ t) (g, h) e = elim (Bool-cases (q (place_of f))) [
  | inl y ↦ ground (arith, g y)
  | inr nn ↦ ground (arith, any-remove q p t h)
]

any-remove-false :
    (q : Place → Bool) (p : Node → Bool) (t : Table)
    → any q (places t) ≡ false
    → any q (places (remove p t)) ≡ false
any-remove-false q p [] e = e
any-remove-false q p (f ∷ t) e = ground (arith, any-remove-false q p t)

all-remove :
    (r : Place → Bool) (p : Node → Bool) (t : Table)
    → All (λ n. p n ≡ false → r (place_of n) ≡ true) t
    → all r (places (remove p t)) ≡ true
all-remove r p [] h = refl
all-remove r p (n ∷ t) (x, h) = elim (Bool-cases (p n)) [
  | inl y ↦ ground (arith, all-remove r p t h)
  | inr nn ↦ ground (arith, x nn, all-remove r p t h)
]

pub all-All :
    (r : Place → Bool) (t : Table) → all r (places t) ≡ true → All (λ n. r (place_of n) ≡ true) t
all-All r [] h = tt
all-All r (n ∷ t) h = (ground arith, all-All r t (ground arith))

unique-remove :
    (p : Node → Bool) (t : Table)
    → unique_places (places t) ≡ true
    → unique_places (places (remove p t)) ≡ true
unique-remove p [] h = refl
unique-remove p (n ∷ t) h = elim (Bool-cases (p n)) [
  | inl y ↦ ground (arith, unique-remove p t)
  | inr nn ↦ ground (arith, unique-remove p t, any-remove-false (same_place (place_of n)) p t)
]

pub consistent-remove :
    (p : Node → Bool) (t : Table) → consistent t ≡ true → consistent (remove p t) ≡ true
unfolding consistent
consistent-remove p [] h = refl
consistent-remove p (n ∷ t) h = elim (Bool-cases (p n)) [
  | inl y ↦ ground (arith, consistent-remove p t)
  | inr nn ↦ ground (arith, consistent-remove p t, any-kept t)
]
  where
    any-kept : (s : Table) → any (clashes n) s ≡ false → any (clashes n) (remove p s) ≡ false
    any-kept [] e = e
    any-kept (m ∷ s) e = ground (arith, any-kept s)

module _ (workspace corpus : Text) (ids : List Text) (t : Table) where
  -- The rows that are deleted.
  abbrev pub is_gone : Node → Bool
  is_gone n = is_one_of workspace corpus (to_delete (rows workspace corpus t) ids) n

  -- The parent of a row that stays stays.
  parent_stays :
      (n f : Node)
      → All (λ x. truthy x.name ≡ true) t
      → ((d : Node → Bool) → Listed workspace corpus d (rows workspace corpus t) n)
      → All (SameId f) t
      → is_gone n ≡ false
      → is_parent (place_of n) (place_of f) ≡ true
      → is_gone f ≡ false
  parent_stays n f named listed own k child = elim (Bool-cases (is_gone f)) [
    | inr nn ↦ nn
    | inl y ↦
        let w = (text_eq_iff f.workspace_id n.workspace_id).0 (ground arith) in
        let c = (text_eq_iff f.corpus_id n.corpus_id).0 (ground arith) in
        let inside : in_corpus workspace corpus n ≡ true = rw (sym w, sym c) (ground arith) in
        ground
          (arith, inside, to_delete-child workspace corpus t f n child own listed inside ids named)
  ]

  pub remove-IsTree : consistent t ≡ true → IsTree (places t) → IsTree (places (remove is_gone t))
  remove-IsTree h tree =
      let named = all-All (λ a. truthy a.name) t tree.named in
      let parented =
        All-and (λ n. has_parent (places t) (place_of n) ≡ true)
          (λ n. (d : Node → Bool) → Listed workspace corpus d (rows workspace corpus t) n) t
          (all-All (has_parent (places t)) t tree.parented) (rows-Listed workspace corpus t) in
      record {
        named =
            all-remove (λ a. truthy a.name) is_gone t
              (All-imp (λ n. truthy n.name ≡ true) (λ n. is_gone n ≡ false → truthy n.name ≡ true) t
                (λ n x k. x) named);
        parented =
            all-remove (has_parent (places (remove is_gone t))) is_gone t
              (All-imp _ _ t (λ n x k. kept n named x.0 x.1 k) parented);
        unique = unique-remove is_gone t tree.unique;
      }
    where
      kept :
          (n : Node)
          → All (λ x. truthy x.name ≡ true) t
          → has_parent (places t) (place_of n) ≡ true
          → ((d : Node → Bool) → Listed workspace corpus d (rows workspace corpus t) n)
          → is_gone n ≡ false
          → has_parent (places (remove is_gone t)) (place_of n) ≡ true
      kept n named x listed k = elim (Bool-cases (truthy n.path)) [
        | inr nn ↦ ground arith
        | inl y ↦ ground (
          arith,
          any-remove (is_parent (place_of n)) is_gone t (
              All-imp (λ f. All (SameId f) t)
                (λ f. is_parent (place_of n) (place_of f) ≡ true → is_gone f ≡ false) t
                (λ f own. parent_stays n f named listed own k) (consistent-SameId t h)),
        )
      ]
