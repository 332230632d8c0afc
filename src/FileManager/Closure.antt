-- ===== src/FileManager/Closure.antt =====
-- The ids that `deleteNodes` collects, as a set of nodes: with a folder, every child is in it.
use evukb.Common.{
  List, [], ◌∷◌, ◌++◌, ◌≡◌, refl, sym, ◌⊎◌, inl, inr, Bool, true, ◌||◌, Bool-cases, any, find,
  filter, map, Option, none, some, arith, All, All-imp, All-and,
}
use evukb.Common.Text.{Text, text_eq, text_eq_iff, text_eq_refl, truthy}
use evukb.Nodes.Rows.{Node, Table}
use evukb.Nodes.Repository.{in_corpus}
use evukb.Nodes.Moves.{SameId, find-All}
use evukb.FileManager.Guards.{collect_descendants, is_descendant}
use evukb.FileManager.Changes.{to_delete}
use evukb.FileManager.Tree.{place_of, is_parent}
use evukb.FileManager.Descent.{child-is_descendant}

abbrev ids_of : List Node → List Text
ids_of ns = map (λ n. n.id) ns

any-append : (q : Text → Bool) (s t : List Text) → any q (s ++ t) ≡ (any q s || any q t)
any-append q [] t = ground arith
any-append q (x ∷ s) t = ground (arith, any-append q s t)

filter-All : (P : Node → Type 0) (p : Node → Bool) (t : Table) → All P t → All P (filter p t)
filter-All P p [] h = tt
filter-All P p (n ∷ t) (x, h) = elim (Bool-cases (p n)) [
  | inl y ↦ rw y (x, filter-All P p t h)
  | inr nn ↦ rw nn (filter-All P p t h)
]

-- The node whose id is among those of the nodes that fulfil a test fulfils it.
listed-test :
    (f : Node) (d : Node → Bool) (ns : List Node)
    → All (SameId f) ns
    → any (text_eq f.id) (ids_of (filter d ns)) ≡ true
    → d f ≡ true
listed-test f d [] s h = cc
listed-test f d (g ∷ ns) (e, s) h = elim (Bool-cases (d g)) [
  | inr nn ↦ listed-test f d ns s (ground arith)
  | inl y ↦ elim (Bool-cases (text_eq f.id g.id)) [
    | inl z ↦
        let same = e ((text_eq_iff g.id f.id).1 (sym ((text_eq_iff f.id g.id).0 z))) in
        rw (sym same) y
    | inr z ↦ listed-test f d ns s (ground arith)
  ]
]

module _ (workspace corpus : Text) where
  abbrev pub rows : Table → List Node
  rows t = filter (in_corpus workspace corpus) t

  -- A row of the corpus that fulfils a test has its id among those of such rows.
  abbrev pub Listed : (Node → Bool) → List Node → Node → Type 0
  Listed d ns n =
      in_corpus workspace corpus n ≡ true
      → d n ≡ true
      → any (text_eq n.id) (ids_of (filter d ns)) ≡ true

  pub rows-Listed : (t : Table) → All (λ n. (d : Node → Bool) → Listed d (rows t) n) t
  rows-Listed [] = tt
  rows-Listed (n ∷ t) = (
    (λ d i k. ground (arith, text_eq_refl n.id)),
    All-imp (λ m. (d : Node → Bool) → Listed d (rows t) m)
        (λ m. (d : Node → Bool) → Listed d (rows (n ∷ t)) m) t
        (λ m h d i k. ground (arith, h d i k)) (rows-Listed t),
  )

  module _ (t : Table) (f n : Node) (child : is_parent (place_of n) (place_of f) ≡ true)
      (own : All (SameId f) t) (listed : (d : Node → Bool) → Listed d (rows t) n)
      (inside : in_corpus workspace corpus n ≡ true) where
    collected :
        (x : Node)
        → truthy x.name ≡ true
        → SameId f x
        → any (text_eq f.id) (collect_descendants x (rows t)) ≡ true
        → any (text_eq n.id) (collect_descendants x (rows t)) ≡ true
    unfolding collect_descendants
    collected x named same h = elim (Bool-cases (text_eq n.id x.id)) [
      | inl y ↦ ground arith
      | inr nn ↦
          let under : (x ≡ f) ⊎ (is_descendant x f ≡ true) = elim (Bool-cases (text_eq f.id x.id)) [
            | inl z ↦ inl (same ((text_eq_iff x.id f.id).1 (sym ((text_eq_iff f.id x.id).0 z))))
            | inr z ↦ inr (
                listed-test f (is_descendant x) (rows t)
                  (filter-All (SameId f) (in_corpus workspace corpus) t own) (ground arith))
          ] in
          ground (
            arith,
            listed (is_descendant x) inside (child-is_descendant x f n named child under nn),
          )
    ]

    pub to_delete-child :
        (ids : List Text)
        → All (λ x. truthy x.name ≡ true) t
        → any (text_eq f.id) (to_delete (rows t) ids) ≡ true
        → any (text_eq n.id) (to_delete (rows t) ids) ≡ true
    unfolding to_delete
    to_delete-child [] named h = h
    to_delete-child (id ∷ ids) named h =
        go (find (λ m. text_eq m.id id) (rows t)) refl (to_delete-child ids named)
      where
        go :
            (o : Option Node)
            → find (λ m. text_eq m.id id) (rows t) ≡ o
            → (any (text_eq f.id) (to_delete (rows t) ids) ≡ true
                → any (text_eq n.id) (to_delete (rows t) ids) ≡ true)
            → any (text_eq n.id) (to_delete (rows t) (id ∷ ids)) ≡ true
        go none e ih = ground (arith, ih)
        go (some x) e ih =
            let (y, same) =
              find-All (λ m. (truthy m.name ≡ true) × SameId f m) (λ m. text_eq m.id id) (rows t) x
                (filter-All (λ m. (truthy m.name ≡ true) × SameId f m) (in_corpus workspace corpus)
                  t (All-and (λ m. truthy m.name ≡ true) (SameId f) t named own))
                e in
            let more =
              any-append (text_eq n.id) (collect_descendants x (rows t)) (to_delete (rows t) ids) in
            let before =
              any-append (text_eq f.id) (collect_descendants x (rows t)) (to_delete (rows t) ids) in
            ground (arith, e, more, before, ih, collected x y same)
