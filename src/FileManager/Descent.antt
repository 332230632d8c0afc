-- ===== src/FileManager/Descent.antt =====
-- What `deleteNodes` collects is closed under the step to a child: with a folder, every node in it
-- is collected too.
use evukb.Common.{
  ℕ, [], ◌∷◌, ◌++◌, ◌≡◌, refl, sym, ap, ◌∙◌, ◌⊎◌, inl, inr, true, false, Bool-cases, arith,
  append_assoc,
}
use evukb.Common.Text.{Text, text_eq, text_eq_iff, starts_with, truthy}
use evukb.Common.Text.Prefix.{starts_with-append}
use evukb.Storage.Posix.{slash}
use evukb.Nodes.Rows.{Node}
use evukb.Nodes.Places.{build_node_path}
use evukb.FileManager.Guards.{is_descendant}
use evukb.FileManager.Tree.{place_of, is_parent}

build-truthy : (p n : Text) → truthy n ≡ true → truthy (build_node_path p n) ≡ true
unfolding build_node_path
build-truthy [] n h = h
build-truthy (c ∷ p) n h = refl

build-append : (p n : Text) → truthy p ≡ true → build_node_path p n ≡ p ++ slash ∷ n
unfolding build_node_path
build-append p n h = rw h refl

-- What stands under a prefix stays under it with more behind it.
starts_with-more : (p t rest : Text) → starts_with p t ≡ true → starts_with p (t ++ rest) ≡ true
unfolding starts_with
starts_with-more [] t rest h = refl
starts_with-more (a ∷ p) [] rest h = cc
starts_with-more (a ∷ p) (b ∷ t) rest h = ground (arith, starts_with-more p t rest)

starts_with-truthy : (p t : Text) (c : ℕ) → starts_with (p ++ c ∷ []) t ≡ true → truthy t ≡ true
unfolding starts_with
starts_with-truthy p (d ∷ t) c h = refl
starts_with-truthy [] [] c h = cc
starts_with-truthy (a ∷ p) [] c h = cc

-- A child of a node under the root is under the root.
module _ (x f n : Node) (named : truthy x.name ≡ true)
    (child : is_parent (place_of n) (place_of f) ≡ true) where
  abbrev root : Text
  root = build_node_path x.path x.name

  at_parent : build_node_path f.path f.name ≡ n.path
  at_parent = (text_eq_iff (build_node_path f.path f.name) n.path).0 (ground arith)

  abbrev Inside : Text → Type 0
  Inside path = starts_with (root ++ slash ∷ []) path ≡ true

  parent-Inside :
      (f.path ≡ root) ⊎ Inside f.path ⊎ Inside (build_node_path f.path f.name) → Inside n.path
  parent-Inside (inl e) =
      let t = build-append f.path f.name (ap truthy e ∙ build-truthy x.path x.name named) in
      rw (sym at_parent, t, e, sym (append_assoc root (slash ∷ []) f.name))
        (starts_with-append (root ++ slash ∷ []) f.name)
  parent-Inside (inr (inl h)) =
      let t = build-append f.path f.name (starts_with-truthy root f.path slash h) in
      rw (sym at_parent, t) (starts_with-more (root ++ slash ∷ []) f.path (slash ∷ f.name) h)
  parent-Inside (inr (inr h)) = rw (sym at_parent) h

  pub child-is_descendant :
      (x ≡ f) ⊎ (is_descendant x f ≡ true) → text_eq n.id x.id ≡ false → is_descendant x n ≡ true
  child-is_descendant (inl e) k =
      let here : n.path ≡ root = cc (at_parent, e) in
      ground (arith, (text_eq_iff n.path root).1 here)
  child-is_descendant (inr h) k = elim (Bool-cases (text_eq f.path root)) [
    | inl y ↦ ground (arith, parent-Inside (inl ((text_eq_iff f.path root).0 y)))
    | inr nn ↦ elim (Bool-cases (starts_with (root ++ slash ∷ []) f.path)) [
      | inl y ↦ ground (arith, parent-Inside (inr (inl y)))
      | inr m ↦ ground (arith, parent-Inside (inr (inr (ground arith))))
    ]
  ]
