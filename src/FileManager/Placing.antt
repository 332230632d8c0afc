-- ===== src/FileManager/Placing.antt =====
-- What the checks before a creation give: a name, a folder to put the node in, and a free place.
use evukb.Common.{
  ℕ, [], ◌∷◌, ◌≡◌, refl, sym, ◌∙◌, inl, inr, Bool, true, false, not, ◌||◌, Bool-cases, any, find,
  Option, none, some, Result, ok, err, >>=-ok, arith,
}
use evukb.Common.Text.{
  Text, text_eq, text_eq_iff, text_eq_refl, starts_with, truthy, trim, drop_leading, drop_trailing,
}
use evukb.Storage.Posix.{slash}
use evukb.Storage.PathSafety.{PathError, normalize_relative_path}
use evukb.Storage.PathSafety.Laws.{IsRelative-first, normalize_relative_path-IsRelative}
use evukb.AgentWrite.PathPolicy.{is_slash}
use evukb.Nodes.Rows.{Node, NodeType, is_file, Table}
use evukb.Nodes.Repository.{is_at, get_by_path_and_name}
use evukb.Nodes.Places.{build_node_path, parent_place, build_node_path-parent_place}
use evukb.FileManager.Guards.{
  normalize_folder_path, normalize_node_name, as_validation, require_folder, find_parent,
}
use evukb.FileManager.Crud.{parent_id_of}
use evukb.FileManager.Tree.{Place, place_of, places, is_parent, has_parent}

pub find-some :
    (p : Node → Bool) (q : Place → Bool) (t : Table) (f : Node)
    → find p t ≡ some f
    → (p f ≡ true) × (q (place_of f) ≡ true → any q (places t) ≡ true)
find-some p q [] f e = cc
find-some p q (n ∷ t) f e = elim (Bool-cases (p n)) [
  | inl y ↦ (ground arith, λ h. ground arith)
  | inr nn ↦ let (x, k) = find-some p q t f (ground arith) in (x, λ h. ground (arith, k h))
]

pub find-none :
    (p : Node → Bool) (q : Place → Bool) (t : Table)
    → ((n : Node) → q (place_of n) ≡ p n)
    → find p t ≡ none
    → any q (places t) ≡ false
find-none p q [] h e = refl
find-none p q (n ∷ t) h e = ground (arith, h n, find-none p q t h)

as_validation-ok :
    (r : Result PathError Text) (path : Text) → as_validation r ≡ ok path → r ≡ ok path
as_validation-ok (ok a) path e = ground arith
as_validation-ok (err x) path e = cc

relative-first :
    (input path : Text)
    → normalize_relative_path input ≡ ok path
    → starts_with (slash ∷ []) path ≡ false
unfolding starts_with
relative-first input path e =
    let (c, t, q, n) = IsRelative-first (normalize_relative_path-IsRelative input path e) in
    ground arith

-- A folder path never starts with a slash.
pub normalize_folder_path-first :
    (input path : Text)
    → normalize_folder_path input ≡ ok path
    → starts_with (slash ∷ []) path ≡ false
unfolding normalize_folder_path
normalize_folder_path-first input path e =
    elim (Bool-cases (not (truthy input) || text_eq input (slash ∷ []))) [
      | inl y ↦ unfold starts_with in ground arith
      | inr nn ↦
          let trimmed = drop_trailing is_slash (drop_leading is_slash input) in
          relative-first trimmed path
            (as_validation-ok (normalize_relative_path trimmed) path (ground arith))
    ]

pub normalize_node_name-truthy :
    (input name : Text) → normalize_node_name input ≡ ok name → truthy name ≡ true
unfolding normalize_node_name
normalize_node_name-truthy input name e = elim (Bool-cases (truthy (trim input))) [
  | inl y ↦
      let (v, x, z) =
        >>=-ok (as_validation (normalize_relative_path (trim input))) (λ _. ok (trim input))
          (sym (rw y refl) ∙ e) in
      ground arith
  | inr nn ↦ ground arith
]

require_folder-ok :
    (o : Option Node) (f : Node)
    → require_folder o ≡ ok f
    → (o ≡ some f) × (is_file f.node_type ≡ false)
require_folder-ok none f e = cc
require_folder-ok (some n) f e = ground arith

module _ (workspace corpus id name : Text) (node_type : NodeType) where
  abbrev pub placed : Text → Option Text → Place
  placed path parent_id = record {
    id = id;
    workspace_id = workspace;
    corpus_id = corpus;
    parent_id = parent_id;
    path = path;
    name = name;
    node_type = node_type;
  }

  folder-is_parent :
      (c : ℕ) (path : Text) (f : Node)
      → let at = parent_place (c ∷ path) in
        is_at workspace corpus at.folder_path at.name f ≡ true
        → is_file f.node_type ≡ false
        → starts_with (slash ∷ []) (c ∷ path) ≡ false
        → is_parent (placed (c ∷ path) (some f.id)) (place_of f) ≡ true
  folder-is_parent c path f h k s =
      let at = parent_place (c ∷ path) in
      let same : build_node_path f.path f.name ≡ c ∷ path = cc (
        build_node_path-parent_place (c ∷ path) s,
        (text_eq_iff f.path at.folder_path).0 (ground arith),
        (text_eq_iff f.name at.name).0 (ground arith),
      ) in
      ground
        (arith, text_eq_refl f.id, (text_eq_iff (build_node_path f.path f.name) (c ∷ path)).1 same)

  -- The parent that is found is the parent of a new node at the path.
  pub find_parent-has_parent :
      (path : Text) (t : Table) (parent : Option Node)
      → find_parent workspace corpus path t ≡ ok parent
      → starts_with (slash ∷ []) path ≡ false
      → has_parent (places t) (placed path (parent_id_of parent)) ≡ true
  unfolding find_parent get_by_path_and_name
  find_parent-has_parent [] t none e s = refl
  find_parent-has_parent [] t (some f) e s = cc
  find_parent-has_parent (c ∷ path) t parent e s =
      let at = parent_place (c ∷ path) in
      elim (Bool-cases (truthy at.name)) [
        | inr nn ↦ ground arith
        | inl y ↦
            let found = get_by_path_and_name workspace corpus at.folder_path at.name t in
            let (f, x, z) =
              >>=-ok (require_folder found) (λ p. ok (some p)) (sym (rw y refl) ∙ e) in
            let (there, k) = require_folder-ok found f x in
            let (h, into) =
              find-some (is_at workspace corpus at.folder_path at.name)
                (is_parent (placed (c ∷ path) (parent_id_of parent))) t f there in
            into (ground (arith, folder-is_parent c path f h k s))
      ]
