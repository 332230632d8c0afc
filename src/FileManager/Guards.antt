-- ===== src/FileManager/Guards.antt =====
-- The checks of packages/kb-server/src/services/file-manager/crud.ts before a change, and the
-- helpers of helpers.ts: the normalised folder path and name, the folder at a path, and what
-- stands under a node.
use evukb.Common.{
  List, [], ◌∷◌, ◌++◌, Bool, true, false, not, ◌&&◌, ◌||◌, if◌then◌else◌, filter, map, Option, none,
  some, Result, ok, err, ◌>>=◌,
}
use evukb.Common.Text.{Text, text_eq, starts_with, truthy, trim, drop_leading, drop_trailing}
use evukb.Common.Value.{Fields}
use evukb.Storage.Posix.{slash}
use evukb.Storage.PathSafety.{PathError, normalize_relative_path}
use evukb.AgentWrite.PathPolicy.{is_slash}
use evukb.Nodes.Rows.{
  Node, is_file, Table, NodeError, corpus_not_found, node_not_found, conflict, validation,
  forbidden,
}
use evukb.Nodes.Repository.{get_by_id, get_by_path_and_name}
use evukb.Nodes.Places.{parent_place, build_node_path}
use evukb.Sync.Mutability.{resolve_node_mutability, is_editable, is_corpus_git_writeback_active}
use evukb.FileManager.World.{Services}

-- The `try` around `normalizeRelativePath`.
abbrev pub as_validation : Result PathError Text → Result NodeError Text
as_validation (ok path) = ok path
as_validation (err e) = err validation

unfoldable pub normalize_folder_path : Text → Result NodeError Text
unfolding normalize_relative_path drop_leading drop_trailing
normalize_folder_path input =
    if not (truthy input) || text_eq input (slash ∷ [])
    then ok []
    else as_validation
        (normalize_relative_path (drop_trailing is_slash (drop_leading is_slash input)))

unfoldable pub normalize_node_name : Text → Result NodeError Text
unfolding normalize_relative_path trim
normalize_node_name name =
    let trimmed = trim name in
    if truthy trimmed
    then (do _ ← as_validation (normalize_relative_path trimmed); ok trimmed)
    else err validation

-- The ids that `collectDescendants` adds: the root's and those of all nodes under it.
abbrev pub is_descendant : Node → Node → Bool
is_descendant root n =
    let root_path = build_node_path root.path root.name in
    not (text_eq n.id root.id)
    && (text_eq n.path root_path
        || starts_with (root_path ++ slash ∷ []) n.path
        || starts_with (root_path ++ slash ∷ []) (build_node_path n.path n.name))

unfoldable pub collect_descendants : Node → List Node → List Text
unfolding build_node_path starts_with
collect_descendants root nodes = root.id ∷ map (λ n. n.id) (filter (is_descendant root) nodes)

-- if (!test) throw
abbrev pub guard : Bool → NodeError → Result NodeError (Unit {0})
guard true e = ok tt
guard false e = err e

-- A read of an optional value that throws if there is none.
abbrev pub required : {A : Type 0} → NodeError → Option A → Result NodeError A
required e none = err e
required e (some a) = ok a

abbrev pub require_corpus : Services → Text → Text → Result NodeError Fields
require_corpus services workspace corpus =
    required corpus_not_found (services.settings_of workspace corpus)

unfoldable pub require_node : Text → Text → Text → Table → Result NodeError Node
unfolding get_by_id
require_node workspace corpus id t = required node_not_found (get_by_id workspace corpus id t)

-- `assertEditable`
unfoldable pub assert_editable : Services → Text → Text → Node → Result NodeError (Unit {0})
unfolding resolve_node_mutability is_corpus_git_writeback_active
assert_editable services workspace corpus n = do
  settings ← require_corpus services workspace corpus
  let active = is_corpus_git_writeback_active settings services.git_writeback_variable
  guard (is_editable (resolve_node_mutability n.source_type n.node_type active)) forbidden

-- The node, if it is a folder.
abbrev pub require_folder : Option Node → Result NodeError Node
require_folder none = err validation
require_folder (some n) = if is_file n.node_type then err validation else ok n

-- The folder at a path that is not empty; there is none at the root.
unfoldable pub find_parent : Text → Text → Text → Table → Result NodeError (Option Node)
unfolding parent_place get_by_path_and_name
find_parent workspace corpus [] t = ok none
find_parent workspace corpus (c ∷ path) t =
    let place = parent_place (c ∷ path) in
    if truthy place.name
    then (do
      parent ← require_folder (get_by_path_and_name workspace corpus place.folder_path place.name t)
      ok (some parent))
    else err validation

-- A node at the place, other than the node with the given id, if one is given.
abbrev pub no_other : Option Node → Option Text → Result NodeError (Unit {0})
no_other none given = ok tt
no_other (some n) none = err conflict
no_other (some n) (some id) = if text_eq n.id id then ok tt else err conflict
