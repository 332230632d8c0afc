-- ===== src/Nodes/Synced.antt =====
-- The methods of `NodeRepository` for folders of a synchronisation, and for what it deletes:
-- `ensureSyncedFolder`, `deleteSyncedNodesNotInRefs` and `deleteManagedFilesNotInPaths` of
-- packages/kb-db/src/repositories/node-repository.ts.
use evukb.Common.{
  List, [], ◌∷◌, ◌++◌, Bool, true, false, not, ◌&&◌, if◌then◌else◌, any, filter, map, Option, none,
  some, ok, resume,
}
use evukb.Common.Text.{Text, text_eq, truthy, split}
use evukb.Storage.Posix.{slash}
use evukb.Search.Filters.{NodeSourceType, managed, indexed}
use evukb.Nodes.Rows.{folder, is_file, Node, Table, Query}
use evukb.Nodes.Repository.{
  source_type_eq, list_by_corpus, get_by_path_and_name, list_synced_by_corpus, CreateNodeInput,
  create, delete_many,
}
use evukb.Nodes.Places.{parent_place, build_node_path}

pub record SyncedFolder : Type 0 where
  pub workspace_id : Text
  pub corpus_id : Text
  pub path : Text
  pub name : Text
  pub source_type : NodeSourceType
  pub source_ref : Text

abbrev pub id_of : Option Node → Option Text
id_of none = none
id_of (some n) = some n.id

-- The id of the node at the folder path, if it has one that can be found.
unfoldable pub synced_parent : SyncedFolder → Table → Option Text
unfolding get_by_path_and_name parent_place
synced_parent input t =
    let place = parent_place input.path in
    if truthy input.path && truthy place.name
    then id_of
        (get_by_path_and_name input.workspace_id input.corpus_id place.folder_path place.name t)
    else none

abbrev pub folder_input : SyncedFolder → Option Text → CreateNodeInput
folder_input input parent = record {
  parent_id = parent;
  path = input.path;
  name = input.name;
  node_type = folder;
  storage_rel_path = none;
  source_type = some input.source_type;
  source_ref = some input.source_ref;
  mime_type = none;
  content_hash = none;
  size_bytes = none;
  index_status = some indexed;
}

unfoldable pub put_folder : (Table → Text) → SyncedFolder → Option Node → Query Node
unfolding synced_parent create
put_folder next_id input (some existing) t = (ok existing, t)
put_folder next_id input none t =
    create next_id input.workspace_id input.corpus_id (folder_input input (synced_parent input t)) t

unfoldable pub ensure_synced_folder : (Table → Text) → SyncedFolder → Query Node
unfolding get_by_path_and_name put_folder
ensure_synced_folder next_id input t =
    put_folder next_id input
      (get_by_path_and_name input.workspace_id input.corpus_id input.path input.name t) t

-- Deletes rows that were read, and returns them.
unfoldable pub delete_listed : Text → Text → List Node → Table → List Node × Table
unfolding delete_many
delete_listed workspace corpus [] t = ([], t)
delete_listed workspace corpus (n ∷ ns) t =
    (n ∷ ns, (delete_many workspace corpus (map (λ m. m.id) (n ∷ ns)) t).1)

-- node.sourceRef && !keepSourceRefs.has(node.sourceRef)
abbrev pub is_left_out : List Text → Option Text → Bool
is_left_out keep none = false
is_left_out keep (some ref) = truthy ref && not (any (text_eq ref) keep)

abbrev pub is_stale : List NodeSourceType → List Text → Node → Bool
is_stale source_types keep n =
    any (source_type_eq n.source_type) source_types && is_left_out keep n.source_ref

unfoldable pub delete_synced_not_in_refs :
    Text → Text → List NodeSourceType → List Text → Table → List Node × Table
unfolding list_synced_by_corpus delete_listed
delete_synced_not_in_refs workspace corpus source_types keep t =
    delete_listed workspace corpus
      (filter (is_stale source_types keep) (list_synced_by_corpus workspace corpus none t)) t

abbrev pub is_managed : NodeSourceType → Bool
is_managed managed = true
is_managed _ = false

abbrev pub is_unlisted : List Text → Node → Bool
is_unlisted keep n =
    is_file n.node_type
    && is_managed n.source_type
    && not (any (text_eq (if truthy n.path then n.path ++ slash ∷ n.name else n.name)) keep)

unfoldable pub delete_managed_not_in_paths : Text → Text → List Text → Table → List Node × Table
unfolding list_by_corpus delete_listed
delete_managed_not_in_paths workspace corpus keep t =
    delete_listed workspace corpus (filter (is_unlisted keep) (list_by_corpus workspace corpus t)) t

-- packages/kb-server/src/services/import-shared.ts, `ensureFolderChain`: the loop over the segments
-- of the folder path, which are not empty.
unfoldable pub folder_chain :
    (Table → Text) → SyncedFolder → (Text → Text) → Text → List Text → Query (Unit {0})
unfolding ensure_synced_folder build_node_path
folder_chain next_id input source_ref_at current [] t = (ok tt, t)
folder_chain next_id input source_ref_at current (segment ∷ segments) t =
    let next = build_node_path current segment in
    let folder_here : SyncedFolder = record input {
      path = current;
      name = segment;
      source_ref = source_ref_at next;
    } in
    resume (ensure_synced_folder next_id folder_here t)
      (λ _ t'. folder_chain next_id input source_ref_at next segments t')

unfoldable pub ensure_folder_chain :
    (Table → Text) → Text → Text → Text → NodeSourceType → (Text → Text) → Query (Unit {0})
unfolding folder_chain split
ensure_folder_chain next_id workspace corpus folder_path source_type source_ref_at t =
    let input : SyncedFolder = record {
      workspace_id = workspace;
      corpus_id = corpus;
      path = [];
      name = [];
      source_type = source_type;
      source_ref = [];
    } in
    if truthy folder_path
    then folder_chain next_id input source_ref_at [] (filter truthy (split slash folder_path)) t
    else (ok tt, t)

unfoldable pub resolve_parent_id : Text → Text → Text → Table → Option Text
unfolding get_by_path_and_name parent_place
resolve_parent_id workspace corpus parent_path t =
    let place = parent_place parent_path in
    if truthy parent_path && truthy place.name
    then id_of (get_by_path_and_name workspace corpus place.folder_path place.name t)
    else none
