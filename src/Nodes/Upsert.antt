-- ===== src/Nodes/Upsert.antt =====
-- The methods of `NodeRepository` that a synchronisation and an import call:
-- packages/kb-db/src/repositories/node-repository.ts, from `upsertSyncedFile` to
-- `deleteManagedFilesNotInPaths`.
use evukb.Common.{
  ℕ, Bool, true, false, not, ◌&&◌, if◌then◌else◌, Option, none, some, Result, ok, err, resume,
}
use evukb.Common.Text.{Text, text_eq, truthy}
use evukb.Common.Value.{Value}
use evukb.Search.Filters.{NodeSourceType, import, pending}
use evukb.Nodes.Rows.{
  file, Node, Table, NodeError, no_row_returned, Query, insert_row, update_where,
}
use evukb.Nodes.Repository.{
  is_node, is_some_text, is_hash, get_by_id_in, get_by_path_and_name, get_by_source_ref,
  CreateNodeInput, new_row,
}

pub record SyncedFile : Type 0 where
  pub workspace_id : Text
  pub corpus_id : Text
  pub parent_id : Option Text
  pub path : Text
  pub name : Text
  pub source_type : NodeSourceType
  pub source_ref : Text
  pub storage_rel_path : Text
  pub content_hash : Text
  pub mime_type : Option Text
  pub size_bytes : ℕ
  pub changed : Bool

-- `if (!row) throw`
abbrev pub require_row : Result NodeError (Option Node) × Table → Result NodeError Node × Table
require_row answer =
    resume answer (λ row t. elim row [ none ↦ (err no_row_returned, t) | some n ↦ (ok n, t) ])

abbrev pub synced_onto : SyncedFile → Node → Node
synced_onto input n = record n {
  parent_id = input.parent_id;
  path = input.path;
  name = input.name;
  storage_rel_path = some input.storage_rel_path;
  content_hash = some input.content_hash;
  mime_type = input.mime_type;
  size_bytes = input.size_bytes;
  index_status = pending;
}

abbrev pub synced_input : SyncedFile → CreateNodeInput
synced_input input = record {
  parent_id = input.parent_id;
  path = input.path;
  name = input.name;
  node_type = file;
  storage_rel_path = some input.storage_rel_path;
  source_type = some input.source_type;
  source_ref = some input.source_ref;
  mime_type = input.mime_type;
  content_hash = some input.content_hash;
  size_bytes = some input.size_bytes;
  index_status = some pending;
}

-- What is done with the node that has the source already, or without one.
unfoldable pub put_synced : (Table → Text) → SyncedFile → Option Node → Query Node
unfolding insert_row update_where
put_synced next_id input (some existing) t =
    if not input.changed && is_hash input.content_hash existing
    then (ok existing, t)
    else require_row (
        update_where (is_node input.workspace_id input.corpus_id existing.id) (synced_onto input) t)
put_synced next_id input none t =
    insert_row (new_row (next_id t) input.workspace_id input.corpus_id (synced_input input)) t

unfoldable pub upsert_synced_file : (Table → Text) → SyncedFile → Query Node
unfolding get_by_source_ref put_synced
upsert_synced_file next_id input t =
    put_synced next_id input
      (get_by_source_ref input.workspace_id input.corpus_id input.source_type input.source_ref t) t

pub record PortableFile : Type 0 where
  pub workspace_id : Text
  pub corpus_id : Text
  pub parent_id : Option Text
  pub path : Text
  pub name : Text
  pub preferred_node_id : Option Text
  pub source_ref : Text
  pub storage_rel_path : Text
  pub content_hash : Text
  pub mime_type : Option Text
  pub size_bytes : ℕ
  pub metadata : Value

pub data Outcome : Type 0 where
  created updated unchanged : Outcome

pub record PortableResult : Type 0 where
  pub node : Node
  pub outcome : Outcome
  pub preferred_id_used : Bool

-- existing.id === input.preferredNodeId
abbrev pub is_preferred : PortableFile → Node → Bool
is_preferred input n = is_some_text n.id input.preferred_node_id

abbrev pub portable_onto : PortableFile → Node → Node
portable_onto input n = record n {
  parent_id = input.parent_id;
  path = input.path;
  name = input.name;
  storage_rel_path = some input.storage_rel_path;
  content_hash = some input.content_hash;
  mime_type = input.mime_type;
  size_bytes = input.size_bytes;
  metadata = input.metadata;
  index_status = pending;
}

-- The update of the node at the same path keeps its place and takes the source over.
abbrev pub portable_over : PortableFile → Node → Node
portable_over input n = record n {
  source_type = import;
  source_ref = some input.source_ref;
  storage_rel_path = some input.storage_rel_path;
  content_hash = some input.content_hash;
  mime_type = input.mime_type;
  size_bytes = input.size_bytes;
  metadata = input.metadata;
  index_status = pending;
}

abbrev pub portable_row : Text → PortableFile → Node
portable_row id input = record {
  id = id;
  workspace_id = input.workspace_id;
  corpus_id = input.corpus_id;
  parent_id = input.parent_id;
  path = input.path;
  name = input.name;
  node_type = file;
  storage_rel_path = some input.storage_rel_path;
  source_type = import;
  source_ref = some input.source_ref;
  content_hash = some input.content_hash;
  mime_type = input.mime_type;
  size_bytes = input.size_bytes;
  index_status = pending;
  metadata = input.metadata;
  indexed_at = none;
}

-- The two branches for a node that is there already.
unfoldable pub refresh_portable : PortableFile → (Node → Node) → Node → Query PortableResult
unfolding update_where
refresh_portable input change n t =
    let kept : PortableResult = record {
      node = n;
      outcome = unchanged;
      preferred_id_used = is_preferred input n;
    } in
    if is_hash input.content_hash n
    then (ok kept, t)
    else resume
        (require_row (update_where (is_node input.workspace_id input.corpus_id n.id) change t))
        (λ row t'. (
          ok (record { node = row; outcome = updated; preferred_id_used = is_preferred input n }),
          t',
        ))

-- The id to insert with: the preferred one, unless it is empty or another node occupies it.
unfoldable pub insert_id : PortableFile → Table → Option Text
unfolding get_by_id_in
insert_id input t = elim input.preferred_node_id [
  | none ↦ none
  | some id ↦ elim (get_by_id_in input.workspace_id id t) [
    | none ↦ if truthy id then some id else none
    | some n ↦
        if truthy id
          && text_eq n.corpus_id input.corpus_id
          && text_eq n.path input.path
          && text_eq n.name input.name
        then some id
        else none
  ]
]

unfoldable pub insert_portable : (Table → Text) → PortableFile → Option Text → Query PortableResult
unfolding insert_row
insert_portable next_id input (some id) t =
    resume (insert_row (portable_row id input) t)
      (λ row t'. (ok (record { node = row; outcome = created; preferred_id_used = true }), t'))
insert_portable next_id input none t =
    resume (insert_row (portable_row (next_id t) input) t)
      (λ row t'. (ok (record { node = row; outcome = created; preferred_id_used = false }), t'))

-- The nodes with the source and at the path, as far as there are any.
unfoldable pub put_portable :
    (Table → Text) → PortableFile → Option Node → Option Node → Query PortableResult
unfolding refresh_portable insert_portable insert_id
put_portable next_id input (some n) _ t = refresh_portable input (portable_onto input) n t
put_portable next_id input none (some n) t = refresh_portable input (portable_over input) n t
put_portable next_id input none none t = insert_portable next_id input (insert_id input t) t

unfoldable pub upsert_portable_file : (Table → Text) → PortableFile → Query PortableResult
unfolding get_by_source_ref get_by_path_and_name put_portable
upsert_portable_file next_id input t =
    put_portable next_id input
      (get_by_source_ref input.workspace_id input.corpus_id import input.source_ref t)
      (get_by_path_and_name input.workspace_id input.corpus_id input.path input.name t) t
