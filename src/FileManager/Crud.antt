-- ===== src/FileManager/Crud.antt =====
-- `FileManagerService` of packages/kb-server/src/services/file-manager/crud.ts. Each operation is
-- its checks on the state before it, and what it does once they have passed.
use evukb.Common.{
  ℕ, [], ◌∷◌, ◌++◌, Bool, not, ◌&&◌, ◌||◌, ◌==◌, if◌then◌else◌, length, Option, none, some, Result,
  ok, err, ◌>>=◌, resume,
}
use evukb.Common.Text.{Text, codes, ends_with}
use evukb.Common.Value.{Fields, Value}
use evukb.Search.Filters.{managed, pending}
use evukb.Nodes.Rows.{
  Node, NodeType, folder, file, is_file, NodeError, validation, internal_error, node_not_found,
  blob_not_found,
}
use evukb.Nodes.Repository.{
  get_by_id, get_by_path_and_name, create, CreateNodeInput, ContentInput, update_content,
  update_index_status, or_else, ends_with_md, is_some_text,
}
use evukb.Nodes.Places.{build_node_path}
use evukb.FileManager.World.{
  World, create_folder, create_file, save_file, Context, Hook, writeback, okf_created, okf_updated,
  content_changed, Effect, Services, on_nodes, get_blob, put_blob, record_audit,
  managed_blob_rel_path, given,
}
use evukb.FileManager.Guards.{
  normalize_folder_path, normalize_node_name, require_corpus, require_node, assert_editable,
  find_parent, no_other, required, guard,
}

-- Where a new node goes: the normalised place and the folder there.
pub record NewPlace : Type 0 where
  pub path : Text
  pub name : Text
  pub parent_id : Option Text

abbrev pub parent_id_of : Option Node → Option Text
parent_id_of none = none
parent_id_of (some n) = some n.id

abbrev pub managed_input : NewPlace → NodeType → CreateNodeInput
managed_input place node_type = record {
  parent_id = place.parent_id;
  path = place.path;
  name = place.name;
  node_type = node_type;
  storage_rel_path = none;
  source_type = some managed;
  source_ref = none;
  mime_type = none;
  content_hash = none;
  size_bytes = none;
  index_status = none;
}

abbrev pub file_input : NewPlace → Option Text → ℕ → CreateNodeInput
file_input place mime_type size = record (managed_input place file) {
  mime_type = mime_type;
  size_bytes = some size;
  index_status = some pending;
}

abbrev pub full_path : Node → Text
full_path n = build_node_path n.path n.name

abbrev pub require_updated : NodeError → Option Node → Effect Node
require_updated e none w = (err e, w)
require_updated e (some n) w = (ok n, w)

abbrev pub is_markdown : Node → Bool
is_markdown n =
    ends_with_md n.name
    || is_some_text (codes "text/markdown") n.mime_type
    || is_some_text (codes "text/x-markdown") n.mime_type

-- existing, append ↦ combined
unfoldable pub combined : Text → Text → Text
unfolding ends_with
combined [] append = append
combined (c ∷ existing) [] = c ∷ existing
combined (c ∷ existing) (d ∷ append) =
    if not (ends_with (b'\n' ∷ []) (c ∷ existing)) && not (d == b'\n')
    then (c ∷ existing) ++ b'\n' ∷ d ∷ append
    else (c ∷ existing) ++ d ∷ append

module _ (services : Services) (workspace corpus : Text) where
  -- The checks of `createFolder`.
  unfoldable pub folder_place : Text → Text → World → Result NodeError NewPlace
  unfolding normalize_folder_path normalize_node_name get_by_path_and_name find_parent
  folder_place input_path input_name w = do
    _ ← require_corpus services workspace corpus
    path ← normalize_folder_path input_path
    name ← normalize_node_name input_name
    _ ← no_other (get_by_path_and_name workspace corpus path name w.nodes) none
    parent ← find_parent workspace corpus path w.nodes
    ok (record { path = path; name = name; parent_id = parent_id_of parent })

  unfoldable pub create_folder_at : Context → NewPlace → Effect Node
  unfolding create build_node_path record_audit
  create_folder_at context place w =
      resume (on_nodes (create services.next_id workspace corpus (managed_input place folder)) w)
        (λ n w'.
          (ok n, record_audit workspace context (create_folder corpus n.id (full_path n)) w'))

  -- What the operation does at the outcome of its checks.
  abbrev pub checked : {A B : Type 0} → Result NodeError A → (A → Effect B) → Effect B
  checked (err e) act w = (err e, w)
  checked (ok a) act w = act a w

  unfoldable pub create_folder_in : Text → Text → Context → Effect Node
  unfolding folder_place create_folder_at
  create_folder_in path name context w =
      checked (folder_place path name w) (create_folder_at context) w

  abbrev pub okf_allows : Context → Fields → Text → Text → Result NodeError (Unit {0})
  okf_allows context settings name content =
      guard (context.internal || not (services.okf_blocks_save settings name content)) validation

  -- The checks of `createFile`.
  unfoldable pub file_place : Text → Text → Text → Context → World → Result NodeError NewPlace
  unfolding normalize_folder_path normalize_node_name get_by_path_and_name find_parent
  file_place input_path input_name content context w = do
    settings ← require_corpus services workspace corpus
    path ← normalize_folder_path input_path
    name ← normalize_node_name input_name
    _ ← no_other (get_by_path_and_name workspace corpus path name w.nodes) none
    _ ← okf_allows context settings input_name content
    parent ← find_parent workspace corpus path w.nodes
    ok (record { path = path; name = name; parent_id = parent_id_of parent })

  abbrev pub new_metadata : Fields → Text → Node → Value
  new_metadata settings content n =
      services.markdown_metadata settings n.name (services.decode_utf8 content) n.metadata

  -- What `applyMarkdownMetadata` does with the node that it reads; the notification of the event
  -- hub is not modelled.
  unfoldable pub refresh_metadata : Text → Fields → Text → Option Node → Effect (Unit {0})
  unfolding update_index_status ends_with_md
  refresh_metadata id settings content none w = (ok tt, w)
  refresh_metadata id settings content (some n) w =
      if is_markdown n
      then resume
          (on_nodes
            (update_index_status workspace corpus id pending
              (some (new_metadata settings content n)) none)
            w)
          (λ _ w'. (ok tt, w'))
      else (ok tt, w)

  unfoldable pub apply_markdown_metadata : Text → Fields → Text → Effect (Unit {0})
  unfolding get_by_id refresh_metadata
  apply_markdown_metadata id settings content w =
      refresh_metadata id settings content (get_by_id workspace corpus id w.nodes) w

  -- The hook runs unless the call is internal.
  abbrev pub notify_unless_internal : Context → Hook → Effect (Unit {0})
  notify_unless_internal context hook w =
      if context.internal then (ok tt, w) else services.run_hook workspace corpus hook w

  -- `requireNode` at the end of an operation
  abbrev pub read_back : Text → Effect Node
  read_back id w = (require_node workspace corpus id w.nodes, w)

  abbrev pub content_input : Text → Text → Option Text → ContentInput
  content_input content rel_path mime_type = record {
    content_hash = services.sha256_hex content;
    mime_type = mime_type;
    size_bytes = length content;
    storage_rel_path = rel_path;
  }

  -- The blob and the row of a file, in this order.
  unfoldable pub write_content : Text → Text → Text → Option Text → NodeError → Effect Node
  unfolding put_blob update_content
  write_content id rel_path content mime_type missing w =
      resume
        (on_nodes (update_content workspace corpus id (content_input content rel_path mime_type))
          (put_blob workspace corpus rel_path content w))
        (require_updated missing)

  unfoldable pub create_file_at : Text → Option Text → Context → Fields → NewPlace → Effect Node
  unfolding create write_content apply_markdown_metadata build_node_path record_audit require_node
  create_file_at content mime_type context settings place w =
      resume
        (on_nodes
          (create services.next_id workspace corpus (file_input place mime_type (length content)))
          w)
        (λ n w1.
          resume
            (write_content n.id (managed_blob_rel_path n.id) content mime_type internal_error w1)
            (λ saved w2.
              resume (services.run_hook workspace corpus (writeback saved content) w2) (λ _ w3.
                resume (apply_markdown_metadata saved.id settings content w3) (λ _ w4.
                  resume
                    (notify_unless_internal context
                      (okf_created (build_node_path place.path place.name)
                        (services.decode_utf8 content))
                      w4)
                    (λ _ w5.
                      resume
                        (services.run_hook workspace corpus (content_changed saved.id) (
                          record_audit workspace context
                            (create_file corpus saved.id (build_node_path place.path place.name))
                            w5))
                        (λ _ w6. read_back saved.id w6))))))

  unfoldable pub create_file_in : Text → Text → Text → Option Text → Context → Effect Node
  unfolding file_place create_file_at
  create_file_in path name content mime_type context w =
      checked (require_corpus services workspace corpus)
        (λ settings.
          checked (file_place path name content context w)
            (create_file_at content mime_type context settings))
        w

  -- The checks of `saveContent`.
  unfoldable pub savable : Text → Text → Context → World → Result NodeError Node
  unfolding require_node assert_editable
  savable id content context w = do
    settings ← require_corpus services workspace corpus
    n ← require_node workspace corpus id w.nodes
    _ ← guard (is_file n.node_type) validation
    _ ← assert_editable services workspace corpus n
    _ ← okf_allows context settings n.name content
    ok n

  abbrev pub or_kept : Option Text → Option Text → Option Text
  or_kept none kept = kept
  or_kept (some given) kept = some given

  -- `!context.internal && classifyOkfFile(updated.name) === 'concept'`
  abbrev pub notify_concept : Context → Node → Hook → Effect (Unit {0})
  notify_concept context n hook w =
      if services.is_okf_concept n.name then notify_unless_internal context hook w else (ok tt, w)

  unfoldable pub save_content_at : Text → Option Text → Context → Fields → Node → Effect Node
  unfolding write_content apply_markdown_metadata build_node_path record_audit require_node
  save_content_at content mime_type context settings n w =
      resume
        (write_content n.id (or_else n.storage_rel_path (managed_blob_rel_path n.id)) content
          (or_kept mime_type n.mime_type) node_not_found w)
        (λ saved w1.
          resume (services.run_hook workspace corpus (writeback saved content) w1) (λ _ w2.
            resume (apply_markdown_metadata n.id settings content w2) (λ _ w3.
              resume
                (notify_concept context saved
                  (okf_updated (full_path saved) (services.decode_utf8 content)) w3)
                (λ _ w4.
                  resume
                    (services.run_hook workspace corpus (content_changed n.id)
                      (record_audit workspace context (save_file corpus n.id (full_path saved)) w4))
                    (λ _ w5. read_back n.id w5)))))

  unfoldable pub save_content : Text → Text → Option Text → Context → Effect Node
  unfolding savable save_content_at
  save_content id content mime_type context w =
      checked (require_corpus services workspace corpus)
        (λ settings.
          checked (savable id content context w)
            (save_content_at content mime_type context settings))
        w

  -- The node and the bytes of its blob; a blob that is missing throws.
  unfoldable pub read_content : Text → World → Result NodeError (Node × Text)
  unfolding require_node get_blob
  read_content id w = do
    n ← require_node workspace corpus id w.nodes
    _ ← guard (is_file n.node_type) validation
    rel_path ← required validation (given n.storage_rel_path)
    blob ← required blob_not_found (get_blob workspace corpus rel_path w)
    ok (n, blob.body)

  unfoldable pub append_content : Text → Text → Option Text → Context → Effect Node
  unfolding read_content combined save_content
  append_content id body mime_type context w =
      checked (read_content id w)
        (λ found.
          save_content id (services.encode_utf8 (combined (services.decode_utf8 found.1) body))
            mime_type context)
        w
