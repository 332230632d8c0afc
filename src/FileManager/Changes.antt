-- ===== src/FileManager/Changes.antt =====
-- The operations of packages/kb-server/src/services/file-manager/crud.ts that rename, move and
-- delete nodes.
use evukb.Common.{
  ℕ, List, [], ◌∷◌, ◌++◌, Bool, false, not, ◌&&◌, ◌||◌, if◌then◌else◌, any, filter, map, find,
  Option, none, some, Result, ok, ◌>>=◌, resume,
}
use evukb.Common.Text.{Text, text_eq, starts_with}
use evukb.Nodes.Rows.{Node, is_file, NodeError, validation, node_not_found}
use evukb.Nodes.Repository.{
  get_by_path_and_name, list_by_corpus, update_paths_for_prefix, rename, move, delete_many,
}
use evukb.Nodes.Places.{build_node_path}
use evukb.FileManager.World.{
  World, rename_node, move_node, delete_nodes, Context, Hook, delete_writeback, okf_moved,
  okf_deleted, Effect, Services, on_nodes, delete_blob, record_audit, given, Target,
}
use evukb.FileManager.Guards.{
  normalize_folder_path, normalize_node_name, collect_descendants, require_corpus, require_node,
  assert_editable, find_parent, no_other, guard,
}
use evukb.FileManager.Crud.{checked, full_path, parent_id_of, require_updated, notify_concept}

-- parent.id === node.id || parent.path.startsWith(buildNodePath(node.path, node.name))
abbrev pub into_itself : Node → Option Node → Bool
into_itself n none = false
into_itself n (some parent) =
    not (is_file n.node_type) && (text_eq parent.id n.id || starts_with (full_path n) parent.path)

pub record Renaming : Type 0 where
  pub node : Node
  pub name : Text

pub record Moving : Type 0 where
  pub node : Node
  pub parent_id : Option Text
  pub path : Text

-- The set `toDelete`, and the nodes in it.
pub record Deletion : Type 0 where
  pub ids : List Text
  pub gone : List Node

-- The set `toDelete`, as the list of the ids that are added to it.
unfoldable pub to_delete : List Node → List Text → List Text
unfolding collect_descendants
to_delete nodes [] = []
to_delete nodes (id ∷ ids) =
    let rest = to_delete nodes ids in
    elim (find (λ n. text_eq n.id id) nodes) [
      | none ↦ rest
      | some n ↦ collect_descendants n nodes ++ rest
    ]

abbrev pub chosen : List Text → List Node → List Node
chosen ids nodes = filter (λ n. any (text_eq n.id) ids) nodes

abbrev pub files : List Node → List Node
files ns = filter (λ n. is_file n.node_type) ns

module _ (services : Services) (workspace corpus : Text) where
  -- The checks of `renameNode`.
  unfoldable pub renamable : Text → Text → World → Result NodeError Renaming
  unfolding require_node assert_editable normalize_node_name get_by_path_and_name
  renamable id name w = do
    n ← require_node workspace corpus id w.nodes
    _ ← assert_editable services workspace corpus n
    trimmed ← normalize_node_name name
    _ ← no_other (get_by_path_and_name workspace corpus n.path trimmed w.nodes) (some n.id)
    ok (record { node = n; name = trimmed })

  -- The update of what stands under the node, if it is a folder.
  unfoldable pub update_below : Node → Text → Effect (Unit {0})
  unfolding update_paths_for_prefix build_node_path
  update_below n new_path w =
      if is_file n.node_type
      then (ok tt, w)
      else on_nodes (update_paths_for_prefix workspace corpus (full_path n) new_path) w

  abbrev pub after_move : Context → Node → Node → (Text → Text → Text → Text → Target) → Effect Node
  after_move context n updated target w =
      resume
        (notify_concept services workspace corpus context updated
          (okf_moved (full_path updated) (full_path n)) w)
        (λ _ w'. (
          ok updated,
          record_audit workspace context (target corpus n.id (full_path updated) (full_path n)) w',
        ))

  unfoldable pub rename_node_at : Context → Renaming → Effect Node
  unfolding update_below rename build_node_path record_audit
  rename_node_at context r w =
      resume (update_below r.node (build_node_path r.node.path r.name) w) (λ _ w1.
        resume (on_nodes (rename workspace corpus r.node.id r.name r.node.path) w1) (λ row w2.
          resume (require_updated node_not_found row w2)
            (λ updated w3. after_move context r.node updated rename_node w3)))

  unfoldable pub rename_node_to : Text → Text → Context → Effect Node
  unfolding renamable rename_node_at
  rename_node_to id name context w =
      checked services workspace corpus (renamable id name w) (rename_node_at context) w

  -- The checks of `moveNode`.
  unfoldable pub movable : Text → Text → World → Result NodeError Moving
  unfolding require_node assert_editable normalize_folder_path find_parent get_by_path_and_name
      build_node_path starts_with
  movable id target_path w = do
    n ← require_node workspace corpus id w.nodes
    _ ← assert_editable services workspace corpus n
    path ← normalize_folder_path target_path
    parent ← find_parent workspace corpus path w.nodes
    _ ← guard (not (into_itself n parent)) validation
    _ ← no_other (get_by_path_and_name workspace corpus path n.name w.nodes) (some n.id)
    ok (record { node = n; parent_id = parent_id_of parent; path = path })

  unfoldable pub move_node_at : Context → Moving → Effect Node
  unfolding update_below move build_node_path record_audit
  move_node_at context m w =
      resume (update_below m.node (build_node_path m.path m.node.name) w) (λ _ w1.
        resume (on_nodes (move workspace corpus m.node.id m.parent_id m.path) w1) (λ row w2.
          resume (require_updated node_not_found row w2)
            (λ updated w3. after_move context m.node updated move_node w3)))

  unfoldable pub move_node_to : Text → Text → Context → Effect Node
  unfolding movable move_node_at
  move_node_to id target_path context w =
      checked services workspace corpus (movable id target_path w) (move_node_at context) w

  unfoldable pub all_editable : List Node → Result NodeError (Unit {0})
  unfolding assert_editable
  all_editable [] = ok tt
  all_editable (n ∷ ns) = do _ ← assert_editable services workspace corpus n; all_editable ns

  -- A hook for each of the nodes.
  unfoldable pub run_hooks : (Node → Hook) → List Node → Effect (Unit {0})
  run_hooks hook [] w = (ok tt, w)
  run_hooks hook (n ∷ ns) w =
      resume (services.run_hook workspace corpus (hook n) w) (λ _ w'. run_hooks hook ns w')

  abbrev pub delete_blob_at : Option Text → World → World
  delete_blob_at none w = w
  delete_blob_at (some rel_path) w = delete_blob workspace corpus rel_path w

  -- The blobs of the files among the nodes; what the blob store throws is ignored.
  unfoldable pub delete_blobs : List Node → World → World
  unfolding delete_blob
  delete_blobs [] w = w
  delete_blobs (n ∷ ns) w =
      delete_blobs ns
        (if is_file n.node_type then delete_blob_at (given n.storage_rel_path) w else w)

  abbrev pub concepts : List Node → List Node
  concepts ns = filter (λ n. is_file n.node_type && services.is_okf_concept n.name) ns

  -- The checks of `deleteNodes`: the nodes to delete.
  unfoldable pub deletable : List Text → Context → World → Result NodeError Deletion
  unfolding to_delete list_by_corpus all_editable
  deletable ids context w = do
    _ ← require_corpus services workspace corpus
    let nodes = list_by_corpus workspace corpus w.nodes
    let all_ids = to_delete nodes ids
    let gone = chosen all_ids nodes
    _ ← (if context.internal then ok tt else all_editable gone)
    ok (record { ids = all_ids; gone = gone })

  unfoldable pub delete_nodes_now : Context → List Text → Deletion → Effect ℕ
  unfolding run_hooks delete_blobs delete_many build_node_path record_audit
  delete_nodes_now context ids d w =
      resume
        (if context.internal
          then (ok tt, w)
          else run_hooks (λ n. okf_deleted (full_path n)) (concepts d.gone) w)
        (λ _ w1. resume (run_hooks delete_writeback (files d.gone) w1) (λ _ w2.
          let w3 = delete_blobs d.gone w2 in
          let after = delete_many workspace corpus d.ids w3.nodes in
          (
            ok after.0,
            record_audit workspace context (delete_nodes corpus ids after.0)
                (record w3 { nodes = after.1 }),
          )))

  unfoldable pub delete_nodes_of : List Text → Context → Effect ℕ
  unfolding deletable delete_nodes_now
  delete_nodes_of ids context w =
      checked services workspace corpus (deletable ids context w) (delete_nodes_now context ids) w

  unfoldable pub delete_corpus_blobs : World → World
  unfolding list_by_corpus delete_blobs delete_many
  delete_corpus_blobs w =
      let nodes = list_by_corpus workspace corpus w.nodes in
      let w' = delete_blobs nodes w in
      record w' { nodes = (delete_many workspace corpus (map (λ n. n.id) nodes) w'.nodes).1 }
