-- ===== src/FileManager/World.antt =====
-- The state of packages/kb-server/src/services/file-manager/crud.ts: the table of nodes, the blob
-- store and the audit log; and what the service calls and does not define, which is any functions
-- at all: the settings of the corpora, the generated ids, the hash, the UTF-8 codec, the checks of
-- OKF documents and the hooks (writebacks to mounts and to git, index maintenance, notifications).
use evukb.Common.{
  ℕ, List, [], ◌∷◌, ◌++◌, Bool, not, ◌&&◌, if◌then◌else◌, Option, none, some, Result, find, remove,
}
use evukb.Common.Text.{Text, codes, text_eq}
use evukb.Common.Value.{Value, Fields}
use evukb.Nodes.Rows.{Node, Table, NodeError, Query}

pub record Blob : Type 0 where
  pub workspace_id : Text
  pub corpus_id : Text
  pub rel_path : Text
  pub body : Text

pub data Target : Type 0 where
  create_folder create_file save_file : (corpus id path : Text) → Target
  rename_node move_node : (corpus id path previous_path : Text) → Target
  delete_nodes : (corpus : Text) → (ids : List Text) → (deleted : ℕ) → Target

pub record Audit : Type 0 where
  pub workspace_id : Text
  pub target : Target

pub record World : Type 0 where
  pub nodes : Table
  pub blobs : List Blob
  pub audit : List Audit

-- `FileMutationContext`: whether the call is internal, and whether there is an actor to audit.
pub record Context : Type 0 where
  pub internal : Bool
  pub audited : Bool

-- The hooks.
pub data Hook : Type 0 where
  writeback : Node → (content : Text) → Hook
  delete_writeback : Node → Hook
  okf_created okf_updated : (file_path content : Text) → Hook
  okf_moved : (file_path previous_file_path : Text) → Hook
  okf_deleted : (file_path : Text) → Hook
  content_changed : (id : Text) → Hook

-- An action of the service: what it returns or throws, and the state that it leaves.
abbrev pub Effect : Type 0 → Type 0
Effect A = World → Result NodeError A × World

pub record Services : Type 0 where
  pub settings_of : Text → Text → Option Fields
  pub git_writeback_variable : Option Text
  pub next_id : Table → Text
  pub sha256_hex : Text → Text
  pub decode_utf8 : Text → Text
  pub encode_utf8 : Text → Text
  pub okf_blocks_save : Fields → Text → Text → Bool
  pub is_okf_concept : Text → Bool
  pub markdown_metadata : Fields → Text → Text → Value → Value
  pub run_hook : Text → Text → Hook → Effect (Unit {0})

abbrev pub on_nodes : {A : Type 0} → Query A → Effect A
on_nodes query w = let answer = query w.nodes in (answer.0, record w { nodes = answer.1 })

abbrev pub is_blob : Text → Text → Text → Blob → Bool
is_blob workspace corpus rel_path b =
    text_eq b.workspace_id workspace && text_eq b.corpus_id corpus && text_eq b.rel_path rel_path

unfoldable pub get_blob : Text → Text → Text → World → Option Blob
get_blob workspace corpus rel_path w = find (is_blob workspace corpus rel_path) w.blobs

unfoldable pub delete_blob : Text → Text → Text → World → World
delete_blob workspace corpus rel_path w = record w {
  blobs = remove (is_blob workspace corpus rel_path) w.blobs;
}

unfoldable pub put_blob : Text → Text → Text → Text → World → World
put_blob workspace corpus rel_path body w =
    let blob : Blob = record {
      workspace_id = workspace;
      corpus_id = corpus;
      rel_path = rel_path;
      body = body;
    } in
    record w { blobs = blob ∷ remove (is_blob workspace corpus rel_path) w.blobs }

unfoldable pub record_audit : Text → Context → Target → World → World
record_audit workspace context target w =
    let entry : Audit = record { workspace_id = workspace; target = target } in
    if context.audited && not context.internal
    then record w { audit = w.audit ++ entry ∷ [] }
    else w

abbrev pub managed_blob_rel_path : Text → Text
managed_blob_rel_path id = codes "managed/" ++ id

-- A text, if it is there and not empty.
abbrev pub given : Option Text → Option Text
given none = none
given (some []) = none
given (some (c ∷ t)) = some (c ∷ t)
