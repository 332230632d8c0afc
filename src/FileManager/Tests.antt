-- ===== src/FileManager/Tests.antt =====
-- A workspace with one corpus and hooks that do nothing, and the theorems about the file manager
-- on it.
use evukb.Common.{List, [], ◌∷◌, ◌≡◌, refl, true, false, none, some, ok, err, length, filter}
use evukb.Common.Text.{Text, codes, replace_char, split, join, includes, ends_with}
use evukb.Common.Value.{end, object}
use evukb.Search.Filters.{NodeSourceType, managed, git, pending}
use evukb.Nodes.Rows.{Node, NodeType, folder, file, validation, consistent}
use evukb.FileManager.World.{World, Services, Context}
use evukb.FileManager.Changes.{delete_nodes_of, movable}
use evukb.FileManager.Keeps.{HasTree, IsQuiet}
use evukb.FileManager.ReadOnly.{is_read_only, delete_nodes-read_only}
use evukb.FileManager.Calls.{
  Call, call_create_folder, call_create_file, call_append, call_delete, after_calls,
  after_calls-HasTree,
}

abbrev ws : Text
ws = codes "w"

abbrev corpus : Text
corpus = codes "c"

abbrev services : Services
services = record {
  settings_of = λ w c. some end;
  git_writeback_variable = none;
  next_id = λ t. length t ∷ [];
  sha256_hex = λ content. codes "h";
  decode_utf8 = λ bytes. bytes;
  encode_utf8 = λ text. text;
  okf_blocks_save = λ settings name content. false;
  is_okf_concept = λ name. true;
  markdown_metadata = λ settings name content metadata. metadata;
  run_hook = λ w c hook world. (ok tt, world);
}

abbrev user : Context
user = record { internal = false; audited = true }

abbrev empty_world : World
empty_world = record { nodes = []; blobs = []; audit = [] }

empty_tree : HasTree empty_world
unfolding consistent
empty_tree = (record { named = refl; parented = refl; unique = refl }, refl)

quiet : IsQuiet services ws corpus
quiet hook w = refl

abbrev calls : List Call
calls =
    call_create_folder [] (codes "docs") user
    ∷ call_create_file (codes "docs") (codes "a.md") (codes "text") none user
    ∷ call_append (1 ∷ []) (codes "more") none user
    ∷ call_delete ((0 ∷ []) ∷ []) user
    ∷ []

after_calls-HasTree_example : HasTree (after_calls services ws corpus calls empty_world)
after_calls-HasTree_example =
    after_calls-HasTree services ws corpus calls empty_world quiet empty_tree

abbrev node : Text → NodeType → NodeSourceType → Text → Text → Node
node id node_type source_type path name = record {
  id = id;
  workspace_id = ws;
  corpus_id = corpus;
  parent_id = none;
  path = path;
  name = name;
  node_type = node_type;
  storage_rel_path = none;
  source_type = source_type;
  source_ref = none;
  content_hash = none;
  mime_type = none;
  size_bytes = 0;
  index_status = pending;
  metadata = object end;
  indexed_at = none;
}

abbrev mixed_world : World
mixed_world = record {
  nodes =
      node (codes "1") folder managed [] (codes "a")
      ∷ node (codes "2") file managed (codes "a") (codes "f.md")
      ∷ node (codes "3") file git (codes "a") (codes "g.md")
      ∷ [];
  blobs = [];
  audit = [];
}

delete_nodes-read_only_example :
    filter
      (is_read_only services ws corpus end)
      (delete_nodes_of services ws corpus (codes "1" ∷ []) user mixed_world).1.nodes
    ≡ filter (is_read_only services ws corpus end) mixed_world.nodes
delete_nodes-read_only_example =
    delete_nodes-read_only services ws corpus end refl (codes "1" ∷ []) user mixed_world quiet refl

abbrev sibling_world : World
sibling_world = record {
  nodes =
      node (codes "1") folder managed [] (codes "a")
      ∷ node (codes "2") folder managed [] (codes "ab")
      ∷ node (codes "3") folder managed (codes "ab") (codes "x")
      ∷ [];
  blobs = [];
  audit = [];
}

-- The folder "a" cannot be moved into the folder "ab/x", although that is not below it.
sibling_refused :
    movable services ws corpus (codes "1") (codes "ab/x") sibling_world ≡ err validation
unfolding movable replace_char split join includes ends_with
sibling_refused = refl
