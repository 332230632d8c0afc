-- ===== src/FileManager/Calls.antt =====
-- Any sequence of calls that create, save, append and delete keeps the nodes a tree.
use evukb.Common.{List, [], ◌∷◌, Option}
use evukb.Common.Text.{Text}
use evukb.FileManager.World.{World, Context, Services}
use evukb.FileManager.Crud.{create_folder_in, create_file_in, save_content, append_content}
use evukb.FileManager.Changes.{delete_nodes_of}
use evukb.FileManager.Keeps.{HasTree, IsQuiet}
use evukb.FileManager.Creation.{create_folder-HasTree, create_file-HasTree}
use evukb.FileManager.Upkeep.{delete_nodes-Keeps, save_content-Keeps, append_content-Keeps}

pub data Call : Type 0 where
  call_create_folder : (path name : Text) → Context → Call
  call_create_file : (path name content : Text) → Option Text → Context → Call
  call_save : (id content : Text) → Option Text → Context → Call
  call_append : (id body : Text) → Option Text → Context → Call
  call_delete : (ids : List Text) → Context → Call

module _ (services : Services) (workspace corpus : Text) where
  -- The state after a call, whether it returns or throws.
  abbrev pub after_call : Call → World → World
  after_call (call_create_folder path name context) w =
      (create_folder_in services workspace corpus path name context w).1
  after_call (call_create_file path name content mime_type context) w =
      (create_file_in services workspace corpus path name content mime_type context w).1
  after_call (call_save id content mime_type context) w =
      (save_content services workspace corpus id content mime_type context w).1
  after_call (call_append id body mime_type context) w =
      (append_content services workspace corpus id body mime_type context w).1
  after_call (call_delete ids context) w =
      (delete_nodes_of services workspace corpus ids context w).1

  abbrev pub after_calls : List Call → World → World
  after_calls [] w = w
  after_calls (c ∷ cs) w = after_calls cs (after_call c w)

  after_call-Keeps :
      IsQuiet services workspace corpus
      → (c : Call) (w : World) → HasTree w
      → HasTree (after_call c w)
  after_call-Keeps quiet (call_create_folder path name context) w sound =
      create_folder-HasTree services workspace corpus path name context w sound
  after_call-Keeps quiet (call_create_file path name content mime_type context) w sound =
      create_file-HasTree services workspace corpus quiet path name content mime_type context w
        sound
  after_call-Keeps quiet (call_save id content mime_type context) w sound =
      save_content-Keeps services workspace corpus quiet id content mime_type context w sound
  after_call-Keeps quiet (call_append id body mime_type context) w sound =
      append_content-Keeps services workspace corpus quiet id body mime_type context w sound
  after_call-Keeps quiet (call_delete ids context) w sound =
      delete_nodes-Keeps services workspace corpus quiet ids context w sound

  -- If the hooks leave the nodes alone, then after any calls that create folders and files, save,
  -- append and delete, whether they return or throw, the nodes are a tree, if they were one
  -- before: every node has a name, a node at the root has no parent, any other one has its parent
  -- among the folders of its corpus, whose full path is the node's path, and no two nodes of a
  -- corpus have the same path and name. The table's constraints hold as well.
  pub after_calls-HasTree :
      (calls : List Call) (w : World)
      → IsQuiet services workspace corpus
      → HasTree w
      → HasTree (after_calls calls w)
  after_calls-HasTree [] w quiet sound = sound
  after_calls-HasTree (c ∷ cs) w quiet sound =
      after_calls-HasTree cs (after_call c w) quiet (after_call-Keeps quiet c w sound)
