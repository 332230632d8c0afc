-- ===== src/Nodes/Tests.antt =====
-- Two corpora with folders and files, and the theorems about the repository on them.
use evukb.Common.{
  List, [], ◌∷◌, ◌++◌, ◌≡◌, ◌≤◌, refl, ap, inl, inr, true, false, Bool-cases, none, some, ok,
  length, length-append, All, filter, arith,
}
use evukb.Common.Text.{Text, codes, text_eq, text_eq_iff, starts_with, truthy, split}
use evukb.Common.Value.{object, end}
use evukb.Search.Filters.{managed, shared_mount, pending}
use evukb.Nodes.Rows.{Node, NodeType, folder, file, Table, consistent}
use evukb.Nodes.Repository.{next_path}
use evukb.Nodes.Others.{others}
use evukb.Nodes.Isolation.{
  Method, call_update_paths, call_delete_many, call_rename, after_methods, other_corpora_stay,
}
use evukb.Nodes.Moves.{shifted, moves}
use evukb.Nodes.Upsert.{SyncedFile, upsert_synced_file}
use evukb.Nodes.Synced.{ensure_folder_chain}
use evukb.Nodes.Chain.{IsFresh, Grown, ChainStands, ensure_folder_chain-ChainStands}
use evukb.Storage.Posix.{slash}
use evukb.Nodes.Sourced.{Synced, upsert_synced_file-Synced}

tests_run : Unit {0}
unfolding text_eq starts_with consistent next_path
tests_run = tt

abbrev ws : Text
ws = codes "w"

abbrev corpus : Text
corpus = codes "c"

abbrev node : Text → Text → NodeType → Text → Text → Node
node id corpus_id node_type path name = record {
  id = id;
  workspace_id = ws;
  corpus_id = corpus_id;
  parent_id = none;
  path = path;
  name = name;
  node_type = node_type;
  storage_rel_path = none;
  source_type = managed;
  source_ref = none;
  content_hash = none;
  mime_type = none;
  size_bytes = 0;
  index_status = pending;
  metadata = object end;
  indexed_at = none;
}

abbrev table : Table
table =
    node (codes "1") corpus folder [] (codes "a")
    ∷ node (codes "2") corpus file (codes "a") (codes "f.md")
    ∷ node (codes "3") corpus file (codes "a/b") (codes "g.md")
    ∷ node (codes "4") corpus file (codes "ab") (codes "g.md")
    ∷ node (codes "5") (codes "other") file (codes "a") (codes "f.md")
    ∷ []

abbrev next_id : Table → Text
next_id t = length t ∷ []

table-consistent : consistent table ≡ true
unfolding tests_run
table-consistent = refl

abbrev calls : List Method
calls =
    call_update_paths (codes "a") (codes "z")
    ∷ call_rename (codes "1") (codes "z") []
    ∷ call_delete_many (codes "2" ∷ codes "5" ∷ [])
    ∷ []

other_corpora_stay_example :
    others ws corpus (after_methods next_id ws corpus calls table) ≡ others ws corpus table
other_corpora_stay_example = other_corpora_stay next_id ws corpus calls table

-- The nodes in the folder "a" go to "z", and the one in "ab" stays.
moved_paths :
    shifted (codes "a") (codes "z") (moves ws corpus (codes "a")) table
    ≡ node (codes "1") corpus folder [] (codes "a")
      ∷ node (codes "2") corpus file (codes "z") (codes "f.md")
      ∷ node (codes "3") corpus file (codes "z/b") (codes "g.md")
      ∷ node (codes "4") corpus file (codes "ab") (codes "g.md")
      ∷ node (codes "5") (codes "other") file (codes "a") (codes "f.md")
      ∷ []
unfolding tests_run
moved_paths = refl

abbrev scanned : SyncedFile
scanned = record {
  workspace_id = ws;
  corpus_id = corpus;
  parent_id = some (codes "1");
  path = codes "a";
  name = codes "h.md";
  source_type = shared_mount;
  source_ref = codes "a/h.md";
  storage_rel_path = codes "import/6";
  content_hash = codes "h";
  mime_type = none;
  size_bytes = 1;
  changed = true;
}

upsert_synced_file-Synced_example :
    Synced next_id scanned table (upsert_synced_file next_id scanned table)
upsert_synced_file-Synced_example = upsert_synced_file-Synced next_id scanned table table-consistent

-- An id that is longer than all ids of the table together.
abbrev all_ids : Table → Text
all_ids [] = []
all_ids (n ∷ t) = n.id ++ all_ids t

abbrev long_id : Table → Text
long_id t = 0 ∷ all_ids t

shorter_differs : (s t : Text) → length s ≤ length t → text_eq s (0 ∷ t) ≡ false
shorter_differs s t h = elim (Bool-cases (text_eq s (0 ∷ t))) [
  | inl y ↦ absurd (omega (arith, h, ap length ((text_eq_iff s (0 ∷ t)).0 y)))
  | inr nn ↦ nn
]

all_ids-longer :
    (s : Text) (t : Table)
    → length (all_ids t) ≤ length s
    → All (λ n. text_eq n.id (0 ∷ s) ≡ false) t
all_ids-longer s [] h = tt
all_ids-longer s (n ∷ t) h = (
  shorter_differs n.id s (omega (arith, h, length-append n.id (all_ids t))),
  all_ids-longer s t (omega (arith, h, length-append n.id (all_ids t))),
)

long_id-IsFresh : IsFresh long_id
long_id-IsFresh t = all_ids-longer (all_ids t) t (omega arith)

abbrev new_folder : Text
new_folder = codes "a/new"

ensure_folder_chain-ChainStands_example :
    (t' : Table) × (ensure_folder_chain long_id ws corpus new_folder shared_mount
        (λ path. path)
        table
      ≡ (ok tt, t'))
    × Grown long_id long_id-IsFresh ws corpus table t'
    × ChainStands long_id long_id-IsFresh ws corpus [] (filter truthy (split slash new_folder)) t'
ensure_folder_chain-ChainStands_example =
    ensure_folder_chain-ChainStands long_id ws corpus new_folder shared_mount (λ path. path) table
      long_id-IsFresh refl table-consistent
