-- ===== src/Sync/Mutability.antt =====
-- packages/kb-core/src/sync/mutability.ts: which nodes a user may edit. A variable of the
-- environment is `none` where it is not set.
use evukb.Common.{Bool, true, false, ◌&&◌, if◌then◌else◌, Option, none, some}
use evukb.Common.Text.{Text, codes, text_eq, starts_with, replace_char}
use evukb.Common.Value.{Fields}
use evukb.Storage.Posix.{slash}
use evukb.Storage.PathSafety.{backslash}
use evukb.Search.Filters.{NodeSourceType, managed, import, shared_mount, git, reference}
use evukb.Nodes.Rows.{NodeType, folder, file}
use evukb.Sync.Settings.{ImportKind, parse_corpus_sync_settings}

-- `editable`, or the reason why not.
pub data NodeMutability : Type 0 where
  editable read_only_mount read_only_git read_only_reference : NodeMutability

abbrev pub is_editable : NodeMutability → Bool
is_editable editable = true
is_editable _ = false

unfoldable pub resolve_node_mutability : NodeSourceType → NodeType → Bool → NodeMutability
resolve_node_mutability managed folder enabled = editable
resolve_node_mutability managed file enabled = editable
resolve_node_mutability import node_type enabled = editable
resolve_node_mutability git node_type true = editable
resolve_node_mutability git node_type false = read_only_git
resolve_node_mutability shared_mount node_type enabled = read_only_mount
resolve_node_mutability reference node_type enabled = read_only_reference

-- env.EVUKB_ENABLE_GIT_WRITEBACK === 'true'
unfoldable pub is_git_writeback_enabled : Option Text → Bool
unfolding text_eq
is_git_writeback_enabled none = false
is_git_writeback_enabled (some value) = text_eq value (codes "true")

abbrev pub is_git_kind : Option ImportKind → Bool
is_git_kind (some ImportKind.git) = true
is_git_kind _ = false

abbrev pub is_some_true : Option Bool → Bool
is_some_true (some b) = b
is_some_true none = false

unfoldable pub is_corpus_git_writeback_active : Fields → Option Text → Bool
unfolding is_git_writeback_enabled parse_corpus_sync_settings
is_corpus_git_writeback_active settings variable =
    let sync = parse_corpus_sync_settings settings in
    is_git_writeback_enabled variable
    && is_git_kind sync.import_kind
    && is_some_true sync.git_writeback_enabled

abbrev pub is_reference_path : Text → Bool
is_reference_path path =
    if starts_with (codes "references/") path then true else text_eq path (codes "references")

unfoldable pub resolve_synced_source_type : Text → NodeSourceType
unfolding replace_char starts_with text_eq
resolve_synced_source_type path =
    if is_reference_path (replace_char backslash slash path) then reference else shared_mount

unfoldable pub resolve_git_source_type : Text → NodeSourceType
unfolding replace_char starts_with text_eq
resolve_git_source_type path =
    if is_reference_path (replace_char backslash slash path) then reference else git
