-- ===== src/Sync/Settings.antt =====
-- packages/kb-core/src/sync/settings.ts: the sync settings of a corpus, read from the JSON object
-- that holds all of its settings. A missing property is `none`.
pub mod Validate
mod Tests
pub mod Parsed
pub mod Branch
pub mod Status
use evukb.Common.{
  ℕ, List, [], ◌∷◌, ◌++◌, Bool, true, false, not, ◌&&◌, ◌||◌, if◌then◌else◌, Option, none, some,
  any,
}
use evukb.Common.Text.{Text, codes, text_eq, truthy, trim}
use evukb.Common.Value.{
  Number, Value, undefined, string, number, boolean, object, Fields, end, field, get, as_object,
  is_text, is_positive, floor,
}

pub data ImportKind : Type 0 where
  managed mount git : ImportKind

pub data MountSyncMode : Type 0 where
  import mount_authoritative import_writeback : MountSyncMode

pub data SyncStatusValue : Type 0 where
  idle running success failed writeback_blocked : SyncStatusValue

pub record SyncStatus : Type 0 where
  pub last_sync_at : Option Text
  pub last_sync_status : Option SyncStatusValue
  pub last_sync_error : Option Text
  pub last_commit_sha : Option Text
  pub last_writeback_at : Option Text
  pub last_writeback_error : Option Text

pub record CorpusSyncSettings : Type 0 where
  pub import_kind : Option ImportKind
  pub mount_path : Option Text
  pub mount_mode : Option MountSyncMode
  pub git_remote_url : Option Text
  pub git_ref : Option Text
  pub git_credential_secret_name : Option Text
  pub git_writeback_enabled : Option Bool
  pub git_push_enabled : Option Bool
  pub git_writeback_branch : Option Text
  pub git_writeback_use_feature_branch : Option Bool
  pub git_writeback_allow_default_branch : Option Bool
  pub git_author_name : Option Text
  pub git_author_email : Option Text
  pub git_author_secret_name : Option Text
  pub sync_interval_minutes : Option Number
  pub sync_status : Option SyncStatus

unfoldable pub read_import_kind : Value → Option ImportKind
read_import_kind v =
    if is_text v (codes "managed")
    then some managed
    else if is_text v (codes "mount")
    then some mount
    else if is_text v (codes "git")
    then some git
    else none

unfoldable pub read_mount_mode : Value → Option MountSyncMode
read_mount_mode v =
    if is_text v (codes "import")
    then some import
    else if is_text v (codes "mount_authoritative")
    then some mount_authoritative
    else if is_text v (codes "import_writeback")
    then some import_writeback
    else none

unfoldable pub read_status_value : Value → Option SyncStatusValue
read_status_value v =
    if is_text v (codes "idle")
    then some idle
    else if is_text v (codes "running")
    then some running
    else if is_text v (codes "success")
    then some success
    else if is_text v (codes "failed")
    then some failed
    else if is_text v (codes "writeback_blocked")
    then some writeback_blocked
    else none

-- typeof v === 'string'
abbrev pub read_string : Value → Option Text
read_string (string t) = some t
read_string _ = none

abbrev pub nonempty_text : Text → Option Text
nonempty_text [] = none
nonempty_text (c ∷ t) = some (c ∷ t)

-- typeof v === 'string' && v.trim(), and then v.trim()
unfoldable pub read_trimmed : Value → Option Text
unfolding trim
read_trimmed (string t) = nonempty_text (trim t)
read_trimmed _ = none

unfoldable pub parse_optional_boolean : Value → Option Bool
parse_optional_boolean (boolean b) = some b
parse_optional_boolean _ = none

abbrev pub is_some {ℓ} : {A : Type ℓ} → Option A → Bool
is_some none = false
is_some (some _) = true

-- Object.keys(status).length > 0
abbrev pub has_keys : SyncStatus → Bool
has_keys s =
    is_some s.last_sync_at
    || is_some s.last_sync_status
    || is_some s.last_sync_error
    || is_some s.last_commit_sha
    || is_some s.last_writeback_at
    || is_some s.last_writeback_error

abbrev pub status_of : Fields → SyncStatus
status_of r = record {
  last_sync_at = read_string (get (codes "lastSyncAt") r);
  last_sync_status = read_status_value (get (codes "lastSyncStatus") r);
  last_sync_error = read_string (get (codes "lastSyncError") r);
  last_commit_sha = read_string (get (codes "lastCommitSha") r);
  last_writeback_at = read_string (get (codes "lastWritebackAt") r);
  last_writeback_error = read_string (get (codes "lastWritebackError") r);
}

unfoldable pub parse_sync_status : Value → Option SyncStatus
unfolding read_status_value
parse_sync_status v = elim (as_object v) [
  | none ↦ none
  | some r ↦ if has_keys (status_of r) then some (status_of r) else none
]

-- typeof v === 'number' && v > 0, and then Math.floor(v)
unfoldable pub read_interval : Value → Option Number
read_interval (number n) = if is_positive n then some (floor n) else none
read_interval _ = none

unfoldable pub parse_corpus_sync_settings : Fields → CorpusSyncSettings
unfolding read_import_kind read_mount_mode read_trimmed parse_optional_boolean read_interval
    parse_sync_status
parse_corpus_sync_settings settings = record {
  import_kind = read_import_kind (get (codes "importKind") settings);
  mount_path = read_trimmed (get (codes "mountPath") settings);
  mount_mode = read_mount_mode (get (codes "mountMode") settings);
  git_remote_url = read_trimmed (get (codes "gitRemoteUrl") settings);
  git_ref = read_trimmed (get (codes "gitRef") settings);
  git_credential_secret_name = read_trimmed (get (codes "gitCredentialSecretName") settings);
  git_writeback_enabled = parse_optional_boolean (get (codes "gitWritebackEnabled") settings);
  git_push_enabled = parse_optional_boolean (get (codes "gitPushEnabled") settings);
  git_writeback_branch = read_trimmed (get (codes "gitWritebackBranch") settings);
  git_writeback_use_feature_branch =
      parse_optional_boolean (get (codes "gitWritebackUseFeatureBranch") settings);
  git_writeback_allow_default_branch =
      parse_optional_boolean (get (codes "gitWritebackAllowDefaultBranch") settings);
  git_author_name = read_trimmed (get (codes "gitAuthorName") settings);
  git_author_email = read_trimmed (get (codes "gitAuthorEmail") settings);
  git_author_secret_name = read_trimmed (get (codes "gitAuthorSecretName") settings);
  sync_interval_minutes = read_interval (get (codes "syncIntervalMinutes") settings);
  sync_status = parse_sync_status (get (codes "syncStatus") settings);
}

unfoldable pub resolve_import_kind : Fields → ImportKind
resolve_import_kind settings =
    let v = get (codes "importKind") settings in
    if is_text v (codes "mount") then mount else if is_text v (codes "git") then git else managed

unfoldable pub resolve_git_ref : Fields → Text
unfolding read_trimmed
resolve_git_ref settings = elim (read_trimmed (get (codes "gitRef") settings)) [
  | none ↦ codes "main"
  | some r ↦ r
]

unfoldable pub resolve_git_writeback_feature_branch : Text → Text
resolve_git_writeback_feature_branch corpus = codes "evukb/writeback/" ++ corpus

abbrev pub is_set_true : Option Bool → Bool
is_set_true none = false
is_set_true (some b) = b

unfoldable pub resolve_git_writeback_branch : Fields → Text → Text
unfolding parse_corpus_sync_settings resolve_git_writeback_feature_branch resolve_git_ref
resolve_git_writeback_branch settings corpus =
    let sync = parse_corpus_sync_settings settings in
    if is_set_true sync.git_writeback_use_feature_branch
    then resolve_git_writeback_feature_branch corpus
    else elim sync.git_writeback_branch [ none ↦ resolve_git_ref settings | some b ↦ b ]

unfoldable pub is_git_writeback_default_branch_target : Fields → Text → Bool
unfolding resolve_git_writeback_branch resolve_git_ref
is_git_writeback_default_branch_target settings corpus =
    text_eq (resolve_git_writeback_branch settings corpus) (resolve_git_ref settings)

-- `{ ...existing, [key]: v }`: a property keeps its place, a new one comes last.
unfoldable pub with_field : Text → Value → Fields → Fields
with_field key v end = field key v end
with_field key v (field k w rest) =
    let later = with_field key v rest in if text_eq k key then field k v rest else field k w later

abbrev pub status_value_name : SyncStatusValue → Text
status_value_name idle = codes "idle"
status_value_name running = codes "running"
status_value_name success = codes "success"
status_value_name failed = codes "failed"
status_value_name writeback_blocked = codes "writeback_blocked"

-- The object of the properties that are there.
abbrev pub opt_fields : List (Text × Option Text) → Fields
opt_fields [] = end
opt_fields ((key, none) ∷ rest) = opt_fields rest
opt_fields ((key, some t) ∷ rest) = field key (string t) (opt_fields rest)

abbrev pub status_name : Option SyncStatusValue → Option Text
status_name none = none
status_name (some s) = some (status_value_name s)

abbrev pub status_texts : SyncStatus → List (Text × Option Text)
status_texts s =
    (codes "lastSyncAt", s.last_sync_at)
    ∷ (codes "lastSyncStatus", status_name s.last_sync_status)
    ∷ (codes "lastSyncError", s.last_sync_error)
    ∷ (codes "lastCommitSha", s.last_commit_sha)
    ∷ (codes "lastWritebackAt", s.last_writeback_at)
    ∷ (codes "lastWritebackError", s.last_writeback_error)
    ∷ []

-- A `SyncStatus` as the object that it is.
unfoldable pub status_fields : SyncStatus → Fields
status_fields s = opt_fields (status_texts s)

unfoldable pub merge_sync_status : Fields → SyncStatus → Fields
unfolding with_field status_fields
merge_sync_status existing status =
    with_field (codes "syncStatus") (object (status_fields status)) existing
