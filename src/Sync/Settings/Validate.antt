-- ===== src/Sync/Settings/Validate.antt =====
-- packages/kb-core/src/sync/settings.ts: `validateSyncSettings`, a chain of guards of which the
-- first that holds gives the message.
use evukb.Common.{
  List, [], ◌∷◌, Bool, true, false, not, ◌&&◌, ◌||◌, if◌then◌else◌, any, Option, none, some,
}
use evukb.Common.Text.{Text, codes, truthy, trim}
use evukb.Common.Value.{
  Value, number, string, Fields, get, as_object, is_text, is_true, is_undefined, is_string,
  is_boolean, is_finite, is_negative,
}
use evukb.Sync.Settings.{read_status_value, is_some}

pub record SyncOptions : Type 0 where
  pub allow_mount_authoritative : Bool
  pub allow_import_writeback : Bool
  pub allow_git_writeback : Bool

-- The messages, by what they ask for.
pub data SettingsMessage : Type 0 where
  import_kind_unknown mount_mode_unknown mount_authoritative_disabled : SettingsMessage
  import_writeback_disabled git_writeback_disabled git_writeback_needs_git : SettingsMessage
  must_be_string must_be_boolean : Text → SettingsMessage
  bad_interval mount_path_required git_remote_url_required : SettingsMessage
  sync_status_must_be_object bad_last_sync_status : SettingsMessage

-- The message of the first guard that holds.
unfoldable pub first_message : List (Bool × SettingsMessage) → Option SettingsMessage
first_message [] = none
first_message ((holds, message) ∷ rest) =
    let later = first_message rest in if holds then some message else later

abbrev pub import_kinds : List Text
import_kinds = codes "managed" ∷ codes "mount" ∷ codes "git" ∷ []

abbrev pub mount_modes : List Text
mount_modes = codes "import" ∷ codes "mount_authoritative" ∷ codes "import_writeback" ∷ []

-- names.includes(v)
abbrev pub is_one_of_names : List Text → Value → Bool
is_one_of_names names v = any (is_text v) names

-- v !== undefined && typeof v !== 'string'
unfoldable pub no_string : Value → Bool
no_string v = not (is_undefined v) && not (is_string v)

unfoldable pub no_boolean : Value → Bool
no_boolean v = not (is_undefined v) && not (is_boolean v)

-- typeof v === 'string' && !v.trim()
unfoldable pub is_blank : Value → Bool
unfolding trim
is_blank (string t) = not (truthy (trim t))
is_blank _ = false

-- typeof v !== 'number' || !Number.isFinite(v) || v < 0
unfoldable pub is_bad_interval : Value → Bool
is_bad_interval (number n) = not (is_finite n) || is_negative n
is_bad_interval _ = true

abbrev pub is_object : Value → Bool
is_object v = is_some (as_object v)

-- The field of an object; `undefined` for other values, which an earlier guard has refused.
abbrev pub field_of : Text → Value → Value
field_of key v = elim (as_object v) [ none ↦ Value.undefined | some r ↦ get key r ]

-- The guards, in the order of the code.
unfoldable pub guards : Fields → SyncOptions → List (Bool × SettingsMessage)
unfolding read_status_value no_string no_boolean is_blank is_bad_interval
guards settings options =
    let kind = get (codes "importKind") settings in
    let mode = get (codes "mountMode") settings in
    let interval = get (codes "syncIntervalMinutes") settings in
    let status = get (codes "syncStatus") settings in
    let writeback = is_true (get (codes "gitWritebackEnabled") settings) in
    ((not (is_undefined kind) && not (is_one_of_names import_kinds kind), import_kind_unknown)
      ∷ (no_string (get (codes "mountPath") settings), must_be_string (codes "mountPath"))
      ∷ (not (is_undefined mode) && not (is_one_of_names mount_modes mode), mount_mode_unknown)
      ∷ (
        is_text mode (codes "mount_authoritative") && not options.allow_mount_authoritative,
        mount_authoritative_disabled,
      )
      ∷ (
        is_text mode (codes "import_writeback") && not options.allow_import_writeback,
        import_writeback_disabled,
      )
      ∷ (no_string (get (codes "gitRemoteUrl") settings), must_be_string (codes "gitRemoteUrl"))
      ∷ (no_string (get (codes "gitRef") settings), must_be_string (codes "gitRef"))
      ∷ (
        no_string (get (codes "gitCredentialSecretName") settings),
        must_be_string (codes "gitCredentialSecretName"),
      )
      ∷ (
        no_boolean (get (codes "gitWritebackEnabled") settings),
        must_be_boolean (codes "gitWritebackEnabled"),
      )
      ∷ (writeback && not options.allow_git_writeback, git_writeback_disabled)
      ∷ (
        writeback && not (is_undefined kind) && not (is_text kind (codes "git")),
        git_writeback_needs_git,
      )
      ∷ (
        no_boolean (get (codes "gitPushEnabled") settings),
        must_be_boolean (codes "gitPushEnabled"),
      )
      ∷ (
        no_string (get (codes "gitWritebackBranch") settings),
        must_be_string (codes "gitWritebackBranch"),
      )
      ∷ (
        no_boolean (get (codes "gitWritebackUseFeatureBranch") settings),
        must_be_boolean (codes "gitWritebackUseFeatureBranch"),
      )
      ∷ (
        no_boolean (get (codes "gitWritebackAllowDefaultBranch") settings),
        must_be_boolean (codes "gitWritebackAllowDefaultBranch"),
      )
      ∷ (no_string (get (codes "gitAuthorName") settings), must_be_string (codes "gitAuthorName"))
      ∷ (no_string (get (codes "gitAuthorEmail") settings), must_be_string (codes "gitAuthorEmail"))
      ∷ (
        no_string (get (codes "gitAuthorSecretName") settings),
        must_be_string (codes "gitAuthorSecretName"),
      )
      ∷ (not (is_undefined interval) && is_bad_interval interval, bad_interval)
      ∷ (
        is_text kind (codes "mount") && is_blank (get (codes "mountPath") settings),
        mount_path_required,
      )
      ∷ (
        is_text kind (codes "git") && is_blank (get (codes "gitRemoteUrl") settings),
        git_remote_url_required,
      )
      ∷ (not (is_undefined status) && not (is_object status), sync_status_must_be_object)
      ∷ (
        not (is_undefined status)
            && not (is_undefined (field_of (codes "lastSyncStatus") status))
            && not (is_some (read_status_value (field_of (codes "lastSyncStatus") status))),
        bad_last_sync_status,
      )
      ∷ [])

unfoldable pub validate_sync_settings : Fields → SyncOptions → Option SettingsMessage
unfolding first_message guards
validate_sync_settings settings options = first_message (guards settings options)
