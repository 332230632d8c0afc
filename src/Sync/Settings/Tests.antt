-- ===== src/Sync/Settings/Tests.antt =====
-- Runs on fixed settings, and the theorems about the settings at such objects.
use evukb.Common.{[], ◌∷◌, ◌≡◌, ◌≢◌, refl, true, false, none, some, All, if◌then◌else◌}
use evukb.Common.Text.{codes, text_eq, trim, drop_leading, drop_trailing, is_space}
use evukb.Common.Value.{
  string, boolean, number, dyadic, Fields, end, field, get, is_text, is_positive, floor, is_true,
  is_undefined, is_string, is_boolean,
}
use evukb.Sync.Settings.{
  CorpusSyncSettings, SyncStatus, success, has_keys, parse_corpus_sync_settings, merge_sync_status,
  resolve_git_writeback_branch, read_interval,
}
use evukb.Sync.Settings.Validate.{SyncOptions, validate_sync_settings, git_writeback_needs_git}
use evukb.Sync.Settings.Parsed.{
  IsTrimmed, IsHonoured, parse_corpus_sync_settings-IsTrimmed, validate_sync_settings-IsHonoured,
}
use evukb.Sync.Settings.Branch.{IsChosen, resolve_git_writeback_branch-IsChosen}
use evukb.Sync.Settings.Status.{SameSettings, parse_corpus_sync_settings-merge_sync_status}

abbrev all_on : SyncOptions
all_on = record {
  allow_mount_authoritative = true;
  allow_import_writeback = true;
  allow_git_writeback = true;
}

abbrev git_corpus : Fields
git_corpus = field (codes "importKind") (string (codes "git")) (
    field (codes "gitRemoteUrl") (string (codes " https://h/r.git")) (
      field (codes "gitWritebackEnabled") (boolean true)
        (field (codes "gitWritebackBranch") (string (codes " wb ")) end)))

abbrev mount_corpus : Fields
mount_corpus =
    field (codes "importKind") (string (codes "mount"))
      (field (codes "gitWritebackEnabled") (boolean true) end)

abbrev done : SyncStatus
done = record {
  last_sync_at = some (codes "t");
  last_sync_status = some success;
  last_sync_error = none;
  last_commit_sha = none;
  last_writeback_at = none;
  last_writeback_error = none;
}

branch : resolve_git_writeback_branch git_corpus (codes "c") ≡ codes "wb"
unfolding resolve_git_writeback_branch get text_eq trim drop_leading drop_trailing is_space
branch = refl

valid : validate_sync_settings git_corpus all_on ≡ none
unfolding validate_sync_settings branch is_text is_true is_undefined is_string is_boolean
valid = refl

refused : validate_sync_settings mount_corpus all_on ≡ some git_writeback_needs_git
unfolding valid
refused = refl

-- An interval of half a minute is read as 0 minutes.
half_minute : read_interval (number (dyadic false 1 1)) ≡ some (dyadic false 0 0)
unfolding read_interval is_positive floor
half_minute = refl

parse_corpus_sync_settings-IsTrimmed_example :
    All
      (λ f. IsTrimmed (f (parse_corpus_sync_settings git_corpus)))
      (CorpusSyncSettings.mount_path ∷ CorpusSyncSettings.git_remote_url
        ∷ CorpusSyncSettings.git_ref ∷ CorpusSyncSettings.git_credential_secret_name
        ∷ CorpusSyncSettings.git_writeback_branch ∷ CorpusSyncSettings.git_author_name
        ∷ CorpusSyncSettings.git_author_email ∷ CorpusSyncSettings.git_author_secret_name ∷ [])
parse_corpus_sync_settings-IsTrimmed_example = parse_corpus_sync_settings-IsTrimmed git_corpus

resolve_git_writeback_branch-IsChosen_example :
    IsChosen git_corpus (codes "c") (resolve_git_writeback_branch git_corpus (codes "c"))
    × (resolve_git_writeback_branch git_corpus (codes "c") ≢ [])
resolve_git_writeback_branch-IsChosen_example =
    resolve_git_writeback_branch-IsChosen git_corpus (codes "c")

validate_sync_settings-IsHonoured_example : IsHonoured git_corpus all_on
validate_sync_settings-IsHonoured_example =
    validate_sync_settings-IsHonoured git_corpus all_on valid

parse_corpus_sync_settings-merge_sync_status_example :
    ((parse_corpus_sync_settings (merge_sync_status git_corpus done)).sync_status
      ≡ (if has_keys done then some done else none))
    × SameSettings
        (parse_corpus_sync_settings (merge_sync_status git_corpus done))
        (parse_corpus_sync_settings git_corpus)
parse_corpus_sync_settings-merge_sync_status_example =
    parse_corpus_sync_settings-merge_sync_status git_corpus done
