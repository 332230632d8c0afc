-- ===== src/Sync/Settings/Status.antt =====
-- The status that a run of the synchronisation records is the one that is read back.
use evukb.Common.{
  List, [], ◌∷◌, ◌≡◌, refl, ap, ◌∙◌, Bool, true, false, arith, Option, none, some, if◌then◌else◌,
  any, not, ◌&&◌,
}
use evukb.Common.Text.{Text, codes, text_eq, text_eq_iff, text_eq_refl}
use evukb.Common.Value.{
  Value, undefined, string, object, Fields, end, field, get, is_text, as_object,
}
use evukb.Sync.Settings.{
  SyncStatus, SyncStatusValue, idle, running, success, failed, writeback_blocked,
  CorpusSyncSettings, read_string, read_status_value, status_of, has_keys, status_fields,
  status_name, opt_fields, status_texts, with_field, merge_sync_status, parse_sync_status,
  parse_corpus_sync_settings,
}

get-with_field : (key : Text) (v : Value) (fs : Fields) → get key (with_field key v fs) ≡ v
unfolding get with_field
get-with_field key v end = ground (arith, text_eq_refl key)
get-with_field key v (field k w rest) = ground (arith, text_eq_refl key, get-with_field key v rest)

get-with_field_other :
    (key other : Text) (v : Value) (fs : Fields)
    → text_eq key other ≡ false
    → get other (with_field key v fs) ≡ get other fs
unfolding get with_field
get-with_field_other key other v end n = ground arith
get-with_field_other key other v (field k w rest) n =
    ground (arith, get-with_field_other key other v rest, text_eq_iff k key)

-- What a list of optional properties has under a key.
value_at : Text → List (Text × Option Text) → Option Text
value_at key [] = none
value_at key ((k, o) ∷ rest) = if text_eq k key then o else value_at key rest

abbrev as_value : Option Text → Value
as_value none = undefined
as_value (some t) = string t

is_distinct : List (Text × Option Text) → Bool
is_distinct [] = true
is_distinct ((k, o) ∷ rest) = not (any (λ p. text_eq p.0 k) rest) && is_distinct rest

get-opt_fields_absent :
    (key : Text) (ps : List (Text × Option Text))
    → any (λ p. text_eq p.0 key) ps ≡ false
    → get key (opt_fields ps) ≡ undefined
unfolding get
get-opt_fields_absent key [] e = refl
get-opt_fields_absent key ((k, none) ∷ ps) e = get-opt_fields_absent key ps (ground arith)
get-opt_fields_absent key ((k, some t) ∷ ps) e = ground (arith, get-opt_fields_absent key ps)

get-opt_fields :
    (key : Text) (ps : List (Text × Option Text))
    → is_distinct ps ≡ true
    → get key (opt_fields ps) ≡ as_value (value_at key ps)
unfolding get value_at is_distinct
get-opt_fields key [] e = refl
get-opt_fields key ((k, none) ∷ ps) e =
    ground (arith, get-opt_fields key ps, get-opt_fields_absent key ps, text_eq_iff k key)
get-opt_fields key ((k, some t) ∷ ps) e = ground (arith, get-opt_fields key ps)

read_string-as_value : (o : Option Text) → read_string (as_value o) ≡ o
read_string-as_value none = refl
read_string-as_value (some t) = refl

read_status_value-name :
    (o : Option SyncStatusValue) → read_status_value (as_value (status_name o)) ≡ o
unfolding read_status_value text_eq is_text
read_status_value-name none = refl
read_status_value-name (some idle) = refl
read_status_value-name (some running) = refl
read_status_value-name (some success) = refl
read_status_value-name (some failed) = refl
read_status_value-name (some writeback_blocked) = refl

module _ (s : SyncStatus) where
  text_of : (key : Text) → read_string (get key (status_fields s)) ≡ value_at key (status_texts s)
  unfolding status_fields
  text_of key =
      ap read_string (get-opt_fields key (status_texts s) (unfold is_distinct text_eq in refl))
      ∙ read_string-as_value _

  status_value_of :
      read_status_value (get (codes "lastSyncStatus") (status_fields s)) ≡ s.last_sync_status
  unfolding status_fields
  status_value_of =
      ap read_status_value (
        get-opt_fields (codes "lastSyncStatus") (status_texts s)
          (unfold is_distinct text_eq in refl))
      ∙ unfold value_at text_eq in read_status_value-name s.last_sync_status

  status_of-status_fields : status_of (status_fields s) ≡ s
  unfolding value_at text_eq
  status_of-status_fields = cc (
    text_of (codes "lastSyncAt"),
    status_value_of,
    text_of (codes "lastSyncError"),
    text_of (codes "lastCommitSha"),
    text_of (codes "lastWritebackAt"),
    text_of (codes "lastWritebackError"),
  )

-- Every setting but the status.
abbrev pub SameSettings : CorpusSyncSettings → CorpusSyncSettings → Type 0
SameSettings a b = record a { sync_status = none } ≡ record b { sync_status = none }

module _ (existing : Fields) (status : SyncStatus) where
  merged-get :
      (other : Text)
      → text_eq (codes "syncStatus") other ≡ false
      → get other (merge_sync_status existing status) ≡ get other existing
  unfolding merge_sync_status
  merged-get other n = get-with_field_other (codes "syncStatus") other _ existing n

  merged_settings :
      SameSettings
        (parse_corpus_sync_settings (merge_sync_status existing status))
        (parse_corpus_sync_settings existing)
  unfolding parse_corpus_sync_settings text_eq
  merged_settings = cc (
    merged-get (codes "importKind") refl,
    merged-get (codes "mountPath") refl,
    merged-get (codes "mountMode") refl,
    merged-get (codes "gitRemoteUrl") refl,
    merged-get (codes "gitRef") refl,
    merged-get (codes "gitCredentialSecretName") refl,
    merged-get (codes "gitWritebackEnabled") refl,
    merged-get (codes "gitPushEnabled") refl,
    merged-get (codes "gitWritebackBranch") refl,
    merged-get (codes "gitWritebackUseFeatureBranch") refl,
    merged-get (codes "gitWritebackAllowDefaultBranch") refl,
    merged-get (codes "gitAuthorName") refl,
    merged-get (codes "gitAuthorEmail") refl,
    merged-get (codes "gitAuthorSecretName") refl,
    merged-get (codes "syncIntervalMinutes") refl,
  )

  merged_status :
      parse_sync_status (get (codes "syncStatus") (merge_sync_status existing status))
      ≡ (if has_keys status then some status else none)
  unfolding parse_sync_status merge_sync_status as_object
  merged_status =
      rw (get-with_field (codes "syncStatus") (object (status_fields status)) existing)
        (ap (λ s. if has_keys s then some s else none) (status_of-status_fields status))

-- The status that is recorded is read back, unless it has no property at all, and no other
-- setting changes.
pub parse_corpus_sync_settings-merge_sync_status :
    (existing : Fields) (status : SyncStatus)
    → ((parse_corpus_sync_settings (merge_sync_status existing status)).sync_status
        ≡ (if has_keys status then some status else none))
      × SameSettings
          (parse_corpus_sync_settings (merge_sync_status existing status))
          (parse_corpus_sync_settings existing)
unfolding parse_corpus_sync_settings
parse_corpus_sync_settings-merge_sync_status existing status =
    (merged_status existing status, merged_settings existing status)
