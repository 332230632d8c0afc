-- ===== src/Sync/Settings/Parsed.antt =====
-- What the readers of parsed settings rely on, and what validation has made sure of.
use evukb.Common.{
  List, [], ◌∷◌, ◌≡◌, refl, ap, ◌≢◌, ◌⊎◌, inl, inr, Bool, true, false, not, ◌&&◌, arith, Option,
  none, some, All, Bool-cases,
}
use evukb.Common.Text.{Text, codes, trim, text_eq, text_eq_iff}
use evukb.Common.Text.Trimmed.{trim_idem}
use evukb.Common.Value.{
  Value, undefined, string, number, boolean, Fields, get, is_text, is_true, is_undefined, is_string,
}
use evukb.Sync.Settings.{
  ImportKind, managed, mount, git, MountSyncMode, mount_authoritative, import_writeback,
  read_trimmed, read_import_kind, read_mount_mode, nonempty_text, CorpusSyncSettings,
  parse_corpus_sync_settings, is_some, parse_optional_boolean,
}
use evukb.Sync.Settings.Validate.{
  SyncOptions, SettingsMessage, guards, first_message, validate_sync_settings, is_blank,
  import_kinds, mount_modes, is_one_of_names,
}

-- A text that is missing or trimmed and not empty.
abbrev pub IsTrimmed : Option Text → Type 0
IsTrimmed none = Unit {0}
IsTrimmed (some t) = (t ≢ []) × (trim t ≡ t)

nonempty_text-IsTrimmed : (t : Text) → trim t ≡ t → IsTrimmed (nonempty_text t)
nonempty_text-IsTrimmed [] e = tt
nonempty_text-IsTrimmed (c ∷ t) e = (cc, e)

read_trimmed-IsTrimmed : (v : Value) → IsTrimmed (read_trimmed v)
unfolding read_trimmed
read_trimmed-IsTrimmed (string t) = nonempty_text-IsTrimmed (trim t) (trim_idem t)
read_trimmed-IsTrimmed undefined = tt
read_trimmed-IsTrimmed Value.null = tt
read_trimmed-IsTrimmed (boolean _) = tt
read_trimmed-IsTrimmed (number _) = tt
read_trimmed-IsTrimmed (Value.array _) = tt
read_trimmed-IsTrimmed (Value.object _) = tt

-- The mount path, remote URL, ref, writeback branch, author name, author e-mail and the two secret
-- names of parsed settings are each missing or trimmed and not empty, whatever the settings hold.
pub parse_corpus_sync_settings-IsTrimmed :
    (settings : Fields)
    → All
        (λ f. IsTrimmed (f (parse_corpus_sync_settings settings)))
        (CorpusSyncSettings.mount_path ∷ CorpusSyncSettings.git_remote_url
          ∷ CorpusSyncSettings.git_ref ∷ CorpusSyncSettings.git_credential_secret_name
          ∷ CorpusSyncSettings.git_writeback_branch ∷ CorpusSyncSettings.git_author_name
          ∷ CorpusSyncSettings.git_author_email ∷ CorpusSyncSettings.git_author_secret_name ∷ [])
unfolding parse_corpus_sync_settings
parse_corpus_sync_settings-IsTrimmed settings =
    let trimmed : (v : Value) → IsTrimmed (read_trimmed v) = read_trimmed-IsTrimmed in
    (
      trimmed _,
      (trimmed _, (trimmed _, (trimmed _, (trimmed _, (trimmed _, (trimmed _, (trimmed _, tt))))))),
    )

-- All guards of a chain that gives no message fail.
pub first_message-none :
    (guards : List (Bool × SettingsMessage))
    → first_message guards ≡ none
    → All (λ guard. guard.0 ≡ false) guards
unfolding first_message
first_message-none [] e = tt
first_message-none ((holds, message) ∷ rest) e = elim (Bool-cases holds) [
  | inl y ↦ absurd (ground arith)
  | inr n ↦ (n, first_message-none rest (ground arith))
]

abbrev pub kind_name : ImportKind → Text
kind_name managed = codes "managed"
kind_name mount = codes "mount"
kind_name git = codes "git"

abbrev pub mode_name : MountSyncMode → Text
mode_name MountSyncMode.import = codes "import"
mode_name mount_authoritative = codes "mount_authoritative"
mode_name import_writeback = codes "import_writeback"

-- A setting that is missing, or the name of the value that it is parsed to.
abbrev pub Named {ℓ} : {A : Type ℓ} → (A → Text) → Value → Option A → Type ℓ
Named name v o = ((v ≡ undefined) × (o ≡ none)) ⊎ ((a : _) × (v ≡ string (name a)) × (o ≡ some a))

import_kind-Named :
    (v : Value)
    → (not (is_undefined v) && not (is_one_of_names import_kinds v)) ≡ false
    → Named kind_name v (read_import_kind v)
unfolding read_import_kind is_text is_undefined
import_kind-Named undefined e = inl (refl, refl)
import_kind-Named (string t) e = elim (Bool-cases (text_eq t (codes "managed"))) [
  | inl y ↦ inr (managed, ap string ((text_eq_iff t (codes "managed")).0 y), ground arith)
  | inr n ↦ elim (Bool-cases (text_eq t (codes "mount"))) [
    | inl y ↦ inr (mount, ap string ((text_eq_iff t (codes "mount")).0 y), ground arith)
    | inr m ↦ elim (Bool-cases (text_eq t (codes "git"))) [
      | inl y ↦ inr (git, ap string ((text_eq_iff t (codes "git")).0 y), ground arith)
      | inr k ↦ absurd (ground arith)
    ]
  ]
]
import_kind-Named Value.null e = absurd (ground arith)
import_kind-Named (boolean _) e = absurd (ground arith)
import_kind-Named (number _) e = absurd (ground arith)
import_kind-Named (Value.array _) e = absurd (ground arith)
import_kind-Named (Value.object _) e = absurd (ground arith)

mount_mode-Named :
    (v : Value)
    → (not (is_undefined v) && not (is_one_of_names mount_modes v)) ≡ false
    → Named mode_name v (read_mount_mode v)
unfolding read_mount_mode is_text is_undefined
mount_mode-Named undefined e = inl (refl, refl)
mount_mode-Named (string t) e = elim (Bool-cases (text_eq t (codes "import"))) [
  | inl y ↦
      inr (MountSyncMode.import, ap string ((text_eq_iff t (codes "import")).0 y), ground arith)
  | inr n ↦ elim (Bool-cases (text_eq t (codes "mount_authoritative"))) [
    | inl y ↦ inr (
      mount_authoritative,
      ap string ((text_eq_iff t (codes "mount_authoritative")).0 y),
      ground arith,
    )
    | inr m ↦ elim (Bool-cases (text_eq t (codes "import_writeback"))) [
      | inl y ↦ inr (
        import_writeback,
        ap string ((text_eq_iff t (codes "import_writeback")).0 y),
        ground arith,
      )
      | inr k ↦ absurd (ground arith)
    ]
  ]
]
mount_mode-Named Value.null e = absurd (ground arith)
mount_mode-Named (boolean _) e = absurd (ground arith)
mount_mode-Named (number _) e = absurd (ground arith)
mount_mode-Named (Value.array _) e = absurd (ground arith)
mount_mode-Named (Value.object _) e = absurd (ground arith)

-- The modes that need an option of the server.
abbrev pub MountAllowed : SyncOptions → Option MountSyncMode → Type 0
MountAllowed options (some mount_authoritative) = options.allow_mount_authoritative ≡ true
MountAllowed options (some import_writeback) = options.allow_import_writeback ≡ true
MountAllowed options (some MountSyncMode.import) = Unit {0}
MountAllowed options none = Unit {0}

mount_allowed :
    (options : SyncOptions) (v : Value)
    → (is_text v (codes "mount_authoritative") && not options.allow_mount_authoritative) ≡ false
    → (is_text v (codes "import_writeback") && not options.allow_import_writeback) ≡ false
    → MountAllowed options (read_mount_mode v)
unfolding read_mount_mode
mount_allowed options v e f = ground arith

-- Writeback to git, which needs an option of the server, and a git remote to import from, or none
-- named yet.
abbrev pub WritebackAllowed : SyncOptions → Option Bool → Option ImportKind → Type 0
WritebackAllowed options (some true) (some git) = options.allow_git_writeback ≡ true
WritebackAllowed options (some true) (some mount) = ⊥
WritebackAllowed options (some true) (some managed) = ⊥
WritebackAllowed options (some true) none = options.allow_git_writeback ≡ true
WritebackAllowed options (some false) kind = Unit {0}
WritebackAllowed options none kind = Unit {0}

read_import_kind-git :
    (kind : Value) → is_text kind (codes "git") ≡ true → read_import_kind kind ≡ some git
unfolding read_import_kind is_text
read_import_kind-git (string s) e = rw ((text_eq_iff s (codes "git")).0 e) (unfold text_eq in refl)
read_import_kind-git undefined e = cc e
read_import_kind-git Value.null e = cc e
read_import_kind-git (boolean _) e = cc e
read_import_kind-git (number _) e = cc e
read_import_kind-git (Value.array _) e = cc e
read_import_kind-git (Value.object _) e = cc e

read_import_kind-undefined :
    (kind : Value) → is_undefined kind ≡ true → read_import_kind kind ≡ none
unfolding read_import_kind is_text is_undefined
read_import_kind-undefined undefined e = refl
read_import_kind-undefined Value.null e = refl
read_import_kind-undefined (boolean _) e = refl
read_import_kind-undefined (number _) e = refl
read_import_kind-undefined (string _) e = cc e
read_import_kind-undefined (Value.array _) e = refl
read_import_kind-undefined (Value.object _) e = refl

writeback_allowed :
    (options : SyncOptions) (writeback kind : Value)
    → (is_true writeback && not options.allow_git_writeback) ≡ false
    → (is_true writeback && not (is_undefined kind) && not (is_text kind (codes "git"))) ≡ false
    → WritebackAllowed options (parse_optional_boolean writeback) (read_import_kind kind)
unfolding is_true parse_optional_boolean
writeback_allowed options (boolean b) kind e f =
    ground (arith, read_import_kind-git kind, read_import_kind-undefined kind)
writeback_allowed options undefined kind e f = tt
writeback_allowed options Value.null kind e f = tt
writeback_allowed options (number _) kind e f = tt
writeback_allowed options (string _) kind e f = tt
writeback_allowed options (Value.array _) kind e f = tt
writeback_allowed options (Value.object _) kind e f = tt

-- A mount names its directory and a git corpus its remote, unless the settings leave them out.
abbrev pub SourceGiven : Option ImportKind → Value → Value → Type 0
SourceGiven (some mount) path url = (is_string path ≡ false) ⊎ (is_some (read_trimmed path) ≡ true)
SourceGiven (some git) path url = (is_string url ≡ false) ⊎ (is_some (read_trimmed url) ≡ true)
SourceGiven (some managed) path url = Unit {0}
SourceGiven none path url = Unit {0}

given : (v : Value) → is_blank v ≡ false → (is_string v ≡ false) ⊎ (is_some (read_trimmed v) ≡ true)
unfolding is_blank is_string read_trimmed
given (string t) e = inr (ground arith)
given undefined e = inl refl
given Value.null e = inl refl
given (boolean _) e = inl refl
given (number _) e = inl refl
given (Value.array _) e = inl refl
given (Value.object _) e = inl refl

source_given :
    (kind path url : Value)
    → (is_text kind (codes "mount") && is_blank path) ≡ false
    → (is_text kind (codes "git") && is_blank url) ≡ false
    → SourceGiven (read_import_kind kind) path url
unfolding read_import_kind
source_given kind path url e f = ground (arith, given path, given url)

module _ (settings : Fields) (options : SyncOptions) where
  abbrev sync : CorpusSyncSettings
  sync = parse_corpus_sync_settings settings

  -- What valid settings are: the kind and the mode of the import are parsed to what they name, they ask for nothing that the server does not allow, and they name
  -- their source.
  pub record IsHonoured : Type 0 where
    pub kind_kept : Named kind_name (get (codes "importKind") settings) sync.import_kind
    pub mode_kept : Named mode_name (get (codes "mountMode") settings) sync.mount_mode
    pub mount_allowed : MountAllowed options sync.mount_mode
    pub writeback_allowed : WritebackAllowed options sync.git_writeback_enabled sync.import_kind
    pub source_given :
        SourceGiven sync.import_kind
          (get (codes "mountPath") settings)
          (get (codes "gitRemoteUrl") settings)

-- Settings that pass validation are honoured: the import kind is missing, before and after parsing,
-- or it is the name of the kind that it is parsed to, and the mount mode likewise; a mode or a git writeback that a server option guards is on only with that
-- option, writeback only for a git corpus or one whose kind is not given; and a mount path or a
-- remote URL that is given for its kind is not blank.
pub validate_sync_settings-IsHonoured :
    (settings : Fields) (options : SyncOptions)
    → validate_sync_settings settings options ≡ none
    → IsHonoured settings options
unfolding validate_sync_settings guards parse_corpus_sync_settings
validate_sync_settings-IsHonoured settings options e =
    let (
      h1,
      (
        _,
        (
          h3,
          (
            h4,
            (
              h5,
              (
                _,
                (
                  _,
                  (_, (_, (h10, (h11, (_, (_, (_, (_, (_, (_, (_, (_, (h20, (h21, _)))))))))))))),
                ),
              ),
            ),
          ),
        ),
      ),
    ) =
      first_message-none (guards settings options) e in
    record {
      kind_kept = import_kind-Named _ h1;
      mode_kept = mount_mode-Named _ h3;
      mount_allowed = mount_allowed options _ h4 h5;
      writeback_allowed = writeback_allowed options _ _ h10 h11;
      source_given = source_given _ _ _ h20 h21;
    }
