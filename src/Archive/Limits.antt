-- ===== src/Archive/Limits.antt =====
-- packages/kb-core/src/archive/limits.ts: the limits on the entries and bytes of an archive, and
-- the budget that nested archives share.
mod Tests
pub mod Laws
use evukb.Common.{
  ℕ, ◌+◌, ◌-◌, ◌*◌, List, [], ◌∷◌, Bool, true, false, ltb, if◌then◌else◌, length, Result, ok, err,
}
use evukb.Common.Text.{Text, ends_with}
use evukb.Storage.Posix.{slash}

abbrev pub Bytes : Type 0
Bytes = List ℕ

-- `Object.entries` of a `Record<string, Uint8Array>`.
abbrev pub Entries : Type 0
Entries = List (Text × Bytes)

pub record ArchiveImportLimits : Type 0 where
  pub max_entries : ℕ
  pub max_uncompressed_bytes : ℕ

abbrev pub max_portable_zip_entries : ℕ
max_portable_zip_entries = 10000

abbrev pub max_portable_zip_uncompressed_bytes : ℕ
max_portable_zip_uncompressed_bytes = 500 * 1024 * 1024

abbrev pub default_archive_import_limits : ArchiveImportLimits
default_archive_import_limits = record {
  max_entries = max_portable_zip_entries;
  max_uncompressed_bytes = max_portable_zip_uncompressed_bytes;
}

-- `ArchiveImportLimitError`, by the limit that is exceeded.
pub data LimitError : Type 0 where
  too_many_entries too_many_bytes implausible_ratio : LimitError

abbrev pub is_directory : Text → Bool
is_directory name = ends_with (slash ∷ []) name

-- The loop of `assertArchiveZipImportLimits`.
unfoldable pub check_entries : ArchiveImportLimits → ℕ → ℕ → Entries → Result LimitError (Unit {0})
check_entries limits count total [] = ok tt
check_entries limits count total ((name, body) ∷ rest) =
    let skipped = check_entries limits count total rest in
    let counted = check_entries limits (count + 1) (total + length body) rest in
    if is_directory name
    then skipped
    else if ltb limits.max_entries (count + 1)
    then err too_many_entries
    else if ltb limits.max_uncompressed_bytes (total + length body)
    then err too_many_bytes
    else counted

unfoldable pub assert_archive_zip_import_limits :
    Entries → ArchiveImportLimits → Result LimitError (Unit {0})
unfolding check_entries
assert_archive_zip_import_limits entries limits = check_entries limits 0 0 entries

pub record ArchiveImportBudget : Type 0 where
  pub limits : ArchiveImportLimits
  pub entry_count : ℕ
  pub total_bytes : ℕ

unfoldable pub new_budget : ArchiveImportLimits → ArchiveImportBudget
new_budget limits = record { limits = limits; entry_count = 0; total_bytes = 0 }

-- `Math.max(0, a - b)` is the subtraction of natural numbers.
unfoldable pub remaining : ArchiveImportBudget → ArchiveImportLimits
remaining b = record {
  max_entries = b.limits.max_entries - b.entry_count;
  max_uncompressed_bytes = b.limits.max_uncompressed_bytes - b.total_bytes;
}

-- What was counted before a throw stays counted.
unfoldable pub consume :
    Entries → ArchiveImportBudget → Result LimitError (Unit {0}) × ArchiveImportBudget
consume [] b = (ok tt, b)
consume ((name, body) ∷ rest) b =
    let counted : ArchiveImportBudget = record b {
      entry_count = b.entry_count + 1;
      total_bytes = b.total_bytes + length body;
    } in
    let skipped = consume rest b in
    let later = consume rest counted in
    if is_directory name
    then skipped
    else if ltb counted.limits.max_entries counted.entry_count
    then (err too_many_entries, counted)
    else if ltb counted.limits.max_uncompressed_bytes counted.total_bytes
    then (err too_many_bytes, counted)
    else later

-- The layers of nested archives, from the outermost, each consumed from the same budget.
unfoldable pub consume_layers :
    List Entries → ArchiveImportBudget → Result LimitError (Unit {0}) × ArchiveImportBudget
unfolding consume
consume_layers [] b = (ok tt, b)
consume_layers (entries ∷ layers) b =
    let (result, b') = consume entries b in
    let later = consume_layers layers b' in elim result [ err e ↦ (err e, b') | ok _ ↦ later ]
