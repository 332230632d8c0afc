-- ===== src/Archive/Limits/Laws.antt =====
-- The limits are those of the files of all layers together.
use evukb.Common.{
  ℕ, ◌+◌, ◌≤◌, List, [], ◌∷◌, ◌≡◌, ◌↔◌, Bool, true, false, arith, length, if◌then◌else◌, Result, ok,
  err,
}
use evukb.Archive.Limits.{
  Entries, ArchiveImportLimits, ArchiveImportBudget, LimitError, is_directory, check_entries,
  assert_archive_zip_import_limits, remaining, consume, new_budget, consume_layers,
}

-- The number of files among the entries, and their bytes.
unfoldable pub file_count : Entries → ℕ
file_count [] = 0
file_count ((name, body) ∷ rest) =
    if is_directory name then file_count rest else file_count rest + 1

unfoldable pub file_bytes : Entries → ℕ
file_bytes [] = 0
file_bytes ((name, body) ∷ rest) =
    if is_directory name then file_bytes rest else file_bytes rest + length body

check_entries_iff :
    (limits : ArchiveImportLimits) (count total : ℕ) (entries : Entries)
    → count ≤ limits.max_entries
    → total ≤ limits.max_uncompressed_bytes
    → (check_entries limits count total entries ≡ ok tt) ↔ (
        (count + file_count entries ≤ limits.max_entries)
        × (total + file_bytes entries ≤ limits.max_uncompressed_bytes))
unfolding check_entries file_count file_bytes
check_entries_iff limits count total [] h k = ground arith
check_entries_iff limits count total ((name, body) ∷ rest) h k = ground (
  arith,
  check_entries_iff limits count total rest,
  check_entries_iff limits (count + 1) (total + length body) rest,
)

-- The check passes exactly when the files of the archive, directories not counted, are at most
-- as many as the limits allow, and so are their bytes.
pub assert_archive_zip_import_limits_iff :
    (limits : ArchiveImportLimits) (entries : Entries)
    → (assert_archive_zip_import_limits entries limits ≡ ok tt) ↔ (
        (file_count entries ≤ limits.max_entries)
        × (file_bytes entries ≤ limits.max_uncompressed_bytes))
unfolding assert_archive_zip_import_limits
assert_archive_zip_import_limits_iff limits entries =
    ground (arith, check_entries_iff limits 0 0 entries)

-- A budget that has not been exceeded.
abbrev pub WithinLimits : ArchiveImportBudget → Type 0
WithinLimits b =
    (b.entry_count ≤ b.limits.max_entries) × (b.total_bytes ≤ b.limits.max_uncompressed_bytes)

-- What a layer adds to a budget.
abbrev pub after : Entries → ArchiveImportBudget → ArchiveImportBudget
after entries b = record b {
  entry_count = b.entry_count + file_count entries;
  total_bytes = b.total_bytes + file_bytes entries;
}

abbrev pub succeeds : Result LimitError (Unit {0}) × ArchiveImportBudget → Bool
succeeds (ok _, b) = true
succeeds (err _, b) = false

consume-after :
    (entries : Entries) (b : ArchiveImportBudget)
    → WithinLimits b
    → (WithinLimits (after entries b) → consume entries b ≡ (ok tt, after entries b))
      × (succeeds (consume entries b) ≡ true → WithinLimits (after entries b))
unfolding consume file_count file_bytes
consume-after [] b h = ground arith
consume-after ((name, body) ∷ rest) b h = ground (
  arith,
  consume-after rest b,
  consume-after rest
      (record b { entry_count = b.entry_count + 1; total_bytes = b.total_bytes + length body }),
)

-- If the budget is not exceeded yet, a layer of an archive is accepted by the check against what is
-- left of the budget exactly when the budget accepts it.
pub consume-remaining :
    (entries : Entries) (b : ArchiveImportBudget)
    → WithinLimits b
    → (assert_archive_zip_import_limits entries (remaining b) ≡ ok tt)
      ↔ (succeeds (consume entries b) ≡ true)
unfolding remaining
consume-remaining entries b h =
    ground
      (arith, assert_archive_zip_import_limits_iff (remaining b) entries, consume-after entries b h)

-- The files of all layers, and their bytes.
unfoldable pub layers_count : List Entries → ℕ
layers_count [] = 0
layers_count (entries ∷ layers) = file_count entries + layers_count layers

unfoldable pub layers_bytes : List Entries → ℕ
layers_bytes [] = 0
layers_bytes (entries ∷ layers) = file_bytes entries + layers_bytes layers

consume_layers_of :
    (layers : List Entries) (b : ArchiveImportBudget)
    → WithinLimits b
    → (succeeds (consume_layers layers b) ≡ true) ↔ (
        (b.entry_count + layers_count layers ≤ b.limits.max_entries)
        × (b.total_bytes + layers_bytes layers ≤ b.limits.max_uncompressed_bytes))
unfolding consume_layers layers_count layers_bytes
consume_layers_of [] b h = ground arith
consume_layers_of (entries ∷ layers) b h =
    ground (arith, consume-after entries b h, consume_layers_of layers (after entries b))

-- Archives nested in one another pass the budget of one import exactly when the files of all
-- layers together are within its limits, in number and in bytes: nesting gains nothing.
pub consume_layers_iff :
    (layers : List Entries) (limits : ArchiveImportLimits)
    → (succeeds (consume_layers layers (new_budget limits)) ≡ true) ↔ (
        (layers_count layers ≤ limits.max_entries)
        × (layers_bytes layers ≤ limits.max_uncompressed_bytes))
unfolding new_budget
consume_layers_iff layers limits = ground (arith, consume_layers_of layers (new_budget limits))
