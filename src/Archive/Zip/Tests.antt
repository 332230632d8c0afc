-- ===== src/Archive/Zip/Tests.antt =====
-- Runs of the reader of zip files on fixed bytes, and the theorem about it at such bytes.
use evukb.Common.{[], ◌∷◌, ◌≡◌, ◌≢◌, refl, none, some, err}
use evukb.Archive.Limits.{Bytes, ArchiveImportLimits, too_many_bytes}
use evukb.Archive.Zip.{read_zip_declared_totals, assert_zip_declared_sizes_within_limits}
use evukb.Archive.Zip.Laws.{assert_zip_declared_sizes_within_limits_total}

-- A central directory of one header, which declares 300 bytes, and the end record.
abbrev one_entry : Bytes
one_entry =
    0x50 ∷ 0x4b ∷ 1 ∷ 2 ∷ 0 ∷ 0 ∷ 0 ∷ 0 ∷ 0 ∷ 0 ∷ 0 ∷ 0 ∷ 0 ∷ 0 ∷ 0 ∷ 0 ∷ 0 ∷ 0 ∷ 0 ∷ 0 ∷ 9 ∷ 0 ∷ 0
    ∷ 0 ∷ 44 ∷ 1 ∷ 0 ∷ 0 ∷ 1 ∷ 0 ∷ 0 ∷ 0 ∷ 0 ∷ 0 ∷ 0 ∷ 0 ∷ 0 ∷ 0 ∷ 0 ∷ 0 ∷ 0 ∷ 0 ∷ 0 ∷ 0 ∷ 0 ∷ 0
    ∷ 97 ∷ 0x50 ∷ 0x4b ∷ 5 ∷ 6 ∷ 0 ∷ 0 ∷ 0 ∷ 0 ∷ 1 ∷ 0 ∷ 1 ∷ 0 ∷ 47 ∷ 0 ∷ 0 ∷ 0 ∷ 0 ∷ 0 ∷ 0 ∷ 0 ∷ 0
    ∷ 0 ∷ []

read_one :
    read_zip_declared_totals one_entry
    ≡ some (some (record { entry_count = 1; total_uncompressed_bytes = 300 }))
unfolding read_zip_declared_totals
read_one = refl

abbrev narrow_limits : ArchiveImportLimits
narrow_limits = record { max_entries = 5; max_uncompressed_bytes = 299 }

refused :
    assert_zip_declared_sizes_within_limits one_entry narrow_limits ≡ some (err too_many_bytes)
unfolding assert_zip_declared_sizes_within_limits
refused = refl

assert_zip_declared_sizes_within_limits_total_example :
    assert_zip_declared_sizes_within_limits one_entry narrow_limits ≢ none
assert_zip_declared_sizes_within_limits_total_example =
    assert_zip_declared_sizes_within_limits_total one_entry narrow_limits
