-- ===== src/Archive/Limits/Tests.antt =====
-- Runs of the limits on fixed archives, and the theorems about them at such archives.
use evukb.Common.{◌≤◌, [], ◌∷◌, ◌≡◌, refl, ◌↔◌, true, ok, arith}
use evukb.Common.Text.{codes, text_eq, ends_with}
use evukb.Archive.Limits.{
  Entries, ArchiveImportLimits, ArchiveImportBudget, assert_archive_zip_import_limits, remaining,
  consume, consume_layers, new_budget,
}
use evukb.Archive.Limits.Laws.{
  file_count, file_bytes, layers_count, layers_bytes, succeeds,
  assert_archive_zip_import_limits_iff, consume-remaining, consume_layers_iff,
}

abbrev small : ArchiveImportLimits
small = record { max_entries = 3; max_uncompressed_bytes = 5 }

abbrev outer : Entries
outer = (codes "d/", []) ∷ (codes "d/inner.zip", 80 ∷ 75 ∷ []) ∷ []

abbrev inner : Entries
inner = (codes "a.md", 35 ∷ 32 ∷ 97 ∷ []) ∷ []

abbrev used : ArchiveImportBudget
used = record { limits = small; entry_count = 1; total_bytes = 2 }

both_fit : succeeds (consume_layers (outer ∷ inner ∷ []) (new_budget small)) ≡ true
unfolding consume_layers new_budget consume ends_with text_eq
both_fit = refl

assert_archive_zip_import_limits_iff_example :
    (assert_archive_zip_import_limits outer small ≡ ok tt)
    ↔ ((file_count outer ≤ 3) × (file_bytes outer ≤ 5))
assert_archive_zip_import_limits_iff_example = assert_archive_zip_import_limits_iff small outer

consume-remaining_example :
    (assert_archive_zip_import_limits inner (remaining used) ≡ ok tt)
    ↔ (succeeds (consume inner used) ≡ true)
consume-remaining_example = consume-remaining inner used (omega arith, omega arith)

consume_layers_iff_example :
    (succeeds (consume_layers (outer ∷ inner ∷ []) (new_budget small)) ≡ true)
    ↔ ((layers_count (outer ∷ inner ∷ []) ≤ 3) × (layers_bytes (outer ∷ inner ∷ []) ≤ 5))
consume_layers_iff_example = consume_layers_iff (outer ∷ inner ∷ []) small
