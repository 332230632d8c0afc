-- ===== src/Archive/Paths/Tests.antt =====
-- Runs on fixed entry names, and the theorems about them at such names.
use evukb.Common.{[], ◌∷◌, ◌≡◌, refl, inr, true, ok, err}
use evukb.Common.Text.{
  codes, text_eq, starts_with, ends_with, includes, split, join, replace_char, drop_leading,
}
use evukb.Storage.PathSafety.Laws.{IsRelative}
use evukb.Archive.Limits.{Entries}
use evukb.Archive.Paths.{
  normalize_archive_zip_entry, assert_portable_file_entry, unsafe_entry,
  strip_autostripped_zip_entries, is_portable_manifest_entry, blocked_segment,
}
use evukb.Archive.Paths.Laws.{
  entry_paths-IsRelative, Stripped, strip_autostripped_zip_entries-Stripped,
}

slashes_dropped : normalize_archive_zip_entry (codes "//docs\\a.md") ≡ ok (codes "docs/a.md")
unfolding text_eq starts_with ends_with includes split join replace_char drop_leading
    normalize_archive_zip_entry
slashes_dropped = refl

parent_refused : normalize_archive_zip_entry (codes "a/../b") ≡ err unsafe_entry
unfolding slashes_dropped
parent_refused = refl

internal_refused : assert_portable_file_entry (codes "files/.evukb/x") ≡ err blocked_segment
unfolding slashes_dropped assert_portable_file_entry
internal_refused = refl

manifest_found : is_portable_manifest_entry (codes "/.evukb/manifest.json") ≡ true
unfolding slashes_dropped is_portable_manifest_entry
manifest_found = refl

entry_paths-IsRelative_example : IsRelative (codes "a.md")
unfolding internal_refused
entry_paths-IsRelative_example =
    entry_paths-IsRelative (codes "files/a.md") (codes "a.md") (inr refl)

abbrev with_git : Entries
with_git = (codes "r/.git/config", 1 ∷ []) ∷ (codes "r/a.md", 2 ∷ []) ∷ []

strip_autostripped_zip_entries-Stripped_example :
    Stripped with_git (strip_autostripped_zip_entries with_git)
strip_autostripped_zip_entries-Stripped_example = strip_autostripped_zip_entries-Stripped with_git
