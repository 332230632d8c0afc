-- ===== src/Archive/Paths/Laws.antt =====
-- Where accepted entries land, and what stripping takes away.
use evukb.Common.{
  ℕ, [], ◌∷◌, ◌≡◌, refl, ap, ◌∙◌, not, filter, arith, length, ok, Bool-cases, inl, inr, ◌⊎◌,
}
use evukb.Common.Text.{Text}
use evukb.Storage.PathSafety.Laws.{IsRelative, normalize_relative_path-IsRelative}
use evukb.Archive.Limits.{Entries}
use evukb.Archive.Paths.Segments.{names_git, should_autostrip-names_git}
use evukb.Archive.Paths.{
  cleaned_name, relative_or_bad, strip_autostripped_zip_entries, normalize_archive_zip_entry,
  assert_portable_file_entry, file_under, slice_from, portable_files_prefix,
}

relative_or_bad-IsRelative : (t r : Text) → relative_or_bad t ≡ ok r → IsRelative r
relative_or_bad-IsRelative t r e = ground (arith, normalize_relative_path-IsRelative t r)

file_under-IsRelative : (t r : Text) → file_under t ≡ ok r → IsRelative r
file_under-IsRelative t r e =
    ground (arith, relative_or_bad-IsRelative (slice_from portable_files_prefix t) r)

-- Whatever name an entry of a plain or of a portable archive carries, the path under which it is
-- imported, if the entry is accepted, is "./", the root itself, or a relative path below the root:
-- names without separators, none of them "..", joined by slashes.
pub entry_paths-IsRelative :
    (name r : Text)
    → (normalize_archive_zip_entry name ≡ ok r) ⊎ (assert_portable_file_entry name ≡ ok r)
    → IsRelative r
unfolding normalize_archive_zip_entry assert_portable_file_entry
entry_paths-IsRelative name r h = ground (
  arith,
  relative_or_bad-IsRelative (cleaned_name name) r,
  file_under-IsRelative (cleaned_name name) r,
)

-- The entries without a ".git" between the separators of their names, in their order, and how many
-- the others are.
abbrev pub Stripped : Entries → Entries × ℕ → Type 0
Stripped entries (kept, count) =
    (kept ≡ filter (λ entry. not (names_git entry.0)) entries)
    × (count ≡ length (filter (λ entry. names_git entry.0) entries))

-- Stripping keeps, in their order, exactly the entries of which no name between slashes and
-- backslashes is ".git", and counts the others.
pub strip_autostripped_zip_entries-Stripped :
    (entries : Entries) → Stripped entries (strip_autostripped_zip_entries entries)
unfolding strip_autostripped_zip_entries
strip_autostripped_zip_entries-Stripped [] = (refl, refl)
strip_autostripped_zip_entries-Stripped ((name, body) ∷ rest) =
    let (kept, count) = strip_autostripped_zip_entries-Stripped rest in
    let known = should_autostrip-names_git name in
    elim (Bool-cases (names_git name)) [
      | inl y ↦ rw (known ∙ y) (rw y (kept, ground (arith, count)))
      | inr n ↦ rw (known ∙ n) (rw n (ap (λ es. (name, body) ∷ es) kept, count))
    ]
