-- ===== src/Archive/Paths.antt =====
-- packages/kb-core/src/archive/paths.ts and packages/kb-core/src/portable/paths.ts: the names of zip
-- entries, which come from whoever made the archive, as paths below the root of a corpus.
mod Tests
pub mod Segments
pub mod Laws
use evukb.Common.{
  ℕ, zero, suc, ◌+◌, List, [], ◌∷◌, Bool, true, false, ◌==◌, if◌then◌else◌, any, length, Result, ok,
  err,
}
use evukb.Common.Text.{Text, codes, text_eq, starts_with, truthy, drop_leading, split, replace_char}
use evukb.Storage.Posix.{slash, dotdot}
use evukb.Storage.PathSafety.{PathError, unsafe_path, backslash, normalize_relative_path}
use evukb.Archive.Limits.{Bytes, Entries}

-- What the name of an entry is refused for; `bad_path` is the error of `normalizeRelativePath`.
pub data EntryError : Type 0 where
  empty_path unsafe_entry blocked_segment absolute_path outside_files missing_path : EntryError
  bad_path : PathError → EntryError

-- entryName.replace(/\\/g, '/').replace(/^\/+/, '')
unfoldable pub cleaned_name : Text → Text
unfolding replace_char drop_leading
cleaned_name name = drop_leading (λ c. c == slash) (replace_char backslash slash name)

-- list.filter(Boolean)
abbrev pub nonempty : List Text → List Text
nonempty [] = []
nonempty (s ∷ ss) = let rest = nonempty ss in if truthy s then s ∷ rest else rest

-- normalized.split('/').filter(Boolean)
unfoldable pub segments : Text → List Text
unfolding split
segments t = nonempty (split slash t)

abbrev pub git_directory : Text
git_directory = codes ".git"

unfoldable pub should_autostrip_archive_zip_entry : Text → Bool
unfolding cleaned_name segments
should_autostrip_archive_zip_entry name = any (text_eq git_directory) (segments (cleaned_name name))

unfoldable pub strip_autostripped_zip_entries : Entries → Entries × ℕ
unfolding should_autostrip_archive_zip_entry
strip_autostripped_zip_entries [] = ([], 0)
strip_autostripped_zip_entries ((name, body) ∷ rest) =
    let (kept, count) = strip_autostripped_zip_entries rest in
    if should_autostrip_archive_zip_entry name
    then (kept, count + 1)
    else ((name, body) ∷ kept, count)

abbrev pub relative_or_bad : Text → Result EntryError Text
relative_or_bad path = elim (normalize_relative_path path) [
  | err e ↦ err (bad_path e)
  | ok r ↦ ok r
]

unfoldable pub normalize_archive_zip_entry : Text → Result EntryError Text
unfolding cleaned_name segments normalize_relative_path
normalize_archive_zip_entry name =
    let normalized = cleaned_name name in
    if length normalized == 0
    then err empty_path
    else if any (text_eq dotdot) (segments normalized)
    then err unsafe_entry
    else if starts_with (slash ∷ []) normalized
    then err absolute_path
    else relative_or_bad normalized

abbrev pub portable_manifest_path : Text
portable_manifest_path = codes ".evukb/manifest.json"

abbrev pub portable_files_prefix : Text
portable_files_prefix = codes "files/"

abbrev pub evukb_directory : Text
evukb_directory = codes ".evukb"

-- The loop over the segments: the first of them that is refused decides the error.
unfoldable pub check_segments : List Text → Result EntryError (Unit {0})
check_segments [] = ok tt
check_segments (s ∷ ss) =
    let rest = check_segments ss in
    if text_eq s dotdot
    then err unsafe_entry
    else if text_eq s evukb_directory
    then err blocked_segment
    else rest

unfoldable pub normalize_portable_zip_entry : Text → Result EntryError Text
unfolding cleaned_name segments check_segments
normalize_portable_zip_entry name =
    let normalized = cleaned_name name in
    if length normalized == 0
    then err empty_path
    else if text_eq normalized portable_manifest_path
    then ok normalized
    else elim (check_segments (segments normalized)) [
      | err e ↦ err e
      | ok _ ↦ if starts_with (slash ∷ []) normalized then err absolute_path else ok normalized
    ]

-- text.slice(prefix.length)
abbrev pub slice_from : Text → Text → Text
slice_from [] t = t
slice_from (_ ∷ p) [] = []
slice_from (_ ∷ p) (_ ∷ t) = slice_from p t

abbrev pub file_under : Text → Result EntryError Text
file_under normalized =
    if starts_with portable_files_prefix normalized
    then (if length (slice_from portable_files_prefix normalized) == 0
        then err missing_path
        else relative_or_bad (slice_from portable_files_prefix normalized))
    else err outside_files

unfoldable pub assert_portable_file_entry : Text → Result EntryError Text
unfolding normalize_portable_zip_entry starts_with normalize_relative_path
assert_portable_file_entry name = elim (normalize_portable_zip_entry name) [
  | err e ↦ err e
  | ok normalized ↦ file_under normalized
]

unfoldable pub is_portable_manifest_entry : Text → Bool
unfolding normalize_portable_zip_entry
is_portable_manifest_entry name = elim (normalize_portable_zip_entry name) [
  | err e ↦ false
  | ok normalized ↦ text_eq normalized portable_manifest_path
]
