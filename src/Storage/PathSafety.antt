-- ===== src/Storage/PathSafety.antt =====
-- packages/kb-core/src/storage/path-safety.ts: `normalizeRelativePath` and the blob references.
mod Tests
pub mod Scan
pub mod Walk
pub mod Refines
pub mod Laws
use evukb.Common.{
  ℕ, List, [], ◌∷◌, Bool, true, false, ◌&&◌, ◌||◌, ◌==◌, if◌then◌else◌, Result, ok, err,
}
use evukb.Common.Text.{Text, codes, text_eq, starts_with, includes, replace_char}
use evukb.Storage.Posix.{slash, dot, normalize}

-- `Error('Unsafe relative path: …')`
pub data PathError : Type 0 where
  unsafe_path : PathError

abbrev pub backslash : ℕ
backslash = 92

abbrev is_separator : ℕ → Bool
is_separator c = c == slash || c == backslash

-- `\.\.(?:[/\\]|$)` at the head of the text
unfoldable pub dotdot_here : Text → Bool
dotdot_here (a ∷ b ∷ []) = a == b'.' && b == b'.'
dotdot_here (a ∷ b ∷ c ∷ _) = a == b'.' && b == b'.' && is_separator c
dotdot_here _ = false

-- `unsafePathPattern.test(text)`: `boundary` says whether `^` or a separator stands before.
unfoldable pub unsafe_from : Bool → Text → Bool
unsafe_from boundary [] = false
unsafe_from boundary (c ∷ t) = (boundary && dotdot_here (c ∷ t)) || unsafe_from (is_separator c) t

-- The tests of `normalizeRelativePath` on the normalised text.
unfoldable pub is_unsafe : Text → Bool
unfolding unsafe_from dotdot_here
is_unsafe t =
    text_eq t []
    || text_eq t dot
    || starts_with (slash ∷ []) t
    || starts_with (codes "../") t
    || includes (codes "/../") t
    || unsafe_from true t

unfoldable pub normalize_relative_path : Text → Result PathError Text
unfolding normalize is_unsafe
normalize_relative_path input =
    let normalized = normalize (replace_char backslash slash input) in
    if is_unsafe normalized then err unsafe_path else ok normalized
