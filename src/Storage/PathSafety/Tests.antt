-- ===== src/Storage/PathSafety/Tests.antt =====
-- Runs of the path functions on fixed inputs, and the theorems about them at such inputs.
use evukb.Common.{◌≡◌, refl, ok, err, ◌↔◌}
use evukb.Common.Text.{
  Text, codes, text_eq, starts_with, ends_with, includes, split, join, replace_char,
}
use evukb.Storage.PathSafety.{normalize_relative_path, unsafe_path}
use evukb.Storage.PathSafety.Walk.{contained_path}
use evukb.Storage.PathSafety.Refines.{normalize_relative_path-eq-contained_path}
use evukb.Storage.PathSafety.Laws.{IsRelative, normalize_relative_path_iff}

text_functions : Unit {0}
unfolding text_eq starts_with ends_with includes split join replace_char normalize_relative_path
text_functions = tt

accepted : normalize_relative_path (codes "a\\./b//../c") ≡ ok (codes "a/c")
unfolding text_functions
accepted = refl

rejected : normalize_relative_path (codes "a/../../b") ≡ err unsafe_path
unfolding text_functions
rejected = refl

kept_slash : normalize_relative_path (codes "a/b/") ≡ ok (codes "a/b/")
unfolding text_functions
kept_slash = refl

only_dot : normalize_relative_path (codes "a/..") ≡ err unsafe_path
unfolding text_functions
only_dot = refl

dot_slash : normalize_relative_path (codes "a/../") ≡ ok (codes "./")
unfolding text_functions
dot_slash = refl

normalize_relative_path-eq-contained_path_example :
    normalize_relative_path (codes "a/../b") ≡ contained_path (codes "a/../b")
normalize_relative_path-eq-contained_path_example =
    normalize_relative_path-eq-contained_path (codes "a/../b")

normalize_relative_path_iff_example :
    (((input : Text) × (normalize_relative_path input ≡ ok (codes "a/b/")))
      ↔ IsRelative (codes "a/b/"))
    × ((normalize_relative_path (codes "a/b/") ≡ ok (codes "a/b/")) ↔ IsRelative (codes "a/b/"))
normalize_relative_path_iff_example = normalize_relative_path_iff (codes "a/b/")
