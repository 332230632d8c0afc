-- ===== src/AgentWrite/PathPolicy/Tests.antt =====
-- Runs of the path policy on fixed inputs, and its theorems at inputs that meet their hypotheses.
use evukb.Common.{List, [], ◌∷◌, ◌++◌, ◌≡◌, refl, none, some, ok, err, All, ◌↔◌}
use evukb.Common.Text.{
  Text, codes, text_eq, starts_with, ends_with, includes, split, join, replace_char, has_char, trim,
  drop_trailing, drop_leading, is_space,
}
use evukb.Common.Text.Split.{Lacks}
use evukb.Storage.Posix.{slash}
use evukb.Storage.PathSafety.{normalize_relative_path}
use evukb.Storage.PathSafety.Laws.{IsRelative}
use evukb.AgentWrite.PathPolicy.{
  Layers, SplitPath, default_agent_write_path_prefixes, prefix_covers, normalize_agent_write_path,
  normalize_agent_write_prefix, assert_agent_write_path, split_agent_write_path,
  join_agent_write_path, resolve_agent_write_path_prefixes, not_allowed,
}
use evukb.AgentWrite.PathPolicy.Cover.{Covers}
use evukb.AgentWrite.PathPolicy.Narrow.{Covered}
use evukb.AgentWrite.PathPolicy.Guard.{
  UnderSome, assert_agent_write_path_iff, assert_agent_write_path-UnderSome,
  split_agent_write_path-join, split_agent_write_path-trailing,
}

policy : Unit {0}
unfolding text_eq starts_with ends_with includes split join replace_char has_char is_space
    normalize_relative_path normalize_agent_write_path normalize_agent_write_prefix drop_trailing
    drop_leading trim prefix_covers split_agent_write_path join_agent_write_path
    resolve_agent_write_path_prefixes
policy = tt

abbrev notes : Text
notes = codes "agent-notes/a/b.md"

abbrev allowed : List Text
allowed = default_agent_write_path_prefixes

notes-allowed : assert_agent_write_path (codes " /agent-notes//a/./b.md") allowed ≡ ok notes
unfolding policy
notes-allowed = refl

other_refused : assert_agent_write_path (codes "agent-notes-2/b.md") allowed ≡ err not_allowed
unfolding policy
other_refused = refl

joined :
    join_agent_write_path (codes "agent-notes/x") (codes "y.md") allowed
    ≡ ok (codes "agent-notes/x/y.md")
unfolding policy
joined = refl

-- The leading space that normalisation uncovers is not trimmed from the result: the path that is
-- let through lies in another folder than the prefix.
uncovered_space :
    assert_agent_write_path (codes "x/../ agent-notes/f") allowed ≡ ok (codes " agent-notes/f")
unfolding policy
uncovered_space = refl

allowed_normal : All (λ p. Covers p p) allowed
unfolding policy
allowed_normal = (refl, tt)

assert_agent_write_path_iff_example :
    (assert_agent_write_path (codes "/agent-notes/a/b.md") allowed ≡ ok notes) ↔ (
      (normalize_agent_write_path (codes "/agent-notes/a/b.md") ≡ ok notes) × Covered allowed notes)
assert_agent_write_path_iff_example =
    assert_agent_write_path_iff (codes "/agent-notes/a/b.md") allowed notes allowed_normal

trim-notes : trim notes ≡ notes
unfolding policy
trim-notes = refl

assert_agent_write_path-UnderSome_example : IsRelative notes × UnderSome allowed notes
assert_agent_write_path-UnderSome_example =
    assert_agent_write_path-UnderSome (codes " /agent-notes//a/./b.md") allowed notes notes-allowed
      trim-notes

abbrev notes_parts : SplitPath
notes_parts = record { folder_path = codes "agent-notes/a"; name = codes "b.md" }

split-notes : split_agent_write_path notes allowed ≡ ok notes_parts
unfolding policy
split-notes = refl

split_agent_write_path-join_example :
    (assert_agent_write_path notes allowed ≡ ok notes) × Lacks slash notes_parts.name
split_agent_write_path-join_example =
    split_agent_write_path-join notes allowed notes_parts split-notes

folder_allowed :
    assert_agent_write_path (codes "agent-notes/a/") allowed
    ≡ ok (codes "agent-notes/a" ++ slash ∷ [])
unfolding policy
folder_allowed = refl

split_agent_write_path-trailing_example :
    split_agent_write_path (codes "agent-notes/a/") allowed
    ≡ ok (record { folder_path = codes "agent-notes/a"; name = [] })
split_agent_write_path-trailing_example =
    split_agent_write_path-trailing (codes "agent-notes/a/") allowed (codes "agent-notes/a")
      folder_allowed

abbrev layers : Layers
layers = record {
  workspace_prefixes = some (codes "docs" ∷ codes "notes/" ∷ []);
  corpus_prefixes = some (codes "docs/a" ∷ codes "notes" ∷ []);
  token_prefixes = some (codes "docs" ∷ []);
}

-- A child prefix above two parents keeps the first of them only.
parent_lost :
    resolve_agent_write_path_prefixes (record {
      workspace_prefixes = some (codes "docs/a" ∷ codes "docs/b" ∷ []);
      corpus_prefixes = none;
      token_prefixes = some (codes "docs" ∷ []);
    })
    ≡ ok (codes "docs/a" ∷ [])
unfolding policy
parent_lost = refl
