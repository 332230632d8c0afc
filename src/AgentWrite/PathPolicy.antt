-- ===== src/AgentWrite/PathPolicy.antt =====
-- packages/kb-core/src/agent-write/path-policy.ts: the path prefixes under which an agent may
-- write, set by the workspace, narrowed by the corpus and by the agent's credential.
mod Tests
pub mod Cover
pub mod Narrow
pub mod Guard
pub mod Effective
use evukb.Common.{
  ℕ, List, [], ◌∷◌, ◌++◌, Bool, true, false, not, ◌&&◌, ◌||◌, ◌==◌, ltb, if◌then◌else◌, any, length,
  Option, none, some, Result, ok, err, ◌>>=◌,
}
use evukb.Common.Text.{
  Text, codes, text_eq, starts_with, has_char, trim, drop_leading, drop_trailing, truthy, join,
}
use evukb.Common.Value.{Value, undefined, null, string, array, object, items}
use evukb.Storage.Posix.{slash}
use evukb.Storage.PathSafety.{PathError, unsafe_path, normalize_relative_path}

-- The places that throw an `AgentWritePathError`.
pub data PolicyError : Type 0 where
  path_required unsafe_relative no_prefixes not_allowed no_file_name has_separator : PolicyError

pub record Layers : Type 0 where
  pub workspace_prefixes : Option (List Text)
  pub corpus_prefixes : Option (List Text)
  pub token_prefixes : Option (List Text)

abbrev pub agent_notes_root : Text
agent_notes_root = codes "agent-notes"

abbrev pub max_agent_write_path_prefixes : ℕ
max_agent_write_path_prefixes = 16

abbrev pub default_agent_write_path_prefixes : List Text
default_agent_write_path_prefixes = agent_notes_root ∷ []

abbrev pub is_slash : ℕ → Bool
is_slash c = c == slash

-- The `try` around `normalizeRelativePath`.
abbrev pub as_policy : Result PathError Text → Result PolicyError Text
as_policy (ok r) = ok r
as_policy (err e) = err unsafe_relative

unfoldable pub normalize_agent_write_path : Text → Result PolicyError Text
unfolding trim drop_leading
normalize_agent_write_path input =
    let trimmed = drop_leading is_slash (trim input) in
    if truthy trimmed then as_policy (normalize_relative_path trimmed) else err path_required

unfoldable pub normalize_agent_write_prefix : Text → Result PolicyError Text
unfolding drop_trailing
normalize_agent_write_prefix input = do
  path ← normalize_agent_write_path input
  ok (drop_trailing is_slash path)

-- The comparison of `prefixCovers`, once both sides are normalised.
unfoldable pub covers : Text → Text → Bool
unfolding text_eq starts_with
covers prefix path = text_eq path prefix || starts_with (prefix ++ slash ∷ []) path

unfoldable pub prefix_covers : Text → Text → Result PolicyError Bool
unfolding covers
prefix_covers prefix path = do
  normalized_prefix ← normalize_agent_write_prefix prefix
  normalized_path ← normalize_agent_write_path path
  ok (covers normalized_prefix normalized_path)

-- [...new Set(items)]: each text once, where it stands first.
unfoldable pub unique_from : List Text → List Text → List Text
unique_from seen [] = []
unique_from seen (x ∷ xs) =
    let rest = unique_from (x ∷ seen) xs in
    let skipped = unique_from seen xs in if any (text_eq x) seen then skipped else x ∷ rest

abbrev pub unique : List Text → List Text
unique xs = unique_from [] xs

-- The loop of `parseAgentWritePathPrefixes`: `none` is its early return.
unfoldable pub parse_prefix_items : List Value → Result PolicyError (Option (List Text))
parse_prefix_items [] = ok (some [])
parse_prefix_items (string s ∷ vs) =
    if truthy (trim s)
    then (do
      prefix ← normalize_agent_write_prefix s
      rest ← parse_prefix_items vs
      elim rest [ none ↦ ok none | some ps ↦ ok (some (prefix ∷ ps)) ])
    else ok none
parse_prefix_items (_ ∷ vs) = ok none

abbrev pub nonempty_unique : Option (List Text) → Option (List Text)
nonempty_unique none = none
nonempty_unique (some []) = none
nonempty_unique (some (p ∷ ps)) = some (unique (p ∷ ps))

unfoldable pub parse_agent_write_path_prefixes : Value → Result PolicyError (Option (List Text))
unfolding parse_prefix_items unique_from
parse_agent_write_path_prefixes (array vs) = do
  parsed ← parse_prefix_items (items vs)
  ok (nonempty_unique parsed)
parse_agent_write_path_prefixes _ = ok none

-- The messages of the validators.
pub data PrefixMessage : Type 0 where
  not_an_array empty_array too_many empty_entry unsafe_entry outside_workspace : PrefixMessage

unfoldable pub validate_prefix_items : List Value → Option PrefixMessage
validate_prefix_items [] = none
validate_prefix_items (string s ∷ vs) =
    let rest = validate_prefix_items vs in
    if truthy (trim s)
    then elim (normalize_agent_write_prefix s) [ ok _ ↦ rest | err _ ↦ some unsafe_entry ]
    else some empty_entry
validate_prefix_items (_ ∷ vs) = some empty_entry

unfoldable pub validate_agent_write_path_prefixes : Value → Option PrefixMessage
unfolding validate_prefix_items
validate_agent_write_path_prefixes undefined = none
validate_agent_write_path_prefixes null = none
validate_agent_write_path_prefixes (array vs) =
    if length (items vs) == 0
    then some empty_array
    else if ltb max_agent_write_path_prefixes (length (items vs))
    then some too_many
    else validate_prefix_items (items vs)
validate_agent_write_path_prefixes _ = some not_an_array

-- `raw` is `workspaceSettings.agentWritePathPrefixes`.
unfoldable pub workspace_agent_write_path_prefixes : Value → Result PolicyError (List Text)
workspace_agent_write_path_prefixes raw = do
  parsed ← parse_agent_write_path_prefixes raw
  elim parsed [ none ↦ ok default_agent_write_path_prefixes | some ps ↦ ok ps ]

-- The inner loop of `intersectPrefixLayers`, up to its `break`.
unfoldable pub intersect_one : List Text → Text → Result PolicyError (List Text)
intersect_one [] child = ok []
intersect_one (parent ∷ parents) child = do
  above ← prefix_covers parent child
  below ← (if above then ok false else prefix_covers child parent)
  let rest = intersect_one parents child
  if above then ok (child ∷ []) else if below then ok (parent ∷ []) else rest

unfoldable pub intersect_all : List Text → List Text → Result PolicyError (List Text)
intersect_all parents [] = ok []
intersect_all parents (child ∷ children) = do
  found ← intersect_one parents child
  rest ← intersect_all parents children
  ok (found ++ rest)

unfoldable pub intersect_prefix_layers : List Text → List Text → Result PolicyError (List Text)
unfolding intersect_all intersect_one unique_from
intersect_prefix_layers parents children = do out ← intersect_all parents children; ok (unique out)

-- prefixes.map(normalizeAgentWritePrefix)
unfoldable pub normalize_all : List Text → Result PolicyError (List Text)
normalize_all [] = ok []
normalize_all (p ∷ ps) = do q ← normalize_agent_write_prefix p; qs ← normalize_all ps; ok (q ∷ qs)

-- A layer narrows only if it is there and not empty.
unfoldable pub narrow : List Text → Option (List Text) → Result PolicyError (List Text)
narrow effective none = ok effective
narrow effective (some []) = ok effective
narrow effective (some (p ∷ ps)) = do
  layer ← normalize_all (p ∷ ps)
  intersect_prefix_layers effective layer

abbrev pub workspace_layer : Option (List Text) → Result PolicyError (List Text)
workspace_layer none = ok default_agent_write_path_prefixes
workspace_layer (some []) = ok default_agent_write_path_prefixes
workspace_layer (some (p ∷ ps)) = normalize_all (p ∷ ps)

unfoldable pub resolve_agent_write_path_prefixes : Layers → Result PolicyError (List Text)
unfolding normalize_all narrow intersect_prefix_layers
resolve_agent_write_path_prefixes layers = do
  workspace ← workspace_layer layers.workspace_prefixes
  effective ← narrow workspace layers.corpus_prefixes
  narrow effective layers.token_prefixes

-- prefixes.some((prefix) => prefixCovers(prefix, path))
unfoldable pub some_covers : List Text → Text → Result PolicyError Bool
some_covers [] path = ok false
some_covers (p ∷ ps) path = do
  here ← prefix_covers p path
  let rest = some_covers ps path
  if here then ok true else rest

unfoldable pub assert_agent_write_path : Text → List Text → Result PolicyError Text
unfolding some_covers
assert_agent_write_path input [] = do normalized ← normalize_agent_write_path input; err no_prefixes
assert_agent_write_path input (p ∷ ps) = do
  normalized ← normalize_agent_write_path input
  allowed ← some_covers (p ∷ ps) normalized
  if allowed then ok normalized else err not_allowed

unfoldable pub assert_agent_notes_path : Text → Result PolicyError Text
unfolding assert_agent_write_path
assert_agent_notes_path input = assert_agent_write_path input default_agent_write_path_prefixes

pub record SplitPath : Type 0 where
  pub folder_path : Text
  pub name : Text

-- The text before and behind the last slash.
unfoldable pub split_last : Text → Option SplitPath
split_last [] = none
split_last (c ∷ t) = elim (split_last t) [
  | some parts ↦ some (record { folder_path = c ∷ parts.folder_path; name = parts.name })
  | none ↦ if is_slash c then some (record { folder_path = []; name = t }) else none
]

unfoldable pub split_agent_write_path : Text → List Text → Result PolicyError SplitPath
unfolding assert_agent_write_path split_last
split_agent_write_path full_path allowed_prefixes = do
  normalized ← assert_agent_write_path full_path allowed_prefixes
  elim (split_last normalized) [ none ↦ err no_file_name | some parts ↦ ok parts ]

unfoldable pub join_agent_write_path : Text → Text → List Text → Result PolicyError Text
unfolding assert_agent_write_path
join_agent_write_path folder_path name allowed_prefixes = do
  normalized_name ← normalize_agent_write_path name
  checked ← (if has_char slash normalized_name then err has_separator else ok normalized_name)
  normalized_folder ←
      (if truthy folder_path then normalize_agent_write_path folder_path else ok agent_notes_root)
  assert_agent_write_path (normalized_folder ++ slash ∷ checked) allowed_prefixes

-- The common end of the two validators of a narrower layer: `parsed` may not leave the workspace.
unfoldable pub stays_within :
    Result PolicyError (List Text) → Result PolicyError (Option PrefixMessage)
stays_within resolved = do
  prefixes ← resolved
  elim prefixes [ [] ↦ ok (some outside_workspace) | _ ∷ _ ↦ ok none ]

unfoldable pub validate_credential_write_path_prefixes :
    Value → List Text → Result PolicyError (Option PrefixMessage)
unfolding stays_within
validate_credential_write_path_prefixes raw workspace_prefixes =
    elim (validate_agent_write_path_prefixes raw) [
      | some message ↦ ok (some message)
      | none ↦ (do
        parsed ← parse_agent_write_path_prefixes raw
        elim parsed [
          | none ↦ ok none
          | some prefixes ↦ stays_within (
              resolve_agent_write_path_prefixes (record {
                workspace_prefixes = some workspace_prefixes;
                corpus_prefixes = none;
                token_prefixes = some prefixes;
              }))
        ])
    ]

unfoldable pub validate_corpus_agent_write_path_prefixes :
    Value → List Text → Result PolicyError (Option PrefixMessage)
unfolding stays_within
validate_corpus_agent_write_path_prefixes raw workspace_prefixes =
    elim (validate_agent_write_path_prefixes raw) [
      | some message ↦ ok (some message)
      | none ↦ (do
        parsed ← parse_agent_write_path_prefixes raw
        elim parsed [
          | none ↦ ok none
          | some prefixes ↦ stays_within (
              resolve_agent_write_path_prefixes (record {
                workspace_prefixes = some workspace_prefixes;
                corpus_prefixes = some prefixes;
                token_prefixes = none;
              }))
        ])
    ]
