-- ===== src/Search/Filters.antt =====
-- packages/kb-core/src/search/filters.ts: the filters of a search as a request gives them. Parsing
-- and validation are here; matching a node against filters is not.
mod Tests
pub mod Validate
pub mod Laws
pub mod Kept
use evukb.Common.{
  List, [], ◌∷◌, Bool, true, false, not, ◌&&◌, ◌||◌, ◌==◌, if◌then◌else◌, Option, none, some,
}
use evukb.Common.Text.{
  Text, codes, text_eq, truthy, trim, drop_leading, drop_trailing, replace_char,
}
use evukb.Common.Value.{
  Value, string, array, object, Fields, end, field, get, items, entries, as_object, is_text,
}
use evukb.Storage.Posix.{slash}
use evukb.Storage.PathSafety.{backslash}

pub data NodeSourceType : Type 0 where
  managed shared_mount git reference import : NodeSourceType

pub data IndexStatus : Type 0 where
  pending indexing indexed stale failed : IndexStatus

-- A property that is missing is `none`.
pub record KnowledgeFilters : Type 0 where
  pub tags : Option (List Text)
  pub file_types : Option (List Text)
  pub okf_type : Option Text
  pub path_allowlist : Option (List Text)
  pub frontmatter : Option (List (Text × Text))
  pub source_types : Option (List NodeSourceType)
  pub index_status : Option (List IndexStatus)

unfoldable pub normalize_path_prefix : Text → Text
unfolding replace_char drop_leading drop_trailing
normalize_path_prefix value =
    drop_trailing (λ c. c == slash)
      (drop_leading (λ c. c == slash) (replace_char backslash slash value))

abbrev pub nonempty {ℓ} : {A : Type ℓ} → List A → Option (List A)
nonempty [] = none
nonempty (x ∷ xs) = some (x ∷ xs)

-- The strings among the entries, trimmed, without the empty ones.
unfoldable pub trimmed_strings : List Value → List Text
unfolding trim
trimmed_strings [] = []
trimmed_strings (string t ∷ vs) =
    let rest = trimmed_strings vs in if truthy (trim t) then trim t ∷ rest else rest
trimmed_strings (_ ∷ vs) = trimmed_strings vs

unfoldable pub parse_string_array : Value → Option (List Text)
unfolding trimmed_strings
parse_string_array (array vs) = nonempty (trimmed_strings (items vs))
parse_string_array _ = none

-- parsed[key] = value
unfoldable pub put_text : Text → Text → List (Text × Text) → List (Text × Text)
put_text key t [] = (key, t) ∷ []
put_text key t ((k, old) ∷ rest) =
    let later = put_text key t rest in if text_eq k key then (k, t) ∷ rest else (k, old) ∷ later

abbrev pub put_trimmed : Text → Value → List (Text × Text) → List (Text × Text)
put_trimmed key (string t) parsed =
    if truthy (trim key) && truthy (trim t) then put_text (trim key) (trim t) parsed else parsed
put_trimmed key _ parsed = parsed

unfoldable pub frontmatter_from : List (Text × Value) → List (Text × Text) → List (Text × Text)
unfolding put_text trim
frontmatter_from [] parsed = parsed
frontmatter_from ((key, v) ∷ rest) parsed = frontmatter_from rest (put_trimmed key v parsed)

unfoldable pub parse_frontmatter_filter : Value → Option (List (Text × Text))
unfolding frontmatter_from
parse_frontmatter_filter raw = elim (as_object raw) [
  | none ↦ none
  | some r ↦ nonempty (frontmatter_from (entries r) [])
]

unfoldable pub read_source_type : Text → Option NodeSourceType
read_source_type t =
    if text_eq t (codes "managed")
    then some managed
    else if text_eq t (codes "shared_mount")
    then some shared_mount
    else if text_eq t (codes "git")
    then some git
    else if text_eq t (codes "reference")
    then some reference
    else if text_eq t (codes "import")
    then some import
    else none

unfoldable pub read_index_status : Text → Option IndexStatus
read_index_status t =
    if text_eq t (codes "pending")
    then some pending
    else if text_eq t (codes "indexing")
    then some indexing
    else if text_eq t (codes "indexed")
    then some indexed
    else if text_eq t (codes "stale")
    then some stale
    else if text_eq t (codes "failed")
    then some failed
    else none

-- values.filter(…) for the values that are members of an enumeration
unfoldable pub members_of : {A : Type 0} → (Text → Option A) → List Text → List A
members_of read [] = []
members_of read (t ∷ ts) =
    let rest = members_of read ts in elim (read t) [ none ↦ rest | some a ↦ a ∷ rest ]

abbrev pub members_if_any : {A : Type 0} → (Text → Option A) → Option (List Text) → Option (List A)
members_if_any read none = none
members_if_any read (some values) = nonempty (members_of read values)

unfoldable pub parse_source_types : Value → Option (List NodeSourceType)
unfolding parse_string_array members_of read_source_type
parse_source_types raw = members_if_any read_source_type (parse_string_array raw)

unfoldable pub parse_index_statuses : Value → Option (List IndexStatus)
unfolding parse_string_array members_of read_index_status
parse_index_statuses raw = members_if_any read_index_status (parse_string_array raw)

unfoldable pub normalized_prefixes : List Text → List Text
unfolding normalize_path_prefix
normalized_prefixes [] = []
normalized_prefixes (p ∷ ps) =
    let rest = normalized_prefixes ps in
    if truthy (normalize_path_prefix p) then normalize_path_prefix p ∷ rest else rest

-- An allowlist that is there stays there, also when no prefix is left of it.
abbrev pub allowlist_of : Option (List Text) → Option (List Text)
allowlist_of none = none
allowlist_of (some ps) = some (normalized_prefixes ps)

abbrev pub trimmed_or_none : Value → Option Text
trimmed_or_none (string t) = if truthy (trim t) then some (trim t) else none
trimmed_or_none _ = none

unfoldable pub filters_of : Fields → KnowledgeFilters
unfolding parse_string_array normalized_prefixes parse_frontmatter_filter parse_source_types
    parse_index_statuses trim
filters_of input = record {
  tags = parse_string_array (get (codes "tags") input);
  file_types = parse_string_array (get (codes "fileTypes") input);
  okf_type = trimmed_or_none (get (codes "okfType") input);
  path_allowlist = allowlist_of (parse_string_array (get (codes "pathAllowlist") input));
  frontmatter = parse_frontmatter_filter (get (codes "frontmatter") input);
  source_types = parse_source_types (get (codes "sourceTypes") input);
  index_status = parse_index_statuses (get (codes "indexStatus") input);
}

abbrev pub is_there {ℓ} : {A : Type ℓ} → Option A → Bool
is_there none = false
is_there (some _) = true

-- Object.keys(parsed).length > 0
abbrev pub has_any_key : KnowledgeFilters → Bool
has_any_key f =
    is_there f.tags
    || is_there f.file_types
    || is_there f.okf_type
    || is_there f.path_allowlist
    || is_there f.frontmatter
    || is_there f.source_types
    || is_there f.index_status

unfoldable pub parse_knowledge_filters : Value → Option KnowledgeFilters
unfolding filters_of
parse_knowledge_filters raw = elim (as_object raw) [
  | none ↦ none
  | some input ↦ if has_any_key (filters_of input) then some (filters_of input) else none
]

-- list && list.length > 0
abbrev pub has_entries {ℓ} : {A : Type ℓ} → Option (List A) → Bool
has_entries none = false
has_entries (some []) = false
has_entries (some (x ∷ xs)) = true

-- A text that is there and not empty.
abbrev pub has_text : Option Text → Bool
has_text none = false
has_text (some t) = truthy t

unfoldable pub has_knowledge_filters : Option KnowledgeFilters → Bool
has_knowledge_filters none = false
has_knowledge_filters (some f) =
    has_entries f.tags
    || has_entries f.file_types
    || has_text f.okf_type
    || has_entries f.path_allowlist
    || has_entries f.frontmatter
    || has_entries f.source_types
    || has_entries f.index_status

unfoldable pub filters_need_sql_join : Option KnowledgeFilters → Bool
unfolding has_knowledge_filters
filters_need_sql_join none = false
filters_need_sql_join (some f) =
    if not (has_knowledge_filters (some f))
    then false
    else has_entries f.tags
      || has_text f.okf_type
      || has_entries f.path_allowlist
      || has_entries f.source_types
      || has_entries f.index_status
      || has_entries f.frontmatter
