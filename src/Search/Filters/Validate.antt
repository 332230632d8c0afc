-- ===== src/Search/Filters/Validate.antt =====
-- packages/kb-core/src/search/filters.ts: `validateKnowledgeFilters`, which bounds what a request
-- may ask for.
use evukb.Common.{
  ℕ, List, [], ◌∷◌, Bool, false, not, ltb, if◌then◌else◌, Option, none, some, length,
}
use evukb.Common.Text.{Text, codes, truthy, trim}
use evukb.Common.Value.{
  Value, undefined, null, string, array, Fields, get, items, entries, as_object, is_undefined,
  is_string,
}
use evukb.Search.Filters.{read_source_type, read_index_status, is_there}

abbrev pub max_filter_tags : ℕ
max_filter_tags = 16

abbrev pub max_filter_file_types : ℕ
max_filter_file_types = 8

abbrev pub max_path_allowlist : ℕ
max_path_allowlist = 16

abbrev pub max_frontmatter_keys : ℕ
max_frontmatter_keys = 8

abbrev pub max_source_types : ℕ
max_source_types = 8

abbrev pub max_index_status : ℕ
max_index_status = 8

-- The messages; the name of the filter is in most of them.
pub data FilterMessage : Type 0 where
  filters_must_be_object okf_type_must_be_string frontmatter_must_be_object : FilterMessage
  too_many_keys keys_must_be_nonempty values_must_be_strings : FilterMessage
  must_be_array too_many_entries bad_entry : Text → FilterMessage

-- The loop over the entries of an array.
unfoldable pub check_items : Text → (Value → Bool) → List Value → Option FilterMessage
check_items name accepted [] = none
check_items name accepted (v ∷ vs) =
    let rest = check_items name accepted vs in if accepted v then rest else some (bad_entry name)

-- The checks of one array, of which the code has five.
unfoldable pub check_array : Text → ℕ → (Value → Bool) → Value → Option FilterMessage
unfolding check_items
check_array name limit accepted undefined = none
check_array name limit accepted (array vs) =
    if ltb limit (length (items vs))
    then some (too_many_entries name)
    else check_items name accepted (items vs)
check_array name limit accepted _ = some (must_be_array name)

unfoldable pub check_pairs : List (Text × Value) → Option FilterMessage
unfolding trim
check_pairs [] = none
check_pairs ((key, v) ∷ rest) =
    let later = check_pairs rest in
    if not (truthy (trim key))
    then some keys_must_be_nonempty
    else if not (is_string v)
    then some values_must_be_strings
    else later

abbrev pub check_object : Option Fields → Option FilterMessage
check_object none = some frontmatter_must_be_object
check_object (some r) =
    if ltb max_frontmatter_keys (length (entries r))
    then some too_many_keys
    else check_pairs (entries r)

unfoldable pub check_frontmatter : Value → Option FilterMessage
unfolding check_pairs
check_frontmatter v = if is_undefined v then none else check_object (as_object v)

abbrev pub check_okf_type : Value → Option FilterMessage
check_okf_type v =
    if is_undefined v then none else if is_string v then none else some okf_type_must_be_string

unfoldable pub is_source_type : Value → Bool
unfolding read_source_type
is_source_type (string t) = is_there (read_source_type t)
is_source_type _ = false

unfoldable pub is_index_status : Value → Bool
unfolding read_index_status
is_index_status (string t) = is_there (read_index_status t)
is_index_status _ = false

-- The first message of a chain of checks.
unfoldable pub first_of : List (Option FilterMessage) → Option FilterMessage
first_of [] = none
first_of (none ∷ checks) = first_of checks
first_of (some message ∷ checks) = some message

-- The checks, in the order of the code.
unfoldable pub checks : Fields → List (Option FilterMessage)
unfolding check_array check_frontmatter is_source_type is_index_status
checks input =
    check_array (codes "tags") max_filter_tags is_string (get (codes "tags") input)
    ∷ check_array (codes "fileTypes") max_filter_file_types is_string
        (get (codes "fileTypes") input)
    ∷ check_okf_type (get (codes "okfType") input)
    ∷ check_array (codes "pathAllowlist") max_path_allowlist is_string
        (get (codes "pathAllowlist") input)
    ∷ check_frontmatter (get (codes "frontmatter") input)
    ∷ check_array (codes "sourceTypes") max_source_types is_source_type
        (get (codes "sourceTypes") input)
    ∷ check_array (codes "indexStatus") max_index_status is_index_status
        (get (codes "indexStatus") input)
    ∷ []

unfoldable pub validate_input : Fields → Option FilterMessage
unfolding checks first_of
validate_input input = first_of (checks input)

unfoldable pub validate_knowledge_filters : Value → Option FilterMessage
unfolding validate_input
validate_knowledge_filters undefined = none
validate_knowledge_filters null = none
validate_knowledge_filters raw = elim (as_object raw) [
  | none ↦ some filters_must_be_object
  | some input ↦ validate_input input
]
