-- ===== src/Search/Filters/Tests.antt =====
-- Runs on fixed filters, and the theorems about them at such filters.
use evukb.Common.{[], ◌∷◌, ◌≡◌, refl, false, ◌↔◌, none, some}
use evukb.Common.Text.{
  Text, codes, text_eq, trim, drop_leading, drop_trailing, is_space, replace_char,
}
use evukb.Common.Value.{
  Fields, Value, string, array, object, nil, item, end, field, get, as_object, is_string,
  is_undefined,
}
use evukb.Search.Filters.{
  KnowledgeFilters, filters_of, git, parse_knowledge_filters, has_knowledge_filters,
  filters_need_sql_join,
}
use evukb.Search.Filters.Validate.{validate_input, validate_knowledge_filters, bad_entry}
use evukb.Search.Filters.Kept.{IsList, source_type_name, index_status_name, filters_of-IsList}
use evukb.Search.Filters.Laws.{
  IsBounded, validate_knowledge_filters-IsBounded, IsUnset, has_knowledge_filters_lem,
}

abbrev wanted : Text → Value
wanted source = object (
    field (codes "fileTypes") (array (item (string (codes " md ")) nil))
      (field (codes "sourceTypes") (array (item (string source) nil)) end))

abbrev markdown_from_git : KnowledgeFilters
markdown_from_git = record {
  tags = none;
  file_types = some (codes "md" ∷ []);
  okf_type = none;
  path_allowlist = none;
  frontmatter = none;
  source_types = some (git ∷ []);
  index_status = none;
}

parsed : parse_knowledge_filters (wanted (codes "git")) ≡ some markdown_from_git
unfolding parse_knowledge_filters get text_eq as_object trim drop_leading drop_trailing is_space
    replace_char
parsed = refl

valid : validate_knowledge_filters (wanted (codes "git")) ≡ none
unfolding validate_knowledge_filters get text_eq as_object is_string is_undefined
valid = refl

refused : validate_knowledge_filters (wanted (codes "svn")) ≡ some (bad_entry (codes "sourceTypes"))
unfolding valid
refused = refl

validate_knowledge_filters-IsBounded_example : IsBounded markdown_from_git
validate_knowledge_filters-IsBounded_example =
    validate_knowledge_filters-IsBounded (wanted (codes "git")) markdown_from_git valid parsed

has_knowledge_filters_lem_example :
    ((has_knowledge_filters (some markdown_from_git) ≡ false) ↔ IsUnset markdown_from_git)
    × (filters_need_sql_join (some markdown_from_git)
        ≡ has_knowledge_filters (some (record markdown_from_git { file_types = none })))
has_knowledge_filters_lem_example = has_knowledge_filters_lem markdown_from_git

abbrev listed : Fields
listed =
    field (codes "sourceTypes")
      (array (item (string (codes "git")) (item (string (codes "managed")) nil)))
      (field (codes "indexStatus") (array (item (string (codes "stale")) nil)) end)

listed_valid : validate_input listed ≡ none
unfolding get text_eq validate_input is_string is_undefined
listed_valid = refl

filters_of-IsList_example :
    IsList source_type_name (get (codes "sourceTypes") listed) (filters_of listed).source_types
    × IsList index_status_name (get (codes "indexStatus") listed) (filters_of listed).index_status
filters_of-IsList_example = filters_of-IsList listed listed_valid
