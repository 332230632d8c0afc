-- ===== src/Search/Filters/Laws.antt =====
-- What validation guarantees of the filters that are then parsed.
use evukb.Common.{
  ℕ, ◌+◌, ◌≤◌, List, [], ◌∷◌, ◌≡◌, refl, sym, Bool, true, false, arith, Option, none, some, All,
  length, ◌⊎◌, inl, inr, ◌↔◌, if◌then◌else◌,
}
use evukb.Common.Text.{Text, codes, trim}
use evukb.Common.Value.{
  Value, undefined, null, boolean, number, string, array, object, Fields, get, items, entries,
  as_object, is_string, is_undefined,
}
use evukb.Search.Filters.{
  KnowledgeFilters, read_source_type, read_index_status, nonempty, trimmed_strings,
  parse_string_array, put_text, put_trimmed, frontmatter_from, parse_frontmatter_filter, members_of,
  members_if_any, parse_source_types, parse_index_statuses, normalized_prefixes, allowlist_of,
  filters_of, parse_knowledge_filters, has_any_key, has_knowledge_filters, filters_need_sql_join,
  has_entries, has_text,
}
use evukb.Search.Filters.Validate.{
  FilterMessage, check_array, check_object, check_frontmatter, first_of, checks, validate_input,
  validate_knowledge_filters, is_source_type, is_index_status,
}

-- A list that is missing or has at most so many entries.
abbrev pub AtMost {ℓ} : {A : Type ℓ} → ℕ → Option (List A) → Type 0
AtMost limit none = Unit {0}
AtMost limit (some xs) = length xs ≤ limit

nonempty-AtMost {ℓ} :
    {A : Type ℓ} (limit : ℕ) (xs : List A) → length xs ≤ limit → AtMost limit (nonempty xs)
nonempty-AtMost limit [] h = tt
nonempty-AtMost limit (x ∷ xs) h = h

length-trimmed_strings : (vs : List Value) → length (trimmed_strings vs) ≤ length vs
unfolding trimmed_strings
length-trimmed_strings [] = omega arith
length-trimmed_strings (undefined ∷ vs) = omega (arith, length-trimmed_strings vs)
length-trimmed_strings (null ∷ vs) = omega (arith, length-trimmed_strings vs)
length-trimmed_strings (boolean _ ∷ vs) = omega (arith, length-trimmed_strings vs)
length-trimmed_strings (number _ ∷ vs) = omega (arith, length-trimmed_strings vs)
length-trimmed_strings (string t ∷ vs) = ground (arith, length-trimmed_strings vs)
length-trimmed_strings (array _ ∷ vs) = omega (arith, length-trimmed_strings vs)
length-trimmed_strings (object _ ∷ vs) = omega (arith, length-trimmed_strings vs)

parse_string_array-AtMost :
    (name : Text) (limit : ℕ) (accepted : Value → Bool) (v : Value)
    → check_array name limit accepted v ≡ none
    → AtMost limit (parse_string_array v)
unfolding check_array parse_string_array
parse_string_array-AtMost name limit accepted (array vs) e =
    nonempty-AtMost limit (trimmed_strings (items vs))
      (ground (arith, length-trimmed_strings (items vs)))
parse_string_array-AtMost name limit accepted undefined e = tt
parse_string_array-AtMost name limit accepted null e = tt
parse_string_array-AtMost name limit accepted (boolean _) e = tt
parse_string_array-AtMost name limit accepted (number _) e = tt
parse_string_array-AtMost name limit accepted (string _) e = tt
parse_string_array-AtMost name limit accepted (object _) e = tt

length-members_of :
    {A : Type 0} (read : Text → Option A) (ts : List Text) → length (members_of read ts) ≤ length ts
unfolding members_of
length-members_of read [] = omega arith
length-members_of read (t ∷ ts) = ground (arith, length-members_of read ts)

members_if_any-AtMost :
    {A : Type 0} (read : Text → Option A) (limit : ℕ) (o : Option (List Text))
    → AtMost limit o
    → AtMost limit (members_if_any read o)
members_if_any-AtMost read limit none h = tt
members_if_any-AtMost read limit (some ts) h =
    nonempty-AtMost limit (members_of read ts) (omega (arith, length-members_of read ts))

length-normalized_prefixes : (ps : List Text) → length (normalized_prefixes ps) ≤ length ps
unfolding normalized_prefixes
length-normalized_prefixes [] = omega arith
length-normalized_prefixes (p ∷ ps) = ground (arith, length-normalized_prefixes ps)

allowlist_of-AtMost :
    (limit : ℕ) (o : Option (List Text)) → AtMost limit o → AtMost limit (allowlist_of o)
allowlist_of-AtMost limit none h = tt
allowlist_of-AtMost limit (some ps) h = omega (arith, length-normalized_prefixes ps)

length-put_text :
    (key t : Text) (ps : List (Text × Text)) → length (put_text key t ps) ≤ length ps + 1
unfolding put_text
length-put_text key t [] = omega arith
length-put_text key t ((k, old) ∷ ps) = ground (arith, length-put_text key t ps)

length-put_trimmed :
    (key : Text) (v : Value) (ps : List (Text × Text))
    → length (put_trimmed key v ps) ≤ length ps + 1
length-put_trimmed key (string t) ps = ground (arith, length-put_text (trim key) (trim t) ps)
length-put_trimmed key undefined ps = omega arith
length-put_trimmed key null ps = omega arith
length-put_trimmed key (boolean _) ps = omega arith
length-put_trimmed key (number _) ps = omega arith
length-put_trimmed key (array _) ps = omega arith
length-put_trimmed key (object _) ps = omega arith

length-frontmatter_from :
    (rest : List (Text × Value)) (ps : List (Text × Text))
    → length (frontmatter_from rest ps) ≤ length ps + length rest
unfolding frontmatter_from
length-frontmatter_from [] ps = omega arith
length-frontmatter_from ((key, v) ∷ rest) ps =
    omega (arith, length-frontmatter_from rest (put_trimmed key v ps), length-put_trimmed key v ps)

frontmatter-AtMost :
    (o : Option Fields)
    → check_object o ≡ none
    → AtMost 8 (elim o [ none ↦ none | some r ↦ nonempty (frontmatter_from (entries r) []) ])
frontmatter-AtMost none e = tt
frontmatter-AtMost (some r) e =
    nonempty-AtMost 8 (frontmatter_from (entries r) [])
      (ground (arith, length-frontmatter_from (entries r) []))

parse_frontmatter_filter-AtMost :
    (v : Value) → check_frontmatter v ≡ none → AtMost 8 (parse_frontmatter_filter v)
unfolding check_frontmatter parse_frontmatter_filter is_undefined
parse_frontmatter_filter-AtMost undefined e = unfold as_object in tt
parse_frontmatter_filter-AtMost null e = frontmatter-AtMost (as_object null) (ground arith)
parse_frontmatter_filter-AtMost (boolean b) e =
    frontmatter-AtMost (as_object (boolean b)) (ground arith)
parse_frontmatter_filter-AtMost (number n) e =
    frontmatter-AtMost (as_object (number n)) (ground arith)
parse_frontmatter_filter-AtMost (string t) e =
    frontmatter-AtMost (as_object (string t)) (ground arith)
parse_frontmatter_filter-AtMost (array vs) e =
    frontmatter-AtMost (as_object (array vs)) (ground arith)
parse_frontmatter_filter-AtMost (object fs) e =
    frontmatter-AtMost (as_object (object fs)) (ground arith)

-- What a search is spared of: each list of the filters is within its limit.
pub record IsBounded (f : KnowledgeFilters) : Type 0 where
  pub tags : AtMost 16 f.tags
  pub file_types : AtMost 8 f.file_types
  pub path_allowlist : AtMost 16 f.path_allowlist
  pub frontmatter : AtMost 8 f.frontmatter
  pub source_types : AtMost 8 f.source_types
  pub index_status : AtMost 8 f.index_status

pub first_of-none : (cs : List (Option FilterMessage)) → first_of cs ≡ none → All (λ c. c ≡ none) cs
unfolding first_of
first_of-none [] e = tt
first_of-none (none ∷ cs) e = (refl, first_of-none cs e)
first_of-none (some message ∷ cs) e = cc

filters_of-IsBounded : (input : Fields) → validate_input input ≡ none → IsBounded (filters_of input)
unfolding validate_input checks filters_of parse_source_types parse_index_statuses
filters_of-IsBounded input e =
    let (tags, (types, (_, (paths, (front, (sources, (statuses, _))))))) =
      first_of-none (checks input) e in
    let array_of : Text → Value = λ name. get name input in
    record {
      tags = parse_string_array-AtMost (codes "tags") 16 is_string (array_of (codes "tags")) tags;
      file_types =
          parse_string_array-AtMost (codes "fileTypes") 8 is_string (array_of (codes "fileTypes"))
            types;
      path_allowlist =
          allowlist_of-AtMost 16 (parse_string_array (array_of (codes "pathAllowlist"))) (
            parse_string_array-AtMost (codes "pathAllowlist") 16 is_string
              (array_of (codes "pathAllowlist")) paths);
      frontmatter = parse_frontmatter_filter-AtMost (array_of (codes "frontmatter")) front;
      source_types =
          members_if_any-AtMost read_source_type 8
            (parse_string_array (array_of (codes "sourceTypes")))
            (parse_string_array-AtMost (codes "sourceTypes") 8 is_source_type
              (array_of (codes "sourceTypes")) sources);
      index_status =
          members_if_any-AtMost read_index_status 8
            (parse_string_array (array_of (codes "indexStatus")))
            (parse_string_array-AtMost (codes "indexStatus") 8 is_index_status
              (array_of (codes "indexStatus")) statuses);
    }

some_if-same : (b : Bool) (x f : KnowledgeFilters) → (if b then some x else none) ≡ some f → x ≡ f
some_if-same true x f e = cc e
some_if-same false x f e = cc e

-- The filters that a request with valid filters is searched with are within the limits: 16 tags
-- and path prefixes, and 8 file types, front matter keys, source types and index states.
pub validate_knowledge_filters-IsBounded :
    (raw : Value) (f : KnowledgeFilters)
    → validate_knowledge_filters raw ≡ none
    → parse_knowledge_filters raw ≡ some f
    → IsBounded f
unfolding validate_knowledge_filters parse_knowledge_filters as_object
validate_knowledge_filters-IsBounded (object input) f e p =
    rw (sym (some_if-same (has_any_key (filters_of input)) (filters_of input) f p))
      (filters_of-IsBounded input e)
validate_knowledge_filters-IsBounded undefined f e p = cc p
validate_knowledge_filters-IsBounded null f e p = cc p
validate_knowledge_filters-IsBounded (boolean b) f e p = cc p
validate_knowledge_filters-IsBounded (number n) f e p = cc p
validate_knowledge_filters-IsBounded (string t) f e p = cc p
validate_knowledge_filters-IsBounded (array vs) f e p = cc p

-- Nothing is there, or it is empty.
abbrev NoEntries {ℓ} : {A : Type ℓ} → Option (List A) → Type ℓ
NoEntries o = (o ≡ none) ⊎ (o ≡ some [])

has_entries_iff {ℓ} : {A : Type ℓ} (o : Option (List A)) → (has_entries o ≡ false) ↔ NoEntries o
has_entries_iff none = (λ e. inl refl, λ h. refl)
has_entries_iff (some []) = (λ e. inr refl, λ h. refl)
has_entries_iff (some (x ∷ xs)) = (λ e. cc e, λ h. elim h [ inl e ↦ cc e | inr e ↦ cc e ])

has_text_iff : (o : Option Text) → (has_text o ≡ false) ↔ NoEntries o
has_text_iff none = (λ e. inl refl, λ h. refl)
has_text_iff (some []) = (λ e. inr refl, λ h. refl)
has_text_iff (some (x ∷ xs)) = (λ e. cc e, λ h. elim h [ inl e ↦ cc e | inr e ↦ cc e ])

-- Each filter is missing or empty.
abbrev pub IsUnset : KnowledgeFilters → Type 0
IsUnset f =
    NoEntries f.tags
    × NoEntries f.file_types
    × NoEntries f.okf_type
    × NoEntries f.path_allowlist
    × NoEntries f.frontmatter
    × NoEntries f.source_types
    × NoEntries f.index_status

-- A search has no filters exactly if each of the seven is missing or empty, and the query needs a
-- join exactly if the search has filters when its file types are left out.
pub has_knowledge_filters_lem :
    (f : KnowledgeFilters)
    → ((has_knowledge_filters (some f) ≡ false) ↔ IsUnset f)
      × (filters_need_sql_join (some f)
          ≡ has_knowledge_filters (some (record f { file_types = none })))
unfolding has_knowledge_filters filters_need_sql_join
has_knowledge_filters_lem f = (
  ground (
    arith,
    has_entries_iff f.tags,
    has_entries_iff f.file_types,
    has_text_iff f.okf_type,
    has_entries_iff f.path_allowlist,
    has_entries_iff f.frontmatter,
    has_entries_iff f.source_types,
    has_entries_iff f.index_status,
  ),
  ground arith,
)
