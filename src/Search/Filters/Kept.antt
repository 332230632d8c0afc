-- ===== src/Search/Filters/Kept.antt =====
-- Of valid filters, parsing keeps each source type and each index state.
use evukb.Common.{
  ℕ, List, [], ◌∷◌, ◌≡◌, refl, sym, ap, ◌∙◌, Bool, true, arith, Option, none, some, map, Bool-cases,
  inl, inr,
}
use evukb.Common.Text.{
  Text, codes, truthy, trim, text_eq, text_eq_iff, drop_leading, drop_trailing, is_space,
}
use evukb.Common.Value.{
  Value, undefined, null, boolean, number, string, array, object, Fields, get, items,
}
use evukb.Search.Filters.{
  NodeSourceType, managed, shared_mount, git, reference, import, IndexStatus, pending, indexing,
  indexed, stale, failed, nonempty, trimmed_strings, parse_string_array, members_of, members_if_any,
  read_source_type, read_index_status, parse_source_types, parse_index_statuses, filters_of,
}
use evukb.Search.Filters.Validate.{
  check_array, check_items, checks, validate_input, is_source_type, is_index_status,
}
use evukb.Search.Filters.Laws.{first_of-none}

abbrev pub source_type_name : NodeSourceType → Text
source_type_name managed = codes "managed"
source_type_name shared_mount = codes "shared_mount"
source_type_name git = codes "git"
source_type_name reference = codes "reference"
source_type_name import = codes "import"

abbrev pub index_status_name : IndexStatus → Text
index_status_name pending = codes "pending"
index_status_name indexing = codes "indexing"
index_status_name indexed = codes "indexed"
index_status_name stale = codes "stale"
index_status_name failed = codes "failed"

abbrev IsTrimmed : Text → Type 0
IsTrimmed t = (trim t ≡ t) × (truthy t ≡ true)

read_source_type-source_type_name :
    (a : NodeSourceType) → read_source_type (source_type_name a) ≡ some a
unfolding read_source_type text_eq
read_source_type-source_type_name managed = refl
read_source_type-source_type_name shared_mount = refl
read_source_type-source_type_name git = refl
read_source_type-source_type_name reference = refl
read_source_type-source_type_name import = refl

source_type_name-IsTrimmed : (a : NodeSourceType) → IsTrimmed (source_type_name a)
unfolding trim drop_leading drop_trailing is_space
source_type_name-IsTrimmed managed = (refl, refl)
source_type_name-IsTrimmed shared_mount = (refl, refl)
source_type_name-IsTrimmed git = (refl, refl)
source_type_name-IsTrimmed reference = (refl, refl)
source_type_name-IsTrimmed import = (refl, refl)

read_index_status-index_status_name :
    (a : IndexStatus) → read_index_status (index_status_name a) ≡ some a
unfolding read_index_status text_eq
read_index_status-index_status_name pending = refl
read_index_status-index_status_name indexing = refl
read_index_status-index_status_name indexed = refl
read_index_status-index_status_name stale = refl
read_index_status-index_status_name failed = refl

index_status_name-IsTrimmed : (a : IndexStatus) → IsTrimmed (index_status_name a)
unfolding trim drop_leading drop_trailing is_space
index_status_name-IsTrimmed pending = (refl, refl)
index_status_name-IsTrimmed indexing = (refl, refl)
index_status_name-IsTrimmed indexed = (refl, refl)
index_status_name-IsTrimmed stale = (refl, refl)
index_status_name-IsTrimmed failed = (refl, refl)

is_source_type_named :
    (v : Value) → is_source_type v ≡ true → (a : _) × (v ≡ string (source_type_name a))
unfolding is_source_type read_source_type
is_source_type_named (string t) e = elim (Bool-cases (text_eq t (codes "managed"))) [
  | inl y ↦ (managed, ap string ((text_eq_iff t (codes "managed")).0 y))
  | inr n0 ↦ elim (Bool-cases (text_eq t (codes "shared_mount"))) [
    | inl y ↦ (shared_mount, ap string ((text_eq_iff t (codes "shared_mount")).0 y))
    | inr n1 ↦ elim (Bool-cases (text_eq t (codes "git"))) [
      | inl y ↦ (git, ap string ((text_eq_iff t (codes "git")).0 y))
      | inr n2 ↦ elim (Bool-cases (text_eq t (codes "reference"))) [
        | inl y ↦ (reference, ap string ((text_eq_iff t (codes "reference")).0 y))
        | inr n3 ↦ elim (Bool-cases (text_eq t (codes "import"))) [
          | inl y ↦ (import, ap string ((text_eq_iff t (codes "import")).0 y))
          | inr n4 ↦ absurd (ground arith)
        ]
      ]
    ]
  ]
]
is_source_type_named undefined e = cc e
is_source_type_named null e = cc e
is_source_type_named (boolean _) e = cc e
is_source_type_named (number _) e = cc e
is_source_type_named (array _) e = cc e
is_source_type_named (object _) e = cc e

is_index_status_named :
    (v : Value) → is_index_status v ≡ true → (a : _) × (v ≡ string (index_status_name a))
unfolding is_index_status read_index_status
is_index_status_named (string t) e = elim (Bool-cases (text_eq t (codes "pending"))) [
  | inl y ↦ (pending, ap string ((text_eq_iff t (codes "pending")).0 y))
  | inr n0 ↦ elim (Bool-cases (text_eq t (codes "indexing"))) [
    | inl y ↦ (indexing, ap string ((text_eq_iff t (codes "indexing")).0 y))
    | inr n1 ↦ elim (Bool-cases (text_eq t (codes "indexed"))) [
      | inl y ↦ (indexed, ap string ((text_eq_iff t (codes "indexed")).0 y))
      | inr n2 ↦ elim (Bool-cases (text_eq t (codes "stale"))) [
        | inl y ↦ (stale, ap string ((text_eq_iff t (codes "stale")).0 y))
        | inr n3 ↦ elim (Bool-cases (text_eq t (codes "failed"))) [
          | inl y ↦ (failed, ap string ((text_eq_iff t (codes "failed")).0 y))
          | inr n4 ↦ absurd (ground arith)
        ]
      ]
    ]
  ]
]
is_index_status_named undefined e = cc e
is_index_status_named null e = cc e
is_index_status_named (boolean _) e = cc e
is_index_status_named (number _) e = cc e
is_index_status_named (array _) e = cc e
is_index_status_named (object _) e = cc e

abbrev pub entries_of : {A : Type 0} → Option (List A) → List A
entries_of none = []
entries_of (some xs) = xs

entries_of-nonempty : {A : Type 0} (xs : List A) → entries_of (nonempty xs) ≡ xs
entries_of-nonempty [] = refl
entries_of-nonempty (x ∷ xs) = refl

-- A setting that is missing and stays so, or a list of names and the list of what they name.
abbrev pub IsList : {A : Type 0} → (A → Text) → Value → Option (List A) → Type 0
IsList name undefined o = o ≡ none
IsList name (array vs) o = items vs ≡ map (λ a. string (name a)) (entries_of o)
IsList name _ o = ⊥

-- A validator of entries, and the reader of the same enumeration.
module _ {A : Type 0} (label : Text) (accepted : Value → Bool) (read : Text → Option A)
    (name : A → Text) (named : (v : Value) → accepted v ≡ true → (a : A) × (v ≡ string (name a)))
    (reads : (a : A) → read (name a) ≡ some a) (trimmed : (a : A) → IsTrimmed (name a)) where
  members_kept :
      (vs : List Value)
      → check_items label accepted vs ≡ none
      → vs ≡ map (λ a. string (name a)) (members_of read (trimmed_strings vs))
  unfolding check_items trimmed_strings members_of
  members_kept [] e = refl
  members_kept (v ∷ vs) e = elim (Bool-cases (accepted v)) [
    | inl y ↦
        let (a, same) = named v y in
        let (whole, full) = trimmed a in
        rw same (
          rw whole (
            rw full
              (rw (reads a) (ap (λ ws. string (name a) ∷ ws) (members_kept vs (ground arith))))))
    | inr n ↦ absurd (ground arith)
  ]

  members_if_any-IsList :
      (limit : ℕ) (v : Value)
      → check_array label limit accepted v ≡ none
      → IsList name v (members_if_any read (parse_string_array v))
  unfolding check_array parse_string_array
  members_if_any-IsList limit (array vs) e =
      members_kept (items vs) (ground arith)
      ∙ ap (map (λ a. string (name a))) (sym (strings_kept (trimmed_strings (items vs))))
    where
      strings_kept :
          (ts : List Text) → entries_of (members_if_any read (nonempty ts)) ≡ members_of read ts
      strings_kept [] = unfold members_of in refl
      strings_kept (t ∷ ts) = entries_of-nonempty (members_of read (t ∷ ts))
  members_if_any-IsList limit undefined e = refl
  members_if_any-IsList limit null e = cc e
  members_if_any-IsList limit (boolean _) e = cc e
  members_if_any-IsList limit (number _) e = cc e
  members_if_any-IsList limit (string _) e = cc e
  members_if_any-IsList limit (object _) e = cc e

-- Of filters that pass validation, the source types are missing, before and after parsing, or they
-- are an array of exactly the names, in their order, of the source types that it is parsed to; and
-- the index states likewise.
pub filters_of-IsList :
    (input : Fields)
    → validate_input input ≡ none
    → IsList source_type_name (get (codes "sourceTypes") input) (filters_of input).source_types
      × IsList index_status_name (get (codes "indexStatus") input) (filters_of input).index_status
unfolding validate_input checks filters_of parse_source_types parse_index_statuses
filters_of-IsList input e =
    let (_, (_, (_, (_, (_, (c, (d, _))))))) = first_of-none (checks input) e in
    (
      members_if_any-IsList (codes "sourceTypes") is_source_type read_source_type source_type_name
          is_source_type_named read_source_type-source_type_name source_type_name-IsTrimmed 8
          (get (codes "sourceTypes") input) c,
      members_if_any-IsList (codes "indexStatus") is_index_status read_index_status
          index_status_name is_index_status_named read_index_status-index_status_name
          index_status_name-IsTrimmed 8 (get (codes "indexStatus") input) d,
    )
