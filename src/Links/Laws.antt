-- ===== src/Links/Laws.antt =====
-- A link without a node of its own leads to a node exactly if there is a document at its target.
use evukb.Common.{
  List, [], ◌∷◌, ◌++◌, ◌≡◌, ◌≢◌, refl, ap, ◌∙◌, ◌⊎◌, Bool, true, false, ◌&&◌, ◌||◌, Bool-cases, inl,
  inr, Option, none, some, any, All, arith,
}
use evukb.Common.Text.{Text, codes, text_eq, text_eq_iff, truthy, ends_with}
use evukb.Nodes.Rows.{Node}
use evukb.Links.{
  LinkResolutionInput, LinkResolutionResult, build_file_path, is_markdown_node, Entry,
  build_map_from, build_markdown_path_to_node_id_map, get_entry, target_path_candidates, unresolved,
  resolved_to, other_candidate, drop_last_three, nonempty, target_or, first_target,
  resolve_internal_link_target,
}

-- A document at the file path.
abbrev pub is_document_at : Text → Node → Bool
is_document_at path n = is_markdown_node n && text_eq (build_file_path n.path n.name) path

abbrev pub is_given : Option Text → Bool
is_given none = false
is_given (some id) = truthy id

-- Nodes with ids that are not empty.
abbrev pub Identified : List Node → Type 0
Identified nodes = All (λ n. truthy n.id ≡ true) nodes

get_entry-build :
    (path : Text) (map : List Entry) (nodes : List Node)
    → Identified nodes
    → is_given (get_entry path (build_map_from map nodes))
      ≡ (any (is_document_at path) nodes || is_given (get_entry path map))
unfolding get_entry build_map_from
get_entry-build path map [] h = refl
get_entry-build path map (n ∷ nodes) (x, h) = elim (Bool-cases (is_markdown_node n)) [
  | inr nn ↦ ground (arith, get_entry-build path map nodes h)
  | inl y ↦
      let entry : Entry = record { file_path = build_file_path n.path n.name; id = n.id } in
      rw y (
        get_entry-build path (entry ∷ map) nodes h
        ∙ elim (Bool-cases (text_eq entry.file_path path)) [
          | inl z ↦ ground (arith, x)
          | inr z ↦ ground arith
        ])
]

abbrev pub is_document_with : Text → Text → Node → Bool
is_document_with path id n = is_document_at path n && text_eq n.id id

get_entry-document :
    (path id : Text) (map : List Entry) (nodes : List Node)
    → get_entry path (build_map_from map nodes) ≡ some id
    → (any (is_document_with path id) nodes ≡ true) ⊎ (get_entry path map ≡ some id)
unfolding get_entry build_map_from
get_entry-document path id map [] e = inr e
get_entry-document path id map (n ∷ nodes) e = elim (Bool-cases (is_markdown_node n)) [
  | inr nn ↦ elim (get_entry-document path id map nodes (rw nn at e)) [
    | inl h ↦ inl (ground arith)
    | inr h ↦ inr h
  ]
  | inl y ↦
      let entry : Entry = record { file_path = build_file_path n.path n.name; id = n.id } in
      elim (get_entry-document path id (entry ∷ map) nodes (rw y at e)) [
        | inl h ↦ inl (ground arith)
        | inr h ↦ elim (Bool-cases (text_eq entry.file_path path)) [
          | inl z ↦ inl (ground (arith, text_eq_iff n.id id))
          | inr z ↦ inr (ground arith)
        ]
      ]
]

-- How a target is resolved by one path after another: to a document at the first path that has one.
abbrev pub ResolvesAt : List Text → List Node → LinkResolutionResult → Type 0
ResolvesAt [] nodes result = result ≡ unresolved
ResolvesAt (path ∷ paths) nodes result =
    ((id : Text) × (any (is_document_with path id) nodes ≡ true) × (result ≡ resolved_to id))
    ⊎ ((any (is_document_at path) nodes ≡ false) × ResolvesAt paths nodes result)

-- The path without its ".md", or with one behind it if it has none.
abbrev pub IsOther : Text → Text → Type 0
IsOther path other =
    (path ≡ other ++ codes ".md")
    ⊎ (((p : Text) → path ≢ p ++ codes ".md") × (other ≡ path ++ codes ".md"))

nonempty-cases :
    (o : Option Text)
    → ((is_given o ≡ false) × (nonempty o ≡ none))
      ⊎ ((id : Text) × (o ≡ some id) × (nonempty o ≡ some id) × (is_given o ≡ true))
nonempty-cases none = inl (refl, refl)
nonempty-cases (some []) = inl (refl, refl)
nonempty-cases (some (c ∷ t)) = inr (c ∷ t, refl, refl, refl)

first_target-ResolvesAt :
    (paths : List Text) (nodes : List Node)
    → Identified nodes
    → ResolvesAt paths nodes (first_target (build_markdown_path_to_node_id_map nodes) paths)
unfolding first_target get_entry
first_target-ResolvesAt [] nodes h = refl
first_target-ResolvesAt (path ∷ paths) nodes h =
    let found = get_entry path (build_markdown_path_to_node_id_map nodes) in
    let known = get_entry-build path [] nodes h in
    let rest = first_target (build_markdown_path_to_node_id_map nodes) paths in
    elim (nonempty-cases found) [
      | inr (id, e, q, g) ↦ inl (
        id,
        elim (get_entry-document path id [] nodes e) [ inl d ↦ d | inr d ↦ cc ],
        ap (λ o. target_or o rest) q,
      )
      | inl (g, q) ↦ inr (
        ground (arith, known),
        rw (ap (λ o. target_or o rest) q) (first_target-ResolvesAt paths nodes h),
      )
    ]

drop_last_three-append :
    (t : Text) → ends_with (codes ".md") t ≡ true → t ≡ drop_last_three t ++ codes ".md"
unfolding ends_with drop_last_three text_eq
drop_last_three-append [] e = cc e
drop_last_three-append (a ∷ []) e = absurd (ground arith)
drop_last_three-append (a ∷ b ∷ []) e = absurd (ground arith)
drop_last_three-append (a ∷ b ∷ c ∷ []) e = ground arith
drop_last_three-append (a ∷ b ∷ c ∷ d ∷ t) e =
    ap (λ r. a ∷ r) (drop_last_three-append (b ∷ c ∷ d ∷ t) (ground arith))

ends_with-append : (p : Text) → ends_with (codes ".md") (p ++ codes ".md") ≡ true
unfolding ends_with text_eq
ends_with-append [] = refl
ends_with-append (c ∷ p) = ground (arith, ends_with-append p)

other_candidate-IsOther : (path : Text) → IsOther path (other_candidate path)
unfolding other_candidate
other_candidate-IsOther path = elim (Bool-cases (ends_with (codes ".md") path)) [
  | inl y ↦ rw y (inl (drop_last_three-append path y))
  | inr n ↦ rw n (inr (λ p e. cc (n, ap (ends_with (codes ".md")) e, ends_with-append p), refl))
]

-- A link of a document without an external address and without a node of its own, whose target
-- path is not empty, is resolved to the id of a Markdown file at that path, if there is one; else
-- to that of one at the other form of the path, which is the path without ".md" if it ends so and
-- the path with ".md" behind it if it does not; and it stays unresolved if there is neither. The
-- ids of the nodes are not empty.
pub resolve_internal_link_target-ResolvesAt :
    (link : LinkResolutionInput) (path : Text) (nodes : List Node)
    → Identified nodes
    → link.external_url ≡ none
    → link.to_node_id ≡ none
    → link.target_path ≡ some path
    → truthy path ≡ true
    → (other : Text) × IsOther path other
      × ResolvesAt
          (path ∷ other ∷ [])
          nodes
          (resolve_internal_link_target link (build_markdown_path_to_node_id_map nodes))
unfolding resolve_internal_link_target
resolve_internal_link_target-ResolvesAt link [] nodes h u i t p = cc
resolve_internal_link_target-ResolvesAt link (c ∷ path) nodes h u i t p = (
  other_candidate (c ∷ path),
  other_candidate-IsOther (c ∷ path),
  rw (resolve_internal_link_target, u, i, t)
      (first_target-ResolvesAt (target_path_candidates (c ∷ path)) nodes h),
)
