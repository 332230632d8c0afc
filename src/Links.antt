-- ===== src/Links.antt =====
-- packages/kb-core/src/links/resolve.ts: the node that a link of a document leads to. A map from
-- file paths to ids is the list of its entries, the newest first.
mod Tests
pub mod Laws
use evukb.Common.{
  ℕ, List, [], ◌∷◌, ◌++◌, Bool, true, false, ◌&&◌, ◌||◌, if◌then◌else◌, Option, none, some,
}
use evukb.Common.Text.{Text, codes, text_eq, ends_with, truthy}
use evukb.Storage.Posix.{slash}
use evukb.Nodes.Rows.{Node, is_file}
use evukb.Nodes.Repository.{is_some_text, ends_with_md}

pub record LinkResolutionInput : Type 0 where
  pub target_path : Option Text
  pub external_url : Option Text
  pub to_node_id : Option Text

pub record LinkResolutionResult : Type 0 where
  pub to_node_id : Option Text
  pub resolved : Bool

unfoldable pub build_file_path : Text → Text → Text
build_file_path path name = if truthy path then path ++ slash ∷ name else name

unfoldable pub is_markdown_node : Node → Bool
unfolding ends_with_md
is_markdown_node n =
    is_file n.node_type
    && (ends_with_md n.name
        || is_some_text (codes "text/markdown") n.mime_type
        || is_some_text (codes "text/x-markdown") n.mime_type)

pub record Entry : Type 0 where
  pub file_path : Text
  pub id : Text

unfoldable pub build_map_from : List Entry → List Node → List Entry
unfolding is_markdown_node build_file_path
build_map_from map [] = map
build_map_from map (n ∷ ns) =
    let entry : Entry = record { file_path = build_file_path n.path n.name; id = n.id } in
    build_map_from (if is_markdown_node n then entry ∷ map else map) ns

abbrev pub build_markdown_path_to_node_id_map : List Node → List Entry
build_markdown_path_to_node_id_map nodes = build_map_from [] nodes

unfoldable pub get_entry : Text → List Entry → Option Text
unfolding text_eq
get_entry path [] = none
get_entry path (e ∷ map) =
    let rest = get_entry path map in if text_eq e.file_path path then some e.id else rest

-- text.slice(0, -3), of a text of at least three characters
unfoldable pub drop_last_three : Text → Text
drop_last_three (a ∷ b ∷ c ∷ []) = []
drop_last_three (a ∷ b ∷ c ∷ d ∷ t) = a ∷ drop_last_three (b ∷ c ∷ d ∷ t)
drop_last_three _ = []

-- The second candidate of `targetPathCandidates`; the first is the path itself.
unfoldable pub other_candidate : Text → Text
unfolding ends_with drop_last_three
other_candidate path =
    if ends_with (codes ".md") path then drop_last_three path else path ++ codes ".md"

abbrev pub target_path_candidates : Text → List Text
target_path_candidates path = path ∷ other_candidate path ∷ []

abbrev pub is_internal_link : LinkResolutionInput → Bool
is_internal_link link = elim link.external_url [ none ↦ true | some url ↦ false ]

abbrev pub unresolved : LinkResolutionResult
unresolved = record { to_node_id = none; resolved = false }

abbrev pub resolved_to : Text → LinkResolutionResult
resolved_to id = record { to_node_id = some id; resolved = true }

-- A text, if it is there and not empty.
abbrev pub nonempty : Option Text → Option Text
nonempty none = none
nonempty (some []) = none
nonempty (some (c ∷ t)) = some (c ∷ t)

abbrev pub target_or : Option Text → LinkResolutionResult → LinkResolutionResult
target_or none rest = rest
target_or (some id) rest = resolved_to id

-- The loop over the candidates.
unfoldable pub first_target : List Entry → List Text → LinkResolutionResult
unfolding get_entry
first_target map [] = unresolved
first_target map (path ∷ paths) = target_or (nonempty (get_entry path map)) (first_target map paths)

unfoldable pub resolve_internal_link_target :
    LinkResolutionInput → List Entry → LinkResolutionResult
unfolding first_target other_candidate
resolve_internal_link_target link map =
    let by_path : LinkResolutionResult = elim (nonempty link.target_path) [
      | none ↦ unresolved
      | some path ↦ first_target map (target_path_candidates path)
    ] in
    let internal : LinkResolutionResult = elim (nonempty link.to_node_id) [
      | some id ↦ resolved_to id
      | none ↦ by_path
    ] in
    elim link.external_url [ some url ↦ unresolved | none ↦ internal ]
