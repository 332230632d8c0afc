-- ===== src/Links/Tests.antt =====
-- A folder of documents, and the theorem about links on it.
use evukb.Common.{List, [], ◌∷◌, refl, none, some}
use evukb.Common.Text.{Text, codes}
use evukb.Common.Value.{object, end}
use evukb.Search.Filters.{managed, pending}
use evukb.Nodes.Rows.{Node, file}
use evukb.Links.{
  LinkResolutionInput, build_markdown_path_to_node_id_map, resolve_internal_link_target,
}
use evukb.Links.Laws.{IsOther, ResolvesAt, resolve_internal_link_target-ResolvesAt}

abbrev document : Text → Text → Text → Node
document id path name = record {
  id = id;
  workspace_id = codes "w";
  corpus_id = codes "c";
  parent_id = none;
  path = path;
  name = name;
  node_type = file;
  storage_rel_path = none;
  source_type = managed;
  source_ref = none;
  content_hash = none;
  mime_type = none;
  size_bytes = 0;
  index_status = pending;
  metadata = object end;
  indexed_at = none;
}

abbrev documents : List Node
documents =
    document (codes "1") [] (codes "index.md")
    ∷ document (codes "2") (codes "docs") (codes "a.md")
    ∷ []

abbrev link : LinkResolutionInput
link = record { target_path = some (codes "docs/a"); external_url = none; to_node_id = none }

resolve_internal_link_target-ResolvesAt_example :
    (other : Text) × IsOther (codes "docs/a") other
    × ResolvesAt
        (codes "docs/a" ∷ other ∷ [])
        documents
        (resolve_internal_link_target link (build_markdown_path_to_node_id_map documents))
resolve_internal_link_target-ResolvesAt_example =
    resolve_internal_link_target-ResolvesAt link (codes "docs/a") documents (refl, (refl, tt)) refl
      refl refl refl
