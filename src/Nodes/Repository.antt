-- ===== src/Nodes/Repository.antt =====
-- The methods of `NodeRepository`, packages/kb-db/src/repositories/node-repository.ts. A column
-- that an input leaves out is `none`. The id that the database generates is the parameter
-- `next_id`, a function of the table.
use evukb.Common.{
  ℕ, suc, List, [], ◌∷◌, ◌++◌, Bool, true, false, ◌&&◌, ◌||◌, ◌==◌, if◌then◌else◌, any, filter,
  remove, find, drop, length, Option, none, some, ok, resume,
}
use evukb.Common.Text.{Text, codes, text_eq, starts_with, truthy}
use evukb.Common.Value.{Value, object, end}
use evukb.Storage.Posix.{slash}
use evukb.Search.Filters.{
  NodeSourceType, managed, shared_mount, git, reference, import, IndexStatus, pending,
}
use evukb.Nodes.Rows.{NodeType, is_file, Node, Table, Query, insert_row, update_where}

abbrev pub in_corpus : Text → Text → Node → Bool
in_corpus workspace corpus n = text_eq n.workspace_id workspace && text_eq n.corpus_id corpus

abbrev pub is_node : Text → Text → Text → Node → Bool
is_node workspace corpus id n = in_corpus workspace corpus n && text_eq n.id id

-- column = value, which no NULL fulfils
abbrev pub is_some_text : Text → Option Text → Bool
is_some_text s none = false
is_some_text s (some t) = text_eq t s

abbrev pub source_type_eq : NodeSourceType → NodeSourceType → Bool
source_type_eq managed managed = true
source_type_eq shared_mount shared_mount = true
source_type_eq git git = true
source_type_eq reference reference = true
source_type_eq import import = true
source_type_eq _ _ = false

unfoldable pub list_by_corpus : Text → Text → Table → List Node
list_by_corpus workspace corpus t = filter (in_corpus workspace corpus) t

unfoldable pub get_by_id : Text → Text → Text → Table → Option Node
get_by_id workspace corpus id t = find (is_node workspace corpus id) t

unfoldable pub get_by_id_in : Text → Text → Table → Option Node
get_by_id_in workspace id t = find (λ n. text_eq n.workspace_id workspace && text_eq n.id id) t

unfoldable pub list_by_ids : Text → Text → List Text → Table → List Node
list_by_ids workspace corpus [] t = []
list_by_ids workspace corpus (i ∷ ids) t =
    filter (λ n. in_corpus workspace corpus n && any (text_eq n.id) (i ∷ ids)) t

abbrev pub is_at : Text → Text → Text → Text → Node → Bool
is_at workspace corpus path name n =
    in_corpus workspace corpus n && text_eq n.path path && text_eq n.name name

unfoldable pub get_by_path_and_name : Text → Text → Text → Text → Table → Option Node
get_by_path_and_name workspace corpus path name t = find (is_at workspace corpus path name) t

-- node.path === oldPrefix || node.path.startsWith(`${oldPrefix}/`)
abbrev pub is_under : Text → Text → Bool
is_under prefix path = text_eq path prefix || starts_with (prefix ++ slash ∷ []) path

unfoldable pub next_path : Text → Text → Text → Text
next_path old_prefix new_prefix path =
    let suffix = if text_eq path old_prefix then [] else drop (suc (length old_prefix)) path in
    if truthy new_prefix
    then if truthy suffix then new_prefix ++ slash ∷ suffix else new_prefix
    else suffix

abbrev pub with_path : Text → Node → Node
with_path path n = record n { path = path }

-- The loop over the rows that were read before it.
unfoldable pub update_paths : Text → Text → Text → Text → List Node → Query (Unit {0})
unfolding update_where next_path
update_paths workspace corpus old_prefix new_prefix [] t = (ok tt, t)
update_paths workspace corpus old_prefix new_prefix (n ∷ ns) t =
    let rest = update_paths workspace corpus old_prefix new_prefix ns in
    let moved =
      update_where (is_node workspace corpus n.id)
        (with_path (next_path old_prefix new_prefix n.path)) t in
    if is_under old_prefix n.path then resume moved (λ _ t'. rest t') else rest t

unfoldable pub update_paths_for_prefix : Text → Text → Text → Text → Query (Unit {0})
unfolding update_paths list_by_corpus
update_paths_for_prefix workspace corpus old_prefix new_prefix t =
    update_paths workspace corpus old_prefix new_prefix (list_by_corpus workspace corpus t) t

abbrev pub is_source : Text → Text → NodeSourceType → Text → Node → Bool
is_source workspace corpus source_type source_ref n =
    in_corpus workspace corpus n
    && source_type_eq n.source_type source_type
    && is_some_text source_ref n.source_ref

unfoldable pub get_by_source_ref : Text → Text → NodeSourceType → Text → Table → Option Node
get_by_source_ref workspace corpus source_type source_ref t =
    find (is_source workspace corpus source_type source_ref) t

abbrev pub is_synced : Option NodeSourceType → NodeSourceType → Bool
is_synced (some given) source_type = source_type_eq source_type given
is_synced none shared_mount = true
is_synced none git = true
is_synced none reference = true
is_synced none _ = false

unfoldable pub list_synced_by_corpus : Text → Text → Option NodeSourceType → Table → List Node
list_synced_by_corpus workspace corpus given t =
    filter
      (λ n. in_corpus workspace corpus n && is_file n.node_type && is_synced given n.source_type) t

abbrev pub is_hash : Text → Node → Bool
is_hash hash n = is_some_text hash n.content_hash

pub record CreateNodeInput : Type 0 where
  pub parent_id : Option Text
  pub path : Text
  pub name : Text
  pub node_type : NodeType
  pub storage_rel_path : Option Text
  pub source_type : Option NodeSourceType
  pub source_ref : Option Text
  pub mime_type : Option Text
  pub content_hash : Option Text
  pub size_bytes : Option ℕ
  pub index_status : Option IndexStatus

-- value ?? fallback
abbrev pub or_else {ℓ} : {A : Type ℓ} → Option A → A → A
or_else none fallback = fallback
or_else (some a) fallback = a

abbrev pub no_metadata : Value
no_metadata = object end

abbrev pub new_row : Text → Text → Text → CreateNodeInput → Node
new_row id workspace corpus input = record {
  id = id;
  workspace_id = workspace;
  corpus_id = corpus;
  parent_id = input.parent_id;
  path = input.path;
  name = input.name;
  node_type = input.node_type;
  storage_rel_path = input.storage_rel_path;
  source_type = or_else input.source_type managed;
  source_ref = input.source_ref;
  content_hash = input.content_hash;
  mime_type = input.mime_type;
  size_bytes = or_else input.size_bytes 0;
  index_status = or_else input.index_status pending;
  metadata = no_metadata;
  indexed_at = none;
}

unfoldable pub create : (Table → Text) → Text → Text → CreateNodeInput → Query Node
unfolding insert_row
create next_id workspace corpus input t = insert_row (new_row (next_id t) workspace corpus input) t

pub record ContentInput : Type 0 where
  pub content_hash : Text
  pub mime_type : Option Text
  pub size_bytes : ℕ
  pub storage_rel_path : Text

abbrev pub with_content : ContentInput → Node → Node
with_content input n = record n {
  content_hash = some input.content_hash;
  mime_type = input.mime_type;
  size_bytes = input.size_bytes;
  storage_rel_path = some input.storage_rel_path;
  index_status = pending;
}

unfoldable pub update_content : Text → Text → Text → ContentInput → Query (Option Node)
unfolding update_where
update_content workspace corpus id input =
    update_where (is_node workspace corpus id) (with_content input)

unfoldable pub rename : Text → Text → Text → Text → Text → Query (Option Node)
unfolding update_where
rename workspace corpus id name path =
    update_where (is_node workspace corpus id) (λ n. record n { name = name; path = path })

unfoldable pub move : Text → Text → Text → Option Text → Text → Query (Option Node)
unfolding update_where
move workspace corpus id parent_id path =
    update_where (is_node workspace corpus id)
      (λ n. record n { parent_id = parent_id; path = path })

abbrev pub is_one_of : Text → Text → List Text → Node → Bool
is_one_of workspace corpus ids n = in_corpus workspace corpus n && any (text_eq n.id) ids

-- The number of rows deleted, and the table without them.
unfoldable pub delete_many : Text → Text → List Text → Table → ℕ × Table
delete_many workspace corpus [] t = (0, t)
delete_many workspace corpus (i ∷ ids) t = (
  length (filter (is_one_of workspace corpus (i ∷ ids)) t),
  remove (is_one_of workspace corpus (i ∷ ids)) t,
)

abbrev pub metadata_of : Option Node → Value
metadata_of none = no_metadata
metadata_of (some n) = n.metadata

unfoldable pub update_index_status :
    Text → Text → Text → IndexStatus → Option Value → Option Text → Query (Option Node)
unfolding update_where get_by_id
update_index_status workspace corpus id status metadata indexed_at t =
    let kept = or_else metadata (metadata_of (get_by_id workspace corpus id t)) in
    update_where (is_node workspace corpus id)
      (λ n. record n { index_status = status; metadata = kept; indexed_at = indexed_at }) t

-- name.toLowerCase().endsWith('.md'), and ILIKE '%.md'
abbrev pub is_md : Text → Bool
is_md (a ∷ b ∷ c ∷ []) = a == b'.' && (b == b'm' || b == b'M') && (c == b'd' || c == b'D')
is_md _ = false

unfoldable pub ends_with_md : Text → Bool
ends_with_md [] = false
ends_with_md (c ∷ t) = is_md (c ∷ t) || ends_with_md t

unfoldable pub list_indexable_files : Text → Text → Table → List Node
unfolding ends_with_md
list_indexable_files workspace corpus t =
    filter
      (λ n.
        in_corpus workspace corpus n
        && is_file n.node_type
        && (ends_with_md n.name
            || is_some_text (codes "text/markdown") n.mime_type
            || is_some_text (codes "text/x-markdown") n.mime_type))
      t
