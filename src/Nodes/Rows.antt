-- ===== src/Nodes/Rows.antt =====
-- The table `knowledge_nodes` of packages/kb-db/src/schema/knowledge.ts, a list of rows in the
-- order of insertion, and the statements that the repository runs on it. A statement that would
-- break the primary key or the unique index on files throws and leaves the table as it was. The
-- columns `created_at` and `updated_at` are not modelled.
use evukb.Common.{
  ℕ, List, [], ◌∷◌, ◌++◌, Bool, true, false, not, ◌&&◌, ◌||◌, if◌then◌else◌, any, find, Option,
  none, some, Result, ok, err,
}
use evukb.Common.Text.{Text, text_eq}
use evukb.Common.Value.{Value}
use evukb.Search.Filters.{NodeSourceType, IndexStatus}

pub data NodeType : Type 0 where
  folder file : NodeType

abbrev pub is_file : NodeType → Bool
is_file folder = false
is_file file = true

pub record Node : Type 0 where
  pub id : Text
  pub workspace_id : Text
  pub corpus_id : Text
  pub parent_id : Option Text
  pub path : Text
  pub name : Text
  pub node_type : NodeType
  pub storage_rel_path : Option Text
  pub source_type : NodeSourceType
  pub source_ref : Option Text
  pub content_hash : Option Text
  pub mime_type : Option Text
  pub size_bytes : ℕ
  pub index_status : IndexStatus
  pub metadata : Value
  pub indexed_at : Option Text

abbrev pub Table : Type 0
Table = List Node

-- What the repository and the services on it throw.
pub data NodeError : Type 0 where
  constraint_violation no_row_returned : NodeError
  corpus_not_found node_not_found conflict validation forbidden internal_error blob_not_found :
      NodeError

-- A statement or a method: what it returns or throws, and the table that it leaves.
abbrev pub Query : Type 0 → Type 0
Query A = Table → Result NodeError A × Table

-- Two rows that the primary key or the unique index on (corpus_id, path, name) of files excludes.
unfoldable pub clashes : Node → Node → Bool
unfolding text_eq
clashes a b =
    text_eq a.id b.id
    || (is_file a.node_type
        && is_file b.node_type
        && text_eq a.corpus_id b.corpus_id
        && text_eq a.path b.path
        && text_eq a.name b.name)

unfoldable pub consistent : Table → Bool
unfolding clashes
consistent [] = true
consistent (n ∷ t) = not (any (clashes n) t) && consistent t

abbrev pub update_rows : (Node → Bool) → (Node → Node) → Table → Table
update_rows p f [] = []
update_rows p f (n ∷ t) = (if p n then f n else n) ∷ update_rows p f t

abbrev pub returned : Option Node → (Node → Node) → Option Node
returned none f = none
returned (some n) f = some (f n)

-- INSERT … RETURNING
unfoldable pub insert_row : Node → Query Node
unfolding consistent
insert_row n t =
    let t' = t ++ n ∷ [] in if consistent t' then (ok n, t') else (err constraint_violation, t)

-- UPDATE … WHERE … RETURNING, with the first row that it returns
unfoldable pub update_where : (Node → Bool) → (Node → Node) → Query (Option Node)
unfolding consistent
update_where p f t =
    let t' = update_rows p f t in
    if consistent t' then (ok (returned (find p t) f), t') else (err constraint_violation, t)
