-- ===== src/FileManager/Keeps.antt =====
-- Actions of the file manager that leave the places of nodes as they are, and so keep the tree.
use evukb.Common.{
  ◌≡◌, refl, inl, inr, Bool, true, not, ◌&&◌, Bool-cases, Option, none, some, Result, ok, err,
  resume,
}
use evukb.Common.Text.{Text}
use evukb.Search.Filters.{pending}
use evukb.Common.Value.{Fields}
use evukb.Nodes.Rows.{Node, Table, NodeError, consistent, update_rows, update_where}
use evukb.Nodes.Repository.{is_node, get_by_id, update_content, update_index_status}
use evukb.FileManager.World.{
  World, Services, Context, Hook, Effect, Target, on_nodes, put_blob, record_audit,
}
use evukb.FileManager.Crud.{
  notify_unless_internal, apply_markdown_metadata, refresh_metadata, is_markdown, write_content,
  content_input, require_updated, new_metadata,
}
use evukb.FileManager.Tree.{place_of, places, IsTree, places-update_rows}

-- The nodes form a tree, and the constraints of the table hold.
abbrev pub IsSound : Table → Type 0
IsSound t = IsTree (places t) × (consistent t ≡ true)

abbrev pub HasTree : World → Type 0
HasTree w = IsSound w.nodes

-- Whether it returns or throws, the action leaves a tree if it finds one.
abbrev pub Keeps : {A : Type 0} → Effect A → Type 0
Keeps act = (w : World) → HasTree w → HasTree (act w).1

pub resume-HasTree :
    {A B : Type 0} (r : Result NodeError A × World) (k : A → Effect B)
    → HasTree r.1
    → ((a : A) → Keeps (k a))
    → HasTree (resume r k).1
resume-HasTree (err e, w) k h f = h
resume-HasTree (ok a, w) k h f = f a w h

pub record_audit-nodes :
    (workspace : Text) (context : Context) (target : Target) (w : World)
    → (record_audit workspace context target w).nodes ≡ w.nodes
unfolding record_audit
record_audit-nodes workspace context target w =
    elim (Bool-cases (context.audited && not context.internal)) [
      | inl y ↦ rw y refl
      | inr nn ↦ rw nn refl
    ]

-- An update that leaves the places of nodes as they are.
pub update_where-IsSound :
    (p : Node → Bool) (f : Node → Node) (t : Table)
    → ((n : Node) → place_of (f n) ≡ place_of n)
    → IsSound t
    → IsSound (update_where p f t).1
unfolding update_where
update_where-IsSound p f t h tree = elim (Bool-cases (consistent (update_rows p f t))) [
  | inl y ↦ rw y (rw (places-update_rows p f t h) tree.0, y)
  | inr nn ↦ rw nn tree
]

pub require_updated-Keeps :
    (missing : NodeError) (o : Option Node) → Keeps (require_updated missing o)
require_updated-Keeps missing none w tree = tree
require_updated-Keeps missing (some n) w tree = tree

module _ (services : Services) (workspace corpus : Text) where
  -- The hooks leave the table of nodes as it is.
  abbrev pub IsQuiet : Type 0
  IsQuiet =
      (hook : Hook) (w : World) → (services.run_hook workspace corpus hook w).1.nodes ≡ w.nodes

  pub run_hook-Keeps : IsQuiet → (hook : Hook) → Keeps (services.run_hook workspace corpus hook)
  run_hook-Keeps quiet hook w tree = rw (quiet hook w) tree

  pub notify-Keeps :
      IsQuiet
      → (context : Context) (hook : Hook)
      → Keeps (notify_unless_internal services workspace corpus context hook)
  notify-Keeps quiet context hook w tree = elim (Bool-cases context.internal) [
    | inl y ↦ rw y tree
    | inr nn ↦ rw nn (run_hook-Keeps quiet hook w tree)
  ]

  refresh_metadata-Keeps :
      (id : Text) (settings : Fields) (content : Text) (o : Option Node)
      → Keeps (refresh_metadata services workspace corpus id settings content o)
  unfolding refresh_metadata update_index_status
  refresh_metadata-Keeps id settings content none w tree = tree
  refresh_metadata-Keeps id settings content (some n) w tree = elim (Bool-cases (is_markdown n)) [
    | inl y ↦ rw y (
        resume-HasTree
          (on_nodes
            (update_index_status workspace corpus id pending
              (some (new_metadata services workspace corpus settings content n)) none)
            w)
          _ (update_where-IsSound (is_node workspace corpus id) _ w.nodes (λ m. refl) tree)
          (λ row w' tree'. tree'))
    | inr nn ↦ rw nn tree
  ]

  pub apply_markdown_metadata-Keeps :
      (id : Text) (settings : Fields) (content : Text)
      → Keeps (apply_markdown_metadata services workspace corpus id settings content)
  unfolding apply_markdown_metadata
  apply_markdown_metadata-Keeps id settings content w tree =
      refresh_metadata-Keeps id settings content (get_by_id workspace corpus id w.nodes) w tree

  pub write_content-Keeps :
      (id rel_path content : Text) (mime_type : Option Text) (missing : NodeError)
      → Keeps (write_content services workspace corpus id rel_path content mime_type missing)
  unfolding write_content update_content put_blob
  write_content-Keeps id rel_path content mime_type missing w tree =
      resume-HasTree
        (on_nodes
          (update_content workspace corpus id
            (content_input services workspace corpus content rel_path mime_type))
          (put_blob workspace corpus rel_path content w))
        (require_updated missing)
        (update_where-IsSound (is_node workspace corpus id) _ w.nodes (λ m. refl) tree)
        (require_updated-Keeps missing)
