-- ===== src/FileManager/Upkeep.antt =====
-- Saving, appending and deleting keep the tree of nodes.
use evukb.Common.{
  List, [], ◌∷◌, ◌≡◌, refl, sym, ◌∙◌, inl, inr, Bool, true, false, Bool-cases, Option, none, some,
  Result, ok, err, >>=-ok, resume, arith, if◌then◌else◌, remove,
}
use evukb.Common.Text.{Text}
use evukb.Common.Value.{Fields}
use evukb.Nodes.Rows.{Node, is_file, Table, NodeError, node_not_found}
use evukb.Nodes.Repository.{list_by_corpus, delete_many, or_else, is_one_of}
use evukb.FileManager.World.{
  World, save_file, Context, Hook, writeback, delete_writeback, okf_deleted, okf_updated,
  content_changed, Effect, Services, record_audit, managed_blob_rel_path, delete_blob, given,
}
use evukb.FileManager.Guards.{require_corpus}
use evukb.FileManager.Crud.{
  savable, save_content_at, save_content, append_content, read_content, write_content,
  apply_markdown_metadata, notify_concept, full_path, or_kept,
}
use evukb.FileManager.Changes.{
  Deletion, to_delete, chosen, files, concepts, run_hooks, delete_blob_at, delete_blobs,
  all_editable, deletable, delete_nodes_now, delete_nodes_of,
}
use evukb.FileManager.Keeps.{
  IsSound, HasTree, Keeps, resume-HasTree, record_audit-nodes, IsQuiet, run_hook-Keeps,
  notify-Keeps, apply_markdown_metadata-Keeps, write_content-Keeps,
}
use evukb.FileManager.Creation.{checked-HasTree}
use evukb.FileManager.Closure.{rows}
use evukb.FileManager.Removal.{is_gone, consistent-remove, remove-IsTree}

-- A part that leaves the nodes as they are, before the rest of an action.
resume_same :
    {A B : Type 0} (t : Table) (r : Result NodeError A × World) (k : A → Effect B)
    → r.1.nodes ≡ t
    → IsSound t
    → ((a : A) (w : World) → w.nodes ≡ t → HasTree (k a w).1)
    → HasTree (resume r k).1
resume_same t (err e, w) k h s f = rw h s
resume_same t (ok a, w) k h s f = f a w h

remove_none : (workspace corpus : Text) (t : Table) → remove (is_one_of workspace corpus []) t ≡ t
remove_none workspace corpus [] = refl
remove_none workspace corpus (n ∷ t) = ground (arith, remove_none workspace corpus t)

pub delete_many-remove :
    (workspace corpus : Text) (ids : List Text) (t : Table)
    → (delete_many workspace corpus ids t).1 ≡ remove (is_one_of workspace corpus ids) t
unfolding delete_many
delete_many-remove workspace corpus [] t = sym (remove_none workspace corpus t)
delete_many-remove workspace corpus (i ∷ ids) t = refl

module _ (services : Services) (workspace corpus : Text)
    (quiet : IsQuiet services workspace corpus) where
  pub run_hooks-nodes :
      (hook : Node → Hook) (ns : List Node) (w : World)
      → (run_hooks services workspace corpus hook ns w).1.nodes ≡ w.nodes
  unfolding run_hooks
  run_hooks-nodes hook [] w = refl
  run_hooks-nodes hook (n ∷ ns) w =
      go (services.run_hook workspace corpus (hook n) w) (quiet (hook n) w)
        (λ w'. run_hooks-nodes hook ns w')
    where
      go :
          (r : Result NodeError (Unit {0}) × World)
          → r.1.nodes ≡ w.nodes
          → ((w' : World) → (run_hooks services workspace corpus hook ns w').1.nodes ≡ w'.nodes)
          → (resume r (λ _ w'. run_hooks services workspace corpus hook ns w')).1.nodes ≡ w.nodes
      go (err e, w') h ih = h
      go (ok a, w') h ih = ih w' ∙ h

  delete_blob_at-nodes :
      (o : Option Text) (w : World) → (delete_blob_at services workspace corpus o w).nodes ≡ w.nodes
  unfolding delete_blob
  delete_blob_at-nodes none w = refl
  delete_blob_at-nodes (some rel_path) w = refl

  pub delete_blobs-nodes :
      (ns : List Node) (w : World) → (delete_blobs services workspace corpus ns w).nodes ≡ w.nodes
  unfolding delete_blobs
  delete_blobs-nodes [] w = refl
  delete_blobs-nodes (n ∷ ns) w =
      let here = delete_blob_at services workspace corpus (given n.storage_rel_path) w in
      delete_blobs-nodes ns (if is_file n.node_type then here else w) ∙ either (is_file n.node_type)
    where
      either :
          (b : Bool)
          → let w' : World =
              if b
              then delete_blob_at services workspace corpus (given n.storage_rel_path) w
              else w in
            w'.nodes ≡ w.nodes
      either true = delete_blob_at-nodes (given n.storage_rel_path) w
      either false = refl

  pub notify_concept-Keeps :
      (context : Context) (n : Node) (hook : Hook)
      → Keeps (notify_concept services workspace corpus context n hook)
  notify_concept-Keeps context n hook w tree = elim (Bool-cases (services.is_okf_concept n.name)) [
    | inl y ↦ rw y (notify-Keeps services workspace corpus quiet context hook w tree)
    | inr nn ↦ rw nn tree
  ]

  delete_many-IsSound :
      (ids : List Text) (t : Table)
      → IsSound t
      → IsSound (delete_many workspace corpus (to_delete (rows workspace corpus t) ids) t).1
  delete_many-IsSound ids t (tree, whole) =
      rw (delete_many-remove workspace corpus (to_delete (rows workspace corpus t) ids) t) (
        remove-IsTree workspace corpus ids t whole tree,
        consistent-remove (is_gone workspace corpus ids t) t whole,
      )

  deletable-ids :
      (ids : List Text) (context : Context) (w : World) (d : Deletion)
      → deletable services workspace corpus ids context w ≡ ok d
      → d.ids ≡ to_delete (rows workspace corpus w.nodes) ids
  unfolding deletable list_by_corpus
  deletable-ids ids context w d e =
      let (settings, _, e1) = >>=-ok (require_corpus services workspace corpus) _ e in
      let nodes = rows workspace corpus w.nodes in
      let (u, _, e2) =
        >>=-ok
          (if context.internal
            then ok tt
            else all_editable services workspace corpus (chosen (to_delete nodes ids) nodes))
          _ e1 in
      ground arith

  pub delete_nodes-Keeps :
      (ids : List Text) (context : Context)
      → Keeps (delete_nodes_of services workspace corpus ids context)
  unfolding delete_nodes_of delete_nodes_now
  delete_nodes-Keeps ids context w sound =
      checked-HasTree services workspace corpus (deletable services workspace corpus ids context w)
        (delete_nodes_now services workspace corpus context ids) w sound
        (λ d e.
          resume_same w.nodes
            (if context.internal
              then (ok tt, w)
              else run_hooks services workspace corpus (λ n. okf_deleted (full_path n))
                  (concepts services workspace corpus d.gone) w)
            _
            (elim (Bool-cases context.internal) [
              | inl y ↦ rw y refl
              | inr nn ↦ rw nn (run_hooks-nodes _ (concepts services workspace corpus d.gone) w)
            ])
            sound
            (λ _ w1 h1.
              resume_same w.nodes
                (run_hooks services workspace corpus delete_writeback (files d.gone) w1) _
                (run_hooks-nodes delete_writeback (files d.gone) w1 ∙ h1) sound
                (λ _ w2 h2.
                  rw
                    (
                      record_audit-nodes,
                      delete_blobs-nodes d.gone w2 ∙ h2,
                      deletable-ids ids context w d e,
                    )
                    (delete_many-IsSound ids w.nodes sound))))

  save_content_at-Keeps :
      (content : Text) (mime_type : Option Text) (context : Context) (settings : Fields) (n : Node)
      → Keeps (save_content_at services workspace corpus content mime_type context settings n)
  unfolding save_content_at
  save_content_at-Keeps content mime_type context settings n w sound =
      let rel_path = or_else n.storage_rel_path (managed_blob_rel_path n.id) in
      let kept = or_kept services workspace corpus mime_type n.mime_type in
      resume-HasTree
        (write_content services workspace corpus n.id rel_path content kept node_not_found w) _
        (write_content-Keeps services workspace corpus n.id rel_path content kept node_not_found w
          sound)
        (λ saved w1 t1.
          resume-HasTree (services.run_hook workspace corpus (writeback saved content) w1) _
            (run_hook-Keeps services workspace corpus quiet (writeback saved content) w1 t1)
            (λ _ w2 t2.
              resume-HasTree
                (apply_markdown_metadata services workspace corpus n.id settings content w2) _
                (apply_markdown_metadata-Keeps services workspace corpus n.id settings content w2
                  t2)
                (λ _ w3 t3.
                  resume-HasTree
                    (notify_concept services workspace corpus context saved
                      (okf_updated (full_path saved) (services.decode_utf8 content)) w3)
                    _ (notify_concept-Keeps context saved _ w3 t3)
                    (λ _ w4 t4.
                      resume-HasTree
                        (services.run_hook workspace corpus (content_changed n.id) (
                          record_audit workspace context (save_file corpus n.id (full_path saved))
                            w4))
                        _
                        (run_hook-Keeps services workspace corpus quiet (content_changed n.id) _ (
                          rw
                            (record_audit-nodes workspace context
                              (save_file corpus n.id (full_path saved)) w4)
                            t4))
                        (λ _ w5 t5. t5)))))

  pub save_content-Keeps :
      (id content : Text) (mime_type : Option Text) (context : Context)
      → Keeps (save_content services workspace corpus id content mime_type context)
  unfolding save_content
  save_content-Keeps id content mime_type context w sound =
      checked-HasTree services workspace corpus (require_corpus services workspace corpus) _ w sound
        (λ settings _.
          checked-HasTree services workspace corpus
            (savable services workspace corpus id content context w) _ w sound
            (λ n _. save_content_at-Keeps content mime_type context settings n w sound))

  pub append_content-Keeps :
      (id body : Text) (mime_type : Option Text) (context : Context)
      → Keeps (append_content services workspace corpus id body mime_type context)
  unfolding append_content
  append_content-Keeps id body mime_type context w sound =
      checked-HasTree services workspace corpus (read_content services workspace corpus id w) _ w
        sound (λ found _. save_content-Keeps id _ mime_type context w sound)
