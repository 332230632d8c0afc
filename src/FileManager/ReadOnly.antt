-- ===== src/FileManager/ReadOnly.antt =====
-- What a user's deletion cannot remove: nodes that are read-only for the corpus.
use evukb.Common.{
  List, [], ◌∷◌, ◌≡◌, refl, sym, ap, ◌∙◌, inl, inr, Bool, true, false, not, ◌&&◌, Bool-cases, some,
  Result, ok, err, >>=-ok, resume, arith, if◌then◌else◌, remove, filter, any, All,
}
use evukb.Common.Text.{Text, text_eq}
use evukb.Common.Value.{Fields}
use evukb.Nodes.Rows.{Node, Table, NodeError, forbidden}
use evukb.Nodes.Repository.{in_corpus, list_by_corpus, is_one_of}
use evukb.Sync.Mutability.{resolve_node_mutability, is_editable, is_corpus_git_writeback_active}
use evukb.FileManager.World.{World, Context, delete_writeback, okf_deleted, Effect, Services}
use evukb.FileManager.Guards.{guard, require_corpus, assert_editable}
use evukb.FileManager.Crud.{checked, full_path}
use evukb.FileManager.Changes.{
  Deletion, to_delete, chosen, files, concepts, run_hooks, all_editable, deletable,
  delete_nodes_now, delete_nodes_of,
}
use evukb.FileManager.Keeps.{IsQuiet, record_audit-nodes}
use evukb.FileManager.Upkeep.{run_hooks-nodes, delete_blobs-nodes, delete_many-remove}

-- A node of the corpus that may not be edited under the settings of the corpus.
abbrev pub is_read_only : Services → Text → Text → Fields → Node → Bool
is_read_only services workspace corpus settings n =
    let active = is_corpus_git_writeback_active settings services.git_writeback_variable in
    in_corpus workspace corpus n
    && not (is_editable (resolve_node_mutability n.source_type n.node_type active))

guard-ok : (b : Bool) (e : NodeError) → guard b e ≡ ok tt → b ≡ true
guard-ok true e h = refl
guard-ok false e h = cc

filter-remove :
    (q p : Node → Bool) (t : Table)
    → All (λ n. p n ≡ true → q n ≡ false) t
    → filter q (remove p t) ≡ filter q t
filter-remove q p [] h = refl
filter-remove q p (n ∷ t) (x, h) = elim (Bool-cases (p n)) [
  | inl y ↦ ground (arith, x y, filter-remove q p t h)
  | inr nn ↦ ground (arith, filter-remove q p t h)
]

module _ (services : Services) (workspace corpus : Text) (settings : Fields)
    (known : services.settings_of workspace corpus ≡ some settings) where
  abbrev read_only : Node → Bool
  read_only n = is_read_only services workspace corpus settings n

  assert_editable-ok :
      (n : Node) → assert_editable services workspace corpus n ≡ ok tt → read_only n ≡ false
  unfolding assert_editable
  assert_editable-ok n e =
      let active = is_corpus_git_writeback_active settings services.git_writeback_variable in
      let (s, x, e1) = >>=-ok (require_corpus services workspace corpus) _ e in
      let same : s ≡ settings = ground (arith, known) in
      let editable =
        guard-ok (is_editable (resolve_node_mutability n.source_type n.node_type active)) forbidden
          (rw (sym same) e1) in
      ground arith

  all_editable-ok :
      (ns : List Node)
      → all_editable services workspace corpus ns ≡ ok tt
      → All (λ n. read_only n ≡ false) ns
  unfolding all_editable
  all_editable-ok [] e = tt
  all_editable-ok (n ∷ ns) e =
      let (u, x, e1) = >>=-ok (assert_editable services workspace corpus n) _ e in
      (assert_editable-ok n x, all_editable-ok ns e1)

  -- Nothing among the rows of the corpus with the ids is read-only.
  chosen-editable :
      (ids : List Text) (t : Table)
      → All (λ n. read_only n ≡ false) (chosen ids (list_by_corpus workspace corpus t))
      → All (λ n. is_one_of workspace corpus ids n ≡ true → read_only n ≡ false) t
  unfolding list_by_corpus
  chosen-editable ids [] h = tt
  chosen-editable ids (n ∷ t) h = elim (Bool-cases (in_corpus workspace corpus n)) [
    | inr nn ↦ ((λ k. ground arith), chosen-editable ids t (rw nn at h))
    | inl y ↦ elim (Bool-cases (any (text_eq n.id) ids)) [
      | inl z ↦ let k = rw (y, z) at h in ((λ _. k.0), chosen-editable ids t k.1)
      | inr z ↦ let k = rw (y, z) at h in ((λ e. ground arith), chosen-editable ids t k)
    ]
  ]

  deletable-editable :
      (ids : List Text) (context : Context) (w : World) (d : Deletion)
      → context.internal ≡ false
      → deletable services workspace corpus ids context w ≡ ok d
      → All (λ n. is_one_of workspace corpus d.ids n ≡ true → read_only n ≡ false) w.nodes
  unfolding deletable
  deletable-editable ids context w d external e =
      let (s, _, e1) = >>=-ok (require_corpus services workspace corpus) _ e in
      let nodes = list_by_corpus workspace corpus w.nodes in
      let all_ids = to_delete nodes ids in
      let (u, x, e2) =
        >>=-ok
          (if context.internal
            then ok tt
            else all_editable services workspace corpus (chosen all_ids nodes))
          _ e1 in
      let same : all_ids ≡ d.ids = ground arith in
      let editable : all_editable services workspace corpus (chosen all_ids nodes) ≡ ok tt =
        rw external at x in
      rw (sym same)
        (chosen-editable all_ids w.nodes (all_editable-ok (chosen all_ids nodes) editable))

  abbrev Stay : World → World → Type 0
  Stay w w' = filter read_only w'.nodes ≡ filter read_only w.nodes

  resume-Stay :
      {A B : Type 0} (w : World) (r : Result NodeError A × World) (k : A → Effect B)
      → r.1.nodes ≡ w.nodes
      → ((a : A) (w' : World) → w'.nodes ≡ w.nodes → Stay w (k a w').1)
      → Stay w (resume r k).1
  resume-Stay w (err e, w') k h f = ap (λ t. filter read_only t) h
  resume-Stay w (ok a, w') k h f = f a w' h

  -- A deletion that is not internal leaves every read-only node of the corpus, whether it returns or
  -- throws, if the hooks leave the nodes alone: also those that stand under a node to delete.
  pub delete_nodes-read_only :
      (ids : List Text) (context : Context) (w : World)
      → IsQuiet services workspace corpus
      → context.internal ≡ false
      → filter
          (is_read_only services workspace corpus settings)
          (delete_nodes_of services workspace corpus ids context w).1.nodes
        ≡ filter (is_read_only services workspace corpus settings) w.nodes
  unfolding delete_nodes_of delete_nodes_now
  delete_nodes-read_only ids context w quiet external =
      go (deletable services workspace corpus ids context w) refl
    where
      go :
          (r : Result NodeError Deletion)
          → deletable services workspace corpus ids context w ≡ r
          → Stay w
              (checked services workspace corpus r
                (delete_nodes_now services workspace corpus context ids)
                w).1
      go (err e) q = refl
      go (ok d) q =
          resume-Stay w
            (if context.internal
              then (ok tt, w)
              else run_hooks services workspace corpus (λ n. okf_deleted (full_path n))
                  (concepts services workspace corpus d.gone) w)
            _
            (rw external (
              run_hooks-nodes services workspace corpus quiet _
                (concepts services workspace corpus d.gone) w))
            (λ _ w1 h1.
              resume-Stay w (run_hooks services workspace corpus delete_writeback (files d.gone) w1)
                _
                (run_hooks-nodes services workspace corpus quiet delete_writeback (files d.gone) w1
                  ∙ h1)
                (λ _ w2 h2.
                  rw
                    (
                      record_audit-nodes,
                      delete_blobs-nodes services workspace corpus quiet d.gone w2 ∙ h2,
                      delete_many-remove,
                    )
                    (filter-remove read_only (is_one_of workspace corpus d.ids) w.nodes
                      (deletable-editable ids context w d external q))))
