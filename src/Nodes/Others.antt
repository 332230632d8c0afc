-- ===== src/Nodes/Others.antt =====
-- The rows of other corpora and workspaces under the statements and the simpler methods of the
-- repository.
use evukb.Common.{
  List, [], ◌∷◌, ◌++◌, ◌≡◌, refl, ◌∙◌, Bool, true, Bool-cases, inl, inr, any, remove, Option, none,
  some, Result, ok, err, resume, arith, and-eq-true,
}
use evukb.Common.Text.{Text, text_eq, text_eq_refl}
use evukb.Nodes.Rows.{
  Node, Table, NodeError, Query, consistent, update_rows, insert_row, update_where,
}
use evukb.Nodes.Repository.{
  in_corpus, is_node, is_under, next_path, with_path, update_paths, CreateNodeInput, new_row,
  create, is_one_of, delete_many,
}
use evukb.Nodes.Upsert.{require_row}

module _ (workspace corpus : Text) where
  -- The rows of all other corpora.
  abbrev pub others : Table → List Node
  others t = remove (in_corpus workspace corpus) t

  -- A change that keeps a row of the corpus in it.
  abbrev pub Stays : (Node → Node) → Type 0
  Stays f =
      (n : Node) → in_corpus workspace corpus n ≡ true → in_corpus workspace corpus (f n) ≡ true

  abbrev pub Within : (Node → Bool) → Type 0
  Within p = (n : Node) → p n ≡ true → in_corpus workspace corpus n ≡ true

  pub others-append :
      (t : Table) (n : Node) → in_corpus workspace corpus n ≡ true → others (t ++ n ∷ []) ≡ others t
  others-append [] n h = ground arith
  others-append (m ∷ t) n h = ground (arith, others-append t n h)

  pub others-update_rows :
      (p : Node → Bool) (f : Node → Node) (t : Table)
      → Within p
      → Stays f
      → others (update_rows p f t) ≡ others t
  others-update_rows p f [] w s = refl
  others-update_rows p f (n ∷ t) w s = elim (Bool-cases (p n)) [
    | inl y ↦ ground (arith, w n y, s n (w n y), others-update_rows p f t w s)
    | inr nn ↦ ground (arith, others-update_rows p f t w s)
  ]

  pub others-remove : (p : Node → Bool) (t : Table) → Within p → others (remove p t) ≡ others t
  others-remove p [] w = refl
  others-remove p (n ∷ t) w = elim (Bool-cases (p n)) [
    | inl y ↦ ground (arith, w n y, others-remove p t w)
    | inr nn ↦ ground (arith, others-remove p t w)
  ]

  pub others-update_where :
      (p : Node → Bool) (f : Node → Node) (t : Table)
      → Within p
      → Stays f
      → others (update_where p f t).1 ≡ others t
  unfolding update_where
  others-update_where p f t w s = elim (Bool-cases (consistent (update_rows p f t))) [
    | inl y ↦ rw y (others-update_rows p f t w s)
    | inr nn ↦ rw nn refl
  ]

  pub others-insert_row :
      (n : Node) (t : Table)
      → in_corpus workspace corpus n ≡ true
      → others (insert_row n t).1 ≡ others t
  unfolding insert_row
  others-insert_row n t h = elim (Bool-cases (consistent (t ++ n ∷ []))) [
    | inl y ↦ rw y (others-append t n h)
    | inr nn ↦ rw nn refl
  ]

  pub is_node-Within : (id : Text) → Within (is_node workspace corpus id)
  is_node-Within id n h = (and-eq-true (in_corpus workspace corpus n) (text_eq n.id id) h).0

  pub others-resume :
      {A B : Type 0} (r : Result NodeError A × Table) (k : A → Query B) (t : Table)
      → others r.1 ≡ others t
      → ((a : A) (t' : Table) → others t' ≡ others t → others (k a t').1 ≡ others t)
      → others (resume r k).1 ≡ others t
  others-resume (err e, t') k t h f = h
  others-resume (ok a, t') k t h f = f a t' h

  pub others-require_row :
      (r : Result NodeError (Option Node) × Table) (t : Table)
      → others r.1 ≡ others t
      → others (require_row r).1 ≡ others t
  others-require_row (err e, t') t h = h
  others-require_row (ok none, t') t h = h
  others-require_row (ok (some n), t') t h = h

  pub others-update_paths :
      (old_prefix new_prefix : Text) (ns : List Node) (t : Table)
      → others (update_paths workspace corpus old_prefix new_prefix ns t).1 ≡ others t
  unfolding update_paths
  others-update_paths old_prefix new_prefix [] t = refl
  others-update_paths old_prefix new_prefix (n ∷ ns) t =
      elim (Bool-cases (is_under old_prefix n.path)) [
        | inl y ↦ rw y (
            others-resume
              (update_where (is_node workspace corpus n.id)
                (with_path (next_path old_prefix new_prefix n.path)) t)
              (λ _ t'. update_paths workspace corpus old_prefix new_prefix ns t') t
              (others-update_where (is_node workspace corpus n.id)
                (with_path (next_path old_prefix new_prefix n.path)) t (is_node-Within n.id)
                (λ m h. h))
              (λ _ t' h. others-update_paths old_prefix new_prefix ns t' ∙ h))
        | inr nn ↦ rw nn (others-update_paths old_prefix new_prefix ns t)
      ]

  pub others-delete_many :
      (ids : List Text) (t : Table) → others (delete_many workspace corpus ids t).1 ≡ others t
  unfolding delete_many
  others-delete_many [] t = refl
  others-delete_many (i ∷ ids) t =
      others-remove (is_one_of workspace corpus (i ∷ ids)) t
        (λ n h. (and-eq-true (in_corpus workspace corpus n) (any (text_eq n.id) (i ∷ ids)) h).0)

  pub fresh-in_corpus :
      (n : Node)
      → n.workspace_id ≡ workspace
      → n.corpus_id ≡ corpus
      → in_corpus workspace corpus n ≡ true
  fresh-in_corpus n w c = rw (w, c, text_eq_refl workspace, text_eq_refl corpus) refl

  module _ (next_id : Table → Text) where
    pub others-create :
        (input : CreateNodeInput) (t : Table)
        → others (create next_id workspace corpus input t).1 ≡ others t
    unfolding create
    others-create input t =
        others-insert_row (new_row (next_id t) workspace corpus input) t
          (fresh-in_corpus (new_row (next_id t) workspace corpus input) refl refl)
