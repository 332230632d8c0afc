-- ===== src/Nodes/Isolation.antt =====
-- What the methods of the repository leave alone: the rows of other corpora and workspaces.
use evukb.Common.{
  List, [], ◌∷◌, ◌≡◌, refl, ◌∙◌, Bool, true, false, not, ◌&&◌, Bool-cases, inl, inr, map, Option,
  none, some, ok, resume,
}
use evukb.Common.Text.{Text}
use evukb.Common.Value.{Value}
use evukb.Search.Filters.{NodeSourceType, import, IndexStatus}
use evukb.Nodes.Rows.{Node, Table, insert_row, update_where}
use evukb.Nodes.Repository.{
  is_node, is_hash, list_by_corpus, get_by_source_ref, get_by_path_and_name,
  update_paths_for_prefix, CreateNodeInput, create, ContentInput, update_content, rename, move,
  delete_many, update_index_status,
}
use evukb.Nodes.Upsert.{
  SyncedFile, synced_onto, put_synced, synced_input, put_portable, insert_id, require_row,
  PortableFile, PortableResult, upsert_portable_file, refresh_portable, portable_row,
  insert_portable, created, upsert_synced_file, portable_onto, portable_over,
}
use evukb.Nodes.Synced.{
  SyncedFolder, ensure_synced_folder, put_folder, folder_input, synced_parent, delete_listed,
  delete_synced_not_in_refs, delete_managed_not_in_paths,
}
use evukb.Nodes.Others.{
  others, Stays, others-update_where, others-insert_row, is_node-Within, others-resume,
  others-require_row, others-update_paths, others-delete_many, fresh-in_corpus, others-create,
}

-- The methods that take the workspace and the corpus in their input.
module _ (next_id : Table → Text) where
  others-put_synced :
      (input : SyncedFile) (o : Option Node) (t : Table)
      → let t' = (put_synced next_id input o t).1 in
        others input.workspace_id input.corpus_id t' ≡ others input.workspace_id input.corpus_id t
  unfolding put_synced create
  others-put_synced input none t =
      others-create input.workspace_id input.corpus_id next_id (synced_input input) t
  others-put_synced input (some n) t =
      elim (Bool-cases (not input.changed && is_hash input.content_hash n)) [
        | inl y ↦ rw y refl
        | inr nn ↦ rw nn (
            others-require_row input.workspace_id input.corpus_id
              (update_where (is_node input.workspace_id input.corpus_id n.id) (synced_onto input) t)
              t
              (others-update_where input.workspace_id input.corpus_id
                (is_node input.workspace_id input.corpus_id n.id) (synced_onto input) t
                (is_node-Within input.workspace_id input.corpus_id n.id) (λ m h. h)))
      ]

  others-refresh_portable :
      (input : PortableFile) (change : Node → Node) (n : Node) (t : Table)
      → Stays input.workspace_id input.corpus_id change
      → others input.workspace_id input.corpus_id (refresh_portable input change n t).1
        ≡ others input.workspace_id input.corpus_id t
  unfolding refresh_portable
  others-refresh_portable input change n t s = elim (Bool-cases (is_hash input.content_hash n)) [
    | inl y ↦ rw y refl
    | inr nn ↦ rw nn (
        others-resume input.workspace_id input.corpus_id
          (require_row (update_where (is_node input.workspace_id input.corpus_id n.id) change t)) _
          t
          (others-require_row input.workspace_id input.corpus_id
            (update_where (is_node input.workspace_id input.corpus_id n.id) change t) t
            (others-update_where input.workspace_id input.corpus_id
              (is_node input.workspace_id input.corpus_id n.id) change t
              (is_node-Within input.workspace_id input.corpus_id n.id) s))
          (λ a t' h. h))
  ]

  others-insert_portable :
      (input : PortableFile) (o : Option Text) (t : Table)
      → others input.workspace_id input.corpus_id (insert_portable next_id input o t).1
        ≡ others input.workspace_id input.corpus_id t
  unfolding insert_portable
  others-insert_portable input o t = go o
    where
      inserted :
          (id : Text) (used : Bool)
          → others input.workspace_id input.corpus_id
              (resume {B = PortableResult} (insert_row (portable_row id input) t) (λ row t'.
                (ok (record { node = row; outcome = created; preferred_id_used = used }), t'))).1
            ≡ others input.workspace_id input.corpus_id t
      inserted id used =
          others-resume input.workspace_id input.corpus_id (insert_row (portable_row id input) t) _
            t
            (others-insert_row input.workspace_id input.corpus_id (portable_row id input) t (
              fresh-in_corpus input.workspace_id input.corpus_id (portable_row id input) refl refl))
            (λ a t' h. h)

      go :
          (o : Option Text)
          → others input.workspace_id input.corpus_id (insert_portable next_id input o t).1
            ≡ others input.workspace_id input.corpus_id t
      go (some id) = inserted id true
      go none = inserted (next_id t) false

  others-put_portable :
      (input : PortableFile) (o p : Option Node) (t : Table)
      → others input.workspace_id input.corpus_id (put_portable next_id input o p t).1
        ≡ others input.workspace_id input.corpus_id t
  unfolding put_portable
  others-put_portable input (some n) p t =
      others-refresh_portable input (portable_onto input) n t (λ m h. h)
  others-put_portable input none (some n) t =
      others-refresh_portable input (portable_over input) n t (λ m h. h)
  others-put_portable input none none t = others-insert_portable input (insert_id input t) t

  others-put_folder :
      (input : SyncedFolder) (o : Option Node) (t : Table)
      → others input.workspace_id input.corpus_id (put_folder next_id input o t).1
        ≡ others input.workspace_id input.corpus_id t
  unfolding put_folder
  others-put_folder input (some n) t = refl
  others-put_folder input none t =
      others-create input.workspace_id input.corpus_id next_id
        (folder_input input (synced_parent input t)) t

others-delete_listed :
    (workspace corpus : Text) (ns : List Node) (t : Table)
    → others workspace corpus (delete_listed workspace corpus ns t).1 ≡ others workspace corpus t
unfolding delete_listed
others-delete_listed workspace corpus [] t = refl
others-delete_listed workspace corpus (n ∷ ns) t =
    others-delete_many workspace corpus (map (λ m. m.id) (n ∷ ns)) t

-- A call of a method that may change the table, on a corpus.
pub data Method : Type 0 where
  call_create : CreateNodeInput → Method
  call_update_paths : (old_prefix new_prefix : Text) → Method
  call_upsert_synced : SyncedFile → Method
  call_upsert_portable : PortableFile → Method
  call_ensure_folder : SyncedFolder → Method
  call_delete_synced : List NodeSourceType → (keep : List Text) → Method
  call_delete_managed : (keep : List Text) → Method
  call_update_content : (id : Text) → ContentInput → Method
  call_rename : (id name path : Text) → Method
  call_move : (id : Text) → Option Text → (path : Text) → Method
  call_delete_many : (ids : List Text) → Method
  call_update_index_status : (id : Text) → IndexStatus → Option Value → Option Text → Method

module _ (next_id : Table → Text) (workspace corpus : Text) where
  -- The table after a call, whether it returns or throws.
  abbrev pub after_method : Method → Table → Table
  after_method (call_create input) t = (create next_id workspace corpus input t).1
  after_method (call_update_paths a b) t = (update_paths_for_prefix workspace corpus a b t).1
  after_method (call_upsert_synced input) t =
      (upsert_synced_file next_id (record input { workspace_id = workspace; corpus_id = corpus })
        t).1
  after_method (call_upsert_portable input) t =
      (upsert_portable_file next_id (record input { workspace_id = workspace; corpus_id = corpus })
        t).1
  after_method (call_ensure_folder input) t =
      (ensure_synced_folder next_id (record input { workspace_id = workspace; corpus_id = corpus })
        t).1
  after_method (call_delete_synced types keep) t =
      (delete_synced_not_in_refs workspace corpus types keep t).1
  after_method (call_delete_managed keep) t =
      (delete_managed_not_in_paths workspace corpus keep t).1
  after_method (call_update_content id input) t = (update_content workspace corpus id input t).1
  after_method (call_rename id name path) t = (rename workspace corpus id name path t).1
  after_method (call_move id parent path) t = (move workspace corpus id parent path t).1
  after_method (call_delete_many ids) t = (delete_many workspace corpus ids t).1
  after_method (call_update_index_status id status metadata at) t =
      (update_index_status workspace corpus id status metadata at t).1

  abbrev pub after_methods : List Method → Table → Table
  after_methods [] t = t
  after_methods (m ∷ ms) t = after_methods ms (after_method m t)

  others-update :
      (id : Text) (f : Node → Node) (t : Table)
      → Stays workspace corpus f
      → others workspace corpus (update_where (is_node workspace corpus id) f t).1
        ≡ others workspace corpus t
  others-update id f t s =
      others-update_where workspace corpus (is_node workspace corpus id) f t
        (is_node-Within workspace corpus id) s

  others-method :
      (m : Method) (t : Table)
      → others workspace corpus (after_method m t) ≡ others workspace corpus t
  unfolding create update_paths_for_prefix upsert_synced_file upsert_portable_file
      ensure_synced_folder delete_synced_not_in_refs delete_managed_not_in_paths update_content
      rename move update_index_status
  others-method (call_create input) t = others-create workspace corpus next_id input t
  others-method (call_update_paths a b) t =
      others-update_paths workspace corpus a b (list_by_corpus workspace corpus t) t
  others-method (call_upsert_synced input) t =
      others-put_synced next_id (record input { workspace_id = workspace; corpus_id = corpus })
        (get_by_source_ref workspace corpus input.source_type input.source_ref t) t
  others-method (call_upsert_portable input) t =
      others-put_portable next_id (record input { workspace_id = workspace; corpus_id = corpus })
        (get_by_source_ref workspace corpus import input.source_ref t)
        (get_by_path_and_name workspace corpus input.path input.name t) t
  others-method (call_ensure_folder input) t =
      others-put_folder next_id (record input { workspace_id = workspace; corpus_id = corpus })
        (get_by_path_and_name workspace corpus input.path input.name t) t
  others-method (call_delete_synced types keep) t = others-delete_listed workspace corpus _ t
  others-method (call_delete_managed keep) t = others-delete_listed workspace corpus _ t
  others-method (call_update_content id input) t = others-update id _ t (λ n h. h)
  others-method (call_rename id name path) t = others-update id _ t (λ n h. h)
  others-method (call_move id parent path) t = others-update id _ t (λ n h. h)
  others-method (call_delete_many ids) t = others-delete_many workspace corpus ids t
  others-method (call_update_index_status id status metadata at) t = others-update id _ t (λ n h. h)

  -- Whatever the methods of the repository are called with for a corpus, in whatever order and
  -- whether they return or throw, the rows of all other corpora and workspaces stay as they are,
  -- in their order.
  pub other_corpora_stay :
      (ms : List Method) (t : Table)
      → others workspace corpus (after_methods ms t) ≡ others workspace corpus t
  other_corpora_stay [] t = refl
  other_corpora_stay (m ∷ ms) t = other_corpora_stay ms (after_method m t) ∙ others-method m t
