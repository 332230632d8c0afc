-- ===== src/Nodes/Chain.antt =====
-- `ensureFolderChain` makes all folders of a path.
use evukb.Common.{
  List, [], ◌∷◌, ◌++◌, ◌≡◌, refl, ap, ◌∙◌, Bool, true, false, any, find, filter, Option, none, some,
  ok, arith, All, All-append, sym, append-nil, append_assoc,
}
use evukb.Common.Text.{Text, text_eq, text_eq_refl, split, truthy}
use evukb.Storage.Posix.{slash}
use evukb.Search.Filters.{NodeSourceType}
use evukb.Nodes.Rows.{Node, Table, is_file, clashes, consistent, insert_row}
use evukb.Nodes.Repository.{is_at, get_by_path_and_name, new_row, create}
use evukb.Nodes.Places.{build_node_path}
use evukb.Nodes.Synced.{
  SyncedFolder, synced_parent, folder_input, put_folder, ensure_synced_folder, folder_chain,
  ensure_folder_chain,
}

clash_free-append :
    (n : Node) (t : Table) (m : Node)
    → any (clashes n) t ≡ false
    → clashes n m ≡ false
    → any (clashes n) (t ++ m ∷ []) ≡ false
clash_free-append n [] m h k = ground arith
clash_free-append n (x ∷ t) m h k = ground (arith, clash_free-append n t m)

consistent-append :
    (t : Table) (n : Node)
    → All (λ m. clashes m n ≡ false) t
    → consistent t ≡ true
    → consistent (t ++ n ∷ []) ≡ true
unfolding consistent
consistent-append [] n h k = refl
consistent-append (m ∷ t) n (x, h) k =
    ground (arith, consistent-append t n h, clash_free-append m t n)

find-append-some :
    (p : Node → Bool) (t : Table) (n m : Node) → find p t ≡ some m → find p (t ++ n ∷ []) ≡ some m
find-append-some p [] n m e = cc
find-append-some p (x ∷ t) n m e = ground (arith, find-append-some p t n m)

find-append-none :
    (p : Node → Bool) (t : Table) (n : Node)
    → find p t ≡ none
    → p n ≡ true
    → find p (t ++ n ∷ []) ≡ some n
find-append-none p [] n e h = ground arith
find-append-none p (x ∷ t) n e h = ground (arith, find-append-none p t n)

-- The id that is generated next is none of the table's.
abbrev pub IsFresh : (Table → Text) → Type 0
IsFresh next_id = (t : Table) → All (λ n. text_eq n.id (next_id t) ≡ false) t

module _ (next_id : Table → Text) (fresh : IsFresh next_id) (workspace corpus : Text) where
  -- There is a node at the place.
  abbrev pub Stands : Text → Text → Table → Type 0
  Stands path name t = (n : Node) × (get_by_path_and_name workspace corpus path name t ≡ some n)

  -- A folder of the corpus.
  abbrev pub IsFolder : Node → Type 0
  IsFolder n = (n.workspace_id ≡ workspace) × (n.corpus_id ≡ corpus) × (is_file n.node_type ≡ false)

  -- A consistent table with all rows from before as they were, and folders of the corpus behind
  -- them; whatever stood at a place stands there.
  pub record Grown (before after : Table) : Type 0 where
    pub whole : consistent after ≡ true
    pub more : List Node
    pub added : after ≡ before ++ more
    pub folders : All IsFolder more
    pub kept : (path name : Text) → Stands path name before → Stands path name after

  -- There is a node for each segment below the path.
  abbrev pub ChainStands : Text → List Text → Table → Type 0
  ChainStands path [] t = Unit
  ChainStands path (s ∷ ss) t = Stands path s t × ChainStands (build_node_path path s) ss t

  abbrev at_place : SyncedFolder → Text → Text → SyncedFolder
  at_place input path name = record input {
    workspace_id = workspace;
    corpus_id = corpus;
    path = path;
    name = name;
  }

  folder_clash_free :
      (n : Node) (t : Table)
      → is_file n.node_type ≡ false
      → All (λ m. text_eq m.id n.id ≡ false) t
      → All (λ m. clashes m n ≡ false) t
  unfolding clashes
  folder_clash_free n [] f h = tt
  folder_clash_free n (m ∷ t) f (x, h) = (ground arith, folder_clash_free n t f h)

  Grown-refl : (t : Table) → consistent t ≡ true → Grown t t
  Grown-refl t whole = record {
    whole = whole;
    more = [];
    added = sym (append-nil t);
    folders = tt;
    kept = λ path name s. s;
  }

  Grown-trans : (t u v : Table) → Grown t u → Grown u v → Grown t v
  Grown-trans t u v g h = record {
    whole = h.whole;
    more = g.more ++ h.more;
    added = h.added ∙ ap (λ r. r ++ h.more) g.added ∙ append_assoc t g.more h.more;
    folders = All-append IsFolder g.more h.more g.folders h.folders;
    kept = λ path name s. h.kept path name (g.kept path name s);
  }

  module _ (input : SyncedFolder) (w : input.workspace_id ≡ workspace)
      (c : input.corpus_id ≡ corpus) where
    put_folder-Stands :
        (t : Table)
        → consistent t ≡ true
        → (o : Option Node) → get_by_path_and_name workspace corpus input.path input.name t ≡ o
        → (n : Node) × (t' : Table) × (put_folder next_id input o t ≡ (ok n, t'))
          × Grown t t'
          × Stands input.path input.name t'
    unfolding put_folder create insert_row get_by_path_and_name
    put_folder-Stands t whole (some n) e = (n, t, refl, Grown-refl t whole, (n, e))
    put_folder-Stands t whole none e =
        let n : Node =
          new_row (next_id t) input.workspace_id input.corpus_id
            (folder_input input (synced_parent input t)) in
        let whole' = consistent-append t n (folder_clash_free n t refl (fresh t)) whole in
        (
          n,
          t ++ n ∷ [],
          rw whole' refl,
          record {
            whole = whole';
            more = n ∷ [];
            added = refl;
            folders = ((w, c, refl), tt);
            kept = λ path name s.
                (s.0, find-append-some (is_at workspace corpus path name) t n s.0 s.1);
          },
          (
            n,
            find-append-none (is_at workspace corpus input.path input.name) t n e (
                ground (
                  arith,
                  w,
                  c,
                  text_eq_refl workspace,
                  text_eq_refl corpus,
                  text_eq_refl input.path,
                  text_eq_refl input.name,
                )),
          ),
        )

    ensure-eq-put_folder :
        (t : Table)
        → ensure_synced_folder next_id input t
          ≡ put_folder next_id input
              (get_by_path_and_name workspace corpus input.path input.name t)
              t
    unfolding ensure_synced_folder
    ensure-eq-put_folder t =
        ap
          (λ v.
            put_folder next_id input
              (get_by_path_and_name v input.corpus_id input.path input.name t) t)
          w
        ∙ ap
            (λ v.
              put_folder next_id input (get_by_path_and_name workspace v input.path input.name t) t)
            c

  ChainStands-Grown :
      (path : Text) (ss : List Text) (before after : Table)
      → Grown before after
      → ChainStands path ss before
      → ChainStands path ss after
  ChainStands-Grown path [] before after g h = tt
  ChainStands-Grown path (s ∷ ss) before after g (x, h) =
      (g.kept path s x, ChainStands-Grown (build_node_path path s) ss before after g h)

  folder_chain-ChainStands :
      (input : SyncedFolder) (source_ref_at : Text → Text) (path : Text) (ss : List Text)
      (t : Table)
      → input.workspace_id ≡ workspace
      → input.corpus_id ≡ corpus
      → consistent t ≡ true
      → (t' : Table) × (folder_chain next_id input source_ref_at path ss t ≡ (ok tt, t'))
        × Grown t t'
        × ChainStands path ss t'
  unfolding folder_chain
  folder_chain-ChainStands input source_ref_at path [] t w c whole =
      (t, refl, Grown-refl t whole, tt)
  folder_chain-ChainStands input source_ref_at path (s ∷ ss) t w c whole =
      let next = build_node_path path s in
      let here : SyncedFolder = record input {
        path = path;
        name = s;
        source_ref = source_ref_at next;
      } in
      let (n, t1, e1, g1, x1) =
        put_folder-Stands here w c t whole (get_by_path_and_name workspace corpus path s t) refl in
      let (t2, e2, g2, x2) = folder_chain-ChainStands input source_ref_at next ss t1 w c g1.whole in
      (
        t2,
        rw (ensure-eq-put_folder here w c t ∙ e1) e2,
        Grown-trans t t1 t2 g1 g2,
        (g2.kept path s x1, x2),
      )

-- If the generated ids are fresh, `ensureFolderChain` returns in a table that meets its
-- constraints and leaves one, for a folder path that is not empty: all rows are as they were, and
-- behind them stand the new ones, all folders of the corpus; and at the place of each segment of the
-- folder path, with the segments before it as its path, there is a node.
pub ensure_folder_chain-ChainStands :
    (next_id : Table → Text) (workspace corpus folder_path : Text) (source_type : NodeSourceType)
    (source_ref_at : Text → Text) (t : Table) (fresh : IsFresh next_id)
    → truthy folder_path ≡ true
    → consistent t ≡ true
    → (t' : Table) × (ensure_folder_chain next_id workspace corpus folder_path source_type
          source_ref_at t
        ≡ (ok tt, t'))
      × Grown next_id fresh workspace corpus t t'
      × ChainStands next_id fresh workspace corpus [] (filter truthy (split slash folder_path)) t'
unfolding ensure_folder_chain
ensure_folder_chain-ChainStands next_id workspace corpus [] source_type source_ref_at t fresh g
      whole =
    cc
ensure_folder_chain-ChainStands next_id workspace corpus (d ∷ folder_path) source_type source_ref_at
      t fresh g whole =
    folder_chain-ChainStands next_id fresh workspace corpus
      (record {
        workspace_id = workspace;
        corpus_id = corpus;
        path = [];
        name = [];
        source_type = source_type;
        source_ref = [];
      })
      source_ref_at [] (filter truthy (split slash (d ∷ folder_path))) t refl refl whole
