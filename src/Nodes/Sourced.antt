-- ===== src/Nodes/Sourced.antt =====
-- What a synchronised file is after `upsertSyncedFile`, and that a second call changes nothing.
use evukb.Common.{
  [], ◌∷◌, ◌++◌, ◌≡◌, refl, sym, ap, inl, inr, Bool, true, false, not, ◌&&◌, Bool-cases, find,
  Option, none, some, Result, ok, err, arith,
}
use evukb.Common.Text.{Text, text_eq_refl}
use evukb.Search.Filters.{NodeSourceType, managed, shared_mount, git, reference, import}
use evukb.Nodes.Rows.{
  Node, Table, NodeError, constraint_violation, consistent, update_rows, insert_row, update_where,
}
use evukb.Nodes.Repository.{is_node, is_source, is_hash, source_type_eq, get_by_source_ref, new_row}
use evukb.Nodes.Moves.{found_same}
use evukb.Nodes.Upsert.{
  SyncedFile, synced_onto, synced_input, put_synced, upsert_synced_file, require_row,
}

-- The node with the source of a file.
abbrev pub sourced : SyncedFile → Table → Option Node
sourced input t =
    get_by_source_ref input.workspace_id input.corpus_id input.source_type input.source_ref t

abbrev pub of_source : SyncedFile → Node → Bool
of_source input n =
    is_source input.workspace_id input.corpus_id input.source_type input.source_ref n

source_type_eq_refl : (s : NodeSourceType) → source_type_eq s s ≡ true
source_type_eq_refl managed = refl
source_type_eq_refl shared_mount = refl
source_type_eq_refl git = refl
source_type_eq_refl reference = refl
source_type_eq_refl import = refl

find-append :
    (p : Node → Bool) (t : Table) (n : Node)
    → find p t ≡ none
    → p n ≡ true
    → find p (t ++ n ∷ []) ≡ some n
find-append p [] n e h = ground arith
find-append p (m ∷ t) n e h = ground (arith, find-append p t n)

-- The first row with the source is the first row with the id that an update changes.
find-update_rows :
    (p q : Node → Bool) (f : Node → Node) (t : Table) (n : Node)
    → ((m : Node) → p (f m) ≡ p m)
    → q n ≡ true
    → find p t ≡ some n
    → find p (update_rows q f t) ≡ some (f n)
find-update_rows p q f [] n k h e = cc
find-update_rows p q f (m ∷ t) n k h e = elim (Bool-cases (p m)) [
  | inl y ↦ let same : m ≡ n = ground arith in ground (arith, k n, ap p same, ap q same)
  | inr nn ↦ elim (Bool-cases (q m)) [
    | inl z ↦ ground (arith, k m, find-update_rows p q f t n k h)
    | inr z ↦ ground (arith, find-update_rows p q f t n k h)
  ]
]

find-test : (p : Node → Bool) (t : Table) (n : Node) → find p t ≡ some n → p n ≡ true
find-test p [] n e = cc
find-test p (m ∷ t) n e = elim (Bool-cases (p m)) [
  | inl y ↦ let same : m ≡ n = ground arith in rw (sym same) y
  | inr nn ↦ find-test p t n (ground arith)
]

find-exists :
    (p q : Node → Bool) (t : Table) (n : Node)
    → find p t ≡ some n
    → q n ≡ true
    → (m : Node) × (find q t ≡ some m)
find-exists p q [] n e h = cc
find-exists p q (m ∷ t) n e h = elim (Bool-cases (q m)) [
  | inl y ↦ (m, ground arith)
  | inr nn ↦
      let rest : find p t ≡ some n = elim (Bool-cases (p m)) [
        | inl z ↦ let same : m ≡ n = ground arith in ground (arith, ap q same)
        | inr z ↦ ground arith
      ] in
      let (k, g) = find-exists p q t n rest h in (k, ground arith)
]

module _ (next_id : Table → Text) (input : SyncedFile) where
  abbrev row : Table → Node
  row t = new_row (next_id t) input.workspace_id input.corpus_id (synced_input input)

  -- The call throws and changes nothing, or what it returns is afterwards the node with the source,
  -- with the hash of the input.
  abbrev Written : Table → Result NodeError Node × Table → Type 0
  Written t (err e, t') = (e ≡ constraint_violation) × (t' ≡ t)
  Written t (ok n, t') = (sourced input t' ≡ some n) × (is_hash input.content_hash n ≡ true)

  inserted : (t : Table) → sourced input t ≡ none → Written t (insert_row (row t) t)
  unfolding insert_row get_by_source_ref
  inserted t e = elim (Bool-cases (consistent (t ++ row t ∷ []))) [
    | inr nn ↦ rw nn (refl, refl)
    | inl y ↦ rw y (
      find-append (of_source input) t (row t) e (
          ground (
            arith,
            text_eq_refl input.workspace_id,
            text_eq_refl input.corpus_id,
            text_eq_refl input.source_ref,
            source_type_eq_refl input.source_type,
          )),
      text_eq_refl input.content_hash,
    )
  ]

  replaced :
      (t : Table) (n : Node)
      → consistent t ≡ true
      → sourced input t ≡ some n
      → Written t (
          require_row
            (update_where (is_node input.workspace_id input.corpus_id n.id) (synced_onto input) t))
  unfolding update_where get_by_source_ref
  replaced t n whole e =
      let here = is_node input.workspace_id input.corpus_id n.id in
      let source = find-test (of_source input) t n e in
      let own : here n ≡ true = ground (arith, text_eq_refl n.id) in
      let (m, f) = find-exists (of_source input) here t n e own in
      let same =
        found_same (of_source input) here t n m whole e f (ground (arith, find-test here t m f)) in
      elim (Bool-cases (consistent (update_rows here (synced_onto input) t))) [
        | inr nn ↦ rw nn (refl, refl)
        | inl y ↦
            rw (y, f, same)
              (
                find-update_rows (of_source input) here (synced_onto input) t n (λ x. refl) own e,
                text_eq_refl input.content_hash,
              )
      ]

  put_synced-Written :
      (t : Table)
      → consistent t ≡ true
      → (o : Option Node) → sourced input t ≡ o
      → Written t (put_synced next_id input o t)
  unfolding put_synced
  put_synced-Written t whole none e = inserted t e
  put_synced-Written t whole (some n) e =
      elim (Bool-cases (not input.changed && is_hash input.content_hash n)) [
        | inl y ↦ rw y (e, ground arith)
        | inr nn ↦ rw nn (replaced t n whole e)
      ]

  abbrev again : SyncedFile
  again = record input { changed = false }

  -- What `upsertSyncedFile` achieves, from the table before it and its outcome.
  abbrev pub Synced : Table → Result NodeError Node × Table → Type 0
  Synced t (err e, t') = (e ≡ constraint_violation) × (t' ≡ t)
  Synced t (ok n, t') =
      (sourced input t' ≡ some n)
      × (is_hash input.content_hash n ≡ true)
      × (upsert_synced_file next_id again t' ≡ (ok n, t'))

  Written-Synced : (t : Table) (out : Result NodeError Node × Table) → Written t out → Synced t out
  unfolding upsert_synced_file put_synced
  Written-Synced t (err e, t') h = h
  Written-Synced t (ok n, t') (e, h) = (e, h, rw e (rw h refl))

  -- In a table that meets its constraints, `upsertSyncedFile` throws because of a constraint and
  -- changes nothing; or it returns a node with the hash of the input which the source then leads
  -- to, and to write the same file again as not changed returns that node and changes nothing.
  pub upsert_synced_file-Synced :
      (t : Table) → consistent t ≡ true → Synced t (upsert_synced_file next_id input t)
  unfolding upsert_synced_file
  upsert_synced_file-Synced t whole =
      Written-Synced t (put_synced next_id input (sourced input t) t)
        (put_synced-Written t whole (sourced input t) refl)
