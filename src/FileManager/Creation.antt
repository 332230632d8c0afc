-- ===== src/FileManager/Creation.antt =====
-- The creation of folders and files keeps the tree of nodes.
use mathlib.Core.List.{map-append}
use evukb.Common.{
  [], ◌∷◌, ◌++◌, ◌≡◌, refl, sym, inl, inr, true, false, Bool-cases, length, Option, none, some,
  Result, ok, err, >>=-ok, arith,
}
use evukb.Common.Text.{Text, truthy, starts_with}
use evukb.Storage.Posix.{slash}
use evukb.Common.Value.{Fields}
use evukb.Nodes.Rows.{Node, folder, NodeError, internal_error, consistent, insert_row}
use evukb.Nodes.Repository.{is_at, get_by_path_and_name, create}
use evukb.Nodes.Places.{build_node_path}
use evukb.FileManager.World.{
  World, Services, Context, Effect, create_file, writeback, okf_created, content_changed,
  managed_blob_rel_path, on_nodes, record_audit,
}
use evukb.FileManager.Guards.{
  normalize_folder_path, normalize_node_name, find_parent, no_other, require_corpus,
}
use evukb.FileManager.Crud.{
  NewPlace, parent_id_of, managed_input, file_input, checked, create_folder_at, create_folder_in,
  create_file_at, create_file_in, folder_place, file_place, okf_allows, notify_unless_internal,
  apply_markdown_metadata, write_content,
}
use evukb.FileManager.Tree.{place_of, places, same_place, IsTree-append}
use evukb.FileManager.Placing.{
  find-none, normalize_folder_path-first, normalize_node_name-truthy, placed,
  find_parent-has_parent,
}
use evukb.FileManager.Keeps.{
  IsSound, HasTree, Keeps, resume-HasTree, record_audit-nodes, IsQuiet, run_hook-Keeps,
  notify-Keeps, apply_markdown_metadata-Keeps, write_content-Keeps,
}

module _ (services : Services) (workspace corpus : Text) where
  -- What the checks of a creation give.
  pub record Fits (w : World) (place : NewPlace) : Type 0 where
    pub named : truthy place.name ≡ true
    pub parent : Option Node
    pub parent_id : place.parent_id ≡ parent_id_of parent
    pub parented : find_parent workspace corpus place.path w.nodes ≡ ok parent
    pub relative : starts_with (slash ∷ []) place.path ≡ false
    pub free : get_by_path_and_name workspace corpus place.path place.name w.nodes ≡ none

  no_other-none : (o : Option Node) → no_other o none ≡ ok tt → o ≡ none
  no_other-none none e = refl
  no_other-none (some n) e = cc

  fits :
      (input_path input_name path name : Text) (parent : Option Node) (u : Unit {0}) (w : World)
      → normalize_folder_path input_path ≡ ok path
      → normalize_node_name input_name ≡ ok name
      → no_other (get_by_path_and_name workspace corpus path name w.nodes) none ≡ ok u
      → find_parent workspace corpus path w.nodes ≡ ok parent
      → Fits w (record { path = path; name = name; parent_id = parent_id_of parent })
  fits input_path input_name path name parent u w p n o f = record {
    named = normalize_node_name-truthy input_name name n;
    parent = parent;
    parent_id = refl;
    parented = f;
    relative = normalize_folder_path-first input_path path p;
    free = no_other-none (get_by_path_and_name workspace corpus path name w.nodes) o;
  }

  pub folder_place-Fits :
      (input_path input_name : Text) (w : World) (place : NewPlace)
      → folder_place services workspace corpus input_path input_name w ≡ ok place
      → Fits w place
  unfolding folder_place
  folder_place-Fits input_path input_name w place e =
      let (settings, _, e1) = >>=-ok (require_corpus services workspace corpus) _ e in
      let (path, p, e2) = >>=-ok (normalize_folder_path input_path) _ e1 in
      let (name, n, e3) = >>=-ok (normalize_node_name input_name) _ e2 in
      let (u, o, e4) =
        >>=-ok (no_other (get_by_path_and_name workspace corpus path name w.nodes) none) _ e3 in
      let (parent, f, e5) = >>=-ok (find_parent workspace corpus path w.nodes) _ e4 in
      let same : record { path = path; name = name; parent_id = parent_id_of parent } ≡ place =
        ground arith in
      rw (sym same) (fits input_path input_name path name parent u w p n o f)

  pub file_place-Fits :
      (input_path input_name content : Text) (context : Context) (w : World) (place : NewPlace)
      → file_place services workspace corpus input_path input_name content context w ≡ ok place
      → Fits w place
  unfolding file_place
  file_place-Fits input_path input_name content context w place e =
      let (settings, _, e1) = >>=-ok (require_corpus services workspace corpus) _ e in
      let (path, p, e2) = >>=-ok (normalize_folder_path input_path) _ e1 in
      let (name, n, e3) = >>=-ok (normalize_node_name input_name) _ e2 in
      let (u, o, e4) =
        >>=-ok (no_other (get_by_path_and_name workspace corpus path name w.nodes) none) _ e3 in
      let (_, _, e5) =
        >>=-ok (okf_allows services workspace corpus context settings input_name content) _ e4 in
      let (parent, f, e6) = >>=-ok (find_parent workspace corpus path w.nodes) _ e5 in
      let same : record { path = path; name = name; parent_id = parent_id_of parent } ≡ place =
        ground arith in
      rw (sym same) (fits input_path input_name path name parent u w p n o f)

  -- A new row at such a place.
  insert_row-IsSound :
      (w : World) (place : NewPlace) (n : Node)
      → Fits w place
      → place_of n ≡ placed workspace corpus n.id place.name n.node_type place.path place.parent_id
      → HasTree w
      → IsSound (insert_row n w.nodes).1
  unfolding insert_row get_by_path_and_name
  insert_row-IsSound w place n fit at tree = elim (Bool-cases (consistent (w.nodes ++ n ∷ []))) [
    | inr nn ↦ rw nn tree
    | inl y ↦ rw y (
      rw (map-append place_of w.nodes (n ∷ []), at)
          (IsTree-append (places w.nodes)
            (placed workspace corpus n.id place.name n.node_type place.path place.parent_id) tree.0
            fit.named
            (rw fit.parent_id (
              find_parent-has_parent workspace corpus n.id place.name n.node_type place.path w.nodes
                fit.parent fit.parented fit.relative))
            (find-none (is_at workspace corpus place.path place.name)
              (same_place
                (placed workspace corpus n.id place.name n.node_type place.path place.parent_id))
              w.nodes (λ m. refl) fit.free)),
      y,
    )
  ]

  create_folder_at-HasTree :
      (context : Context) (place : NewPlace) (w : World)
      → Fits w place
      → HasTree w
      → HasTree (create_folder_at services workspace corpus context place w).1
  unfolding create_folder_at create
  create_folder_at-HasTree context place w fit tree =
      resume-HasTree
        (on_nodes (create services.next_id workspace corpus (managed_input place folder)) w) _
        (insert_row-IsSound w place _ fit refl tree)
        (λ n w' tree'. rw (record_audit-nodes workspace context _ w') tree')

  pub checked-HasTree :
      {A B : Type 0} (r : Result NodeError A) (act : A → Effect B) (w : World)
      → HasTree w
      → ((a : A) → r ≡ ok a → HasTree (act a w).1)
      → HasTree (checked services workspace corpus r act w).1
  checked-HasTree (err e) act w tree f = tree
  checked-HasTree (ok a) act w tree f = f a refl

  pub create_folder-HasTree :
      (path name : Text) (context : Context)
      → Keeps (create_folder_in services workspace corpus path name context)
  unfolding create_folder_in
  create_folder-HasTree path name context w tree =
      checked-HasTree (folder_place services workspace corpus path name w)
        (create_folder_at services workspace corpus context) w tree
        (λ place e.
          create_folder_at-HasTree context place w (folder_place-Fits path name w place e) tree)

  create_file_at-HasTree :
      (content : Text) (mime_type : Option Text) (context : Context) (settings : Fields)
      (place : NewPlace) (w : World)
      → IsQuiet services workspace corpus
      → Fits w place
      → HasTree w
      → HasTree
          (create_file_at services workspace corpus content mime_type context settings place w).1
  unfolding create_file_at create
  create_file_at-HasTree content mime_type context settings place w quiet fit tree =
      resume-HasTree
        (on_nodes
          (create services.next_id workspace corpus (file_input place mime_type (length content)))
          w)
        _ (insert_row-IsSound w place _ fit refl tree)
        (λ n w1 t1.
          resume-HasTree
            (write_content services workspace corpus n.id (managed_blob_rel_path n.id) content
              mime_type internal_error w1)
            _
            (write_content-Keeps services workspace corpus n.id (managed_blob_rel_path n.id) content
              mime_type internal_error w1 t1)
            (λ saved w2 t2.
              resume-HasTree (services.run_hook workspace corpus (writeback saved content) w2) _
                (run_hook-Keeps services workspace corpus quiet (writeback saved content) w2 t2)
                (λ _ w3 t3.
                  resume-HasTree
                    (apply_markdown_metadata services workspace corpus saved.id settings content w3)
                    _
                    (apply_markdown_metadata-Keeps services workspace corpus saved.id settings
                      content w3 t3)
                    (λ _ w4 t4.
                      resume-HasTree
                        (notify_unless_internal services workspace corpus context
                          (okf_created (build_node_path place.path place.name)
                            (services.decode_utf8 content))
                          w4)
                        _ (notify-Keeps services workspace corpus quiet context _ w4 t4)
                        (λ _ w5 t5.
                          resume-HasTree
                            (services.run_hook workspace corpus (content_changed saved.id) (
                              record_audit workspace context
                                (create_file corpus saved.id
                                  (build_node_path place.path place.name))
                                w5))
                            _
                            (run_hook-Keeps services workspace corpus quiet
                              (content_changed saved.id) _
                              (rw
                                (record_audit-nodes workspace context
                                  (create_file corpus saved.id
                                    (build_node_path place.path place.name))
                                  w5)
                                t5))
                            (λ _ w6 t6. t6))))))

  pub create_file-HasTree :
      IsQuiet services workspace corpus
      → (path name content : Text) (mime_type : Option Text) (context : Context)
      → Keeps (create_file_in services workspace corpus path name content mime_type context)
  unfolding create_file_in
  create_file-HasTree quiet path name content mime_type context w tree =
      checked-HasTree (require_corpus services workspace corpus) _ w tree (λ settings _.
        checked-HasTree (file_place services workspace corpus path name content context w) _ w tree
          (λ place e.
            create_file_at-HasTree content mime_type context settings place w quiet
              (file_place-Fits path name content context w place e) tree))
