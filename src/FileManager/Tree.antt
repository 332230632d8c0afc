-- ===== src/FileManager/Tree.antt =====
-- The tree of a table of nodes: what the operations of the file manager keep true of the places
-- of the nodes, whatever is in them.
use evukb.Common.{
  List, [], ◌∷◌, ◌++◌, ◌≡◌, refl, ◌∙◌, Bool, true, false, not, ◌&&◌, ◌||◌, Bool-cases, inl, inr,
  if◌then◌else◌, any, all, map, Option, none, some, arith,
}
use evukb.Common.Text.{Text, text_eq, text_eq_iff, truthy}
use evukb.Nodes.Rows.{NodeType, is_file, Node, Table, update_rows}
use evukb.Nodes.Repository.{is_some_text}
use evukb.Nodes.Places.{build_node_path}

-- Where a node stands, and what it is.
pub record Place : Type 0 where
  pub id : Text
  pub workspace_id : Text
  pub corpus_id : Text
  pub parent_id : Option Text
  pub path : Text
  pub name : Text
  pub node_type : NodeType

abbrev pub place_of : Node → Place
place_of n = record {
  id = n.id;
  workspace_id = n.workspace_id;
  corpus_id = n.corpus_id;
  parent_id = n.parent_id;
  path = n.path;
  name = n.name;
  node_type = n.node_type;
}

abbrev pub same_corpus : Place → Place → Bool
same_corpus a b = text_eq b.workspace_id a.workspace_id && text_eq b.corpus_id a.corpus_id

-- The second place is a folder, the parent of the first, and its full path is the first's path.
abbrev pub is_parent : Place → Place → Bool
is_parent a f =
    same_corpus a f
    && not (is_file f.node_type)
    && is_some_text f.id a.parent_id
    && text_eq (build_node_path f.path f.name) a.path

abbrev pub is_none : Option Text → Bool
is_none none = true
is_none (some t) = false

-- A place at the root has no parent, and any other one has its parent among the places.
abbrev pub has_parent : List Place → Place → Bool
has_parent ps a = if truthy a.path then any (is_parent a) ps else is_none a.parent_id

abbrev pub same_place : Place → Place → Bool
same_place a b = same_corpus a b && text_eq b.path a.path && text_eq b.name a.name

abbrev pub unique_places : List Place → Bool
unique_places [] = true
unique_places (a ∷ ps) = not (any (same_place a) ps) && unique_places ps

pub record IsTree (ps : List Place) : Type 0 where
  pub named : all (λ a. truthy a.name) ps ≡ true
  pub parented : all (has_parent ps) ps ≡ true
  pub unique : unique_places ps ≡ true

abbrev pub places : Table → List Place
places t = map place_of t

-- An update that leaves the places of nodes as they are.
pub places-update_rows :
    (p : Node → Bool) (f : Node → Node) (t : Table)
    → ((n : Node) → place_of (f n) ≡ place_of n)
    → places (update_rows p f t) ≡ places t
places-update_rows p f [] h = refl
places-update_rows p f (n ∷ t) h = elim (Bool-cases (p n)) [
  | inl y ↦ ground (arith, h n, places-update_rows p f t h)
  | inr nn ↦ ground (arith, places-update_rows p f t h)
]

any-append :
    (q : Place → Bool) (ps : List Place) (a : Place) → any q (ps ++ a ∷ []) ≡ (any q ps || q a)
any-append q [] a = ground arith
any-append q (b ∷ ps) a = ground (arith, any-append q ps a)

all-append :
    (q : Place → Bool) (ps : List Place) (a : Place) → all q (ps ++ a ∷ []) ≡ (all q ps && q a)
all-append q [] a = ground arith
all-append q (b ∷ ps) a = ground (arith, all-append q ps a)

all-imp :
    (q r : Place → Bool) (ps : List Place)
    → ((a : Place) → q a ≡ true → r a ≡ true)
    → all q ps ≡ true
    → all r ps ≡ true
all-imp q r [] f h = refl
all-imp q r (a ∷ ps) f h = ground (arith, f a, all-imp q r ps f)

has_parent-append :
    (ps : List Place) (a b : Place) → has_parent ps b ≡ true → has_parent (ps ++ a ∷ []) b ≡ true
has_parent-append ps a b h = ground (arith, any-append (is_parent b) ps a)

same_place_sym : (a b : Place) → same_place a b ≡ true → same_place b a ≡ true
same_place_sym a b h = ground (
  arith,
  text_eq_iff a.workspace_id b.workspace_id,
  text_eq_iff b.workspace_id a.workspace_id,
  text_eq_iff a.corpus_id b.corpus_id,
  text_eq_iff b.corpus_id a.corpus_id,
  text_eq_iff a.path b.path,
  text_eq_iff b.path a.path,
  text_eq_iff a.name b.name,
  text_eq_iff b.name a.name,
)

unique-append :
    (ps : List Place) (a : Place)
    → any (same_place a) ps ≡ false
    → unique_places ps ≡ true
    → unique_places (ps ++ a ∷ []) ≡ true
unique-append [] a h u = refl
unique-append (b ∷ ps) a h u =
    ground (arith, any-append (same_place b) ps a, same_place_sym b a, unique-append ps a)

-- A new place: named, with its parent there, and where nothing is yet.
pub IsTree-append :
    (ps : List Place) (a : Place)
    → IsTree ps
    → truthy a.name ≡ true
    → has_parent ps a ≡ true
    → any (same_place a) ps ≡ false
    → IsTree (ps ++ a ∷ [])
IsTree-append ps a tree n h u = record {
  named = all-append (λ b. truthy b.name) ps a ∙ ground (arith, tree.named);
  parented =
      all-append (has_parent (ps ++ a ∷ [])) ps a
      ∙ ground (
        arith,
        has_parent-append ps a a h,
        all-imp (has_parent ps) (has_parent (ps ++ a ∷ [])) ps (λ b k. has_parent-append ps a b k)
            tree.parented,
      );
  unique = unique-append ps a u tree.unique;
}
