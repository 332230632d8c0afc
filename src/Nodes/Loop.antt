-- ===== src/Nodes/Loop.antt =====
-- The loop of `updatePathsForPrefix`, one statement for each row that was read, against one
-- simultaneous update of the rows under the prefix.
use evukb.Common.{List, [], ◌∷◌, ◌≡◌, Bool, true, ◌&&◌, ◌||◌, any}
use evukb.Common.Text.{Text, truthy}
use evukb.Nodes.Rows.{Node}
use evukb.Nodes.Repository.{in_corpus, is_node, is_under}

module _ (workspace corpus old_prefix new_prefix : Text) (given : truthy new_prefix ≡ true) where
  -- The rows that are moved once the loop has come to a row, and to several.
  abbrev also : (Node → Bool) → Node → Node → Bool
  also p n m = p m || (is_node workspace corpus n.id m && is_under old_prefix m.path)

  abbrev after : (Node → Bool) → List Node → Node → Bool
  after p [] = p
  after p (n ∷ ns) = after (also p n) ns

  Reads : List Node → Node → Type 0
  Reads ns m =
      in_corpus workspace corpus m ≡ true → any (λ n. is_node workspace corpus n.id m) ns ≡ true
