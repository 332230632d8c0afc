-- ===== src/AgentWrite/Approvals/Rows.antt =====
-- The table of approval requests under the repository's conditional update.
use evukb.Common.{List, [], ◌∷◌, ◌++◌, ◌≡◌, refl, ◌≢◌, true, false, arith, Option, none, some, All}
use evukb.Common.Text.{Text}
use evukb.AgentWrite.Request.{Actor}
use evukb.AgentWrite.Approvals.{
  Status, is_pending, Approval, is_row, get_by_id_in_workspace, decide_row, mark_rows, marked_row,
}

abbrev map_row : (Approval → Approval) → Option Approval → Option Approval
map_row f none = none
map_row f (some a) = some (f a)

module _ (workspace id : Text) (status : Status) (decider : Actor) where
  -- Reading a row after the update is updating what was read before.
  pub get-mark_rows :
      (other other_id : Text) (rows : List Approval)
      → get_by_id_in_workspace other other_id (mark_rows workspace id status decider rows)
        ≡ map_row
            (decide_row workspace id status decider)
            (get_by_id_in_workspace other other_id rows)
  unfolding get_by_id_in_workspace mark_rows
  get-mark_rows other other_id [] = refl
  get-mark_rows other other_id (a ∷ rows) = ground (arith, get-mark_rows other other_id rows)

  -- The update changes and returns a row that was read as pending.
  pub marked_row-pending :
      (rows : List Approval) (a : Approval)
      → get_by_id_in_workspace workspace id rows ≡ some a
      → is_pending a.status ≡ true
      → marked_row workspace id status decider rows
        ≡ some (record a { status = status; decided_by = some decider })
  unfolding get_by_id_in_workspace marked_row
  marked_row-pending [] a e p = cc
  marked_row-pending (b ∷ rows) a e p = ground (arith, marked_row-pending rows a)

  pub get_row-is_row :
      (rows : List Approval) (a : Approval)
      → get_by_id_in_workspace workspace id rows ≡ some a
      → is_row workspace id a ≡ true
  unfolding get_by_id_in_workspace
  get_row-is_row [] a e = cc
  get_row-is_row (b ∷ rows) a e = ground (arith, get_row-is_row rows a)

-- A second update finds nothing pending.
pub marked_row-mark_rows :
    (workspace id : Text) (s t : Status) (d e : Actor) (rows : List Approval)
    → is_pending s ≡ false
    → marked_row workspace id t e (mark_rows workspace id s d rows) ≡ none
unfolding mark_rows marked_row
marked_row-mark_rows workspace id s t d e [] n = refl
marked_row-mark_rows workspace id s t d e (a ∷ rows) n =
    ground (arith, marked_row-mark_rows workspace id s t d e rows)

pub get-append :
    (workspace id : Text) (rows more : List Approval) (a : Approval)
    → get_by_id_in_workspace workspace id rows ≡ some a
    → get_by_id_in_workspace workspace id (rows ++ more) ≡ some a
unfolding get_by_id_in_workspace
get-append workspace id [] more a e = cc
get-append workspace id (b ∷ rows) more a e = ground (arith, get-append workspace id rows more a)

abbrev pub DecidedAs : Status → Option Actor → Type 0
DecidedAs Status.pending decider = decider ≡ none
DecidedAs Status.rejected decider = decider ≢ none
DecidedAs Status.applied decider = decider ≢ none

-- A row is pending exactly as long as nobody has decided it.
abbrev pub IsSound : Approval → Type 0
IsSound a = DecidedAs a.status a.decided_by

pub mark_rows-IsSound :
    (workspace id : Text) (s : Status) (d : Actor) (rows : List Approval)
    → is_pending s ≡ false
    → All IsSound rows
    → All IsSound (mark_rows workspace id s d rows)
unfolding mark_rows
mark_rows-IsSound workspace id s d [] n h = tt
mark_rows-IsSound workspace id s d (a ∷ rows) n (p, h) =
    (ground arith, mark_rows-IsSound workspace id s d rows n h)
