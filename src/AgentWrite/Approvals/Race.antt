-- ===== src/AgentWrite/Approvals/Race.antt =====
-- Two decisions on one request at a time. `approve` awaits the write between its reading of the
-- row and the conditional update, so that another decision can come between.
use evukb.Common.{List, ◌≡◌, refl, false, arith, ok, err}
use evukb.Common.Text.{Text}
use evukb.AgentWrite.Request.{Actor, Response}
use evukb.AgentWrite.Approvals.{
  validation_error, Status, applied, is_pending, Approval, Services, World, mark_rows, mark,
  read_pending, apply_and_mark,
}
use evukb.AgentWrite.Approvals.Rows.{marked_row-mark_rows}
use evukb.AgentWrite.Approvals.Laws.{apply_and_mark-ok, read_pending-ok}

module _ {Docs : Type 0} (services : Services Docs) (workspace id : Text) where
  -- An approval that has read the row before another decision was made on it writes all the same,
  -- and then throws.
  late_write :
      (first second : Actor) (s : Status) (a : Approval) (rows : List Approval) (w : World Docs)
      (r : Response) (docs : Docs)
      → is_pending s ≡ false
      → w.approvals ≡ mark_rows workspace id s first rows
      → services.apply_mutation workspace a.actor a.request w.docs ≡ (ok r, docs)
      → apply_and_mark services workspace id second a w
        ≡ (err validation_error, record w { docs = docs })
  unfolding apply_and_mark mark
  late_write first second s a rows w r docs n e q =
      ground (arith, marked_row-mark_rows workspace id s applied first second rows n)

  -- Two approvals read the request while it was pending, the first then finishes, and the second
  -- goes on after it. If the write of the request succeeds on the documents that the first finds,
  -- and once more on those that it leaves, then the second approval throws, and the documents are
  -- those after both writes, for one decision.
  pub approve_twice :
      (first second : Actor) (a : Approval) (w : World Docs) (r t : Response) (once twice : Docs)
      → read_pending services workspace id w ≡ ok a
      → services.apply_mutation workspace a.actor a.request w.docs ≡ (ok r, once)
      → services.apply_mutation workspace a.actor a.request once ≡ (ok t, twice)
      → let w' = (apply_and_mark services workspace id first a w).1 in
        apply_and_mark services workspace id second a w'
        ≡ (err validation_error, record w' { docs = twice })
  approve_twice first second a w r t once twice e p q =
      let (read, waits) = read_pending-ok services workspace id first w a e in
      let done = apply_and_mark-ok services workspace id first w a r once read waits p in
      rw done (late_write first second applied a w.approvals _ t twice refl refl q)
