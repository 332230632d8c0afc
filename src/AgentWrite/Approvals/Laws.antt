-- ===== src/AgentWrite/Approvals/Laws.antt =====
-- What a decision does, and that it is final.
use evukb.Common.{[], ◌∷◌, ◌++◌, ◌≡◌, refl, true, arith, some, Result, ok, err}
use evukb.Common.Text.{Text}
use evukb.AgentWrite.Request.{Actor, Response}
use evukb.AgentWrite.Approvals.{
  ApiError, Status, applied, is_pending, Approval, Audit, Event, applied_event, Services, World,
  get_by_id_in_workspace, mark_rows, read_pending, mark, apply_and_mark, approve,
}
use evukb.AgentWrite.Approvals.Rows.{marked_row-pending}

module _ {Docs : Type 0} (services : Services Docs) (workspace id : Text) (decider : Actor) where
  -- An approval that returns: the row was pending, its own request was written with its own actor,
  -- and then it was marked, and nothing else changed but the audit log.
  pub record Approved (w : World Docs) (r : Response) (w' : World Docs) : Type 0 where
    pub row : Approval
    pub was_read : get_by_id_in_workspace workspace id w.approvals ≡ some row
    pub was_pending : is_pending row.status ≡ true
    pub written : services.apply_mutation workspace row.actor row.request w.docs ≡ (ok r, w'.docs)
    pub marked : w'.approvals ≡ mark_rows workspace id applied decider w.approvals

  -- An approval that throws has decided nothing: every row and the log are as before.
  pub record Undecided (w w' : World Docs) : Type 0 where
    pub approvals : w'.approvals ≡ w.approvals
    pub audit : w'.audit ≡ w.audit

  abbrev pub ApproveOutcome : World Docs → Result ApiError Response × World Docs → Type 0
  ApproveOutcome w (ok r, w') = Approved w r w'
  ApproveOutcome w (err e, w') = Undecided w w'

  abbrev pub decided_entry : Event → Audit
  decided_entry event = record {
    workspace_id = workspace;
    event = event;
    actor = decider;
    approval_id = id;
  }

  pub mark_pending :
      (w : World Docs) (a : Approval) (s : Status) (event : Event)
      → get_by_id_in_workspace workspace id w.approvals ≡ some a
      → is_pending a.status ≡ true
      → mark services workspace id s event decider w ≡ (
        ok (record a { status = s; decided_by = some decider }),
        record w {
          approvals = mark_rows workspace id s decider w.approvals;
          audit = w.audit ++ decided_entry event ∷ [];
        },
      )
  unfolding mark
  mark_pending w a s event e p =
      ground (arith, marked_row-pending workspace id s decider w.approvals a e p)

  pub apply_and_mark-ok :
      (w : World Docs) (a : Approval) (r : Response) (docs : Docs)
      → get_by_id_in_workspace workspace id w.approvals ≡ some a
      → is_pending a.status ≡ true
      → services.apply_mutation workspace a.actor a.request w.docs ≡ (ok r, docs)
      → apply_and_mark services workspace id decider a w ≡ (
        ok r,
        record w {
          approvals = mark_rows workspace id applied decider w.approvals;
          audit = w.audit ++ decided_entry applied_event ∷ [];
          docs = docs;
        },
      )
  unfolding apply_and_mark
  apply_and_mark-ok w a r docs e p q =
      ground (arith, mark_pending (record w { docs = docs }) a applied applied_event e p)

  apply_and_mark-err :
      (w : World Docs) (a : Approval) (x : ApiError) (docs : Docs)
      → services.apply_mutation workspace a.actor a.request w.docs ≡ (err x, docs)
      → apply_and_mark services workspace id decider a w ≡ (err x, record w { docs = docs })
  unfolding apply_and_mark
  apply_and_mark-err w a x docs q = ground arith

  apply_and_mark_outcome :
      (w : World Docs) (a : Approval) (out : Result ApiError Response × Docs)
      → get_by_id_in_workspace workspace id w.approvals ≡ some a
      → is_pending a.status ≡ true
      → services.apply_mutation workspace a.actor a.request w.docs ≡ out
      → ApproveOutcome w (apply_and_mark services workspace id decider a w)
  apply_and_mark_outcome w a (ok r, docs) e p q =
      rw (apply_and_mark-ok w a r docs e p q)
        (record { row = a; was_read = e; was_pending = p; written = q; marked = refl })
  apply_and_mark_outcome w a (err x, docs) e p q =
      rw (apply_and_mark-err w a x docs q) (record { approvals = refl; audit = refl })

  pub read_pending-ok :
      (w : World Docs) (a : Approval)
      → read_pending services workspace id w ≡ ok a
      → (get_by_id_in_workspace workspace id w.approvals ≡ some a) × (is_pending a.status ≡ true)
  unfolding read_pending
  read_pending-ok w a e = ground arith

  -- An approval either runs the pending request with its own actor on the documents, and marks
  -- the row; or it throws, and then no row and no entry of the log has changed: a write that
  -- fails leaves its request pending.
  pub approve_outcome :
      (w : World Docs) → ApproveOutcome w (approve services workspace id decider w)
  unfolding approve
  approve_outcome w = go (read_pending services workspace id w) refl
    where
      go :
          (r : Result ApiError Approval)
          → read_pending services workspace id w ≡ r
          → ApproveOutcome w (elim r [
            | err e ↦ (err e, w)
            | ok a ↦ apply_and_mark services workspace id decider a w
          ])
      go (err x) e = record { approvals = refl; audit = refl }
      go (ok a) e =
          let (read, waits) = read_pending-ok w a e in
          apply_and_mark_outcome w a (services.apply_mutation workspace a.actor a.request w.docs)
            read waits refl
