-- ===== src/AgentWrite/Approvals/Final.antt =====
-- Any sequence of calls: rows are added as pending and decided once.
use evukb.Common.{
  List, [], ◌∷◌, ◌++◌, ◌≡◌, refl, ap, ◌∙◌, ◌≢◌, false, arith, Option, none, some, Result, ok, err,
  All, All-append,
}
use evukb.Common.Text.{Text}
use evukb.Common.Value.{Value}
use evukb.AgentWrite.Request.{Actor, Request, Response, action_of, corpus_of}
use evukb.AgentWrite.ApprovalPolicy.{
  Mode, append, mutation_approval_key, resolve_mutation_approval_mode,
}
use evukb.AgentWrite.ApprovalPolicy.Laws.{set_mode, never_is_set}
use evukb.AgentWrite.Approvals.{
  ApiError, Status, pending, rejected, applied, is_pending, Approval, rejected_event, Services,
  World, get_by_id_in_workspace, mark_rows, execute, read_pending, mark, approve, reject,
  run_mutation, hold, new_approval,
}
use evukb.AgentWrite.Approvals.Rows.{get-mark_rows, get-append, IsSound, mark_rows-IsSound}
use evukb.AgentWrite.Approvals.Laws.{ApproveOutcome, approve_outcome, read_pending-ok, mark_pending}

-- What one call does to the table.
data Change (before : List Approval) : List Approval → Type 0 where
  same : {after : List Approval} → after ≡ before → Change before after
  added :
      {after : List Approval} (row : Approval)
      → row.status ≡ pending
      → row.decided_by ≡ none
      → after ≡ before ++ row ∷ []
      → Change before after
  decided :
      {after : List Approval} (workspace id : Text) (s : Status) (d : Actor)
      → is_pending s ≡ false
      → after ≡ mark_rows workspace id s d before
      → Change before after

Change-stays :
    {before after : List Approval} (workspace id : Text) (a : Approval)
    → Change before after
    → get_by_id_in_workspace workspace id before ≡ some a
    → is_pending a.status ≡ false
    → get_by_id_in_workspace workspace id after ≡ some a
Change-stays workspace id a (same e) g n = rw e g
Change-stays {before} workspace id a (added row p q e) g n =
    rw e (get-append workspace id before (row ∷ []) a g)
Change-stays {before} workspace id a (decided ws i s d m e) g n =
    rw e (get-mark_rows ws i s d workspace id before ∙ ground arith)

Change-IsSound :
    {before after : List Approval} → Change before after → All IsSound before → All IsSound after
Change-IsSound (same e) h = rw e h
Change-IsSound {before} (added row p q e) h =
    rw e (All-append IsSound before (row ∷ []) h (ground arith, tt))
Change-IsSound {before} (decided ws i s d m e) h = rw e (mark_rows-IsSound ws i s d before m h)

pub data Call : Type 0 where
  call_execute : (workspace : Text) → Actor → Request → Call
  call_approve call_reject : (workspace id : Text) → Actor → Call

module _ {Docs : Type 0} (services : Services Docs) where
  -- The state after a call, whether it returns or throws.
  pub after_call : Call → World Docs → World Docs
  after_call (call_execute workspace actor request) w =
      (execute services workspace actor request w).1
  after_call (call_approve workspace id decider) w = (approve services workspace id decider w).1
  after_call (call_reject workspace id decider) w = (reject services workspace id decider w).1

  pub after_calls : List Call → World Docs → World Docs
  after_calls [] w = w
  after_calls (c ∷ cs) w = after_calls cs (after_call c w)

  approve-Change :
      (workspace id : Text) (d : Actor) (w : World Docs)
      → Change w.approvals (approve services workspace id d w).1.approvals
  approve-Change workspace id d w =
      go (approve services workspace id d w) (approve_outcome services workspace id d w)
    where
      go :
          (out : Result ApiError Response × World Docs)
          → ApproveOutcome services workspace id d w out
          → Change w.approvals out.1.approvals
      go (ok r, w') h = decided workspace id applied d refl h.marked
      go (err e, w') h = same h.approvals

  reject-Change :
      (workspace id : Text) (d : Actor) (w : World Docs)
      → Change w.approvals (reject services workspace id d w).1.approvals
  unfolding reject
  reject-Change workspace id d w = go (read_pending services workspace id w) refl
    where
      go :
          (r : Result ApiError Approval)
          → read_pending services workspace id w ≡ r
          → Change w.approvals (
              let out : Result ApiError Approval × World Docs = elim r [
                | err e ↦ (err e, w)
                | ok a ↦ mark services workspace id rejected rejected_event d w
              ] in
              out.1.approvals)
      go (err x) e = same refl
      go (ok a) e =
          let (read, waits) = read_pending-ok services workspace id d w a e in
          decided workspace id rejected d refl (
            ap (λ (o : Result ApiError Approval × World Docs). o.1.approvals)
              (mark_pending services workspace id d w a rejected rejected_event read waits))

  abbrev mode_of : Text → Request → Value → World Docs → Mode
  mode_of workspace request policy w =
      resolve_mutation_approval_mode (mutation_approval_key (action_of request))
        (services.workspace_policy workspace w.docs) policy

  -- The branches of `execute`.
  execute-missing :
      (workspace : Text) (actor : Actor) (request : Request) (w : World Docs)
      → services.corpus_policy workspace (corpus_of request) w.docs ≡ none
      → (execute services workspace actor request w).1 ≡ w
  unfolding execute
  execute-missing workspace actor request w e = ground arith

  execute-never :
      (workspace : Text) (actor : Actor) (request : Request) (policy : Value) (w : World Docs)
      → services.corpus_policy workspace (corpus_of request) w.docs ≡ some policy
      → mode_of workspace request policy w ≡ Mode.never
      → execute services workspace actor request w ≡ run_mutation services workspace actor request w
  unfolding execute
  execute-never workspace actor request policy w e m = ground arith

  execute-always :
      (workspace : Text) (actor : Actor) (request : Request) (policy : Value) (w : World Docs)
      → services.corpus_policy workspace (corpus_of request) w.docs ≡ some policy
      → mode_of workspace request policy w ≡ Mode.always
      → (execute services workspace actor request w).1 ≡ hold services workspace actor request w
  unfolding execute
  execute-always workspace actor request policy w e m = ground arith

  execute-Change :
      (workspace : Text) (actor : Actor) (request : Request) (w : World Docs)
      → Change w.approvals (execute services workspace actor request w).1.approvals
  execute-Change workspace actor request w =
      go (services.corpus_policy workspace (corpus_of request) w.docs) refl
    where
      by_mode :
          (policy : Value)
          → services.corpus_policy workspace (corpus_of request) w.docs ≡ some policy
          → (m : Mode) → mode_of workspace request policy w ≡ m
          → Change w.approvals (execute services workspace actor request w).1.approvals
      by_mode policy e Mode.never m = same (
          ap (λ (o : Result ApiError Response × World Docs). o.1.approvals)
            (execute-never workspace actor request policy w e m))
      by_mode policy e Mode.always m =
          added (new_approval services workspace actor request w) refl refl (
            ap (λ (v : World Docs). v.approvals)
              (execute-always workspace actor request policy w e m))

      go :
          (o : Option Value)
          → services.corpus_policy workspace (corpus_of request) w.docs ≡ o
          → Change w.approvals (execute services workspace actor request w).1.approvals
      go none e =
          same (ap (λ (v : World Docs). v.approvals) (execute-missing workspace actor request w e))
      go (some policy) e = by_mode policy e (mode_of workspace request policy w) refl

  after_call-Change : (c : Call) (w : World Docs) → Change w.approvals (after_call c w).approvals
  unfolding after_call
  after_call-Change (call_execute workspace actor request) w =
      execute-Change workspace actor request w
  after_call-Change (call_approve workspace id d) w = approve-Change workspace id d w
  after_call-Change (call_reject workspace id d) w = reject-Change workspace id d w

  -- A decision is final: a row that is not pending is read back unchanged after any calls.
  pub decision_final :
      (calls : List Call) (w : World Docs) (workspace id : Text) (a : Approval)
      → get_by_id_in_workspace workspace id w.approvals ≡ some a
      → is_pending a.status ≡ false
      → get_by_id_in_workspace workspace id (after_calls calls w).approvals ≡ some a
  unfolding after_calls
  decision_final [] w workspace id a g n = g
  decision_final (c ∷ cs) w workspace id a g n =
      decision_final cs (after_call c w) workspace id a
        (Change-stays workspace id a (after_call-Change c w) g n) n

  -- After any calls, a row is pending exactly as long as nobody has decided it, if that held before.
  pub after_calls-IsSound :
      (calls : List Call) (w : World Docs)
      → All IsSound w.approvals
      → All IsSound (after_calls calls w).approvals
  unfolding after_calls
  after_calls-IsSound [] w h = h
  after_calls-IsSound (c ∷ cs) w h =
      after_calls-IsSound cs (after_call c w) (Change-IsSound (after_call-Change c w) h)

  -- A request that creates, updates or deletes changes no document at once, and waits for its
  -- approval, unless a setting of the corpus or of the workspace says "never" for its key.
  pub execute-docs :
      (workspace : Text) (actor : Actor) (request : Request) (policy : Value) (w : World Docs)
      → services.corpus_policy workspace (corpus_of request) w.docs ≡ some policy
      → mutation_approval_key (action_of request) ≢ append
      → set_mode (mutation_approval_key (action_of request)) policy ≢ some Mode.never
      → set_mode
          (mutation_approval_key (action_of request))
          (services.workspace_policy workspace w.docs)
        ≢ some Mode.never
      → (execute services workspace actor request w).1 ≡ hold services workspace actor request w
  execute-docs workspace actor request policy w e k c s =
      go (mode_of workspace request policy w) refl
    where
      go :
          (m : Mode)
          → mode_of workspace request policy w ≡ m
          → (execute services workspace actor request w).1 ≡ hold services workspace actor request w
      go Mode.always m = execute-always workspace actor request policy w e m
      go Mode.never m = ground (
        arith,
        never_is_set (mutation_approval_key (action_of request))
            (services.workspace_policy workspace w.docs) policy m,
      )
