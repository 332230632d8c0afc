-- ===== src/AgentWrite/Approvals.antt =====
-- packages/kb-server/src/services/mutation-approval-service.ts over the table of
-- packages/kb-db/src/repositories/mutation-approval-repository.ts: requests that wait for a
-- decision, and what approving and rejecting them does. The table is a list of rows in the order
-- of insertion. What the service calls and does not implement is in `Services`: the corpus and
-- workspace settings, the nodes, the ids and the write itself, on a store of documents.
pub mod Rows
mod Tests
pub mod Laws
pub mod Final
pub mod Race
use evukb.Common.{
  ℕ, List, [], ◌∷◌, ◌++◌, Bool, true, false, ◌&&◌, ◌==◌, if◌then◌else◌, Option, none, some, Result,
  ok, err,
}
use evukb.Common.Text.{Text, text_eq, truthy, drop_leading}
use evukb.Common.Value.{Value}
use evukb.Storage.Posix.{slash}
use evukb.AgentWrite.Request.{
  Action, Actor, Request, append, create, update, delete, Preview, Response, pending_approval,
  action_of, corpus_of,
}
use evukb.AgentWrite.ApprovalPolicy.{
  Mode, mutation_approval_key, resolve_mutation_approval_mode, build_mutation_approval_preview,
}

-- The errors that the service throws, and those of the write.
pub data ApiError : Type 0 where
  corpus_not_found node_not_found not_found validation_error forbidden_error other_error : ApiError

pub data Status : Type 0 where
  pending rejected applied : Status

abbrev pub is_pending : Status → Bool
is_pending pending = true
is_pending _ = false

pub record Approval : Type 0 where
  pub id : Text
  pub workspace_id : Text
  pub corpus_id : Text
  pub status : Status
  pub action : Action
  pub request : Request
  pub actor : Actor
  pub preview : Preview
  pub decided_by : Option Actor

pub data Event : Type 0 where
  requested applied_event rejected_event : Event

pub record Audit : Type 0 where
  pub workspace_id : Text
  pub event : Event
  pub actor : Actor
  pub approval_id : Text

-- A node, as far as its path goes.
pub record NodePath : Type 0 where
  pub path : Text
  pub name : Text

pub record Services (Docs : Type 0) : Type 0 where
  pub corpus_policy : Text → Text → Docs → Option Value
  pub workspace_policy : Text → Docs → Value
  pub node_at : Text → Text → Text → Docs → Option NodePath
  pub next_id : List Approval → Text
  pub apply_mutation : Text → Actor → Request → Docs → Result ApiError Response × Docs

pub record World (Docs : Type 0) : Type 0 where
  pub approvals : List Approval
  pub audit : List Audit
  pub docs : Docs

-- The rows that the repository's queries select.
abbrev pub is_row : Text → Text → Approval → Bool
is_row workspace id a = text_eq a.workspace_id workspace && text_eq a.id id

unfoldable pub get_by_id_in_workspace : Text → Text → List Approval → Option Approval
get_by_id_in_workspace workspace id [] = none
get_by_id_in_workspace workspace id (a ∷ rows) =
    if is_row workspace id a then some a else get_by_id_in_workspace workspace id rows

-- UPDATE … WHERE id, workspace and status = 'pending', for both `markApplied` and `markRejected`.
abbrev pub decide_row : Text → Text → Status → Actor → Approval → Approval
decide_row workspace id status decider a =
    if is_row workspace id a && is_pending a.status
    then record a { status = status; decided_by = some decider }
    else a

unfoldable pub mark_rows : Text → Text → Status → Actor → List Approval → List Approval
mark_rows workspace id status decider [] = []
mark_rows workspace id status decider (a ∷ rows) =
    decide_row workspace id status decider a ∷ mark_rows workspace id status decider rows

-- RETURNING: the first row that the update changes, as changed.
unfoldable pub marked_row : Text → Text → Status → Actor → List Approval → Option Approval
marked_row workspace id status decider [] = none
marked_row workspace id status decider (a ∷ rows) =
    if is_row workspace id a && is_pending a.status
    then some (decide_row workspace id status decider a)
    else marked_row workspace id status decider rows

-- The filter of `listPending`; its order is the newest first, and its limit is not modelled here.
unfoldable pub list_pending : Text → List Approval → List Approval
list_pending workspace [] = []
list_pending workspace (a ∷ rows) =
    let rest = list_pending workspace rows in
    if text_eq a.workspace_id workspace && is_pending a.status then a ∷ rest else rest

module _ {Docs : Type 0} (services : Services Docs) where
  -- An action of the service: what it returns or throws, and the state that it leaves.
  abbrev pub Step : Type 0 → Type 0
  Step A = World Docs → Result ApiError A × World Docs

  -- `node.path ? `${node.path}/${node.name}` : node.name`, of a node that may be missing
  abbrev pub full_path : Option NodePath → Option Text
  full_path none = none
  full_path (some n) = some (if truthy n.path then n.path ++ slash ∷ n.name else n.name)

  unfoldable pub build_preview : Text → Request → Docs → Preview
  unfolding build_mutation_approval_preview drop_leading
  build_preview workspace (append c p b) docs = build_mutation_approval_preview (append c p b) none
  build_preview workspace (create c p n b) docs =
      build_mutation_approval_preview (create c p n b)
        (some (if truthy p then drop_leading (λ d. d == slash) (p ++ slash ∷ n) else n))
  build_preview workspace (update c n b) docs =
      build_mutation_approval_preview (update c n b)
        (full_path (services.node_at workspace c n docs))
  build_preview workspace (delete c n) docs =
      build_mutation_approval_preview (delete c n) (full_path (services.node_at workspace c n docs))

  abbrev pub new_approval : Text → Actor → Request → World Docs → Approval
  new_approval workspace actor request w = record {
    id = services.next_id w.approvals;
    workspace_id = workspace;
    corpus_id = corpus_of request;
    status = pending;
    action = action_of request;
    request = request;
    actor = actor;
    preview = build_preview workspace request w.docs;
    decided_by = none;
  }

  -- `createPending` and the audit entry of `maybeGateWrite`.
  abbrev pub hold : Text → Actor → Request → World Docs → World Docs
  hold workspace actor request w =
      let row = new_approval workspace actor request w in
      record w {
        approvals = w.approvals ++ row ∷ [];
        audit =
            w.audit
            ++ record {
              workspace_id = workspace;
              event = requested;
              actor = actor;
              approval_id = row.id;
            }
              ∷ [];
      }

  unfoldable pub maybe_gate_write : Text → Actor → Request → Step (Option Response)
  unfolding build_preview
  maybe_gate_write workspace actor request w =
      elim (services.corpus_policy workspace (corpus_of request) w.docs) [
        | none ↦ (err corpus_not_found, w)
        | some policy ↦
            elim (resolve_mutation_approval_mode (mutation_approval_key (action_of request))
              (services.workspace_policy workspace w.docs) policy) [
                | Mode.never ↦ (ok none, w)
                | Mode.always ↦ (
                  ok (
                      some (
                        pending_approval (services.next_id w.approvals)
                          (build_preview workspace request w.docs))),
                  hold workspace actor request w,
                )
              ]
      ]

  abbrev pub run_mutation : Text → Actor → Request → Step Response
  run_mutation workspace actor request w =
      let (result, docs) = services.apply_mutation workspace actor request w.docs in
      (result, record w { docs = docs })

  -- `AgentWriteService.execute`, with an approval service.
  unfoldable pub execute : Text → Actor → Request → Step Response
  unfolding maybe_gate_write
  execute workspace actor request w =
      let (gate, w') = maybe_gate_write workspace actor request w in
      elim gate [
        | err e ↦ (err e, w')
        | ok (some response) ↦ (ok response, w')
        | ok none ↦ run_mutation workspace actor request w'
      ]

  -- The first part of `approve` and `reject`: the row, if it is there and still pending.
  unfoldable pub read_pending : Text → Text → World Docs → Result ApiError Approval
  unfolding get_by_id_in_workspace
  read_pending workspace id w = elim (get_by_id_in_workspace workspace id w.approvals) [
    | none ↦ err not_found
    | some a ↦ if is_pending a.status then ok a else err validation_error
  ]

  -- The last part of `approve` and `reject`: the conditional update and the audit entry.
  unfoldable pub mark : Text → Text → Status → Event → Actor → Step Approval
  unfolding mark_rows marked_row
  mark workspace id status event decider w =
      elim (marked_row workspace id status decider w.approvals) [
        | none ↦ (err validation_error, w)
        | some row ↦ (
          ok row,
          record w {
            approvals = mark_rows workspace id status decider w.approvals;
            audit =
                w.audit
                ++ record {
                  workspace_id = workspace;
                  event = event;
                  actor = decider;
                  approval_id = id;
                }
                  ∷ [];
          },
        )
      ]

  -- What `approve` does between reading the row and returning: the write comes first.
  abbrev pub finish :
      Response → Result ApiError Approval × World Docs → Result ApiError Response × World Docs
  finish response (ok row, w) = (ok response, w)
  finish response (err e, w) = (err e, w)

  unfoldable pub apply_and_mark : Text → Text → Actor → Approval → Step Response
  unfolding mark
  apply_and_mark workspace id decider a w =
      let (result, w') = run_mutation workspace a.actor a.request w in
      elim result [
        | err e ↦ (err e, w')
        | ok response ↦ finish response (mark workspace id applied applied_event decider w')
      ]

  unfoldable pub approve : Text → Text → Actor → Step Response
  unfolding read_pending apply_and_mark
  approve workspace id decider w = elim (read_pending workspace id w) [
    | err e ↦ (err e, w)
    | ok a ↦ apply_and_mark workspace id decider a w
  ]

  unfoldable pub reject : Text → Text → Actor → Step Approval
  unfolding read_pending mark
  reject workspace id decider w = elim (read_pending workspace id w) [
    | err e ↦ (err e, w)
    | ok a ↦ mark workspace id rejected rejected_event decider w
  ]
