-- ===== src/AgentWrite/Approvals/Tests.antt =====
-- A workspace in which every write is logged in the documents, and the theorems about approvals
-- and their policy on it.
use evukb.Common.{ℕ, suc, List, [], ◌∷◌, ◌≡◌, ◌≢◌, refl, none, some, ok, err, All}
use evukb.Common.Text.{Text, codes, text_eq, starts_with}
use evukb.Common.Value.{Value, undefined, object, string, field, end, get, as_object, is_text}
use evukb.AgentWrite.Request.{dev, open_actor, Request, create, done, create_document, action_of}
use evukb.AgentWrite.ApprovalPolicy.{
  Mode, Key, mutation_approval_key, resolve_mutation_approval_mode,
}
use evukb.AgentWrite.ApprovalPolicy.Laws.{set_mode, first_mode, resolve_mutation_approval_mode_lem}
use evukb.AgentWrite.Approvals.{
  Status, validation_error, pending, Approval, Services, World, get_by_id_in_workspace,
  read_pending, apply_and_mark, approve, execute, hold,
}
use evukb.AgentWrite.Approvals.Rows.{IsSound}
use evukb.AgentWrite.Approvals.Laws.{ApproveOutcome, approve_outcome}
use evukb.AgentWrite.Approvals.Final.{
  Call, call_execute, call_approve, after_calls, decision_final, after_calls-IsSound, execute-docs,
}
use evukb.AgentWrite.Approvals.Race.{approve_twice}

approvals_run : Unit {0}
unfolding text_eq starts_with get as_object is_text mutation_approval_key
    resolve_mutation_approval_mode read_pending apply_and_mark approve execute
approvals_run = tt

-- The documents are the number of writes.
abbrev counting : Services ℕ
counting = record {
  corpus_policy = λ w c docs. some undefined;
  workspace_policy = λ w docs. undefined;
  node_at = λ w c n docs. none;
  next_id = λ rows. codes "r";
  apply_mutation = λ w actor request docs. (ok (done (action_of request) none none none), suc docs);
}

abbrev ws : Text
ws = codes "w"

abbrev new_note : Request
new_note = create (codes "c") (codes "agent-notes") (codes "n.md") (codes "text")

abbrev empty_world : World ℕ
empty_world = record { approvals = []; audit = []; docs = 0 }

abbrev held : World ℕ
held = hold counting ws dev new_note empty_world

abbrev row : Approval
row = record {
  id = codes "r";
  workspace_id = ws;
  corpus_id = codes "c";
  status = pending;
  action = create_document;
  request = new_note;
  actor = dev;
  preview = record {
    corpus_id = codes "c";
    action = create_document;
    path = some (codes "agent-notes/n.md");
    node_id = none;
  };
  decided_by = none;
}

row_read : read_pending counting ws (codes "r") held ≡ ok row
unfolding approvals_run
row_read = refl

approve_outcome_example :
    ApproveOutcome counting ws
      (codes "r")
      open_actor
      held
      (approve counting ws (codes "r") open_actor held)
approve_outcome_example = approve_outcome counting ws (codes "r") open_actor held

approve_twice_example :
    let w' = (apply_and_mark counting ws (codes "r") dev row held).1 in
    apply_and_mark counting ws (codes "r") open_actor row w'
    ≡ (err validation_error, record w' { docs = 2 })
approve_twice_example =
    approve_twice counting ws (codes "r") dev open_actor row held
      (done create_document none none none) (done create_document none none none) 1 2 row_read refl
      refl

abbrev decided_world : World ℕ
decided_world = (approve counting ws (codes "r") open_actor held).1

abbrev decided_row : Approval
decided_row = record row { status = Status.applied; decided_by = some open_actor }

decided_read : get_by_id_in_workspace ws (codes "r") decided_world.approvals ≡ some decided_row
unfolding approvals_run
decided_read = refl

abbrev later_calls : List Call
later_calls = call_approve ws (codes "r") dev ∷ call_execute ws dev new_note ∷ []

decision_final_example :
    get_by_id_in_workspace ws (codes "r") (after_calls counting later_calls decided_world).approvals
    ≡ some decided_row
decision_final_example =
    decision_final counting later_calls decided_world ws (codes "r") decided_row decided_read refl

after_calls-IsSound_example : All IsSound (after_calls counting later_calls empty_world).approvals
after_calls-IsSound_example = after_calls-IsSound counting later_calls empty_world tt

unset : (key : Key) → set_mode key undefined ≢ some Mode.never
unfolding as_object
unset key = cc

create_key : mutation_approval_key create_document ≢ Key.append
unfolding mutation_approval_key
create_key = cc

execute-docs_example : (execute counting ws dev new_note empty_world).1 ≡ held
execute-docs_example =
    execute-docs counting ws dev new_note undefined empty_world refl create_key
      (unset (mutation_approval_key create_document))
      (unset (mutation_approval_key create_document))

abbrev no_updates : Value
no_updates = object (field (codes "update") (string (codes "never")) end)

resolve_mutation_approval_mode_lem_example :
    resolve_mutation_approval_mode Key.update no_updates undefined
    ≡ first_mode (set_mode Key.update undefined) (set_mode Key.update no_updates) Mode.always
resolve_mutation_approval_mode_lem_example =
    resolve_mutation_approval_mode_lem Key.update no_updates undefined
