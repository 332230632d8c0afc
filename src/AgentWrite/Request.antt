-- ===== src/AgentWrite/Request.antt =====
-- packages/kb-core/src/agent-write/types.ts: the write requests of agents and their answers.
use evukb.Common.{ℕ, Bool, true, false, Option}
use evukb.Common.Text.{Text}

pub data Action : Type 0 where
  append_document create_document update_document delete_document : Action

pub data Actor : Type 0 where
  mcp_token api_key : Text → Actor
  dev open_actor : Actor

pub data Request : Type 0 where
  append : (corpus_id path body : Text) → Request
  create : (corpus_id path name body : Text) → Request
  update : (corpus_id node_id body : Text) → Request
  delete : (corpus_id node_id : Text) → Request

abbrev pub action_of : Request → Action
action_of (append _ _ _) = append_document
action_of (create _ _ _ _) = create_document
action_of (update _ _ _) = update_document
action_of (delete _ _) = delete_document

abbrev pub corpus_of : Request → Text
corpus_of (append c _ _) = c
corpus_of (create c _ _ _) = c
corpus_of (update c _ _) = c
corpus_of (delete c _) = c

pub record Preview : Type 0 where
  pub corpus_id : Text
  pub action : Action
  pub path : Option Text
  pub node_id : Option Text

-- `KbWriteToolSuccessResponse` and `KbToolPendingApprovalResponse`.
pub data Response : Type 0 where
  done : Action → (node_id path : Option Text) → (deleted : Option ℕ) → Response
  pending_approval : (approval_id : Text) → Preview → Response

pub is_kb_tool_pending_approval : Response → Bool
is_kb_tool_pending_approval (done _ _ _ _) = false
is_kb_tool_pending_approval (pending_approval _ _) = true
