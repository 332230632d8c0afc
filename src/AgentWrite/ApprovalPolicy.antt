-- ===== src/AgentWrite/ApprovalPolicy.antt =====
-- packages/kb-core/src/agent-write/approval-policy.ts: which writes of agents need an approval,
-- by the workspace's policy and the corpus's overrides.
pub mod Laws
use evukb.Common.{
  List, [], ◌∷◌, ◌++◌, Bool, true, false, ◌==◌, if◌then◌else◌, Option, none, some, any,
}
use evukb.Common.Text.{Text, codes, text_eq}
use evukb.Common.Value.{Value, undefined, Fields, get, entries, as_object, is_text}
use evukb.Storage.Posix.{slash}
use evukb.AgentWrite.Request.{
  Action, append_document, create_document, update_document, delete_document, Request, Preview,
  action_of,
}

pub data Mode : Type 0 where
  always never : Mode

pub data InheritMode : Type 0 where
  always never inherit : InheritMode

pub data Key : Type 0 where
  append create update delete : Key

-- `MutationApprovalPolicy` is a mode for each key.
abbrev pub Policy : Type 0
Policy = Key → Mode

-- `CorpusAgentMutationApprovalPolicy`: some keys may be missing.
abbrev pub CorpusPolicy : Type 0
CorpusPolicy = Key → Option InheritMode

abbrev pub default_mutation_approval_policy : Policy
default_mutation_approval_policy append = Mode.never
default_mutation_approval_policy create = Mode.always
default_mutation_approval_policy update = Mode.always
default_mutation_approval_policy delete = Mode.always

abbrev pub key_name : Key → Text
key_name append = codes "append"
key_name create = codes "create"
key_name update = codes "update"
key_name delete = codes "delete"

unfoldable pub mutation_approval_key : Action → Key
mutation_approval_key append_document = append
mutation_approval_key create_document = create
mutation_approval_key update_document = update
mutation_approval_key delete_document = delete

unfoldable pub read_mode : Value → Option Mode
read_mode v =
    if is_text v (codes "always")
    then some Mode.always
    else if is_text v (codes "never")
    then some Mode.never
    else none

unfoldable pub read_inherit_mode : Value → Option InheritMode
read_inherit_mode v =
    if is_text v (codes "always")
    then some InheritMode.always
    else if is_text v (codes "never")
    then some InheritMode.never
    else if is_text v (codes "inherit")
    then some InheritMode.inherit
    else none

-- The policy of an object: the default for what it does not set.
abbrev pub policy_from : Fields → Policy
policy_from input key = elim (read_mode (get (key_name key) input)) [
  | none ↦ default_mutation_approval_policy key
  | some mode ↦ mode
]

unfoldable pub parse_mutation_approval_policy : Value → Policy
unfolding read_mode
parse_mutation_approval_policy raw = elim (as_object raw) [
  | none ↦ default_mutation_approval_policy
  | some input ↦ policy_from input
]

abbrev pub is_set : Option InheritMode → Bool
is_set none = false
is_set (some _) = true

abbrev pub corpus_policy_from : Fields → Option CorpusPolicy
corpus_policy_from input =
    let parsed : CorpusPolicy = λ key. read_inherit_mode (get (key_name key) input) in
    if any (λ key. is_set (parsed key)) (append ∷ create ∷ update ∷ delete ∷ [])
    then some parsed
    else none

unfoldable pub parse_corpus_agent_mutation_approval_policy : Value → Option CorpusPolicy
unfolding read_inherit_mode
parse_corpus_agent_mutation_approval_policy raw = elim (as_object raw) [
  | none ↦ none
  | some input ↦ corpus_policy_from input
]

-- `corpusOverride?.[key]`
abbrev pub override_at : Option CorpusPolicy → Key → Option InheritMode
override_at none key = none
override_at (some policy) key = policy key

abbrev pub decide_mode : Option InheritMode → Mode → Mode
decide_mode (some InheritMode.always) workspace = Mode.always
decide_mode (some InheritMode.never) workspace = Mode.never
decide_mode (some InheritMode.inherit) workspace = workspace
decide_mode none workspace = workspace

-- The values are `workspaceSettings.mutationApprovalPolicy` and
-- `corpusSettings?.agentMutationApprovalPolicy`.
unfoldable pub resolve_mutation_approval_mode : Key → Value → Value → Mode
unfolding parse_mutation_approval_policy parse_corpus_agent_mutation_approval_policy
resolve_mutation_approval_mode key workspace_policy corpus_policy =
    decide_mode (override_at (parse_corpus_agent_mutation_approval_policy corpus_policy) key)
      (parse_mutation_approval_policy workspace_policy key)

-- The messages of the validators; a key is named in them.
pub data PolicyMessage : Type 0 where
  must_be_object : PolicyMessage
  unsupported_key bad_mode : Text → PolicyMessage

unfoldable pub is_approval_key : Text → Bool
is_approval_key k =
    any (text_eq k) (codes "append" ∷ codes "create" ∷ codes "update" ∷ codes "delete" ∷ [])

-- The loop of both validators, over the accepted modes.
unfoldable pub validate_entries : (Value → Bool) → List (Text × Value) → Option PolicyMessage
unfolding is_approval_key
validate_entries accepted [] = none
validate_entries accepted ((k, v) ∷ rest) =
    let later = validate_entries accepted rest in
    if is_approval_key k
    then (if accepted v then later else some (bad_mode k))
    else some (unsupported_key k)

abbrev pub is_mode : Value → Bool
is_mode v = elim (read_mode v) [ none ↦ false | some _ ↦ true ]

abbrev pub is_inherit_mode : Value → Bool
is_inherit_mode v = elim (read_inherit_mode v) [ none ↦ false | some _ ↦ true ]

abbrev pub validate_object : (Value → Bool) → Value → Option PolicyMessage
validate_object accepted raw = elim (as_object raw) [
  | none ↦ some must_be_object
  | some input ↦ validate_entries accepted (entries input)
]

unfoldable pub validate_mutation_approval_policy : Value → Option PolicyMessage
unfolding validate_entries read_mode
validate_mutation_approval_policy undefined = none
validate_mutation_approval_policy raw = validate_object is_mode raw

unfoldable pub validate_corpus_agent_mutation_approval_policy : Value → Option PolicyMessage
unfolding validate_entries read_inherit_mode
validate_corpus_agent_mutation_approval_policy undefined = none
validate_corpus_agent_mutation_approval_policy raw = validate_object is_inherit_mode raw

-- text.replace(/^\//, '')
abbrev pub drop_slash : Text → Text
drop_slash [] = []
drop_slash (c ∷ t) = if c == slash then t else c ∷ t

unfoldable pub build_mutation_approval_preview : Request → Option Text → Preview
build_mutation_approval_preview (Request.append corpus path body) resolved = record {
  corpus_id = corpus;
  action = append_document;
  path = some path;
  node_id = none;
}
build_mutation_approval_preview (Request.create corpus path name body) resolved = record {
  corpus_id = corpus;
  action = create_document;
  path = elim resolved [ none ↦ some (drop_slash (path ++ slash ∷ name)) | some p ↦ some p ];
  node_id = none;
}
build_mutation_approval_preview (Request.update corpus node body) resolved = record {
  corpus_id = corpus;
  action = update_document;
  path = elim resolved [ none ↦ none | some [] ↦ none | some (c ∷ t) ↦ some (c ∷ t) ];
  node_id = some node;
}
build_mutation_approval_preview (Request.delete corpus node) resolved = record {
  corpus_id = corpus;
  action = delete_document;
  path = elim resolved [ none ↦ none | some [] ↦ none | some (c ∷ t) ↦ some (c ∷ t) ];
  node_id = some node;
}
