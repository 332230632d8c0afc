-- ===== src/AgentWrite/ApprovalPolicy/Laws.antt =====
-- What decides whether a write needs an approval.
use evukb.Common.{
  [], ◌∷◌, ◌≡◌, refl, sym, ap, ◌∙◌, ◌⊎◌, inl, arith, any, Option, none, some, if◌then◌else◌,
}
use evukb.Common.Value.{Value, Fields, get, as_object}
use evukb.AgentWrite.ApprovalPolicy.{
  Mode, Key, append, create, update, delete, Policy, CorpusPolicy, default_mutation_approval_policy,
  key_name, read_mode, read_inherit_mode, policy_from, corpus_policy_from,
  parse_mutation_approval_policy, parse_corpus_agent_mutation_approval_policy, is_set, override_at,
  decide_mode, resolve_mutation_approval_mode,
}

-- The mode that a settings value sets for a key, if it is an object that sets one.
abbrev pub set_mode : Key → Value → Option Mode
set_mode key raw = elim (as_object raw) [
  | none ↦ none
  | some input ↦ read_mode (get (key_name key) input)
]

-- The mode where no setting gives one.
abbrev pub unset_mode : Key → Mode
unset_mode append = Mode.never
unset_mode create = Mode.always
unset_mode update = Mode.always
unset_mode delete = Mode.always

-- The first mode that is set: the corpus's, the workspace's, the default.
abbrev pub first_mode : Option Mode → Option Mode → Mode → Mode
first_mode (some mode) workspace default = mode
first_mode none (some mode) default = mode
first_mode none none default = default

decide_mode-first_mode :
    (v : Value) (workspace : Option Mode) (default : Mode)
    → decide_mode (read_inherit_mode v) (first_mode none workspace default)
      ≡ first_mode (read_mode v) workspace default
unfolding read_inherit_mode read_mode
decide_mode-first_mode v workspace default = ground arith

-- A corpus policy without any setting overrides nothing, and neither does one that is dropped.
kept_override :
    (parsed : CorpusPolicy) (key : Key)
    → override_at
        (if any (λ k. is_set (parsed k)) (append ∷ create ∷ update ∷ delete ∷ [])
          then some parsed
          else none)
        key
      ≡ parsed key
kept_override parsed append = ground arith
kept_override parsed create = ground arith
kept_override parsed update = ground arith
kept_override parsed delete = ground arith

policy_from-first_mode :
    (key : Key) (o : Option Fields)
    → (elim o as (λ _. Policy) [
      | none ↦ default_mutation_approval_policy
      | some input ↦ policy_from input
    ])
        key
      ≡ first_mode none
          (elim o [ none ↦ none | some input ↦ read_mode (get (key_name key) input) ])
          (default_mutation_approval_policy key)
policy_from-first_mode key none = refl
policy_from-first_mode key (some input) = ground arith

workspace_mode :
    (key : Key) (raw : Value)
    → parse_mutation_approval_policy raw key
      ≡ first_mode none (set_mode key raw) (default_mutation_approval_policy key)
unfolding parse_mutation_approval_policy
workspace_mode key raw = policy_from-first_mode key (as_object raw)

override_mode :
    (key : Key) (o : Option Fields)
    → override_at (elim o [ none ↦ none | some input ↦ corpus_policy_from input ]) key
      ≡ (elim o [ none ↦ none | some input ↦ read_inherit_mode (get (key_name key) input) ])
override_mode key none = refl
override_mode key (some input) = kept_override (λ k. read_inherit_mode (get (key_name k) input)) key

decide_override :
    (key : Key) (o : Option Fields) (workspace : Option Mode) (default : Mode)
    → decide_mode
        (elim o [ none ↦ none | some input ↦ read_inherit_mode (get (key_name key) input) ])
        (first_mode none workspace default)
      ≡ first_mode
          (elim o [ none ↦ none | some input ↦ read_mode (get (key_name key) input) ])
          workspace
          default
decide_override key none workspace default = refl
decide_override key (some input) workspace default =
    decide_mode-first_mode (get (key_name key) input) workspace default

corpus_mode :
    (key : Key) (corpus : Value) (workspace : Option Mode) (default : Mode)
    → decide_mode
        (override_at (parse_corpus_agent_mutation_approval_policy corpus) key)
        (first_mode none workspace default)
      ≡ first_mode (set_mode key corpus) workspace default
unfolding parse_corpus_agent_mutation_approval_policy
corpus_mode key corpus workspace default =
    ap (λ v. decide_mode v (first_mode none workspace default))
      (override_mode key (as_object corpus))
    ∙ decide_override key (as_object corpus) workspace default

default_mutation_approval_policy-eq-unset_mode :
    (key : Key) → default_mutation_approval_policy key ≡ unset_mode key
default_mutation_approval_policy-eq-unset_mode append = refl
default_mutation_approval_policy-eq-unset_mode create = refl
default_mutation_approval_policy-eq-unset_mode update = refl
default_mutation_approval_policy-eq-unset_mode delete = refl

-- A write's mode is the corpus's setting for its key if that is "always" or "never", else the
-- workspace's setting if that is, else the default: "never" for appending and "always" for
-- creating, updating and deleting. Settings that are no object set nothing.
pub resolve_mutation_approval_mode_lem :
    (key : Key) (workspace corpus : Value)
    → resolve_mutation_approval_mode key workspace corpus
      ≡ first_mode (set_mode key corpus) (set_mode key workspace) (unset_mode key)
unfolding resolve_mutation_approval_mode
resolve_mutation_approval_mode_lem key workspace corpus = rw (workspace_mode key workspace) (
    corpus_mode key corpus (set_mode key workspace) (default_mutation_approval_policy key)
    ∙ ap (first_mode (set_mode key corpus) (set_mode key workspace))
        (default_mutation_approval_policy-eq-unset_mode key))

first_mode-never :
    (key : Key) (corpus workspace : Option Mode)
    → first_mode corpus workspace (unset_mode key) ≡ Mode.never
    → (key ≡ append) ⊎ (corpus ≡ some Mode.never) ⊎ (workspace ≡ some Mode.never)
first_mode-never append corpus workspace e = inl refl
first_mode-never create corpus workspace e = ground arith
first_mode-never update corpus workspace e = ground arith
first_mode-never delete corpus workspace e = ground arith

-- A write that creates, updates or deletes goes through without approval only if a setting of the
-- corpus or of the workspace says "never" for it.
pub never_is_set :
    (key : Key) (workspace corpus : Value)
    → resolve_mutation_approval_mode key workspace corpus ≡ Mode.never
    → (key ≡ append)
      ⊎ (set_mode key corpus ≡ some Mode.never)
      ⊎ (set_mode key workspace ≡ some Mode.never)
never_is_set key workspace corpus e =
    first_mode-never key (set_mode key corpus) (set_mode key workspace)
      (sym (resolve_mutation_approval_mode_lem key workspace corpus) ∙ e)
