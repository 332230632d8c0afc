-- ===== src/AgentWrite/PathPolicy/Effective.antt =====
-- Under which prefixes of its three layers a prefix lies that `resolveAgentWritePathPrefixes` returns.
use evukb.Common.{List, [], ◌∷◌, ◌≡◌, ◌⊎◌, true, any, Option, none, some, ok}
use evukb.Common.Text.{Text, text_eq}
use evukb.AgentWrite.PathPolicy.{Layers, normalize_all, workspace_layer}
use evukb.AgentWrite.PathPolicy.Guard.{UnderSome}

-- One of the prefixes, or under the normal form of one.
abbrev pub InSome : List Text → Text → Type 0
InSome ps q = (any (text_eq q) ps ≡ true) ⊎ UnderSome ps q

-- A layer without prefixes sets no limit; another allows what lies under one of its prefixes.
abbrev pub UnderLayer : Option (List Text) → Text → Type 0
UnderLayer none q = Unit
UnderLayer (some []) q = Unit
UnderLayer (some (p ∷ ps)) q =
    (layer : List Text) × (normalize_all (p ∷ ps) ≡ ok layer) × UnderSome layer q

-- What the three layers allow together.
pub record Allowed (layers : Layers) (q : Text) : Type 0 where
  pub workspace : List Text
  pub from_workspace : workspace_layer layers.workspace_prefixes ≡ ok workspace
  pub in_workspace : InSome workspace q
  pub in_corpus : UnderLayer layers.corpus_prefixes q
  pub in_token : UnderLayer layers.token_prefixes q
