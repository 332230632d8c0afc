-- ===== src/Search/Registry.antt =====
-- packages/kb-core/src/search/ranking-registry.ts: the registry of ranking strategies. The registry
-- never calls the ranking functions of its strategies, so they are values of some type `Rank`. What
-- a plugin without types may leave out is an option, and a missing id or version is an empty text.
mod Tests
pub mod Laws
use evukb.Common.{
  ℕ, List, [], ◌∷◌, ◌++◌, map, Bool, true, false, not, ◌&&◌, if◌then◌else◌, Option, none, some, any,
  Result, ok, err,
}
use evukb.Common.Text.{Text, codes, text_eq, truthy, trim}

pub record RankingRetrievalProfile : Type 0 where
  pub keyword : Bool
  pub semantic : Bool

pub record RankingStrategy (Rank : Type 0) : Type 0 where
  pub id : Text
  pub version : Text
  pub label : Option Text
  pub description : Option Text
  pub retrieval : Option RankingRetrievalProfile
  pub rank : Option Rank
  pub post_rank : Option Text
  pub builtin : Option Bool

-- The ranking functions of the built-in strategies.
pub record BuiltinRanks (Rank : Type 0) : Type 0 where
  pub rank_hybrid_default_v1 : Rank
  pub rank_semantic_only_v1 : Rank
  pub rank_keyword_only_v1 : Rank
  pub rank_recency_boosted_v1 : Rank
  pub rank_citation_boosted_v1 : Rank

-- `RankingStrategyValidationError`, by its message.
pub data RegistryError : Type 0 where
  id_required version_required retrieval_required rank_required : RegistryError
  already_registered unknown_strategy cannot_unregister_builtin : Text → RegistryError

-- A `Map` from ids to strategies, in the order of insertion.
abbrev pub Strategies : Type 0 → Type 0
Strategies Rank = List (Text × RankingStrategy Rank)

abbrev pub is_given : {A : Type 0} → Option A → Bool
is_given none = false
is_given (some _) = true

abbrev both : Option RankingRetrievalProfile
both = some (record { keyword = true; semantic = true })

-- builtinRankingStrategyIds
abbrev pub builtin_ids : List Text
builtin_ids =
    codes "hybrid_default_v1"
    ∷ codes "semantic_only"
    ∷ codes "keyword_only"
    ∷ codes "recency_boosted"
    ∷ codes "citation_boosted"
    ∷ codes "reranker_llm"
    ∷ []

unfoldable pub is_builtin : Text → Bool
is_builtin id = any (text_eq id) builtin_ids

module _ {Rank : Type 0} where
  -- strategies.get(id)
  unfoldable pub get_strategy : Text → Strategies Rank → Option (RankingStrategy Rank)
  get_strategy id [] = none
  get_strategy id ((k, s) ∷ rest) =
      let later = get_strategy id rest in if text_eq k id then some s else later

  -- strategies.set(id, strategy)
  unfoldable pub set_strategy : Text → RankingStrategy Rank → Strategies Rank → Strategies Rank
  set_strategy id s [] = (id, s) ∷ []
  set_strategy id s ((k, old) ∷ rest) =
      let later = set_strategy id s rest in if text_eq k id then (k, s) ∷ rest else (k, old) ∷ later

  -- strategies.delete(id)
  unfoldable pub delete_strategy : Text → Strategies Rank → Strategies Rank
  delete_strategy id [] = []
  delete_strategy id ((k, s) ∷ rest) =
      let later = delete_strategy id rest in if text_eq k id then later else (k, s) ∷ later

  unfoldable pub assert_ranking_strategy : RankingStrategy Rank → Result RegistryError (Unit {0})
  unfolding trim
  assert_ranking_strategy s =
      if not (truthy (trim s.id))
      then err id_required
      else if not (truthy (trim s.version))
      then err version_required
      else if not (is_given s.retrieval)
      then err retrieval_required
      else if not (is_given s.rank)
      then err rank_required
      else ok tt

  abbrev builtin_strategy :
      Text
      → Text
      → Text
      → Option RankingRetrievalProfile
      → Rank
      → Option Text
      → RankingStrategy Rank
  builtin_strategy id label description retrieval rank post_rank = record {
    id = id;
    version = codes "1";
    label = some label;
    description = some description;
    retrieval = retrieval;
    rank = some rank;
    post_rank = post_rank;
    builtin = some true;
  }

  abbrev pub builtin_ranking_strategies : BuiltinRanks Rank → List (RankingStrategy Rank)
  builtin_ranking_strategies r =
      builtin_strategy (codes "hybrid_default_v1") (codes "Hybrid default")
        (codes "Keyword + semantic RRF hybrid ranking (v1 default).") both r.rank_hybrid_default_v1
        none
      ∷ builtin_strategy (codes "semantic_only") (codes "Semantic only")
          (codes "Vector retrieval and semantic RRF only; requires embedding provider.")
          (some (record { keyword = false; semantic = true })) r.rank_semantic_only_v1 none
      ∷ builtin_strategy (codes "keyword_only") (codes "Keyword only")
          (codes "Postgres FTS keyword retrieval and ranking only.")
          (some (record { keyword = true; semantic = false })) r.rank_keyword_only_v1 none
      ∷ builtin_strategy (codes "recency_boosted") (codes "Recency boosted")
          (codes "Hybrid ranking with default recency boost multiplier.") both
          r.rank_recency_boosted_v1 none
      ∷ builtin_strategy (codes "citation_boosted") (codes "Citation boosted")
          (codes "Hybrid ranking with default OKF citation section boost.") both
          r.rank_citation_boosted_v1 none
      ∷ builtin_strategy (codes "reranker_llm") (codes "LLM reranker")
          (codes "Hybrid retrieval followed by LLM post-rank; requires chat provider.") both
          r.rank_hybrid_default_v1 (some (codes "llm"))
      ∷ []

  -- The loop over the seed; a strategy that is not valid ends the creation.
  unfoldable pub seed_all :
      List (RankingStrategy Rank) → Strategies Rank → Result RegistryError (Strategies Rank)
  unfolding assert_ranking_strategy set_strategy
  seed_all [] strategies = ok strategies
  seed_all (s ∷ seed) strategies = elim (assert_ranking_strategy s) [
    | err e ↦ err e
    | ok _ ↦ seed_all seed (set_strategy s.id s strategies)
  ]

  unfoldable pub create_ranking_strategy_registry :
      BuiltinRanks Rank
      → Bool
      → List (RankingStrategy Rank)
      → Result RegistryError (Strategies Rank)
  unfolding seed_all
  create_ranking_strategy_registry ranks include_builtins extensions =
      seed_all ((if include_builtins then builtin_ranking_strategies ranks else []) ++ extensions)
        []

  abbrev pub add_unless_same :
      RankingStrategy Rank
      → Bool
      → Option (RankingStrategy Rank)
      → Strategies Rank
      → Result RegistryError (Strategies Rank)
  add_unless_same s force none strategies = ok (set_strategy s.id s strategies)
  add_unless_same s force (some existing) strategies =
      if not force && text_eq existing.version s.version
      then err (already_registered s.id)
      else ok (set_strategy s.id s strategies)

  unfoldable pub register :
      RankingStrategy Rank → Bool → Strategies Rank → Result RegistryError (Strategies Rank)
  unfolding assert_ranking_strategy get_strategy set_strategy
  register s force strategies = elim (assert_ranking_strategy s) [
    | err e ↦ err e
    | ok _ ↦ add_unless_same s force (get_strategy s.id strategies) strategies
  ]

  unfoldable pub unregister : Text → Strategies Rank → Result RegistryError (Strategies Rank)
  unfolding get_strategy delete_strategy is_builtin
  unregister id strategies =
      if not (is_given (get_strategy id strategies))
      then err (unknown_strategy id)
      else if is_builtin id
      then err (cannot_unregister_builtin id)
      else ok (delete_strategy id strategies)

  unfoldable pub resolve : Text → Strategies Rank → Result RegistryError (RankingStrategy Rank)
  unfolding get_strategy
  resolve id strategies = elim (get_strategy id strategies) [
    | none ↦ err (unknown_strategy id)
    | some s ↦ ok s
  ]

  -- strategies.values()
  abbrev pub list_strategies : Strategies Rank → List (RankingStrategy Rank)
  list_strategies strategies = map (λ p. p.1) strategies
