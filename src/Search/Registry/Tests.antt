-- ===== src/Search/Registry/Tests.antt =====
-- Runs of the registry on fixed strategies, and the theorems about it at such registries.
use evukb.Common.{map, [], ◌∷◌, ◌≡◌, refl, true, false, none, some, ok, err}
use evukb.Common.Text.{Text, codes, text_eq, trim, drop_leading, drop_trailing, is_space}
use evukb.Search.Registry.{
  RankingStrategy, BuiltinRanks, Strategies, is_given, get_strategy, register, is_builtin,
  builtin_ranking_strategies, create_ranking_strategy_registry, already_registered,
}
use evukb.Search.Registry.Laws.{
  IsRegistered, register-IsRegistered, register_call, unregister_call, after_calls, builtins_stay,
}

abbrev ranks : BuiltinRanks (Unit {0})
ranks = record {
  rank_hybrid_default_v1 = tt;
  rank_semantic_only_v1 = tt;
  rank_keyword_only_v1 = tt;
  rank_recency_boosted_v1 = tt;
  rank_citation_boosted_v1 = tt;
}

abbrev plugin : Text → RankingStrategy (Unit {0})
plugin version = record {
  id = codes "mine";
  version = version;
  label = none;
  description = none;
  retrieval = some (record { keyword = true; semantic = false });
  rank = some tt;
  post_rank = none;
  builtin = none;
}

abbrev one_plugin : Strategies (Unit {0})
one_plugin = (codes "mine", plugin (codes "1")) ∷ []

same_version :
    register (plugin (codes "1")) false one_plugin ≡ err (already_registered (codes "mine"))
unfolding register get_strategy text_eq trim drop_leading drop_trailing is_space
same_version = refl

new_version :
    register (plugin (codes "2")) false one_plugin ≡ ok ((codes "mine", plugin (codes "2")) ∷ [])
unfolding same_version
new_version = refl

register-IsRegistered_example :
    IsRegistered (plugin (codes "2")) false one_plugin ((codes "mine", plugin (codes "2")) ∷ [])
register-IsRegistered_example =
    register-IsRegistered (plugin (codes "2")) false one_plugin
      ((codes "mine", plugin (codes "2")) ∷ []) new_version

-- The built-in strategies under their ids.
abbrev opened : Strategies (Unit {0})
opened = map (λ s. (s.id, s)) (builtin_ranking_strategies ranks)

created : create_ranking_strategy_registry ranks true [] ≡ ok opened
unfolding create_ranking_strategy_registry same_version
created = refl

builtins_stay_example :
    is_given (
      get_strategy (codes "keyword_only") (
        after_calls
          (unregister_call (codes "keyword_only") ∷ register_call (plugin (codes "1")) true ∷ [])
          opened))
    ≡ true
builtins_stay_example =
    builtins_stay ranks [] opened
      (unregister_call (codes "keyword_only") ∷ register_call (plugin (codes "1")) true ∷ [])
      (codes "keyword_only") created (unfold is_builtin text_eq in refl)
