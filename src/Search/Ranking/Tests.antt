-- ===== src/Search/Ranking/Tests.antt =====
-- Runs on fixed settings and boosts, and the theorems about them at such values.
use evukb.Common.{ℕ, ◌≤◌, [], ◌∷◌, ◌≡◌, refl, ◌⊎◌, false, none, some}
use evukb.Common.Text.{Text, codes, text_eq, starts_with}
use evukb.Common.Value.{
  Number, dyadic, number, object, Fields, end, field, get, is_finite, is_undefined, as_object,
}
use evukb.Search.Ranking.{
  Boosts, one, parse_ranking_settings, resolve_effective_ranking_settings, resolve_path_boost,
  validate_ranking_settings,
}
use evukb.Search.Ranking.Layers.{
  IsDecided, distinct_keys, resolve_effective_ranking_settings-IsDecided,
}
use evukb.Search.Ranking.Boost.{AtMost, SomeAt, resolve_path_boost_lem}

abbrev three : Number
three = dyadic false 3 0

abbrev half : Number
half = dyadic false 1 1

abbrev boost_of : Text → Number → Fields
boost_of prefix n =
    field (codes "rankingSettings")
      (object (field (codes "pathBoosts") (object (field prefix (number n) end)) end)) end

abbrev two_boosts : Boosts
two_boosts = (codes "docs/", half) ∷ (codes "/docs/guide/", three) ∷ []

longest : resolve_path_boost (codes "docs/guide/a.md") (some two_boosts) ≡ three
unfolding resolve_path_boost starts_with is_finite
longest = refl

-- The workspace boosts "a/"; a boost of "b/" in the corpus makes that one disappear.
dropped :
    (resolve_effective_ranking_settings
      (boost_of (codes "a/") three)
      (boost_of (codes "b/") half)
      none).path_boosts
    ≡ some ((codes "b/", half) ∷ [])
unfolding resolve_effective_ranking_settings get text_eq as_object is_finite
dropped = refl

boosted_is_valid : validate_ranking_settings (boost_of (codes "a/") three) ≡ none
unfolding validate_ranking_settings dropped is_undefined
boosted_is_valid = refl

resolve_effective_ranking_settings-IsDecided_example :
    IsDecided
      (parse_ranking_settings (boost_of (codes "a/") three))
      (parse_ranking_settings (boost_of (codes "b/") half))
      none
      (resolve_effective_ranking_settings
        (boost_of (codes "a/") three)
        (boost_of (codes "b/") half)
        none)
resolve_effective_ranking_settings-IsDecided_example =
    resolve_effective_ranking_settings-IsDecided (boost_of (codes "a/") three)
      (boost_of (codes "b/") half) none
      (unfold parse_ranking_settings distinct_keys get text_eq as_object is_finite in refl)
      (unfold parse_ranking_settings distinct_keys get text_eq as_object is_finite in refl) tt

resolve_path_boost_lem_example :
    ((resolve_path_boost (codes "docs/guide/a.md") (some two_boosts) ≡ one)
      × AtMost (codes "docs/guide/a.md") two_boosts 0)
    ⊎ ((n : ℕ) × (1 ≤ n)
        × AtMost (codes "docs/guide/a.md") two_boosts n
        × SomeAt
            (codes "docs/guide/a.md")
            two_boosts
            n
            (resolve_path_boost (codes "docs/guide/a.md") (some two_boosts)))
resolve_path_boost_lem_example = resolve_path_boost_lem (codes "docs/guide/a.md") two_boosts
