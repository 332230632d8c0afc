-- ===== src/Search/Ranking.antt =====
-- packages/kb-core/src/settings/ranking.ts and packages/kb-core/src/search/effective-ranking.ts: the
-- weights of a search, from the settings of the workspace and the corpus and from the request.
mod Tests
pub mod Layers
pub mod Boost
use evukb.Common.{
  ℕ, List, [], ◌∷◌, Bool, true, false, not, ◌&&◌, ◌||◌, ltb, ◌==◌, if◌then◌else◌, Option, none,
  some, length,
}
use evukb.Common.Text.{Text, codes, text_eq, starts_with, truthy}
use evukb.Common.Value.{
  Number, dyadic, Value, number, Fields, get, entries, as_object, is_undefined, is_finite,
}
use evukb.Storage.Posix.{slash}

-- A `Record<string, number>`, in the order of its properties.
abbrev pub Boosts : Type 0
Boosts = List (Text × Number)

-- A property that is missing is `none`.
pub record RankingSettings : Type 0 where
  pub keyword_weight : Option Number
  pub semantic_weight : Option Number
  pub recency_boost : Option Number
  pub okf_citation_boost : Option Number
  pub exact_title_boost : Option Number
  pub exact_path_boost : Option Number
  pub path_boosts : Option Boosts

abbrev pub no_settings : RankingSettings
no_settings = record {
  keyword_weight = none;
  semantic_weight = none;
  recency_boost = none;
  okf_citation_boost = none;
  exact_title_boost = none;
  exact_path_boost = none;
  path_boosts = none;
}

-- typeof value === 'number' && Number.isFinite(value)
unfoldable pub finite_number : Value → Option Number
finite_number (number n) = if is_finite n then some n else none
finite_number _ = none

unfoldable pub finite_boosts : List (Text × Value) → Boosts
unfolding finite_number
finite_boosts [] = []
finite_boosts ((k, v) ∷ rest) =
    let later = finite_boosts rest in
    elim (finite_number v) [ none ↦ later | some n ↦ (k, n) ∷ later ]

abbrev pub nonempty_boosts : Boosts → Option Boosts
nonempty_boosts [] = none
nonempty_boosts (b ∷ bs) = some (b ∷ bs)

abbrev pub read_boosts : Value → Option Boosts
read_boosts v = elim (as_object v) [
  | none ↦ none
  | some r ↦ nonempty_boosts (finite_boosts (entries r))
]

unfoldable pub parse_ranking_settings : Fields → RankingSettings
unfolding finite_number finite_boosts
parse_ranking_settings settings = elim (as_object (get (codes "rankingSettings") settings)) [
  | none ↦ no_settings
  | some r ↦ record {
    keyword_weight = finite_number (get (codes "keywordWeight") r);
    semantic_weight = finite_number (get (codes "semanticWeight") r);
    recency_boost = finite_number (get (codes "recencyBoost") r);
    okf_citation_boost = finite_number (get (codes "okfCitationBoost") r);
    exact_title_boost = finite_number (get (codes "exactTitleBoost") r);
    exact_path_boost = finite_number (get (codes "exactPathBoost") r);
    path_boosts = read_boosts (get (codes "pathBoosts") r);
  }
]

-- map[key] = n: a property keeps its place, a new one comes last.
unfoldable pub put_boost : Text → Number → Boosts → Boosts
put_boost key n [] = (key, n) ∷ []
put_boost key n ((k, old) ∷ rest) =
    let later = put_boost key n rest in if text_eq k key then (k, n) ∷ rest else (k, old) ∷ later

-- { ...base, ...extra }
unfoldable pub spread_boosts : Boosts → Boosts → Boosts
unfolding put_boost
spread_boosts base [] = base
spread_boosts base ((k, n) ∷ extra) = spread_boosts (put_boost k n base) extra

abbrev pub overlay {ℓ} : {A : Type ℓ} → Option A → Option A → Option A
overlay base none = base
overlay base (some a) = some a

-- Object.assign(merged, layer)
abbrev pub assign : RankingSettings → RankingSettings → RankingSettings
assign merged layer = record {
  keyword_weight = overlay merged.keyword_weight layer.keyword_weight;
  semantic_weight = overlay merged.semantic_weight layer.semantic_weight;
  recency_boost = overlay merged.recency_boost layer.recency_boost;
  okf_citation_boost = overlay merged.okf_citation_boost layer.okf_citation_boost;
  exact_title_boost = overlay merged.exact_title_boost layer.exact_title_boost;
  exact_path_boost = overlay merged.exact_path_boost layer.exact_path_boost;
  path_boosts = overlay merged.path_boosts layer.path_boosts;
}

abbrev pub boosts_or_empty : Option Boosts → Boosts
boosts_or_empty none = []
boosts_or_empty (some bs) = bs

-- One turn of the loop of `mergeRankingLayers`.
abbrev pub merge_layer : RankingSettings → RankingSettings → RankingSettings
merge_layer merged layer =
    let assigned = assign merged layer in
    elim layer.path_boosts [
      | none ↦ assigned
      | some boosts ↦ record assigned {
        path_boosts = some (spread_boosts (boosts_or_empty assigned.path_boosts) boosts);
      }
    ]

unfoldable pub merge_from : RankingSettings → List (Option RankingSettings) → RankingSettings
unfolding spread_boosts
merge_from merged [] = merged
merge_from merged (none ∷ layers) = merge_from merged layers
merge_from merged (some layer ∷ layers) = merge_from (merge_layer merged layer) layers

unfoldable pub merge_ranking_layers : List (Option RankingSettings) → RankingSettings
unfolding merge_from
merge_ranking_layers layers = merge_from no_settings layers

abbrev pub one : Number
one = dyadic false 1 0

abbrev pub or_one : Option Number → Option Number
or_one none = some one
or_one (some n) = some n

unfoldable pub resolve_effective_ranking_settings :
    Fields → Fields → Option RankingSettings → RankingSettings
unfolding parse_ranking_settings merge_ranking_layers
resolve_effective_ranking_settings workspace corpus override =
    let merged = merge_ranking_layers (
      some (parse_ranking_settings workspace)
      ∷ some (parse_ranking_settings corpus)
      ∷ override
      ∷ []) in
    record merged {
      keyword_weight = or_one merged.keyword_weight;
      semantic_weight = or_one merged.semantic_weight;
    }

-- prefix.startsWith('/') ? prefix.slice(1) : prefix
abbrev pub without_slash : Text → Text
without_slash [] = []
without_slash (c ∷ t) = if c == slash then t else c ∷ t

-- One turn of the loop of `resolvePathBoost` on the best prefix so far and its boost.
abbrev pub better : Text → Text → Number → Text × Number → Text × Number
better file prefix boost (best, n) =
    if not (truthy prefix) || not (is_finite boost)
    then (best, n)
    else if starts_with (without_slash prefix) file
        && ltb (length best) (length (without_slash prefix))
    then (without_slash prefix, boost)
    else (best, n)

unfoldable pub best_boost : Text → Boosts → Text × Number → Text × Number
unfolding starts_with
best_boost file [] best = best
best_boost file ((prefix, boost) ∷ boosts) best =
    best_boost file boosts (better file prefix boost best)

unfoldable pub resolve_path_boost : Text → Option Boosts → Number
unfolding best_boost
resolve_path_boost file none = one
resolve_path_boost file (some []) = one
resolve_path_boost file (some (b ∷ boosts)) =
    let (best, n) = best_boost file (b ∷ boosts) ([], one) in n

-- The messages of `validateRankingSettings`; a field or a key is named in them.
pub data RankingMessage : Type 0 where
  settings_must_be_object boosts_must_be_object : RankingMessage
  must_be_finite boost_must_be_finite : Text → RankingMessage

abbrev pub is_finite_number : Value → Bool
is_finite_number v = elim (finite_number v) [ none ↦ false | some _ ↦ true ]

unfoldable pub validate_numbers : Fields → List Text → Option RankingMessage
unfolding finite_number
validate_numbers r [] = none
validate_numbers r (name ∷ names) =
    let later = validate_numbers r names in
    if not (is_undefined (get name r)) && not (is_finite_number (get name r))
    then some (must_be_finite name)
    else later

unfoldable pub validate_boosts : List (Text × Value) → Option RankingMessage
unfolding finite_number
validate_boosts [] = none
validate_boosts ((k, v) ∷ rest) =
    let later = validate_boosts rest in
    if is_finite_number v then later else some (boost_must_be_finite k)

abbrev pub validate_path_boosts : Value → Option RankingMessage
validate_path_boosts v = if is_undefined v then none else elim (as_object v) [
  | none ↦ some boosts_must_be_object
  | some r ↦ validate_boosts (entries r)
]

abbrev pub numeric_fields : List Text
numeric_fields =
    codes "keywordWeight"
    ∷ codes "semanticWeight"
    ∷ codes "recencyBoost"
    ∷ codes "okfCitationBoost"
    ∷ codes "exactTitleBoost"
    ∷ codes "exactPathBoost"
    ∷ []

abbrev pub validate_record : Fields → Option RankingMessage
validate_record r = elim (validate_numbers r numeric_fields) [
  | some message ↦ some message
  | none ↦ validate_path_boosts (get (codes "pathBoosts") r)
]

unfoldable pub validate_ranking_settings : Fields → Option RankingMessage
unfolding validate_numbers validate_boosts
validate_ranking_settings settings =
    let raw = get (codes "rankingSettings") settings in
    if is_undefined raw
    then none
    else elim (as_object raw) [ none ↦ some settings_must_be_object | some r ↦ validate_record r ]
