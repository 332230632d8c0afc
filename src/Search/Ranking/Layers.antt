-- ===== src/Search/Ranking/Layers.antt =====
-- Which layer decides each of the weights that a search runs with.
use evukb.Common.{
  [], ◌∷◌, ◌++◌, ◌≡◌, refl, sym, Bool, true, false, not, ◌&&◌, arith, Option, none, some, any,
  append_assoc,
}
use evukb.Common.Text.{Text, text_eq, text_eq_refl}
use evukb.Common.Value.{Number, Fields}
use evukb.Search.Ranking.{
  Boosts, RankingSettings, no_settings, parse_ranking_settings, put_boost, spread_boosts, overlay,
  merge_from, merge_layer, merge_ranking_layers, resolve_effective_ranking_settings, or_one, assign,
}

-- The properties of an object have different keys.
unfoldable pub distinct_keys : Boosts → Bool
distinct_keys [] = true
distinct_keys ((k, n) ∷ bs) = not (any (λ b. text_eq k b.0) bs) && distinct_keys bs

distinct-prefix :
    (done : Boosts) (k : Text) (n : Number) (rest : Boosts)
    → distinct_keys (done ++ (k, n) ∷ rest) ≡ true
    → any (λ b. text_eq b.0 k) done ≡ false
unfolding distinct_keys
distinct-prefix [] k n rest e = refl
distinct-prefix ((j, m) ∷ done) k n rest e =
    ground (arith, distinct-prefix done k n rest, any-later j done k n rest)
  where
    any-later :
        (j : Text) (done : Boosts) (k : Text) (n : Number) (rest : Boosts)
        → any (λ b. text_eq j b.0) (done ++ (k, n) ∷ rest) ≡ false
        → text_eq j k ≡ false
    any-later j [] k n rest h = ground arith
    any-later j (b ∷ done) k n rest h = ground (arith, any-later j done k n rest)

put_boost-same :
    (done : Boosts) (k : Text) (n : Number) (rest : Boosts)
    → any (λ b. text_eq b.0 k) done ≡ false
    → put_boost k n (done ++ (k, n) ∷ rest) ≡ done ++ (k, n) ∷ rest
unfolding put_boost
put_boost-same [] k n rest e = ground (arith, text_eq_refl k)
put_boost-same ((j, m) ∷ done) k n rest e = ground (arith, put_boost-same done k n rest)

spread_tail :
    (done rest : Boosts)
    → distinct_keys (done ++ rest) ≡ true
    → spread_boosts (done ++ rest) rest ≡ done ++ rest
unfolding spread_boosts
spread_tail done [] e = refl
spread_tail done ((k, n) ∷ rest) e =
    rw (put_boost-same done k n rest (distinct-prefix done k n rest e)) (
      rw (sym (append_assoc done ((k, n) ∷ []) rest))
        (spread_tail (done ++ (k, n) ∷ []) rest (rw (append_assoc done ((k, n) ∷ []) rest) e)))

spread_self : (bs : Boosts) → distinct_keys bs ≡ true → spread_boosts bs bs ≡ bs
spread_self bs e = spread_tail [] bs e

-- The path boosts of a layer, if it has any, are an object.
abbrev pub IsObject : Option Boosts → Type 0
IsObject none = Unit {0}
IsObject (some bs) = distinct_keys bs ≡ true

-- What the last layer that has a property says of it.
abbrev pub last_of {ℓ} :
    {A : Type ℓ} → (RankingSettings → Option A) → Option RankingSettings → Option A
last_of f none = none
last_of f (some layer) = f layer

abbrev pub last_set {ℓ} :
    {A : Type ℓ}
    → (RankingSettings → Option A)
    → RankingSettings
    → RankingSettings
    → Option RankingSettings
    → Option A
last_set f workspace corpus override =
    overlay (overlay (f workspace) (f corpus)) (last_of f override)

merge_layer-boosts :
    (merged layer : RankingSettings)
    → IsObject layer.path_boosts
    → merge_layer merged layer ≡ assign merged layer
merge_layer-boosts merged layer h = go layer.path_boosts refl h
  where
    go :
        (o : Option Boosts)
        → layer.path_boosts ≡ o
        → IsObject o
        → merge_layer merged layer ≡ assign merged layer
    go none e h = ground arith
    go (some bs) e h = ground (arith, spread_self bs h)

-- The merged settings of the three layers, of which the last one may be missing.
abbrev pub merged_of : RankingSettings → RankingSettings → Option RankingSettings → RankingSettings
merged_of workspace corpus none = assign (assign no_settings workspace) corpus
merged_of workspace corpus (some override) =
    assign (assign (assign no_settings workspace) corpus) override

merge_ranking_layers-merged_of :
    (w c : RankingSettings) (o : Option RankingSettings)
    → IsObject w.path_boosts
    → IsObject c.path_boosts
    → IsObject (last_of RankingSettings.path_boosts o)
    → merge_ranking_layers (some w ∷ some c ∷ o ∷ []) ≡ merged_of w c o
unfolding merge_ranking_layers merge_from
merge_ranking_layers-merged_of w c none h k l =
    rw (merge_layer-boosts no_settings w h) (merge_layer-boosts (assign no_settings w) c k)
merge_ranking_layers-merged_of w c (some o) h k l = rw (merge_layer-boosts no_settings w h) (
    rw (merge_layer-boosts (assign no_settings w) c k)
      (merge_layer-boosts (assign (assign no_settings w) c) o l))

-- Each setting is the one of the last layer that has it.
pub record IsDecided (w c : RankingSettings) (o : Option RankingSettings) (r : RankingSettings)
    : Type 0 where
  pub keyword : r.keyword_weight ≡ or_one (last_set RankingSettings.keyword_weight w c o)
  pub semantic : r.semantic_weight ≡ or_one (last_set RankingSettings.semantic_weight w c o)
  pub recency : r.recency_boost ≡ last_set RankingSettings.recency_boost w c o
  pub citation : r.okf_citation_boost ≡ last_set RankingSettings.okf_citation_boost w c o
  pub title : r.exact_title_boost ≡ last_set RankingSettings.exact_title_boost w c o
  pub path : r.exact_path_boost ≡ last_set RankingSettings.exact_path_boost w c o
  pub boosts : r.path_boosts ≡ last_set RankingSettings.path_boosts w c o

merged_of-IsDecided :
    (w c : RankingSettings) (o : Option RankingSettings)
    → IsDecided w c o (record (merged_of w c o) {
      keyword_weight = or_one (merged_of w c o).keyword_weight;
      semantic_weight = or_one (merged_of w c o).semantic_weight;
    })
merged_of-IsDecided w c none = record {
  keyword = ground arith;
  semantic = ground arith;
  recency = ground arith;
  citation = ground arith;
  title = ground arith;
  path = ground arith;
  boosts = ground arith;
}
merged_of-IsDecided w c (some o) = record {
  keyword = ground arith;
  semantic = ground arith;
  recency = ground arith;
  citation = ground arith;
  title = ground arith;
  path = ground arith;
  boosts = ground arith;
}

-- Of the workspace, the corpus and the request, the last that sets a weight decides it, and the
-- keyword and semantic weights are 1 where none does; the workspace counts for the citation boost
-- and the path boosts as well. Of the path boosts too the last layer that sets them, be it to an
-- object without any, decides alone: the boosts of the layers before it are dropped, also those of
-- other prefixes. The boosts of each layer have different prefixes, as the properties of an object do.
pub resolve_effective_ranking_settings-IsDecided :
    (workspace corpus : Fields) (override : Option RankingSettings)
    → IsObject (parse_ranking_settings workspace).path_boosts
    → IsObject (parse_ranking_settings corpus).path_boosts
    → IsObject (last_of RankingSettings.path_boosts override)
    → IsDecided
        (parse_ranking_settings workspace)
        (parse_ranking_settings corpus)
        override
        (resolve_effective_ranking_settings workspace corpus override)
unfolding resolve_effective_ranking_settings
resolve_effective_ranking_settings-IsDecided workspace corpus override h k l =
    rw
      (merge_ranking_layers-merged_of (parse_ranking_settings workspace)
        (parse_ranking_settings corpus) override h k l)
      (merged_of-IsDecided (parse_ranking_settings workspace) (parse_ranking_settings corpus)
        override)
