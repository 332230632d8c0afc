-- ===== src/Search/Ranking/Boost.antt =====
-- The boost of a file is that of the longest prefix of its path.
use evukb.Common.{
  ℕ, ◌+◌, ◌≤◌, [], ◌∷◌, ◌≡◌, refl, sym, ap, ◌∙◌, ◌⊎◌, inl, inr, ◌&&◌, arith, some, All, length,
  if◌then◌else◌,
}
use evukb.Common.Text.{Text, starts_with, truthy}
use evukb.Common.Value.{Number, is_finite}
use evukb.Search.Ranking.{Boosts, one, without_slash, better, best_boost, resolve_path_boost}

-- The length of the prefix that an entry applies with; 0 if it does not apply.
abbrev pub reach : Text → Text × Number → ℕ
reach file (prefix, boost) =
    if truthy prefix && is_finite boost && starts_with (without_slash prefix) file
    then length (without_slash prefix)
    else 0

-- No entry reaches further than `n`.
abbrev pub AtMost : Text → Boosts → ℕ → Type 0
AtMost file boosts n = All (λ b. reach file b ≤ n) boosts

-- An entry with this boost reaches exactly as far as `n`.
abbrev pub SomeAt : Text → Boosts → ℕ → Number → Type 0
SomeAt file [] n boost = ⊥
SomeAt file (b ∷ boosts) n boost = ((reach file b ≡ n) × (b.1 ≡ boost)) ⊎ SomeAt file boosts n boost

module _ (file : Text) where
  better-cases :
      (prefix : Text) (boost : Number) (best : Text) (n : Number)
      → ((better file prefix boost (best, n) ≡ (best, n))
          × (reach file (prefix, boost) ≤ length best))
        ⊎ ((better file prefix boost (best, n) ≡ (without_slash prefix, boost))
            × (reach file (prefix, boost) ≡ length (without_slash prefix))
            × (length best + 1 ≤ length (without_slash prefix)))
  better-cases prefix boost best n = ground arith

  -- The loop from a prefix and its boost: it ends with a prefix at least as long, further than
  -- which no entry reaches, and which is the one that it started from or an entry's.
  abbrev Outcome : Boosts → Text → Number → Text × Number → Type 0
  Outcome boosts best n out =
      (length best ≤ length out.0)
      × AtMost file boosts (length out.0)
      × ((out ≡ (best, n))
          ⊎ ((length best + 1 ≤ length out.0) × SomeAt file boosts (length out.0) out.1))

  kept :
      (b : Text × Number) (boosts : Boosts) (best : Text) (n : Number) (out : Text × Number)
      → reach file b ≤ length best
      → Outcome boosts best n out
      → Outcome (b ∷ boosts) best n out
  kept b boosts best n out far (le, most, inl e) = (le, (omega arith, most), inl e)
  kept b boosts best n out far (le, most, inr s) = (le, (omega arith, most), inr (s.0, inr s.1))

  taken :
      (b : Text × Number) (boosts : Boosts) (best : Text) (n : Number) (longer : Text)
      (out : Text × Number)
      → reach file b ≡ length longer
      → length best + 1 ≤ length longer
      → Outcome boosts longer b.1 out
      → Outcome (b ∷ boosts) best n out
  taken b boosts best n longer out far le (le', most, inl e) = (
    omega arith,
    (omega arith, most),
    inr (
      (omega (arith, ap (λ o. length o.0) e)),
      inl (far ∙ ap (λ o. length o.0) (sym e), ap (λ o. o.1) (sym e)),
    ),
  )
  taken b boosts best n longer out far le (le', most, inr s) =
      (omega arith, (omega arith, most), inr (omega arith, inr s.1))

  moved :
      (boosts : Boosts) (best : Text) (n : Number) {out out' : Text × Number}
      → out ≡ out'
      → Outcome boosts best n out'
      → Outcome boosts best n out
  moved boosts best n e h = rw e h

  pub AtMost-moved :
      (boosts : Boosts) {n m : ℕ} → n ≡ m → AtMost file boosts n → AtMost file boosts m
  AtMost-moved boosts e h = rw (sym e) h

  best_boost_outcome :
      (boosts : Boosts) (best : Text) (n : Number)
      → Outcome boosts best n (best_boost file boosts (best, n))
  unfolding best_boost
  best_boost_outcome [] best n = (omega arith, tt, inl refl)
  best_boost_outcome ((prefix, boost) ∷ boosts) best n = elim (better-cases prefix boost best n) [
    | inl (e, far) ↦ moved ((prefix, boost) ∷ boosts) best n (ap (best_boost file boosts) e) (
        kept (prefix, boost) boosts best n (best_boost file boosts (best, n)) far
          (best_boost_outcome boosts best n))
    | inr (e, far, longer) ↦
        moved ((prefix, boost) ∷ boosts) best n (ap (best_boost file boosts) e) (
          taken (prefix, boost) boosts best n (without_slash prefix)
            (best_boost file boosts (without_slash prefix, boost)) far longer
            (best_boost_outcome boosts (without_slash prefix) boost))
  ]

-- The boost of a file is 1 where no prefix applies to it; else it is the boost of an entry whose
-- prefix is the longest of those that apply. A prefix, taken without one leading slash, applies if
-- it is not empty then, its boost is finite, and the path starts with it.
pub resolve_path_boost_lem :
    (file : Text) (boosts : Boosts)
    → ((resolve_path_boost file (some boosts) ≡ one) × AtMost file boosts 0)
      ⊎ ((n : ℕ) × (1 ≤ n)
          × AtMost file boosts n
          × SomeAt file boosts n (resolve_path_boost file (some boosts)))
unfolding resolve_path_boost
resolve_path_boost_lem file [] = inl (refl, tt)
resolve_path_boost_lem file (b ∷ boosts) =
    let (_, most, found) = best_boost_outcome file (b ∷ boosts) [] one in
    elim found [
      | inl e ↦ inl (ap (λ o. o.1) e, AtMost-moved file (b ∷ boosts) (ap (λ o. length o.0) e) most)
      | inr (longer, s) ↦ inr (_, omega (arith, longer), most, s)
    ]
