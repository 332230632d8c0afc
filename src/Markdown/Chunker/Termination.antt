-- ===== src/Markdown/Chunker/Termination.antt =====
-- `capSplitText` terminates: it calls itself on shorter texts only.
use evukb.Common.{
  ℕ, zero, suc, ◌≤◌, ◌<◌, List, [], ◌∷◌, ◌++◌, ◌≡◌, refl, true, Bool-cases, inl, inr, length, arith,
  All, All-imp, if◌then◌else◌, ltb, leb, Option, some,
}
use evukb.Common.Text.{Text, trim, truthy}
use evukb.Markdown.Chunker.{
  Patterns, flat_map, is_several, split_by_paragraphs, split_natural_parts, split_by_lines,
  by_characters, attempts, cap_split_text, estimate_token_count,
}
use evukb.Markdown.Chunker.Sizes.{
  total, Full, IsSplit, trim-length, several-shorter, split_by_paragraphs-Full,
  split_by_paragraphs-total, split_natural_parts_sound, split_by_lines-Full, split_by_lines-total,
}

-- A function on fuel gives the same chunks of the text on any fuel above its length.
abbrev Settled : (ℕ → Text → Option (List Text)) → Text → Type 0
Settled f p = (chunks : List Text) × ((fuel : ℕ) → length p < fuel → f fuel p ≡ some chunks)

flat_map-Settled :
    (f : ℕ → Text → Option (List Text)) (n : ℕ) (ps : List Text)
    → All (λ p. length p < n) ps
    → All (Settled f) ps
    → (chunks : List Text) × ((fuel : ℕ) → n ≤ fuel → flat_map (f fuel) ps ≡ some chunks)
flat_map-Settled f n [] h s = ([], λ fuel k. refl)
flat_map-Settled f n (p ∷ ps) (l, h) ((here, e), s) =
    let (rest, g) = flat_map-Settled f n ps h s in
    (here ++ rest, λ fuel k. rw (e fuel (omega arith), g fuel k) refl)

module _ (patterns : Patterns) (max_tokens : ℕ) (split_paragraphs : IsSplit patterns.paragraphs)
    (split_fences : IsSplit patterns.fences) where
  abbrev cut : ℕ → Text → Option (List Text)
  cut fuel text = cap_split_text patterns fuel max_tokens text

  -- The function that is mapped over chunks of lines.
  abbrev cut_long : ℕ → Text → Option (List Text)
  cut_long fuel chunk =
      if ltb max_tokens (estimate_token_count chunk) then cut fuel chunk else some (chunk ∷ [])

  cut_long-Settled : (p : Text) → Settled cut p → Settled cut_long p
  cut_long-Settled p (chunks, e) = elim (Bool-cases (ltb max_tokens (estimate_token_count p))) [
    | inl y ↦ (chunks, λ fuel k. rw y (e fuel k))
    | inr nn ↦ (p ∷ [], λ fuel k. rw nn refl)
  ]

  -- Several pieces that are shorter, and that the induction covers.
  pieces :
      (f : ℕ → Text → Option (List Text)) (n bound : ℕ) (ps : List Text)
      → ((p : Text) → length p < bound → Settled f p)
      → n ≤ bound
      → Full ps
      → total ps ≤ n
      → is_several ps ≡ true
      → (chunks : List Text) × ((fuel : ℕ) → n ≤ fuel → flat_map (f fuel) ps ≡ some chunks)
  pieces f n bound ps ih b full h s =
      let shorter = several-shorter n ps full h s in
      flat_map-Settled f n ps shorter
        (All-imp (λ p. length p < n) (Settled f) ps (λ p l. ih p (omega arith)) shorter)

  attempts-Settled :
      (t : Text) (bound : ℕ)
      → length t ≤ bound
      → ((p : Text) → length p < bound → Settled cut p)
      → (chunks : List Text) × ((fuel : ℕ)
          → length t ≤ fuel
          → attempts patterns (cut fuel) max_tokens t ≡ some chunks)
  attempts-Settled t bound b ih = elim (Bool-cases (is_several (split_by_paragraphs patterns t))) [
    | inl y ↦
        let (chunks, e) =
          pieces cut (length t) bound (split_by_paragraphs patterns t) ih b
            (split_by_paragraphs-Full patterns split_paragraphs split_fences t)
            (split_by_paragraphs-total patterns split_paragraphs split_fences t) y in
        (chunks, λ fuel k. rw (attempts, y) (e fuel k))
    | inr n1 ↦ elim (Bool-cases (is_several (split_natural_parts patterns t))) [
      | inl y ↦
          let (full, short) = split_natural_parts_sound patterns split_paragraphs split_fences t in
          let (chunks, e) =
            pieces cut (length t) bound (split_natural_parts patterns t) ih b full short y in
          (chunks, λ fuel k. rw (attempts, n1, y) (e fuel k))
      | inr n2 ↦ elim (Bool-cases (is_several (split_by_lines t max_tokens))) [
        | inl y ↦
            let (chunks, e) =
              pieces cut_long (length t) bound (split_by_lines t max_tokens)
                (λ p l. cut_long-Settled p (ih p l)) b (split_by_lines-Full t max_tokens)
                (split_by_lines-total t max_tokens) y in
            (chunks, λ fuel k. rw (attempts, n1, n2, y) (e fuel k))
        | inr n3 ↦ (by_characters patterns t max_tokens, λ fuel k. rw (attempts, n1, n2, n3) refl)
      ]
    ]
  ]

  cut-Settled : (bound : ℕ) (text : Text) → length text < bound → Settled cut text
  unfolding cap_split_text
  cut-Settled zero text h = absurd (omega arith)
  cut-Settled (suc bound) text h = elim (Bool-cases (truthy (trim text))) [
    | inr blank ↦ ([], enough (λ f. rw blank refl))
    | inl y ↦ elim (Bool-cases (leb (estimate_token_count (trim text)) max_tokens)) [
      | inl short ↦ (trim text ∷ [], enough (λ f. rw (y, short) refl))
      | inr long ↦
          let (chunks, e) =
            attempts-Settled (trim text) bound (omega (arith, trim-length text))
              (λ p l. cut-Settled bound p l) in
          (chunks, later (λ f k. rw (y, long) (e f (omega (arith, k, trim-length text)))))
    ]
  ]
    where
      later :
          {chunks : List Text}
          → ((f : ℕ) → length text ≤ f → cut (suc f) text ≡ some chunks)
          → (fuel : ℕ) → length text < fuel
          → cut fuel text ≡ some chunks
      later e zero k = absurd (omega arith)
      later e (suc f) k = e f (omega arith)

      enough :
          {chunks : List Text}
          → ((f : ℕ) → cut (suc f) text ≡ some chunks)
          → (fuel : ℕ) → length text < fuel
          → cut fuel text ≡ some chunks
      enough e = later (λ f k. e f)

  -- `capSplitText` terminates, if splitting at blank lines and at fences gives parts that together
  -- are no longer than the text: one unit of fuel more than the length of the text is enough, and
  -- with more the chunks are the same.
  pub cap_split_text_total :
      (text : Text)
      → (chunks : List Text) × ((fuel : ℕ)
          → length text < fuel
          → cap_split_text patterns fuel max_tokens text ≡ some chunks)
  cap_split_text_total text = cut-Settled (suc (length text)) text (omega arith)
