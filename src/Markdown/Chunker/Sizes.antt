-- ===== src/Markdown/Chunker/Sizes.antt =====
-- How long the pieces of a text are: together no longer than the text, so that each of several
-- pieces that are not empty is shorter.
use evukb.Common.{
  ℕ, suc, ◌+◌, ◌≤◌, ◌<◌, List, [], ◌∷◌, ◌++◌, ◌≡◌, sym, ap, Bool, true, false, Bool-cases, inl, inr,
  filter, length, length-append, map, arith, All, All-append, append-nil, append_assoc, ltb,
}
use evukb.Common.Text.{Text, trim, drop_leading, drop_trailing, truthy, join, split, is_space}
use evukb.Common.Text.Prefix.{drop_trailing-suffix}
use evukb.Common.Text.Split.{join-split}
use evukb.Markdown.Chunker.{
  Patterns, newline, trimmed_parts, is_fenced, or_whole, lines_from, split_by_lines, is_several,
  split_by_paragraphs, expand_parts, natural_parts, split_natural_parts, estimate_token_count,
}

abbrev pub total : List Text → ℕ
total [] = 0
total (p ∷ ps) = length p + total ps

total-append : (ps qs : List Text) → total (ps ++ qs) ≡ total ps + total qs
total-append [] qs = omega arith
total-append (p ∷ ps) qs = omega (arith, total-append ps qs)

drop_leading-length : (p : ℕ → Bool) (t : Text) → length (drop_leading p t) ≤ length t
unfolding drop_leading
drop_leading-length p [] = omega arith
drop_leading-length p (c ∷ t) = ground (arith, drop_leading-length p t)

drop_trailing-length : (p : ℕ → Bool) (t : Text) → length (drop_trailing p t) ≤ length t
drop_trailing-length p t =
    let (zs, e, h) = drop_trailing-suffix p t in
    omega (arith, ap length e, length-append (drop_trailing p t) zs)

pub trim-length : (t : Text) → length (trim t) ≤ length t
unfolding trim
trim-length t =
    omega (
      arith,
      drop_trailing-length is_space (drop_leading is_space t),
      drop_leading-length is_space t,
    )

trimmed_parts-total : (ps : List Text) → total (trimmed_parts ps) ≤ total ps
trimmed_parts-total [] = omega arith
trimmed_parts-total (p ∷ ps) = ground (arith, trim-length p, trimmed_parts-total ps)

-- No part is empty.
abbrev pub Full : List Text → Type 0
Full ps = All (λ p. truthy p ≡ true) ps

pub filter-Full : (ps : List Text) → Full (filter truthy ps)
filter-Full [] = tt
filter-Full (p ∷ ps) = elim (Bool-cases (truthy p)) [
  | inl y ↦ rw y (y, filter-Full ps)
  | inr nn ↦ rw nn (filter-Full ps)
]

pub filter-total : (ps : List Text) → total (filter truthy ps) ≤ total ps
filter-total [] = omega arith
filter-total (p ∷ ps) = ground (arith, filter-total ps)

truthy-length : (t : Text) → truthy t ≡ true → 1 ≤ length t
truthy-length [] h = cc
truthy-length (c ∷ t) h = omega arith

rest-shorter : (b n : ℕ) (ps : List Text) → 1 ≤ b → b + total ps ≤ n → All (λ p. length p < n) ps
rest-shorter b n [] h k = tt
rest-shorter b n (p ∷ ps) h k = (omega arith, rest-shorter b n ps h (omega arith))

-- Each of several parts that are not empty is shorter than all of them together.
pub several-shorter :
    (n : ℕ) (ps : List Text)
    → Full ps
    → total ps ≤ n
    → is_several ps ≡ true
    → All (λ p. length p < n) ps
several-shorter n [] f h s = cc
several-shorter n (p ∷ []) f h s = cc
several-shorter n (p ∷ q ∷ ps) (x, (y, f)) h s =
    (omega (arith, truthy-length q y), rest-shorter (length p) n (q ∷ ps) (truthy-length p x) h)

join-cons-length :
    (c : ℕ) (p q : Text) (ps : List Text)
    → length (join c (p ∷ q ∷ ps)) ≡ length p + suc (length (join c (q ∷ ps)))
unfolding join
join-cons-length c p q ps = length-append p (c ∷ join c (q ∷ ps))

pub join-total : (c : ℕ) (ps : List Text) → total ps ≤ length (join c ps)
join-total c [] = omega arith
join-total c (p ∷ []) = unfold join in omega arith
join-total c (p ∷ q ∷ ps) = omega (arith, join-cons-length c p q ps, join-total c (q ∷ ps))

-- A list of parts that is cut in two loses the separator in between.
join-append-length :
    (c : ℕ) (p q : Text) (ps qs : List Text)
    → length (join c (p ∷ ps)) + suc (length (join c (q ∷ qs))) ≡ length (join c (p ∷ ps ++ q ∷ qs))
join-append-length c p q [] qs = unfold join in sym (join-cons-length c p q qs)
join-append-length c p q (r ∷ ps) qs = omega (
  arith,
  join-cons-length c p r ps,
  join-cons-length c p r (ps ++ q ∷ qs),
  join-append-length c r q ps qs,
)

-- The chunks of lines are no longer than the lines joined.
lines_from-total :
    (max_tokens : ℕ) (current lines : List Text)
    → total (lines_from max_tokens current lines) ≤ length (join newline (current ++ lines))
unfolding lines_from
lines_from-total max_tokens [] [] = omega arith
lines_from-total max_tokens (l ∷ current) [] =
    rw append-nil (omega (arith, trim-length (join newline (l ∷ current))))
lines_from-total max_tokens [] (line ∷ lines) = lines_from-total max_tokens (line ∷ []) lines
lines_from-total max_tokens (l ∷ current) (line ∷ lines) =
    go (ltb max_tokens (estimate_token_count (trim (join newline (l ∷ current ++ line ∷ [])))))
      (lines_from-total max_tokens (line ∷ []) lines)
      (lines_from-total max_tokens (l ∷ current ++ line ∷ []) lines)
  where
    go :
        (b : Bool)
        → total (lines_from max_tokens (line ∷ []) lines) ≤ length (join newline (line ∷ lines))
        → total (lines_from max_tokens (l ∷ current ++ line ∷ []) lines)
          ≤ length (join newline ((l ∷ current ++ line ∷ []) ++ lines))
        → let chunks : List Text = elim b [
          | true ↦ trim (join newline (l ∷ current)) ∷ lines_from max_tokens (line ∷ []) lines
          | false ↦ lines_from max_tokens (l ∷ current ++ line ∷ []) lines
        ] in
          total chunks ≤ length (join newline (l ∷ current ++ line ∷ lines))
    go true h k = omega (
      arith,
      h,
      trim-length (join newline (l ∷ current)),
      join-append-length newline l line current lines,
    )
    go false h k = rw (append_assoc current (line ∷ []) lines) at k

pub split_by_lines-total :
    (text : Text) (max_tokens : ℕ) → total (split_by_lines text max_tokens) ≤ length text
unfolding split_by_lines
split_by_lines-total text max_tokens = omega (
  arith,
  filter-total (lines_from max_tokens [] (split newline text)),
  lines_from-total max_tokens [] (split newline text),
  ap length (join-split newline text),
)

pub split_by_lines-Full : (text : Text) (max_tokens : ℕ) → Full (split_by_lines text max_tokens)
unfolding split_by_lines
split_by_lines-Full text max_tokens = filter-Full (lines_from max_tokens [] (split newline text))

-- What `split` gives for a regular expression: parts of the text that do not overlap.
abbrev pub IsSplit : (Text → List Text) → Type 0
IsSplit parts = (t : Text) → total (parts t) ≤ length t

or_whole-total :
    (part : Text) (ps : List Text) → total ps ≤ length part → total (or_whole part ps) ≤ length part
or_whole-total part [] h = omega arith
or_whole-total part (p ∷ ps) h = h

or_whole-Full :
    (part : Text) (ps : List Text) → truthy part ≡ true → Full ps → Full (or_whole part ps)
or_whole-Full part [] h f = (h, tt)
or_whole-Full part (p ∷ ps) h f = f

module _ (patterns : Patterns) (split_paragraphs : IsSplit patterns.paragraphs)
    (split_fences : IsSplit patterns.fences) where
  pub split_by_paragraphs-Full : (text : Text) → Full (split_by_paragraphs patterns text)
  unfolding split_by_paragraphs
  split_by_paragraphs-Full text = filter-Full (map trim (patterns.paragraphs text))

  pub split_by_paragraphs-total :
      (text : Text) → total (split_by_paragraphs patterns text) ≤ length text
  unfolding split_by_paragraphs
  split_by_paragraphs-total text =
      omega (arith, trimmed_parts-total (patterns.paragraphs text), split_paragraphs text)

  expand_parts-total : (ps : List Text) → total (expand_parts patterns ps) ≤ total ps
  unfolding expand_parts
  expand_parts-total [] = omega arith
  expand_parts-total (p ∷ ps) = elim (Bool-cases (is_fenced p)) [
    | inl y ↦ ground (arith, expand_parts-total ps)
    | inr nn ↦ rw nn (
        omega (
          arith,
          expand_parts-total ps,
          total-append (or_whole p (split_by_paragraphs patterns p)) (expand_parts patterns ps),
          or_whole-total p (split_by_paragraphs patterns p) (split_by_paragraphs-total p),
        ))
  ]

  expand_parts-Full : (ps : List Text) → Full ps → Full (expand_parts patterns ps)
  unfolding expand_parts
  expand_parts-Full [] f = tt
  expand_parts-Full (p ∷ ps) (h, f) = elim (Bool-cases (is_fenced p)) [
    | inl y ↦ rw y (h, expand_parts-Full ps f)
    | inr nn ↦ rw nn (
        All-append (λ q. truthy q ≡ true) (or_whole p (split_by_paragraphs patterns p))
          (expand_parts patterns ps)
          (or_whole-Full p (split_by_paragraphs patterns p) h (split_by_paragraphs-Full p))
          (expand_parts-Full ps f))
  ]

  natural_parts_sound :
      (text : Text) (ps : List Text)
      → Full ps
      → total ps ≤ length text
      → Full (natural_parts patterns text ps)
        × (total (natural_parts patterns text ps) ≤ length text)
  unfolding natural_parts
  natural_parts_sound text [] f h = (split_by_paragraphs-Full text, split_by_paragraphs-total text)
  natural_parts_sound text (p ∷ ps) f h =
      (expand_parts-Full (p ∷ ps) f, omega (arith, expand_parts-total (p ∷ ps)))

  pub split_natural_parts_sound :
      (text : Text)
      → Full (split_natural_parts patterns text)
        × (total (split_natural_parts patterns text) ≤ length text)
  unfolding split_natural_parts
  split_natural_parts_sound text =
      natural_parts_sound text (trimmed_parts (patterns.fences text))
        (filter-Full (map trim (patterns.fences text)))
        (omega (arith, trimmed_parts-total (patterns.fences text), split_fences text))
