-- ===== src/Markdown/Chunker.antt =====
-- packages/kb-core/src/markdown/chunker.ts, the functions that cut a text into pieces. The regular
-- expressions of blank lines and of fenced blocks are the parameter `Patterns`: what `split` makes
-- of a text with each of them. `capSplitText` runs on fuel; Chunker/Termination.antt shows how much
-- is enough. The product by 1.3 is rounded up from tenths, as the double of 1.3 rounds it for
-- numbers of words below 2 ^ 40.
pub mod Sizes
pub mod Termination
use evukb.Common.{
  ℕ, zero, suc, ◌+◌, ◌*◌, ◌/◌, List, [], ◌∷◌, ◌++◌, Bool, true, false, not, ◌&&◌, ◌==◌, ltb, leb,
  if◌then◌else◌, filter, drop, length, map, Option, none, some,
}
use evukb.Common.Text.{Text, codes, starts_with, ends_with, is_space, trim, truthy, split, join}

pub record Patterns : Type 0 where
  -- text.split(/\n\s*\n/)
  pub paragraphs : Text → List Text
  -- text.split(/(```[\s\S]*?```)/g)
  pub fences : Text → List Text

abbrev pub newline : ℕ
newline = 10

-- The number of runs of characters that are no white space.
unfoldable pub words_from : Bool → Text → ℕ
unfolding is_space
words_from inside [] = 0
words_from inside (c ∷ t) =
    let rest = words_from (not (is_space c)) t in
    if not inside && not (is_space c) then suc rest else rest

-- Math.ceil(words * 1.3), and 0 for a blank text, which has no words.
unfoldable pub estimate_token_count : Text → ℕ
unfolding words_from
estimate_token_count t = (words_from false t * 13 + 9) / 10

-- Trims the parts and drops those that are empty then.
abbrev pub trimmed_parts : List Text → List Text
trimmed_parts ps = filter truthy (map trim ps)

abbrev pub is_fenced : Text → Bool
is_fenced part = starts_with (codes "```") part && ends_with (codes "```") part

abbrev pub or_whole : Text → List Text → List Text
or_whole part [] = part ∷ []
or_whole part (p ∷ ps) = p ∷ ps

-- text.slice(0, n)
unfoldable pub take : ℕ → Text → Text
take zero t = []
take (suc n) [] = []
take (suc n) (c ∷ t) = c ∷ take n t

-- The loop of `splitByLines`, with the lines of the current chunk.
unfoldable pub lines_from : ℕ → List Text → List Text → List Text
unfolding estimate_token_count trim join
lines_from max_tokens [] [] = []
lines_from max_tokens (l ∷ current) [] = trim (join newline (l ∷ current)) ∷ []
lines_from max_tokens [] (line ∷ lines) = lines_from max_tokens (line ∷ []) lines
lines_from max_tokens (l ∷ current) (line ∷ lines) =
    elim (ltb max_tokens (estimate_token_count (trim (join newline (l ∷ current ++ line ∷ []))))) [
      | true ↦ trim (join newline (l ∷ current)) ∷ lines_from max_tokens (line ∷ []) lines
      | false ↦ lines_from max_tokens (l ∷ current ++ line ∷ []) lines
    ]

unfoldable pub split_by_lines : Text → ℕ → List Text
unfolding lines_from split
split_by_lines text max_tokens = filter truthy (lines_from max_tokens [] (split newline text))

-- Math.max(256, maxTokens * 3)
abbrev pub max_chars : ℕ → ℕ
max_chars max_tokens = if leb 256 (max_tokens * 3) then max_tokens * 3 else 256

-- The loop of `splitByCharacters`, which advances by at least one character: one turn for each
-- character of the text is enough.
unfoldable pub slices : ℕ → ℕ → Text → List Text
unfolding take trim
slices size zero text = []
slices size (suc turns) [] = []
slices size (suc turns) (c ∷ text) =
    trim (take size (c ∷ text)) ∷ slices size turns (drop size (c ∷ text))

unfoldable pub split_by_characters : Text → ℕ → List Text
unfolding slices
split_by_characters text max_tokens =
    filter truthy (slices (max_chars max_tokens) (length text) text)

-- parts.length > 1
abbrev pub is_several : List Text → Bool
is_several [] = false
is_several (p ∷ []) = false
is_several (p ∷ q ∷ ps) = true

abbrev pub append_both : Option (List Text) → Option (List Text) → Option (List Text)
append_both none _ = none
append_both (some ps) none = none
append_both (some ps) (some qs) = some (ps ++ qs)

-- parts.flatMap, of a function that may run out of fuel
abbrev pub flat_map : (Text → Option (List Text)) → List Text → Option (List Text)
flat_map f [] = some []
flat_map f (p ∷ ps) = append_both (f p) (flat_map f ps)

module _ (patterns : Patterns) where
  unfoldable pub split_by_paragraphs : Text → List Text
  unfolding trim
  split_by_paragraphs text = trimmed_parts (patterns.paragraphs text)

  unfoldable pub expand_parts : List Text → List Text
  unfolding split_by_paragraphs starts_with ends_with
  expand_parts [] = []
  expand_parts (part ∷ parts) =
      let rest = expand_parts parts in
      if is_fenced part then part ∷ rest else or_whole part (split_by_paragraphs part) ++ rest

  unfoldable pub natural_parts : Text → List Text → List Text
  unfolding expand_parts
  natural_parts text [] = split_by_paragraphs text
  natural_parts text (p ∷ ps) = expand_parts (p ∷ ps)

  unfoldable pub split_natural_parts : Text → List Text
  unfolding natural_parts trim
  split_natural_parts text = natural_parts text (trimmed_parts (patterns.fences text))

  -- The last two attempts of `capSplitText`.
  abbrev pub by_characters : Text → ℕ → List Text
  by_characters trimmed max_tokens =
      let chunks = split_by_characters trimmed max_tokens in
      if is_several chunks then chunks else trimmed ∷ []

  -- The attempts to cut a text that has too many tokens, each with what it cuts the text into.
  abbrev pub attempts : (Text → Option (List Text)) → ℕ → Text → Option (List Text)
  attempts recur max_tokens trimmed =
      let paragraphs = split_by_paragraphs trimmed in
      let parts = split_natural_parts trimmed in
      let lines = split_by_lines trimmed max_tokens in
      elim (is_several paragraphs) [
        | true ↦ flat_map recur paragraphs
        | false ↦ elim (is_several parts) [
          | true ↦ flat_map recur parts
          | false ↦ elim (is_several lines) [
            | true ↦
                flat_map
                  (λ chunk.
                    if ltb max_tokens (estimate_token_count chunk)
                    then recur chunk
                    else some (chunk ∷ []))
                  lines
            | false ↦ some (by_characters trimmed max_tokens)
          ]
        ]
      ]

  unfoldable pub cap_split_text : ℕ → ℕ → Text → Option (List Text)
  unfolding split_by_paragraphs split_natural_parts split_by_lines split_by_characters
      estimate_token_count trim
  cap_split_text zero max_tokens text = none
  cap_split_text (suc fuel) max_tokens text =
      let trimmed = trim text in
      if not (truthy trimmed)
      then some []
      else if leb (estimate_token_count trimmed) max_tokens
      then some (trimmed ∷ [])
      else attempts (cap_split_text fuel max_tokens) max_tokens trimmed
