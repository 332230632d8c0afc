-- ===== src/Markdown/Document.antt =====
-- packages/kb-core/src/markdown/chunker.ts, `chunkMarkdownBody`: a document is cut at its headings,
-- and each section is one chunk or several. The regular expression of headings is a parameter: the
-- level and the title of a line that is a heading.
pub mod Laws
use evukb.Common.{
  ℕ, zero, suc, ◌+◌, ◌≤◌, ◌<◌, List, [], ◌∷◌, ◌++◌, ◌≡◌, refl, Bool, true, false, not, ◌&&◌, ◌||◌,
  ◌==◌, leb, ltb, if◌then◌else◌, filter, length, map, Option, none, some, All, arith, Bool-cases,
  inl, inr, ◌-◌,
}
use evukb.Common.Text.{Text, codes, is_space, trim, truthy, split, join}
use evukb.Markdown.Chunker.{
  Patterns, newline, take, estimate_token_count, split_natural_parts, cap_split_text,
}

pub data Strategy : Type 0 where
  headings headings_subsplit headings_subsplit_capped : Strategy

pub record Options : Type 0 where
  pub strategy : Option Strategy
  pub max_chunk_tokens : Option ℕ

pub record Section : Type 0 where
  pub heading_path : List Text
  pub lines : List Text

pub record Heading : Type 0 where
  pub level : ℕ
  pub title : Text

pub record Body : Type 0 where
  pub heading_path : List Text
  pub body : Text

pub record Chunk : Type 0 where
  pub ordinal : ℕ
  pub heading_path : List Text
  pub body : Text
  pub body_preview : Text
  pub token_count : ℕ

-- body.replace(/\s+/g, ' '), where `inside` says that a run of white space has begun.
unfoldable pub collapse : Bool → Text → Text
unfolding is_space
collapse inside [] = []
collapse inside (c ∷ t) =
    let rest = collapse (is_space c) t in
    if is_space c then if inside then rest else b' ' ∷ rest else c ∷ rest

unfoldable pub make_preview : Text → Text
unfolding collapse trim take
make_preview body =
    let normalized = trim (collapse false body) in
    if leb (length normalized) 240 then normalized else take 239 normalized ++ 8230 ∷ []

-- The loop that removes the headings of the same level and below, the newest heading first.
unfoldable pub pop_headings : ℕ → List Heading → List Heading
pop_headings level [] = []
pop_headings level (h ∷ stack) =
    let rest = pop_headings level stack in if leb level h.level then rest else h ∷ stack

abbrev pub push_heading : Heading → List Heading → List Heading
push_heading h stack = h ∷ pop_headings h.level stack

-- headingStack.map((entry) => entry.title), the oldest heading first
unfoldable pub titles : List Heading → List Text
titles [] = []
titles (h ∷ stack) = titles stack ++ h.title ∷ []

abbrev pub has_lines : Section → Bool
has_lines section = elim section.lines [ [] ↦ false | _ ∷ _ ↦ true ]

-- body.split(/\r?\n/), from the parts of a split at line feeds
unfoldable pub drop_return : Text → Text
drop_return [] = []
drop_return (c ∷ []) = if c == 13 then [] else c ∷ []
drop_return (c ∷ d ∷ t) = c ∷ drop_return (d ∷ t)

unfoldable pub drop_returns : List Text → List Text
unfolding drop_return
drop_returns [] = []
drop_returns (l ∷ []) = l ∷ []
drop_returns (l ∷ m ∷ ls) = drop_return l ∷ drop_returns (m ∷ ls)

abbrev pub body_of : Section → Text
body_of section = trim (join newline section.lines)

module _ (heading_of : Text → Option Heading) where
  -- The loop over the lines: the sections from here on. `started` says that there is one already.
  unfoldable pub sections_from : List Heading → Bool → Section → List Text → List Section
  unfolding pop_headings titles
  sections_from stack started current [] = current ∷ []
  sections_from stack started current (line ∷ lines) = elim (heading_of line) [
    | none ↦
        sections_from stack started (record current { lines = current.lines ++ line ∷ [] }) lines
    | some h ↦
        let next = push_heading h stack in
        let rest =
          sections_from next true (record { heading_path = titles next; lines = [] }) lines in
        if has_lines current || not started then current ∷ rest else rest
  ]

  module _ (patterns : Patterns) (options : Options) where
    -- `capSplitText`, on enough fuel.
    abbrev pub capped : Text → List Text
    capped part =
        let max_tokens : ℕ = elim options.max_chunk_tokens [ none ↦ 512 | some n ↦ n ] in
        elim (cap_split_text patterns (suc (length part)) max_tokens part) [
          | none ↦ []
          | some chunks ↦ chunks
        ]

    abbrev pub flat_capped : List Text → List Text
    flat_capped [] = []
    flat_capped (p ∷ ps) = capped p ++ flat_capped ps

    abbrev pub bodies_of : Option Strategy → Text → List Text
    bodies_of none body = body ∷ []
    bodies_of (some headings) body = body ∷ []
    bodies_of (some headings_subsplit) body = split_natural_parts patterns body
    bodies_of (some headings_subsplit_capped) body = flat_capped (split_natural_parts patterns body)

    unfoldable pub expand_section_bodies : List Section → List Body
    unfolding split_natural_parts cap_split_text trim join
    expand_section_bodies [] = []
    expand_section_bodies (s ∷ ss) =
        let rest = expand_section_bodies ss in
        let bodies = filter truthy (map trim (bodies_of options.strategy (body_of s))) in
        if truthy (body_of s)
        then map (λ b. record { heading_path = s.heading_path; body = b }) bodies ++ rest
        else rest

    unfoldable pub number_from : ℕ → List Body → List Chunk
    unfolding make_preview estimate_token_count
    number_from n [] = []
    number_from n (b ∷ bs) =
        record {
          ordinal = n;
          heading_path = b.heading_path;
          body = b.body;
          body_preview = make_preview b.body;
          token_count = estimate_token_count b.body;
        }
        ∷ number_from (suc n) bs

    abbrev pub empty_chunk : Chunk
    empty_chunk = record {
      ordinal = 0;
      heading_path = [];
      body = [];
      body_preview = [];
      token_count = 0;
    }

    abbrev pub chunks_of : List Body → List Chunk
    chunks_of [] = empty_chunk ∷ []
    chunks_of (b ∷ bs) = number_from 0 (b ∷ bs)

    abbrev pub or_blank : List Section → List Section
    or_blank [] = record { heading_path = []; lines = [] ∷ [] } ∷ []
    or_blank (s ∷ ss) = s ∷ ss

    unfoldable pub chunk_markdown_body : Text → List Chunk
    unfolding sections_from expand_section_bodies number_from drop_returns split
    chunk_markdown_body body =
        let lines = drop_returns (split newline body) in
        let start : Section = record { heading_path = []; lines = [] } in
        let sections = sections_from [] false start lines in
        let full = filter (λ s. truthy (body_of s)) sections in
        chunks_of (expand_section_bodies (or_blank full))
