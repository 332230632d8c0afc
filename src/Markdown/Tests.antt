-- ===== src/Markdown/Tests.antt =====
-- Texts cut at every line feed, with no fences, and the theorems about chunks on them.
use evukb.Common.{
  ℕ, List, [], ◌∷◌, ◌≡◌, ap, ◌<◌, none, some, arith, length, Option, drop, if◌then◌else◌,
}
use evukb.Common.Text.{Text, codes, starts_with, split}
use evukb.Common.Text.Split.{join-split}
use evukb.Markdown.Chunker.{Patterns, newline, cap_split_text}
use evukb.Markdown.Chunker.Sizes.{IsSplit, join-total}
use evukb.Markdown.Chunker.Termination.{cap_split_text_total}
use evukb.Markdown.Document.{Heading, Options, headings_subsplit_capped, chunk_markdown_body}
use evukb.Markdown.Document.Laws.{IsChunked, chunk_markdown_body-IsChunked}

abbrev patterns : Patterns
patterns = record { paragraphs = split newline; fences = λ t. t ∷ [] }

lines-IsSplit : IsSplit patterns.paragraphs
lines-IsSplit t =
    omega (arith, join-total newline (split newline t), ap length (join-split newline t))

whole-IsSplit : IsSplit patterns.fences
whole-IsSplit t = omega arith

abbrev two_lines : Text
two_lines = codes "one two three\nfour"

cap_split_text_total_example :
    (chunks : List Text) × ((fuel : ℕ)
      → length two_lines < fuel
      → cap_split_text patterns fuel 3 two_lines ≡ some chunks)
cap_split_text_total_example = cap_split_text_total patterns 3 lines-IsSplit whole-IsSplit two_lines

-- A line that starts with a number sign and a space is a heading of level 1.
abbrev heading_of : Text → Option Heading
heading_of line =
    if starts_with (codes "# ") line then some (record { level = 1; title = drop 2 line }) else none

abbrev options : Options
options = record { strategy = some headings_subsplit_capped; max_chunk_tokens = some 3 }

abbrev document : Text
document = codes "# A\none two three\nfour"

chunk_markdown_body-IsChunked_example :
    IsChunked patterns heading_of options (chunk_markdown_body heading_of patterns options document)
chunk_markdown_body-IsChunked_example =
    chunk_markdown_body-IsChunked patterns heading_of options document
