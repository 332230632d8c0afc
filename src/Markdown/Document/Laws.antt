-- ===== src/Markdown/Document/Laws.antt =====
-- The chunks of a document: their numbers, bodies and previews.
use evukb.Common.{
  ℕ, zero, suc, ◌≤◌, List, [], ◌∷◌, ◌≡◌, refl, ◌⊎◌, true, false, Bool-cases, inl, inr, length,
  length-append, arith, leb, filter, map, All, All-append, Option,
}
use evukb.Common.Text.{Text, trim, truthy}
use evukb.Common.Text.Trimmed.{trim_idem}
use evukb.Markdown.Chunker.{Patterns, take, estimate_token_count}
use evukb.Markdown.Document.{
  Options, Section, Heading, Body, Chunk, collapse, make_preview, bodies_of, body_of,
  expand_section_bodies, number_from, empty_chunk, chunks_of, chunk_markdown_body,
}

take-length : (n : ℕ) (t : Text) → length (take n t) ≤ n
unfolding take
take-length zero t = omega arith
take-length (suc n) [] = omega arith
take-length (suc n) (c ∷ t) = omega (arith, take-length n t)

pub make_preview-length : (body : Text) → length (make_preview body) ≤ 240
unfolding make_preview
make_preview-length body =
    let normalized = trim (collapse false body) in
    elim (Bool-cases (leb (length normalized) 240)) [
      | inl y ↦ rw y (ground arith)
      | inr nn ↦ rw nn (
          omega
            (arith, length-append (take 239 normalized) (8230 ∷ []), take-length 239 normalized))
    ]

-- A body that is not empty and has no white space at its ends.
abbrev pub IsTrimmed : Text → Type 0
IsTrimmed body = (truthy body ≡ true) × (trim body ≡ body)

abbrev pub HasBody : Body → Type 0
HasBody b = IsTrimmed b.body

trimmed-HasBody :
    (path : List Text) (ps : List Text)
    → All HasBody
        (map (λ b. record { heading_path = path; body = b }) (filter truthy (map trim ps)))
trimmed-HasBody path [] = tt
trimmed-HasBody path (p ∷ ps) = elim (Bool-cases (truthy (trim p))) [
  | inl y ↦ rw y ((y, trim_idem p), trimmed-HasBody path ps)
  | inr nn ↦ rw nn (trimmed-HasBody path ps)
]

module _ (patterns : Patterns) (heading_of : Text → Option Heading) (options : Options) where
  expand-HasBody :
      (ss : List Section) → All HasBody (expand_section_bodies heading_of patterns options ss)
  unfolding expand_section_bodies
  expand-HasBody [] = tt
  expand-HasBody (s ∷ ss) = elim (Bool-cases (truthy (body_of s))) [
    | inr nn ↦ rw nn (expand-HasBody ss)
    | inl y ↦ rw y (
        All-append HasBody _ (expand_section_bodies heading_of patterns options ss)
          (trimmed-HasBody s.heading_path
            (bodies_of heading_of patterns options options.strategy (body_of s)))
          (expand-HasBody ss))
  ]

-- Chunks with the numbers from `n` on: each with a body, a preview of at most 240 characters and
-- the estimate of its tokens.
abbrev pub NumberedFrom : ℕ → List Chunk → Type 0
NumberedFrom n [] = Unit
NumberedFrom n (c ∷ cs) =
    (c.ordinal ≡ n)
    × IsTrimmed c.body
    × (length c.body_preview ≤ 240)
    × (c.token_count ≡ estimate_token_count c.body)
    × NumberedFrom (suc n) cs

module _ (patterns : Patterns) (heading_of : Text → Option Heading) (options : Options) where
  number_from-NumberedFrom :
      (n : ℕ) (bs : List Body)
      → All HasBody bs
      → NumberedFrom n (number_from heading_of patterns options n bs)
  unfolding number_from
  number_from-NumberedFrom n [] h = tt
  number_from-NumberedFrom n (b ∷ bs) (x, h) =
      (refl, x, make_preview-length b.body, refl, number_from-NumberedFrom (suc n) bs h)

  -- A document without text has the one empty chunk.
  abbrev pub IsChunked : List Chunk → Type 0
  IsChunked cs =
      (cs ≡ empty_chunk heading_of patterns options ∷ []) ⊎ ((1 ≤ length cs) × NumberedFrom 0 cs)

  chunks_of-IsChunked :
      (bs : List Body) → All HasBody bs → IsChunked (chunks_of heading_of patterns options bs)
  chunks_of-IsChunked [] h = inl refl
  chunks_of-IsChunked (b ∷ bs) h =
      inr (unfold number_from in omega arith, number_from-NumberedFrom 0 (b ∷ bs) h)

  -- The chunks of a document are one empty chunk, or at least one chunk, which are numbered from 0
  -- in their order, and each of them has a body that is not empty and has no white space at its
  -- ends, a preview of at most 240 characters and the estimate of its body's tokens.
  pub chunk_markdown_body-IsChunked :
      (body : Text) → IsChunked (chunk_markdown_body heading_of patterns options body)
  unfolding chunk_markdown_body
  chunk_markdown_body-IsChunked body =
      chunks_of-IsChunked _ (expand-HasBody patterns heading_of options _)
