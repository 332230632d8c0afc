-- ===== src/Storage/PathSafety/Refines.antt =====
-- `normalizeRelativePath` computes exactly the walk of the module above.
use mathlib.Core.List.{reverse, reverse-append, reverse-reverse}
use evukb.Common.{
  ℕ, List, [], ◌∷◌, ◌++◌, ◌≡◌, refl, sym, ap, append-nil, ◌∙◌, ◌≢◌, Bool, true, false, not, ◌||◌,
  if◌then◌else◌, arith, any, All, All-append, All-imp, All-and, Option, none, some, Bool-cases, inl,
  inr, Result, ok, err,
}
use evukb.Common.Text.{
  Text, text_eq, text_eq_iff, starts_with, ends_with, includes, split, join, replace_char,
}
use evukb.Common.Text.Split.{
  Lacks, split-Lacks, split-All, split-join, join-All, join-snoc, replace_char-Lacks,
}
use evukb.Storage.Posix.{
  slash, dot, dotdot, climb, norm_step, norm_segments, is_absolute, closing_slash, normalized_text,
  normalize,
}
use evukb.Storage.PathSafety.{
  PathError, unsafe_path, backslash, is_unsafe, unsafe_from, normalize_relative_path,
}
use evukb.Storage.PathSafety.Scan.{
  is_dotdot, unsafe_from-segments, starts_with-unsafe, includes-unsafe,
}
use evukb.Storage.PathSafety.Walk.{
  walk, located, arrive, contained_path, IsPlain, EndsUp, norm_segments-walk, Agrees,
}

-- The segments hold neither separator.
abbrev pub IsClean : Text → Type 0
IsClean s = Lacks slash s × Lacks backslash s

-- What holds of ".." and of every segment holds of the segments that are kept.
norm_segments-All :
    (P : Text → Type 0) (above : Bool) (stack segs : List Text)
    → P dotdot
    → All P stack
    → All P segs
    → All P (norm_segments above stack segs)
unfolding norm_segments norm_step climb
norm_segments-All P above stack [] d h k = h
norm_segments-All P above [] (seg ∷ segs) d h (k, ks) =
    norm_segments-All P above (norm_step above [] seg) segs d (ground arith) ks
norm_segments-All P above (top ∷ rest) (seg ∷ segs) d h (k, ks) =
    norm_segments-All P above (norm_step above (top ∷ rest) seg) segs d (ground arith) ks

pub reverse-All : (P : Text → Type 0) (xs : List Text) → All P xs → All P (reverse xs)
reverse-All P [] h = tt
reverse-All P (x ∷ xs) (p, h) =
    rw (reverse-append (x ∷ []) xs)
      (All-append P (reverse xs) (x ∷ []) (reverse-All P xs h) (p, tt))

any-append : (p : Text → Bool) (xs ys : List Text) → any p (xs ++ ys) ≡ (any p xs || any p ys)
any-append p [] ys = refl
any-append p (x ∷ xs) ys = ground (arith, any-append p xs ys)

any-reverse : (p : Text → Bool) (xs : List Text) → any p (reverse xs) ≡ any p xs
any-reverse p [] = refl
any-reverse p (x ∷ xs) =
    rw (reverse-append (x ∷ []) xs, any-append p (reverse xs) (x ∷ []), any-reverse p xs)
      (ground arith)

any-plain : (xs : List Text) → All IsPlain xs → any is_dotdot xs ≡ false
any-plain [] h = refl
any-plain (x ∷ xs) (p, h) = ground (arith, text_eq_iff x dotdot, any-plain xs h)

EndsUp-any : (xs : List Text) → EndsUp xs → any is_dotdot xs ≡ true
EndsUp-any [] h = absurd h
EndsUp-any (x ∷ []) h = ground (arith, text_eq_iff x dotdot)
EndsUp-any (x ∷ y ∷ ys) h = ground (arith, EndsUp-any (y ∷ ys) h)

abbrev pub closing_part : Bool → List Text
closing_part trailing = if trailing then [] ∷ [] else []

any-closing_part : (trailing : Bool) → any is_dotdot (closing_part trailing) ≡ false
unfolding text_eq
any-closing_part trailing = ground arith

-- The segments of the text that the code tests.
-- A text whose first segment is plain passes the tests for "", "." and a leading slash.
pub plain_start :
    (r s : Text) (ss : List Text)
    → split slash r ≡ s ∷ ss
    → IsPlain s
    → (text_eq r [] || text_eq r dot || starts_with (slash ∷ []) r) ≡ false
unfolding split text_eq starts_with
plain_start [] s ss e (n, _, _) = absurd (n (cc e))
plain_start (c ∷ []) s ss e (n, m, _) = ground (arith, text_eq_iff s dot)
plain_start (c ∷ d ∷ t) s ss e (n, _, _) = ground arith

module _ (s : Text) (ss : List Text) (clean : All IsClean (s ∷ ss)) where
  body-eq-join :
      (trailing : Bool)
      → join slash (s ∷ ss) ++ closing_slash trailing ≡ join slash (s ∷ ss ++ closing_part trailing)
  body-eq-join true = join-snoc slash s ss
  body-eq-join false = rw (append-nil, append-nil)

  closing-IsClean : (trailing : Bool) → All IsClean (s ∷ ss ++ closing_part trailing)
  closing-IsClean true = All-append IsClean (s ∷ ss) ([] ∷ []) clean ((tt, tt), tt)
  closing-IsClean false = All-append IsClean (s ∷ ss) [] clean tt

  pub split-body :
      (trailing : Bool)
      → split slash (join slash (s ∷ ss) ++ closing_slash trailing)
        ≡ s ∷ ss ++ closing_part trailing
  split-body trailing = rw (body-eq-join trailing) (
      split-join slash s (ss ++ closing_part trailing) (
        All-imp IsClean (Lacks slash) (s ∷ ss ++ closing_part trailing) (λ x c. c.0)
          (closing-IsClean trailing)))

  pub body-Lacks :
      (trailing : Bool) → Lacks backslash (join slash (s ∷ ss) ++ closing_slash trailing)
  body-Lacks trailing = rw (body-eq-join trailing) (
      join-All (λ d. d ≢ backslash) slash _ (omega arith)
        (All-imp IsClean (Lacks backslash) (s ∷ ss ++ closing_part trailing) (λ x c. c.1)
          (closing-IsClean trailing)))

  unsafe_from-body :
      (trailing : Bool)
      → unsafe_from true (join slash (s ∷ ss) ++ closing_slash trailing) ≡ any is_dotdot (s ∷ ss)
  unsafe_from-body trailing =
      unsafe_from-segments _ (body-Lacks trailing)
      ∙ ap (any is_dotdot) (split-body trailing)
      ∙ any-append is_dotdot (s ∷ ss) (closing_part trailing)
      ∙ ground (arith, any-closing_part trailing)

  -- A ".." among the segments is found.
  is_unsafe-dotdot :
      (trailing : Bool)
      → any is_dotdot (s ∷ ss) ≡ true
      → is_unsafe (join slash (s ∷ ss) ++ closing_slash trailing) ≡ true
  unfolding is_unsafe
  is_unsafe-dotdot trailing h = ground (arith, unsafe_from-body trailing)

  -- Plain segments pass every test.
  is_unsafe-plain :
      (trailing : Bool)
      → All IsPlain (s ∷ ss)
      → is_unsafe (join slash (s ∷ ss) ++ closing_slash trailing) ≡ false
  unfolding is_unsafe
  is_unsafe-plain trailing (p, h) =
      let body = join slash (s ∷ ss) ++ closing_slash trailing in
      let safe = unsafe_from-body trailing ∙ any-plain (s ∷ ss) (p, h) in
      ground (
        arith,
        plain_start body s (ss ++ closing_part trailing) (split-body trailing) p,
        safe,
        starts_with-unsafe body safe,
        includes-unsafe true body safe,
      )

pub cleaned : (t : Text) → All IsClean (split slash (replace_char backslash slash t))
cleaned t =
    let u = replace_char backslash slash t in
    All-and (Lacks slash) (Lacks backslash) (split slash u) (split-Lacks slash u)
      (split-All (λ d. d ≢ backslash) slash u (replace_char-Lacks backslash slash t (omega arith)))

pub kept-IsClean :
    (segs : List Text) → All IsClean segs → All IsClean (reverse (norm_segments true [] segs))
kept-IsClean segs h =
    reverse-All IsClean _ (norm_segments-All IsClean true [] segs (omega arith) tt h)

-- The code's verdict on the text that normalisation gives for the kept segments.
abbrev judged : Text → Result PathError Text
judged t = if is_unsafe t then err unsafe_path else ok t

judged-plain :
    (trailing : Bool) (kept : List Text)
    → kept ≢ []
    → All IsClean kept
    → All IsPlain kept
    → judged (normalized_text false trailing kept) ≡ ok (join slash kept ++ closing_slash trailing)
unfolding normalized_text
judged-plain trailing [] n c h = absurd (n refl)
judged-plain trailing (s ∷ ss) n c h = rw (is_unsafe-plain s ss c trailing h)

judged-dotdot :
    (trailing : Bool) (kept : List Text)
    → All IsClean kept
    → any is_dotdot kept ≡ true
    → judged (normalized_text false trailing kept) ≡ err unsafe_path
unfolding normalized_text
judged-dotdot trailing [] c h = cc
judged-dotdot trailing (s ∷ ss) c h = rw (is_unsafe-dotdot s ss c trailing h)

judged-empty : (trailing : Bool) → judged (normalized_text false trailing []) ≡ located trailing []
unfolding normalized_text is_unsafe located text_eq starts_with includes
judged-empty true = refl
judged-empty false = refl

judged-absolute :
    (trailing : Bool) (kept : List Text)
    → judged (normalized_text true trailing kept) ≡ err unsafe_path
unfolding normalized_text is_unsafe text_eq starts_with
judged-absolute trailing [] = ground arith
judged-absolute trailing (s ∷ ss) = ground arith

pub reverse-ne-nil : (x : Text) (xs : List Text) → reverse (x ∷ xs) ≢ []
reverse-ne-nil x xs e =
    let back : x ∷ xs ≡ [] = sym (reverse-reverse (x ∷ xs)) ∙ ap reverse e in cc back

judged-located :
    (trailing : Bool) (stack : List Text)
    → All IsClean (reverse stack)
    → All IsPlain stack
    → judged (normalized_text false trailing (reverse stack)) ≡ located trailing stack
unfolding located
judged-located trailing [] c h = judged-empty trailing
judged-located trailing (x ∷ xs) c h =
    judged-plain trailing (reverse (x ∷ xs)) (reverse-ne-nil x xs) c
      (reverse-All IsPlain (x ∷ xs) h)

judged-walk :
    (trailing : Bool) (stack : List Text) (o : Option (List Text))
    → All IsClean (reverse stack)
    → Agrees stack o
    → judged (normalized_text false trailing (reverse stack)) ≡ arrive trailing o
judged-walk trailing stack none c h =
    judged-dotdot trailing (reverse stack) c (any-reverse is_dotdot stack ∙ EndsUp-any stack h)
judged-walk trailing stack (some s) c (same, h) =
    rw same (judged-located trailing s (rw same at c) h)

normalize-cons :
    (d : ℕ) (t : Text)
    → normalize (d ∷ t)
      ≡ normalized_text
          (is_absolute (d ∷ t))
          (ends_with (slash ∷ []) (d ∷ t))
          (reverse (norm_segments (not (is_absolute (d ∷ t))) [] (split slash (d ∷ t))))
unfolding normalize
normalize-cons d t = refl

judged-normalize :
    (t : Text)
    → All IsClean (split slash t)
    → judged (normalize t) ≡ (
        if is_absolute t
        then err unsafe_path
        else arrive (ends_with (slash ∷ []) t) (walk [] (split slash t)))
judged-normalize [] c =
    unfold normalize is_unsafe walk located text_eq starts_with ends_with split includes in refl
judged-normalize (d ∷ t) c =
    let segs = split slash (d ∷ t) in
    elim (Bool-cases (is_absolute (d ∷ t))) [
      | inl e ↦ rw (normalize-cons d t, e) (judged-absolute _ _)
      | inr e ↦
          rw (normalize-cons d t, e)
            (judged-walk (ends_with (slash ∷ []) (d ∷ t)) (norm_segments true [] segs)
              (walk [] segs) (kept-IsClean segs c) (norm_segments-walk [] segs tt))
    ]

-- `normalizeRelativePath` gives the place that the walk reaches, and fails exactly where the path
-- is absolute, leaves its start or, without a slash at its end, is the start itself.
pub normalize_relative_path-eq-contained_path :
    (input : Text) → normalize_relative_path input ≡ contained_path input
unfolding normalize_relative_path contained_path
normalize_relative_path-eq-contained_path input =
    judged-normalize (replace_char backslash slash input) (cleaned input)
