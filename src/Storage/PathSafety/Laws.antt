-- ===== src/Storage/PathSafety/Laws.antt =====
-- What the callers of `normalizeRelativePath` rely on: its results stay below the start, and it
-- leaves them as they are.
use mathlib.Core.List.{reverse, reverse-reverse, reverse-cons}
use evukb.Common.{
  ℕ, List, [], ◌∷◌, ◌++◌, ◌≡◌, refl, sym, ap, ◌∙◌, ◌≢◌, Bool, true, false, ◌||◌, ◌==◌,
  if◌then◌else◌, arith, All, All-imp, All-and, ◌↔◌, Option, none, some, ok, append_assoc,
  append-nil,
}
use evukb.Common.Text.{
  Text, codes, text_eq, text_eq_iff, starts_with, ends_with, split, join, replace_char, push_head,
}
use evukb.Common.Text.Split.{split-ne-nil, replace_char-id}
use evukb.Storage.Posix.{slash, dot, dotdot, norm_segments, closing_slash}
use evukb.Storage.PathSafety.{backslash, normalize_relative_path}
use evukb.Storage.PathSafety.Walk.{
  walk, located, arrive, contained_path, IsPlain, Agrees, norm_segments-walk,
}
use evukb.Storage.PathSafety.Refines.{
  IsClean, cleaned, closing_part, split-body, body-Lacks, reverse-All, kept-IsClean,
  normalize_relative_path-eq-contained_path, reverse-ne-nil, plain_start,
}

-- A directory entry's name: not empty, not "." or "..", and without separators.
abbrev pub IsName : Text → Type 0
IsName s = IsPlain s × IsClean s

-- The results: names joined by slashes, with a slash at the end or none; or "./".
pub data IsRelative : Text → Type 0 where
  start : {r : Text} → r ≡ codes "./" → IsRelative r
  below :
      (s : Text) (ss : List Text) (trailing : Bool) {r : Text}
      → All IsName (s ∷ ss)
      → r ≡ join slash (s ∷ ss) ++ closing_slash trailing
      → IsRelative r

last_empty : List Text → Bool
last_empty [] = false
last_empty (p ∷ []) = text_eq p []
last_empty (p ∷ q ∷ ps) = last_empty (q ∷ ps)

last_empty-cons : (p : Text) (ps : List Text) → ps ≢ [] → last_empty (p ∷ ps) ≡ last_empty ps
unfolding last_empty
last_empty-cons p [] n = absurd (n refl)
last_empty-cons p (q ∷ ps) n = refl

last_empty-push_head :
    (d : ℕ) (ps : List Text) → ps ≢ [] → ps ≢ [] ∷ [] → last_empty (push_head d ps) ≡ last_empty ps
unfolding last_empty text_eq
last_empty-push_head d [] n m = absurd (n refl)
last_empty-push_head d (p ∷ []) n m = ground (arith, text_eq_iff p [])
last_empty-push_head d (p ∷ q ∷ ps) n m = refl

split-ne-single : (c d : ℕ) (t : Text) → split c (d ∷ t) ≢ [] ∷ []
unfolding split
split-ne-single c d t = ground (arith, split-ne-nil c t)

split-cons :
    (c d : ℕ) (t : Text)
    → split c (d ∷ t) ≡ (if d == c then [] ∷ split c t else push_head d (split c t))
unfolding split
split-cons c d t = refl

ends_with-split :
    (d : ℕ) (t : Text) → ends_with (slash ∷ []) (d ∷ t) ≡ last_empty (split slash (d ∷ t))
unfolding ends_with text_eq
ends_with-split d [] = unfold split last_empty in ground arith
ends_with-split d (e ∷ t) = rw split-cons (
    ground (
      arith,
      ends_with-split e t,
      last_empty-cons [] (split slash (e ∷ t)) (split-ne-nil slash (e ∷ t)),
      last_empty-push_head d (split slash (e ∷ t)) (split-ne-nil slash (e ∷ t))
          (split-ne-single slash e t),
    ))

last_empty-names :
    (s : Text) (ss : List Text) (trailing : Bool)
    → All IsName (s ∷ ss)
    → last_empty (s ∷ ss ++ closing_part trailing) ≡ trailing
unfolding last_empty
last_empty-names s [] true h = unfold text_eq in refl
last_empty-names s [] false h = ground (arith, text_eq_iff s [])
last_empty-names s (q ∷ ps) trailing (_, h) = last_empty-names q ps trailing h

-- A walk over names enters them all.
walk-names :
    (stack segs : List Text) (trailing : Bool)
    → All IsName segs
    → walk stack (segs ++ closing_part trailing) ≡ some (reverse segs ++ stack)
unfolding walk
walk-names stack [] true h = unfold text_eq in refl
walk-names stack [] false h = refl
walk-names stack (s ∷ segs) trailing ((p, _), h) = ground (
  arith,
  text_eq_iff s [],
  text_eq_iff s dot,
  text_eq_iff s dotdot,
  walk-names (s ∷ stack) segs trailing h,
  reverse-cons s segs,
  append_assoc (reverse segs) (s ∷ []) stack,
)

ends_with_of_ne_nil : (t : Text) → t ≢ [] → ends_with (slash ∷ []) t ≡ last_empty (split slash t)
ends_with_of_ne_nil [] n = absurd (n refl)
ends_with_of_ne_nil (d ∷ t) n = ends_with-split d t

names-IsClean : (segs : List Text) → All IsName segs → All IsClean segs
names-IsClean segs h = All-imp IsName IsClean segs (λ s n. n.1) h

located-ne-nil :
    (trailing : Bool) (stack : List Text)
    → stack ≢ []
    → located trailing stack ≡ ok (join slash (reverse stack) ++ closing_slash trailing)
unfolding located
located-ne-nil trailing [] n = absurd (n refl)
located-ne-nil trailing (s ∷ ss) n = refl

-- Names joined by slashes, with a slash at the end or none, are their own canonical form.
module _ (s : Text) (ss : List Text) (trailing : Bool) (h : All IsName (s ∷ ss)) where
  abbrev body : Text
  body = join slash (s ∷ ss) ++ closing_slash trailing

  body_start : (text_eq body [] || text_eq body dot || starts_with (slash ∷ []) body) ≡ false
  body_start =
      plain_start body s (ss ++ closing_part trailing)
        (split-body s ss (names-IsClean (s ∷ ss) h) trailing) h.0.0

  ends_with-body : ends_with (slash ∷ []) body ≡ trailing
  ends_with-body =
      ends_with_of_ne_nil body (λ e. ground (arith, body_start, text_eq_iff body []))
      ∙ ap last_empty (split-body s ss (names-IsClean (s ∷ ss) h) trailing)
      ∙ last_empty-names s ss trailing h

  located-reverse : located trailing (reverse (s ∷ ss) ++ []) ≡ ok body
  located-reverse = rw append-nil (
      located-ne-nil trailing (reverse (s ∷ ss)) (reverse-ne-nil s ss)
      ∙ rw (reverse-reverse (s ∷ ss)))

  pub contained_path-body : contained_path body ≡ ok body
  unfolding contained_path
  contained_path-body =
      rw
        (replace_char-id backslash slash body (body-Lacks s ss (names-IsClean (s ∷ ss) h) trailing))
        (ground (
          arith,
          body_start,
          ends_with-body,
          split-body s ss (names-IsClean (s ∷ ss) h) trailing,
          walk-names [] (s ∷ ss) trailing h,
          located-reverse,
        ))

kept-IsRelative :
    (trailing : Bool) (kept : List Text) {r : Text}
    → kept ≢ []
    → All IsName kept
    → r ≡ join slash kept ++ closing_slash trailing
    → IsRelative r
kept-IsRelative trailing [] n h e = absurd (n refl)
kept-IsRelative trailing (s ∷ ss) n h e = below s ss trailing h e

located-IsRelative :
    (trailing : Bool) (stack : List Text) {r : Text}
    → All IsName (reverse stack)
    → located trailing stack ≡ ok r
    → IsRelative r
located-IsRelative trailing [] {r} h e = start {r = r} (unfold located in ground arith)
located-IsRelative trailing (x ∷ xs) h e =
    kept-IsRelative trailing (reverse (x ∷ xs)) (reverse-ne-nil x xs) h
      (unfold located in ground arith)

arrive-IsRelative :
    (trailing : Bool) (stack : List Text) (o : Option (List Text)) {r : Text}
    → All IsClean (reverse stack)
    → Agrees stack o
    → arrive trailing o ≡ ok r
    → IsRelative r
arrive-IsRelative trailing stack none c a e = cc
arrive-IsRelative trailing stack (some s) c (same, plain) e =
    located-IsRelative trailing s
      (All-and IsPlain IsClean (reverse s) (reverse-All IsPlain s plain) (rw same at c)) e

contained_path-IsRelative : (input r : Text) → contained_path input ≡ ok r → IsRelative r
contained_path-IsRelative input r e =
    let t = replace_char backslash slash input in
    arrive-IsRelative (ends_with (slash ∷ []) t) (norm_segments true [] (split slash t))
      (walk [] (split slash t)) (kept-IsClean (split slash t) (cleaned input))
      (norm_segments-walk [] (split slash t) tt) (unfold contained_path in ground arith)

contained_path_of_IsRelative : {r : Text} → IsRelative r → contained_path r ≡ ok r
contained_path_of_IsRelative (start e) =
    rw e (unfold contained_path text_eq starts_with ends_with split replace_char in refl)
contained_path_of_IsRelative (below s ss trailing h e) = rw e (contained_path-body s ss trailing h)

pub normalize_relative_path-IsRelative :
    (input r : Text) → normalize_relative_path input ≡ ok r → IsRelative r
normalize_relative_path-IsRelative input r e =
    contained_path-IsRelative input r (sym (normalize_relative_path-eq-contained_path input) ∙ e)

pub normalize_relative_path_of_IsRelative :
    {r : Text} → IsRelative r → normalize_relative_path r ≡ ok r
normalize_relative_path_of_IsRelative {r} h =
    normalize_relative_path-eq-contained_path r ∙ contained_path_of_IsRelative h

-- A text is a result of `normalizeRelativePath` exactly if it is "./" or consists of names, none
-- of them empty, "." or ".." or with a separator in it, joined by slashes with at most one slash
-- behind them; and `normalizeRelativePath` leaves exactly these texts as they are.
pub normalize_relative_path_iff :
    (r : Text)
    → (((input : Text) × (normalize_relative_path input ≡ ok r)) ↔ IsRelative r)
      × ((normalize_relative_path r ≡ ok r) ↔ IsRelative r)
normalize_relative_path_iff r = (
  (
    (λ p. normalize_relative_path-IsRelative p.0 r p.1),
    (λ h. (r, normalize_relative_path_of_IsRelative h)),
  ),
  (normalize_relative_path-IsRelative r r, normalize_relative_path_of_IsRelative),
)

join-first : (c : ℕ) (s : Text) (ss : List Text) → (t : Text) × (join slash ((c ∷ s) ∷ ss) ≡ c ∷ t)
unfolding join
join-first c s [] = (s, refl)
join-first c s (q ∷ ps) = (s ++ slash ∷ join slash (q ∷ ps), refl)

-- A relative path has a first character, and it is no slash.
pub IsRelative-first : {r : Text} → IsRelative r → (c : ℕ) × (t : Text) × (r ≡ c ∷ t) × (c ≢ slash)
IsRelative-first (start e) = (b'.', codes "/", e, omega arith)
IsRelative-first (below [] ss trailing h e) = absurd (h.0.0.0 refl)
IsRelative-first (below (c ∷ s) ss trailing h e) =
    let (t, same) = join-first c s ss in
    (c, t ++ closing_slash trailing, e ∙ ap (λ x. x ++ closing_slash trailing) same, h.0.1.0.0)
