-- ===== src/Storage/PathSafety/Walk.antt =====
-- What `normalizeRelativePath` accepts, described without Node's normalisation: a walk over the
-- segments from a start directory, which fails as soon as a ".." would leave the start.
use mathlib.Core.List.{reverse}
use evukb.Common.{
  List, [], ◌∷◌, ◌++◌, ◌≡◌, refl, ◌≢◌, Bool, true, ◌||◌, if◌then◌else◌, arith, All, Option, none,
  some, Result, ok, err,
}
use evukb.Common.Text.{Text, codes, text_eq, text_eq_iff, ends_with, split, join, replace_char}
use evukb.Storage.Posix.{
  slash, dot, dotdot, climb, norm_step, norm_segments, is_absolute, closing_slash,
}
use evukb.Storage.PathSafety.{PathError, unsafe_path, backslash}

walk_step : List Text → Text → Option (List Text)
walk_step stack seg =
    if text_eq seg [] || text_eq seg dot
    then some stack
    else if text_eq seg dotdot
    then elim stack [ [] ↦ none | top ∷ rest ↦ some rest ]
    else some (seg ∷ stack)

-- The directories entered and not left again, the last one first.
unfoldable pub walk : List Text → List Text → Option (List Text)
unfolding walk_step
walk stack [] = some stack
walk stack (seg ∷ segs) = elim (walk_step stack seg) [ none ↦ none | some s ↦ walk s segs ]

-- The text of the place reached; the start itself has one only with a slash behind it.
unfoldable pub located : Bool → List Text → Result PathError Text
located trailing [] = if trailing then ok (codes "./") else err unsafe_path
located trailing (s ∷ ss) = ok (join slash (reverse (s ∷ ss)) ++ closing_slash trailing)

abbrev pub arrive : Bool → Option (List Text) → Result PathError Text
arrive trailing none = err unsafe_path
arrive trailing (some stack) = located trailing stack

unfoldable pub contained_path : Text → Result PathError Text
unfolding walk walk_step located
contained_path input =
    let t = replace_char backslash slash input in
    if is_absolute t
    then err unsafe_path
    else arrive (ends_with (slash ∷ []) t) (walk [] (split slash t))

-- A segment that names an entry of a directory.
abbrev pub IsPlain : Text → Type 0
IsPlain s = (s ≢ []) × (s ≢ dot) × (s ≢ dotdot)

-- The oldest segment on the stack is a "..".
abbrev pub EndsUp : List Text → Type 0
EndsUp [] = ⊥
EndsUp (x ∷ []) = x ≡ dotdot
EndsUp (x ∷ y ∷ ys) = EndsUp (y ∷ ys)

norm_step-EndsUp :
    (stack : List Text) (seg : Text) → EndsUp stack → EndsUp (norm_step true stack seg)
unfolding norm_step climb
norm_step-EndsUp [] seg h = absurd h
norm_step-EndsUp (x ∷ []) seg h = ground (arith, text_eq_iff x dotdot)
norm_step-EndsUp (x ∷ y ∷ ys) seg h = ground arith

norm_segments-EndsUp :
    (stack segs : List Text) → EndsUp stack → EndsUp (norm_segments true stack segs)
unfolding norm_segments
norm_segments-EndsUp stack [] h = h
norm_segments-EndsUp stack (seg ∷ segs) h =
    norm_segments-EndsUp (norm_step true stack seg) segs (norm_step-EndsUp stack seg h)

norm_step-walk :
    (stack : List Text) (seg : Text) {s : List Text}
    → All IsPlain stack
    → walk_step stack seg ≡ some s
    → (norm_step true stack seg ≡ s) × All IsPlain s
unfolding walk_step norm_step climb
norm_step-walk [] seg h e =
    ground (arith, text_eq_iff seg [], text_eq_iff seg dot, text_eq_iff seg dotdot)
norm_step-walk (top ∷ rest) seg h e =
    ground (
      arith,
      text_eq_iff seg [],
      text_eq_iff seg dot,
      text_eq_iff seg dotdot,
      text_eq_iff top dotdot,
    )

norm_step-lost :
    (stack : List Text) (seg : Text)
    → walk_step stack seg ≡ none
    → EndsUp (norm_step true stack seg)
unfolding walk_step norm_step climb
norm_step-lost [] seg e = ground arith
norm_step-lost (top ∷ rest) seg e = ground arith

-- The code's stack is the walk's, and ends with a ".." where the walk leaves the start.
abbrev pub Agrees : List Text → Option (List Text) → Type 0
Agrees stack none = EndsUp stack
Agrees stack (some s) = (stack ≡ s) × All IsPlain s

module _ (stack segs : List Text) (seg : Text) (h : All IsPlain stack)
    (ih : (s : List Text) → All IsPlain s → Agrees (norm_segments true s segs) (walk s segs)) where
  walk_step-Agrees :
      (o : Option (List Text))
      → walk_step stack seg ≡ o
      → Agrees
          (norm_segments true (norm_step true stack seg) segs)
          (elim o [ none ↦ none | some s ↦ walk s segs ])
  walk_step-Agrees none e =
      norm_segments-EndsUp (norm_step true stack seg) segs (norm_step-lost stack seg e)
  walk_step-Agrees (some s) e =
      let (same, plain) = norm_step-walk stack seg h e in rw same (ih s plain)

pub norm_segments-walk :
    (stack segs : List Text)
    → All IsPlain stack
    → Agrees (norm_segments true stack segs) (walk stack segs)
unfolding norm_segments walk
norm_segments-walk stack [] h = (refl, h)
norm_segments-walk stack (seg ∷ segs) h =
    walk_step-Agrees stack segs seg h (λ s p. norm_segments-walk s segs p) (walk_step stack seg)
      refl
