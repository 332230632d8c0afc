-- ===== src/Storage/PathSafety/Scan.antt =====
-- The scans of `normalizeRelativePath` against the segments of the text that they scan.
use evukb.Common.{ℕ, List, [], ◌∷◌, ◌≡◌, refl, ◌≢◌, Bool, true, false, arith, any}
use evukb.Common.Text.{Text, codes, text_eq, starts_with, includes, split}
use evukb.Common.Text.Split.{Lacks, split-ne-nil}
use evukb.Storage.Posix.{slash, dotdot}
use evukb.Storage.PathSafety.{is_separator, backslash, dotdot_here, unsafe_from}

abbrev pub is_dotdot : Text → Bool
is_dotdot s = text_eq s dotdot

abbrev first_part : List Text → Text
first_part [] = []
first_part (p ∷ ps) = p

abbrev later_parts : List Text → List Text
later_parts [] = []
later_parts (p ∷ ps) = ps

dotdot_here-split :
    (d : ℕ) (t : Text)
    → d ≢ slash
    → Lacks backslash t
    → dotdot_here (d ∷ t) ≡ is_dotdot (d ∷ first_part (split slash t))
unfolding dotdot_here split text_eq
dotdot_here-split d [] n h = ground arith
dotdot_here-split d (e ∷ []) n h = ground arith
dotdot_here-split d (e ∷ f ∷ u) n h = ground arith

dotdot_here-slash : (t : Text) → dotdot_here (slash ∷ t) ≡ false
unfolding dotdot_here
dotdot_here-slash [] = refl
dotdot_here-slash (e ∷ []) = refl
dotdot_here-slash (e ∷ f ∷ u) = refl

-- The scan that starts at a boundary, and the one that starts inside a segment.
unsafe_from-split :
    (t : Text)
    → Lacks backslash t
    → (unsafe_from true t ≡ any is_dotdot (split slash t))
      × (unsafe_from false t ≡ any is_dotdot (later_parts (split slash t)))
unfolding unsafe_from split text_eq
unsafe_from-split [] h = ground arith
unsafe_from-split (d ∷ t) (n, h) =
    ground (
      arith,
      unsafe_from-split t h,
      dotdot_here-split d t,
      dotdot_here-slash t,
      split-ne-nil slash t,
    )

-- Without backslashes the pattern finds exactly a segment "..".
pub unsafe_from-segments :
    (t : Text) → Lacks backslash t → unsafe_from true t ≡ any is_dotdot (split slash t)
unsafe_from-segments t h = (unsafe_from-split t h).0

-- The tests on "../" and "/../" find nothing that the pattern does not find.
pub starts_with-unsafe :
    (t : Text) → unsafe_from true t ≡ false → starts_with (codes "../") t ≡ false
unfolding unsafe_from starts_with dotdot_here
starts_with-unsafe [] h = refl
starts_with-unsafe (a ∷ []) h = ground arith
starts_with-unsafe (a ∷ b ∷ []) h = ground arith
starts_with-unsafe (a ∷ b ∷ c ∷ t) h = ground arith

slash_starts_with-unsafe :
    (b : Bool) (t : Text) → unsafe_from b t ≡ false → starts_with (codes "/../") t ≡ false
unfolding unsafe_from starts_with
slash_starts_with-unsafe b [] h = refl
slash_starts_with-unsafe b (c ∷ t) h = ground (arith, starts_with-unsafe t)

pub includes-unsafe :
    (b : Bool) (t : Text) → unsafe_from b t ≡ false → includes (codes "/../") t ≡ false
unfolding unsafe_from includes
includes-unsafe b [] h = slash_starts_with-unsafe b [] h
includes-unsafe b (c ∷ t) h =
    ground (arith, slash_starts_with-unsafe b (c ∷ t) h, includes-unsafe (is_separator c) t)
