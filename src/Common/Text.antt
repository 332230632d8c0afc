-- ===== src/Common/Text.antt =====
-- JavaScript strings as lists of UTF-16 code units, with the string methods that the program
-- calls: `===`, `startsWith`, `endsWith`, `includes`, `split`, `join`, `trim` and the
-- replacements of one character by another.
pub mod Split
pub mod Prefix
pub mod Trimmed
use Prim.Native.Nat.{ℕ}
use Prim.Native.Char.{code}
use Prim.Native.String.{String}
use mathlib.Core.Path.{◌≡◌, refl, ap}
use mathlib.Core.Logic.{◌≢◌, ◌↔◌}
use mathlib.Core.Bool.{Bool, true, false, not, ◌&&◌, ◌||◌}
use mathlib.Core.List.{List, [], ◌∷◌, ◌++◌, map, reverse}
use native.Mathlib.Omega.{arith}
use evukb.Common.Tests.{leb, ◌==◌, if◌then◌else◌}

abbrev pub Text : Type 0
Text = List ℕ

-- The text of a literal.
abbrev pub codes : String → Text
codes String.[] = []
codes (String.◌∷◌ c s) = code c ∷ codes s

-- a === b
unfoldable pub text_eq : Text → Text → Bool
text_eq [] [] = true
text_eq [] (_ ∷ _) = false
text_eq (_ ∷ _) [] = false
text_eq (a ∷ s) (b ∷ t) = a == b && text_eq s t

pub text_eq_refl : (s : Text) → text_eq s s ≡ true
unfolding text_eq
text_eq_refl [] = refl
text_eq_refl (a ∷ s) = ground (arith, text_eq_refl s)

text_eq_sound : (s t : Text) → text_eq s t ≡ true → s ≡ t
unfolding text_eq
text_eq_sound [] [] h = refl
text_eq_sound [] (_ ∷ _) h = cc
text_eq_sound (_ ∷ _) [] h = cc
text_eq_sound (a ∷ s) (b ∷ t) h = ground (arith, text_eq_sound s t)

pub text_eq_iff : (s t : Text) → (text_eq s t ≡ true) ↔ (s ≡ t)
text_eq_iff s t = (text_eq_sound s t, λ e. rw e (text_eq_refl t))

-- text.startsWith(prefix), with the prefix first
unfoldable pub starts_with : Text → Text → Bool
starts_with [] t = true
starts_with (_ ∷ _) [] = false
starts_with (a ∷ p) (b ∷ t) = a == b && starts_with p t

-- text.endsWith(suffix), with the suffix first
unfoldable pub ends_with : Text → Text → Bool
ends_with suffix [] = text_eq suffix []
ends_with suffix (c ∷ t) = text_eq suffix (c ∷ t) || ends_with suffix t

-- text.includes(part), with the part first
unfoldable pub includes : Text → Text → Bool
includes part [] = starts_with part []
includes part (c ∷ t) = starts_with part (c ∷ t) || includes part t

-- text.includes(c) for one character
unfoldable pub has_char : ℕ → Text → Bool
has_char c [] = false
has_char c (d ∷ t) = d == c || has_char c t

-- The ECMAScript white space and line terminators that `trim` removes.
unfoldable pub is_space : ℕ → Bool
is_space c =
    (leb 9 c && leb c 13)
    || c == 32
    || c == 160
    || c == 0x1680
    || (leb 0x2000 c && leb c 0x200a)
    || c == 0x2028
    || c == 0x2029
    || c == 0x202f
    || c == 0x205f
    || c == 0x3000
    || c == 0xfeff

-- text.replace(/^[…]+/, '') for a class of characters
unfoldable pub drop_leading : (ℕ → Bool) → Text → Text
drop_leading p [] = []
drop_leading p (c ∷ t) = if p c then drop_leading p t else c ∷ t

-- text.replace(/[…]+$/, '')
unfoldable pub drop_trailing : (ℕ → Bool) → Text → Text
drop_trailing p [] = []
drop_trailing p (c ∷ t) =
    let rest = drop_trailing p t in
    elim rest [ [] ↦ if p c then [] else c ∷ [] | d ∷ r ↦ c ∷ d ∷ r ]

unfoldable pub trim : Text → Text
trim t = drop_trailing is_space (drop_leading is_space t)

-- Boolean(text): a text is falsy if it is empty.
abbrev pub truthy : Text → Bool
truthy [] = false
truthy (_ ∷ _) = true

abbrev pub push_head : ℕ → List Text → List Text
push_head c [] = (c ∷ []) ∷ []
push_head c (p ∷ ps) = (c ∷ p) ∷ ps

-- text.split(c) for one character
unfoldable pub split : ℕ → Text → List Text
split c [] = [] ∷ []
split c (d ∷ t) = let rest = split c t in if d == c then [] ∷ rest else push_head d rest

-- parts.join(c) for one character
unfoldable pub join : ℕ → List Text → Text
join c [] = []
join c (p ∷ []) = p
join c (p ∷ q ∷ ps) = p ++ c ∷ join c (q ∷ ps)

-- text.replace(/x/g, y) for single characters
unfoldable pub replace_char : ℕ → ℕ → Text → Text
replace_char x y [] = []
replace_char x y (c ∷ t) = (if c == x then y else c) ∷ replace_char x y t
