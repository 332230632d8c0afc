-- ===== src/Common/Text/Split.antt =====
-- `split` and `join` undo each other, and the parts of a split hold no separator.
use Prim.Native.Nat.{ℕ}
use mathlib.Core.Path.{◌≡◌, refl, ap, ◌∙◌}
use mathlib.Core.Logic.{◌≢◌, inl, inr}
use mathlib.Core.List.{List, [], ◌∷◌, ◌++◌, append_assoc}
use native.Mathlib.Omega.{arith}
use evukb.Common.Tests.{◌==◌, ==_iff, Bool-cases}
use evukb.Common.Lists.{All, All-append}
use evukb.Common.Text.{Text, split, join, push_head, replace_char}

-- No character of the text is `c`.
abbrev pub Lacks : ℕ → Text → Type 0
Lacks c t = All (λ d. d ≢ c) t

push_head-Lacks :
    (c d : ℕ) (ps : List Text) → d ≢ c → All (Lacks c) ps → All (Lacks c) (push_head d ps)
push_head-Lacks c d [] n h = ((n, tt), tt)
push_head-Lacks c d (p ∷ ps) n (h, hs) = ((n, h), hs)

pub split-Lacks : (c : ℕ) (t : Text) → All (Lacks c) (split c t)
unfolding split
split-Lacks c [] = (tt, tt)
split-Lacks c (d ∷ t) = elim (Bool-cases (d == c)) [
  | inl e ↦ rw e (tt, split-Lacks c t)
  | inr e ↦ rw e (push_head-Lacks c d (split c t) (ground arith) (split-Lacks c t))
]

pub split-ne-nil : (c : ℕ) (t : Text) → split c t ≢ []
unfolding split
split-ne-nil c [] = cc
split-ne-nil c (d ∷ t) = ground (arith, split-ne-nil c t)

join-push_head : (c d : ℕ) (ps : List Text) → ps ≢ [] → join c (push_head d ps) ≡ d ∷ join c ps
unfolding join
join-push_head c d [] n = absurd (n refl)
join-push_head c d (p ∷ []) n = refl
join-push_head c d (p ∷ q ∷ ps) n = refl

join-cons : (c : ℕ) (p : Text) (ps : List Text) → ps ≢ [] → join c (p ∷ ps) ≡ p ++ c ∷ join c ps
unfolding join
join-cons c p [] n = absurd (n refl)
join-cons c p (q ∷ ps) n = refl

-- Joining the parts of a text gives the text back.
pub join-split : (c : ℕ) (t : Text) → join c (split c t) ≡ t
unfolding split
join-split c [] = unfold join in refl
join-split c (d ∷ t) = elim (Bool-cases (d == c)) [
  | inl e ↦
      rw e (join-cons c [] (split c t) (split-ne-nil c t) ∙ cc (join-split c t, (==_iff d c).0 e))
  | inr e ↦ rw e (join-push_head c d (split c t) (split-ne-nil c t) ∙ cc (join-split c t))
]

split-append : (c : ℕ) (p t : Text) → Lacks c p → split c (p ++ c ∷ t) ≡ p ∷ split c t
unfolding split
split-append c [] t h = ground arith
split-append c (d ∷ p) t (n, h) = ground (arith, split-append c p t h)

pub split_self : (c : ℕ) (p : Text) → Lacks c p → split c p ≡ p ∷ []
unfolding split
split_self c [] h = refl
split_self c (d ∷ p) (n, h) = ground (arith, split_self c p h)

-- Splitting joined parts gives the parts back, if none of them holds the separator.
pub split-join :
    (c : ℕ) (p : Text) (ps : List Text)
    → All (Lacks c) (p ∷ ps)
    → split c (join c (p ∷ ps)) ≡ p ∷ ps
unfolding join
split-join c p [] (h, _) = split_self c p h
split-join c p (q ∷ ps) (h, hs) =
    split-append c p (join c (q ∷ ps)) h ∙ ap (λ r. p ∷ r) (split-join c q ps hs)

push_head-All :
    (P : ℕ → Type 0) (d : ℕ) (ps : List Text) → P d → All (All P) ps → All (All P) (push_head d ps)
push_head-All P d [] p h = ((p, tt), tt)
push_head-All P d (q ∷ qs) p (h, hs) = ((p, h), hs)

-- What holds of every character holds in every part.
pub split-All : (P : ℕ → Type 0) (c : ℕ) (t : Text) → All P t → All (All P) (split c t)
unfolding split
split-All P c [] h = (tt, tt)
split-All P c (d ∷ t) (p, h) = elim (Bool-cases (d == c)) [
  | inl e ↦ rw e (tt, split-All P c t h)
  | inr e ↦ rw e (push_head-All P d (split c t) p (split-All P c t h))
]

pub join-All : (P : ℕ → Type 0) (c : ℕ) (ps : List Text) → P c → All (All P) ps → All P (join c ps)
unfolding join
join-All P c [] p h = tt
join-All P c (q ∷ []) p (h, _) = h
join-All P c (q ∷ r ∷ ps) p (h, hs) = All-append P q _ h (p, join-All P c (r ∷ ps) p hs)

-- A separator behind joined parts is one more part, an empty one.
pub join-snoc :
    (c : ℕ) (p : Text) (ps : List Text) → join c (p ∷ ps) ++ c ∷ [] ≡ join c (p ∷ ps ++ [] ∷ [])
unfolding join
join-snoc c p [] = refl
join-snoc c p (q ∷ ps) = append_assoc p _ _ ∙ ap (λ r. p ++ c ∷ r) (join-snoc c q ps)

pub replace_char-Lacks : (x y : ℕ) (t : Text) → x ≢ y → Lacks x (replace_char x y t)
unfolding replace_char
replace_char-Lacks x y [] n = tt
replace_char-Lacks x y (c ∷ t) n = (ground arith, replace_char-Lacks x y t n)

pub replace_char-id : (x y : ℕ) (t : Text) → Lacks x t → replace_char x y t ≡ t
unfolding replace_char
replace_char-id x y [] h = refl
replace_char-id x y (c ∷ t) (n, h) = ground (arith, replace_char-id x y t h)
