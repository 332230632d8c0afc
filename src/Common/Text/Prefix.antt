-- ===== src/Common/Text/Prefix.antt =====
-- `starts_with` as the existence of a rest, and `drop_trailing`.
use mathlib.Core.Path.{◌≡◌, refl}
use mathlib.Core.Logic.{inl, inr}
use mathlib.Core.Bool.{Bool, true}
use mathlib.Core.List.{[], ◌∷◌, ◌++◌}
use Prim.Native.Nat.{ℕ}
use native.Mathlib.Omega.{arith}
use evukb.Common.Tests.{Bool-cases}
use evukb.Common.Lists.{All}
use evukb.Common.Text.{Text, starts_with, drop_trailing}

pub starts_with-rest : (p t : Text) → starts_with p t ≡ true → (rest : Text) × (t ≡ p ++ rest)
unfolding starts_with
starts_with-rest [] t h = (t, refl)
starts_with-rest (a ∷ p) [] h = cc
starts_with-rest (a ∷ p) (b ∷ t) h =
    let (rest, e) = starts_with-rest p t (ground arith) in (rest, ground arith)

pub starts_with-append : (p rest : Text) → starts_with p (p ++ rest) ≡ true
unfolding starts_with
starts_with-append [] rest = refl
starts_with-append (a ∷ p) rest = ground (arith, starts_with-append p rest)

-- `drop_trailing` takes characters of its class off the end.
pub drop_trailing-suffix :
    (p : ℕ → Bool) (t : Text)
    → (zs : Text) × (t ≡ drop_trailing p t ++ zs) × All (λ c. p c ≡ true) zs
unfolding drop_trailing
drop_trailing-suffix p [] = ([], refl, tt)
drop_trailing-suffix p (c ∷ t) =
    let (zs, e, h) = drop_trailing-suffix p t in go (drop_trailing p t) refl zs e h
  where
    go :
        (r : Text)
        → drop_trailing p t ≡ r
        → (zs : Text) → t ≡ drop_trailing p t ++ zs
        → All (λ d. p d ≡ true) zs
        → (ys : Text) × (c ∷ t ≡ drop_trailing p (c ∷ t) ++ ys) × All (λ d. p d ≡ true) ys
    go [] q zs e h = elim (Bool-cases (p c)) [
      | inl y ↦ (c ∷ zs, ground arith, (y, h))
      | inr n ↦ (zs, ground arith, h)
    ]
    go (d ∷ r) q zs e h = (zs, ground arith, h)

pub drop_trailing-tail :
    (p : ℕ → Bool) (c : ℕ) (t : Text) → drop_trailing p (c ∷ t) ≡ c ∷ t → drop_trailing p t ≡ t
unfolding drop_trailing
drop_trailing-tail p c t e = go (drop_trailing p t) refl
  where
    go : (r : Text) → drop_trailing p t ≡ r → drop_trailing p t ≡ t
    go [] q = ground arith
    go (d ∷ r) q = ground arith

pub drop_trailing_idem :
    (p : ℕ → Bool) (t : Text) → drop_trailing p (drop_trailing p t) ≡ drop_trailing p t
unfolding drop_trailing
drop_trailing_idem p [] = refl
drop_trailing_idem p (c ∷ t) = go (drop_trailing p t) refl (drop_trailing_idem p t)
  where
    go :
        (r : Text)
        → drop_trailing p t ≡ r
        → drop_trailing p (drop_trailing p t) ≡ drop_trailing p t
        → drop_trailing p (drop_trailing p (c ∷ t)) ≡ drop_trailing p (c ∷ t)
    go [] q ih = ground arith
    go (d ∷ r) q ih = ground arith
