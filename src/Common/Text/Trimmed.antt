-- ===== src/Common/Text/Trimmed.antt =====
-- `trim` gives texts that it leaves as they are.
use mathlib.Core.Path.{◌≡◌, refl, ap}
use mathlib.Core.Logic.{◌⊎◌, inl, inr}
use mathlib.Core.Bool.{Bool, false}
use mathlib.Core.List.{[], ◌∷◌}
use Prim.Native.Nat.{ℕ}
use native.Mathlib.Omega.{arith}
use evukb.Common.Tests.{Bool-cases}
use evukb.Common.Text.{Text, drop_leading, drop_trailing, trim, is_space}
use evukb.Common.Text.Prefix.{drop_trailing_idem}

drop_leading-first :
    (p : ℕ → Bool) (t : Text)
    → (drop_leading p t ≡ []) ⊎ ((c : ℕ) × (r : Text) × (drop_leading p t ≡ c ∷ r) × (p c ≡ false))
unfolding drop_leading
drop_leading-first p [] = inl refl
drop_leading-first p (c ∷ t) = elim (Bool-cases (p c)) [
  | inl y ↦ rw y (drop_leading-first p t)
  | inr n ↦ rw n (inr (c, t, refl, n))
]

-- A first character outside the class survives at both ends.
drop_trailing-first :
    (p : ℕ → Bool) (c : ℕ) (r : Text)
    → p c ≡ false
    → drop_trailing p (c ∷ r) ≡ c ∷ drop_trailing p r
unfolding drop_trailing
drop_trailing-first p c r n = ground arith

drop_leading-kept : (p : ℕ → Bool) (c : ℕ) (r : Text) → p c ≡ false → drop_leading p (c ∷ r) ≡ c ∷ r
unfolding drop_leading
drop_leading-kept p c r n = ground arith

pub trim_idem : (t : Text) → trim (trim t) ≡ trim t
unfolding trim
trim_idem t = elim (drop_leading-first is_space t) [
  | inl e ↦ rw e (unfold drop_leading drop_trailing in refl)
  | inr (c, r, e, n) ↦ rw e (
      rw (drop_trailing-first is_space c r n) (
        rw (drop_leading-kept is_space c (drop_trailing is_space r) n) (
          rw (drop_trailing-first is_space c (drop_trailing is_space r) n)
            (ap (λ s. c ∷ s) (drop_trailing_idem is_space r)))))
]
