-- ===== src/Common/Fallible.antt =====
-- A computation that may throw. The text of a message is not modelled; a component that
-- distinguishes its errors takes its own type for `E`.
use mathlib.Core.Path.{◌≡◌, refl}

pub data Result {ℓ} (E : Type 0) (A : Type ℓ) : Type ℓ where
  err : E → Result E A
  ok : A → Result E A

infixl 6 ◌>>=◌
-- The rest of a computation runs unless the part before it throws.
abbrev pub ◌>>=◌ {κ ℓ} :
    {A : Type κ} {B : Type ℓ} {E : Type 0} → Result E A → (A → Result E B) → Result E B
err thrown >>= rest = err thrown
ok value >>= rest = rest value

-- What a computation has gone through that does not throw.
pub >>=-ok {κ ℓ} :
    {A : Type κ} {B : Type ℓ} {E : Type 0} (first : Result E A) (rest : A → Result E B) {result : B}
    → (first >>= rest) ≡ ok result
    → (value : A) × (first ≡ ok value) × (rest value ≡ ok result)
>>=-ok (err thrown) rest e = cc
>>=-ok (ok value) rest e = (value, refl, e)

-- The rest of a computation on a state, which a part that throws leaves as it has changed it.
abbrev pub resume {κ ℓ μ} :
    {A : Type κ} {B : Type ℓ} {S : Type μ} {E : Type 0}
    → Result E A × S
    → (A → S → Result E B × S)
    → Result E B × S
resume (err thrown, state) rest = (err thrown, state)
resume (ok value, state) rest = rest value state
