-- ===== src/Prelude/Raising.antt =====
-- Code that may raise. The error type is a parameter: each component has its own exceptions.
use mathlib.Core.Path.{◌≡◌, refl}

pub data Result {ℓ} (E A : Type ℓ) : Type ℓ where
  ok : A → Result E A
  err : E → Result E A

infixl 5 ◌>>=◌ ◌>>◌
abbrev pub ◌>>=◌ {ℓ} : {E A B : Type ℓ} → Result E A → (A → Result E B) → Result E B
ok a >>= f = f a
err e >>= f = err e

abbrev pub ◌>>◌ {ℓ} : {E A B : Type ℓ} → Result E A → Result E B → Result E B
m >> k = m >>= λ _. k

-- A chain that ended well did so step by step.
pub >>=-eq-ok {ℓ} :
    {E A B : Type ℓ} (first : Result E A) (then : A → Result E B) {end : B}
    → (first >>= then) ≡ ok end
    → (mid : A) × (first ≡ ok mid) × (then mid ≡ ok end)
>>=-eq-ok (err e) then h = absurd cc
>>=-eq-ok (ok mid) then h = (mid, refl, h)
