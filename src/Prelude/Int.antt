-- ===== src/Prelude/Int.antt =====
-- Python's int, over the native numbers.
use Prim.Native.Nat.{ℕ, zero, suc, ◌+◌, ◌-◌, ◌*◌}
use mathlib.Core.Bool.{Bool, true, false}
use pg_mimic.Prelude.Tests.{ltb, if◌then◌else◌}

-- negsuc n is - (n + 1)
pub data ℤ : Type 0 where
  pos : ℕ → ℤ
  negsuc : ℕ → ℤ

-- z < n, for n of the naturals
abbrev pub int_lt : ℤ → ℕ → Bool
int_lt (pos m) n = ltb m n
int_lt (negsuc m) n = true

-- n < z
abbrev pub int_gt : ℤ → ℕ → Bool
int_gt (pos m) n = ltb n m
int_gt (negsuc m) n = false

-- z as a natural, for z that is known not to be negative
abbrev pub to_nat : ℤ → ℕ
to_nat (pos m) = m
to_nat (negsuc m) = 0

-- - n
abbrev pub neg : ℕ → ℤ
neg zero = pos 0
neg (suc n) = negsuc n

infixl 30 ◌+ℤ◌
abbrev pub ◌+ℤ◌ : ℤ → ℤ → ℤ
pos m +ℤ pos n = pos (m + n)
pos m +ℤ negsuc n = if ltb n m then pos (m - suc n) else neg (suc n - m)
negsuc m +ℤ pos n = if ltb m n then pos (n - suc m) else neg (suc m - n)
negsuc m +ℤ negsuc n = negsuc (suc (m + n))

infixl 40 ◌*ℤ◌
abbrev pub ◌*ℤ◌ : ℤ → ℤ → ℤ
pos m *ℤ pos n = pos (m * n)
pos m *ℤ negsuc n = neg (m * suc n)
negsuc m *ℤ pos n = neg (suc m * n)
negsuc m *ℤ negsuc n = pos (suc m * suc n)
