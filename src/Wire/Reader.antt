-- ===== src/Wire/Reader.antt =====
-- Reading at an offset that moves on: struct.unpack_from and slices of bytes, as the loops of
-- `parse_bind`, `parse_sasl_initial_response` and `decode_array_binary` use them. An offset may be
-- negative, and then counts from the end, as Python has it. `none` is the exception raised.
pub mod Reads
use pg_mimic.Prelude.{
  ℕ, zero, suc, ◌+◌, ◌-◌, List, [], ◌∷◌, Option, none, some, ltb, leb, nat_beq, if◌then◌else◌,
  length, take, drop, ℤ, pos, negsuc, ◌+ℤ◌, Bool, true, false,
}
use pg_mimic.Wire.Ints.{unpack_int32, unpack_int16}

-- what is read, and the offset behind it
abbrev pub Reader : Type 0 → Type 0
Reader A = List ℕ → ℤ → Option (A × ℤ)

abbrev pub give : {A : Type 0} → A → Reader A
give a bytes offset = some (a, offset)

infixl 5 ◌>>>◌
abbrev pub ◌>>>◌ : {A B : Type 0} → Reader A → (A → Reader B) → Reader B
(r >>> f) bytes offset = elim (r bytes offset) [ none ↦ none | some p ↦ f p.0 bytes p.1 ]

-- the place of an offset of unpack_from
unfoldable pub place : ℕ → ℤ → Option ℕ
place size (pos n) = some n
place size (negsuc k) = if ltb k size then some (size - suc k) else none

-- the place of a slice's end
unfoldable pub bound : ℕ → ℤ → ℕ
bound size (pos n) = if ltb n size then n else size
bound size (negsuc k) = size - suc k

-- bytes[start:stop]
unfoldable pub slice : List ℕ → ℤ → ℤ → List ℕ
slice bytes start stop =
    take (bound (length bytes) stop - bound (length bytes) start)
      (drop (bound (length bytes) start) bytes)

abbrev pub moved : ℤ → ℕ → Option ℤ → Option (ℤ × ℤ)
moved offset n none = none
moved offset n (some z) = some (z, offset +ℤ pos n)

unfoldable pub read_int32 : Reader ℤ
read_int32 bytes offset = elim (place (length bytes) offset) [
  | none ↦ none
  | some n ↦ moved offset 4 (unpack_int32 bytes n)
]

unfoldable pub read_int16 : Reader ℤ
read_int16 bytes offset = elim (place (length bytes) offset) [
  | none ↦ none
  | some n ↦ moved offset 2 (unpack_int16 bytes n)
]

abbrev pub is_minus_one : ℤ → Bool
is_minus_one (pos n) = false
is_minus_one (negsuc n) = nat_beq n 0

-- what stands behind the length `n`: NULL for -1
unfoldable pub read_sized : ℤ → Reader (Option (List ℕ))
read_sized n bytes offset =
    if is_minus_one n
    then some (none, offset)
    else some (some (slice bytes offset (offset +ℤ n)), offset +ℤ n)

-- one turn of the loop over the values
unfoldable pub read_value : Reader (Option (List ℕ))
read_value = read_int32 >>> read_sized

-- `n` turns
abbrev pub read_times : {A : Type 0} → Reader A → ℕ → Reader (List A)
read_times r zero = give []
read_times r (suc n) = r >>> λ a. read_times r n >>> λ rest. give (a ∷ rest)

-- what was read
abbrev pub result : {A : Type 0} → Option (A × ℤ) → Option A
result none = none
result (some (a, offset)) = some a
