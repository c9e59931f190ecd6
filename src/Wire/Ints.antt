-- ===== src/Wire/Ints.antt =====
-- pg_mimic/types.py, pack_int32 to unpack_int16: big-endian two's complement. `none` is the
-- struct.error of a value out of range or of data that is too short.
pub mod RoundTrip
use pg_mimic.Prelude.{
  ℕ, ◌+◌, ◌-◌, ◌*◌, ◌/◌, ◌%◌, ◌^◌, ◌≡◌, List, [], ◌∷◌, Bool, Option, none, some, ltb, if◌then◌else◌,
  drop, ℤ, pos, negsuc,
}

-- the bit pattern of a number, for the half range `h`: 2^31 or 2^15
unfoldable pub word : ℕ → ℤ → Option ℕ
word h (pos n) = if ltb n h then some n else none
word h (negsuc n) = if ltb n h then some (2 * h - 1 - n) else none

-- the number that a bit pattern stands for
unfoldable pub signed : ℕ → ℕ → ℤ
signed h w = if ltb w h then pos w else negsuc (2 * h - 1 - w)

unfoldable pub bytes32 : Option ℕ → Option (List ℕ)
bytes32 none = none
bytes32 (some w) = some (w / 16777216 % 256 ∷ w / 65536 % 256 ∷ w / 256 % 256 ∷ w % 256 ∷ [])

unfoldable pub pack_int32 : ℤ → Option (List ℕ)
pack_int32 z = bytes32 (word (2 ^ 31) z)

unfoldable pub first_int32 : List ℕ → Option ℤ
first_int32 (a ∷ b ∷ c ∷ d ∷ rest) = some (signed (2 ^ 31) (a * 16777216 + b * 65536 + c * 256 + d))
first_int32 _ = none

unfoldable pub unpack_int32 : List ℕ → ℕ → Option ℤ
unpack_int32 bytes offset = first_int32 (drop offset bytes)

unfoldable pub bytes16 : Option ℕ → Option (List ℕ)
bytes16 none = none
bytes16 (some w) = some (w / 256 % 256 ∷ w % 256 ∷ [])

unfoldable pub pack_int16 : ℤ → Option (List ℕ)
pack_int16 z = bytes16 (word (2 ^ 15) z)

unfoldable pub first_int16 : List ℕ → Option ℤ
first_int16 (a ∷ b ∷ rest) = some (signed (2 ^ 15) (a * 256 + b))
first_int16 _ = none

unfoldable pub unpack_int16 : List ℕ → ℕ → Option ℤ
unpack_int16 bytes offset = first_int16 (drop offset bytes)
