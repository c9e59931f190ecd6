-- ===== src/Wire/Utf8.antt =====
-- UTF-8 as Python's strict codec does it, on lists of code points: what `_cstring` of messages.py
-- and `read_cstring` of types.py encode and decode with. `none` is the UnicodeError.
pub mod RoundTrip
use pg_mimic.Prelude.{
  ℕ, zero, suc, ◌+◌, ◌-◌, ◌*◌, ◌/◌, ◌%◌, ◌≡◌, List, [], ◌∷◌, ◌++◌, Bool, true, false, ◌&&◌, ◌||◌,
  Option, none, some, ltb, leb, if◌then◌else◌,
}

-- a code point that is no surrogate
abbrev pub is_scalar : ℕ → Bool
is_scalar c = ltb c 55296 || leb 57344 c && ltb c 1114112

unfoldable pub char_bytes : ℕ → List ℕ
char_bytes c =
    if ltb c 128
    then c ∷ []
    else if ltb c 2048
    then (192 + c / 64) ∷ (128 + c % 64) ∷ []
    else if ltb c 65536
    then (224 + c / 4096) ∷ (128 + c / 64 % 64) ∷ (128 + c % 64) ∷ []
    else (240 + c / 262144) ∷ (128 + c / 4096 % 64) ∷ (128 + c / 64 % 64) ∷ (128 + c % 64) ∷ []

abbrev pub put_before : List ℕ → Option (List ℕ) → Option (List ℕ)
put_before bs none = none
put_before bs (some rest) = some (bs ++ rest)

-- str.encode("utf-8")
unfoldable pub encode : List ℕ → Option (List ℕ)
encode [] = some []
encode (c ∷ s) = let rest = encode s in if is_scalar c then put_before (char_bytes c) rest else none

abbrev pub is_continuation : ℕ → Bool
is_continuation b = leb 128 b && ltb b 192

-- a code point in the range of its length, with the number of bytes after the lead
unfoldable pub checked : Bool → ℕ → ℕ → Option (ℕ × ℕ)
checked valid c extra = if valid then some (c, extra) else none

unfoldable pub two_bytes : ℕ → List ℕ → Option (ℕ × ℕ)
two_bytes a [] = none
two_bytes a (b ∷ s) = checked (is_continuation b && leb 194 a) ((a - 192) * 64 + (b - 128)) 1

unfoldable pub three_value : ℕ → ℕ → ℕ → ℕ
three_value a b c = (a - 224) * 4096 + (b - 128) * 64 + (c - 128)

unfoldable pub three_bytes : ℕ → List ℕ → Option (ℕ × ℕ)
three_bytes a (b ∷ c ∷ s) =
    checked
      (is_continuation b
        && is_continuation c
        && leb 2048 (three_value a b c)
        && is_scalar (three_value a b c))
      (three_value a b c) 2
three_bytes a _ = none

unfoldable pub four_value : ℕ → ℕ → ℕ → ℕ → ℕ
four_value a b c d = (a - 240) * 262144 + (b - 128) * 4096 + (c - 128) * 64 + (d - 128)

unfoldable pub four_bytes : ℕ → List ℕ → Option (ℕ × ℕ)
four_bytes a (b ∷ c ∷ d ∷ s) =
    checked
      (is_continuation b
        && is_continuation c
        && is_continuation d
        && leb 65536 (four_value a b c d)
        && ltb (four_value a b c d) 1114112)
      (four_value a b c d) 3
four_bytes a _ = none

-- The code point whose first byte is `a`, and how many of the next bytes belong to it.
unfoldable pub lead : ℕ → List ℕ → Option (ℕ × ℕ)
lead a s =
    if ltb a 128
    then some (a, 0)
    else if ltb a 192
    then none
    else if ltb a 224
    then two_bytes a s
    else if ltb a 240
    then three_bytes a s
    else if ltb a 248
    then four_bytes a s
    else none

-- bytes.decode("utf-8"), with a count of bytes still to skip
unfoldable pub decode_from : ℕ → List ℕ → Option (List ℕ)
decode_from skip [] = some []
decode_from (suc skip) (a ∷ s) = decode_from skip s
decode_from zero (a ∷ s) = elim (lead a s) [
  | none ↦ none
  | some p ↦ put_before (p.0 ∷ []) (decode_from p.1 s)
]

unfoldable pub decode : List ℕ → Option (List ℕ)
decode bytes = decode_from 0 bytes
