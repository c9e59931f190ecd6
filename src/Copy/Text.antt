-- ===== src/Copy/Text.antt =====
-- pg_mimic/copy.py, `_text_fields`, `_unescape_text` and `_take_digits`: a record of the text
-- format read back. An index that moves on is a count of characters still to skip.
pub mod RoundTrip
use pg_mimic.Prelude.{
  ℕ, zero, suc, ◌+◌, ◌-◌, ◌*◌, ◌≡◌, List, [], ◌∷◌, ◌++◌, map, Bool, true, false, not, ◌&&◌, ◌||◌,
  Option, none, some, nat_beq, ltb, leb, if◌then◌else◌, length,
}
use pg_mimic.Copy.{CopyOptions}
use pg_mimic.Prelude.{backslash, text_beq}

-- _TEXT_UNESCAPES
unfoldable pub text_unescape : ℕ → Option ℕ
text_unescape c =
    if nat_beq c 98
    then some 8
    else if nat_beq c 102
    then some 12
    else if nat_beq c 110
    then some 10
    else if nat_beq c 114
    then some 13
    else if nat_beq c 116
    then some 9
    else if nat_beq c 118
    then some 11
    else none

abbrev pub is_octal : ℕ → Bool
is_octal c = leb 48 c && leb c 55

abbrev pub is_hex : ℕ → Bool
is_hex c = leb 48 c && leb c 57 || leb 97 c && leb c 102 || leb 65 c && leb c 70

unfoldable pub take_digits : (ℕ → Bool) → ℕ → List ℕ → List ℕ
take_digits allowed zero s = []
take_digits allowed (suc limit) [] = []
take_digits allowed (suc limit) (c ∷ s) = if allowed c then c ∷ take_digits allowed limit s else []

-- int(c, 16)
unfoldable pub digit_value : ℕ → ℕ
digit_value c = if leb 97 c then c - 87 else if leb 65 c then c - 55 else c - 48

-- int(digits, base)
unfoldable pub digits_value : ℕ → ℕ → List ℕ → ℕ
digits_value base acc [] = acc
digits_value base acc (c ∷ s) = digits_value base (acc * base + digit_value c) s

-- What the backslash at the head of `\ marker rest` stands for, and how many characters after the
-- backslash it takes.
unfoldable pub unescape_marker : ℕ → List ℕ → ℕ × ℕ
unescape_marker marker rest = choose (text_unescape marker)
  where
    hex : List ℕ
    hex = take_digits is_hex 2 rest

    octal : List ℕ
    octal = take_digits is_octal 3 (marker ∷ rest)

    choose : Option ℕ → ℕ × ℕ
    choose (some c) = (c, 1)
    choose none =
        if nat_beq marker 120 && not (nat_beq (length hex) 0)
        then (digits_value 16 0 hex, suc (length hex))
        else if is_octal marker
        then (digits_value 8 0 octal, length octal)
        else (marker, 1)

unfoldable pub unescape_from : ℕ → List ℕ → List ℕ
unescape_from skip [] = []
unescape_from (suc skip) (c ∷ s) = unescape_from skip s
unescape_from zero (c ∷ []) = c ∷ []
unescape_from zero (c ∷ marker ∷ s) = elim (nat_beq c backslash) [
  | false ↦ c ∷ unescape_from zero (marker ∷ s)
  | true ↦ (unescape_marker marker s).0 ∷ unescape_from (unescape_marker marker s).1 (marker ∷ s)
]

-- `if "\\" not in field: return field` returns what the loop would
unfoldable pub unescape_text : List ℕ → List ℕ
unescape_text field = unescape_from 0 field

-- The loop that splits on unescaped delimiters; `current` is the field read so far.
unfoldable pub split_fields : ℕ → List ℕ → List ℕ → List (List ℕ)
split_fields delimiter current [] = current ∷ []
split_fields delimiter current (c ∷ []) =
    if nat_beq c delimiter then current ∷ [] ∷ [] else (current ++ c ∷ []) ∷ []
split_fields delimiter current (c ∷ d ∷ s) = elim (nat_beq c backslash) [
  | true ↦ split_fields delimiter (current ++ c ∷ d ∷ []) s
  | false ↦ elim (nat_beq c delimiter) [
    | true ↦ current ∷ split_fields delimiter [] (d ∷ s)
    | false ↦ split_fields delimiter (current ++ c ∷ []) (d ∷ s)
  ]
]

unfoldable pub field_value : CopyOptions → List ℕ → Option (List ℕ)
field_value options field =
    if text_beq field options.null_string then none else some (unescape_text field)

unfoldable pub text_fields : CopyOptions → List ℕ → List (Option (List ℕ))
text_fields options record_text =
    map (field_value options) (split_fields options.delimiter [] record_text)
