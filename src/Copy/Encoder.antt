-- ===== src/Copy/Encoder.antt =====
-- pg_mimic/copy.py, CopyEncoder: a row as one line of COPY output. The UTF-8 encoding of the line
-- and `copy_text`, which renders a value, are not part of it.
use pg_mimic.Prelude.{
  ℕ, List, [], ◌∷◌, ◌++◌, map, Bool, ◌||◌, Option, none, some, nat_beq, if◌then◌else◌,
}
use pg_mimic.Copy.{CopyOptions}
use pg_mimic.Prelude.{backslash, newline, carriage_return, text_beq, has_char}

-- _TEXT_ESCAPES, as the letter that follows the backslash
unfoldable pub text_escape : ℕ → Option ℕ
text_escape c =
    if nat_beq c 92
    then some 92
    else if nat_beq c 8
    then some 98
    else if nat_beq c 12
    then some 102
    else if nat_beq c 10
    then some 110
    else if nat_beq c 13
    then some 114
    else if nat_beq c 9
    then some 116
    else if nat_beq c 11
    then some 118
    else none

unfoldable pub escape_char : ℕ → Option ℕ → ℕ → List ℕ
escape_char delimiter (some letter) c = backslash ∷ letter ∷ []
escape_char delimiter none c = if nat_beq c delimiter then backslash ∷ c ∷ [] else c ∷ []

unfoldable pub escape_text : ℕ → List ℕ → List ℕ
escape_text delimiter [] = []
escape_text delimiter (c ∷ s) = escape_char delimiter (text_escape c) c ++ escape_text delimiter s

unfoldable pub text_field : CopyOptions → Option (List ℕ) → List ℕ
text_field options none = options.null_string
text_field options (some s) = escape_text options.delimiter s

unfoldable pub quote_body : CopyOptions → List ℕ → List ℕ
quote_body options [] = []
quote_body options (c ∷ s) =
    let rest = quote_body options s in
    if nat_beq c options.quote || nat_beq c options.escape
    then options.escape ∷ c ∷ rest
    else c ∷ rest

-- the test that makes a value quoted
unfoldable pub needs_quotes : CopyOptions → List ℕ → Bool
needs_quotes options s =
    text_beq s options.null_string
    || has_char s options.delimiter
    || has_char s options.quote
    || has_char s newline
    || has_char s carriage_return

unfoldable pub csv_field : CopyOptions → Option (List ℕ) → List ℕ
csv_field options none = options.null_string
csv_field options (some s) =
    if needs_quotes options s
    then options.quote ∷ (quote_body options s ++ options.quote ∷ [])
    else s

-- str.join
unfoldable pub join : ℕ → List (List ℕ) → List ℕ
join delimiter [] = []
join delimiter (f ∷ []) = f
join delimiter (f ∷ g ∷ fs) = f ++ delimiter ∷ join delimiter (g ∷ fs)

unfoldable pub render : CopyOptions → Option (List ℕ) → List ℕ
render options field = if options.is_csv then csv_field options field else text_field options field

unfoldable pub line : CopyOptions → List (Option (List ℕ)) → List ℕ
line options fields = join options.delimiter (map (render options) fields) ++ newline ∷ []
