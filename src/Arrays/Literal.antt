-- ===== src/Arrays/Literal.antt =====
-- pg_mimic/arrays.py, the text format: `format_array_literal` and `parse_array_literal`. An index
-- that moves on is the text that is left.
pub mod Fuel
pub mod Tokens
pub mod Starts
pub mod RoundTrip
use pg_mimic.Prelude.{
  ℕ, zero, suc, ◌-◌, ◌*◌, ◌≡◌, List, [], ◌∷◌, ◌++◌, Bool, true, false, not, ◌&&◌, ◌||◌, Option,
  none, some, nat_beq, leb, if◌then◌else◌, length, Result, ok, err, ◌>>=◌, ◌>>◌, text_beq, has_char,
}
use pg_mimic.Errors.{Error, value_error}
use pg_mimic.Arrays.Defs.{Value, Values, scalar, list, no_values, value, Element}
use pg_mimic.Arrays.Shape.{dimensions}

-- str.isspace
unfoldable pub is_space : ℕ → Bool
is_space c =
    (leb 9 c && leb c 13)
    || (leb 28 c && leb c 32)
    || nat_beq c 133
    || nat_beq c 160
    || nat_beq c 5760
    || (leb 8192 c && leb c 8202)
    || nat_beq c 8232
    || nat_beq c 8233
    || nat_beq c 8239
    || nat_beq c 8287
    || nat_beq c 12288

-- _NEEDS_QUOTING
unfoldable pub needs_quoting : ℕ → Bool
needs_quoting c =
    nat_beq c b'{'
    || nat_beq c b'}'
    || nat_beq c b','
    || nat_beq c 34
    || nat_beq c 92
    || (leb 9 c && leb c 13)
    || nat_beq c 32

unfoldable pub any_char : (ℕ → Bool) → List ℕ → Bool
any_char p [] = false
any_char p (c ∷ s) = p c || any_char p s

-- str.upper, on the characters whose upper case is one of N, U and L
unfoldable pub upper : ℕ → ℕ
upper c = if leb b'a' c && leb c b'z' then c - 32 else c

unfoldable pub is_null_word : List ℕ → Bool
is_null_word (a ∷ b ∷ c ∷ d ∷ []) =
    nat_beq (upper a) b'N'
    && nat_beq (upper b) b'U'
    && nat_beq (upper c) b'L'
    && nat_beq (upper d) b'L'
is_null_word _ = false

-- the two calls of str.replace: a backslash before each backslash and each quote
unfoldable pub escape_element : List ℕ → List ℕ
escape_element [] = []
escape_element (c ∷ s) =
    let rest = escape_element s in if nat_beq c 92 || nat_beq c 34 then 92 ∷ c ∷ rest else c ∷ rest

abbrev pub is_quoted : List ℕ → Bool
is_quoted text = text_beq text [] || is_null_word text || any_char needs_quoting text

-- `_format_element` of an element whose text `encode_value` has given
unfoldable pub format_element : Element → List ℕ
format_element none = b'N' ∷ b'U' ∷ b'L' ∷ b'L' ∷ []
format_element (some text) = if is_quoted text then 34 ∷ (escape_element text ++ 34 ∷ []) else text

unfoldable mutual
  pub format_nested : Value → List ℕ
  format_nested (scalar e) = format_element e
  format_nested (list vs) = b'{' ∷ (format_items vs ++ b'}' ∷ [])

  -- ",".join
  pub format_items : Values → List ℕ
  format_items no_values = []
  format_items (value v vs) = format_nested v ++ format_more vs

  -- the items after the first, each behind a comma
  pub format_more : Values → List ℕ
  format_more no_values = []
  format_more (value v vs) = b',' ∷ (format_nested v ++ format_more vs)

-- `format_array_literal` of a list
unfoldable pub format_array_literal : Values → Result Error (List ℕ)
format_array_literal vs = dimensions vs >> ok (format_nested (list vs))

-- A ValueError of the parser, and a model that ran out of fuel.
pub data Failure : Type 0 where
  malformed : Failure
  out_of_fuel : Failure

abbrev pub Parsed : Type 0 → Type 0
Parsed A = Result Failure (A × List ℕ)

unfoldable pub skip_space : List ℕ → List ℕ
skip_space [] = []
skip_space (c ∷ s) = let rest = skip_space s in if is_space c then rest else c ∷ s

-- `_parse_quoted`, after the opening quote; `chars` is what was read so far
unfoldable pub parse_quoted : List ℕ → List ℕ → Parsed (List ℕ)
parse_quoted chars [] = err malformed
parse_quoted chars (c ∷ []) =
    if nat_beq c 92 then err malformed else if nat_beq c 34 then ok (chars, []) else err malformed
parse_quoted chars (c ∷ d ∷ s) = elim (nat_beq c 92) [
  | true ↦ parse_quoted (chars ++ d ∷ []) s
  | false ↦ elim (nat_beq c 34) [
    | true ↦ ok (chars, d ∷ s)
    | false ↦ parse_quoted (chars ++ c ∷ []) (d ∷ s)
  ]
]

-- the text before a comma or a closing brace, and the rest
unfoldable pub take_bare : List ℕ → List ℕ × List ℕ
take_bare [] = ([], [])
take_bare (c ∷ s) =
    let more = take_bare s in
    if nat_beq c b',' || nat_beq c b'}' then ([], c ∷ s) else (c ∷ more.0, more.1)

-- str.rstrip()
unfoldable pub rstrip_space : List ℕ → List ℕ
rstrip_space [] = []
rstrip_space (c ∷ s) =
    let rest = rstrip_space s in if text_beq rest [] && is_space c then [] else c ∷ rest

-- str.strip()
unfoldable pub strip : List ℕ → List ℕ
strip s = rstrip_space (skip_space s)

unfoldable pub bare_element : List ℕ → Element
bare_element token = if is_null_word token then none else some token

unfoldable pub parse_bare : List ℕ → Parsed Element
parse_bare s = ok (bare_element (strip (take_bare s).0), (take_bare s).1)

-- text[index] == c
abbrev pub starts : ℕ → List ℕ → Bool
starts c [] = false
starts c (d ∷ s) = nat_beq d c

abbrev pub rest_of : List ℕ → List ℕ
rest_of [] = []
rest_of (c ∷ s) = s

abbrev pub as_scalar : Parsed Element → Parsed Value
as_scalar (ok (e, s)) = ok (scalar e, s)
as_scalar (err f) = err f

abbrev pub as_some : Parsed (List ℕ) → Parsed Value
as_some (ok (t, s)) = ok (scalar (some t), s)
as_some (err f) = err f

abbrev pub as_list : Parsed Values → Parsed Value
as_list (ok (vs, s)) = ok (list vs, s)
as_list (err f) = err f

abbrev pub prepend : Value → Parsed Values → Parsed Values
prepend v (ok (vs, s)) = ok (value v vs, s)
prepend v (err f) = err f

-- Each call costs a unit of fuel.
unfoldable mutual
  -- `_parse_braced`, after the opening brace
  pub parse_braced : ℕ → List ℕ → Parsed Values
  parse_braced zero s = err out_of_fuel
  parse_braced (suc fuel) s =
      let items = parse_items fuel s in
      if starts b'}' (skip_space s) then ok (no_values, rest_of (skip_space s)) else items

  -- the loop: an item, and what follows it
  pub parse_items : ℕ → List ℕ → Parsed Values
  parse_items zero s = err out_of_fuel
  parse_items (suc fuel) s =
      parse_item fuel (skip_space s) >>= λ p. after_item fuel p.0 (skip_space p.1)

  pub parse_item : ℕ → List ℕ → Parsed Value
  parse_item zero s = err out_of_fuel
  parse_item (suc fuel) s =
      let braced = as_list (parse_braced fuel (rest_of s)) in
      if text_beq s []
      then err malformed
      else if starts b'{' s
      then braced
      else if starts 34 s
      then as_some (parse_quoted [] (rest_of s))
      else as_scalar (parse_bare s)

  pub after_item : ℕ → Value → List ℕ → Parsed Values
  after_item zero v s = err out_of_fuel
  after_item (suc fuel) v s =
      let more = prepend v (parse_items fuel (rest_of s)) in
      if starts b',' s
      then more
      else if starts b'}' s
      then ok (value v no_values, rest_of s)
      else err malformed

-- the part after `=` of an explicit-bounds prefix
unfoldable pub after_equals : List ℕ → Option (List ℕ)
after_equals [] = none
after_equals (c ∷ s) = let rest = after_equals s in if nat_beq c b'=' then some s else rest

unfoldable pub whole : Parsed Values → Result Failure Values
whole (ok (vs, s)) = if text_beq (strip s) [] then ok vs else err malformed
whole (err f) = err f

unfoldable pub parse_body : Option (List ℕ) → Result Failure Values
parse_body none = err malformed
parse_body (some body) =
    if starts b'{' body
    then whole (parse_braced (suc (4 * length body)) (rest_of body))
    else err malformed

unfoldable pub parse_array_literal : List ℕ → Result Failure Values
parse_array_literal text = parse_body (
    if starts b'[' (strip text)
    then elim (after_equals (strip text)) [ none ↦ none | some s ↦ some (skip_space s) ]
    else some (strip text))
