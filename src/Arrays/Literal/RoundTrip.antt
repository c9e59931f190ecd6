-- ===== src/Arrays/Literal/RoundTrip.antt =====
-- A nested list written by `format_array_literal` and read back by `parse_array_literal`.
use pg_mimic.Prelude.{
  ℕ, zero, suc, ◌+◌, ◌*◌, ◌≤◌, ◌<◌, ◌≡◌, refl, ap, ◌∙◌, List, [], ◌∷◌, ◌++◌, append_assoc, Bool,
  true, false, ◌&&◌, some, length, length-append, ok, arith, >>=-eq-ok,
}
use pg_mimic.Arrays.Defs.{Value, Values, scalar, list, no_values, value}
use pg_mimic.Arrays.Shape.{dimensions}
use pg_mimic.Arrays.Literal.{
  is_space, format_nested, format_items, format_more, format_array_literal, skip_space,
  rstrip_space, strip, starts, prepend, as_list, parse_braced, parse_items, parse_item, after_item,
  parse_array_literal, parse_body, whole,
}
use pg_mimic.Arrays.Literal.Tokens.{
  append-not_empty, ends_item, is_safe, parse_item-format_element, skip_space-none,
}
use pg_mimic.Arrays.Literal.Starts.{IsItemStart, start-format_element}

-- Every text of the value survives `str.strip`.
unfoldable mutual
  pub is_safe_value : Value → Bool
  is_safe_value (scalar e) = is_safe e
  is_safe_value (list vs) = is_safe_each vs

  pub is_safe_each : Values → Bool
  is_safe_each no_values = true
  is_safe_each (value v vs) = is_safe_value v && is_safe_each vs

both : {a b : Bool} → a && b ≡ true → (a ≡ true) × (b ≡ true)
both h = ground arith

start-format_nested : (v : Value) → is_safe_value v ≡ true → IsItemStart (format_nested v)
unfolding format_nested is_safe_value is_space
start-format_nested (scalar e) safe = start-format_element e safe
start-format_nested (list vs) safe = record {
  first = b'{';
  others = _;
  begins = refl;
  no_space = refl;
  no_brace = refl;
}

skip_space-start : (s rest : List ℕ) → IsItemStart s → skip_space (s ++ rest) ≡ s ++ rest
skip_space-start s rest p = rw p.begins (skip_space-none p.first (p.others ++ rest) p.no_space)

starts-start : (s rest : List ℕ) → IsItemStart s → starts b'}' (s ++ rest) ≡ false
starts-start s rest p = rw p.begins p.no_brace

length-start : (s : List ℕ) → IsItemStart s → 0 < length s
length-start s p = rw p.begins (omega arith)

skip_space-more :
    (vs : Values) (rest : List ℕ)
    → skip_space (format_more vs ++ b'}' ∷ rest) ≡ format_more vs ++ b'}' ∷ rest
unfolding format_nested is_space
skip_space-more no_values rest = skip_space-none b'}' rest refl
skip_space-more (value v vs) rest = skip_space-none b',' _ refl

ends_item-more : (vs : Values) (rest : List ℕ) → ends_item (format_more vs ++ b'}' ∷ rest) ≡ true
unfolding format_nested
ends_item-more no_values rest = refl
ends_item-more (value v vs) rest = refl

-- One turn of the loop whose item and whose continuation are known.
parse_items-step :
    (fuel : ℕ) (v : Value) (s more rest : List ℕ) (vs : Values)
    → IsItemStart s
    → parse_item fuel (s ++ more) ≡ ok (v, more)
    → skip_space more ≡ more
    → after_item fuel v more ≡ ok (vs, rest)
    → parse_items (suc fuel) (s ++ more) ≡ ok (vs, rest)
unfolding parse_items
parse_items-step fuel v s more rest vs p item skip after =
    rw (skip_space-start s more p, item, skip, after) refl

parse_braced-empty :
    (fuel : ℕ) (rest : List ℕ) → parse_braced (suc fuel) (b'}' ∷ rest) ≡ ok (no_values, rest)
unfolding parse_braced is_space
parse_braced-empty fuel rest =
    let none_skipped : skip_space (b'}' ∷ rest) ≡ b'}' ∷ rest = skip_space-none b'}' rest refl in
    rw none_skipped refl

parse_braced-items :
    (fuel : ℕ) (s more : List ℕ)
    → IsItemStart s
    → parse_braced (suc fuel) (s ++ more) ≡ parse_items fuel (s ++ more)
unfolding parse_braced
parse_braced-items fuel s more p = rw (skip_space-start s more p, starts-start s more p) refl

parse_item-brace :
    (fuel : ℕ) (s : List ℕ) → parse_item (suc fuel) (b'{' ∷ s) ≡ as_list (parse_braced fuel s)
unfolding parse_item
parse_item-brace fuel s = refl

after_item-comma :
    (fuel : ℕ) (v : Value) (s : List ℕ)
    → after_item (suc fuel) v (b',' ∷ s) ≡ prepend v (parse_items fuel s)
unfolding after_item
after_item-comma fuel v s = refl

after_item-end :
    (fuel : ℕ) (v : Value) (s : List ℕ)
    → after_item (suc fuel) v (b'}' ∷ s) ≡ ok (value v no_values, s)
unfolding after_item
after_item-end fuel v s = refl

mutual
  unfolding format_nested is_safe_value is_safe

  parse_item-format_nested :
      (v : Value) (fuel : ℕ) (rest : List ℕ)
      → is_safe_value v ≡ true
      → ends_item rest ≡ true
      → 3 * length (format_nested v) ≤ fuel
      → 2 < fuel
      → parse_item fuel (format_nested v ++ rest) ≡ ok (v, rest)
  parse_item-format_nested v zero rest safe h b pos = absurd (omega arith)
  parse_item-format_nested (scalar e) (suc fuel) rest safe h b pos =
      parse_item-format_element fuel e rest safe h
  parse_item-format_nested (list vs) (suc fuel) rest safe h b pos =
      ap (λ l. parse_item (suc fuel) (b'{' ∷ l)) (append_assoc (format_items vs) (b'}' ∷ []) rest)
      ∙ parse_item-brace fuel (format_items vs ++ b'}' ∷ rest)
      ∙ ap as_list (
          parse_braced-format_items vs fuel rest safe
            (omega (arith, length-append (format_items vs) (b'}' ∷ []))))

  parse_braced-format_items :
      (vs : Values) (fuel : ℕ) (rest : List ℕ)
      → is_safe_each vs ≡ true
      → 3 * length (format_items vs) + 2 < fuel
      → parse_braced fuel (format_items vs ++ b'}' ∷ rest) ≡ ok (vs, rest)
  parse_braced-format_items vs zero rest safe b = absurd (omega arith)
  parse_braced-format_items vs (suc zero) rest safe b = absurd (omega arith)
  parse_braced-format_items no_values (suc (suc fuel)) rest safe b =
      parse_braced-empty (suc fuel) rest
  parse_braced-format_items (value v vs) (suc (suc fuel)) rest safe b =
      let (first, others) = both safe in
      let start = start-format_nested v first in
      let more = format_more vs ++ b'}' ∷ rest in
      let sized = length-append (format_nested v) (format_more vs) in
      let some_text = length-start (format_nested v) start in
      ap (parse_braced (suc (suc fuel)))
        (append_assoc (format_nested v) (format_more vs) (b'}' ∷ rest))
      ∙ parse_braced-items (suc fuel) (format_nested v) more start
      ∙ parse_items-step fuel v (format_nested v) more rest (value v vs) start
          (parse_item-format_nested v fuel more first (ends_item-more vs rest)
            (omega (arith, sized)) (omega (arith, sized, some_text)))
          (skip_space-more vs rest)
          (after_item-format_more vs v fuel rest others (omega (arith, sized)))

  after_item-format_more :
      (vs : Values) (v : Value) (fuel : ℕ) (rest : List ℕ)
      → is_safe_each vs ≡ true
      → 3 * length (format_more vs) < fuel
      → after_item fuel v (format_more vs ++ b'}' ∷ rest) ≡ ok (value v vs, rest)
  after_item-format_more vs v zero rest safe b = absurd (omega arith)
  after_item-format_more no_values v (suc fuel) rest safe b = after_item-end fuel v rest
  after_item-format_more (value w vs) v (suc zero) rest safe b = absurd (omega arith)
  after_item-format_more (value w vs) v (suc (suc fuel)) rest safe b =
      let (first, others) = both safe in
      let start = start-format_nested w first in
      let more = format_more vs ++ b'}' ∷ rest in
      let sized = length-append (format_nested w) (format_more vs) in
      ap (λ l. after_item (suc (suc fuel)) v (b',' ∷ l))
        (append_assoc (format_nested w) (format_more vs) _)
      ∙ after_item-comma (suc fuel) v (format_nested w ++ more)
      ∙ ap (prepend v) (
          parse_items-step fuel w (format_nested w) more rest (value w vs) start
            (parse_item-format_nested w fuel more first (ends_item-more vs rest)
              (omega (arith, sized)) (omega (arith, sized, length-start (format_nested w) start)))
            (skip_space-more vs rest)
            (after_item-format_more vs w fuel rest others (omega (arith, sized))))

rstrip_space-end :
    (s : List ℕ) (c : ℕ) → is_space c ≡ false → rstrip_space (s ++ c ∷ []) ≡ s ++ c ∷ []
unfolding rstrip_space
rstrip_space-end [] c n = rw n refl
rstrip_space-end (d ∷ s) c n = rw (rstrip_space-end s c n, append-not_empty s c []) refl

strip-braces : (s : List ℕ) → strip (b'{' ∷ (s ++ b'}' ∷ [])) ≡ b'{' ∷ (s ++ b'}' ∷ [])
unfolding strip is_space
strip-braces s =
    let nothing_skipped : skip_space (b'{' ∷ (s ++ b'}' ∷ [])) ≡ b'{' ∷ (s ++ b'}' ∷ []) =
      skip_space-none b'{' _ refl in
    ap rstrip_space nothing_skipped ∙ rstrip_space-end (b'{' ∷ s) b'}' refl

-- What may be written is written whole.
format_array_literal-ok :
    (vs : Values) (text : List ℕ)
    → format_array_literal vs ≡ ok text
    → text ≡ format_nested (list vs)
unfolding format_array_literal
format_array_literal-ok vs text h = let (sizes, checked, same) = >>=-eq-ok (dimensions vs) _ h in cc

parse_body-braces :
    (vs : Values) (s : List ℕ)
    → parse_braced (suc (4 * length (b'{' ∷ s))) s ≡ ok (vs, [])
    → parse_body (some (b'{' ∷ s)) ≡ ok vs
unfolding parse_body whole strip skip_space rstrip_space
parse_body-braces vs s h = rw h refl

parse_array_literal-format_nested :
    (vs : Values) → is_safe_each vs ≡ true → parse_array_literal (format_nested (list vs)) ≡ ok vs
unfolding parse_array_literal format_nested
parse_array_literal-format_nested vs safe = rw (strip-braces (format_items vs)) (
    parse_body-braces vs (format_items vs ++ b'}' ∷ []) (
      parse_braced-format_items vs _ [] safe
        (omega (arith, length-append (format_items vs) (b'}' ∷ [])))))

-- What `format_array_literal` writes, `parse_array_literal` reads back, when no text that is
-- written without quotes has a white space character that `_NEEDS_QUOTING` does not list.
pub parse_array_literal-format :
    (vs : Values) (text : List ℕ)
    → is_safe_each vs ≡ true
    → format_array_literal vs ≡ ok text
    → parse_array_literal text ≡ ok vs
parse_array_literal-format vs text safe h =
    ap parse_array_literal (format_array_literal-ok vs text h)
    ∙ parse_array_literal-format_nested vs safe
