-- ===== src/Arrays/Literal/Starts.antt =====
-- How the text of an element begins.
use pg_mimic.Prelude.{
  ℕ, ◌≡◌, refl, List, [], ◌∷◌, true, false, none, some, nat_beq, Bool-cases, inl, inr, arith,
}
use pg_mimic.Arrays.Defs.{Element}
use pg_mimic.Arrays.Literal.{is_space, needs_quoting, any_char, is_quoted, format_element}
use pg_mimic.Arrays.Literal.Tokens.{
  any_char-cons, no_space_char, unquoted-cases, safe_unquoted, is_exotic_space, is_safe,
}

-- The first character of a text that `_format_nested` writes.
pub record IsItemStart (s : List ℕ) : Type 0 where
  pub first : ℕ
  pub others : List ℕ
  pub begins : s ≡ first ∷ others
  pub no_space : is_space first ≡ false
  pub no_brace : nat_beq first b'}' ≡ false

start-unquoted :
    (t : List ℕ) → is_quoted t ≡ false → any_char is_exotic_space t ≡ false → IsItemStart t
unfolding needs_quoting
start-unquoted [] q e = absurd cc
start-unquoted (c ∷ t) q e =
    let (filled, word, plain) = unquoted-cases (c ∷ t) q in
    let (head, more) = any_char-cons needs_quoting c t plain in
    record {
      first = c;
      others = t;
      begins = refl;
      no_space = no_space_char c head (any_char-cons is_exotic_space c t e).0;
      no_brace = ground arith;
    }

pub start-format_element : (e : Element) → is_safe e ≡ true → IsItemStart (format_element e)
unfolding format_element is_space
start-format_element none safe = record {
  first = b'N';
  others = _;
  begins = refl;
  no_space = refl;
  no_brace = refl;
}
start-format_element (some t) safe = elim (Bool-cases (is_quoted t)) [
  | inl q ↦
      rw q (record { first = 34; others = _; begins = refl; no_space = refl; no_brace = refl })
  | inr q ↦ rw q (start-unquoted t q (safe_unquoted t q safe))
]
