-- ===== src/Arrays/Literal/Tokens.antt =====
-- One element of an array literal, written by `_format_element` and read back.
use pg_mimic.Prelude.{
  ℕ, suc, ◌≡◌, refl, sym, ap, ◌∙◌, List, [], ◌∷◌, ◌++◌, append_assoc, append-nil, Bool, true, false,
  not, ◌&&◌, ◌||◌, none, some, nat_beq, ok, Bool-cases, inl, inr, arith, text_beq,
}
use pg_mimic.Arrays.Defs.{Element, scalar}
use pg_mimic.Arrays.Literal.{
  is_space, needs_quoting, any_char, upper, is_null_word, escape_element, is_quoted, format_element,
  Parsed, skip_space, parse_quoted, take_bare, rstrip_space, strip, bare_element, parse_bare,
  parse_item,
}

-- What may follow an element: a comma or a closing brace.
abbrev pub ends_item : List ℕ → Bool
ends_item [] = false
ends_item (c ∷ s) = nat_beq c b',' || nat_beq c b'}'

-- White space that `_NEEDS_QUOTING` does not list.
unfoldable pub is_exotic_space : ℕ → Bool
is_exotic_space c = is_space c && not (needs_quoting c)

parse_quoted-plain :
    (c : ℕ) (chars s : List ℕ)
    → nat_beq c 92 || nat_beq c 34 ≡ false
    → text_beq s [] ≡ false
    → parse_quoted chars (c ∷ s) ≡ parse_quoted (chars ++ c ∷ []) s
unfolding parse_quoted
parse_quoted-plain c chars [] h n = absurd cc
parse_quoted-plain c chars (d ∷ s) h n = ground arith

parse_quoted-special :
    (c : ℕ) (chars s : List ℕ) → parse_quoted chars (92 ∷ c ∷ s) ≡ parse_quoted (chars ++ c ∷ []) s
unfolding parse_quoted
parse_quoted-special c chars s = refl

pub append-not_empty : (s : List ℕ) (c : ℕ) (t : List ℕ) → text_beq (s ++ c ∷ t) [] ≡ false
append-not_empty [] c t = refl
append-not_empty (d ∷ s) c t = refl

escape-special :
    (c : ℕ) (s : List ℕ)
    → nat_beq c 92 || nat_beq c 34 ≡ true
    → escape_element (c ∷ s) ≡ 92 ∷ c ∷ escape_element s
unfolding escape_element
escape-special c s h = rw h refl

escape-plain :
    (c : ℕ) (s : List ℕ)
    → nat_beq c 92 || nat_beq c 34 ≡ false
    → escape_element (c ∷ s) ≡ c ∷ escape_element s
unfolding escape_element
escape-plain c s h = rw h refl

parse_quoted-end : (chars rest : List ℕ) → parse_quoted chars (34 ∷ rest) ≡ ok (chars, rest)
unfolding parse_quoted
parse_quoted-end chars [] = refl
parse_quoted-end chars (d ∷ rest) = refl

-- one more character read
next_char :
    (c : ℕ) (t chars rest : List ℕ)
    → ◌≡◌ {A = Parsed (List ℕ)} (ok ((chars ++ c ∷ []) ++ t, rest)) (ok (chars ++ c ∷ t, rest))
next_char c t chars rest = ap (λ l. ok (l, rest)) (append_assoc chars (c ∷ []) t)

pub parse_quoted-escape :
    (t chars rest : List ℕ)
    → parse_quoted chars (escape_element t ++ 34 ∷ rest) ≡ ok (chars ++ t, rest)
unfolding escape_element
parse_quoted-escape [] chars rest =
    parse_quoted-end chars rest ∙ ap (λ l. ok (l, rest)) (sym (append-nil chars))
parse_quoted-escape (c ∷ t) chars rest = elim (Bool-cases (nat_beq c 92 || nat_beq c 34)) [
  | inl special ↦
      ap (λ l. parse_quoted chars (l ++ 34 ∷ rest)) (escape-special c t special)
      ∙ parse_quoted-special c chars (escape_element t ++ 34 ∷ rest)
      ∙ parse_quoted-escape t (chars ++ c ∷ []) rest
      ∙ next_char c t chars rest
  | inr plain ↦
      ap (λ l. parse_quoted chars (l ++ 34 ∷ rest)) (escape-plain c t plain)
      ∙ parse_quoted-plain c chars (escape_element t ++ 34 ∷ rest) plain
          (append-not_empty (escape_element t) 34 rest)
      ∙ parse_quoted-escape t (chars ++ c ∷ []) rest
      ∙ next_char c t chars rest
]

pub any_char-cons :
    (p : ℕ → Bool) (c : ℕ) (s : List ℕ)
    → any_char p (c ∷ s) ≡ false
    → (p c ≡ false) × (any_char p s ≡ false)
unfolding any_char
any_char-cons p c s h = ground arith

pub no_space_char :
    (c : ℕ) → needs_quoting c ≡ false → is_exotic_space c ≡ false → is_space c ≡ false
unfolding is_exotic_space
no_space_char c n e = ground arith

not_special :
    (c : ℕ)
    → needs_quoting c ≡ false
    → (nat_beq c b',' || nat_beq c b'}' ≡ false) × (nat_beq c b'{' ≡ false) × (nat_beq c 34 ≡ false)
unfolding needs_quoting
not_special c n = ground arith

take_bare-append :
    (t rest : List ℕ)
    → any_char needs_quoting t ≡ false
    → ends_item rest ≡ true
    → take_bare (t ++ rest) ≡ (t, rest)
unfolding take_bare
take_bare-append [] [] n e = absurd cc
take_bare-append [] (c ∷ rest) n e = rw e refl
take_bare-append (c ∷ t) rest n e =
    let (first, more) = any_char-cons needs_quoting c t n in
    rw ((not_special c first).0, take_bare-append t rest more e) refl

rstrip_space-none : (t : List ℕ) → any_char is_space t ≡ false → rstrip_space t ≡ t
unfolding rstrip_space
rstrip_space-none [] n = refl
rstrip_space-none (c ∷ t) n =
    let (first, more) = any_char-cons is_space c t n in
    rw (rstrip_space-none t more, first)
      (elim (Bool-cases (text_beq t [])) [ inl e ↦ rw e refl | inr e ↦ rw e refl ])

pub skip_space-none : (c : ℕ) (t : List ℕ) → is_space c ≡ false → skip_space (c ∷ t) ≡ c ∷ t
unfolding skip_space
skip_space-none c t n = rw n refl

spaces-none :
    (t : List ℕ)
    → any_char needs_quoting t ≡ false
    → any_char is_exotic_space t ≡ false
    → any_char is_space t ≡ false
unfolding any_char
spaces-none [] n e = refl
spaces-none (c ∷ t) n e =
    let (n_first, n_more) = any_char-cons needs_quoting c t n in
    let (e_first, e_more) = any_char-cons is_exotic_space c t e in
    rw (no_space_char c n_first e_first, spaces-none t n_more e_more) refl

-- A text written without quotes that `str.strip` leaves alone, as it leaves every quoted one.
unfoldable pub is_safe : Element → Bool
is_safe none = true
is_safe (some t) = is_quoted t || not (any_char is_exotic_space t)

strip-none : (t : List ℕ) → any_char is_space t ≡ false → strip t ≡ t
unfolding strip skip_space rstrip_space
strip-none [] n = refl
strip-none (c ∷ t) n =
    ap rstrip_space (skip_space-none c t (any_char-cons is_space c t n).0)
    ∙ rstrip_space-none (c ∷ t) n

-- The head of a text that is written without quotes.
parse_bare-plain :
    (t rest : List ℕ)
    → any_char needs_quoting t ≡ false
    → any_char is_exotic_space t ≡ false
    → ends_item rest ≡ true
    → parse_bare (t ++ rest) ≡ ok (bare_element t, rest)
unfolding parse_bare
parse_bare-plain t rest n e h =
    rw (take_bare-append t rest n h, strip-none t (spaces-none t n e)) refl

parse_item-bare :
    (fuel c : ℕ) (s : List ℕ) (e : Element) (rest : List ℕ)
    → needs_quoting c ≡ false
    → parse_bare (c ∷ s) ≡ ok (e, rest)
    → parse_item (suc fuel) (c ∷ s) ≡ ok (scalar e, rest)
unfolding parse_item
parse_item-bare fuel c s e rest n h =
    let (other, brace, quote) = not_special c n in rw (brace, quote, h) refl

pub unquoted-cases :
    (t : List ℕ)
    → is_quoted t ≡ false
    → (text_beq t [] ≡ false) × (is_null_word t ≡ false) × (any_char needs_quoting t ≡ false)
unquoted-cases t h = ground arith

parse_item-unquoted :
    (fuel : ℕ) (t rest : List ℕ)
    → is_quoted t ≡ false
    → any_char is_exotic_space t ≡ false
    → ends_item rest ≡ true
    → parse_item (suc fuel) (t ++ rest) ≡ ok (scalar (some t), rest)
unfolding bare_element
parse_item-unquoted fuel [] rest q e h = absurd cc
parse_item-unquoted fuel (c ∷ t) rest q e h =
    let (filled, word, plain) = unquoted-cases (c ∷ t) q in
    parse_item-bare fuel c (t ++ rest) (some (c ∷ t)) rest (any_char-cons needs_quoting c t plain).0
      (parse_bare-plain (c ∷ t) rest plain e h ∙ rw word refl)

pub safe_unquoted :
    (t : List ℕ)
    → is_quoted t ≡ false
    → is_safe (some t) ≡ true
    → any_char is_exotic_space t ≡ false
unfolding is_safe
safe_unquoted t q safe = elim (Bool-cases (any_char is_exotic_space t)) [
  | inr e ↦ e
  | inl e ↦ absurd (ground arith)
]

abbrev null_word : List ℕ
null_word = b'N' ∷ b'U' ∷ b'L' ∷ b'L' ∷ []

parse_item-null :
    (fuel : ℕ) (rest : List ℕ)
    → ends_item rest ≡ true
    → parse_item (suc fuel) (null_word ++ rest) ≡ ok (scalar none, rest)
unfolding bare_element any_char needs_quoting is_exotic_space is_space is_null_word upper
parse_item-null fuel rest h =
    parse_item-bare fuel b'N' (b'U' ∷ b'L' ∷ b'L' ∷ rest) none rest refl
      (parse_bare-plain null_word rest refl refl h)

parse_item-quoted :
    (fuel : ℕ) (t rest : List ℕ)
    → parse_item (suc fuel) (34 ∷ (escape_element t ++ 34 ∷ rest)) ≡ ok (scalar (some t), rest)
unfolding parse_item
parse_item-quoted fuel t rest = rw (parse_quoted-escape t [] rest) refl

-- An element reads back whatever may stand behind it, NULL told apart from every text.
pub parse_item-format_element :
    (fuel : ℕ) (e : Element) (rest : List ℕ)
    → is_safe e ≡ true
    → ends_item rest ≡ true
    → parse_item (suc fuel) (format_element e ++ rest) ≡ ok (scalar e, rest)
unfolding format_element is_safe
parse_item-format_element fuel none rest safe h = parse_item-null fuel rest h
parse_item-format_element fuel (some t) rest safe h = elim (Bool-cases (is_quoted t)) [
  | inl q ↦ rw q (
      ap (λ l. parse_item (suc fuel) (34 ∷ l)) (append_assoc (escape_element t) (34 ∷ []) rest)
      ∙ parse_item-quoted fuel t rest)
  | inr q ↦ rw q (parse_item-unquoted fuel t rest q (safe_unquoted t q safe) h)
]
