-- ===== src/Wire/Messages/Strings.antt =====
-- A string that `_cstring` writes, read back by `read_cstring`.
use pg_mimic.Prelude.{
  ℕ, ◌+◌, ◌≡◌, refl, ap, ◌∙◌, List, [], ◌∷◌, ◌++◌, append_assoc, false, none, some, length,
  length-append, drop-append, take-append, nat_beq, arith, Option-cases, inl, inr,
}
use pg_mimic.Wire.Ints.RoundTrip.{some_inj}
use pg_mimic.Wire.Utf8.{char_bytes, encode}
use pg_mimic.Wire.Utf8.RoundTrip.{char_bytes-cases, encode-cons, decode-encode}
use pg_mimic.Wire.Messages.Builders.{cstring}
use pg_mimic.Wire.Messages.Parsers.{zero_index, with_offset, cut_cstring, read_cstring}

zero_index-append :
    (a rest : List ℕ) → zero_index a ≡ none → zero_index (a ++ 0 ∷ rest) ≡ some (length a)
unfolding zero_index
zero_index-append [] rest h = refl
zero_index-append (b ∷ a) rest h = ground (arith, zero_index-append a rest)

-- Bytes that add no zero to what stands behind them.
abbrev IsZeroFree : List ℕ → Type 0
IsZeroFree bs = (rest : List ℕ) → zero_index rest ≡ none → zero_index (bs ++ rest) ≡ none

char_bytes-IsZeroFree : (c : ℕ) → nat_beq c 0 ≡ false → IsZeroFree (char_bytes c)
unfolding zero_index
char_bytes-IsZeroFree c n =
    char_bytes-cases c IsZeroFree (λ h rest r. ground arith) (λ h k rest r. ground arith)
      (λ h k rest r. ground arith) (λ h rest r. ground arith)

zero_index-cons :
    (c : ℕ) (s : List ℕ) → zero_index (c ∷ s) ≡ none → (nat_beq c 0 ≡ false) × (zero_index s ≡ none)
unfolding zero_index
zero_index-cons c s h = ground arith

encode-IsZeroFree :
    (s bs : List ℕ) → encode s ≡ some bs → zero_index s ≡ none → zero_index bs ≡ none
unfolding encode zero_index
encode-IsZeroFree [] bs e h = rw (← (some_inj e)) refl
encode-IsZeroFree (c ∷ s) bs e h =
    let (scalar, (rest, coded, joined)) = encode-cons c s bs e in
    ap zero_index joined
    ∙ char_bytes-IsZeroFree c (zero_index-cons c s h).0 rest
        (encode-IsZeroFree s rest coded (zero_index-cons c s h).1)

cstring-encode :
    (s bs : List ℕ)
    → cstring s ≡ some bs
    → (coded : List ℕ) × (encode s ≡ some coded) × (bs ≡ coded ++ 0 ∷ [])
unfolding cstring
cstring-encode s bs e = elim (Option-cases (encode s)) [
  | inl n ↦ absurd cc
  | inr (coded, c) ↦ (coded, c, cc)
]

cut_cstring-coded :
    (s coded rest : List ℕ) (offset : ℕ)
    → encode s ≡ some coded
    → zero_index s ≡ none
    → cut_cstring (zero_index (coded ++ 0 ∷ rest)) (coded ++ 0 ∷ rest) offset
      ≡ some (s, offset + length coded + 1)
unfolding cut_cstring with_offset
cut_cstring-coded s coded rest offset e z =
    rw
      (
        zero_index-append coded rest (encode-IsZeroFree s coded e z),
        take-append coded (0 ∷ rest),
        decode-encode s coded e,
      )
      refl

-- A string without a NUL that `_cstring` writes is read back wherever it stands, with the offset
-- of what follows it.
pub read_cstring-cstring :
    (s bs before rest : List ℕ)
    → cstring s ≡ some bs
    → zero_index s ≡ none
    → read_cstring (before ++ (bs ++ rest)) (length before) ≡ some (s, length before + length bs)
unfolding read_cstring
read_cstring-cstring s bs before rest e z =
    let (coded, c, j) = cstring-encode s bs e in
    ap (λ l. cut_cstring (zero_index l) l (length before))
      (drop-append before (bs ++ rest) ∙ ap (λ b. b ++ rest) j ∙ append_assoc coded (0 ∷ []) rest)
    ∙ cut_cstring-coded s coded rest (length before) c z
    ∙ ap (λ n. some (s, n)) (omega (arith, ap length j, length-append coded (0 ∷ [])))
