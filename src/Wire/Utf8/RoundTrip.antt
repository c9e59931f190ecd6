-- ===== src/Wire/Utf8/RoundTrip.antt =====
-- What is encoded is decoded to the same code points.
use pg_mimic.Prelude.{
  ℕ, ◌+◌, ◌/◌, ◌%◌, ◌≤◌, ◌<◌, ◌≡◌, refl, ap, ◌∙◌, List, [], ◌∷◌, ◌++◌, true, some, ltb, arith,
  Bool-cases, Option-cases, inl, inr, ltb→lt, ltb→le,
}
use pg_mimic.Wire.Ints.RoundTrip.{some_inj}
use pg_mimic.Wire.Utf8.{
  is_scalar, char_bytes, put_before, encode, checked, two_bytes, three_value, three_bytes,
  four_value, four_bytes, lead, decode_from, decode,
}

three_value-char :
    (c : ℕ) → c < 65536 → three_value (224 + c / 4096) (128 + c / 64 % 64) (128 + c % 64) ≡ c
unfolding three_value
three_value-char c h = omega arith

four_value-char :
    (c : ℕ)
    → c < 1114112
    → four_value (240 + c / 262144) (128 + c / 4096 % 64) (128 + c / 64 % 64) (128 + c % 64) ≡ c
unfolding four_value
four_value-char c h = omega arith

lead-two :
    (c : ℕ) (s : List ℕ)
    → 128 ≤ c
    → c < 2048
    → lead (192 + c / 64) ((128 + c % 64) ∷ s) ≡ some (c, 1)
unfolding lead two_bytes checked
lead-two c s h k = ground arith

lead-three :
    (c : ℕ) (s : List ℕ)
    → 2048 ≤ c
    → c < 65536
    → is_scalar c ≡ true
    → lead (224 + c / 4096) ((128 + c / 64 % 64) ∷ (128 + c % 64) ∷ s) ≡ some (c, 2)
unfolding lead three_bytes checked
lead-three c s h k i = ground (arith, three_value-char c k)

lead-four :
    (c : ℕ) (s : List ℕ)
    → 65536 ≤ c
    → c < 1114112
    → lead (240 + c / 262144) ((128 + c / 4096 % 64) ∷ (128 + c / 64 % 64) ∷ (128 + c % 64) ∷ s)
      ≡ some (c, 3)
unfolding lead four_bytes checked
lead-four c s h k = ground (arith, four_value-char c k)

lead-one : (c : ℕ) (s : List ℕ) → c < 128 → lead c s ≡ some (c, 0)
unfolding lead
lead-one c s h = ground arith

decode-lead :
    (a c k : ℕ) (s : List ℕ)
    → lead a s ≡ some (c, k)
    → decode_from 0 (a ∷ s) ≡ put_before (c ∷ []) (decode_from k s)
unfolding decode_from
decode-lead a c k s h = rw (decode_from, h) refl

-- The encoding of a code point, by the number of its bytes.
pub char_bytes-cases :
    (c : ℕ) (Q : List ℕ → Type 0)
    → (c < 128 → Q (c ∷ []))
    → (128 ≤ c → c < 2048 → Q ((192 + c / 64) ∷ (128 + c % 64) ∷ []))
    → (2048 ≤ c → c < 65536 → Q ((224 + c / 4096) ∷ (128 + c / 64 % 64) ∷ (128 + c % 64) ∷ []))
    → (65536 ≤ c
        → Q (
            (240 + c / 262144) ∷ (128 + c / 4096 % 64) ∷ (128 + c / 64 % 64) ∷ (128 + c % 64) ∷ []))
    → Q (char_bytes c)
unfolding char_bytes
char_bytes-cases c Q one two three four = elim (Bool-cases (ltb c 128)) [
  | inl e ↦ rw e (one (ltb→lt c 128 e))
  | inr e ↦ rw e (elim (Bool-cases (ltb c 2048)) [
    | inl f ↦ rw f (two (ltb→le c 128 e) (ltb→lt c 2048 f))
    | inr f ↦ rw f (elim (Bool-cases (ltb c 65536)) [
      | inl g ↦ rw g (three (ltb→le c 2048 f) (ltb→lt c 65536 g))
      | inr g ↦ rw g (four (ltb→le c 65536 g))
    ])
  ])
]

scalar-lt : (c : ℕ) → is_scalar c ≡ true → c < 1114112
scalar-lt c h = ground arith

decode-char_bytes :
    (c : ℕ) (s : List ℕ)
    → is_scalar c ≡ true
    → decode_from 0 (char_bytes c ++ s) ≡ put_before (c ∷ []) (decode_from 0 s)
unfolding decode_from
decode-char_bytes c s i =
    char_bytes-cases c (λ bs. decode_from 0 (bs ++ s) ≡ put_before (c ∷ []) (decode_from 0 s))
      (λ h. decode-lead c c 0 s (lead-one c s h)) (λ h k. decode-lead _ c 1 _ (lead-two c s h k))
      (λ h k. decode-lead _ c 2 _ (lead-three c s h k i))
      (λ h. decode-lead _ c 3 _ (lead-four c s h (scalar-lt c i)))

pub encode-cons :
    (c : ℕ) (s bs : List ℕ)
    → encode (c ∷ s) ≡ some bs
    → (is_scalar c ≡ true)
      × ((rest : List ℕ) × (encode s ≡ some rest) × (bs ≡ char_bytes c ++ rest))
unfolding encode
encode-cons c s bs e = elim (Bool-cases (is_scalar c)) [
  | inr f ↦ absurd cc
  | inl f ↦ elim (Option-cases (encode s)) [
    | inl n ↦ absurd cc
    | inr (rest, r) ↦ (f, (rest, r, cc))
  ]
]

-- A string that encodes is what its encoding decodes to.
pub decode-encode : (s bs : List ℕ) → encode s ≡ some bs → decode bs ≡ some s
unfolding decode encode decode_from
decode-encode [] bs e = rw (← (some_inj e)) refl
decode-encode (c ∷ s) bs e =
    let (scalar, (rest, coded, joined)) = encode-cons c s bs e in
    ap decode joined
    ∙ decode-char_bytes c rest scalar
    ∙ ap (put_before (c ∷ [])) (decode-encode s rest coded)
