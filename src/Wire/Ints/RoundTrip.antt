-- ===== src/Wire/Ints/RoundTrip.antt =====
-- Packed integers read back at the offset they stand at.
use pg_mimic.Prelude.{
  ℕ, ◌+◌, ◌*◌, ◌/◌, ◌%◌, ◌^◌, ◌<◌, ◌≡◌, refl, sym, ap, ◌∙◌, List, ◌∷◌, ◌++◌, Option, none, some,
  length, drop, append_assoc, drop-append, arith, ℤ, pos, negsuc,
}
use pg_mimic.Wire.Ints.{
  word, signed, bytes32, pack_int32, first_int32, unpack_int32, bytes16, pack_int16, first_int16,
  unpack_int16,
}

signed-word32 : (z : ℤ) (w : ℕ) → word (2 ^ 31) z ≡ some w → signed (2 ^ 31) w ≡ z
unfolding word signed
signed-word32 (pos n) w h = ground arith
signed-word32 (negsuc n) w h = ground arith

word32-lt : (z : ℤ) (w : ℕ) → word (2 ^ 31) z ≡ some w → w < 2 ^ 32
unfolding word
word32-lt (pos n) w h = ground arith
word32-lt (negsuc n) w h = ground arith

bytes_sum :
    (w : ℕ)
    → w < 2 ^ 32
    → (w / 16777216 % 256) * 16777216 + (w / 65536 % 256) * 65536 + (w / 256 % 256) * 256 + w % 256
      ≡ w
bytes_sum w h = omega arith

pub some_inj : {a b : List ℕ} → ◌≡◌ {A = Option (List ℕ)} (some a) (some b) → a ≡ b
some_inj e = cc

first_int32-word :
    (z : ℤ) (w : ℕ) (rest : List ℕ)
    → word (2 ^ 31) z ≡ some w
    → first_int32 (w / 16777216 % 256 ∷ w / 65536 % 256 ∷ w / 256 % 256 ∷ w % 256 ∷ rest) ≡ some z
unfolding first_int32
first_int32-word z w rest h =
    ap (λ v. some (signed (2 ^ 31) v)) (bytes_sum w (word32-lt z w h))
    ∙ ap some (signed-word32 z w h)

pub first_int32-bytes32 :
    (z : ℤ) (o : Option ℕ) (bs rest : List ℕ)
    → word (2 ^ 31) z ≡ o
    → bytes32 o ≡ some bs
    → first_int32 (bs ++ rest) ≡ some z
unfolding bytes32
first_int32-bytes32 z none bs rest h e = absurd cc
first_int32-bytes32 z (some w) bs rest h e =
    ap (λ l. first_int32 (l ++ rest)) (sym (some_inj e)) ∙ first_int32-word z w rest h

-- A packed 32-bit integer reads back, wherever it stands in the data.
pub unpack_int32-pack_int32 :
    (z : ℤ) (before packed rest : List ℕ)
    → pack_int32 z ≡ some packed
    → unpack_int32 (before ++ packed ++ rest) (length before) ≡ some z
unfolding unpack_int32 pack_int32
unpack_int32-pack_int32 z before packed rest e =
    ap (λ l. first_int32 (drop (length before) l)) (append_assoc before packed rest)
    ∙ ap first_int32 (drop-append before (packed ++ rest))
    ∙ first_int32-bytes32 z _ packed rest refl e

signed-word16 : (z : ℤ) (w : ℕ) → word (2 ^ 15) z ≡ some w → signed (2 ^ 15) w ≡ z
unfolding word signed
signed-word16 (pos n) w h = ground arith
signed-word16 (negsuc n) w h = ground arith

word16-lt : (z : ℤ) (w : ℕ) → word (2 ^ 15) z ≡ some w → w < 2 ^ 16
unfolding word
word16-lt (pos n) w h = ground arith
word16-lt (negsuc n) w h = ground arith

half_sum : (w : ℕ) → w < 2 ^ 16 → (w / 256 % 256) * 256 + w % 256 ≡ w
half_sum w h = omega arith

first_int16-bytes16 :
    (z : ℤ) (o : Option ℕ) (bs rest : List ℕ)
    → word (2 ^ 15) z ≡ o
    → bytes16 o ≡ some bs
    → first_int16 (bs ++ rest) ≡ some z
unfolding bytes16 first_int16
first_int16-bytes16 z none bs rest h e = absurd cc
first_int16-bytes16 z (some w) bs rest h e =
    ap (λ l. first_int16 (l ++ rest)) (sym (some_inj e))
    ∙ ap (λ v. some (signed (2 ^ 15) v)) (half_sum w (word16-lt z w h))
    ∙ ap some (signed-word16 z w h)

-- A packed 16-bit integer reads back, wherever it stands in the data.
pub unpack_int16-pack_int16 :
    (z : ℤ) (before packed rest : List ℕ)
    → pack_int16 z ≡ some packed
    → unpack_int16 (before ++ packed ++ rest) (length before) ≡ some z
unfolding unpack_int16 pack_int16
unpack_int16-pack_int16 z before packed rest e =
    ap (λ l. first_int16 (drop (length before) l)) (append_assoc before packed rest)
    ∙ ap first_int16 (drop-append before (packed ++ rest))
    ∙ first_int16-bytes16 z _ packed rest refl e
