-- ===== src/Arrays/Binary/RoundTrip.antt =====
-- An array in the binary format, read back.
use pg_mimic.Prelude.{
  ℕ, ◌^◌, ◌<◌, ◌≡◌, refl, sym, ap, subst, ◌∙◌, List, [], ◌∷◌, ◌++◌, append-nil, map, Bool, true,
  ◌&&◌, ltb→lt, Option, none, some, nat_beq, ltb, if◌then◌else◌, length, arith, pos, to_nat, Result,
  ok, err, >>=-eq-ok, Bool-cases, inl, inr,
}
use pg_mimic.Errors.{Error}
use pg_mimic.Arrays.Defs.{Value, Values, list, no_values, value, Element}
use pg_mimic.Arrays.Shape.{check_rectangular, first_sizes, dimensions, flatten, product, reshape}
use pg_mimic.Arrays.Shape.RoundTrip.{
  AllPositive, cells, product-cells, reshape-flatten, length-dimensions,
}
use pg_mimic.Wire.Ints.RoundTrip.{some_inj}
use pg_mimic.Wire.Ints.{pack_int32, bytes32, word}
use pg_mimic.Wire.Messages.Builders.{◌then◌, each, field}
use pg_mimic.Wire.Reader.{give, read_times}
use pg_mimic.Wire.Reader.Reads.{
  Reads, Reads-give, Reads-then, Reads-eq, Reads-int32, Reads-field, Reads-each, Reads-map,
  Reads-result, then-some,
}
use pg_mimic.Arrays.Binary.{
  ElementCodec, array_oids, element_of, element_oid_of, pack_uint32, has_null, put_size,
  put_encoded, put_element, put_array, flat_of, encode_list, encode_array, encode_array_binary,
  read_size, decode_element, read_element, give_result, decode_dimensions, read_array,
  decode_array_binary,
}

-- every element OID of a table fits an int
below : List (ℕ × ℕ) → Bool
below [] = true
below ((element, array) ∷ rest) = ltb element (2 ^ 31) && below rest

element_of-lt :
    (table : List (ℕ × ℕ)) (array_oid oid : ℕ)
    → below table ≡ true
    → element_of table array_oid ≡ some oid
    → oid < 2 ^ 31
unfolding below
element_of-lt [] array_oid oid b e = absurd cc
element_of-lt ((element, array) ∷ rest) array_oid oid b e =
    elim (Bool-cases (nat_beq array array_oid)) [
      | inl h ↦ ground (arith, ltb→lt element (2 ^ 31))
      | inr h ↦ element_of-lt rest array_oid oid (ground arith) (ground arith)
    ]

element_oid_of-lt : (array_oid oid : ℕ) → element_oid_of array_oid ≡ some oid → oid < 2 ^ 31
unfolding element_oid_of below
element_oid_of-lt array_oid oid e = element_of-lt array_oids array_oid oid refl e

pack_uint32-pack_int32 : (n : ℕ) → n < 2 ^ 31 → pack_uint32 n ≡ pack_int32 (pos n)
unfolding pack_uint32 pack_int32 word
pack_uint32-pack_int32 n h = ap bytes32 (ground arith)

-- the size of a dimension as it is read
Reads-size : (size : ℕ) (bs : List ℕ) → put_size size ≡ some bs → Reads read_size bs (pos size)
unfolding put_size read_size
Reads-size size bs e =
    let (xs, ys, first, lower, joined) =
      then-some (pack_int32 (pos size)) (pack_int32 (pos 1)) bs e in
    Reads-eq (joined ∙ ap (λ l. xs ++ l) (sym (append-nil ys))) (
      Reads-then _ (Reads-int32 (pos size) xs first)
        (Reads-then (λ l. give (pos size)) (Reads-int32 (pos 1) ys lower) (Reads-give (pos size))))

Reads-decoded :
    (codec : ElementCodec) (text bs : List ℕ)
    → codec.encode_value_binary text ≡ some bs
    → Reads (decode_element codec (some bs)) [] (some text)
unfolding decode_element
Reads-decoded codec text bs e =
    rw (codec.decodes text bs e)
      (record { reads = λ before rest. ap (λ n. some (some text, pos n)) (omega arith) })

put_encoded-some :
    (o : Option (List ℕ)) (bs : List ℕ)
    → put_encoded o ≡ some bs
    → (encoded : List ℕ) × (o ≡ some encoded) × (field (some encoded) ≡ some bs)
put_encoded-some none bs e = absurd cc
put_encoded-some (some encoded) bs e = (encoded, refl, e)

Reads-element :
    (codec : ElementCodec) (e : Element) (bs : List ℕ)
    → put_element codec e ≡ some bs
    → Reads (read_element codec) bs e
unfolding put_element read_element decode_element
Reads-element codec none bs h =
    Reads-eq (sym (append-nil bs))
      (Reads-then (decode_element codec) (Reads-field none bs h) (Reads-give none))
Reads-element codec (some text) bs h =
    let (encoded, coded, packed) = put_encoded-some (codec.encode_value_binary text) bs h in
    Reads-eq (sym (append-nil bs)) (
      Reads-then (decode_element codec) (Reads-field (some encoded) bs packed)
        (Reads-decoded codec text encoded coded))

Reads-result_of : (r : Result Error Value) (v : Value) → r ≡ ok v → Reads (give_result r) [] v
Reads-result_of (err e) v h = absurd cc
Reads-result_of (ok w) v h = record {
  reads = λ before rest. let same : w ≡ v = cc in rw same (ap (λ n. some (v, pos n)) (omega arith));
}

-- The elements of a shape whose sizes are known.
Reads-elements :
    (codec : ElementCodec) (sizes : List ℕ) (flat : List Element) (bs : List ℕ)
    → length flat ≡ cells sizes
    → each (put_element codec) flat ≡ some bs
    → Reads (read_times (read_element codec) (to_nat (product (map pos sizes)))) bs flat
Reads-elements codec sizes flat bs l e =
    subst (λ n. Reads (read_times (read_element codec) n) bs flat)
      (l ∙ ap to_nat (sym (product-cells sizes)))
      (Reads-each (put_element codec) (read_element codec) (Reads-element codec) flat bs e)

Reads-dimensions :
    (codec : ElementCodec) (size : ℕ) (sizes : List ℕ) (flat : List Element) (bs cs : List ℕ)
    (v : Value)
    → each put_size (size ∷ sizes) ≡ some bs
    → each (put_element codec) flat ≡ some cs
    → length flat ≡ cells (size ∷ sizes)
    → reshape (map pos (size ∷ sizes)) flat ≡ ok v
    → Reads (decode_dimensions codec (pos (length (size ∷ sizes)))) (bs ++ cs) v
unfolding decode_dimensions
Reads-dimensions codec size sizes flat bs cs v e h l r =
    Reads-eq (ap (λ k. bs ++ k) (sym (append-nil cs))) (
      Reads-then _ (Reads-map pos put_size read_size Reads-size (size ∷ sizes) bs e) (
        Reads-then (λ read. give_result (reshape (map pos (size ∷ sizes)) read))
          (Reads-elements codec (size ∷ sizes) flat cs l h)
          (Reads-result_of (reshape (map pos (size ∷ sizes)) flat) v r)))

-- What follows the header of an array.
Reads-body :
    (codec : ElementCodec) (vs : Values) (sizes : List ℕ) (bs cs : List ℕ)
    → dimensions vs ≡ ok sizes
    → AllPositive sizes
    → each put_size sizes ≡ some bs
    → each (put_element codec) (flat_of sizes vs) ≡ some cs
    → Reads (decode_dimensions codec (pos (length sizes))) (bs ++ cs) (list vs)
unfolding decode_dimensions dimensions first_sizes
Reads-body codec no_values [] bs cs d filled e h =
    Reads-eq (rw (← some_inj e, ← some_inj h) refl) (Reads-give (list no_values))
Reads-body codec (value v vs) [] bs cs d filled e h =
    let (u, checked, same) = >>=-eq-ok (check_rectangular (list (value v vs)) _) _ d in absurd cc
Reads-body codec vs (size ∷ sizes) bs cs d filled e h =
    Reads-dimensions codec size sizes (flatten (list vs)) bs cs (list vs) e h
      (length-dimensions vs size sizes d) (reshape-flatten vs (size ∷ sizes) d filled)

put_array-parts :
    (codec : ElementCodec) (oid : ℕ) (sizes : List ℕ) (flat : List Element) (bs : List ℕ)
    → oid < 2 ^ 31
    → put_array codec oid sizes flat ≡ some bs
    → (n flags code dims items : List ℕ) × (pack_int32 (pos (length sizes)) ≡ some n)
      × (pack_int32 (pos (if has_null flat then 1 else 0)) ≡ some flags)
      × (pack_int32 (pos oid) ≡ some code)
      × (each put_size sizes ≡ some dims)
      × (each (put_element codec) flat ≡ some items)
      × (bs ≡ n ++ (flags ++ (code ++ (dims ++ items))))
unfolding put_array
put_array-parts codec oid sizes flat bs small e =
    let (n, tail, e_n, e_tail, j) = then-some (pack_int32 (pos (length sizes))) _ bs e in
    let (flags, tail', e_flags, e_tail', j') =
      then-some (pack_int32 (pos (if has_null flat then 1 else 0))) _ tail e_tail in
    let (code, tail'', e_code, e_tail'', j'') = then-some (pack_uint32 oid) _ tail' e_tail' in
    let (dims, items, e_dims, e_items, ends) = then-some (each put_size sizes) _ tail'' e_tail'' in
    (
      n,
      flags,
      code,
      dims,
      items,
      e_n,
      e_flags,
      sym (pack_uint32-pack_int32 oid small) ∙ e_code,
      e_dims,
      e_items,
      j ∙ ap (λ l. n ++ l) (j' ∙ ap (λ l. flags ++ l) (j'' ∙ ap (λ l. code ++ l) ends)),
    )

Reads-array :
    (codecs : ℕ → ElementCodec) (oid : ℕ) (vs : Values) (sizes bs : List ℕ)
    → oid < 2 ^ 31
    → dimensions vs ≡ ok sizes
    → AllPositive sizes
    → put_array (codecs oid) oid sizes (flat_of sizes vs) ≡ some bs
    → Reads (read_array codecs) bs (list vs)
unfolding read_array
Reads-array codecs oid vs sizes bs small d filled e =
    let (n, flags, code, dims, items, e_n, e_flags, e_code, e_dims, e_items, joined) =
      put_array-parts (codecs oid) oid sizes (flat_of sizes vs) bs small e in
    Reads-eq joined (
      Reads-then _ (Reads-int32 (pos (length sizes)) n e_n) (
        Reads-then _
          (Reads-int32 (pos (if has_null (flat_of sizes vs) then 1 else 0)) flags e_flags)
          (Reads-then _ (Reads-int32 (pos oid) code e_code)
            (Reads-body (codecs oid) vs sizes dims items d filled e_dims e_items))))

encode_list-ok :
    (codec : ElementCodec) (oid : ℕ) (vs : Values) (r : Result Error (List ℕ)) (bs : List ℕ)
    → encode_list codec oid vs r ≡ some bs
    → (sizes : List ℕ) × (r ≡ ok sizes) × (put_array codec oid sizes (flat_of sizes vs) ≡ some bs)
unfolding encode_list
encode_list-ok codec oid vs (err e) bs h = absurd cc
encode_list-ok codec oid vs (ok sizes) bs h = (sizes, refl, h)

encode_array-ok :
    (codecs : ℕ → ElementCodec) (o : Option ℕ) (vs : Values) (bs : List ℕ)
    → encode_array codecs o (list vs) ≡ some bs
    → (oid : ℕ) × (o ≡ some oid) × (encode_list (codecs oid) oid vs (dimensions vs) ≡ some bs)
unfolding encode_array
encode_array-ok codecs none vs bs e = absurd cc
encode_array-ok codecs (some oid) vs bs e = (oid, refl, e)

-- What `encode_array_binary` writes of an array with no empty list inside, `decode_array_binary`
-- reads back with its shape, NULLs told apart from empty texts, whatever stands behind it, if what
-- the codec of the element type encodes it also decodes.
pub decode_array_binary-encode :
    (codecs : ℕ → ElementCodec) (array_oid : ℕ) (vs : Values) (sizes bs rest : List ℕ)
    → dimensions vs ≡ ok sizes
    → AllPositive sizes
    → encode_array_binary codecs array_oid (list vs) ≡ some bs
    → decode_array_binary codecs (bs ++ rest) ≡ some (list vs)
unfolding encode_array_binary decode_array_binary
decode_array_binary-encode codecs array_oid vs sizes bs rest d filled e =
    let (oid, known, listed) = encode_array-ok codecs (element_oid_of array_oid) vs bs e in
    let (sizes', same, put) = encode_list-ok (codecs oid) oid vs (dimensions vs) bs listed in
    let agree : sizes' ≡ sizes = cc in
    Reads-result (read_array codecs) bs rest (list vs) (
      Reads-array codecs oid vs sizes bs (element_oid_of-lt array_oid oid known) d filled
        (subst (λ l. put_array (codecs oid) oid l (flat_of l vs) ≡ some bs) agree put))
