-- ===== src/Arrays/Binary.antt =====
-- pg_mimic/arrays.py, the table of array OIDs and the binary format: `encode_array_binary` and
-- `decode_array_binary`. `none` is the exception raised. The codecs of the
-- elements (encode_value_binary and decode_binary_param of pg_mimic/types.py) are a parameter.
pub mod RoundTrip
use pg_mimic.Prelude.{
  ℕ, zero, suc, ◌-◌, ◌^◌, ◌≡◌, List, [], ◌∷◌, map, Bool, true, false, ◌||◌, Option, none, some,
  nat_beq, ltb, if◌then◌else◌, length, ℤ, pos, negsuc, to_nat, Result, ok, err,
}
use pg_mimic.Errors.{Error}
use pg_mimic.Arrays.Defs.{Value, Values, scalar, list, no_values, value, Element}
use pg_mimic.Arrays.Shape.{dimensions, flatten, product, reshape}
use pg_mimic.Wire.Ints.{pack_int32, bytes32}
use pg_mimic.Wire.Messages.Builders.{◌then◌, each, field}
use pg_mimic.Wire.Reader.{Reader, give, ◌>>>◌, read_int32, read_value, read_times, result}

-- ARRAY_OID, in the order of the source
abbrev pub array_oids : List (ℕ × ℕ)
array_oids =
    (16, 1000)
    ∷ (17, 1001)
    ∷ (18, 1002)
    ∷ (19, 1003)
    ∷ (20, 1016)
    ∷ (21, 1005)
    ∷ (23, 1007)
    ∷ (25, 1009)
    ∷ (26, 1028)
    ∷ (700, 1021)
    ∷ (701, 1022)
    ∷ (1043, 1015)
    ∷ (1042, 1014)
    ∷ (1082, 1182)
    ∷ (1083, 1183)
    ∷ (1114, 1115)
    ∷ (1184, 1185)
    ∷ (1186, 1187)
    ∷ (1700, 1231)
    ∷ (2950, 2951)
    ∷ (114, 199)
    ∷ (3802, 3807)
    ∷ []

-- ELEMENT_OID: the table read from right to left
abbrev pub element_of : List (ℕ × ℕ) → ℕ → Option ℕ
element_of [] oid = none
element_of ((element, array) ∷ rest) oid =
    let found = element_of rest oid in if nat_beq array oid then some element else found

unfoldable pub element_oid_of : ℕ → Option ℕ
element_oid_of oid = element_of array_oids oid

unfoldable pub is_array_oid : ℕ → Bool
is_array_oid oid = elim (element_oid_of oid) [ none ↦ false | some e ↦ true ]

-- `encode_value_binary` and `decode_binary_param` at one element OID, on texts, and that what is
-- encoded is decoded.
pub record ElementCodec : Type 0 where
  pub encode_value_binary : List ℕ → Option (List ℕ)
  pub decode_binary_param : List ℕ → Option (List ℕ)
  pub decodes :
      (text bs : List ℕ) → encode_value_binary text ≡ some bs → decode_binary_param bs ≡ some text

-- any(item is None for item in flat)
unfoldable pub has_null : List Element → Bool
has_null [] = false
has_null (none ∷ es) = true
has_null (some t ∷ es) = has_null es

-- struct.pack of an I
unfoldable pub pack_uint32 : ℕ → Option (List ℕ)
pack_uint32 n = bytes32 (if ltb n (2 ^ 32) then some n else none)

unfoldable pub put_size : ℕ → Option (List ℕ)
put_size size = pack_int32 (pos size) then pack_int32 (pos 1)

abbrev pub put_encoded : Option (List ℕ) → Option (List ℕ)
put_encoded none = none
put_encoded (some encoded) = field (some encoded)

unfoldable pub put_element : ElementCodec → Element → Option (List ℕ)
put_element codec none = field none
put_element codec (some text) = put_encoded (codec.encode_value_binary text)

-- the array of the sizes and the flat elements
unfoldable pub put_array : ElementCodec → ℕ → List ℕ → List Element → Option (List ℕ)
put_array codec oid sizes flat =
    pack_int32 (pos (length sizes))
    then pack_int32 (pos (if has_null flat then 1 else 0))
    then pack_uint32 oid
    then each put_size sizes
    then each (put_element codec) flat

abbrev pub flat_of : List ℕ → Values → List Element
flat_of [] vs = []
flat_of (size ∷ sizes) vs = flatten (list vs)

unfoldable pub encode_list : ElementCodec → ℕ → Values → Result Error (List ℕ) → Option (List ℕ)
encode_list codec oid vs (err e) = none
encode_list codec oid vs (ok sizes) = put_array codec oid sizes (flat_of sizes vs)

unfoldable pub encode_array : (ℕ → ElementCodec) → Option ℕ → Value → Option (List ℕ)
encode_array codecs none v = none
encode_array codecs (some oid) (scalar e) = none
encode_array codecs (some oid) (list vs) = encode_list (codecs oid) oid vs (dimensions vs)

unfoldable pub encode_array_binary : (ℕ → ElementCodec) → ℕ → Value → Option (List ℕ)
encode_array_binary codecs array_oid v = encode_array codecs (element_oid_of array_oid) v

-- the number that an I stands for, of what an i would read
abbrev pub unsigned : ℤ → ℕ
unsigned (pos n) = n
unsigned (negsuc n) = 2 ^ 32 - suc n

-- a size, whose lower bound is left aside
unfoldable pub read_size : Reader ℤ
read_size = read_int32 >>> λ size. read_int32 >>> λ lower. give size

abbrev pub give_decoded : Option (List ℕ) → Reader Element
give_decoded none bytes offset = none
give_decoded (some text) bytes offset = some (some text, offset)

unfoldable pub decode_element : ElementCodec → Option (List ℕ) → Reader Element
decode_element codec none = give none
decode_element codec (some bs) = give_decoded (codec.decode_binary_param bs)

unfoldable pub read_element : ElementCodec → Reader Element
read_element codec = read_value >>> decode_element codec

abbrev pub give_result : Result Error Value → Reader Value
give_result (err e) bytes offset = none
give_result (ok v) bytes offset = some (v, offset)

unfoldable pub decode_dimensions : ElementCodec → ℤ → Reader Value
decode_dimensions codec (negsuc n) bytes offset = none
decode_dimensions codec (pos zero) bytes offset = some (list no_values, offset)
decode_dimensions codec (pos (suc n)) bytes offset =
    (read_times read_size (suc n) >>> λ sizes.
    read_times (read_element codec) (to_nat (product sizes)) >>> λ flat.
    give_result (reshape sizes flat))
      bytes offset

unfoldable pub read_array : (ℕ → ElementCodec) → Reader Value
read_array codecs = read_int32 >>> λ ndim.
    read_int32 >>> λ flags. read_int32 >>> λ oid. decode_dimensions (codecs (unsigned oid)) ndim

unfoldable pub decode_array_binary : (ℕ → ElementCodec) → List ℕ → Option Value
decode_array_binary codecs bytes = result (read_array codecs bytes (pos 0))
