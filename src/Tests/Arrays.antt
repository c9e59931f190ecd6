-- ===== src/Tests/Arrays.antt =====
-- Arrays and Bind messages at concrete inputs.
use pg_mimic.Prelude.{ℕ, ◌≡◌, ◌≢◌, refl, List, [], ◌∷◌, ◌++◌, map, none, some, ok, err, arith, pos}
use pg_mimic.Arrays.{Values, scalar, list, no_values, value}
use pg_mimic.Arrays.Shape.{dimensions, reshape, flatten, check_rectangular, first_sizes}
use pg_mimic.Arrays.Shape.RoundTrip.{reshape-flatten}
use pg_mimic.Arrays.Literal.{
  format_array_literal, parse_array_literal, out_of_fuel, format_nested, format_element,
  escape_element, needs_quoting, any_char, is_null_word, upper, is_space,
}
use pg_mimic.Arrays.Literal.Fuel.{parse_array_literal-IsVerdict}
use pg_mimic.Arrays.Literal.RoundTrip.{is_safe_each, parse_array_literal-format}
use pg_mimic.Arrays.Literal.Tokens.{is_safe, is_exotic_space}
use pg_mimic.Arrays.Binary.{
  ElementCodec, encode_array_binary, decode_array_binary, encode_array, encode_list, put_array,
  element_oid_of, put_size, put_element, pack_uint32, has_null,
}
use pg_mimic.Arrays.Binary.RoundTrip.{decode_array_binary-encode}
use pg_mimic.Wire.Utf8.{encode, decode, char_bytes}
use pg_mimic.Wire.Utf8.RoundTrip.{decode-encode}
use pg_mimic.Wire.Ints.{pack_int32, pack_int16, bytes32, bytes16, word}
use pg_mimic.Wire.Messages.Builders.{field, cstring}
use pg_mimic.Wire.Messages.Bind.{ParsedBind, parse_bind, parse_sasl_initial_response}
use pg_mimic.Wire.Messages.Bind.RoundTrip.{parse_bind-payload, parse_sasl_initial_response-payload}
use pg_mimic.Wire.Messages.Parsers.{zero_index}

-- {{a,NULL},{"b c",""}}
abbrev table : Values
table = value (list (value (scalar (some (97 ∷ []))) (value (scalar none) no_values))) (
    value (list (value (scalar (some (98 ∷ 32 ∷ 99 ∷ []))) (value (scalar (some [])) no_values)))
      no_values)

reshape-flatten_example : reshape (map pos (2 ∷ 2 ∷ [])) (flatten (list table)) ≡ ok (list table)
unfolding dimensions check_rectangular first_sizes
reshape-flatten_example = reshape-flatten table (2 ∷ 2 ∷ []) refl (omega arith, (omega arith, tt))

abbrev literal : List ℕ
literal =
    123 ∷ 123 ∷ 97 ∷ 44 ∷ 78 ∷ 85 ∷ 76 ∷ 76 ∷ 125 ∷ 44 ∷ 123 ∷ 34 ∷ 98 ∷ 32 ∷ 99 ∷ 34 ∷ 44 ∷ 34 ∷ 34
    ∷ 125 ∷ 125 ∷ []

parse_array_literal-format_example : parse_array_literal literal ≡ ok table
unfolding is_safe_each is_safe is_exotic_space format_array_literal dimensions check_rectangular
    first_sizes format_nested format_element escape_element needs_quoting any_char is_null_word
    upper is_space
parse_array_literal-format_example = parse_array_literal-format table literal refl refl

parse_array_literal-IsVerdict_example : parse_array_literal literal ≢ err out_of_fuel
parse_array_literal-IsVerdict_example = parse_array_literal-IsVerdict literal

abbrev utf8_codec : ElementCodec
utf8_codec = record {
  encode_value_binary = encode;
  decode_binary_param = decode;
  decodes = decode-encode;
}

abbrev packed : List ℕ
packed =
    0 ∷ 0 ∷ 0 ∷ 2 ∷ 0 ∷ 0 ∷ 0 ∷ 1 ∷ 0 ∷ 0 ∷ 0 ∷ 25 ∷ 0 ∷ 0 ∷ 0 ∷ 2 ∷ 0 ∷ 0 ∷ 0 ∷ 1 ∷ 0 ∷ 0 ∷ 0 ∷ 2
    ∷ 0 ∷ 0 ∷ 0 ∷ 1 ∷ 0 ∷ 0 ∷ 0 ∷ 1 ∷ 97 ∷ 255 ∷ 255 ∷ 255 ∷ 255 ∷ 0 ∷ 0 ∷ 0 ∷ 3 ∷ 98 ∷ 32 ∷ 99 ∷ 0
    ∷ 0 ∷ 0 ∷ 0 ∷ []

decode_array_binary-encode_example :
    decode_array_binary (λ oid. utf8_codec) (packed ++ 7 ∷ []) ≡ some (list table)
unfolding dimensions check_rectangular first_sizes encode_array_binary encode_array encode_list
    put_array element_oid_of put_size put_element pack_uint32 has_null pack_int32 bytes32 word field
    encode char_bytes flatten
decode_array_binary-encode_example =
    decode_array_binary-encode (λ oid. utf8_codec) 1009 table (2 ∷ 2 ∷ []) packed (7 ∷ []) refl
      (omega arith, (omega arith, tt)) refl

abbrev bound_message : ParsedBind
bound_message = record {
  portal_name = [];
  statement_name = 115 ∷ [];
  param_format_codes = pos 0 ∷ [];
  params = some (49 ∷ []) ∷ none ∷ [];
  result_format_codes = [];
}

abbrev bound_bytes : List ℕ
bound_bytes =
    0 ∷ 115 ∷ 0 ∷ 0 ∷ 1 ∷ 0 ∷ 0 ∷ 0 ∷ 2 ∷ 0 ∷ 0 ∷ 0 ∷ 1 ∷ 49 ∷ 255 ∷ 255 ∷ 255 ∷ 255 ∷ 0 ∷ 0 ∷ []

parse_bind-payload_example : parse_bind (bound_bytes ++ []) ≡ some bound_message
unfolding cstring encode char_bytes pack_int16 bytes16 word field pack_int32 bytes32 zero_index
parse_bind-payload_example = parse_bind-payload bound_message bound_bytes [] refl refl refl

parse_sasl_initial_response-payload_example :
    parse_sasl_initial_response ((83 ∷ 0 ∷ 0 ∷ 0 ∷ 0 ∷ 1 ∷ 110 ∷ []) ++ 9 ∷ [])
    ≡ some (83 ∷ [], 110 ∷ [])
unfolding cstring encode char_bytes word field pack_int32 bytes32 zero_index
parse_sasl_initial_response-payload_example =
    parse_sasl_initial_response-payload (83 ∷ []) (some (110 ∷ []))
      (83 ∷ 0 ∷ 0 ∷ 0 ∷ 0 ∷ 1 ∷ 110 ∷ []) (9 ∷ []) refl refl
