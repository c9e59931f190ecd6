-- ===== src/Wire/Messages/Bind.antt =====
-- pg_mimic/messages.py: `parse_bind` and `parse_sasl_initial_response`, whose lengths move an offset
-- on, or back when a client sends a negative one.
pub mod RoundTrip
use pg_mimic.Prelude.{ℕ, suc, ◌-◌, List, [], Option, none, some, length, ℤ, pos, negsuc, to_nat}
use pg_mimic.Wire.Messages.Parsers.{read_cstring}
use pg_mimic.Wire.Reader.{
  Reader, give, ◌>>>◌, read_int32, read_int16, read_sized, read_value, read_times, result,
}

abbrev pub at_offset : Option (List ℕ × ℕ) → Option (List ℕ × ℤ)
at_offset none = none
at_offset (some (s, n)) = some (s, pos n)

-- `read_cstring` with the offset of a loop
unfoldable pub read_name : Reader (List ℕ)
read_name bytes (pos n) = at_offset (read_cstring bytes n)
read_name bytes (negsuc k) = at_offset (read_cstring bytes (length bytes - suc k))

pub record ParsedBind : Type 0 where
  pub portal_name : List ℕ
  pub statement_name : List ℕ
  pub param_format_codes : List ℤ
  pub params : List (Option (List ℕ))
  pub result_format_codes : List ℤ

-- as many as the count in front says
unfoldable pub read_counted : {A : Type 0} → Reader A → Reader (List A)
read_counted r = read_int16 >>> λ count. read_times r (to_nat count)

unfoldable pub read_format_codes : Reader (List ℤ)
read_format_codes = read_counted read_int16

unfoldable pub read_bind : Reader ParsedBind
read_bind = read_name >>> λ portal. read_name >>> λ statement. read_format_codes >>> λ param_codes.
    read_counted read_value >>> λ params. read_format_codes >>> λ result_codes. give (record {
      portal_name = portal;
      statement_name = statement;
      param_format_codes = param_codes;
      params = params;
      result_format_codes = result_codes;
    })

unfoldable pub parse_bind : List ℕ → Option ParsedBind
parse_bind payload = result (read_bind payload (pos 0))

-- -1 is a response that was left out
abbrev pub or_empty : Option (List ℕ) → List ℕ
or_empty none = []
or_empty (some response) = response

unfoldable pub read_sasl : Reader (List ℕ × List ℕ)
read_sasl =
    read_name >>> λ mechanism. read_value >>> λ response. give (mechanism, or_empty response)

unfoldable pub parse_sasl_initial_response : List ℕ → Option (List ℕ × List ℕ)
parse_sasl_initial_response payload = result (read_sasl payload (pos 0))
