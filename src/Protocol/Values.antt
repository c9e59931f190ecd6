-- ===== src/Protocol/Values.antt =====
-- pg_mimic/connection.py, `_decode_param` and `_field_specs`; pg_mimic/types.py, `decode_text_param`;
-- pg_mimic/results.py, `encode_row`.
use pg_mimic.Prelude.{
  ℕ, suc, Bool, false, List, [], ◌∷◌, Option, none, some, Result, ok, err, ◌>>=◌, ℤ, pos, negsuc,
  nat_beq, get_elem?, if◌then◌else◌,
}
use pg_mimic.Errors.{
  Error, pg_error, protocol_violation, connection_closed, value_error, exception,
  feature_not_supported,
}
use pg_mimic.Messages.Backend.{FieldSpec}
use pg_mimic.Rows.{format_code_for}
use pg_mimic.Arrays.{Value, Values, scalar, list}
use pg_mimic.Arrays.Binary.{is_array_oid}
use pg_mimic.Arrays.Literal.{Failure, parse_array_literal}
use pg_mimic.Wire.Utf8.{decode}
use pg_mimic.Protocol.Session.{ResultColumn, Row, Session}

-- an index that is out of range raises
abbrev pub item : {A : Type 0} → Option A → Result Error A
item none = err exception
item (some a) = ok a

abbrev pub known_array : ℤ → Bool
known_array (pos n) = is_array_oid n
known_array (negsuc n) = false

abbrev pub parsed_array : Result Failure Values → Result Error Value
parsed_array (ok vs) = ok (list vs)
parsed_array (err f) = err value_error

unfoldable pub decode_text_param : ℤ → List ℕ → Result Error Value
decode_text_param oid text =
    if known_array oid then parsed_array (parse_array_literal text) else ok (scalar (some text))

abbrev pub is_zero : ℤ → Bool
is_zero (pos n) = nat_beq n 0
is_zero (negsuc n) = false

-- a ValueError as a PgError
abbrev pub refused : {A : Type 0} → Result Error A → Result Error A
refused (ok a) = ok a
refused (err value_error) = err (pg_error feature_not_supported)
refused (err (pg_error s)) = err (pg_error s)
refused (err (protocol_violation s)) = err (protocol_violation s)
refused (err connection_closed) = err connection_closed
refused (err exception) = err exception

-- the OID of a parameter, `none` where the statement declares none
abbrev pub declared : Option (Option ℤ) → Option ℤ
declared none = none
declared (some oid) = oid

unfoldable pub decode_text : Option ℤ → Option (List ℕ) → Result Error Value
decode_text oid none = err value_error
decode_text none (some text) = ok (scalar (some text))
decode_text (some oid) (some text) = decode_text_param oid text

module _ {V S Q C : Type 0} (session : Session V S Q C) where
  unfoldable pub decode_binary_or_refuse : Option ℤ → List ℕ → Result Error Value
  decode_binary_or_refuse none bytes = err (pg_error feature_not_supported)
  decode_binary_or_refuse (some oid) bytes = refused (session.decode_binary oid bytes)

  unfoldable pub decode_param : Option (List ℕ) → ℤ → Option ℤ → Result Error Value
  decode_param none code oid = ok (scalar none)
  decode_param (some bytes) code oid =
      if is_zero code then decode_text oid (decode bytes) else decode_binary_or_refuse oid bytes

  -- the parameters from `index` on
  unfoldable pub decode_params :
      List ℤ → List (Option ℤ) → ℕ → List (Option (List ℕ)) → Result Error (List Value)
  decode_params codes oids index [] = ok []
  decode_params codes oids index (p ∷ params) =
      item (format_code_for (pos 0) codes index) >>= λ code.
      decode_param p code (declared (get_elem? oids index)) >>= λ v.
      decode_params codes oids (suc index) params >>= λ vs. ok (v ∷ vs)

  unfoldable pub encode_cell :
      List ℤ → List ResultColumn → ℕ → Option C → Result Error (Option (List ℕ))
  encode_cell codes columns index none = ok none
  encode_cell codes columns index (some cell) =
      item (format_code_for (pos 0) codes index) >>= λ code.
      item (get_elem? columns index) >>= λ column.
      (if is_zero code
        then session.encode_text column.oid cell
        else session.encode_binary column.oid cell)
      >>= λ bytes. ok (some bytes)

  -- `encode_row`, from the cell `index` on
  unfoldable pub encode_row :
      List ℤ → List ResultColumn → ℕ → Row C → Result Error (List (Option (List ℕ)))
  encode_row codes columns index [] = ok []
  encode_row codes columns index (cell ∷ row) = encode_cell codes columns index cell >>= λ value.
      encode_row codes columns (suc index) row >>= λ values. ok (value ∷ values)

-- `_field_specs`, from the column `index` on
unfoldable pub field_specs : List ℤ → ℕ → List ResultColumn → Result Error (List FieldSpec)
field_specs codes index [] = ok []
field_specs codes index (column ∷ columns) = item (format_code_for (pos 0) codes index) >>= λ code.
    field_specs codes (suc index) columns >>= λ specs.
    ok (record { name = column.name; oid = column.oid; format_code = code } ∷ specs)
