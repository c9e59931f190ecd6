-- ===== src/Wire/Messages/Builders.antt =====
-- pg_mimic/messages.py, the builders. A tag is its byte.
use pg_mimic.Prelude.{ℕ, List, [], ◌∷◌, ◌++◌, Option, none, some, length, ℤ, pos, negsuc}
use pg_mimic.Messages.Backend.{TxStatus, idle, in_block, failed}
use pg_mimic.Wire.Ints.{pack_int32, pack_int16}
use pg_mimic.Wire.Utf8.{encode}
use pg_mimic.Wire.Stream.{message}

-- a + b, for parts that may raise
infixr 25 ◌then◌
abbrev pub ◌then◌ : Option (List ℕ) → Option (List ℕ) → Option (List ℕ)
none then b = none
some xs then none = none
some xs then some ys = some (xs ++ ys)

-- Several values one after the other.
abbrev pub each : {A : Type 0} → (A → Option (List ℕ)) → List A → Option (List ℕ)
each write [] = some []
each write (a ∷ items) = write a then each write items

-- _message on a payload that may raise
unfoldable pub framed : ℕ → Option (List ℕ) → Option (List ℕ)
framed tag none = none
framed tag (some payload) = message tag payload

unfoldable pub cstring : List ℕ → Option (List ℕ)
cstring s = encode s then some (0 ∷ [])

unfoldable pub cstrings : List (List ℕ) → Option (List ℕ)
cstrings [] = some []
cstrings (s ∷ rest) = cstring s then cstrings rest

unfoldable pub make_authentication_ok : Option (List ℕ)
make_authentication_ok = framed 82 (pack_int32 (pos 0))

unfoldable pub make_authentication_cleartext_password : Option (List ℕ)
make_authentication_cleartext_password = framed 82 (pack_int32 (pos 3))

unfoldable pub make_authentication_md5_password : List ℕ → Option (List ℕ)
make_authentication_md5_password salt = framed 82 (pack_int32 (pos 5) then some salt)

unfoldable pub make_authentication_sasl : List (List ℕ) → Option (List ℕ)
make_authentication_sasl mechanisms =
    framed 82 (pack_int32 (pos 10) then cstrings mechanisms then some (0 ∷ []))

unfoldable pub make_authentication_sasl_continue : List ℕ → Option (List ℕ)
make_authentication_sasl_continue bytes = framed 82 (pack_int32 (pos 11) then some bytes)

unfoldable pub make_authentication_sasl_final : List ℕ → Option (List ℕ)
make_authentication_sasl_final bytes = framed 82 (pack_int32 (pos 12) then some bytes)

unfoldable pub make_parameter_status : List ℕ → List ℕ → Option (List ℕ)
make_parameter_status name value = framed 83 (cstring name then cstring value)

unfoldable pub make_backend_key_data : ℤ → ℤ → Option (List ℕ)
make_backend_key_data pid secret = framed 75 (pack_int32 pid then pack_int32 secret)

pub record ColumnSpec : Type 0 where
  pub name : List ℕ
  pub oid : ℤ
  pub table_oid : ℤ
  pub column_attnum : ℤ
  pub type_size : ℤ
  pub type_modifier : ℤ
  pub format_code : ℤ

unfoldable pub column : ColumnSpec → Option (List ℕ)
column c =
    cstring c.name
    then pack_int32 c.table_oid
    then pack_int16 c.column_attnum
    then pack_int32 c.oid
    then pack_int16 c.type_size
    then pack_int32 c.type_modifier
    then pack_int16 c.format_code

unfoldable pub columns : List ColumnSpec → Option (List ℕ)
columns [] = some []
columns (c ∷ rest) = column c then columns rest

unfoldable pub make_row_description : List ColumnSpec → Option (List ℕ)
make_row_description specs = framed 84 (pack_int16 (pos (length specs)) then columns specs)

unfoldable pub field : Option (List ℕ) → Option (List ℕ)
field none = pack_int32 (negsuc 0)
field (some bytes) = pack_int32 (pos (length bytes)) then some bytes

unfoldable pub fields : List (Option (List ℕ)) → Option (List ℕ)
fields [] = some []
fields (value ∷ rest) = field value then fields rest

unfoldable pub make_data_row : List (Option (List ℕ)) → Option (List ℕ)
make_data_row values = framed 68 (pack_int16 (pos (length values)) then fields values)

unfoldable pub make_command_complete : List ℕ → Option (List ℕ)
make_command_complete tag = framed 67 (cstring tag)

-- the codes and values of an ErrorResponse or a NoticeResponse
unfoldable pub error_fields : List (ℕ × List ℕ) → Option (List ℕ)
error_fields [] = some (0 ∷ [])
error_fields ((code, value) ∷ rest) = some (code ∷ []) then cstring value then error_fields rest

unfoldable pub make_error_response : List (ℕ × List ℕ) → Option (List ℕ)
make_error_response values = framed 69 (error_fields values)

unfoldable pub make_notice_response : List (ℕ × List ℕ) → Option (List ℕ)
make_notice_response values = framed 78 (error_fields values)

unfoldable pub make_notification_response : ℤ → List ℕ → List ℕ → Option (List ℕ)
make_notification_response pid channel payload =
    framed 65 (pack_int32 pid then cstring channel then cstring payload)

unfoldable pub make_negotiate_protocol_version : ℤ → List (List ℕ) → Option (List ℕ)
make_negotiate_protocol_version version options =
    framed 118 (pack_int32 version then pack_int32 (pos (length options)) then cstrings options)

unfoldable pub oids : List ℤ → Option (List ℕ)
oids [] = some []
oids (oid ∷ rest) = pack_int32 oid then oids rest

unfoldable pub make_parameter_description : List ℤ → Option (List ℕ)
make_parameter_description values = framed 116 (pack_int16 (pos (length values)) then oids values)

-- bytes * n
unfoldable pub repeated : ℕ → Option (List ℕ) → Option (List ℕ)
repeated ℕ.zero bytes = some []
repeated (ℕ.suc n) bytes = bytes then repeated n bytes

unfoldable pub copy_response : ℕ → ℕ → Option (List ℕ)
copy_response tag column_count = framed tag (
    some (0 ∷ [])
    then pack_int16 (pos column_count)
    then repeated column_count (pack_int16 (pos 0)))

unfoldable pub make_copy_in_response : ℕ → Option (List ℕ)
make_copy_in_response column_count = copy_response 71 column_count

unfoldable pub make_copy_out_response : ℕ → Option (List ℕ)
make_copy_out_response column_count = copy_response 72 column_count

-- a status of b"I", b"T" or b"E"
unfoldable pub status_byte : TxStatus → ℕ
status_byte idle = 73
status_byte in_block = 84
status_byte failed = 69

unfoldable pub make_ready_for_query : TxStatus → Option (List ℕ)
make_ready_for_query status = message 90 (status_byte status ∷ [])

-- An ErrorResponse with the fields S, V, C and M, the severity FATAL.
unfoldable pub make_fatal_error : List ℕ → List ℕ → Option (List ℕ)
make_fatal_error sqlstate text =
    make_error_response ((83, fatal) ∷ (86, fatal) ∷ (67, sqlstate) ∷ (77, text) ∷ [])
  where
    fatal : List ℕ
    fatal = 70 ∷ 65 ∷ 84 ∷ 65 ∷ 76 ∷ []

unfoldable pub make_empty_query_response : Option (List ℕ)
make_empty_query_response = message 73 []

unfoldable pub make_parse_complete : Option (List ℕ)
make_parse_complete = message 49 []

unfoldable pub make_bind_complete : Option (List ℕ)
make_bind_complete = message 50 []

unfoldable pub make_close_complete : Option (List ℕ)
make_close_complete = message 51 []

unfoldable pub make_no_data : Option (List ℕ)
make_no_data = message 110 []

unfoldable pub make_portal_suspended : Option (List ℕ)
make_portal_suspended = message 115 []

unfoldable pub make_copy_data : List ℕ → Option (List ℕ)
make_copy_data bytes = message 100 bytes

unfoldable pub make_copy_done : Option (List ℕ)
make_copy_done = message 99 []
