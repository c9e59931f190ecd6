-- ===== src/Wire/Stream.antt =====
-- pg_mimic/stream.py, PgStream's readers, and `_message` of messages.py: frames of a tag, a length
-- that counts itself, and a payload. The reader is what the peer sends before it closes.
pub mod Frames
use pg_mimic.Prelude.{
  ℕ, ◌+◌, ◌-◌, ◌≡◌, List, [], ◌∷◌, ◌++◌, Bool, Option, none, some, ltb, if◌then◌else◌, take, drop,
  length, Result, ok, err, ◌>>=◌, ◌>>◌, ℤ, pos, negsuc, int_lt, int_gt, to_nat,
}
use pg_mimic.Errors.{Error, protocol_violation, connection_closed, exception}
use pg_mimic.Wire.Ints.{pack_int32, unpack_int32}

-- DEFAULT_MAX_MESSAGE_SIZE
abbrev pub default_max_message_size : ℕ
default_max_message_size = 67108864

abbrev pub max_startup_packet_length : ℕ
max_startup_packet_length = 10000

-- `_read_exactly`: the bytes read, and the reader afterwards
unfoldable pub read_exactly : ℕ → List ℕ → Result Error (List ℕ × List ℕ)
read_exactly n reader =
    if ltb (length reader) n then err connection_closed else ok (take n reader, drop n reader)

unfoldable pub check_length : ℤ → ℕ → ℕ → Result Error Bool
check_length len minimum maximum =
    if int_lt len minimum
    then err (protocol_violation "below the minimum")
    else if int_gt len maximum
    then err (protocol_violation "exceeds the maximum")
    else ok Bool.true

-- unpack_int32 on a header that is long enough
unfoldable pub header_int : Option ℤ → Result Error ℤ
header_int none = err exception
header_int (some z) = ok z

-- The code and payload of a startup-phase packet, and the reader afterwards.
unfoldable pub read_startup_packet : ℕ → List ℕ → Result Error (ℤ × List ℕ × List ℕ)
read_startup_packet max_message_size reader = do
  header ← read_exactly 8 reader
  len ← header_int (unpack_int32 header.0 0)
  code ← header_int (unpack_int32 header.0 4)
  check_length len 8 (
      if ltb max_startup_packet_length max_message_size
      then max_startup_packet_length
      else max_message_size)
  payload ← read_exactly (to_nat len - 8) header.1
  ok (code, payload.0, payload.1)

-- The tag and payload of a message, and the reader afterwards.
unfoldable pub read_message : ℕ → List ℕ → Result Error (List ℕ × List ℕ × List ℕ)
read_message max_message_size reader = do
  header ← read_exactly 5 reader
  len ← header_int (unpack_int32 header.0 1)
  check_length len 4 max_message_size
  payload ← read_exactly (to_nat len - 4) header.1
  ok (take 1 header.0, payload.0, payload.1)

-- messages.py, `_message`, with `none` for a payload whose length does not fit in an Int32
unfoldable pub frame : ℕ → List ℕ → Option (List ℕ) → Option (List ℕ)
frame tag payload none = none
frame tag payload (some len) = some (tag ∷ (len ++ payload))

unfoldable pub message : ℕ → List ℕ → Option (List ℕ)
message tag payload = frame tag payload (pack_int32 (pos (length payload + 4)))
