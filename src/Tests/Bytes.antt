-- ===== src/Tests/Bytes.antt =====
-- The theorems on the wire format and on COPY at concrete bytes.
use pg_mimic.Prelude.{
  err, ℕ, ◌≤◌, ◌≡◌, refl, none, some, List, [], ◌∷◌, ◌++◌, map, ok, pos, negsuc, arith,
}
use pg_mimic.Wire.Ints.{word, bytes32, bytes16, pack_int32, unpack_int32, pack_int16, unpack_int16}
use pg_mimic.Wire.Ints.RoundTrip.{unpack_int32-pack_int32, unpack_int16-pack_int16}
use pg_mimic.Wire.Stream.{frame, message, read_message}
use pg_mimic.Wire.Stream.Frames.{read_message-message, read_message-bounds}
use pg_mimic.Wire.Utf8.{encode, char_bytes}
use pg_mimic.Wire.Messages.Builders.{cstring}
use pg_mimic.Wire.Messages.Parsers.{zero_index, read_cstring}
use pg_mimic.Wire.Messages.Strings.{read_cstring-cstring}
use pg_mimic.Wire.Messages.Startup.{
  out_of_fuel, parse_startup_message, parse_startup_message-returns,
}
use pg_mimic.Errors.{value_error}
use pg_mimic.Rows.{RowSource, drain_rows, drain_all}
use pg_mimic.Rows.Drains.{IsOutcome, again, drain_rows-IsOutcome, drain_rows-resume}
use pg_mimic.Copy.{text_options, csv_options}
use pg_mimic.Copy.Encoder.{line, join, text_field}
use pg_mimic.Copy.Text.{text_unescape, text_fields}
use pg_mimic.Copy.Text.RoundTrip.{IsPlain, delimited, text_fields-join}
use pg_mimic.Copy.Line.{IsLineSafe, feed-line}
use pg_mimic.Copy.Decoder.{init, consume_loop, feed, extend, split_record}
use pg_mimic.Copy.Decoder.Split.{Extends, split_record-Extends}
use pg_mimic.Copy.Decoder.Chunks.{consume-fuel, feed-append}

minus_two : pack_int32 (negsuc 1) ≡ some (255 ∷ 255 ∷ 255 ∷ 254 ∷ [])
unfolding pack_int32 word bytes32
minus_two = refl

one_two : pack_int16 (pos 258) ≡ some (1 ∷ 2 ∷ [])
unfolding pack_int16 word bytes16
one_two = refl

unpack_int32-pack_int32_example :
    unpack_int32 ((7 ∷ []) ++ (255 ∷ 255 ∷ 255 ∷ 254 ∷ []) ++ (9 ∷ [])) 1 ≡ some (negsuc 1)
unpack_int32-pack_int32_example =
    unpack_int32-pack_int32 (negsuc 1) (7 ∷ []) (255 ∷ 255 ∷ 255 ∷ 254 ∷ []) (9 ∷ []) minus_two

unpack_int16-pack_int16_example : unpack_int16 ((7 ∷ []) ++ (1 ∷ 2 ∷ []) ++ []) 1 ≡ some (pos 258)
unpack_int16-pack_int16_example = unpack_int16-pack_int16 (pos 258) (7 ∷ []) (1 ∷ 2 ∷ []) [] one_two

-- SELECT's tag and a payload of two bytes
abbrev query_frame : List ℕ
query_frame = 81 ∷ 0 ∷ 0 ∷ 0 ∷ 6 ∷ 65 ∷ 0 ∷ []

query_frame-message : message 81 (65 ∷ 0 ∷ []) ≡ some query_frame
unfolding message pack_int32 word bytes32 frame
query_frame-message = refl

read_message-message_example :
    read_message 100 (query_frame ++ (88 ∷ [])) ≡ ok (81 ∷ [], 65 ∷ 0 ∷ [], 88 ∷ [])
read_message-message_example =
    read_message-message 100 81 (65 ∷ 0 ∷ []) (88 ∷ []) query_frame query_frame-message
      (omega arith)

read_message-bounds_example : (6 ≤ 100) × (query_frame ++ (88 ∷ []) ≡ query_frame ++ (88 ∷ []))
read_message-bounds_example =
    read_message-bounds 100 (query_frame ++ (88 ∷ [])) (81 ∷ []) (65 ∷ 0 ∷ []) (88 ∷ [])
      read_message-message_example

tab-IsPlain : IsPlain 9
unfolding text_unescape
tab-IsPlain = record {
  no_letter = refl;
  no_octal = refl;
  no_hex = refl;
  no_backslash = refl;
  no_null = refl;
}

text_fields-join_example :
    text_fields
      (delimited 9)
      (join 9 (map (text_field (delimited 9)) (some (92 ∷ 9 ∷ []) ∷ none ∷ [])))
    ≡ some (92 ∷ 9 ∷ []) ∷ none ∷ []
text_fields-join_example = text_fields-join 9 tab-IsPlain (some (92 ∷ 9 ∷ [])) (none ∷ [])

-- a row cut inside its first field
feed-append_example :
    feed (init text_options) ((65 ∷ []) ++ (66 ∷ 10 ∷ []))
    ≡ extend
        (feed (init text_options) (65 ∷ [])).0
        (feed (feed (init text_options) (65 ∷ [])).1 (66 ∷ 10 ∷ []))
feed-append_example = feed-append (init text_options) (65 ∷ []) (66 ∷ 10 ∷ [])

split_record-Extends_example :
    Extends 3
      (split_record csv_options (34 ∷ 10 ∷ 34 ∷ []))
      (split_record csv_options ((34 ∷ 10 ∷ 34 ∷ []) ++ (10 ∷ [])))
      (10 ∷ [])
split_record-Extends_example = split_record-Extends csv_options (34 ∷ 10 ∷ 34 ∷ []) (10 ∷ [])

-- U+20AC and a letter
euro : encode (8364 ∷ 65 ∷ []) ≡ some (226 ∷ 130 ∷ 172 ∷ 65 ∷ [])
unfolding encode char_bytes
euro = refl

letter : cstring (65 ∷ []) ≡ some (65 ∷ 0 ∷ [])
unfolding cstring encode char_bytes
letter = refl

letter-zero_index : zero_index (65 ∷ []) ≡ none
unfolding zero_index
letter-zero_index = refl

read_cstring-cstring_example :
    read_cstring ((1 ∷ []) ++ ((65 ∷ 0 ∷ []) ++ (2 ∷ []))) 1 ≡ some (65 ∷ [], 3)
read_cstring-cstring_example =
    read_cstring-cstring (65 ∷ []) (65 ∷ 0 ∷ []) (1 ∷ []) (2 ∷ []) letter letter-zero_index

-- user, and a database with no name
abbrev startup : List ℕ
startup = 117 ∷ 0 ∷ 118 ∷ 0 ∷ 0 ∷ []

parse_startup_message-returns_example : ¬ (parse_startup_message startup ≡ out_of_fuel)
parse_startup_message-returns_example = parse_startup_message-returns startup

abbrev three_rows : RowSource ℕ
three_rows = record { rows = 1 ∷ 2 ∷ 3 ∷ []; failure = some value_error }

drain_rows-IsOutcome_example : IsOutcome three_rows (pos 2) (drain_rows three_rows (pos 2))
drain_rows-IsOutcome_example = drain_rows-IsOutcome three_rows (pos 2)

drain_rows-resume_example :
    again (drain_rows three_rows (pos 2)) (pos 1) ≡ drain_rows three_rows (pos 3)
drain_rows-resume_example = drain_rows-resume 1 0 three_rows

-- the rows before an error are lost
three_rows-raises : drain_rows three_rows (pos 0) ≡ err value_error
unfolding drain_rows drain_all
three_rows-raises = refl

consume-fuel_example : consume_loop 1 (init text_options) ≡ consume_loop 5 (init text_options)
unfolding init
consume-fuel_example = consume-fuel 1 5 (init text_options) (omega arith) (omega arith)

pub tab-IsLineSafe : IsLineSafe 9
tab-IsLineSafe = record {
  plain = tab-IsPlain;
  no_newline = refl;
  no_return = refl;
  no_period = refl;
}

feed-line_example :
    feed (init (delimited 9)) (line (delimited 9) (some (65 ∷ 10 ∷ []) ∷ none ∷ []))
    ≡ ((some (65 ∷ 10 ∷ []) ∷ none ∷ []) ∷ [], init (delimited 9))
feed-line_example = feed-line 9 tab-IsLineSafe (some (65 ∷ 10 ∷ [])) (none ∷ [])
