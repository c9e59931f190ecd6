-- ===== src/Tests/Copying.antt =====
-- A COPY FROM STDIN of two rows in three messages.
use pg_mimic.Prelude.{none, ◌≡◌, Option, length, ℕ, refl, List, [], ◌∷◌, ◌++◌, some, take}
use pg_mimic.Copy.{text_options}
use pg_mimic.Copy.Decoder.{init, finish}
use pg_mimic.Copy.Reader.{Incremental, new_reader, copy_in}
use pg_mimic.Copy.Reader.Steps.{CopyStream, no_more, data_message, flush_message, IsCopied}
use pg_mimic.Copy.Reader.Whole.{copy_in-whole}
use pg_mimic.Loop.{Message, copy_data, copy_done, flush, sync}
use pg_mimic.Copy.Text.RoundTrip.{delimited}
use pg_mimic.Copy.Encoder.{line, join, render, text_field, escape_text, escape_char, text_escape}
use pg_mimic.Wire.Utf8.{encode, char_bytes}
use pg_mimic.Copy.Writer.{copy_out, write_header, write_rows, with_line, encode_line}
use pg_mimic.Copy.Writer.Back.{send_back, copy_in-copy_out}
use pg_mimic.Tests.Bytes.{tab-IsLineSafe}

-- an encoding of a byte for each character
abbrev latin : Incremental (Unit {0})
latin = record {
  start = tt;
  decode_bytes = λ u bytes. some (bytes, u);
  end = λ u. some [];
  decode_bytes-append = λ u a b. refl;
  decode_bytes-nil = λ u. refl;
}

-- 1, a tab, x, and the first byte of the second row; Flush; the rest of it, with no line end
abbrev sent_messages : List Message
sent_messages =
    record { kind = copy_data; payload = 49 ∷ 9 ∷ 120 ∷ 10 ∷ 50 ∷ [] }
    ∷ record { kind = flush; payload = [] }
    ∷ record { kind = copy_data; payload = 9 ∷ 121 ∷ [] }
    ∷ record { kind = copy_done; payload = [] }
    ∷ []

abbrev sent_bytes : List ℕ
sent_bytes = 49 ∷ 9 ∷ 120 ∷ 10 ∷ 50 ∷ 9 ∷ 121 ∷ []

sent_messages-CopyStream : CopyStream sent_messages sent_bytes
sent_messages-CopyStream =
    data_message {payload = 49 ∷ 9 ∷ 120 ∷ 10 ∷ 50 ∷ []}
      (flush_message (data_message {payload = 9 ∷ 121 ∷ []} no_more))

copy_in-whole_example :
    IsCopied latin
      (copy_in latin 5
        (sent_messages ++ record { kind = sync; payload = [] } ∷ [])
        (new_reader latin text_options))
      (take 5 (finish (init text_options) (sent_bytes ++ [])).0)
      (record { kind = sync; payload = [] } ∷ [])
copy_in-whole_example =
    copy_in-whole latin text_options sent_messages sent_bytes sent_messages-CopyStream
      (record { kind = sync; payload = [] } ∷ []) 5 sent_bytes [] tt refl refl

-- x and NULL, and y and a tab
abbrev two_rows : List (List (Option (List ℕ)))
two_rows = (some (120 ∷ []) ∷ none ∷ []) ∷ (some (121 ∷ []) ∷ some (9 ∷ []) ∷ []) ∷ []

copy_in-copy_out_example :
    (length two_rows ≡ 2)
    × IsCopied latin
        (copy_in latin 1
          (send_back (copy_out (delimited 9) none two_rows 0).1 ++ [])
          (new_reader latin (delimited 9)))
        (take 1 two_rows)
        []
unfolding copy_out write_header write_rows with_line encode_line encode char_bytes line join render
    text_field escape_text escape_char text_escape
copy_in-copy_out_example =
    copy_in-copy_out latin 9 tab-IsLineSafe two_rows 0 2 1 [] tt refl refl refl refl
