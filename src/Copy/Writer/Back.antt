-- ===== src/Copy/Writer/Back.antt =====
-- What COPY TO STDOUT wrote, sent back by COPY FROM STDIN.
use pg_mimic.Prelude.{
  ℕ, ◌≡◌, refl, ap, ◌∙◌, subst, List, [], ◌∷◌, ◌++◌, append-nil, Option, none, some, length, take,
  Result, ok, err, true, false, Bool,
}
use pg_mimic.Errors.{Error}
use pg_mimic.Messages.Backend.{Backend}
use pg_mimic.Copy.{CopyOptions}
use pg_mimic.Copy.Decoder.{
  Row, init, feed, leftover_record, finish, rstrip, extend, consume_loop, consume_split,
  split_record, split_line,
}
use pg_mimic.Copy.Decoder.Chunks.{feed-append}
use pg_mimic.Copy.Encoder.{line}
use pg_mimic.Copy.Line.{IsLineSafe, feed-line}
use pg_mimic.Copy.Text.RoundTrip.{delimited}
use pg_mimic.Loop.{Message, copy_data, copy_done}
use pg_mimic.Copy.Reader.{Incremental, new_reader, copy_in}
use pg_mimic.Copy.Reader.Steps.{CopyStream, no_more, data_message, IsCopied}
use pg_mimic.Copy.Reader.Whole.{copy_in-whole}
use pg_mimic.Copy.Writer.{
  Written, encode_line, with_line, write_rows, write_header, counted_rows, copy_out,
}

-- A client that sends the data it was sent, and CopyDone at its end.
abbrev pub send_back : List Backend → List Message
send_back [] = []
send_back (Backend.copy_data bytes ∷ ms) =
    record { kind = copy_data; payload = bytes } ∷ send_back ms
send_back (Backend.copy_done ∷ ms) = record { kind = copy_done; payload = [] } ∷ send_back ms
send_back (m ∷ ms) = send_back ms

-- the bytes of the data
abbrev pub payloads : List Backend → List ℕ
payloads [] = []
payloads (Backend.copy_data bytes ∷ ms) = bytes ++ payloads ms
payloads (m ∷ ms) = payloads ms

-- the rows of a text, written one after the other
abbrev pub lines : CopyOptions → List Row → List ℕ
lines options [] = []
lines options (row ∷ rows) = line options row ++ lines options rows

-- Every row has a field.
abbrev pub all_filled : List Row → Bool
all_filled [] = true
all_filled ([] ∷ rows) = false
all_filled ((f ∷ fs) ∷ rows) = all_filled rows

feed-nothing : (d : ℕ) → feed (init (delimited d)) [] ≡ ([], init (delimited d))
unfolding feed init consume_loop consume_split split_record split_line
feed-nothing d = refl

-- The lines of any number of rows, fed at once.
feed-lines :
    (d : ℕ)
    → IsLineSafe d
    → (rows : List Row) → all_filled rows ≡ true
    → feed (init (delimited d)) (lines (delimited d) rows) ≡ (rows, init (delimited d))
feed-lines d safe [] h = feed-nothing d
feed-lines d safe ([] ∷ rows) h = absurd cc
feed-lines d safe ((f ∷ fs) ∷ rows) h =
    feed-append (init (delimited d)) (line (delimited d) (f ∷ fs)) (lines (delimited d) rows)
    ∙ ap (λ out. extend out.0 (feed out.1 (lines (delimited d) rows))) (feed-line d safe f fs)
    ∙ ap (extend ((f ∷ fs) ∷ [])) (feed-lines d safe rows h)

finish-lines :
    (d : ℕ)
    → IsLineSafe d
    → (rows : List Row) → all_filled rows ≡ true
    → (finish (init (delimited d)) (lines (delimited d) rows ++ [])).0 ≡ rows
unfolding finish leftover_record rstrip init
finish-lines d safe rows h =
    ap (λ t. (finish (init (delimited d)) t).0) (append-nil (lines (delimited d) rows))
    ∙ ap (λ out. (leftover_record out).0) (feed-lines d safe rows h)
    ∙ append-nil rows

with_line-stream :
    (o : Option (List ℕ)) (rest : Written (Unit {0}))
    → (with_line o rest).0 ≡ ok tt
    → (rest.0 ≡ ok tt → CopyStream (send_back rest.1) (payloads rest.1))
    → CopyStream (send_back (with_line o rest).1) (payloads (with_line o rest).1)
unfolding with_line
with_line-stream none rest h stream = absurd cc
with_line-stream (some bytes) rest h stream = data_message {payload = bytes} (stream h)

write_rows-stream :
    (options : CopyOptions) (rows : List Row)
    → (write_rows options rows).0 ≡ ok tt
    → CopyStream (send_back (write_rows options rows).1) (payloads (write_rows options rows).1)
unfolding write_rows
write_rows-stream options [] h = no_more
write_rows-stream options (row ∷ rows) h =
    with_line-stream (encode_line options row) (write_rows options rows) h
      (write_rows-stream options rows)

counted_rows-ok :
    (r : Result Error (Unit {0})) (n k : ℕ) → counted_rows r n ≡ ok k → (r ≡ ok tt) × (n ≡ k)
counted_rows-ok (ok u) n k h = (refl, cc)
counted_rows-ok (err e) n k h = absurd cc

-- Rows of at least one field that COPY TO STDOUT wrote without a header, in the text format with
-- its default null string and a delimiter that means itself after a backslash and is no line end,
-- no period and no N, are counted, and when the client sends the data back the first `n` rows that
-- the session asks for are the first `n` of them, if the bytes decode to the lines.
pub copy_in-copy_out :
    {U : Type 0} (utf8 : Incremental U) (d : ℕ)
    → IsLineSafe d
    → (rows : List Row) (columns count n : ℕ) (rest : List Message) (v : U) → all_filled rows ≡ true
    → (copy_out (delimited d) none rows columns).0 ≡ ok count
    → utf8.decode_bytes utf8.start (payloads (copy_out (delimited d) none rows columns).1)
      ≡ some (lines (delimited d) rows, v)
    → utf8.end v ≡ some []
    → (length rows ≡ count)
      × IsCopied utf8
          (copy_in utf8 n
            (send_back (copy_out (delimited d) none rows columns).1 ++ rest)
            (new_reader utf8 (delimited d)))
          (take n rows)
          rest
unfolding copy_out write_header
copy_in-copy_out utf8 d safe rows columns count n rest v filled out decoded ends =
    let (written, counted) =
      counted_rows-ok (write_rows (delimited d) rows).0 (length rows) count out in
    let stream = write_rows-stream (delimited d) rows written in
    (
      counted,
      subst
          (λ l.
            IsCopied utf8
              (copy_in utf8 n (send_back (write_rows (delimited d) rows).1 ++ rest)
                (new_reader utf8 (delimited d)))
              (take n l) rest)
          (finish-lines d safe rows filled)
          (copy_in-whole utf8 (delimited d) _ _ stream rest n (lines (delimited d) rows) [] v
            decoded ends),
    )
