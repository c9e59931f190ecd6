-- ===== src/Copy/Reader.antt =====
-- pg_mimic/connection.py, `_CopyInReader` and `_copy_in`: the frontend side of COPY FROM STDIN. The
-- incremental UTF-8 decoder of Python's codecs is a parameter.
pub mod Steps
pub mod Whole
use pg_mimic.Prelude.{
  ℕ, zero, suc, ◌+◌, ◌-◌, ◌≡◌, List, [], ◌∷◌, ◌++◌, Bool, true, false, not, ◌&&◌, Option, none,
  some, nat_beq, if◌then◌else◌, length, take, Result, ok, err, newline, carriage_return, text_beq,
}
use pg_mimic.Errors.{
  Error, pg_error, connection_closed, value_error, exception, query_canceled,
  protocol_violation_state,
}
use pg_mimic.Copy.{CopyOptions}
use pg_mimic.Copy.Decoder.{Row, Decoder, init, feed, finish}
use pg_mimic.Loop.{Kind, copy_data, copy_done, copy_fail, flush, sync, Message}
use pg_mimic.Wire.Messages.Parsers.{parse_copy_fail}

-- what two decodings one after the other give
abbrev pub behind : {U : Type 0} → List ℕ → Option (List ℕ × U) → Option (List ℕ × U)
behind text none = none
behind text (some (more, u)) = some (text ++ more, u)

abbrev pub decode_more :
    {U : Type 0}
    → (U → List ℕ → Option (List ℕ × U))
    → List ℕ
    → Option (List ℕ × U)
    → Option (List ℕ × U)
decode_more decode bytes none = none
decode_more decode bytes (some (text, u)) = behind text (decode u bytes)

-- codecs.getincrementaldecoder("utf-8"): bytes in, and the text so far that they complete. Cutting
-- the bytes does not change the text. `none` is the UnicodeDecodeError.
pub record Incremental (U : Type 0) : Type 0 where
  pub start : U
  pub decode_bytes : U → List ℕ → Option (List ℕ × U)
  pub end : U → Option (List ℕ)
  pub decode_bytes-append :
      (u : U) (a b : List ℕ)
      → decode_bytes u (a ++ b) ≡ decode_more decode_bytes b (decode_bytes u a)
  pub decode_bytes-nil : (u : U) → decode_bytes u [] ≡ some ([], u)

module _ {U : Type 0} (utf8 : Incremental U) where
  -- _CopyInReader, with the UTF-8 state of its decoder
  pub record Reader : Type 0 where
    pub partial : U
    pub decoder : Decoder
    pub done : Bool
    pub row_count : ℕ

  unfoldable pub new_reader : CopyOptions → Reader
  new_reader options = record {
    partial = utf8.start;
    decoder = init options;
    done = false;
    row_count = 0;
  }

  unfoldable pub feed_bytes : Option (List ℕ × U) → Reader → Result Error (List Row) × Reader
  feed_bytes none r = (err value_error, r)
  feed_bytes (some (text, u)) r =
      (ok (feed r.decoder text).0, record r { partial = u; decoder = (feed r.decoder text).1 })

  unfoldable pub finish_bytes : Option (List ℕ) → Reader → Result Error (List Row) × Reader
  finish_bytes none r = (err value_error, r)
  finish_bytes (some tail) r =
      (ok (finish r.decoder tail).0, record r { decoder = (finish r.decoder tail).1 })

  abbrev pub failure : Option (List ℕ) → Error
  failure none = exception
  failure (some reason) = pg_error query_canceled

  -- `_read_batch` of a message
  unfoldable pub read_batch : Kind → List ℕ → Reader → Result Error (List Row) × Reader
  read_batch copy_data payload r = feed_bytes (utf8.decode_bytes r.partial payload) r
  read_batch copy_done payload r = finish_bytes (utf8.end r.partial) (record r { done = true })
  read_batch copy_fail payload r =
      (err (failure (parse_copy_fail payload)), record r { done = true })
  read_batch flush payload r = (ok [], r)
  read_batch sync payload r = (ok [], r)
  read_batch k payload r = (err (pg_error protocol_violation_state), r)

  -- the rows read, the reader, and the messages that are left
  abbrev pub Progress : Type 0
  Progress = Result Error (List Row) × Reader × List Message

  -- rows that were given before the others
  unfoldable pub prefixed : List Row → Progress → Progress
  prefixed rows (ok more, r, ms) = (ok (rows ++ more), r, ms)
  prefixed rows (err e, r, ms) = (err e, r, ms)

  -- a batch of which the session takes at most `wanted` rows, before `again`
  unfoldable pub yield_rows :
      (ℕ → Reader → Progress) → ℕ → List Message → Result Error (List Row) × Reader → Progress
  yield_rows again wanted ms (err e, r) = (err e, r, ms)
  yield_rows again wanted ms (ok rows, r) = prefixed (take wanted rows) (
      again (wanted - length rows)
        (record r { row_count = r.row_count + length (take wanted rows) }))

  -- `_iterate`, asked for at most `wanted` rows. The end of the list is a client that has gone.
  unfoldable pub iterate : ℕ → List Message → Reader → Progress
  iterate zero ms r = (ok [], r, ms)
  iterate (suc wanted) [] r = if r.done then (ok [], r, []) else (err connection_closed, r, [])
  iterate (suc wanted) (m ∷ ms) r =
      if r.done
      then (ok [], r, m ∷ ms)
      else yield_rows (λ n. iterate n ms) (suc wanted) ms (read_batch m.kind m.payload r)

  unfoldable pub skip_rows :
      (Reader → Progress) → List Message → Result Error (List Row) × Reader → Progress
  skip_rows again ms (err e, r) = (err e, r, ms)
  skip_rows again ms (ok rows, r) = again r

  -- the loop of `finish`
  unfoldable pub drain : List Message → Reader → Progress
  drain [] r = if r.done then (ok [], r, []) else (err connection_closed, r, [])
  drain (m ∷ ms) r =
      if r.done then (ok [], r, m ∷ ms) else skip_rows (drain ms) ms (read_batch m.kind m.payload r)

  unfoldable pub then_drain : Progress → Progress
  then_drain (err e, r, ms) = (err e, r, ms)
  then_drain (ok rows, r, ms) =
      (elim ((drain ms r).0) [ ok more ↦ ok rows | err e ↦ err e ], (drain ms r).1, (drain ms r).2)

  -- The exchange of `_copy_in` after CopyInResponse, with a session that stops after `wanted` rows.
  unfoldable pub copy_in : ℕ → List Message → Reader → Progress
  copy_in wanted ms r = then_drain (iterate wanted ms r)
