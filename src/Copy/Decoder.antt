-- ===== src/Copy/Decoder.antt =====
-- pg_mimic/copy.py, CopyInDecoder: the text of CopyData payloads cut into records, incrementally.
-- The incremental UTF-8 decoder in front of it is not part of it: `feed` is given decoded text.
pub mod Split
pub mod Chunks
use pg_mimic.Prelude.{
  ℕ, zero, suc, ◌≡◌, List, [], ◌∷◌, ◌++◌, Bool, true, false, not, ◌&&◌, ◌||◌, Option, none, some,
  nat_beq, if◌then◌else◌, length,
}
use pg_mimic.Copy.{CopyOptions}
use pg_mimic.Prelude.{backslash, newline, carriage_return, text_beq}
use pg_mimic.Copy.Text.{text_fields}
use pg_mimic.Copy.Csv.{csv_fields}

abbrev pub Row : Type 0
Row = List (Option (List ℕ))

-- `pending`, `ended` (the \. marker has been seen) and `skip_header`
pub record Decoder : Type 0 where
  pub options : CopyOptions
  pub pending : List ℕ
  pub ended : Bool
  pub skip_header : Bool

unfoldable pub init : CopyOptions → Decoder
init options = record {
  options = options;
  pending = [];
  ended = false;
  skip_header = options.header;
}

-- A record and what follows it, `none` where no record is complete.
abbrev pub Split : Type 0
Split = Option (List ℕ × List ℕ)

unfoldable pub before : ℕ → Split → Split
before c none = none
before c (some (r, rest)) = some (c ∷ r, rest)

-- buffer.find("\n") and the slices around it
unfoldable pub split_line : List ℕ → Split
split_line [] = none
split_line (c ∷ s) =
    let rest = split_line s in if nat_beq c newline then some ([], s) else before c rest

-- The three moves of the loop of `_split_csv_record`, outside quotes and inside them.
pub data CsvMove : Type 0 where
  record_ends : CsvMove
  moves : Bool → CsvMove
  moves_two : Bool → CsvMove
  waits : CsvMove

-- A quote inside quotes, with what follows it, when the quote is its own escape.
unfoldable pub doubled_quote : ℕ → List ℕ → CsvMove
doubled_quote quote [] = waits
doubled_quote quote (d ∷ s) = if nat_beq d quote then moves_two true else moves false

unfoldable pub csv_move : CopyOptions → Bool → ℕ → List ℕ → CsvMove
csv_move options in_quotes c s =
    if not in_quotes
    then (if nat_beq c options.quote
        then moves true
        else if nat_beq c newline
        then record_ends
        else moves false)
    else if not (nat_beq options.escape options.quote) && nat_beq c options.escape
    then moves_two true
    else if nat_beq c options.quote
    then (if nat_beq options.escape options.quote
        then doubled_quote options.quote s
        else moves false)
    else moves true

-- The loop of `_split_csv_record`; an index that moves by two is a character still to skip.
unfoldable pub split_csv : CopyOptions → ℕ → Bool → List ℕ → Split
split_csv options skip in_quotes [] = none
split_csv options (suc skip) in_quotes (c ∷ s) = before c (split_csv options skip in_quotes s)
split_csv options zero in_quotes (c ∷ s) = elim (csv_move options in_quotes c s) [
  | record_ends ↦ some ([], s)
  | moves in_quotes' ↦ before c (split_csv options zero in_quotes' s)
  | moves_two in_quotes' ↦ before c (split_csv options 1 in_quotes' s)
  | waits ↦ none
]

unfoldable pub split_record : CopyOptions → List ℕ → Split
split_record options buffer =
    if options.is_csv then split_csv options zero false buffer else split_line buffer

-- record[:-1] for a record that ends with a carriage return
unfoldable pub drop_return : List ℕ → List ℕ
drop_return [] = []
drop_return (c ∷ []) = if nat_beq c carriage_return then [] else c ∷ []
drop_return (c ∷ d ∷ s) = c ∷ drop_return (d ∷ s)

unfoldable pub fields : CopyOptions → List ℕ → Row
fields options text = if options.is_csv then csv_fields options text else text_fields options text

-- `_record`: no row for the end-of-data marker and for a header
unfoldable pub read_record : Decoder → List ℕ → List Row × Decoder
read_record s text =
    let text' = drop_return text in
    if text_beq text' (backslash ∷ 46 ∷ [])
    then ([], record s { ended = true })
    else if s.skip_header
    then ([], record s { skip_header = false })
    else (fields s.options text' ∷ [], s)

-- rows.extend
abbrev pub extend : List Row → List Row × Decoder → List Row × Decoder
extend rows out = (rows ++ out.0, out.1)

-- One turn of the loop of `_consume` on what is pending: `again` is the rest of the loop.
unfoldable pub consume_split : (Decoder → List Row × Decoder) → Split → Decoder → List Row × Decoder
consume_split again none s = ([], s)
consume_split again (some (text, rest)) s =
    extend (read_record (record s { pending = rest }) text).0
      (again (read_record (record s { pending = rest }) text).1)

-- The loop, with fuel for its turns: each shortens what is pending.
unfoldable pub consume_loop : ℕ → Decoder → List Row × Decoder
consume_loop zero s = ([], s)
consume_loop (suc fuel) s =
    if s.ended
    then ([], s)
    else consume_split (consume_loop fuel) (split_record s.options s.pending) s

-- everything after the marker is ignored
abbrev pub clear_ended : Decoder → Decoder
clear_ended s = if s.ended then record s { pending = [] } else s

-- `feed` of a payload that decodes to `text`
unfoldable pub feed : Decoder → List ℕ → List Row × Decoder
feed s text = (read.0, clear_ended (read.1))
  where
    buffered : Decoder
    buffered = record s { pending = s.pending ++ text }

    read : List Row × Decoder
    read = consume_loop (suc (length (buffered.pending))) buffered

-- str.rstrip("\r\n")
unfoldable pub rstrip : List ℕ → List ℕ
rstrip [] = []
rstrip (c ∷ s) =
    let rest = rstrip s in
    if text_beq rest [] && (nat_beq c carriage_return || nat_beq c newline) then [] else c ∷ rest

-- the end of `finish`: what is pending after `feed`, less its line end, is still a record
unfoldable pub leftover_record : List Row × Decoder → List Row × Decoder
leftover_record out = extend out.0 leftover
  where
    left : List ℕ
    left = rstrip (out.1.pending)

    emptied : Decoder
    emptied = record (out.1) { pending = [] }

    leftover : List Row × Decoder
    leftover =
        if not (text_beq left []) && not (emptied.ended)
        then read_record emptied left
        else ([], emptied)

-- `finish`, at CopyDone, with the text that the UTF-8 decoder still gives
unfoldable pub finish : Decoder → List ℕ → List Row × Decoder
finish s tail = leftover_record (feed s tail)
