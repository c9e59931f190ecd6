-- ===== src/Copy/Writer.antt =====
-- pg_mimic/connection.py, `_copy_out`: the messages of COPY TO STDOUT, and the row count. A row is
-- the texts that `copy_text` makes of its values; the source's rows are a list.
pub mod Back
use pg_mimic.Prelude.{
  ℕ, List, [], ◌∷◌, ◌++◌, map, Option, none, some, length, nat_beq, if◌then◌else◌, Result, ok, err,
}
use pg_mimic.Errors.{Error, value_error}
use pg_mimic.Messages.Backend.{Backend, copy_out_response, copy_data, copy_done}
use pg_mimic.Copy.{CopyOptions}
use pg_mimic.Copy.Decoder.{Row}
use pg_mimic.Copy.Encoder.{line}
use pg_mimic.Wire.Utf8.{encode}

-- how the copy ends, and the messages written by then
abbrev pub Written : Type 0 → Type 0
Written A = Result Error A × List Backend

-- CopyEncoder.row of a row's texts
unfoldable pub encode_line : CopyOptions → Row → Option (List ℕ)
encode_line options row = encode (line options row)

-- CopyData with a line, before the rest; a UnicodeError ends the copy
unfoldable pub with_line : {A : Type 0} → Option (List ℕ) → Written A → Written A
with_line none rest = (err value_error, [])
with_line (some bytes) rest = (rest.0, copy_data bytes ∷ rest.1)

-- the rows, and CopyDone
unfoldable pub write_rows : CopyOptions → List Row → Written (Unit {0})
write_rows options [] = (ok tt, copy_done ∷ [])
write_rows options (row ∷ rows) = with_line (encode_line options row) (write_rows options rows)

unfoldable pub write_header :
    CopyOptions → Option (List (List ℕ)) → Written (Unit {0}) → Written (Unit {0})
write_header options none rest = rest
write_header options (some names) rest = with_line (encode_line options (map some names)) rest

-- len(header or ()) or statement.column_count
unfoldable pub declared_count : Option (List (List ℕ)) → ℕ → ℕ
declared_count none fallback = fallback
declared_count (some names) fallback = if nat_beq (length names) 0 then fallback else length names

unfoldable pub out_columns : List Row → Option (List (List ℕ)) → ℕ → ℕ
out_columns [] header fallback = declared_count header fallback
out_columns (row ∷ rows) header fallback = length row

abbrev pub counted_rows : Result Error (Unit {0}) → ℕ → Result Error ℕ
counted_rows (ok u) n = ok n
counted_rows (err e) n = err e

unfoldable pub copy_out : CopyOptions → Option (List (List ℕ)) → List Row → ℕ → Written ℕ
copy_out options header rows column_count =
    let body = write_header options header (write_rows options rows) in
    (
      counted_rows (body.0) (length rows),
      copy_out_response (out_columns rows header column_count) ∷ body.1,
    )
