-- ===== src/Copy/Csv.antt =====
-- pg_mimic/copy.py, `_csv_fields` and `_csv_value`: a record of the CSV format read back.
use pg_mimic.Prelude.{
  ℕ, zero, suc, List, [], ◌∷◌, ◌++◌, Bool, true, false, not, ◌&&◌, Option, none, some, nat_beq,
  if◌then◌else◌,
}
use pg_mimic.Copy.{CopyOptions}
use pg_mimic.Prelude.{text_beq}

unfoldable pub csv_value : CopyOptions → List ℕ → Bool → Option (List ℕ)
csv_value options text quoted =
    if not quoted && text_beq text options.null_string then none else some text

-- the state of the loop: the field read so far, whether it was quoted, and whether the quotes are
-- still open
pub record CsvState : Type 0 where
  pub current : List ℕ
  pub quoted : Bool
  pub in_quotes : Bool

abbrev pub csv_start : CsvState
csv_start = record { current = []; quoted = false; in_quotes = false }

-- One step of the loop at `c`, with the rest of the record at hand: a field that ends, the next
-- state, and whether the character after `c` is used up too.
pub data CsvStep : Type 0 where
  field_ends : CsvStep
  goes_on : CsvState → CsvStep
  takes_next : CsvState → CsvStep

unfoldable pub next_is : ℕ → List ℕ → Bool
next_is c [] = false
next_is c (d ∷ s) = nat_beq d c

unfoldable pub escaped_char : CopyOptions → CsvState → ℕ → List ℕ → CsvStep
escaped_char options st c [] = goes_on (record st { current = st.current ++ c ∷ [] })
escaped_char options st c (d ∷ s) = takes_next (record st { current = st.current ++ d ∷ [] })

unfoldable pub quoted_char : CopyOptions → CsvState → ℕ → List ℕ → CsvStep
quoted_char options st c s =
    if nat_beq c options.quote
    then (if nat_beq options.escape options.quote && next_is options.quote s
        then takes_next (record st { current = st.current ++ options.quote ∷ [] })
        else goes_on (record st { in_quotes = false }))
    else goes_on (record st { current = st.current ++ c ∷ [] })

unfoldable pub csv_step : CopyOptions → CsvState → ℕ → List ℕ → CsvStep
csv_step options st c s =
    if st.in_quotes
    then (if not (nat_beq options.escape options.quote)
          && nat_beq c options.escape
          && not (text_beq s [])
        then escaped_char options st c s
        else quoted_char options st c s)
    else if nat_beq c options.quote
    then goes_on (record st { in_quotes = true; quoted = true })
    else if nat_beq c options.delimiter
    then field_ends
    else goes_on (record st { current = st.current ++ c ∷ [] })

-- The loop; an index that moves by two is a character still to skip.
unfoldable pub csv_loop : CopyOptions → ℕ → CsvState → List ℕ → List (Option (List ℕ))
csv_loop options skip st [] = csv_value options st.current st.quoted ∷ []
csv_loop options (suc skip) st (c ∷ s) = csv_loop options skip st s
csv_loop options zero st (c ∷ s) = elim (csv_step options st c s) [
  | field_ends ↦ csv_value options st.current st.quoted ∷ csv_loop options zero csv_start s
  | goes_on st' ↦ csv_loop options zero st' s
  | takes_next st' ↦ csv_loop options 1 st' s
]

unfoldable pub csv_fields : CopyOptions → List ℕ → List (Option (List ℕ))
csv_fields options record_text = csv_loop options zero csv_start record_text
