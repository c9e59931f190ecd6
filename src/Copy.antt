-- ===== src/Copy.antt =====
-- pg_mimic/copy.py: the text and CSV formats of the COPY sub-protocol. A string is the list of its
-- code points. A field is `none` for NULL.
pub mod Encoder
pub mod Text
pub mod Csv
pub mod Decoder
pub mod Line
pub mod Reader
pub mod Writer
use pg_mimic.Prelude.{ℕ, ◌≡◌, List, [], ◌∷◌, Bool, true, false, Option}

pub record CopyOptions : Type 0 where
  pub is_csv : Bool
  pub delimiter : ℕ
  pub null_string : List ℕ
  pub header : Bool
  pub quote : ℕ
  pub escape : ℕ

-- the defaults of `CopyOptions`: tab, \N and no header
abbrev pub text_options : CopyOptions
text_options = record {
  is_csv = false;
  delimiter = 9;
  null_string = 92 ∷ 78 ∷ [];
  header = false;
  quote = 34;
  escape = 34;
}

-- what `_parse_options` resolves FORMAT csv to
abbrev pub csv_options : CopyOptions
csv_options = record {
  is_csv = true;
  delimiter = 44;
  null_string = [];
  header = false;
  quote = 34;
  escape = 34;
}
