-- ===== src/Messages/Backend.antt =====
-- The backend messages of pg_mimic/messages.py as data, one constructor for each make_* function
-- that a connection calls while it serves commands.
use pg_mimic.Prelude.{ℕ, String, Option, List, ℤ}

-- b"I", b"T" and b"E" of ReadyForQuery
pub data TxStatus : Type 0 where
  idle in_block failed : TxStatus

pub record FieldSpec : Type 0 where
  pub name : String
  pub oid : ℤ
  pub format_code : ℤ

pub data Backend : Type 0 where
  parameter_status : String → String → Backend
  ready_for_query : TxStatus → Backend
  notification : ℕ → String → String → Backend
  notice_response : String → Backend
  error_response : String → Backend
  fatal_error : String → Backend
  row_description : List FieldSpec → Backend
  data_row : List (Option (List ℕ)) → Backend
  command_complete : String → Backend
  empty_query_response : Backend
  parse_complete bind_complete close_complete no_data portal_suspended : Backend
  parameter_description : List ℤ → Backend
  copy_in_response copy_out_response : ℕ → Backend
  copy_data : List ℕ → Backend
  copy_done : Backend
