-- ===== src/Errors.antt =====
-- pg_mimic/errors.py: the exceptions, told apart by class and SQLSTATE. Messages and the further
-- fields of a PgError are not modelled.
use pg_mimic.Prelude.{String}

pub data Error : Type 0 where
  pg_error : String → Error
  protocol_violation : String → Error
  connection_closed : Error
  value_error : Error
  exception : Error

abbrev pub syntax_error : String
syntax_error = "42601"

abbrev pub undefined_object : String
undefined_object = "42704"

abbrev pub in_failed_sql_transaction : String
in_failed_sql_transaction = "25P02"

abbrev pub active_sql_transaction : String
active_sql_transaction = "25001"

abbrev pub no_active_sql_transaction : String
no_active_sql_transaction = "25P01"

abbrev pub invalid_sql_statement_name : String
invalid_sql_statement_name = "26000"

abbrev pub invalid_savepoint_specification : String
invalid_savepoint_specification = "3B001"

abbrev pub invalid_parameter_value : String
invalid_parameter_value = "22023"

abbrev pub cant_change_runtime_param : String
cant_change_runtime_param = "55P02"

abbrev pub feature_not_supported : String
feature_not_supported = "0A000"

abbrev pub protocol_violation_state : String
protocol_violation_state = "08P01"

abbrev pub query_canceled : String
query_canceled = "57014"

abbrev pub internal_error : String
internal_error = "XX000"
