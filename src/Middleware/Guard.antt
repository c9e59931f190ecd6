-- ===== src/Middleware/Guard.antt =====
-- A statement as pg_mimic/connection.py runs it: the test of the failed transaction
-- (_execute_one_simple_statement, _handle_execute), and what _dispatch does with a PgError.
use pg_mimic.Prelude.{ℕ, String, Bool, true, false, not, ◌&&◌, ok, err, if◌then◌else◌}
use pg_mimic.Errors.{
  Error, pg_error, protocol_violation, connection_closed, value_error, exception,
  in_failed_sql_transaction, internal_error,
}
use pg_mimic.Messages.Backend.{TxStatus, idle, failed, error_response}
use pg_mimic.Connection.{Connection}
use pg_mimic.Connection
use pg_mimic.World.{World, on}
use pg_mimic.Middleware.Effect.{Outcome, raise}
use pg_mimic.Middleware.Settings.{Host}
use pg_mimic.Middleware.Transactions.{Tag, begin, SavepointKind, rollback_to}
use pg_mimic.Middleware.Execute.{Command, transaction_control, savepoint_control, execute}

unfoldable pub ends_transaction : Tag → Bool
ends_transaction begin = false
ends_transaction _ = true

unfoldable pub is_rollback_to : SavepointKind → Bool
is_rollback_to rollback_to = true
is_rollback_to _ = false

-- allowed_in_failed_transaction
unfoldable pub allowed_in_failed_transaction : {S : Type 0} → Command S → Bool
unfolding ends_transaction is_rollback_to
allowed_in_failed_transaction (transaction_control tag) = ends_transaction tag
allowed_in_failed_transaction (savepoint_control kind name) = is_rollback_to kind
allowed_in_failed_transaction _ = false

abbrev pub is_failed : TxStatus → Bool
is_failed failed = true
is_failed _ = false

abbrev pub sqlstate_of : Error → String
sqlstate_of (pg_error s) = s
sqlstate_of (protocol_violation s) = s
sqlstate_of connection_closed = internal_error
sqlstate_of value_error = internal_error
sqlstate_of exception = internal_error

abbrev pub fail : TxStatus → TxStatus
fail idle = idle
fail _ = failed

module _ {V S P : Type 0} where
  -- An error answered by _dispatch: reported, and the commands up to the next Sync are skipped.
  unfoldable pub report_error : Error → Connection V S P → Connection V S P
  unfolding Connection.write
  report_error e c = record (Connection.write (error_response (sqlstate_of e)) c) {
    tx_status = fail c.tx_status;
    ignore_until_sync = true;
  }

  unfoldable pub answer : ℕ → Outcome (World V S P) → World V S P
  unfolding report_error
  answer p (ok u, w) = w
  answer p (err e, w) = on p (report_error e) w

  unfoldable pub guarded : Host V → Command S → ℕ → World V S P → Outcome (World V S P)
  unfolding execute allowed_in_failed_transaction
  guarded host command p w =
      if is_failed (w.heap p).tx_status && not (allowed_in_failed_transaction command)
      then raise (pg_error in_failed_sql_transaction) w
      else execute host command p w

  unfoldable pub run_statement : Host V → Command S → ℕ → World V S P → World V S P
  unfolding guarded answer
  run_statement host command p w = answer p (guarded host command p w)
