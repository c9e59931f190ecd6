-- ===== src/Protocol/Handlers.antt =====
-- pg_mimic/connection.py, `_handle_simple_query` to `_handle_close`, and the choice among them in
-- `_dispatch`. `p` is the connection that serves the message.
use pg_mimic.Prelude.{
  ℕ, ◌+◌, String, Bool, ◌&&◌, not, List, [], map, Option, none, some, Result, ok, err, ℤ, pos,
  nat_beq, length, if◌then◌else◌, string_eq, ◌==◌,
}
use pg_mimic.Prelude.Dict
use pg_mimic.Errors.{
  Error, pg_error, exception, in_failed_sql_transaction, invalid_sql_statement_name,
}
use pg_mimic.State.{SessionState}
use pg_mimic.Messages.Backend.{
  Backend, row_description, data_row, command_complete, empty_query_response, parse_complete,
  bind_complete, close_complete, no_data, portal_suspended, parameter_description,
}
use pg_mimic.Connection
use pg_mimic.World.{World, on, on_state}
use pg_mimic.Middleware.Guard.{is_failed}
use pg_mimic.Loop.{
  Kind, query, parse, bind, describe, execute, close, Ending, returned, raised, Handler,
}
use pg_mimic.Wire.Messages.Parsers.{
  parse_query, ParsedParse, parse_parse, ParsedExecute, parse_execute, ParsedDescribeOrClose,
  parse_describe, parse_close,
}
use pg_mimic.Wire.Messages.Bind.{ParsedBind, parse_bind}
use pg_mimic.Protocol.Action.{Action, give, raise, from, ◌>>>◌, for_each}
use pg_mimic.Protocol.Session.{ResultColumn, Row, PortalEntry, Session}
use pg_mimic.Protocol.Values.{is_zero, refused, decode_params, encode_row, field_specs}

-- an OID of 0 is one that the client left open
abbrev pub open_oid : ℤ → Option ℤ
open_oid z = if is_zero z then none else some z

abbrev pub shown_oid : Option ℤ → ℤ
shown_oid none = pos 0
shown_oid (some z) = z

-- TARGET_STATEMENT
abbrev pub is_statement_target : ℕ → Bool
is_statement_target kind = nat_beq kind b'S'

module _ {V S Q C : Type 0} (session : Session V S Q C) (p : ℕ) where
  abbrev pub Step : Type 0 → Type 0
  Step A = Action (World V S (PortalEntry Q)) A

  unfoldable pub emit : Backend → Step (Unit {0})
  emit m w = (ok tt, on p (Connection.write m) w)

  unfoldable pub update :
      (SessionState V S (PortalEntry Q) → SessionState V S (PortalEntry Q)) → Step (Unit {0})
  update f w = (ok tt, on p (on_state f) w)

  unfoldable pub read_state : {A : Type 0} → (SessionState V S (PortalEntry Q) → A) → Step A
  read_state f w = (ok (f (w.heap p).state), w)

  -- a name that is not there is a PgError
  abbrev pub known : {A : Type 0} → Option A → Step A
  known none = raise (pg_error invalid_sql_statement_name)
  known (some a) = give a

  unfoldable pub get_statement : String → Step S
  get_statement name = read_state (λ s. Dict.lookup name s.statements) >>> known

  unfoldable pub get_portal : String → Step (PortalEntry Q)
  get_portal name = read_state (λ s. Dict.lookup name s.portals) >>> known

  -- the refusal of what a failed transaction block does not take
  unfoldable pub check_failed : String → Step (Unit {0})
  check_failed sql w =
      (if is_failed (w.heap p).tx_status && not (session.allowed sql)
          then raise (pg_error in_failed_sql_transaction)
          else give tt)
        w

  -- self.state.portals[name] as the mutated object, if it is still there
  abbrev pub replaced :
      {A : Type 0} → String → A → Option A → Dict.Dict String A → Dict.Dict String A
  replaced name a none d = d
  replaced name a (some old) d = Dict.insert name a d

  unfoldable pub put_back : String → PortalEntry Q → Step (Unit {0})
  put_back name entry =
      update
        (λ s. record s { portals = replaced name entry (Dict.lookup name s.portals) s.portals })

  unfoldable pub write_row :
      (Result Error (List (Option (List ℕ))) → Result Error (List (Option (List ℕ))))
      → List ℤ
      → List ResultColumn
      → Row C
      → Step (Unit {0})
  write_row convert codes columns row =
      from (convert (encode_row session codes columns 0 row)) >>> λ values. emit (data_row values)

  unfoldable pub describe_row : List ℤ → Option (List ResultColumn) → Step (Unit {0})
  describe_row codes none = emit no_data
  describe_row codes (some columns) =
      from (field_specs codes 0 columns) >>> λ specs. emit (row_description specs)

  -- the rows of a simple query, with their description
  unfoldable pub simple_rows : Option (List ResultColumn) → List (Row C) → Step (Unit {0})
  simple_rows none rows = give tt
  simple_rows (some columns) rows =
      describe_row [] (some columns) >>> λ u. for_each (write_row (λ r. r) [] columns) rows

  -- getattr(statement, "sql", sql) or sql
  abbrev pub sql_or : String → S → String
  sql_or sql statement = if session.sql_of statement == "" then sql else session.sql_of statement

  unfoldable pub run_simple : String → S → Step (Unit {0})
  run_simple sql statement = session.describe statement >>> λ columns.
      from (session.make_portal statement []) >>> λ portal.
      session.run_portal portal (pos 0) >>> λ done. from done.0 >>> λ result.
      simple_rows columns result.0 >>> λ u.
      emit (command_complete (session.command_tag (sql_or sql statement) (length result.0)))

  -- `_run_copy`
  unfoldable pub run_copy : S → Step (Unit {0})
  run_copy statement =
      (if session.is_copy_in statement
        then session.run_copy_in statement
        else session.run_copy_out statement)
      >>> λ row_count.
          emit (command_complete (session.command_tag (session.sql_of statement) row_count))

  unfoldable pub prepared_simple : String → S → Step (Unit {0})
  prepared_simple sql statement =
      if session.is_copy_statement statement then run_copy statement else run_simple sql statement

  unfoldable pub run_filled : String → Step (Unit {0})
  run_filled sql =
      if session.is_blank sql
      then emit empty_query_response
      else (session.prepare sql [] >>> prepared_simple sql)

  -- `_execute_one_simple_statement`
  unfoldable pub execute_one_simple_statement : String → Step (Unit {0})
  execute_one_simple_statement sql = check_failed sql >>> λ u. run_filled sql

  unfoldable pub handle_simple_query : String → Step (Unit {0})
  handle_simple_query sql =
      if session.is_blank sql
      then emit empty_query_response
      else for_each execute_one_simple_statement (session.split_statements sql)

  unfoldable pub handle_parse : ParsedParse → Step (Unit {0})
  handle_parse parsed =
      session.prepare (session.str parsed.sql) (map open_oid parsed.param_oids) >>> λ statement.
      update (λ s. record s {
        statements = Dict.insert (session.str parsed.statement_name) statement s.statements;
      })
      >>> λ u. emit parse_complete

  abbrev pub entry : Q → Option (List ResultColumn) → String → List ℤ → PortalEntry Q
  entry portal columns sql codes = record {
    portal = portal;
    columns = columns;
    sql = sql;
    rows_returned = 0;
    result_format_codes = codes;
  }

  unfoldable pub handle_bind : ParsedBind → Step (Unit {0})
  handle_bind parsed = get_statement (session.str parsed.statement_name) >>> λ statement.
      from (
        decode_params session parsed.param_format_codes (session.param_oids statement) 0
          parsed.params)
      >>> λ params. from (session.make_portal statement params) >>> λ portal.
          session.describe statement >>> λ columns.
          update (λ s. record s {
            portals =
                Dict.insert (session.str parsed.portal_name)
                  (entry portal columns (session.sql_of statement) parsed.result_format_codes)
                  s.portals;
          })
          >>> λ u. emit bind_complete

  unfoldable pub describe_statement : String → Step (Unit {0})
  describe_statement name = get_statement name >>> λ statement.
      emit (parameter_description (map shown_oid (session.param_oids statement))) >>> λ u.
      session.describe statement >>> describe_row []

  unfoldable pub describe_portal : String → Step (Unit {0})
  describe_portal name = get_portal name >>> λ e. describe_row e.result_format_codes e.columns

  unfoldable pub handle_describe : ParsedDescribeOrClose → Step (Unit {0})
  handle_describe parsed =
      if is_statement_target parsed.target
      then describe_statement (session.str parsed.name)
      else describe_portal (session.str parsed.name)

  unfoldable pub portal_rows :
      PortalEntry Q → Option (List ResultColumn) → List (Row C) → Step (Unit {0})
  portal_rows e none rows = give tt
  portal_rows e (some columns) rows =
      for_each (write_row refused e.result_format_codes columns) rows

  -- the end of an execution that may go on
  unfoldable pub finish : PortalEntry Q → Bool → Step (Unit {0})
  finish e suspended =
      if suspended
      then emit portal_suspended
      else emit (command_complete (session.command_tag e.sql e.rows_returned))

  abbrev pub advanced : PortalEntry Q → Q → ℕ → PortalEntry Q
  advanced e portal n = record e { portal = portal; rows_returned = e.rows_returned + n }

  unfoldable pub after_rows :
      String → PortalEntry Q → Result Error (List (Row C) × Bool) × Q → Step (Unit {0})
  after_rows name e (err error, portal) = put_back name (advanced e portal 0) >>> λ u. raise error
  after_rows name e (ok result, portal) =
      put_back name (advanced e portal (length result.0)) >>> λ u.
      portal_rows e e.columns result.0 >>> λ u.
      finish (advanced e portal (length result.0)) result.1

  unfoldable pub run_entry : String → ℤ → PortalEntry Q → Step (Unit {0})
  run_entry name max_rows e =
      if session.is_copy_portal e.portal
      then run_copy (session.copied_statement e.portal)
      else (session.run_portal e.portal max_rows >>> after_rows name e)

  unfoldable pub handle_execute : ParsedExecute → Step (Unit {0})
  handle_execute parsed = get_portal (session.str parsed.portal_name) >>> λ e.
      check_failed e.sql >>> λ u. run_entry (session.str parsed.portal_name) parsed.max_rows e

  unfoldable pub handle_close : ParsedDescribeOrClose → Step (Unit {0})
  handle_close parsed =
      (if is_statement_target parsed.target
        then update (λ s. record s { statements = Dict.pop (session.str parsed.name) s.statements })
        else update (λ s. record s { portals = Dict.pop (session.str parsed.name) s.portals }))
      >>> λ u. emit close_complete

  -- a payload that its parser refuses
  abbrev pub with_parsed : {A : Type 0} → Option A → (A → Step (Unit {0})) → Step (Unit {0})
  with_parsed none f = raise exception
  with_parsed (some a) f = f a

  unfoldable pub handle : Kind → List ℕ → Step (Unit {0})
  handle query payload =
      with_parsed (parse_query payload) λ sql. handle_simple_query (session.str sql)
  handle parse payload = with_parsed (parse_parse payload) handle_parse
  handle bind payload = with_parsed (parse_bind payload) handle_bind
  handle describe payload = with_parsed (parse_describe payload) handle_describe
  handle execute payload = with_parsed (parse_execute payload) handle_execute
  handle close payload = with_parsed (parse_close payload) handle_close
  handle k payload = give tt

  abbrev pub ending :
      Result Error (Unit {0}) × World V S (PortalEntry Q) → Ending × World V S (PortalEntry Q)
  ending (ok u, w) = (returned, w)
  ending (err e, w) = (raised e, w)

  -- The handlers as the loop calls them.
  unfoldable pub handler : Handler V S (PortalEntry Q)
  handler k payload w = ending (handle k payload w)
