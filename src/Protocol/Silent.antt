-- ===== src/Protocol/Silent.antt =====
-- The handlers leave ReadyForQuery to the loop, if the session does.
use pg_mimic.Prelude.{
  ℕ, ◌+◌, String, Bool, ◌≡◌, refl, List, [], Option, none, some, Result, ok, err, pos, string_eq,
}
use pg_mimic.Prelude.Dict
use pg_mimic.Errors.{Error}
use pg_mimic.Messages.Backend.{command_complete}
use pg_mimic.Connection.{Connection}
use pg_mimic.World.{World}
use pg_mimic.Loop.{Kind, query, parse, bind, describe, execute, close, Message, command_loop}
use pg_mimic.Loop.Silent.{readies, rounds, sent, IsSilent, NeverReady}
use pg_mimic.Loop.Ready.{command_loop-readies}
use pg_mimic.Wire.Messages.Parsers.{
  parse_query, ParsedParse, parse_parse, ParsedExecute, parse_execute, ParsedDescribeOrClose,
  parse_describe, parse_close,
}
use pg_mimic.Wire.Messages.Bind.{ParsedBind, parse_bind}
use pg_mimic.Protocol.Session.{ResultColumn, Row, PortalEntry, Session}
use pg_mimic.Protocol.Handlers.{
  Step, get_statement, get_portal, put_back, run_simple, run_copy, prepared_simple, run_filled,
  execute_one_simple_statement, handle_simple_query, handle_parse, handle_bind, describe_statement,
  describe_portal, handle_describe, portal_rows, finish, after_rows, run_entry, handle_execute,
  handle_close, with_parsed, handle, ending, handler, is_statement_target,
}
use pg_mimic.Protocol.Quiet.{
  Silent, IsSilentSession, Silent-from, Silent-then, Silent-for_each, Silent-if, Silent-emit,
  Silent-update, Silent-read_known, Silent-check_failed, Silent-write_row, Silent-describe_row,
  Silent-simple_rows,
}

module _ {V S Q C : Type 0} (session : Session V S Q C) (p : ℕ)
    (quiet : IsSilentSession session p) where
  Silent-run_simple : (sql : String) (statement : S) → Silent p (run_simple session p sql statement)
  unfolding run_simple
  Silent-run_simple sql statement = Silent-then _ (quiet.describes statement) λ columns.
      Silent-then _ (Silent-from (session.make_portal statement [])) λ portal.
        Silent-then _ (quiet.runs portal (pos 0)) λ done.
          Silent-then _ (Silent-from done.0) λ result.
            Silent-then _ (Silent-simple_rows session p columns result.0)
              λ u. Silent-emit session p (command_complete _) refl

  Silent-run_copy : (statement : S) → Silent p (run_copy session p statement)
  unfolding run_copy
  Silent-run_copy statement =
      Silent-then _
        (Silent-if (session.is_copy_in statement) (quiet.copies_in statement)
          (quiet.copies_out statement))
        λ row_count. Silent-emit session p (command_complete _) refl

  Silent-run_filled : (sql : String) → Silent p (run_filled session p sql)
  unfolding run_filled prepared_simple
  Silent-run_filled sql = Silent-if (session.is_blank sql) (Silent-emit session p _ refl) (
      Silent-then _ (quiet.prepares sql []) λ statement.
        Silent-if (session.is_copy_statement statement) (Silent-run_copy statement)
          (Silent-run_simple sql statement))

  Silent-execute_one_simple_statement :
      (sql : String) → Silent p (execute_one_simple_statement session p sql)
  unfolding execute_one_simple_statement
  Silent-execute_one_simple_statement sql =
      Silent-then _ (Silent-check_failed session p sql) λ u. Silent-run_filled sql

  Silent-handle_simple_query : (sql : String) → Silent p (handle_simple_query session p sql)
  unfolding handle_simple_query
  Silent-handle_simple_query sql =
      Silent-if (session.is_blank sql) (Silent-emit session p _ refl)
        (Silent-for_each _ Silent-execute_one_simple_statement (session.split_statements sql))

  Silent-handle_parse : (parsed : ParsedParse) → Silent p (handle_parse session p parsed)
  unfolding handle_parse
  Silent-handle_parse parsed =
      Silent-then _ (quiet.prepares _ _)
        λ statement. Silent-then _ (Silent-update session p _) λ u. Silent-emit session p _ refl

  Silent-get_statement : (name : String) → Silent p (get_statement session p name)
  unfolding get_statement
  Silent-get_statement name = Silent-read_known session p λ s. Dict.lookup name s.statements

  Silent-get_portal : (name : String) → Silent p (get_portal session p name)
  unfolding get_portal
  Silent-get_portal name = Silent-read_known session p λ s. Dict.lookup name s.portals

  Silent-handle_bind : (parsed : ParsedBind) → Silent p (handle_bind session p parsed)
  unfolding handle_bind
  Silent-handle_bind parsed = Silent-then _ (Silent-get_statement _) λ statement.
      Silent-then _ (Silent-from _) λ params.
        Silent-then _ (Silent-from (session.make_portal statement params)) λ portal.
          Silent-then _ (quiet.describes statement)
            λ columns. Silent-then _ (Silent-update session p _) λ u. Silent-emit session p _ refl

  Silent-handle_describe :
      (parsed : ParsedDescribeOrClose) → Silent p (handle_describe session p parsed)
  unfolding handle_describe describe_statement describe_portal
  Silent-handle_describe parsed =
      Silent-if (is_statement_target parsed.target)
        (Silent-then _ (Silent-get_statement _) λ statement.
          Silent-then _ (Silent-emit session p _ refl) λ u.
            Silent-then _ (quiet.describes statement)
              λ columns. Silent-describe_row session p [] columns)
        (Silent-then _ (Silent-get_portal _)
          λ e. Silent-describe_row session p e.result_format_codes e.columns)

  Silent-portal_rows :
      (e : PortalEntry Q) (columns : Option (List ResultColumn)) (rows : List (Row C))
      → Silent p (portal_rows session p e columns rows)
  unfolding portal_rows
  Silent-portal_rows e none rows = Silent-from (ok tt)
  Silent-portal_rows e (some columns) rows =
      Silent-for_each _ (Silent-write_row session p _ _ columns) rows

  Silent-finish : (e : PortalEntry Q) (suspended : Bool) → Silent p (finish session p e suspended)
  unfolding finish
  Silent-finish e suspended =
      Silent-if suspended (Silent-emit session p _ refl) (Silent-emit session p _ refl)

  Silent-after_rows :
      (name : String) (e : PortalEntry Q) (out : Result Error (List (Row C) × Bool) × Q)
      → Silent p (after_rows session p name e out)
  unfolding after_rows put_back
  Silent-after_rows name e (err error, portal) =
      Silent-then _ (Silent-update session p _) λ u. Silent-from (err error)
  Silent-after_rows name e (ok result, portal) =
      Silent-then _ (Silent-update session p _)
        λ u. Silent-then _ (Silent-portal_rows e e.columns result.0) λ u. Silent-finish _ result.1

  Silent-handle_execute : (parsed : ParsedExecute) → Silent p (handle_execute session p parsed)
  unfolding handle_execute run_entry
  Silent-handle_execute parsed = Silent-then _ (Silent-get_portal _) λ e.
      Silent-then _ (Silent-check_failed session p e.sql) λ u.
        Silent-if (session.is_copy_portal e.portal)
          (Silent-run_copy (session.copied_statement e.portal))
          (Silent-then _ (quiet.runs e.portal parsed.max_rows) (Silent-after_rows _ e))

  Silent-handle_close : (parsed : ParsedDescribeOrClose) → Silent p (handle_close session p parsed)
  unfolding handle_close
  Silent-handle_close parsed =
      Silent-then _
        (Silent-if (is_statement_target parsed.target) (Silent-update session p _)
          (Silent-update session p _))
        λ u. Silent-emit session p _ refl

  Silent-with_parsed :
      {A : Type 0} (parsed : Option A) (f : A → Step session p (Unit {0}))
      → ((a : A) → Silent p (f a))
      → Silent p (with_parsed session p parsed f)
  Silent-with_parsed none f each = Silent-from (err _)
  Silent-with_parsed (some a) f each = each a

  Silent-handle : (k : Kind) (payload : List ℕ) → Silent p (handle session p k payload)
  unfolding handle
  Silent-handle query payload =
      Silent-with_parsed (parse_query payload) _ λ sql. Silent-handle_simple_query (session.str sql)
  Silent-handle parse payload = Silent-with_parsed (parse_parse payload) _ Silent-handle_parse
  Silent-handle bind payload = Silent-with_parsed (parse_bind payload) _ Silent-handle_bind
  Silent-handle describe payload =
      Silent-with_parsed (parse_describe payload) _ Silent-handle_describe
  Silent-handle execute payload = Silent-with_parsed (parse_execute payload) _ Silent-handle_execute
  Silent-handle close payload = Silent-with_parsed (parse_close payload) _ Silent-handle_close
  Silent-handle k payload = Silent-from (ok tt)

  IsSilent-ending :
      (c : Connection V S (PortalEntry Q))
      (out : Result Error (Unit {0}) × World V S (PortalEntry Q))
      → IsSilent c (out.1.heap p)
      → IsSilent c ((ending session p out).1.heap p)
  IsSilent-ending c (ok u, w) h = h
  IsSilent-ending c (err e, w) h = h

  -- The handlers never send or queue a ReadyForQuery, if the session's operations do not.
  pub handler-NeverReady : NeverReady (handler session p) p
  unfolding handler NeverReady
  handler-NeverReady k payload w =
      IsSilent-ending (w.heap p) (handle session p k payload w)
        ((Silent-handle k payload).silently w)

  -- Over any session whose operations send and queue no ReadyForQuery, a connection that serves
  -- messages with its handlers sends one for each Query and each Sync it serves and none for any
  -- other message, whatever raises, if none is queued at the start.
  pub serve-readies :
      (ms : List Message) (w : World V S (PortalEntry Q))
      → readies (w.heap p).pending_async ≡ 0
      → sent p (command_loop (handler session p) p ms w).2
        ≡ sent p w + rounds (command_loop (handler session p) p ms w).1
  serve-readies = command_loop-readies (handler session p) p handler-NeverReady
