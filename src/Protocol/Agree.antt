-- ===== src/Protocol/Agree.antt =====
-- The simple and the extended protocol run a statement the same way.
use pg_mimic.Prelude.{
  ℕ, ◌+◌, false, ◌&&◌, not, ◌≡◌, refl, sym, ap, ◌∙◌, subst, List, [], ◌∷◌, ◌++◌, Option, none, some,
  ok, pos, length, if_true, arith, string_eq, beq_refl,
}
use pg_mimic.Prelude.Dict
use pg_mimic.Messages.Backend.{
  Backend, row_description, no_data, parse_complete, bind_complete, command_complete,
}
use pg_mimic.Connection.{Connection}
use pg_mimic.World.{World, on_state}
use pg_mimic.Middleware.Guard.{is_failed}
use pg_mimic.Wire.Messages.Parsers.{ParsedParse, ParsedExecute, ParsedDescribeOrClose}
use pg_mimic.Wire.Messages.Bind.{ParsedBind}
use pg_mimic.Protocol.Action.{◌>>>◌, from}
use pg_mimic.Protocol.Session.{ResultColumn, Row, PortalEntry, Session}
use pg_mimic.Protocol.Values.{refused, decode_params}
use pg_mimic.Protocol.Handlers.{
  Step, describe_row, execute_one_simple_statement, handle_parse, handle_bind, describe_portal,
  handle_describe, portal_rows, finish, after_rows, put_back, replaced, advanced, entry, run_entry,
  handle_execute,
}
use pg_mimic.Protocol.Ends.{
  Ends, Ends-from, Ends-read, Ends-then, Ends-known, Ends-emit, Ends-update, Ends-get_statement,
  Ends-get_portal, Ends-check_failed, Ends-rows, write_all, write_all_nil,
}
use pg_mimic.Protocol.Results.{results, results-handshake, same_end}
use pg_mimic.Protocol.Steady.{Shown, nothing, table, IsSteady, complete, Ends-simple}

module _ {V S Q C : Type 0} (session : Session V S Q C) (p : ℕ) where
  module _ (text name portal_name : List ℕ) (statement : S) (columns : Option (List ResultColumn))
      (portal spent : Q) (rows : List (Row C)) (shape ms : List Backend)
      (steady : IsSteady session
        (session.str text)
        statement
        columns
        portal
        spent
        rows
        shape
        ms) where
    abbrev last_of : Backend
    last_of = complete session p text statement columns portal spent rows shape ms steady

    -- The four messages of the extended protocol.
    abbrev pub parse_message : ParsedParse
    parse_message = record { statement_name = name; sql = text; param_oids = [] }

    abbrev pub bind_message : ParsedBind
    bind_message = record {
      portal_name = portal_name;
      statement_name = name;
      param_format_codes = [];
      params = [];
      result_format_codes = [];
    }

    abbrev pub describe_message : ParsedDescribeOrClose
    describe_message = record { target = b'P'; name = portal_name }

    abbrev pub execute_message : ParsedExecute
    execute_message = record { portal_name = portal_name; max_rows = pos 0 }

    abbrev pub extended : Step session p (Unit {0})
    extended = handle_parse session p parse_message >>> λ u.
        handle_bind session p bind_message >>> λ u.
        handle_describe session p describe_message >>> λ u. handle_execute session p execute_message

    abbrev after_parse : Connection V S (PortalEntry Q) → Connection V S (PortalEntry Q)
    after_parse c = write_all (parse_complete ∷ []) (
        on_state
          (λ s. record s { statements = Dict.insert (session.str name) statement s.statements }) c)

    Ends-parse :
        (c : Connection V S (PortalEntry Q))
        → Ends p c (handle_parse session p parse_message) (ok tt) (after_parse c)
    unfolding handle_parse
    Ends-parse c =
        Ends-then _ (Ends-read λ w h. steady.prepares w)
          (Ends-then _ (Ends-update session p _ c) (Ends-emit session p parse_complete _))

    -- the portal as Bind leaves it
    abbrev bound_entry : PortalEntry Q
    bound_entry = entry session p portal columns (session.sql_of statement) []

    abbrev after_bind : Connection V S (PortalEntry Q) → Connection V S (PortalEntry Q)
    after_bind c = write_all (bind_complete ∷ []) (
        on_state
          (λ s. record s { portals = Dict.insert (session.str portal_name) bound_entry s.portals })
          c)

    Ends-bind :
        (c : Connection V S (PortalEntry Q))
        → Dict.lookup (session.str name) c.state.statements ≡ some statement
        → Ends p c (handle_bind session p bind_message) (ok tt) (after_bind c)
    unfolding handle_bind decode_params
    Ends-bind c found =
        Ends-then _ (Ends-get_statement session p (session.str name) c statement found) (
          Ends-then _ (Ends-from (ok [])) (
            Ends-then _ (Ends-known steady.binds) (
              Ends-then _ (Ends-read λ w h. steady.describes w)
                (Ends-then _ (Ends-update session p _ c) (Ends-emit session p bind_complete _)))))

    -- what Describe answers in the extended protocol
    abbrev shape_of : Option (List ResultColumn) → List Backend → List Backend
    shape_of none described = no_data ∷ []
    shape_of (some cols) described = described

    Ends-describe_row :
        (c : Connection V S (PortalEntry Q)) (cols : Option (List ResultColumn)) (rs : List (Row C))
        (described shown : List Backend)
        → Shown session cols rs described shown
        → Ends p c (describe_row session p [] cols) (ok tt) (write_all (shape_of cols described) c)
    unfolding describe_row
    Ends-describe_row c _ rs _ _ nothing = Ends-emit session p no_data c
    Ends-describe_row c _ rs _ _ (table {columns = cols} {specs = specs} e shown) =
        Ends-then _ (Ends-known e) (Ends-emit session p (row_description specs) c)

    Ends-describe :
        (c : Connection V S (PortalEntry Q))
        → Dict.lookup (session.str portal_name) c.state.portals ≡ some bound_entry
        → Ends p c
            (handle_describe session p describe_message)
            (ok tt)
            (write_all (shape_of columns shape) c)
    unfolding handle_describe describe_portal
    Ends-describe c found =
        Ends-then _ (Ends-get_portal session p (session.str portal_name) c bound_entry found)
          (Ends-describe_row c columns rows shape ms steady.shows)

    Ends-portal_rows :
        (c : Connection V S (PortalEntry Q)) (cols : Option (List ResultColumn)) (rs : List (Row C))
        (described shown : List Backend)
        → Shown session cols rs described shown
        → Ends p c (portal_rows session p bound_entry cols rs) (ok tt) (write_all shown c)
    unfolding portal_rows
    Ends-portal_rows c _ rs _ _ nothing =
        subst (Ends p c (from (ok tt)) (ok tt)) (sym (write_all_nil session p c))
          (Ends-from (ok tt))
    Ends-portal_rows c _ rs _ _ (table {columns = cols} e shown) =
        Ends-rows session p refused (λ values. refl) [] cols c shown

    -- the entry after the one execution
    abbrev used : PortalEntry Q
    used = advanced session p bound_entry spent (length rows)

    abbrev after_put : Connection V S (PortalEntry Q) → Connection V S (PortalEntry Q)
    after_put c =
        on_state
          (λ s. record s {
            portals =
                replaced session p (session.str portal_name) used
                  (Dict.lookup (session.str portal_name) s.portals) s.portals;
          })
          c

    Ends-execute :
        (c : Connection V S (PortalEntry Q))
        → Dict.lookup (session.str portal_name) c.state.portals ≡ some bound_entry
        → is_failed c.tx_status && not (session.allowed (session.str text)) ≡ false
        → Ends p c (handle_execute session p execute_message) (ok tt) (
            write_all
              (command_complete (session.command_tag (session.sql_of statement) (0 + length rows))
                ∷ [])
              (write_all ms (after_put c)))
    unfolding handle_execute run_entry after_rows put_back finish
    Ends-execute c found may =
        Ends-then _ (Ends-get_portal session p (session.str portal_name) c bound_entry found) (
          Ends-then _
            (Ends-check_failed session p (session.sql_of statement) c (rw (steady.named) may))
            (rw (steady.no_copy_portal) (
              Ends-then _ (Ends-read λ w h. steady.runs w) (
                Ends-then _ (Ends-update session p _ c) (
                  Ends-then _ (Ends-portal_rows (after_put c) columns rows shape ms steady.shows)
                    (Ends-emit session p _ _))))))

    at_portal :
        (c : Connection V S (PortalEntry Q))
        → Dict.lookup (session.str portal_name) (after_bind c).state.portals ≡ some bound_entry
    at_portal c =
        Dict.lookup-insert (session.str portal_name) (session.str portal_name) bound_entry
          c.state.portals
        ∙ if_true _ _ (beq_refl (session.str portal_name))

    at_statement :
        (c : Connection V S (PortalEntry Q))
        → Dict.lookup (session.str name) (after_parse c).state.statements ≡ some statement
    at_statement c =
        Dict.lookup-insert (session.str name) (session.str name) statement c.state.statements
        ∙ if_true _ _ (beq_refl (session.str name))

    -- the connection before and after Execute
    abbrev ready_to_run : Connection V S (PortalEntry Q) → Connection V S (PortalEntry Q)
    ready_to_run c = write_all (shape_of columns shape) (after_bind (after_parse c))

    abbrev after_extended : Connection V S (PortalEntry Q) → Connection V S (PortalEntry Q)
    after_extended c =
        write_all
          (command_complete (session.command_tag (session.sql_of statement) (0 + length rows)) ∷ [])
          (write_all ms (after_put (ready_to_run c)))

    Ends-extended :
        (c : Connection V S (PortalEntry Q))
        → is_failed c.tx_status && not (session.allowed (session.str text)) ≡ false
        → Ends p c extended (ok tt) (after_extended c)
    Ends-extended c may = Ends-then _ (Ends-parse c) (
        Ends-then _ (Ends-bind (after_parse c) (at_statement c)) (
          Ends-then _ (Ends-describe (after_bind (after_parse c)) (at_portal (after_parse c)))
            (Ends-execute (ready_to_run c) (at_portal (after_parse c)) may)))

    results-shape :
        (cols : Option (List ResultColumn)) (rs : List (Row C)) (described shown : List Backend)
        → Shown session cols rs described shown
        → results (shape_of cols described) ≡ results described
    results-shape _ rs _ _ nothing = refl
    results-shape _ rs _ _ (table e shown) = refl

    results-agree :
        (c : Connection V S (PortalEntry Q))
        → results (after_extended c).written
          ≡ results (write_all (last_of ∷ []) (write_all ms (write_all shape c))).written
    results-agree c =
        same_end (handshake ++ shape_of columns shape ++ ms) (c.written ++ shape ++ ms) _ _
          (same_end (handshake ++ shape_of columns shape) (c.written ++ shape) ms ms
            (same_end handshake c.written (shape_of columns shape) shape begins
              (results-shape columns rows shape ms steady.shows))
            refl)
          (ap (λ sql. command_complete (session.command_tag sql (0 + length rows)) ∷ [])
              steady.named
            ∙ ap (λ n. command_complete (session.command_tag (session.str text) n) ∷ []) counted)
      where
        handshake : List Backend
        handshake = c.written ++ parse_complete ∷ [] ++ bind_complete ∷ []

        begins : results handshake ≡ results c.written
        begins =
            results-handshake (c.written ++ parse_complete ∷ []) bind_complete refl
            ∙ results-handshake c.written parse_complete refl

        counted : 0 + length rows ≡ length rows
        counted = omega arith

    -- A statement that leaves the server as it is, whose rows all encode as text and that is not
    -- refused in a failed transaction, run by the simple protocol, and the same text sent by Parse,
    -- Bind without parameters, Describe of the portal and Execute without a limit: both end well,
    -- and the client is sent the same messages, but for ParseComplete, BindComplete and NoData.
    pub extended-agrees :
        (w : World V S (PortalEntry Q))
        → is_failed (w.heap p).tx_status && not (session.allowed (session.str text)) ≡ false
        → ((extended w).0 ≡ ok tt)
          × ((execute_one_simple_statement session p (session.str text) w).0 ≡ ok tt)
          × (results ((extended w).1.heap p).written
              ≡ results
                  ((execute_one_simple_statement session p (session.str text) w).1.heap p).written)
    extended-agrees w may =
        let by_extended = Ends-extended (w.heap p) may in
        let by_simple =
          Ends-simple session p text statement columns portal spent rows shape ms steady (w.heap p)
            may in
        (
          by_extended.result w refl,
          by_simple.result w refl,
          ap (λ c. results c.written) (by_extended.state w refl)
              ∙ results-agree (w.heap p)
              ∙ ap (λ c. results c.written) (sym (by_simple.state w refl)),
        )
