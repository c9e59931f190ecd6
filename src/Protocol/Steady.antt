-- ===== src/Protocol/Steady.antt =====
-- A statement that leaves the server alone, run by the simple protocol.
use pg_mimic.Prelude.{
  ℕ, String, Bool, false, ◌&&◌, not, ◌≡◌, refl, sym, ◌∙◌, subst, List, [], ◌∷◌, Option, none, some,
  Result, ok, pos, length, string_eq, ◌==◌,
}
use pg_mimic.Errors.{Error}
use pg_mimic.Messages.Backend.{Backend, row_description, command_complete, FieldSpec}
use pg_mimic.Connection.{Connection}
use pg_mimic.World.{World}
use pg_mimic.Middleware.Guard.{is_failed}
use pg_mimic.Protocol.Action.{from}
use pg_mimic.Protocol.Session.{ResultColumn, Row, PortalEntry, Session}
use pg_mimic.Protocol.Values.{field_specs}
use pg_mimic.Protocol.Handlers.{
  emit, describe_row, simple_rows, run_simple, prepared_simple, run_filled,
  execute_one_simple_statement, sql_or,
}
use pg_mimic.Protocol.Ends.{
  Ends, Ends-from, Ends-read, Ends-then, Ends-known, Ends-emit, Ends-check_failed, Ends-rows,
  EncodedAs, write_all, write_all_nil,
}

-- What a result looks like: its description, and its rows as messages.
pub data Shown {V S Q C : Type 0} (session : Session V S Q C)
    : Option (List ResultColumn) → List (Row C) → List Backend → List Backend → Type 0 where
  nothing : {rows : List (Row C)} → Shown session none rows [] []
  table :
      {columns : List ResultColumn} {specs : List FieldSpec} {rows : List (Row C)}
      {ms : List Backend}
      → field_specs [] 0 columns ≡ ok specs
      → EncodedAs session [] columns rows ms
      → Shown session (some columns) rows (row_description specs ∷ []) ms

-- A statement that does nothing to the server and whose rows are all encoded as text: every step of
-- it, as the session takes it.
pub record IsSteady {V S Q C : Type 0} (session : Session V S Q C) (sql : String) (statement : S)
    (columns : Option (List ResultColumn)) (portal spent : Q) (rows : List (Row C))
    (shape ms : List Backend) : Type 0 where
  pub filled : session.is_blank sql ≡ false
  pub worded : (sql == "") ≡ false
  pub prepares : (w : World V S (PortalEntry Q)) → session.prepare sql [] w ≡ (ok statement, w)
  pub named : session.sql_of statement ≡ sql
  pub no_copy_statement : session.is_copy_statement statement ≡ false
  pub no_copy_portal : session.is_copy_portal portal ≡ false
  pub describes : (w : World V S (PortalEntry Q)) → session.describe statement w ≡ (ok columns, w)
  pub binds : session.make_portal statement [] ≡ ok portal
  pub runs :
      (w : World V S (PortalEntry Q))
      → session.run_portal portal (pos 0) w ≡ (ok (ok (rows, false), spent), w)
  pub shows : Shown session columns rows shape ms

module _ {V S Q C : Type 0} (session : Session V S Q C) (p : ℕ) where
  Ends-simple_rows :
      (c : Connection V S (PortalEntry Q)) (columns : Option (List ResultColumn))
      (rows : List (Row C)) (shape ms : List Backend)
      → Shown session columns rows shape ms
      → Ends p c (simple_rows session p columns rows) (ok tt) (write_all ms (write_all shape c))
  unfolding simple_rows describe_row
  Ends-simple_rows c _ rows _ _ nothing =
      subst (Ends p c (from (ok tt)) (ok tt))
        (sym (write_all_nil session p (write_all [] c) ∙ write_all_nil session p c))
        (Ends-from (ok tt))
  Ends-simple_rows c _ rows _ _ (table {columns} {specs} e shown) =
      Ends-then _ (Ends-then _ (Ends-known e) (Ends-emit session p (row_description specs) c))
        (Ends-rows session p (λ r. r) (λ values. refl) [] columns _ shown)

  module _ (text : List ℕ) (statement : S) (columns : Option (List ResultColumn)) (portal spent : Q)
      (rows : List (Row C)) (shape ms : List Backend)
      (steady : IsSteady session
        (session.str text)
        statement
        columns
        portal
        spent
        rows
        shape
        ms) where
    abbrev pub complete : Backend
    complete = command_complete (session.command_tag (session.str text) (length rows))

    sql_or-steady : sql_or session p (session.str text) statement ≡ session.str text
    sql_or-steady = rw (steady.named, steady.worded) refl

    Ends-complete :
        (c : Connection V S (PortalEntry Q))
        → Ends p c
            (emit session p (
              command_complete (
                session.command_tag (sql_or session p (session.str text) statement) (length rows))))
            (ok tt)
            (write_all (complete ∷ []) c)
    Ends-complete c = rw sql_or-steady (Ends-emit session p complete c)

    -- what the portal's execution gives
    abbrev outcome : Result Error (List (Row C) × Bool)
    outcome = ok (rows, false)

    Ends-run_simple :
        (c : Connection V S (PortalEntry Q))
        → Ends p c
            (run_simple session p (session.str text) statement)
            (ok tt)
            (write_all (complete ∷ []) (write_all ms (write_all shape c)))
    unfolding run_simple
    Ends-run_simple c = Ends-then _ (Ends-read λ w h. steady.describes w) (
        Ends-then _ (Ends-known steady.binds) (
          Ends-then _ (Ends-read λ w h. steady.runs w) (
            Ends-then _ (Ends-from outcome) (
              Ends-then _ (Ends-simple_rows c columns rows shape ms steady.shows)
                (Ends-complete _)))))

    pub Ends-simple :
        (c : Connection V S (PortalEntry Q))
        → is_failed c.tx_status && not (session.allowed (session.str text)) ≡ false
        → Ends p c
            (execute_one_simple_statement session p (session.str text))
            (ok tt)
            (write_all (complete ∷ []) (write_all ms (write_all shape c)))
    unfolding execute_one_simple_statement run_filled prepared_simple
    Ends-simple c may = Ends-then _ (Ends-check_failed session p (session.str text) c may) (
        rw (steady.filled) (
          Ends-then _ (Ends-read λ w h. steady.prepares w)
            (rw (steady.no_copy_statement) (Ends-run_simple c))))
