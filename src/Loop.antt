-- ===== src/Loop.antt =====
-- pg_mimic/connection.py, `_command_loop` and `_dispatch`: one message at a time, with the handlers
-- of the single messages as a parameter. `p` is the connection that the loop serves.
pub mod Silent
pub mod Ready
pub mod Skips
use pg_mimic.Prelude.{
  ℕ, String, Bool, true, false, not, ◌&&◌, ◌||◌, ◌≡◌, List, [], ◌∷◌, if◌then◌else◌,
}
use pg_mimic.Errors.{
  Error, pg_error, protocol_violation, connection_closed, value_error, exception,
  protocol_violation_state, query_canceled,
}
use pg_mimic.Messages.Backend.{ready_for_query}
use pg_mimic.Connection.{Connection}
use pg_mimic.Connection
use pg_mimic.World.{World, on}
use pg_mimic.Middleware.Guard.{report_error}

-- the tags of messages.py that a client sends, and `unknown` for every other byte
pub data Kind : Type 0 where
  query parse bind describe execute close sync flush terminate copy_data copy_done copy_fail : Kind
  unknown : Kind

pub record Message : Type 0 where
  pub kind : Kind
  pub payload : List ℕ

abbrev pub is_query_or_sync : Kind → Bool
is_query_or_sync query = true
is_query_or_sync sync = true
is_query_or_sync _ = false

abbrev pub is_sync_or_terminate : Kind → Bool
is_sync_or_terminate sync = true
is_sync_or_terminate terminate = true
is_sync_or_terminate _ = false

abbrev pub is_terminate : Kind → Bool
is_terminate terminate = true
is_terminate _ = false

abbrev pub is_copy : Kind → Bool
is_copy copy_data = true
is_copy copy_done = true
is_copy copy_fail = true
is_copy _ = false

-- How a task ends: it returns, it raises, or the client cancelled it.
pub data Ending : Type 0 where
  returned : Ending
  raised : Error → Ending
  cancelled : Ending

-- a handler such as `_handle_parse`, with the parser of its message
abbrev pub Handler : Type 0 → Type 0 → Type 0 → Type 0
Handler V S P = Kind → List ℕ → World V S P → Ending × World V S P

-- how the loop ends, the messages it served, and the server afterwards
abbrev pub Served : Type 0 → Type 0 → Type 0 → Type 0
Served V S P = Ending × List Message × World V S P

module _ {V S P : Type 0} where
  -- the chain of tests on the tag
  unfoldable pub by_tag : Handler V S P → Kind → List ℕ → World V S P → Ending × World V S P
  by_tag handler sync payload w = (returned, w)
  by_tag handler flush payload w = (returned, w)
  by_tag handler unknown payload w = (raised (pg_error protocol_violation_state), w)
  by_tag handler terminate payload w = (raised (pg_error protocol_violation_state), w)
  by_tag handler k payload w = handler k payload w

  -- the except clauses of _dispatch
  unfoldable pub answered : ℕ → Ending × World V S P → Ending × World V S P
  unfolding report_error
  answered p (raised (protocol_violation s), w) = (raised (protocol_violation s), w)
  answered p (raised connection_closed, w) = (raised connection_closed, w)
  answered p (raised (pg_error s), w) = (returned, on p (report_error (pg_error s)) w)
  answered p (raised value_error, w) = (returned, on p (report_error value_error) w)
  answered p (raised exception, w) = (returned, on p (report_error exception) w)
  answered p (returned, w) = (returned, w)
  answered p (cancelled, w) = (cancelled, w)

  unfoldable pub dispatch : Handler V S P → ℕ → Message → World V S P → Ending × World V S P
  unfolding by_tag answered
  dispatch handler p m w =
      if (w.heap p).ignore_until_sync && not (is_sync_or_terminate m.kind)
      then (returned, w)
      else if is_copy m.kind
      then (returned, w)
      else answered p (by_tag handler m.kind m.payload w)

  -- ParameterStatus reports, async messages and ReadyForQuery, after a Query or a Sync
  unfoldable pub ready : Connection V S P → Connection V S P
  unfolding Connection.flush_parameter_status Connection.flush_async Connection.write
  ready c =
      record (Connection.write (ready_for_query c.tx_status)
        (Connection.flush_async (Connection.flush_parameter_status c))) {
          ignore_until_sync = false;
          at_ready_for_query = true;
        }

  unfoldable pub closing : Kind → ℕ → World V S P → World V S P
  unfolding ready
  closing k p w = if is_query_or_sync k then on p ready w else w

  -- what the loop does with the task's ending: an error that is raised here leaves the loop
  unfoldable pub finished : Kind → ℕ → Ending × World V S P → Ending × World V S P
  unfolding closing report_error
  finished k p (raised e, w) = (raised e, w)
  finished k p (cancelled, w) =
      (returned, closing k p (on p (report_error (pg_error query_canceled)) w))
  finished k p (returned, w) = (returned, closing k p w)

  abbrev pub leave_ready : Connection V S P → Connection V S P
  leave_ready c = record c { at_ready_for_query = false }

  -- one turn of the loop on a message that is not Terminate
  unfoldable pub turn : Handler V S P → ℕ → Message → World V S P → Ending × World V S P
  unfolding finished dispatch
  turn handler p m w = finished m.kind p (dispatch handler p m (on p leave_ready w))

  unfoldable pub next : (World V S P → Served V S P) → Message → Ending × World V S P → Served V S P
  next rest m (returned, w) = ((rest w).0, m ∷ (rest w).1, (rest w).2)
  next rest m (raised e, w) = (raised e, [], w)
  next rest m (cancelled, w) = (cancelled, [], w)

  -- The loop on the messages of the client. It returns at Terminate, and here also at the end of
  -- the list, where the source waits for the next message.
  unfoldable pub command_loop : Handler V S P → ℕ → List Message → World V S P → Served V S P
  unfolding turn next
  command_loop handler p [] w = (returned, [], w)
  command_loop handler p (m ∷ ms) w =
      if is_terminate m.kind
      then (returned, [], on p leave_ready w)
      else next (command_loop handler p ms) m (turn handler p m w)
