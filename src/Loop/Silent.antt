-- ===== src/Loop/Silent.antt =====
-- What a connection is sent before a message is answered: no ReadyForQuery, whatever the handlers
-- do and however they end.
use pg_mimic.Prelude.{
  ℕ, ◌+◌, ◌≡◌, refl, sym, ◌∙◌, subst, String, Bool, true, false, not, ◌&&◌, List, [], ◌∷◌, ◌++◌,
  if◌then◌else◌, if_true, nat_beq_refl, arith,
}
use pg_mimic.Prelude.Dict.{Dict}
use pg_mimic.Errors.{Error, pg_error, protocol_violation, connection_closed, value_error, exception}
use pg_mimic.Messages.Backend.{Backend, ready_for_query, error_response}
use pg_mimic.Connection.{Connection, reports}
use pg_mimic.Connection
use pg_mimic.World.{World, on}
use pg_mimic.Middleware.Guard.{report_error, sqlstate_of}
use pg_mimic.Loop.{
  Kind, sync, flush, unknown, terminate, Message, Ending, returned, raised, cancelled, Handler,
  is_query_or_sync, is_copy, is_sync_or_terminate, by_tag, answered, dispatch,
}

abbrev pub is_ready : Backend → ℕ
is_ready (ready_for_query s) = 1
is_ready _ = 0

-- How many ReadyForQuery messages a stream holds.
abbrev pub readies : List Backend → ℕ
readies [] = 0
readies (m ∷ ms) = is_ready m + readies ms

-- How many of the messages are Query or Sync.
abbrev pub rounds : List Message → ℕ
rounds [] = 0
rounds (m ∷ ms) = (if is_query_or_sync m.kind then 1 else 0) + rounds ms

pub readies-append : (a b : List Backend) → readies (a ++ b) ≡ readies a + readies b
readies-append [] b = omega arith
readies-append (m ∷ a) b = omega (arith, readies-append a b)

pub readies-reports : (d : Dict String String) → readies (reports d) ≡ 0
readies-reports [] = refl
readies-reports ((name, value) ∷ d) = omega (arith, readies-reports d)

-- The number of ReadyForQuery that the connection `p` has been sent.
abbrev pub sent : {V S P : Type 0} → ℕ → World V S P → ℕ
sent p w = readies (w.heap p).written

-- From one state of a connection to a later one no ReadyForQuery was sent, and none was queued.
pub record IsSilent {V S P : Type 0} (c d : Connection V S P) : Type 0 where
  pub sends : readies d.written ≡ readies c.written
  pub queues : readies c.pending_async ≡ 0 → readies d.pending_async ≡ 0

module _ {V S P : Type 0} where
  -- No handler sends ReadyForQuery: the loop does.
  unfoldable pub NeverReady : Handler V S P → ℕ → Type 0
  NeverReady handler p =
      (k : Kind) (payload : List ℕ) (w : World V S P)
      → IsSilent (w.heap p) ((handler k payload w).1.heap p)

  pub on_self :
      (p : ℕ) (f : Connection V S P → Connection V S P) (w : World V S P)
      → (on p f w).heap p ≡ f (w.heap p)
  on_self p f w = if_true _ _ (nat_beq_refl p)

  pub IsSilent-refl : (c : Connection V S P) → IsSilent c c
  IsSilent-refl c = record { sends = refl; queues = λ h. h }

  pub IsSilent-report_error : (e : Error) (c : Connection V S P) → IsSilent c (report_error e c)
  unfolding report_error Connection.write
  IsSilent-report_error e c = record {
    sends = omega (arith, readies-append c.written (error_response (sqlstate_of e) ∷ []));
    queues = λ h. h;
  }

  pub IsSilent-on :
      (p : ℕ) (f : Connection V S P → Connection V S P) (w : World V S P)
      → ((c : Connection V S P) → IsSilent c (f c))
      → IsSilent (w.heap p) ((on p f w).heap p)
  IsSilent-on p f w h = subst (IsSilent (w.heap p)) (sym (on_self p f w)) (h (w.heap p))

  pub IsSilent-trans : {c d e : Connection V S P} → IsSilent c d → IsSilent d e → IsSilent c e
  IsSilent-trans h k = record { sends = k.sends ∙ h.sends; queues = λ q. k.queues (h.queues q) }

  IsSilent-answered :
      (p : ℕ) (c : Connection V S P) (out : Ending × World V S P)
      → IsSilent c (out.1.heap p)
      → IsSilent c ((answered p out).1.heap p)
  unfolding answered
  IsSilent-answered p c (returned, w) h = h
  IsSilent-answered p c (cancelled, w) h = h
  IsSilent-answered p c (raised (protocol_violation s), w) h = h
  IsSilent-answered p c (raised connection_closed, w) h = h
  IsSilent-answered p c (raised (pg_error s), w) h =
      IsSilent-trans h
        (IsSilent-on p (report_error (pg_error s)) w (IsSilent-report_error (pg_error s)))
  IsSilent-answered p c (raised value_error, w) h =
      IsSilent-trans h
        (IsSilent-on p (report_error value_error) w (IsSilent-report_error value_error))
  IsSilent-answered p c (raised exception, w) h =
      IsSilent-trans h (IsSilent-on p (report_error exception) w (IsSilent-report_error exception))

  module _ (handler : Handler V S P) (p : ℕ) (never : NeverReady handler p) where
    IsSilent-by_tag :
        (k : Kind) (payload : List ℕ) (w : World V S P)
        → IsSilent (w.heap p) ((by_tag handler k payload w).1.heap p)
    unfolding by_tag NeverReady
    IsSilent-by_tag sync payload w = IsSilent-refl (w.heap p)
    IsSilent-by_tag flush payload w = IsSilent-refl (w.heap p)
    IsSilent-by_tag unknown payload w = IsSilent-refl (w.heap p)
    IsSilent-by_tag terminate payload w = IsSilent-refl (w.heap p)
    IsSilent-by_tag k payload w = never k payload w

    IsSilent-if :
        (b : Bool) (c : Connection V S P) (x y : Ending × World V S P)
        → IsSilent c (x.1.heap p)
        → IsSilent c (y.1.heap p)
        → IsSilent c ((if b then x else y).1.heap p)
    IsSilent-if true c x y h k = h
    IsSilent-if false c x y h k = k

    pub IsSilent-dispatch :
        (m : Message) (w : World V S P) → IsSilent (w.heap p) ((dispatch handler p m w).1.heap p)
    unfolding dispatch
    IsSilent-dispatch m w =
        IsSilent-if ((w.heap p).ignore_until_sync && not (is_sync_or_terminate m.kind)) (w.heap p)
          (returned, w)
          (if is_copy m.kind then (returned, w) else answered p (by_tag handler m.kind m.payload w))
          (IsSilent-refl (w.heap p))
          (IsSilent-if (is_copy m.kind) (w.heap p) (returned, w)
            (answered p (by_tag handler m.kind m.payload w)) (IsSilent-refl (w.heap p))
            (IsSilent-answered p (w.heap p) (by_tag handler m.kind m.payload w)
              (IsSilent-by_tag m.kind m.payload w)))
