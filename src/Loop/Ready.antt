-- ===== src/Loop/Ready.antt =====
-- ReadyForQuery: one for each Query and each Sync, whatever the handlers do and however they end.
use pg_mimic.Prelude.{
  ap, ℕ, ◌+◌, ◌≡◌, refl, sym, subst, List, [], ◌∷◌, ◌++◌, if◌then◌else◌, Bool-cases, inl, inr,
  arith,
}
use pg_mimic.Errors.{pg_error, query_canceled}
use pg_mimic.Messages.Backend.{ready_for_query}
use pg_mimic.Connection.{Connection, reports}
use pg_mimic.Connection
use pg_mimic.World.{World, on}
use pg_mimic.Middleware.Guard.{report_error}
use pg_mimic.Loop.{
  Kind, Message, Ending, returned, raised, cancelled, Handler, Served, is_query_or_sync,
  is_terminate, dispatch, ready, closing, finished, leave_ready, turn, next, command_loop,
}
use pg_mimic.Loop.Silent.{
  readies, rounds, sent, readies-append, readies-reports, IsSilent, NeverReady, on_self,
  IsSilent-trans, IsSilent-on, IsSilent-report_error, IsSilent-dispatch,
}

-- ReadyForQuery messages due for a message whose turn ends so.
abbrev due : Ending → Kind → ℕ
due returned k = if is_query_or_sync k then 1 else 0
due (raised e) k = 0
due cancelled k = 0

-- A turn that ends so takes a connection from `c` to `d`.
record IsRound {V S P : Type 0} (c : Connection V S P) (n : ℕ) (d : Connection V S P) : Type 0 where
  count : readies d.written ≡ readies c.written + n
  queue : readies d.pending_async ≡ 0

module _ {V S P : Type 0} where
  IsRound-silent :
      {c d : Connection V S P} → readies c.pending_async ≡ 0 → IsSilent c d → IsRound c 0 d
  IsRound-silent q h = record { count = omega (arith, h.sends); queue = h.queues q }

  IsRound-ready :
      (c d : Connection V S P) → readies c.pending_async ≡ 0 → IsSilent c d → IsRound c 1 (ready d)
  unfolding ready Connection.flush_parameter_status Connection.flush_async Connection.write
  IsRound-ready c d q h = record {
    count = omega (
      arith,
      h.sends,
      h.queues q,
      readies-reports d.pending_parameter_status,
      readies-append d.written (reports d.pending_parameter_status),
      readies-append (d.written ++ reports d.pending_parameter_status) d.pending_async,
      readies-append (d.written ++ reports d.pending_parameter_status ++ d.pending_async)
          (ready_for_query d.tx_status ∷ []),
    );
    queue = refl;
  }

  IsRound-closing :
      (k : Kind) (p : ℕ) (c : Connection V S P) (w : World V S P)
      → readies c.pending_async ≡ 0
      → IsSilent c (w.heap p)
      → IsRound c (due returned k) ((closing k p w).heap p)
  unfolding closing
  IsRound-closing k p c w q h = elim (Bool-cases (is_query_or_sync k)) [
    | inl b ↦ rw b (subst (IsRound c 1) (sym (on_self p ready w)) (IsRound-ready c (w.heap p) q h))
    | inr b ↦ rw b (IsRound-silent q h)
  ]

  IsRound-finished :
      (k : Kind) (p : ℕ) (c : Connection V S P) (out : Ending × World V S P)
      → readies c.pending_async ≡ 0
      → IsSilent c (out.1.heap p)
      → IsRound c (due (finished k p out).0 k) ((finished k p out).1.heap p)
  unfolding finished
  IsRound-finished k p c (raised e, w) q h = IsRound-silent q h
  IsRound-finished k p c (returned, w) q h = IsRound-closing k p c w q h
  IsRound-finished k p c (cancelled, w) q h =
      IsRound-closing k p c (on p (report_error (pg_error query_canceled)) w) q (
        IsSilent-trans h (
          IsSilent-on p (report_error (pg_error query_canceled)) w
            (IsSilent-report_error (pg_error query_canceled))))

  IsRound-turn :
      (handler : Handler V S P) (p : ℕ)
      → NeverReady handler p
      → (m : Message) (w : World V S P) → readies (w.heap p).pending_async ≡ 0
      → IsRound (w.heap p) (due (turn handler p m w).0 m.kind) ((turn handler p m w).1.heap p)
  unfolding turn
  IsRound-turn handler p never m w q =
      IsRound-finished m.kind p (w.heap p) (dispatch handler p m (on p leave_ready w)) q (
        IsSilent-trans (IsSilent-on p leave_ready w (λ c. record { sends = refl; queues = λ h. h }))
          (IsSilent-dispatch handler p never m (on p leave_ready w)))

  next-readies :
      (p : ℕ) (rest : World V S P → Served V S P) (m : Message) (out : Ending × World V S P)
      (c : Connection V S P)
      → IsRound c (due out.0 m.kind) (out.1.heap p)
      → ((w : World V S P)
          → readies (w.heap p).pending_async ≡ 0
          → sent p (rest w).2 ≡ sent p w + rounds (rest w).1)
      → sent p (next rest m out).2 ≡ readies c.written + rounds (next rest m out).1
  unfolding next
  next-readies p rest m (returned, w) c h ih = omega (arith, h.count, ih w h.queue)
  next-readies p rest m (raised e, w) c h ih = omega (arith, h.count)
  next-readies p rest m (cancelled, w) c h ih = omega (arith, h.count)

  -- However the handlers end, by returning, by an error or cancelled, and whatever is skipped after
  -- an error, the loop sends one ReadyForQuery for each Query and each Sync that it serves and none
  -- for any other message, if no handler sends or queues one and none is queued at the start.
  pub command_loop-readies :
      (handler : Handler V S P) (p : ℕ)
      → NeverReady handler p
      → (ms : List Message) (w : World V S P) → readies (w.heap p).pending_async ≡ 0
      → sent p (command_loop handler p ms w).2 ≡ sent p w + rounds (command_loop handler p ms w).1
  unfolding command_loop
  command_loop-readies handler p never [] w q = omega arith
  command_loop-readies handler p never (m ∷ ms) w q = elim (Bool-cases (is_terminate m.kind)) [
    | inl b ↦ rw b (omega (arith, ap (λ c. readies c.written) (on_self p leave_ready w)))
    | inr b ↦ rw b (
        next-readies p (command_loop handler p ms) m (turn handler p m w) (w.heap p)
          (IsRound-turn handler p never m w q) (command_loop-readies handler p never ms))
  ]
