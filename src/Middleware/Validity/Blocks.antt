-- ===== src/Middleware/Validity/Blocks.antt =====
-- BEGIN, COMMIT, ROLLBACK and the savepoint statements of pg_mimic/middleware.py keep the
-- transaction invariant.
use pg_mimic.Prelude.{ℕ, ◌≡◌, refl, Bool, true, false, [], ◌++◌, inl, inr, Bool-cases, string_eq}
use pg_mimic.State.{
  SessionState, open_scope, commit_transaction, end_transaction, take_pending_notifies,
}
use pg_mimic.Messages.Backend.{TxStatus, idle, in_block, failed}
use pg_mimic.Connection.{Connection}
use pg_mimic.World.{
  World, on, on_state, is_idle, flush_pending_notifies, notify_each, sync_listeners,
}
use pg_mimic.World.Delivery.{OutputOnly, Quiet, Quiet-notify_each}
use pg_mimic.Middleware.Settings.{Host}
use pg_mimic.Middleware.Settings.Reports.{OutputOnly-report_changed}
use pg_mimic.Middleware.Transactions.{
  settle, settle_transaction, forget_savepoints, in_open_block, begin_block, end_block, set_status,
  keys,
}
use pg_mimic.Middleware.Validity.{InBlock, Settled, IsValid, WorldIsValid}
use pg_mimic.Middleware.Guard.{is_failed}
use pg_mimic.Middleware.Validity.Steps.{
  OthersValid, OthersValid-weaken, OthersValid-on, OthersValid-Quiet, WorldIsValid-on,
  WorldIsValid-sync, heap-on,
}
use pg_mimic.Middleware.Validity.States.{Ended, InBlock-begin, Settled-rollback}

module _ {V S P : Type 0} where
  pub InBlock-of_not_idle :
      (c : Connection V S P)
      → is_idle c.tx_status ≡ false
      → Settled c.tx_status c.state
      → InBlock c.state
  InBlock-of_not_idle c e h = not_idle c.tx_status e h
    where
      not_idle : (t : TxStatus) → is_idle t ≡ false → Settled t c.state → InBlock c.state
      not_idle idle e h = cc
      not_idle in_block e h = h
      not_idle failed e h = h

  IsValid-begin :
      (c : Connection V S P)
      → in_open_block c.tx_status ≡ false
      → is_failed c.tx_status ≡ false
      → IsValid c
      → IsValid (on_state (λ s. open_scope (forget_savepoints s)) (set_status in_block c))
  IsValid-begin c e f v = record {
    settled = InBlock-begin c.state (idle_of c.tx_status e f v.settled);
    registered = λ e. absurd cc;
  }
    where
      idle_of :
          (t : TxStatus)
          → in_open_block t ≡ false
          → is_failed t ≡ false
          → Settled t c.state
          → Settled idle c.state
      idle_of idle e f h = h
      idle_of in_block e f h = cc
      idle_of failed e f h = cc

  IsValid-begin_again :
      (c : Connection V S P)
      → in_open_block c.tx_status ≡ true
      → IsValid c
      → IsValid (set_status in_block c)
  IsValid-begin_again c e v = record {
    settled = InBlock-of_not_idle c (not_idle c.tx_status e) v.settled;
    registered = λ e. absurd cc;
  }
    where
      not_idle : (t : TxStatus) → in_open_block t ≡ true → is_idle t ≡ false
      not_idle idle e = cc
      not_idle in_block e = refl
      not_idle failed e = cc

  -- BEGIN keeps the world valid, unless it comes in a failed block.
  pub begin-WorldIsValid :
      (p : ℕ) (w : World V S P)
      → is_failed (w.heap p).tx_status ≡ false
      → WorldIsValid w
      → WorldIsValid (begin_block p w)
  unfolding begin_block
  begin-WorldIsValid p w f v = elim (Bool-cases (in_open_block (w.heap p).tx_status)) [
    | inl e ↦
        rw e (WorldIsValid-on p (set_status in_block) w refl (IsValid-begin_again (w.heap p) e) v)
    | inr e ↦ rw e (
        WorldIsValid-on p
          (λ c. on_state (λ s. open_scope (forget_savepoints s)) (set_status in_block c)) w refl
          (IsValid-begin (w.heap p) e f) v)
  ]

  -- The notifications that a transaction leaves are handed over, and then none is pending.
  flush-Settled :
      (p : ℕ) (w : World V S P)
      → (w.heap p).tx_status ≡ idle
      → Ended (w.heap p).state
      → OthersValid p w
      → OthersValid p (flush_pending_notifies p w)
        × Settled
            ((flush_pending_notifies p w).heap p).tx_status
            ((flush_pending_notifies p w).heap p).state
  unfolding flush_pending_notifies
  flush-Settled p w idle_now e v = (
    OthersValid-Quiet p quiet (OthersValid-on p take_all w refl v),
    rw (quiet_p.tx_status, quiet_p.state, heap-on p take_all w, idle_now)
        (unfold take_pending_notifies in (e.0, e.1, refl, e.2)),
  )
    where
      take_all : Connection V S P → Connection V S P
      take_all = on_state (λ s. (take_pending_notifies s).1)

      quiet :
          Quiet
            (on p take_all w)
            (notify_each (take_pending_notifies (w.heap p).state).0 p (on p take_all w))
      quiet = Quiet-notify_each (take_pending_notifies (w.heap p).state).0 p (on p take_all w)

      quiet_p :
          OutputOnly
            ((on p take_all w).heap p)
            ((notify_each (take_pending_notifies (w.heap p).state).0 p (on p take_all w)).heap p)
      quiet_p = quiet.heap p

module _ {V S P : Type 0} (host : Host V) (p : ℕ) where
  pub OutputOnly-settle :
      (f : SessionState V S P → SessionState V S P) (c : Connection V S P)
      → OutputOnly (on_state f c) (settle host f c)
  unfolding settle
  OutputOnly-settle f c =
      OutputOnly-report_changed host (keys c.state.session_vars ++ keys (f c.state).session_vars)
        c.state.session_vars (on_state f c)

  module _ (w : World V S P) (idle_now : (w.heap p).tx_status ≡ idle)
      (forgotten : (w.heap p).state.savepoints ≡ []) (others : OthersValid p w) where
    settled_at :
        (f : SessionState V S P → SessionState V S P)
        → OutputOnly (on_state f (w.heap p)) ((on p (settle host f) w).heap p)
    settled_at f = rw (heap-on p (settle host f) w) (OutputOnly-settle f (w.heap p))

    settled_others :
        (f : SessionState V S P → SessionState V S P) → OthersValid p (on p (settle host f) w)
    settled_others f =
        OthersValid-on p (settle host f) w (OutputOnly-settle f (w.heap p)).registered_channels
          others

    commit-WorldIsValid :
        WorldIsValid
          (sync_listeners p (flush_pending_notifies p (on p (settle host commit_transaction) w)))
    commit-WorldIsValid = WorldIsValid-sync p _ flushed.0 flushed.1
      where
        w' : World V S P
        w' = on p (settle host commit_transaction) w

        flushed :
            OthersValid p (flush_pending_notifies p w')
            × Settled
                ((flush_pending_notifies p w').heap p).tx_status
                ((flush_pending_notifies p w').heap p).state
        flushed =
            flush-Settled p w' (rw ((settled_at commit_transaction).tx_status) idle_now)
              (rw ((settled_at commit_transaction).state)
                (unfold commit_transaction in (refl, forgotten, refl)))
              (settled_others commit_transaction)

    rollback-WorldIsValid :
        Settled idle (end_transaction (w.heap p).state)
        → WorldIsValid (sync_listeners p (on p (settle host end_transaction) w))
    rollback-WorldIsValid h =
        WorldIsValid-sync p (on p (settle host end_transaction) w) (settled_others end_transaction)
          (rw ((settled_at end_transaction).tx_status, (settled_at end_transaction).state, idle_now)
            h)

  abbrev leave : Connection V S P → Connection V S P
  leave c = on_state forget_savepoints (set_status idle c)

  IsValid-leave_idle :
      (c : Connection V S P) → is_idle c.tx_status ≡ true → IsValid c → IsValid (leave c)
  IsValid-leave_idle c e v = record {
    settled = idle_settled c.tx_status e v.settled;
    registered = λ _. v.registered (idle_of c.tx_status e);
  }
    where
      idle_of : (t : TxStatus) → is_idle t ≡ true → t ≡ idle
      idle_of idle e = refl
      idle_of in_block e = cc
      idle_of failed e = cc

      idle_settled :
          (t : TxStatus)
          → is_idle t ≡ true
          → Settled t c.state
          → Settled idle (forget_savepoints c.state)
      idle_settled idle e h = (h.0, refl, h.2, h.3)
      idle_settled in_block e h = cc
      idle_settled failed e h = cc

  settle-WorldIsValid :
      (committed : Bool) (w : World V S P)
      → is_idle (w.heap p).tx_status ≡ false
      → WorldIsValid w
      → WorldIsValid (settle_transaction host committed p (on p leave w))
  unfolding settle_transaction
  settle-WorldIsValid true w e v =
      commit-WorldIsValid (on p leave w) (rw (heap-on p leave w) refl) (rw (heap-on p leave w) refl)
        (OthersValid-on p leave w refl (OthersValid-weaken p w v))
  settle-WorldIsValid false w e v =
      rollback-WorldIsValid (on p leave w) (rw (heap-on p leave w) refl)
        (rw (heap-on p leave w) refl) (OthersValid-on p leave w refl (OthersValid-weaken p w v))
        (rw (heap-on p leave w)
          (Settled-rollback (w.heap p).state (InBlock-of_not_idle (w.heap p) e (v.each p).settled)))

  -- COMMIT and ROLLBACK keep the world valid.
  pub end-WorldIsValid :
      (committed : Bool) (w : World V S P)
      → WorldIsValid w
      → WorldIsValid (end_block host committed p w)
  unfolding end_block
  end-WorldIsValid committed w v = elim (Bool-cases (is_idle (w.heap p).tx_status)) [
    | inl e ↦ rw e (WorldIsValid-on p leave w refl (IsValid-leave_idle (w.heap p) e) v)
    | inr e ↦ rw e (settle-WorldIsValid committed w e v)
  ]
