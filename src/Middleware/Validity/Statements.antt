-- ===== src/Middleware/Validity/Statements.antt =====
-- Every statement that pg_mimic/middleware.py answers keeps the transaction invariant of every
-- connection, and the registry in step with what the connections are registered for.
use pg_mimic.Prelude.{
  ℕ, String, ◌≡◌, refl, ◌∙◌, ap, true, false, not, ◌&&◌, Option, none, some, List, [], Result, ok,
  err, inl, inr, Bool-cases, string_eq,
}
use pg_mimic.Prelude.Dict
use pg_mimic.Prelude.Dict.{Dict}
use pg_mimic.Prelude.Set.{add, discard}
use pg_mimic.Errors.{Error, pg_error, in_failed_sql_transaction}
use pg_mimic.State.{SessionState, reset}
use pg_mimic.Messages.Backend.{TxStatus, idle, in_block, failed}
use pg_mimic.Connection.{Connection}
use pg_mimic.World.{
  World, on, on_state, is_idle, notify_listeners, notified, queue_notify, sync_listeners,
}
use pg_mimic.World.Delivery.{Quiet-notify}
use pg_mimic.Middleware.Effect.{Outcome, done, raise, continue, ◌>>>◌}
use pg_mimic.Middleware.Settings.{Host, reset_all}
use pg_mimic.Middleware.Transactions.{begin, commit, rollback, keys}
use pg_mimic.Middleware.Listen.{listen, unlisten, sync_if_idle, set_listening}
use pg_mimic.Middleware.Execute.{
  Command, transaction_control, savepoint_control, assignment, reset_every, set_config, discard_all,
  discard_kind, deallocate_all, deallocate, prepare, listen_to, unlisten_to, notify_to, execute,
  discard_everything, discard_part, drop_statement, deallocate_one,
}
use pg_mimic.Middleware.Guard.{
  allowed_in_failed_transaction, is_failed, report_error, answer, guarded, run_statement, fail,
}
use pg_mimic.Middleware.Validity.{InBlock, Settled, IsValid, WorldIsValid, idle_of}
use pg_mimic.Middleware.Validity.Steps.{
  OthersValid, OthersValid-weaken, OthersValid-on, WorldIsValid-on, WorldIsValid-Quiet,
  WorldIsValid-sync, heap-on,
}
use pg_mimic.Middleware.Validity.Blocks.{begin-WorldIsValid, end-WorldIsValid}
use pg_mimic.Middleware.Validity.Savepoints.{InBlock-step, savepoint_statement-WorldIsValid}
use pg_mimic.Middleware.Validity.Assignments.{
  Keeps, apply_set_config-Keeps, reset_each-Keeps, assign-Keeps,
}

-- What the guard lets through.
abbrev pub Passes : {S : Type 0} → TxStatus → Command S → Type 0
Passes t command = (is_failed t && not (allowed_in_failed_transaction command)) ≡ false

module _ {V S P : Type 0} where
  -- A change of the state that the invariant does not look at.
  WorldIsValid-on_state :
      (f : SessionState V S P → SessionState V S P) (p : ℕ) (w : World V S P)
      → (f (w.heap p).state).listening ≡ (w.heap p).state.listening
      → Settled (w.heap p).tx_status (f (w.heap p).state)
      → WorldIsValid w
      → WorldIsValid (on p (on_state f) w)
  WorldIsValid-on_state f p w kept settled v =
      WorldIsValid-on p (on_state f) w refl
        (λ c. record { settled = settled; registered = λ e. rw kept (c.registered e) }) v

  Settled-same :
      (t : TxStatus) (s s' : SessionState V S P)
      → s'.scopes ≡ s.scopes
      → s'.savepoints ≡ s.savepoints
      → s'.pending_notifies ≡ s.pending_notifies
      → s'.session_vars ≡ s.session_vars
      → s'.committed_vars ≡ s.committed_vars
      → Settled t s
      → Settled t s'
  Settled-same idle s s' a b c d e h = rw (a, b, c, d, e) h
  Settled-same in_block s s' a b c d e h = rw (a, b) h
  Settled-same failed s s' a b c d e h = rw (a, b) h

  module _ (f : List String → List String) (p : ℕ) (w : World V S P) (v : WorldIsValid w) where
    listening_others : OthersValid p (on p (on_state (set_listening f)) w)
    listening_others =
        OthersValid-on p (on_state (set_listening f)) w refl (OthersValid-weaken p w v)

    listening_settled : Settled (w.heap p).tx_status (set_listening f (w.heap p).state)
    listening_settled =
        Settled-same (w.heap p).tx_status (w.heap p).state (set_listening f (w.heap p).state) refl
          refl refl refl refl (v.each p).settled

    -- LISTEN and UNLISTEN keep the world valid.
    listening-WorldIsValid : WorldIsValid (sync_if_idle p (on p (on_state (set_listening f)) w))
    unfolding sync_if_idle
    listening-WorldIsValid = elim (Bool-cases (is_idle (w.heap p).tx_status)) [
      | inl e ↦
          rw (heap-on p (on_state (set_listening f)) w, e)
            (WorldIsValid-sync p (on p (on_state (set_listening f)) w) listening_others
              (rw (heap-on p (on_state (set_listening f)) w) listening_settled))
      | inr e ↦
          rw (heap-on p (on_state (set_listening f)) w, e)
            (WorldIsValid-on p (on_state (set_listening f)) w refl
              (λ c. record { settled = listening_settled; registered = λ q. absurd (not_idle q e) })
              v)
    ]
      where
        not_idle : (w.heap p).tx_status ≡ idle → is_idle (w.heap p).tx_status ≡ false → ⊥
        not_idle q e = cc (ap is_idle q)

  InBlock-queue :
      (channel payload : String) (s : SessionState V S P)
      → InBlock s
      → InBlock (queue_notify channel payload s)
  unfolding queue_notify
  InBlock-queue channel payload s h =
      elim (Bool-cases (notified s.pending_notifies channel payload)) [
        | inl e ↦ rw e h
        | inr e ↦ rw e h
      ]

  queue_notify-WorldIsValid :
      (channel payload : String) (p : ℕ) (w : World V S P)
      → is_idle (w.heap p).tx_status ≡ false
      → WorldIsValid w
      → WorldIsValid (on p (on_state (queue_notify channel payload)) w)
  queue_notify-WorldIsValid channel payload p w e v =
      WorldIsValid-on p (on_state (queue_notify channel payload)) w refl
        (InBlock-step (queue_notify channel payload) (w.heap p) e
          (InBlock-queue channel payload (w.heap p).state))
        v

  notify_listeners-WorldIsValid :
      (p : ℕ) (channel payload : String) (w : World V S P)
      → WorldIsValid w
      → WorldIsValid (notify_listeners p channel payload w)
  unfolding notify_listeners
  notify_listeners-WorldIsValid p channel payload w v =
      elim (Bool-cases (is_idle (w.heap p).tx_status)) [
        | inl e ↦ rw e (WorldIsValid-Quiet (Quiet-notify p channel payload w) v)
        | inr e ↦ rw e (queue_notify-WorldIsValid channel payload p w e v)
      ]

  -- The prepared statements are not part of what the invariant speaks of.
  statements-WorldIsValid :
      (f : Dict String S → Dict String S) (p : ℕ) (w : World V S P)
      → WorldIsValid w
      → WorldIsValid (on p (on_state (λ s. record s { statements = f s.statements })) w)
  statements-WorldIsValid f p w v =
      WorldIsValid-on_state (λ s. record s { statements = f s.statements }) p w refl
        (Settled-same (w.heap p).tx_status (w.heap p).state
          (record (w.heap p).state { statements = f (w.heap p).state.statements }) refl refl refl
          refl refl (v.each p).settled)
        v

  dropped :
      (name : String) (p : ℕ) (w : World V S P) (o : Option S)
      → WorldIsValid w
      → WorldIsValid (drop_statement o name p w).1
  unfolding drop_statement
  dropped name p w none v = v
  dropped name p w (some statement) v = statements-WorldIsValid (Dict.pop name) p w v

  told :
      (p : ℕ) (w : World V S P) (r : Result Error (Unit {0}))
      → WorldIsValid w
      → WorldIsValid (continue r w done).1
  told p w (ok u) v = v
  told p w (err e) v = v

fail-Settled :
    {V S P : Type 0} (t : TxStatus) (s : SessionState V S P) → Settled t s → Settled (fail t) s
fail-Settled idle s h = h
fail-Settled in_block s h = h
fail-Settled failed s h = h

idle_of_fail : (t : TxStatus) → fail t ≡ idle → t ≡ idle
idle_of_fail idle q = refl
idle_of_fail in_block q = cc
idle_of_fail failed q = cc

pub open_of :
    (S : Type 0) (t : TxStatus) → Passes {S = S} t (transaction_control begin) → is_failed t ≡ false
unfolding allowed_in_failed_transaction
open_of S idle g = refl
open_of S in_block g = refl
open_of S failed g = cc

module _ {V S P : Type 0} (host : Host V) where
  after_reset :
      (p : ℕ) (r : Result Error (Unit {0})) (w : World V S P)
      → (w.heap p).tx_status ≡ idle
      → WorldIsValid w
      → WorldIsValid (continue r w (λ u. done (sync_listeners p (on p (on_state reset) u)))).1
  after_reset p (err e) w i v = v
  after_reset p (ok u) w i v =
      WorldIsValid-sync p (on p (on_state reset) w)
        (OthersValid-on p (on_state reset) w refl (OthersValid-weaken p w v))
        (rw (heap-on p (on_state reset) w, i) (unfold reset in (refl, refl, refl, refl)))

  pub reset_all-Keeps :
      (p : ℕ) (w : World V S P) → WorldIsValid w → Keeps p w (reset_all host p w).1
  unfolding reset_all
  reset_all-Keeps p w v = reset_each-Keeps host (keys (w.heap p).state.session_vars) p w v

  told_discard :
      (p : ℕ) (r : Result Error (Unit {0})) (w : World V S P)
      → (w.heap p).tx_status ≡ idle
      → WorldIsValid w
      → WorldIsValid
          (continue r w (λ u.
            reset_all host p u >>> λ u'. done (sync_listeners p (on p (on_state reset) u')))).1
  told_discard p (err e) w i v = v
  told_discard p (ok u) w i v =
      after_reset p (reset_all host p w).0 (reset_all host p w).1
        ((reset_all-Keeps p w v).status ∙ i) (reset_all-Keeps p w v).valid

  discard_everything-WorldIsValid :
      (p : ℕ) (w : World V S P) → WorldIsValid w → WorldIsValid (discard_everything host p w).1
  unfolding discard_everything
  discard_everything-WorldIsValid p w v = elim (Bool-cases (is_idle (w.heap p).tx_status)) [
    | inl e ↦ rw e (told_discard p (host.discard "ALL") w (idle_of (w.heap p).tx_status e) v)
    | inr e ↦ rw e v
  ]

  pub execute-WorldIsValid :
      (command : Command S) (p : ℕ) (w : World V S P)
      → Passes (w.heap p).tx_status command
      → WorldIsValid w
      → WorldIsValid (execute host command p w).1
  unfolding execute
  execute-WorldIsValid (transaction_control begin) p w g v =
      begin-WorldIsValid p w (open_of S (w.heap p).tx_status g) v
  execute-WorldIsValid (transaction_control commit) p w g v = end-WorldIsValid host p true w v
  execute-WorldIsValid (transaction_control rollback) p w g v = end-WorldIsValid host p false w v
  execute-WorldIsValid (savepoint_control kind name) p w g v =
      savepoint_statement-WorldIsValid host kind name p w v
  execute-WorldIsValid (assignment assignments local) p w g v =
      (assign-Keeps host assignments local p w v).valid
  execute-WorldIsValid reset_every p w g v = (reset_all-Keeps p w v).valid
  execute-WorldIsValid (set_config key value) p w g v =
      (apply_set_config-Keeps host key value false p w refl v).valid
  execute-WorldIsValid discard_all p w g v = discard_everything-WorldIsValid p w v
  execute-WorldIsValid (discard_kind kind) p w g v =
      unfold discard_part in told p w (host.discard kind) v
  execute-WorldIsValid deallocate_all p w g v = statements-WorldIsValid (λ _. []) p w v
  execute-WorldIsValid (deallocate name) p w g v =
      unfold deallocate_one in dropped name p w (Dict.lookup name (w.heap p).state.statements) v
  execute-WorldIsValid (prepare name statement) p w g v =
      statements-WorldIsValid (Dict.insert name statement) p w v
  execute-WorldIsValid (listen_to channel) p w g v =
      unfold listen in listening-WorldIsValid (add channel) p w v
  execute-WorldIsValid (unlisten_to none) p w g v =
      unfold unlisten in listening-WorldIsValid (λ _. []) p w v
  execute-WorldIsValid (unlisten_to (some channel)) p w g v =
      unfold unlisten in listening-WorldIsValid (discard channel) p w v
  execute-WorldIsValid (notify_to channel payload) p w g v =
      notify_listeners-WorldIsValid p channel payload w v

  report_error-IsValid : (e : Error) (c : Connection V S P) → IsValid c → IsValid (report_error e c)
  unfolding report_error
  report_error-IsValid e c v = record {
    settled = fail-Settled c.tx_status c.state v.settled;
    registered = λ q. v.registered (idle_of_fail c.tx_status q);
  }

  answer-WorldIsValid :
      (p : ℕ) (o : Outcome (World V S P)) → WorldIsValid o.1 → WorldIsValid (answer p o)
  unfolding answer
  answer-WorldIsValid p (ok u, w) v = v
  answer-WorldIsValid p (err e, w) v =
      WorldIsValid-on p (report_error e) w (unfold report_error in refl)
        (report_error-IsValid e (w.heap p)) v

  -- Whatever statement a connection runs, and whether it succeeds or fails, the world stays valid.
  pub run_statement-WorldIsValid :
      (command : Command S) (p : ℕ) (w : World V S P)
      → WorldIsValid w
      → WorldIsValid (run_statement host command p w)
  unfolding run_statement guarded
  run_statement-WorldIsValid command p w v =
      elim (Bool-cases
        (is_failed (w.heap p).tx_status && not (allowed_in_failed_transaction command))) [
          | inl e ↦ rw e (answer-WorldIsValid p (raise (pg_error in_failed_sql_transaction) w) v)
          | inr e ↦ rw e (
              answer-WorldIsValid p (execute host command p w)
                (execute-WorldIsValid command p w e v))
        ]
