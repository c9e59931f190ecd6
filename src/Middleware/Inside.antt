-- ===== src/Middleware/Inside.antt =====
-- A statement inside a transaction block (pg_mimic/middleware.py): it stays above the frame of the
-- transaction, and touches no other connection.
pub mod Rollback
use pg_mimic.Prelude.{
  ℕ, suc, String, ◌≡◌, refl, ◌∙◌, sym, ap, Bool, true, false, not, ◌&&◌, Option, none, some, List,
  [], ◌∷◌, ◌++◌, Result, ok, err, inl, inr, Bool-cases, arith, nat_beq, nat_beq_iff, if◌then◌else◌,
  Eq, string_eq,
}
use pg_mimic.Prelude.Dict
use pg_mimic.Prelude.Set.{add, discard}
use pg_mimic.Errors.{Error, pg_error, in_failed_sql_transaction}
use pg_mimic.State.{SessionState, restore_scope, discard_scopes, open_scope}
use pg_mimic.State.Scopes.{Above}
use pg_mimic.Messages.Backend.{TxStatus, idle, in_block, failed}
use pg_mimic.Connection.{Connection}
use pg_mimic.World.{
  World, on, on_state, is_idle, notify_listeners, queue_notify, sync_listeners, notified,
}
use pg_mimic.World.Delivery.{OutputOnly}
use pg_mimic.Middleware.Effect.{Outcome, done, raise, continue, ◌>>>◌}
use pg_mimic.Middleware.Settings.{Host}
use pg_mimic.Middleware.Transactions.{
  Tag, begin, commit, rollback, SavepointKind, savepoint, release, rollback_to, transaction,
  begin_block, settle, set_status, push_savepoint, drop_savepoints, last_index, release_at,
  rollback_at, to_savepoint, savepoint_in_block, savepoint_statement, in_open_block,
}
use pg_mimic.Middleware.Listen.{listen, unlisten, sync_if_idle, set_listening}
use pg_mimic.Middleware.Execute.{
  Command, transaction_control, savepoint_control, assignment, reset_every, set_config, discard_all,
  discard_kind, deallocate_all, deallocate, prepare, listen_to, unlisten_to, notify_to, execute,
  discard_everything, discard_part, drop_statement, deallocate_one,
}
use pg_mimic.Middleware.Guard.{
  allowed_in_failed_transaction, is_failed, report_error, answer, guarded, run_statement, fail,
}
use pg_mimic.Middleware.Validity.{WorldIsValid}
use pg_mimic.Middleware.Validity.Steps.{heap-on}
use pg_mimic.Middleware.Validity.Blocks.{OutputOnly-settle}
use pg_mimic.Middleware.Validity.Assignments.{Keeps, assign-Keeps, apply_set_config-Keeps}
use pg_mimic.Middleware.Validity.Statements.{Passes, open_of, reset_all-Keeps}

-- Every statement but COMMIT and ROLLBACK.
abbrev pub stays_inside : {S : Type 0} → Command S → Bool
stays_inside (transaction_control begin) = true
stays_inside (transaction_control commit) = false
stays_inside (transaction_control rollback) = false
stays_inside _ = true

module _ {V S P : Type 0} where
  pub record Inside (p : ℕ) (w w' : World V S P) : Type 0 where
    pub open_block : is_idle (w'.heap p).tx_status ≡ false
    pub above : Above 0 (w.heap p).state (w'.heap p).state
    pub others : (q : ℕ) → nat_beq p q ≡ false → w'.heap q ≡ w.heap q

  pub Inside-refl : (p : ℕ) (w : World V S P) → is_idle (w.heap p).tx_status ≡ false → Inside p w w
  Inside-refl p w e = record { open_block = e; above = Above.write refl; others = λ q ne. refl }

  pub Inside-trans : (p : ℕ) {u v w : World V S P} → Inside p u v → Inside p v w → Inside p u w
  Inside-trans p a b = record {
    open_block = b.open_block;
    above = Above.after a.above b.above;
    others = λ q ne. b.others q ne ∙ a.others q ne;
  }

  Inside-on :
      (p : ℕ) (f : Connection V S P → Connection V S P) (w : World V S P)
      → is_idle (f (w.heap p)).tx_status ≡ false
      → Above 0 (w.heap p).state (f (w.heap p)).state
      → Inside p w (on p f w)
  Inside-on p f w e a = record {
    open_block = rw (heap-on p f w) e;
    above = rw (heap-on p f w) a;
    others = λ q ne. rw ne refl;
  }

  Inside-sync :
      (p : ℕ) (w : World V S P)
      → is_idle (w.heap p).tx_status ≡ false
      → Inside p w (sync_listeners p w)
  unfolding sync_listeners
  Inside-sync p w e = record {
    open_block = same.open_block;
    above = same.above;
    others = same.others;
  }
    where
      same : Inside p w (on p (λ c. record c { registered_channels = c.state.listening }) w)
      same =
          Inside-on p (λ c. record c { registered_channels = c.state.listening }) w e
            (Above.write refl)

  Inside-Keeps :
      (p : ℕ) (w w' : World V S P)
      → is_idle (w.heap p).tx_status ≡ false
      → Keeps p w w'
      → Inside p w w'
  Inside-Keeps p w w' e k = record {
    open_block = rw k.status e;
    above = Above.write k.scopes;
    others = k.others;
  }

  module _ (p : ℕ) (w : World V S P) (e : is_idle (w.heap p).tx_status ≡ false) where
    Inside-write :
        (f : SessionState V S P → SessionState V S P)
        → (f (w.heap p).state).scopes ≡ (w.heap p).state.scopes
        → Inside p w (on p (on_state f) w)
    Inside-write f frames = Inside-on p (on_state f) w e (Above.write frames)

    Inside-listening :
        (f : List String → List String)
        → Inside p w (sync_if_idle p (on p (on_state (set_listening f)) w))
    unfolding sync_if_idle
    Inside-listening f =
        rw (heap-on p (on_state (set_listening f)) w, e) (Inside-write (set_listening f) refl)

    Inside-savepoint : (name : String) → Inside p w (on p (on_state (push_savepoint name)) w)
    Inside-savepoint name = Inside-on p (on_state (push_savepoint name)) w e (
        Above.after
          (Above.write
            {t = record (w.heap p).state { savepoints = (w.heap p).state.savepoints ++ name ∷ [] }}
            refl)
          (Above.fork refl))

    Inside-release : (i : ℕ) → Inside p w (release_at i p w)
    unfolding release_at
    Inside-release i =
        Inside-on p (on_state (λ s. discard_scopes (suc i) (drop_savepoints i s))) w e (
          Above.after (Above.write {t = drop_savepoints i (w.heap p).state} refl)
            (Above.release (suc i) (omega arith) refl))

    Inside-queue :
        (channel payload : String) → Inside p w (on p (on_state (queue_notify channel payload)) w)
    Inside-queue channel payload = Inside-write (queue_notify channel payload) frames
      where
        frames : (queue_notify channel payload (w.heap p).state).scopes ≡ (w.heap p).state.scopes
        frames = unfold queue_notify in ground arith

module _ {V S P : Type 0} (host : Host V) (p : ℕ) (w : World V S P)
    (e : is_idle (w.heap p).tx_status ≡ false) where
  Inside-rollback_to : (i : ℕ) → Inside p w (rollback_at host i p w)
  unfolding rollback_at
  Inside-rollback_to i = Inside-trans p restored (
      Inside-trans p (Inside-sync p (on p back w) restored.open_block) (
        Inside-on p (set_status in_block) (sync_listeners p (on p back w)) refl (Above.write refl)))
    where
      back : Connection V S P → Connection V S P
      back c = settle host (restore_scope (suc i)) (on_state (drop_savepoints (suc i)) c)

      kept :
          OutputOnly
            (on_state (restore_scope (suc i)) (on_state (drop_savepoints (suc i)) (w.heap p)))
            (back (w.heap p))
      kept =
          OutputOnly-settle host p (restore_scope (suc i))
            (on_state (drop_savepoints (suc i)) (w.heap p))

      restored : Inside p w (on p back w)
      restored = Inside-on p back w (rw kept.tx_status e) (
          Above.after (Above.write {t = drop_savepoints (suc i) (w.heap p).state} refl)
            (Above.rollback_to (suc i) (omega arith) kept.state))

  Inside-to_savepoint :
      (kind : SavepointKind) (o : Option ℕ) → Inside p w (to_savepoint host kind o p w).1
  unfolding to_savepoint
  Inside-to_savepoint kind none = Inside-refl p w e
  Inside-to_savepoint release (some i) = Inside-release p w e i
  Inside-to_savepoint _ (some i) = Inside-rollback_to i

  Inside-savepoint_statement :
      (kind : SavepointKind) (name : String) → Inside p w (savepoint_statement host kind name p w).1
  unfolding savepoint_statement savepoint_in_block
  Inside-savepoint_statement savepoint name = rw e (Inside-savepoint p w e name)
  Inside-savepoint_statement release name =
      rw e (Inside-to_savepoint release (last_index (w.heap p).state.savepoints name))
  Inside-savepoint_statement rollback_to name =
      rw e (Inside-to_savepoint rollback_to (last_index (w.heap p).state.savepoints name))

  Inside-begin : is_failed (w.heap p).tx_status ≡ false → Inside p w (begin_block p w)
  unfolding begin_block
  Inside-begin f =
      rw (in_block_of (w.heap p).tx_status e f)
        (Inside-on p (set_status in_block) w refl (Above.write refl))
    where
      in_block_of :
          (t : TxStatus) → is_idle t ≡ false → is_failed t ≡ false → in_open_block t ≡ true
      in_block_of idle e f = cc
      in_block_of in_block e f = refl
      in_block_of failed e f = cc

  Inside-drop : (o : Option S) (name : String) → Inside p w (drop_statement o name p w).1
  unfolding drop_statement
  Inside-drop none name = Inside-refl p w e
  Inside-drop (some statement) name =
      Inside-write p w e (λ s. record s { statements = Dict.pop name s.statements }) refl

  Inside-continue : (r : Result Error (Unit {0})) → Inside p w (continue r w done).1
  Inside-continue (ok u) = Inside-refl p w e
  Inside-continue (err x) = Inside-refl p w e

  execute-Inside :
      (command : Command S)
      → stays_inside command ≡ true
      → Passes (w.heap p).tx_status command
      → WorldIsValid w
      → Inside p w (execute host command p w).1
  unfolding execute
  execute-Inside (transaction_control begin) h g v = Inside-begin (open_of S (w.heap p).tx_status g)
  execute-Inside (transaction_control commit) h g v = cc
  execute-Inside (transaction_control rollback) h g v = cc
  execute-Inside (savepoint_control kind name) h g v = Inside-savepoint_statement kind name
  execute-Inside (assignment assignments local) h g v =
      Inside-Keeps p w (execute host (assignment assignments local) p w).1 e
        (assign-Keeps host assignments local p w v)
  execute-Inside reset_every h g v =
      Inside-Keeps p w (execute host reset_every p w).1 e (reset_all-Keeps host p w v)
  execute-Inside (set_config key value) h g v =
      Inside-Keeps p w (execute host (set_config key value) p w).1 e
        (apply_set_config-Keeps host key value false p w refl v)
  execute-Inside discard_all h g v = unfold discard_everything in rw e (Inside-refl p w e)
  execute-Inside (discard_kind kind) h g v =
      unfold discard_part in Inside-continue (host.discard kind)
  execute-Inside deallocate_all h g v = Inside-write p w e (λ s. record s { statements = [] }) refl
  execute-Inside (deallocate name) h g v =
      unfold deallocate_one in Inside-drop (Dict.lookup name (w.heap p).state.statements) name
  execute-Inside (prepare name statement) h g v =
      Inside-write p w e (λ s. record s { statements = Dict.insert name statement s.statements })
        refl
  execute-Inside (listen_to channel) h g v = unfold listen in Inside-listening p w e (add channel)
  execute-Inside (unlisten_to none) h g v = unfold unlisten in Inside-listening p w e (λ _. [])
  execute-Inside (unlisten_to (some channel)) h g v =
      unfold unlisten in Inside-listening p w e (discard channel)
  execute-Inside (notify_to channel payload) h g v =
      unfold notify_listeners in rw e (Inside-queue p w e channel payload)

module _ {V S P : Type 0} (p : ℕ) where
  answer-Inside :
      (w : World V S P) (o : Outcome (World V S P)) → Inside p w o.1 → Inside p w (answer p o)
  unfolding answer
  answer-Inside w (ok u, w') i = i
  answer-Inside w (err x, w') i = Inside-trans p i (
      Inside-on p (report_error x) w'
        (unfold report_error in not_idle (w'.heap p).tx_status i.open_block)
        (unfold report_error in Above.write refl))
    where
      not_idle : (t : TxStatus) → is_idle t ≡ false → is_idle (fail t) ≡ false
      not_idle idle e = e
      not_idle in_block e = refl
      not_idle failed e = refl

  -- A statement other than COMMIT and ROLLBACK, in a block, whether it succeeds or not.
  pub run_statement-Inside :
      (host : Host V) (command : Command S) (w : World V S P)
      → stays_inside command ≡ true
      → is_idle (w.heap p).tx_status ≡ false
      → WorldIsValid w
      → Inside p w (run_statement host command p w)
  unfolding run_statement guarded
  run_statement-Inside host command w h e v =
      elim (Bool-cases
        (is_failed (w.heap p).tx_status && not (allowed_in_failed_transaction command))) [
          | inl g ↦
              rw g
                (answer-Inside w (raise (pg_error in_failed_sql_transaction) w) (Inside-refl p w e))
          | inr g ↦
              rw g (
                answer-Inside w (execute host command p w)
                  (execute-Inside host p w e command h g v))
        ]
