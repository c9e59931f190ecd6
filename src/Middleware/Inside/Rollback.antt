-- ===== src/Middleware/Inside/Rollback.antt =====
-- BEGIN, statements, ROLLBACK (pg_mimic/middleware.py): nothing is left of the transaction.
use pg_mimic.Prelude.{
  ℕ, String, ◌≡◌, refl, ◌∙◌, sym, ap, length, true, false, List, [], ◌∷◌, inl, inr, Bool-cases,
  Option-cases, get_elem?, nat_beq, nat_beq_iff, string_eq,
}
use mathlib.Core.Path.{subst}
use pg_mimic.Prelude.Set.{contains}
use pg_mimic.State.{Scope, SessionState, snapshot, open_scope, restore_scope, end_transaction}
use pg_mimic.State.Scopes.{Above, restore_scope-open_scope}
use pg_mimic.Messages.Backend.{idle, in_block}
use pg_mimic.Connection.{Connection}
use pg_mimic.Server.Registry.{hears}
use pg_mimic.World.{World, on, on_state, is_idle, sync_listeners}
use pg_mimic.World.Delivery.{OutputOnly}
use pg_mimic.Middleware.Settings.{Host}
use pg_mimic.Middleware.Transactions.{
  begin, rollback, begin_block, end_block, settle, settle_transaction, forget_savepoints,
  set_status, transaction,
}
use pg_mimic.Middleware.Execute.{Command, transaction_control, execute}
use pg_mimic.Middleware.Guard.{
  run_statement, guarded, answer, allowed_in_failed_transaction, is_failed,
}
use pg_mimic.Middleware.Validity.{WorldIsValid}
use pg_mimic.Middleware.Validity.Steps.{heap-on}
use pg_mimic.Middleware.Validity.Blocks.{OutputOnly-settle}
use pg_mimic.Middleware.Validity.Statements.{run_statement-WorldIsValid}
use pg_mimic.Middleware.Inside.{
  Inside, Inside-refl, Inside-trans, stays_inside, run_statement-Inside,
}

-- Statements one after the other on one connection.
unfoldable pub run_all :
    {V S P : Type 0} → Host V → List (Command S) → ℕ → World V S P → World V S P
unfolding run_statement
run_all host [] p w = w
run_all host (command ∷ rest) p w = run_all host rest p (run_statement host command p w)

abbrev pub AllInside : {S : Type 0} → List (Command S) → Type 0
AllInside [] = Unit
AllInside (command ∷ rest) = (stays_inside command ≡ true) × AllInside rest

module _ {V S P : Type 0} (host : Host V) (p : ℕ) where
  run_all-Inside :
      (commands : List (Command S)) (w : World V S P)
      → AllInside commands
      → is_idle (w.heap p).tx_status ≡ false
      → WorldIsValid w
      → Inside p w (run_all host commands p w) × WorldIsValid (run_all host commands p w)
  unfolding run_all
  run_all-Inside [] w h e v = (Inside-refl p w e, v)
  run_all-Inside (command ∷ rest) w h e v =
      let first = run_statement-Inside p host command w h.0 e v in
      let others =
        run_all-Inside rest (run_statement host command p w) h.1 first.open_block
          (run_statement-WorldIsValid host command p w v) in
      (Inside-trans p first others.0, others.1)

  -- BEGIN outside a block.
  begin-idle :
      (w : World V S P)
      → (w.heap p).tx_status ≡ idle
      → run_statement host (transaction_control begin) p w
        ≡ on p (λ c. on_state (λ s. open_scope (forget_savepoints s)) (set_status in_block c)) w
  unfolding run_statement guarded execute transaction begin_block answer
  begin-idle w e = rw e refl

  -- ROLLBACK in a block.
  rollback-open :
      (w : World V S P)
      → is_idle (w.heap p).tx_status ≡ false
      → run_statement host (transaction_control rollback) p w
        ≡ sync_listeners p (
            on p
              (settle host end_transaction)
              (on p (λ c. on_state forget_savepoints (set_status idle c)) w))
  unfolding run_statement guarded execute transaction end_block settle_transaction answer
      allowed_in_failed_transaction
  rollback-open w e = elim (Bool-cases (is_failed (w.heap p).tx_status)) [
    | inl f ↦ rw f (rw e refl)
    | inr f ↦ rw f (rw e refl)
  ]

  snapshot-end :
      (s : SessionState V S P)
      → snapshot (end_transaction (forget_savepoints s)) ≡ snapshot (restore_scope 0 s)
  unfolding end_transaction restore_scope
  snapshot-end s = elim (Option-cases (get_elem? s.scopes 0)) [
    | inl e ↦ rw e refl
    | inr (f, e) ↦ rw e refl
  ]

  module _ (w : World V S P) (v : WorldIsValid w) (started : (w.heap p).tx_status ≡ idle)
      (commands : List (Command S)) (inside : AllInside commands) where
    begun : World V S P
    begun = run_statement host (transaction_control begin) p w

    ran : World V S P
    ran = run_all host commands p begun

    rolled_back : World V S P
    rolled_back = run_statement host (transaction_control rollback) p ran

    begun_self :
        begun.heap p
        ≡ on_state (λ s. open_scope (forget_savepoints s)) (set_status in_block (w.heap p))
    unfolding begun
    begun_self =
        ap (λ (u : World V S P). u.heap p) (begin-idle w started)
        ∙ heap-on p (λ c. on_state (λ s. open_scope (forget_savepoints s)) (set_status in_block c))
            w

    begun-others : (q : ℕ) → nat_beq p q ≡ false → begun.heap q ≡ w.heap q
    unfolding begun
    begun-others q ne = rw (begin-idle w started, ne) refl

    ran-Inside : Inside p begun ran × WorldIsValid ran
    unfolding ran begun
    ran-Inside =
        run_all-Inside commands begun inside (rw begun_self refl)
          (run_statement-WorldIsValid host (transaction_control begin) p w v)

    frames : (w.heap p).state.scopes ≡ []
    frames = (rw started at (v.each p).settled).0

    restored : snapshot (restore_scope 0 (ran.heap p).state) ≡ snapshot (w.heap p).state
    restored =
        subst (λ d. snapshot (restore_scope d (ran.heap p).state) ≡ snapshot (w.heap p).state)
          (ap length frames)
          (restore_scope-open_scope (forget_savepoints (w.heap p).state) (ran.heap p).state (
            subst
              (λ d. Above d (open_scope (forget_savepoints (w.heap p).state)) (ran.heap p).state)
              (sym (ap length frames))
              (subst (λ (c : Connection V S P). Above 0 c.state (ran.heap p).state) begun_self
                ran-Inside.0.above))).0

    ended :
        OutputOnly
          (on_state (λ s. end_transaction (forget_savepoints s)) (set_status idle (ran.heap p)))
          (settle host end_transaction (on_state forget_savepoints (set_status idle (ran.heap p))))
    ended =
        OutputOnly-settle host p end_transaction
          (on_state forget_savepoints (set_status idle (ran.heap p)))

    rolled_back_self :
        ((rolled_back.heap p).state ≡ end_transaction (forget_savepoints (ran.heap p).state))
        × ((rolled_back.heap p).tx_status ≡ idle)
    unfolding rolled_back sync_listeners
    rolled_back_self =
        rw (rollback-open ran ran-Inside.0.open_block, (nat_beq_iff p p).1 refl)
          (ended.state, ended.tx_status)

    rolled_back-others : (q : ℕ) → nat_beq p q ≡ false → rolled_back.heap q ≡ w.heap q
    unfolding rolled_back sync_listeners
    rolled_back-others q ne =
        rw (rollback-open ran ran-Inside.0.open_block, ne)
          (ran-Inside.0.others q ne ∙ begun-others q ne)

    rolled_back-valid : WorldIsValid rolled_back
    unfolding rolled_back
    rolled_back-valid =
        run_statement-WorldIsValid host (transaction_control rollback) p ran ran-Inside.1

    rolled_back-snapshot : snapshot (rolled_back.heap p).state ≡ snapshot (w.heap p).state
    rolled_back-snapshot =
        ap snapshot rolled_back_self.0 ∙ snapshot-end (ran.heap p).state ∙ restored

    rolled_back-registered :
        (q : ℕ) → (rolled_back.heap q).registered_channels ≡ (w.heap q).registered_channels
    rolled_back-registered q = elim (Bool-cases (nat_beq p q)) [
      | inl e ↦ rw (← (nat_beq_iff p q).0 e) (
          (rolled_back-valid.each p).registered rolled_back_self.1
          ∙ ap (λ (f : Scope V). f.listening) rolled_back-snapshot
          ∙ sym ((v.each p).registered started))
      | inr ne ↦ ap (λ (c : Connection V S P). c.registered_channels) (rolled_back-others q ne)
    ]

    rolled_back-hears :
        (ch : String) (q : ℕ) → hears rolled_back.registry ch q ≡ hears w.registry ch q
    rolled_back-hears ch q =
        rolled_back-valid.consistent ch q
        ∙ ap (λ xs. contains xs ch) (rolled_back-registered q)
        ∙ sym (v.consistent ch q)

-- What a rolled-back transaction leaves: the settings, the subscriptions and the pending
-- notifications of the connection, every other connection, and who hears which channel.
pub record IsUndone {V S P : Type 0} (p : ℕ) (w w' : World V S P) : Type 0 where
  pub status : (w'.heap p).tx_status ≡ idle
  pub snapshots : snapshot (w'.heap p).state ≡ snapshot (w.heap p).state
  pub others : (q : ℕ) → nat_beq p q ≡ false → w'.heap q ≡ w.heap q
  pub hearing : (ch : String) (q : ℕ) → hears w'.registry ch q ≡ hears w.registry ch q

-- In a valid world, a connection outside a block runs BEGIN, any statements but COMMIT and ROLLBACK,
-- each successful or not, and ROLLBACK. Then its settings, subscriptions and pending notifications
-- are those before BEGIN, no other connection has changed (so none was notified), and the
-- registry delivers each channel to the same connections.
pub rollback-IsUndone :
    {V S P : Type 0} (host : Host V) (commands : List (Command S)) (p : ℕ) (w : World V S P)
    → WorldIsValid w
    → (w.heap p).tx_status ≡ idle
    → AllInside commands
    → IsUndone p w (
        run_statement host
          (transaction_control rollback)
          p
          (run_all host commands p (run_statement host (transaction_control begin) p w)))
unfolding rolled_back ran begun
rollback-IsUndone host commands p w v started inside = record {
  status = (rolled_back_self host p w v started commands inside).1;
  snapshots = rolled_back-snapshot host p w v started commands inside;
  others = rolled_back-others host p w v started commands inside;
  hearing = rolled_back-hears host p w v started commands inside;
}
