-- ===== src/Middleware/Commit.antt =====
-- What COMMIT of pg_mimic/middleware.py makes of a transaction block that is in order: its settings,
-- its subscriptions in the registry, and its notifications at the connections that hear them.
use pg_mimic.Prelude.{
  ◌++◌, if◌then◌else◌, ◌==◌, nat_eq, string_eq, nat_beq, String, ℕ, ◌≡◌, refl, sym, ap, subst, ◌∙◌,
  Bool, true, false, ◌&&◌, [], if_false,
}
use pg_mimic.State.{commit_transaction, take_pending_notifies}
use pg_mimic.Messages.Backend.{idle, in_block}
use pg_mimic.Connection.{Connection}
use pg_mimic.World.{
  World, on, on_state, is_idle, notify_each, flush_pending_notifies, sync_listeners,
}
use pg_mimic.World.Delivery.{OutputOnly, Quiet, Quiet-notify_each}
use pg_mimic.Server.Registry.{hears}
use pg_mimic.Prelude.Set.{contains}
use pg_mimic.World.Received.{
  IsOnce, SameOutput, SameOutput-received, SameOutput-of_eq, SameOutput-trans, received,
  notify_each-heap,
}
use pg_mimic.World.Registered.{
  IsConsistent, IsConsistent-on, IsConsistent-Quiet, hears-sync_listeners,
}
use pg_mimic.Middleware.Settings.{Host}
use pg_mimic.Middleware.Settings.Output.{SameOutput-report_changed}
use pg_mimic.Middleware.Transactions.{
  commit, transaction, end_block, settle, settle_transaction, forget_savepoints, set_status, keys,
}
use pg_mimic.Middleware.Execute.{transaction_control, execute}
use pg_mimic.Middleware.Guard.{
  is_failed, allowed_in_failed_transaction, guarded, answer, run_statement,
}
use pg_mimic.Middleware.Validity.Steps.{heap-on}
use pg_mimic.Middleware.Validity.Blocks.{OutputOnly-settle}

-- The settings of the connection `p` are the committed ones, its subscriptions stand in the registry,
-- and its notifications were sent to whoever heard their channels before the COMMIT.
pub record IsCommitted {V S P : Type 0} (p : ℕ) (w w' : World V S P) : Type 0 where
  pub status : (w'.heap p).tx_status ≡ idle
  pub session : (w'.heap p).state.session_vars ≡ (w.heap p).state.committed_vars
  pub committed : (w'.heap p).state.committed_vars ≡ (w.heap p).state.committed_vars
  pub subscribed : (w'.heap p).registered_channels ≡ (w.heap p).state.listening
  pub heard :
      (ch : String) (q : ℕ)
      → hears w'.registry ch q
        ≡ (if p == q then contains (w.heap p).state.listening ch else hears w.registry ch q)
  pub sent : (w'.heap p).state.pending_notifies ≡ []
  pub received_here :
      SameOutput (w'.heap p) (received (w.heap p).state.pending_notifies p p w.registry (w.heap p))
  pub received_there :
      (q : ℕ)
      → nat_beq p q ≡ false
      → w'.heap q ≡ received (w.heap p).state.pending_notifies p q w.registry (w.heap q)
  pub closed : (w'.heap p).state.scopes ≡ []

module _ {V S P : Type 0} (host : Host V) (p : ℕ) (w : World V S P) where
  abbrev left : World V S P
  left = on p (λ c. on_state forget_savepoints (set_status idle c)) w

  abbrev settled : World V S P
  settled = on p (settle host commit_transaction) left

  abbrev taken : Connection V S P → Connection V S P
  taken = on_state (λ s. (take_pending_notifies s).1)

  quiet :
      Quiet
        (on p taken settled)
        (notify_each (take_pending_notifies (settled.heap p).state).0 p (on p taken settled))
  quiet = Quiet-notify_each (take_pending_notifies (settled.heap p).state).0 p (on p taken settled)

  settled_at : OutputOnly (on_state commit_transaction (left.heap p)) (settled.heap p)
  settled_at =
      rw (heap-on p (settle host commit_transaction) left)
        (OutputOnly-settle host p commit_transaction (left.heap p))

  -- what the flush leaves of the state at `p`
  abbrev flushed : World V S P
  flushed = flush_pending_notifies p settled

  flushed_state :
      (flushed.heap p).state
      ≡ (take_pending_notifies (commit_transaction (forget_savepoints (w.heap p).state))).1
  unfolding flush_pending_notifies
  flushed_state =
      (quiet.heap p).state
      ∙ ap (λ c. c.state) (heap-on p taken settled)
      ∙ ap (λ s. (take_pending_notifies s).1)
          (settled_at.state
            ∙ ap (λ c. commit_transaction c.state)
                (heap-on p (λ c. on_state forget_savepoints (set_status idle c)) w))

  flushed_status : (flushed.heap p).tx_status ≡ idle
  unfolding flush_pending_notifies
  flushed_status =
      (quiet.heap p).tx_status
      ∙ ap (λ c. c.tx_status) (heap-on p taken settled)
      ∙ settled_at.tx_status
      ∙ ap (λ c. c.tx_status) (heap-on p (λ c. on_state forget_savepoints (set_status idle c)) w)

  pending : (settled.heap p).state.pending_notifies ≡ (w.heap p).state.pending_notifies
  unfolding commit_transaction
  pending =
      ap (λ s. s.pending_notifies) settled_at.state
      ∙ ap (λ c. c.state.pending_notifies)
          (heap-on p (λ c. on_state forget_savepoints (set_status idle c)) w)

  -- the flush, at every connection
  flushed_heap :
      (q : ℕ)
      → IsOnce w.registry
      → flushed.heap q
        ≡ received (w.heap p).state.pending_notifies p q w.registry ((on p taken settled).heap q)
  unfolding flush_pending_notifies take_pending_notifies
  flushed_heap q once =
      ap (λ l. (notify_each l p (on p taken settled)).heap q) pending
      ∙ notify_each-heap (w.heap p).state.pending_notifies p (on p taken settled) w.registry q refl
          once

  settled_output : SameOutput (settle host commit_transaction (left.heap p)) (left.heap p)
  unfolding settle
  settled_output =
      SameOutput-trans
        (SameOutput-report_changed host
          (keys (left.heap p).state.session_vars
            ++ keys (on_state commit_transaction (left.heap p)).state.session_vars)
          ((left.heap p).state.session_vars) (on_state commit_transaction (left.heap p)))
        (record { written = refl; pending_async = refl; at_ready_for_query = refl })

  taken_output : SameOutput ((on p taken settled).heap p) (w.heap p)
  taken_output = SameOutput-trans (SameOutput-of_eq (heap-on p taken settled)) (
      SameOutput-trans (record { written = refl; pending_async = refl; at_ready_for_query = refl })
        (SameOutput-trans (SameOutput-of_eq (heap-on p (settle host commit_transaction) left)) (
          SameOutput-trans settled_output (
            SameOutput-trans
              (SameOutput-of_eq (heap-on p (λ c. on_state forget_savepoints (set_status idle c)) w))
              (record { written = refl; pending_async = refl; at_ready_for_query = refl })))))

  flushed_output :
      IsOnce w.registry
      → SameOutput
          (flushed.heap p)
          (received (w.heap p).state.pending_notifies p p w.registry (w.heap p))
  flushed_output once =
      SameOutput-trans (SameOutput-of_eq (flushed_heap p once))
        (SameOutput-received (w.heap p).state.pending_notifies p p w.registry _ _ taken_output)

  flushed-IsConsistent : IsConsistent w → IsConsistent flushed
  unfolding flush_pending_notifies
  flushed-IsConsistent consistent = IsConsistent-Quiet quiet (
      IsConsistent-on p taken settled refl (
        IsConsistent-on p (settle host commit_transaction) left
          (OutputOnly-settle host p commit_transaction (left.heap p)).registered_channels
          (IsConsistent-on p (λ c. on_state forget_savepoints (set_status idle c)) w refl
            consistent)))

  flushed_registry : flushed.registry ≡ w.registry
  unfolding flush_pending_notifies
  flushed_registry = quiet.registry

  synced-IsCommitted :
      IsConsistent w → IsOnce w.registry → IsCommitted p w (sync_listeners p flushed)
  unfolding sync_listeners commit_transaction take_pending_notifies
  synced-IsCommitted consistent once = record {
    status = ap (λ c. c.tx_status) at_p ∙ flushed_status;
    session = ap (λ c. c.state.session_vars) at_p ∙ ap (λ s. s.session_vars) flushed_state;
    committed = ap (λ c. c.state.committed_vars) at_p ∙ ap (λ s. s.committed_vars) flushed_state;
    subscribed = ap (λ c. c.registered_channels) at_p ∙ ap (λ s. s.listening) flushed_state;
    heard = λ ch q.
        hears-sync_listeners p flushed ch q (flushed-IsConsistent consistent)
        ∙ ap (λ l. if p == q then contains l ch else hears flushed.registry ch q)
            (ap (λ s. s.listening) flushed_state)
        ∙ ap (λ r. if p == q then contains (w.heap p).state.listening ch else hears r ch q)
            flushed_registry;
    sent = ap (λ c. c.state.pending_notifies) at_p ∙ ap (λ s. s.pending_notifies) flushed_state;
    received_here = SameOutput-trans (SameOutput-of_eq at_p) (
        SameOutput-trans
          (record { written = refl; pending_async = refl; at_ready_for_query = refl })
          (flushed_output once));
    received_there = λ q ne.
        if_false _ _ ne
        ∙ flushed_heap q once
        ∙ ap (received (w.heap p).state.pending_notifies p q w.registry)
            (if_false _ _ ne ∙ if_false _ _ ne ∙ if_false _ _ ne);
    closed = ap (λ c. c.state.scopes) at_p ∙ ap (λ s. s.scopes) flushed_state;
  }
    where
      at_p :
          (sync_listeners p flushed).heap p
          ≡ record (flushed.heap p) { registered_channels = (flushed.heap p).state.listening }
      at_p = heap-on p (λ c. record c { registered_channels = c.state.listening }) flushed

-- COMMIT in a transaction block that is in order ends the block: the settings that were not local
-- stay, the registry has the connection for exactly the channels that it subscribed to and every
-- other one as before, and each connection is sent the pending notifications of the channels it
-- heard, in their order, if the registry agrees with the connections and lists none twice.
pub commit-IsCommitted :
    {V S P : Type 0} (host : Host V) (p : ℕ) (w : World V S P)
    → (w.heap p).tx_status ≡ in_block
    → IsConsistent w
    → IsOnce w.registry
    → IsCommitted p w (run_statement host (transaction_control commit) p w)
unfolding run_statement guarded allowed_in_failed_transaction answer execute transaction end_block
    settle_transaction
commit-IsCommitted host p w open_block consistent once =
    subst (IsCommitted p w)
      (sym (
        ap (answer p) (if_false _ _ (never (is_failed (w.heap p).tx_status)))
        ∙ if_false _ _ (ap is_idle open_block)))
      (synced-IsCommitted host p w consistent once)
  where
    never : (b : Bool) → (b && false) ≡ false
    never true = refl
    never false = refl
