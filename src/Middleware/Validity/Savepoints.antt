-- ===== src/Middleware/Validity/Savepoints.antt =====
-- SAVEPOINT, RELEASE and ROLLBACK TO of pg_mimic/middleware.py keep the transaction invariant.
use pg_mimic.Prelude.{
  ℕ, suc, ◌<◌, String, ◌≡◌, refl, false, Option, none, some, length, get_elem?, inl, inr,
  Bool-cases, arith,
}
use pg_mimic.State.{SessionState, restore_scope, discard_scopes}
use pg_mimic.Messages.Backend.{TxStatus, idle, in_block, failed}
use pg_mimic.Connection.{Connection}
use pg_mimic.World.{World, on, on_state, is_idle, sync_listeners}
use pg_mimic.World.Delivery.{OutputOnly}
use pg_mimic.Middleware.Settings.{Host}
use pg_mimic.Middleware.Transactions.{
  SavepointKind, savepoint, release, rollback_to, settle, push_savepoint, drop_savepoints,
  set_status, last_index, release_at, rollback_at, to_savepoint, savepoint_in_block,
  savepoint_statement,
}
use pg_mimic.Middleware.Validity.{InBlock, Settled, IsValid, WorldIsValid}
use pg_mimic.Middleware.Validity.Steps.{
  OthersValid, OthersValid-weaken, OthersValid-on, WorldIsValid-on, WorldIsValid-sync, heap-on,
}
use pg_mimic.Middleware.Validity.States.{
  InBlock-savepoint, InBlock-release, InBlock-restore, last_index-lt,
}
use pg_mimic.Middleware.Validity.Blocks.{InBlock-of_not_idle, OutputOnly-settle}

module _ {V S P : Type 0} where
  -- A step on the state of a connection in a block, from one valid block to another.
  pub InBlock-step :
      (f : SessionState V S P → SessionState V S P) (c : Connection V S P)
      → is_idle c.tx_status ≡ false
      → (InBlock c.state → InBlock (f c.state))
      → IsValid c
      → IsValid (on_state f c)
  InBlock-step f c e step v = in_status c.tx_status e refl
    where
      in_status : (t : TxStatus) → is_idle t ≡ false → c.tx_status ≡ t → IsValid (on_state f c)
      in_status idle e q = cc
      in_status in_block e q = record {
        settled = rw q (step (rw q at v.settled));
        registered = λ r. absurd cc;
      }
      in_status failed e q = record {
        settled = rw q (step (rw q at v.settled));
        registered = λ r. absurd cc;
      }

  InBlock-at : (t : TxStatus) (s : SessionState V S P) → is_idle t ≡ false → InBlock s → Settled t s
  InBlock-at idle s e h = cc
  InBlock-at in_block s e h = h
  InBlock-at failed s e h = h

  IsValid-reopen :
      (c : Connection V S P)
      → is_idle c.tx_status ≡ false
      → IsValid c
      → IsValid (set_status in_block c)
  IsValid-reopen c e v = record {
    settled = InBlock-of_not_idle c e v.settled;
    registered = λ r. absurd cc;
  }

  status-sync :
      (p : ℕ) (w : World V S P) → ((sync_listeners p w).heap p).tx_status ≡ (w.heap p).tx_status
  unfolding sync_listeners
  status-sync p w = ground arith

  -- A sync in an open block, and then the block is usable again.
  reopen-WorldIsValid :
      (p : ℕ) (w : World V S P)
      → is_idle (w.heap p).tx_status ≡ false
      → InBlock (w.heap p).state
      → OthersValid p w
      → WorldIsValid (on p (set_status in_block) (sync_listeners p w))
  reopen-WorldIsValid p w e h v =
      WorldIsValid-on p (set_status in_block) (sync_listeners p w) refl
        (IsValid-reopen ((sync_listeners p w).heap p) (rw (status-sync p w) e))
        (WorldIsValid-sync p w v (InBlock-at (w.heap p).tx_status (w.heap p).state e h))

module _ {V S P : Type 0} (host : Host V) (p : ℕ) (w : World V S P)
    (open_now : is_idle (w.heap p).tx_status ≡ false) (v : WorldIsValid w) where
  release-WorldIsValid :
      (i : ℕ) → i < length (w.heap p).state.savepoints → WorldIsValid (release_at i p w)
  unfolding release_at
  release-WorldIsValid i lt =
      WorldIsValid-on p (on_state (λ s. discard_scopes (suc i) (drop_savepoints i s))) w refl
        (InBlock-step (λ s. discard_scopes (suc i) (drop_savepoints i s)) (w.heap p) open_now
          (InBlock-release i (w.heap p).state lt))
        v

  rollback-WorldIsValid :
      (i : ℕ) → i < length (w.heap p).state.savepoints → WorldIsValid (rollback_at host i p w)
  unfolding rollback_at
  rollback-WorldIsValid i lt =
      reopen-WorldIsValid p (on p back w) (rw (heap-on p back w, kept.tx_status) open_now)
        (rw (heap-on p back w, kept.state) restored)
        (OthersValid-on p back w kept.registered_channels (OthersValid-weaken p w v))
    where
      back : Connection V S P → Connection V S P
      back c = settle host (restore_scope (suc i)) (on_state (drop_savepoints (suc i)) c)

      kept :
          OutputOnly
            (on_state (restore_scope (suc i)) (on_state (drop_savepoints (suc i)) (w.heap p)))
            (back (w.heap p))
      kept =
          OutputOnly-settle host p (restore_scope (suc i))
            (on_state (drop_savepoints (suc i)) (w.heap p))

      restored : InBlock (restore_scope (suc i) (drop_savepoints (suc i) (w.heap p).state))
      restored =
          unfold restore_scope in
          InBlock-restore i (w.heap p).state (get_elem? (w.heap p).state.scopes (suc i)) lt refl
            (InBlock-of_not_idle (w.heap p) open_now (v.each p).settled)

  savepoint-WorldIsValid : (name : String) → WorldIsValid (on p (on_state (push_savepoint name)) w)
  savepoint-WorldIsValid name =
      WorldIsValid-on p (on_state (push_savepoint name)) w refl
        (InBlock-step (push_savepoint name) (w.heap p) open_now
          (InBlock-savepoint name (w.heap p).state))
        v

  to_savepoint-WorldIsValid :
      (kind : SavepointKind) (name : String) (o : Option ℕ)
      → last_index (w.heap p).state.savepoints name ≡ o
      → WorldIsValid (to_savepoint host kind o p w).1
  unfolding to_savepoint
  to_savepoint-WorldIsValid kind name none e = v
  to_savepoint-WorldIsValid release name (some i) e =
      release-WorldIsValid i (last_index-lt (w.heap p).state.savepoints name i e)
  to_savepoint-WorldIsValid _ name (some i) e =
      rollback-WorldIsValid i (last_index-lt (w.heap p).state.savepoints name i e)

  in_block-WorldIsValid :
      (kind : SavepointKind) (name : String)
      → WorldIsValid (savepoint_in_block host kind name p w).1
  unfolding savepoint_in_block
  in_block-WorldIsValid savepoint name = savepoint-WorldIsValid name
  in_block-WorldIsValid release name =
      to_savepoint-WorldIsValid release name (last_index (w.heap p).state.savepoints name) refl
  in_block-WorldIsValid rollback_to name =
      to_savepoint-WorldIsValid rollback_to name (last_index (w.heap p).state.savepoints name) refl

pub savepoint_statement-WorldIsValid :
    {V S P : Type 0} (host : Host V) (kind : SavepointKind) (name : String) (p : ℕ)
    (w : World V S P)
    → WorldIsValid w
    → WorldIsValid (savepoint_statement host kind name p w).1
unfolding savepoint_statement
savepoint_statement-WorldIsValid host kind name p w v =
    elim (Bool-cases (is_idle (w.heap p).tx_status)) [
      | inl e ↦ rw e v
      | inr e ↦ rw e (in_block-WorldIsValid host p w e v kind name)
    ]
