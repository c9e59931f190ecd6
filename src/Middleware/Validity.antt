-- ===== src/Middleware/Validity.antt =====
-- The transaction invariant of a connection, and the steps that keep it (pg_mimic/middleware.py,
-- pg_mimic/state.py).
pub mod Steps
pub mod States
pub mod Blocks
pub mod Savepoints
pub mod Assignments
pub mod Statements
use pg_mimic.Prelude.{
  ℕ, suc, String, ◌≤◌, ◌≡◌, refl, ◌∙◌, ap, List, [], ◌∷◌, length, arith, Bool, true, false,
}
use pg_mimic.State.{Scope, SessionState}
use pg_mimic.Messages.Backend.{TxStatus, idle, in_block, failed}
use pg_mimic.Connection.{Connection}
use pg_mimic.World.{World, is_idle}
use pg_mimic.World.Registered.{IsConsistent}
use pg_mimic.Server.Husks.{NoHusk}

-- The frame of the transaction itself was taken with nothing pending and no local settings.
abbrev pub BaseIsClean : {V : Type 0} → List (Scope V) → Type 0
BaseIsClean [] = ⊥
BaseIsClean (f ∷ fs) = (f.pending_notifies ≡ []) × (f.session_vars ≡ f.committed_vars)

pub idle_of : (t : TxStatus) → is_idle t ≡ true → t ≡ idle
idle_of idle e = refl
idle_of in_block e = cc
idle_of failed e = cc

module _ {V S P : Type 0} where
  -- A frame for the transaction, and at most one for each open savepoint.
  abbrev pub InBlock : SessionState V S P → Type 0
  InBlock s = (length s.scopes ≤ suc (length s.savepoints)) × BaseIsClean s.scopes

  abbrev pub Settled : TxStatus → SessionState V S P → Type 0
  Settled idle s =
      (s.scopes ≡ [])
      × (s.savepoints ≡ [])
      × (s.pending_notifies ≡ [])
      × (s.session_vars ≡ s.committed_vars)
  Settled in_block s = InBlock s
  Settled failed s = InBlock s

  pub record IsValid (c : Connection V S P) : Type 0 where
    pub settled : Settled c.tx_status c.state
    pub registered : c.tx_status ≡ idle → c.registered_channels ≡ c.state.listening

  -- What holds of the server between two statements.
  pub record WorldIsValid (w : World V S P) : Type 0 where
    pub each : (q : ℕ) → IsValid (w.heap q)
    pub consistent : IsConsistent w
    pub no_husk : NoHusk w.registry
