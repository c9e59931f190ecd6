-- ===== src/World.antt =====
-- The server with its live connections: PgServer.notify of pg_mimic/server.py, and the methods of
-- pg_mimic/connection.py that reach the registry or other connections. Connections are objects on
-- a heap, named by pid; `p` is the connection that a method is called on.
pub mod Delivery
pub mod Received
pub mod Once
pub mod Registered
use pg_mimic.Prelude.{
  ℕ, String, Bool, true, false, ◌≡◌, refl, List, [], ◌∷◌, ◌++◌, length, Eq, ◌==◌, nat_eq, string_eq,
  nat_beq, if◌then◌else◌,
}
use pg_mimic.Prelude.Set.{difference, contains}
use pg_mimic.State.{SessionState, take_pending_notifies}
use pg_mimic.Messages.Backend.{TxStatus, idle, in_block, failed}
use pg_mimic.Connection.{Connection}
use pg_mimic.Connection
use pg_mimic.Server.Registry.{Registry, listeners, add_all, remove_all}

pub record World (V S P : Type 0) : Type 0 where
  pub heap : ℕ → Connection V S P
  pub registry : Registry

-- (channel, payload) is in the list
abbrev pub notified : List (String × String) → String → String → Bool
notified [] channel payload = false
notified ((c, m) ∷ rest) channel payload =
    if c == channel
    then (if m == payload then true else notified rest channel payload)
    else notified rest channel payload

abbrev pub is_idle : TxStatus → Bool
is_idle idle = true
is_idle in_block = false
is_idle failed = false

unfoldable pub sync_registry : List String → List String → ℕ → Registry → Registry
unfolding add_all remove_all
sync_registry registered listening p r =
    add_all (difference listening registered) p (remove_all (difference registered listening) p r)

module _ {V S P : Type 0} where
  -- The heap with a method run on the connection `p`.
  abbrev pub on : ℕ → (Connection V S P → Connection V S P) → World V S P → World V S P
  on p f w = record w { heap = λ q. if nat_beq p q then f (w.heap q) else w.heap q }

  abbrev pub on_state :
      (SessionState V S P → SessionState V S P) → Connection V S P → Connection V S P
  on_state f c = record c { state = f c.state }

  -- PgServer.notify: each listener of the copy that was taken at the start
  unfoldable pub fan_out : List ℕ → ℕ → String → String → World V S P → World V S P
  fan_out [] from channel payload w = w
  fan_out (q ∷ qs) from channel payload w =
      fan_out qs from channel payload (on q (Connection.notify from channel payload) w)

  unfoldable pub notify : ℕ → String → String → World V S P → World V S P
  unfolding fan_out listeners
  notify from channel payload w = fan_out (listeners channel w.registry) from channel payload w

  unfoldable pub queue_notify : String → String → SessionState V S P → SessionState V S P
  queue_notify channel payload s =
      if notified s.pending_notifies channel payload
      then s
      else record s { pending_notifies = s.pending_notifies ++ (channel, payload) ∷ [] }

  unfoldable pub notify_listeners : ℕ → String → String → World V S P → World V S P
  unfolding notify queue_notify
  notify_listeners p channel payload w =
      if is_idle (w.heap p).tx_status
      then notify p channel payload w
      else on p (on_state (queue_notify channel payload)) w

  unfoldable pub notify_each : List (String × String) → ℕ → World V S P → World V S P
  unfolding notify
  notify_each [] p w = w
  notify_each ((channel, payload) ∷ rest) p w = notify_each rest p (notify p channel payload w)

  unfoldable pub flush_pending_notifies : ℕ → World V S P → World V S P
  unfolding notify_each take_pending_notifies
  flush_pending_notifies p w =
      notify_each (take_pending_notifies (w.heap p).state).0 p
        (on p (on_state (λ s. (take_pending_notifies s).1)) w)

  unfoldable pub sync_listeners : ℕ → World V S P → World V S P
  unfolding sync_registry
  sync_listeners p w = record (on p (λ c. record c { registered_channels = c.state.listening }) w) {
    registry = sync_registry (w.heap p).registered_channels (w.heap p).state.listening p w.registry;
  }

  unfoldable pub drop_listeners : ℕ → World V S P → World V S P
  unfolding remove_all
  drop_listeners p w = record (on p (λ c. record c { registered_channels = [] }) w) {
    registry = remove_all (w.heap p).registered_channels p w.registry;
  }
