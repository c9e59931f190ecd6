-- ===== src/World/Delivery.antt =====
-- What the deliveries of pg_mimic/server.py and pg_mimic/connection.py leave alone: a notification
-- and a report change nothing of a connection but what it has written and what it has queued.
use pg_mimic.Prelude.{
  ℕ, String, Bool, true, false, ◌≡◌, refl, ◌∙◌, List, [], ◌∷◌, arith, nat_beq, nat_beq_iff,
  if◌then◌else◌, string_eq, nat_eq,
}
use pg_mimic.Connection.{Connection}
use pg_mimic.Connection
use pg_mimic.Server.Registry.{listeners}
use pg_mimic.World.{World, on, fan_out, notify, notify_each}

module _ {V S P : Type 0} where
  pub record OutputOnly (c c' : Connection V S P) : Type 0 where
    pub pid : c'.pid ≡ c.pid
    pub state : c'.state ≡ c.state
    pub tx_status : c'.tx_status ≡ c.tx_status
    pub ignore_until_sync : c'.ignore_until_sync ≡ c.ignore_until_sync
    pub at_ready_for_query : c'.at_ready_for_query ≡ c.at_ready_for_query
    pub registered_channels : c'.registered_channels ≡ c.registered_channels

  pub OutputOnly-refl : (c : Connection V S P) → OutputOnly c c
  OutputOnly-refl c = ground arith

  pub OutputOnly-trans :
      {c d e : Connection V S P} → OutputOnly c d → OutputOnly d e → OutputOnly c e
  OutputOnly-trans a b = record {
    pid = b.pid ∙ a.pid;
    state = b.state ∙ a.state;
    tx_status = b.tx_status ∙ a.tx_status;
    ignore_until_sync = b.ignore_until_sync ∙ a.ignore_until_sync;
    at_ready_for_query = b.at_ready_for_query ∙ a.at_ready_for_query;
    registered_channels = b.registered_channels ∙ a.registered_channels;
  }

  pub OutputOnly-notify :
      (from : ℕ) (channel payload : String) (c : Connection V S P)
      → OutputOnly c (Connection.notify from channel payload c)
  unfolding Connection.notify
  OutputOnly-notify from channel payload c = ground arith

  -- Two worlds that differ in output only.
  pub record Quiet (w w' : World V S P) : Type 0 where
    pub registry : w'.registry ≡ w.registry
    pub heap : (q : ℕ) → OutputOnly (w.heap q) (w'.heap q)

  pub Quiet-refl : (w : World V S P) → Quiet w w
  Quiet-refl w = record { registry = refl; heap = λ q. OutputOnly-refl (w.heap q) }

  pub Quiet-trans : {u v w : World V S P} → Quiet u v → Quiet v w → Quiet u w
  Quiet-trans a b = record {
    registry = b.registry ∙ a.registry;
    heap = λ q. OutputOnly-trans (a.heap q) (b.heap q);
  }

  pub Quiet-on :
      (p : ℕ) (f : Connection V S P → Connection V S P) (w : World V S P)
      → OutputOnly (w.heap p) (f (w.heap p))
      → Quiet w (on p f w)
  Quiet-on p f w h = record { registry = refl; heap = λ q. at_pid (nat_beq p q) q refl }
    where
      at_pid :
          (b : Bool) (q : ℕ)
          → nat_beq p q ≡ b
          → OutputOnly (w.heap q) (if b then f (w.heap q) else w.heap q)
      at_pid true q e = rw (← (nat_beq_iff p q).0 e) h
      at_pid false q e = OutputOnly-refl (w.heap q)

  pub Quiet-fan_out :
      (qs : List ℕ) (from : ℕ) (channel payload : String) (w : World V S P)
      → Quiet w (fan_out qs from channel payload w)
  unfolding fan_out
  Quiet-fan_out [] from channel payload w = Quiet-refl w
  Quiet-fan_out (q ∷ qs) from channel payload w =
      Quiet-trans
        (Quiet-on q (Connection.notify from channel payload) w
          (OutputOnly-notify from channel payload (w.heap q)))
        (Quiet-fan_out qs from channel payload _)

  pub Quiet-notify :
      (from : ℕ) (channel payload : String) (w : World V S P)
      → Quiet w (notify from channel payload w)
  unfolding notify
  Quiet-notify from channel payload w =
      Quiet-fan_out (listeners channel w.registry) from channel payload w

  pub Quiet-notify_each :
      (pending : List (String × String)) (p : ℕ) (w : World V S P)
      → Quiet w (notify_each pending p w)
  unfolding notify_each
  Quiet-notify_each [] p w = Quiet-refl w
  Quiet-notify_each ((channel, payload) ∷ rest) p w =
      Quiet-trans (Quiet-notify p channel payload w)
        (Quiet-notify_each rest p (notify p channel payload w))
