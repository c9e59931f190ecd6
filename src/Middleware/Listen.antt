-- ===== src/Middleware/Listen.antt =====
-- LISTEN, UNLISTEN and NOTIFY of pg_mimic/middleware.py.
use pg_mimic.Prelude.{ℕ, String, Option, none, some, List, [], string_eq, if◌then◌else◌}
use pg_mimic.Prelude.Set.{add, discard}
use pg_mimic.State.{SessionState}
use pg_mimic.World.{World, on, on_state, is_idle, sync_listeners}

module _ {V S P : Type 0} where
  -- Outside a transaction the subscription is at once real.
  unfoldable pub sync_if_idle : ℕ → World V S P → World V S P
  sync_if_idle p w = if is_idle (w.heap p).tx_status then sync_listeners p w else w

  abbrev pub set_listening : (List String → List String) → SessionState V S P → SessionState V S P
  set_listening f s = record s { listening = f s.listening }

  unfoldable pub listen : String → ℕ → World V S P → World V S P
  unfolding sync_if_idle
  listen channel p w = sync_if_idle p (on p (on_state (set_listening (add channel))) w)

  -- UNLISTEN * is no channel.
  unfoldable pub unlisten : Option String → ℕ → World V S P → World V S P
  unfolding sync_if_idle
  unlisten none p w = sync_if_idle p (on p (on_state (set_listening (λ _. []))) w)
  unlisten (some channel) p w = sync_if_idle p (on p (on_state (set_listening (discard channel))) w)
