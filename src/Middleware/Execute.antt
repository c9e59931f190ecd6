-- ===== src/Middleware/Execute.antt =====
-- The statements that pg_mimic/middleware.py answers from connection state, and their execution.
use pg_mimic.Prelude.{
  ℕ, String, Bool, false, Option, none, some, List, [], string_eq, if◌then◌else◌,
}
use pg_mimic.Prelude.Dict
use pg_mimic.Prelude.Dict.{Dict}
use pg_mimic.Errors.{pg_error, active_sql_transaction, invalid_sql_statement_name}
use pg_mimic.State.{reset}
use pg_mimic.World.{World, on, on_state, is_idle, sync_listeners, notify_listeners}
use pg_mimic.Middleware.Effect.{Outcome, done, raise, continue, ◌>>>◌}
use pg_mimic.Middleware.Settings.{Host, assign, reset_all, apply_set_config}
use pg_mimic.Middleware.Transactions.{Tag, SavepointKind, transaction, savepoint_statement}
use pg_mimic.Middleware.Listen.{listen, unlisten}

pub data Command (S : Type 0) : Type 0 where
  transaction_control : Tag → Command S
  savepoint_control : SavepointKind → String → Command S
  -- the names and values of a SET or RESET, and whether it is SET LOCAL
  assignment : List (String × Option String) → Bool → Command S
  reset_every : Command S
  set_config : String → Option String → Command S
  -- DISCARD ALL, and DISCARD of another kind
  discard_all : Command S
  discard_kind : String → Command S
  deallocate_all : Command S
  deallocate : String → Command S
  prepare : String → S → Command S
  listen_to : String → Command S
  unlisten_to : Option String → Command S
  notify_to : String → String → Command S

module _ {V S P : Type 0} where
  -- _deallocate_statement for one name
  unfoldable pub drop_statement : Option S → String → ℕ → World V S P → Outcome (World V S P)
  drop_statement none name p w = raise (pg_error invalid_sql_statement_name) w
  drop_statement (some statement) name p w =
      done (on p (on_state (λ s. record s { statements = Dict.pop name s.statements })) w)

  unfoldable pub deallocate_one : String → ℕ → World V S P → Outcome (World V S P)
  unfolding drop_statement
  deallocate_one name p w = drop_statement (Dict.lookup name (w.heap p).state.statements) name p w

  -- the on_execute of _prepare_statement
  abbrev pub store_statement : String → S → ℕ → World V S P → World V S P
  store_statement name statement p w =
      on p (on_state (λ s. record s { statements = Dict.insert name statement s.statements })) w

module _ {V S P : Type 0} (host : Host V) where
  -- _discard_statement
  unfoldable pub discard_everything : ℕ → World V S P → Outcome (World V S P)
  unfolding reset_all
  discard_everything p w =
      if is_idle (w.heap p).tx_status
      then continue (host.discard "ALL") w
          (λ w. reset_all host p w >>> λ w'. done (sync_listeners p (on p (on_state reset) w')))
      else raise (pg_error active_sql_transaction) w

  unfoldable pub discard_part : String → World V S P → Outcome (World V S P)
  discard_part kind w = continue (host.discard kind) w done

  unfoldable pub execute : Command S → ℕ → World V S P → Outcome (World V S P)
  unfolding transaction savepoint_statement assign reset_all apply_set_config discard_everything
      discard_part deallocate_one listen unlisten notify_listeners
  execute (transaction_control tag) p w = done (transaction host tag p w)
  execute (savepoint_control kind name) p w = savepoint_statement host kind name p w
  execute (assignment assignments local) p w = assign host assignments local p w
  execute reset_every p w = reset_all host p w
  execute (set_config key value) p w = apply_set_config host key value false p w
  execute discard_all p w = discard_everything p w
  execute (discard_kind kind) p w = discard_part kind w
  execute deallocate_all p w = done (on p (on_state (λ s. record s { statements = [] })) w)
  execute (deallocate name) p w = deallocate_one name p w
  execute (prepare name statement) p w = done (store_statement name statement p w)
  execute (listen_to channel) p w = done (listen channel p w)
  execute (unlisten_to channel) p w = done (unlisten channel p w)
  execute (notify_to channel payload) p w = done (notify_listeners p channel payload w)
