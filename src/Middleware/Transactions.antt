-- ===== src/Middleware/Transactions.antt =====
-- BEGIN, COMMIT, ROLLBACK, SAVEPOINT, RELEASE and ROLLBACK TO of pg_mimic/middleware.py.
use pg_mimic.Prelude.{
  ℕ, zero, suc, String, Bool, true, false, Option, none, some, List, [], ◌∷◌, ◌++◌, map, take, ◌==◌,
  nat_eq, string_eq, if◌then◌else◌,
}
use pg_mimic.Prelude.Dict.{Dict}
use pg_mimic.Errors.{pg_error, no_active_sql_transaction, invalid_savepoint_specification}
use pg_mimic.State.{
  SessionState, open_scope, discard_scopes, restore_scope, commit_transaction, end_transaction,
}
use pg_mimic.Messages.Backend.{TxStatus, idle, in_block}
use pg_mimic.Connection.{Connection}
use pg_mimic.World.{World, on, on_state, is_idle, flush_pending_notifies, sync_listeners}
use pg_mimic.Middleware.Effect.{Outcome, done, raise}
use pg_mimic.Middleware.Settings.{Host, report_changed}

pub data Tag : Type 0 where
  begin commit rollback : Tag

pub data SavepointKind : Type 0 where
  savepoint release rollback_to : SavepointKind

abbrev pub in_open_block : TxStatus → Bool
in_open_block in_block = true
in_open_block _ = false

abbrev pub keys {ℓ} : {A B : Type ℓ} → Dict A B → List A
keys = map (λ entry. entry.0)

-- len(stack) - 1 - stack[::-1].index(name): the last place of the name
unfoldable pub last_index : List String → String → Option ℕ
last_index [] name = none
last_index (x ∷ xs) name = elim (last_index xs name) [
  | some i ↦ some (suc i)
  | none ↦ if x == name then some zero else none
]

module _ {V S P : Type 0} where
  abbrev pub forget_savepoints : SessionState V S P → SessionState V S P
  forget_savepoints s = record s { savepoints = [] }

  abbrev pub set_status : TxStatus → Connection V S P → Connection V S P
  set_status status c = record c { tx_status = status }

  abbrev pub push_savepoint : String → SessionState V S P → SessionState V S P
  push_savepoint name s = open_scope (record s { savepoints = s.savepoints ++ name ∷ [] })

  abbrev pub drop_savepoints : ℕ → SessionState V S P → SessionState V S P
  drop_savepoints n s = record s { savepoints = take n s.savepoints }

  unfoldable pub begin_block : ℕ → World V S P → World V S P
  begin_block p w =
      if in_open_block (w.heap p).tx_status
      then on p (set_status in_block) w
      else on p (λ c. on_state (λ s. open_scope (forget_savepoints s)) (set_status in_block c)) w

  unfoldable pub release_at : ℕ → ℕ → World V S P → World V S P
  release_at index p w =
      on p (on_state (λ s. discard_scopes (suc index) (drop_savepoints index s))) w

module _ {V S P : Type 0} (host : Host V) where
  -- The new settings, with a report of those that differ from before.
  unfoldable pub settle :
      (SessionState V S P → SessionState V S P) → Connection V S P → Connection V S P
  unfolding report_changed
  settle f c =
      let before = c.state.session_vars in
      let c' = on_state f c in
      report_changed host (keys before ++ keys c'.state.session_vars) before c'

  -- _end_transaction
  unfoldable pub settle_transaction : Bool → ℕ → World V S P → World V S P
  unfolding settle
  settle_transaction committed p w =
      let w' =
        on p (settle (λ s. if committed then commit_transaction s else end_transaction s)) w in
      sync_listeners p (if committed then flush_pending_notifies p w' else w')

  unfoldable pub end_block : Bool → ℕ → World V S P → World V S P
  unfolding settle_transaction
  end_block committed p w =
      let w' = on p (λ c. on_state forget_savepoints (set_status idle c)) w in
      if is_idle (w.heap p).tx_status then w' else settle_transaction committed p w'

  -- _transaction_statement
  unfoldable pub transaction : Tag → ℕ → World V S P → World V S P
  unfolding begin_block end_block
  transaction begin p w = begin_block p w
  transaction commit p w = end_block true p w
  transaction rollback p w = end_block false p w

  unfoldable pub rollback_at : ℕ → ℕ → World V S P → World V S P
  unfolding settle
  rollback_at index p w =
      let w' =
        on p (λ c. settle (restore_scope (suc index)) (on_state (drop_savepoints (suc index)) c))
          w in
      on p (set_status in_block) (sync_listeners p w')

  unfoldable pub to_savepoint : SavepointKind → Option ℕ → ℕ → World V S P → Outcome (World V S P)
  unfolding release_at rollback_at
  to_savepoint kind none p w = raise (pg_error invalid_savepoint_specification) w
  to_savepoint release (some index) p w = done (release_at index p w)
  to_savepoint _ (some index) p w = done (rollback_at index p w)

  -- _savepoint_statement in a transaction block
  unfoldable pub savepoint_in_block :
      SavepointKind → String → ℕ → World V S P → Outcome (World V S P)
  unfolding last_index to_savepoint
  savepoint_in_block savepoint name p w = done (on p (on_state (push_savepoint name)) w)
  savepoint_in_block kind name p w =
      to_savepoint kind (last_index (w.heap p).state.savepoints name) p w

  unfoldable pub savepoint_statement :
      SavepointKind → String → ℕ → World V S P → Outcome (World V S P)
  unfolding savepoint_in_block
  savepoint_statement kind name p w =
      if is_idle (w.heap p).tx_status
      then raise (pg_error no_active_sql_transaction) w
      else savepoint_in_block kind name p w
