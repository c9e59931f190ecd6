-- ===== src/Tests/Sessions.antt =====
-- The theorems on transactions, subscriptions and the command loop at concrete statements.
use pg_mimic.Prelude.{
  ◌++◌, arith, nat_beq, if◌then◌else◌, string_eq, ◌+◌, String, false, ◌≡◌, refl, List, [], ◌∷◌,
  length,
}
use pg_mimic.State.{SessionState, snapshot, open_scope, restore_scope, initial}
use pg_mimic.State.Scopes.{Above, restore_scope-open_scope}
use pg_mimic.Prelude.{nat_beq_iff}
use pg_mimic.Prelude.Dict
use pg_mimic.Connection.{Connection}
use pg_mimic.World.Registered.{IsConsistent}
use pg_mimic.World.Received.{IsOnce}
use pg_mimic.World.Once.{IsOnce-sync_registry}
use pg_mimic.World.{sync_registry}
use pg_mimic.Server.Registry.{listeners, add_all, remove_all, hears}
use pg_mimic.Server.Husks.{NoHusk, NoHusk-sync}
use pg_mimic.Connection
use pg_mimic.Messages.Backend.{in_block, command_complete}
use pg_mimic.Prelude.Set.{contains}
use pg_mimic.World.{World, on, sync_listeners, drop_listeners}
use pg_mimic.World.Registered.{hears-sync_listeners, hears-drop_listeners}
use pg_mimic.Middleware.Transactions.{begin, commit, rollback}
use pg_mimic.Middleware.Execute.{transaction_control, listen_to}
use pg_mimic.Middleware.Guard.{run_statement, report_error}
use pg_mimic.Errors.{pg_error}
use pg_mimic.Middleware.Validity.{WorldIsValid}
use pg_mimic.Middleware.Validity.Statements.{run_statement-WorldIsValid}
use pg_mimic.Middleware.Inside.Rollback.{IsUndone, run_all, rollback-IsUndone}
use pg_mimic.Middleware.Commit.{IsCommitted, commit-IsCommitted}
use pg_mimic.Loop.{
  Kind, Message, Handler, query, sync, parse, bind, execute, command_loop, raised, leave_ready,
}
use pg_mimic.Loop.Silent.{NeverReady, readies-append, rounds, sent}
use pg_mimic.Loop.Ready.{command_loop-readies}
use pg_mimic.Loop.Skips.{prepend, command_loop-skips}
use pg_mimic.Tests.Fixtures.{
  host, empty_world, empty_world-IsConsistent, empty_world-WorldIsValid, example_commands, echo,
  fresh,
}

rollback-IsUndone_example : IsUndone 1 empty_world (
    run_statement host (transaction_control rollback) 1 (
      run_all host example_commands 1
        (run_statement host (transaction_control begin) 1 empty_world)))
rollback-IsUndone_example =
    rollback-IsUndone host example_commands 1 empty_world empty_world-WorldIsValid refl
      (refl, (refl, (refl, tt)))

run_statement-WorldIsValid_example :
    WorldIsValid (run_statement host (listen_to "news") 1 empty_world)
run_statement-WorldIsValid_example =
    run_statement-WorldIsValid host (listen_to "news") 1 empty_world empty_world-WorldIsValid

abbrev messages : List Message
messages =
    record { kind = parse; payload = [] }
    ∷ record { kind = sync; payload = [] }
    ∷ record { kind = query; payload = [] }
    ∷ []

echo-NeverReady : NeverReady echo 1
unfolding NeverReady Connection.write
echo-NeverReady _ payload w = record {
  sends = omega (arith, readies-append (w.heap 1).written (command_complete "ECHO" ∷ []));
  queues = λ h. h;
}

command_loop-readies_example :
    sent 1 (command_loop echo 1 messages empty_world).2
    ≡ sent 1 empty_world + rounds (command_loop echo 1 messages empty_world).1
command_loop-readies_example = command_loop-readies echo 1 echo-NeverReady messages empty_world refl

abbrev of_kind : Kind → Message
of_kind k = record { kind = k; payload = [] }

abbrev refusing : Handler String (Unit {0}) (Unit {0})
refusing k payload w = (raised (pg_error "42601"), w)

command_loop-skips_example :
    command_loop refusing 1
      (of_kind parse ∷ ((of_kind bind ∷ of_kind execute ∷ []) ++ of_kind sync ∷ of_kind query ∷ []))
      empty_world
    ≡ prepend (of_kind parse ∷ of_kind bind ∷ of_kind execute ∷ []) (
        command_loop refusing 1
          (of_kind sync ∷ of_kind query ∷ [])
          (on 1 (report_error (pg_error "42601")) (on 1 leave_ready empty_world)))
command_loop-skips_example =
    command_loop-skips refusing 1 (of_kind parse) "42601" (of_kind bind ∷ of_kind execute ∷ [])
      (of_kind sync) (of_kind query ∷ []) empty_world (on 1 leave_ready empty_world) refl refl refl
      refl

abbrev started : SessionState String (Unit {0}) (Unit {0})
started = initial "u" "d" ""

restore_scope-open_scope_example :
    (snapshot (
        restore_scope
          (length started.scopes)
          (record (open_scope started) { listening = "news" ∷ [] }))
      ≡ snapshot started)
    × ((restore_scope
          (length started.scopes)
          (record (open_scope started) { listening = "news" ∷ [] })).scopes
        ≡ started.scopes)
restore_scope-open_scope_example =
    restore_scope-open_scope started (record (open_scope started) { listening = "news" ∷ [] })
      (Above.write refl)

hears-sync_listeners_example : hears (sync_listeners 1 empty_world).registry "news" 1 ≡ (
    if nat_beq 1 1
    then contains (empty_world.heap 1).state.listening "news"
    else hears empty_world.registry "news" 1)
hears-sync_listeners_example = hears-sync_listeners 1 empty_world "news" 1 empty_world-IsConsistent

hears-drop_listeners_example : hears (drop_listeners 1 empty_world).registry "news" 1 ≡ false
hears-drop_listeners_example = hears-drop_listeners 1 empty_world "news" empty_world-IsConsistent

NoHusk-sync_example : NoHusk (add_all ("a" ∷ []) 1 (remove_all ("b" ∷ []) 1 []))
NoHusk-sync_example = NoHusk-sync ("b" ∷ []) ("a" ∷ []) 1 [] empty_world-WorldIsValid.no_husk

-- In a block of its own: a LISTEN and a NOTIFY that wait for COMMIT.
abbrev sender : Connection String (Unit {0}) (Unit {0})
sender = record fresh {
  tx_status = in_block;
  state = record started { listening = "news" ∷ []; pending_notifies = ("news", "hi") ∷ [] };
  at_ready_for_query = false;
}

-- Connection 2 listens.
abbrev block_world : World String (Unit {0}) (Unit {0})
block_world = record {
  heap = λ q. if nat_beq 2 q then record fresh { registered_channels = "news" ∷ [] } else sender;
  registry = ("news", 2 ∷ []) ∷ [];
}

block_world-IsConsistent : IsConsistent block_world
unfolding hears listeners Dict.lookup
block_world-IsConsistent ch q = ground (arith, string_eq.beq_iff "news" ch, nat_beq_iff 2 q)

block_world-IsOnce : IsOnce block_world.registry
unfolding hears listeners Dict.lookup
block_world-IsOnce ch q = ground (arith, string_eq.beq_iff "news" ch, nat_beq_iff 2 q)

IsOnce-sync_registry_example :
    IsOnce (sync_registry ("a" ∷ []) ("news" ∷ []) 1 block_world.registry)
IsOnce-sync_registry_example =
    IsOnce-sync_registry ("a" ∷ []) ("news" ∷ []) 1 block_world.registry block_world-IsOnce

commit-IsCommitted_example :
    IsCommitted 1 block_world (run_statement host (transaction_control commit) 1 block_world)
commit-IsCommitted_example =
    commit-IsCommitted host 1 block_world refl block_world-IsConsistent block_world-IsOnce
