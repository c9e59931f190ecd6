-- ===== src/Server/Connections.antt =====
-- The connections of pg_mimic/server.py by their pid: `_handle_client` registers one under a pid
-- of its own, `cancel` looks one up for a CancelRequest, and `request_cancel` and `_command_loop` of
-- pg_mimic/connection.py keep the task that a cancel is aimed at. What the tasks do is Loop's.
use pg_mimic.Prelude.{
  ℕ, suc, Bool, false, Option, none, some, List, [], ◌∷◌, nat_eq, nat_beq, if◌then◌else◌, ℤ, pos,
  negsuc,
}
use pg_mimic.Prelude.Dict
use pg_mimic.Prelude.Dict.{Dict, lookup-insert, lookup-pop}

-- `_current_task`: None, a task, or a task whose `cancel` was called
pub data Task : Type 0 where
  idle : Task
  running : Task
  cancelling : Task

-- the part of a Connection that BackendKeyData names and a cancel reaches
pub record KeyedConnection : Type 0 where
  pub secret : ℤ
  pub current_task : Task

pub record Server : Type 0 where
  pub next_pid : ℕ
  pub connections : Dict ℕ KeyedConnection

abbrev pub start : Server
start = record { next_pid = 10000; connections = [] }

unfoldable pub same_int : ℤ → ℤ → Bool
same_int (pos a) (pos b) = nat_beq a b
same_int (pos a) (negsuc b) = false
same_int (negsuc a) (pos b) = false
same_int (negsuc a) (negsuc b) = nat_beq a b

unfoldable pub cancel_task : Task → Task
cancel_task idle = idle
cancel_task running = cancelling
cancel_task cancelling = cancelling

unfoldable pub request_cancel : KeyedConnection → KeyedConnection
request_cancel c = record { secret = c.secret; current_task = cancel_task c.current_task }

-- a change of one connection, where it is there
unfoldable pub on_found :
    ℕ → (KeyedConnection → KeyedConnection) → Option KeyedConnection → Server → Server
on_found pid f none s = s
on_found pid f (some c) s = record {
  next_pid = s.next_pid;
  connections = Dict.insert pid (f c) s.connections;
}

unfoldable pub on_connection : ℕ → (KeyedConnection → KeyedConnection) → Server → Server
on_connection pid f s = on_found pid f (Dict.lookup pid s.connections) s

unfoldable pub cancel_by : ℤ → KeyedConnection → KeyedConnection
cancel_by secret c = if same_int c.secret secret then request_cancel c else c

-- the pid is an int32 of the wire
unfoldable pub cancel : ℤ → ℤ → Server → Server
cancel (pos pid) secret s = on_connection pid (cancel_by secret) s
cancel (negsuc k) secret s = s

-- `_allocate_pid`, and the registration
unfoldable pub open_connection : ℤ → Server → Server
open_connection secret s = record {
  next_pid = suc s.next_pid;
  connections =
      Dict.insert s.next_pid (record { secret = secret; current_task = idle }) s.connections;
}

unfoldable pub close_connection : ℕ → Server → Server
close_connection pid s = record { next_pid = s.next_pid; connections = Dict.pop pid s.connections }

unfoldable pub with_task : Task → KeyedConnection → KeyedConnection
with_task t c = record { secret = c.secret; current_task = t }

-- what the connections of a server do, in the order the event loop has it
pub data Event : Type 0 where
  opens : ℤ → Event
  closes : ℕ → Event
  begins : ℕ → Event
  ends : ℕ → Event
  cancels : ℤ → ℤ → Event

unfoldable pub step : Event → Server → Server
step (opens secret) s = open_connection secret s
step (closes pid) s = close_connection pid s
step (begins pid) s = on_connection pid (with_task running) s
step (ends pid) s = on_connection pid (with_task idle) s
step (cancels pid secret) s = cancel pid secret s

unfoldable pub run : List Event → Server → Server
run [] s = s
run (e ∷ es) s = run es (step e s)
