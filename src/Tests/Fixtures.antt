-- ===== src/Tests/Fixtures.antt =====
-- A server with fresh connections and a host that accepts every setting.
use pg_mimic.Prelude.{String, true, false, refl, none, some, List, [], ◌∷◌, ok, ◌==◌, string_eq}
use pg_mimic.Prelude.Dict
use pg_mimic.State.{initial}
use pg_mimic.Messages.Backend.{idle, command_complete}
use pg_mimic.Connection
use pg_mimic.Connection.{Connection}
use pg_mimic.World.{World, on}
use pg_mimic.World.Registered.{IsConsistent}
use pg_mimic.Server.Registry.{hears}
use pg_mimic.Middleware.Settings.{Host}
use pg_mimic.Middleware.Transactions.{savepoint}
use pg_mimic.Middleware.Execute.{Command, listen_to, assignment, savepoint_control}
use pg_mimic.Middleware.Validity.{WorldIsValid}
use pg_mimic.Loop.{Handler, returned}

abbrev pub host : Host String
host = record {
  same_value = λ a b. a == b;
  parse = λ key text. ok text;
  render = λ key value. value;
  setting_default = λ key. none;
  catalog_default = λ key. none;
  context = λ key. some "user";
  set_parameter = λ key text value. ok tt;
  discard = λ kind. ok tt;
}

abbrev pub fresh : Connection String (Unit {0}) (Unit {0})
fresh = record {
  pid = 1;
  state = initial "u" "d" "";
  tx_status = idle;
  ignore_until_sync = false;
  pending_parameter_status = [];
  pending_async = [];
  at_ready_for_query = true;
  registered_channels = [];
  written = [];
}

abbrev pub empty_world : World String (Unit {0}) (Unit {0})
empty_world = record { heap = λ q. fresh; registry = [] }

pub empty_world-IsConsistent : IsConsistent empty_world
unfolding hears initial Dict.lookup
empty_world-IsConsistent channel q = refl

pub empty_world-WorldIsValid : WorldIsValid empty_world
unfolding initial Dict.lookup
empty_world-WorldIsValid = record {
  each = λ q. record { settled = (refl, refl, refl, refl); registered = λ e. refl };
  consistent = empty_world-IsConsistent;
  no_husk = λ c e. cc;
}

-- LISTEN, SET and SAVEPOINT in one transaction
abbrev pub example_commands : List (Command (Unit {0}))
example_commands =
    listen_to "news"
    ∷ assignment (("work_mem", some "4MB") ∷ []) false
    ∷ savepoint_control savepoint "sp"
    ∷ []

-- Every message is answered with a CommandComplete.
abbrev pub echo : Handler String (Unit {0}) (Unit {0})
echo _ payload w = (returned, on 1 (Connection.write (command_complete "ECHO")) w)
