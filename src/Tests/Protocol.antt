-- ===== src/Tests/Protocol.antt =====
-- The handlers over a session that answers every statement with one row.
use pg_mimic.Prelude.{
  ℕ, ◌+◌, String, ◌≡◌, true, false, refl, List, [], ◌∷◌, some, ok, ◌==◌, string_eq, pos,
}
use pg_mimic.State.{initial}
use pg_mimic.Messages.Backend.{idle, row_description, data_row}
use pg_mimic.Connection.{Connection}
use pg_mimic.World.{World}
use pg_mimic.Arrays.{scalar}
use pg_mimic.Rows.{format_code_for}
use pg_mimic.Loop.{query, sync, Message, command_loop}
use pg_mimic.Loop.Silent.{sent, rounds, IsSilent-refl}
use pg_mimic.Protocol.Session.{ResultColumn, Row, PortalEntry, Session}
use pg_mimic.Protocol.Values.{field_specs, encode_row, encode_cell}
use pg_mimic.Protocol.Handlers.{handler, execute_one_simple_statement}
use pg_mimic.Protocol.Quiet.{IsSilentSession}
use pg_mimic.Protocol.Silent.{serve-readies}
use pg_mimic.Protocol.Results.{results}
use pg_mimic.Protocol.Ends.{no_rows, a_row}
use pg_mimic.Protocol.Steady.{table, IsSteady}
use pg_mimic.Protocol.Agree.{extended, extended-agrees}

abbrev Cell : Type 0
Cell = List ℕ

abbrev one_row : List (Row Cell)
one_row = (some (49 ∷ []) ∷ []) ∷ []

abbrev one_column : List ResultColumn
one_column = record { name = "n"; oid = pos 25 } ∷ []

-- every text is the same statement, and no text is the name of nothing
abbrev to_string : List ℕ → String
to_string [] = ""
to_string (c ∷ s) = "SELECT"

abbrev session : Session String String (List (Row Cell)) Cell
session = record {
  str = to_string;
  is_blank = λ sql. sql == "";
  split_statements = λ sql. sql ∷ [];
  command_tag = λ sql n. sql;
  allowed = λ sql. false;
  prepare = λ sql oids w. (ok sql, w);
  describe = λ statement w. (ok (some one_column), w);
  make_portal = λ statement params. ok one_row;
  sql_of = λ statement. statement;
  param_oids = λ statement. [];
  run_portal = λ portal n w. (ok (ok (portal, false), []), w);
  is_copy_statement = λ statement. false;
  is_copy_portal = λ portal. false;
  copied_statement = λ portal. "";
  is_copy_in = λ statement. true;
  run_copy_in = λ statement w. (ok 0, w);
  run_copy_out = λ statement w. (ok 0, w);
  encode_text = λ oid cell. ok cell;
  encode_binary = λ oid cell. ok cell;
  decode_binary = λ oid bytes. ok (scalar (some bytes));
}

abbrev newcomer : Connection String String (PortalEntry (List (Row Cell)))
newcomer = record {
  pid = 1;
  state = initial "u" "d" "";
  tx_status = idle;
  ignore_until_sync = false;
  pending_parameter_status = [];
  pending_async = [];
  at_ready_for_query = true;
  registered_channels = [];
  written = [];
}

abbrev newcomers : World String String (PortalEntry (List (Row Cell)))
newcomers = record { heap = λ q. newcomer; registry = [] }

session-IsSilentSession : IsSilentSession session 1
session-IsSilentSession = record {
  prepares = λ sql oids. record { silently = λ w. IsSilent-refl (w.heap 1) };
  describes = λ statement. record { silently = λ w. IsSilent-refl (w.heap 1) };
  runs = λ portal n. record { silently = λ w. IsSilent-refl (w.heap 1) };
  copies_in = λ statement. record { silently = λ w. IsSilent-refl (w.heap 1) };
  copies_out = λ statement. record { silently = λ w. IsSilent-refl (w.heap 1) };
}

-- a Query with one character, and a Sync
abbrev served : List Message
served = record { kind = query; payload = 49 ∷ 0 ∷ [] } ∷ record { kind = sync; payload = [] } ∷ []

serve-readies_example :
    sent 1 (command_loop (handler session 1) 1 served newcomers).2
    ≡ sent 1 newcomers + rounds (command_loop (handler session 1) 1 served newcomers).1
serve-readies_example = serve-readies session 1 session-IsSilentSession served newcomers refl

abbrev text : List ℕ
text = 49 ∷ []

text-IsSteady :
    IsSteady session "SELECT" "SELECT"
      (some one_column)
      one_row
      []
      one_row
      (row_description (record { name = "n"; oid = pos 25; format_code = pos 0 } ∷ []) ∷ [])
      (data_row (some (49 ∷ []) ∷ []) ∷ [])
unfolding field_specs encode_row encode_cell format_code_for
text-IsSteady = record {
  filled = refl;
  worded = refl;
  prepares = λ w. refl;
  named = refl;
  no_copy_statement = refl;
  no_copy_portal = refl;
  describes = λ w. refl;
  binds = refl;
  runs = λ w. refl;
  shows = table refl (a_row refl no_rows);
}

extended-agrees_example :
    ((extended session 1 text [] [] "SELECT"
        (some one_column)
        one_row
        []
        one_row
        _
        _
        text-IsSteady
        newcomers).0
      ≡ ok tt)
    × ((execute_one_simple_statement session 1 "SELECT" newcomers).0 ≡ ok tt)
    × (results
          ((extended session 1 text [] [] "SELECT"
              (some one_column)
              one_row
              []
              one_row
              _
              _
              text-IsSteady
              newcomers).1.heap
            1).written
        ≡ results ((execute_one_simple_statement session 1 "SELECT" newcomers).1.heap 1).written)
extended-agrees_example =
    extended-agrees session 1 text [] [] "SELECT" (some one_column) one_row [] one_row _ _
      text-IsSteady newcomers refl
