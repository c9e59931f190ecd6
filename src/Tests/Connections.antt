-- ===== src/Tests/Connections.antt =====
-- Two clients at a server, and their CancelRequests.
use pg_mimic.Prelude.{◌≡◌, ◌↔◌, refl, pos, negsuc, some, [], ◌∷◌}
use pg_mimic.Prelude.{nat_eq, arith}
use pg_mimic.Prelude.Dict
use pg_mimic.Server.Connections.{
  Server, running, cancelling, start, step, run, opens, begins, cancels, close_connection,
  open_connection, on_connection, on_found, cancel, cancel_by, same_int, with_task,
}
use pg_mimic.Server.Cancel.{cancel-closed}
use pg_mimic.Server.Aim.{step-cancelling}
use pg_mimic.Prelude.{ℕ, List, none, true}
use pg_mimic.Prelude.Dict.{Dict}
use pg_mimic.Wire.Messages.Startup.{parse_startup_message, startup_loop, text_eq}
use pg_mimic.Wire.Messages.Parsers.{read_cstring, cut_cstring, with_offset, zero_index}
use pg_mimic.Wire.Utf8.{decode, decode_from, lead}
use pg_mimic.Server.Negotiate.{
  negotiate_startup, accept, major, negotiate_version, extensions, without, started,
  is_encryption_request,
}
use pg_mimic.Server.Params.{params_of, asking, negotiate_startup-params}

abbrev two_clients : Server
two_clients = record {
  next_pid = 10002;
  connections =
      (10000, record { secret = pos 7; current_task = running })
      ∷ (10001, record { secret = negsuc 4; current_task = running })
      ∷ [];
}

two_clients-run :
    run (opens (pos 7) ∷ opens (negsuc 4) ∷ begins 10000 ∷ begins 10001 ∷ []) start ≡ two_clients
unfolding run step open_connection on_connection on_found with_task Dict.lookup Dict.insert
two_clients-run = refl

wrong_secret : step (cancels (pos 10000) (pos 8)) two_clients ≡ two_clients
unfolding step cancel on_connection on_found cancel_by same_int Dict.lookup Dict.insert
wrong_secret = refl

cancel-closed_example :
    cancel
      (pos 10000)
      (pos 7)
      (run (opens (pos 9) ∷ begins 10002 ∷ []) (close_connection 10000 two_clients))
    ≡ run (opens (pos 9) ∷ begins 10002 ∷ []) (close_connection 10000 two_clients)
cancel-closed_example =
    cancel-closed (opens (pos 9) ∷ begins 10002 ∷ []) 10000 (pos 7) two_clients (omega arith)

step-cancelling_example :
    (Dict.lookup 10001 ((step (cancels (pos 10001) (negsuc 4)) two_clients).connections)
      ≡ some (record { secret = negsuc 4; current_task = cancelling }))
    ↔ (cancels (pos 10001) (negsuc 4) ≡ cancels (pos 10001) (negsuc 4))
unfolding Dict.lookup
step-cancelling_example =
    step-cancelling 10001 two_clients (negsuc 4) (cancels (pos 10001) (negsuc 4)) refl

-- user, a, _pq_.x, 1
abbrev startup_payload : List ℕ
startup_payload =
    117 ∷ 115 ∷ 101 ∷ 114 ∷ 0 ∷ 97 ∷ 0 ∷ 95 ∷ 112 ∷ 113 ∷ 95 ∷ 46 ∷ 120 ∷ 0 ∷ 49 ∷ 0 ∷ 0 ∷ []

abbrev startup_params : Dict (List ℕ) (List ℕ)
startup_params =
    (117 ∷ 115 ∷ 101 ∷ 114 ∷ [], 97 ∷ []) ∷ (95 ∷ 112 ∷ 113 ∷ 95 ∷ 46 ∷ 120 ∷ [], 49 ∷ []) ∷ []

extension_told : negotiate_startup (asking true ((pos 196610, startup_payload) ∷ [])) ≡ (
  true,
  started 196610
      ((117 ∷ 115 ∷ 101 ∷ 114 ∷ [], 97 ∷ []) ∷ [])
      (some ((95 ∷ 112 ∷ 113 ∷ 95 ∷ 46 ∷ 120 ∷ []) ∷ [])),
)
unfolding negotiate_startup accept is_encryption_request same_int major negotiate_version without
    extensions Dict.pop parse_startup_message startup_loop read_cstring cut_cstring zero_index
    with_offset decode decode_from lead Dict.insert
extension_told = refl

negotiate_startup-params_example :
    Dict.lookup
      (95 ∷ 112 ∷ 113 ∷ 95 ∷ 46 ∷ 120 ∷ [])
      (params_of ((negotiate_startup (asking true ((pos 196610, startup_payload) ∷ []))).1))
    ≡ none
unfolding parse_startup_message startup_loop read_cstring cut_cstring zero_index with_offset decode
    decode_from lead Dict.insert
negotiate_startup-params_example =
    negotiate_startup-params true 196610 startup_payload [] startup_params
      (95 ∷ 112 ∷ 113 ∷ 95 ∷ 46 ∷ 120 ∷ []) (omega arith) (omega arith) refl
