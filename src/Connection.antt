-- ===== src/Connection.antt =====
-- pg_mimic/connection.py: the state of a connection and the messages that it sends unasked.
-- `written` is the sequence of messages that went to the stream.
use pg_mimic.Prelude.{ℕ, String, Bool, List, [], ◌∷◌, ◌++◌, string_eq, if◌then◌else◌}
use pg_mimic.Prelude.Dict
use pg_mimic.Prelude.Dict.{Dict}
use pg_mimic.State.{SessionState}
use pg_mimic.Messages.Backend.{TxStatus, Backend, parameter_status, notification, notice_response}

pub record Connection (V S P : Type 0) : Type 0 where
  pub pid : ℕ
  pub state : SessionState V S P
  pub tx_status : TxStatus
  pub ignore_until_sync : Bool
  pub pending_parameter_status : Dict String String
  pub pending_async : List Backend
  pub at_ready_for_query : Bool
  pub registered_channels : List String
  pub written : List Backend

abbrev pub reports : Dict String String → List Backend
reports [] = []
reports ((name, value) ∷ d) = parameter_status name value ∷ reports d

module _ {V S P : Type 0} where
  -- self.stream.write(message)
  unfoldable pub write : Backend → Connection V S P → Connection V S P
  write m c = record c { written = c.written ++ m ∷ [] }

  unfoldable pub report_parameter : String → String → Connection V S P → Connection V S P
  report_parameter name value c = record c {
    pending_parameter_status = Dict.insert name value c.pending_parameter_status;
  }

  unfoldable pub flush_parameter_status : Connection V S P → Connection V S P
  flush_parameter_status c = record c {
    written = c.written ++ reports c.pending_parameter_status;
    pending_parameter_status = [];
  }

  unfoldable pub deliver_async : Backend → Connection V S P → Connection V S P
  unfolding write
  deliver_async m c =
      if c.at_ready_for_query
      then write m c
      else record c { pending_async = c.pending_async ++ m ∷ [] }

  unfoldable pub flush_async : Connection V S P → Connection V S P
  flush_async c = record c { written = c.written ++ c.pending_async; pending_async = [] }

  -- `in_own_command` is what _in_own_command() answers: the caller runs in this connection's task.
  unfoldable pub notice : Bool → String → Connection V S P → Connection V S P
  unfolding write deliver_async
  notice in_own_command sqlstate c =
      if in_own_command
      then write (notice_response sqlstate) c
      else deliver_async (notice_response sqlstate) c

  unfoldable pub notify : ℕ → String → String → Connection V S P → Connection V S P
  unfolding deliver_async
  notify from channel payload c = deliver_async (notification from channel payload) c
