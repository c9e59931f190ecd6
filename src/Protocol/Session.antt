-- ===== src/Protocol/Session.antt =====
-- What a connection asks of the application: BaseSession, Statement and Portal of
-- pg_mimic/session.py as a record of operations, with the functions on SQL texts and values that the
-- handlers only call.
use pg_mimic.Prelude.{ℕ, String, Bool, List, Option, Result, ℤ}
use pg_mimic.Errors.{Error}
use pg_mimic.World.{World}
use pg_mimic.Arrays.{Value}
use pg_mimic.Protocol.Action.{Action}

pub record ResultColumn : Type 0 where
  pub name : String
  pub oid : ℤ

-- a row of cells, `none` for NULL
abbrev pub Row : Type 0 → Type 0
Row C = List (Option C)

-- a bound portal in state.portals, for the type `Q` of Portal objects
pub record PortalEntry (Q : Type 0) : Type 0 where
  pub portal : Q
  pub columns : Option (List ResultColumn)
  pub sql : String
  pub rows_returned : ℕ
  pub result_format_codes : List ℤ

-- `V` is the type of setting values, `S` of Statement and `Q` of Portal objects, `C` of cells.
pub record Session (V S Q C : Type 0) : Type 0 where
  -- a list of code points as a str
  pub str : List ℕ → String
  -- not sql.strip()
  pub is_blank : String → Bool
  -- split_statements and command_tag
  pub split_statements : String → List String
  pub command_tag : String → ℕ → String
  -- allowed_in_failed_transaction
  pub allowed : String → Bool
  pub prepare : String → List (Option ℤ) → Action (World V S (PortalEntry Q)) S
  pub describe : S → Action (World V S (PortalEntry Q)) (Option (List ResultColumn))
  pub make_portal : S → List Value → Result Error Q
  pub sql_of : S → String
  pub param_oids : S → List (Option ℤ)
  -- Portal.execute: the rows and whether the limit was hit, or what it raised, and the portal as it
  -- is afterwards
  pub run_portal :
      Q → ℤ → Action (World V S (PortalEntry Q)) (Result Error (List (Row C) × Bool) × Q)
  -- isinstance(statement, CopyStatement), isinstance(portal, CopyPortal) and its statement, whether a
  -- direction is DIRECTION_IN, and _copy_in and _copy_out with the rows that they count, which the
  -- modules of Copy are about
  pub is_copy_statement : S → Bool
  pub is_copy_portal : Q → Bool
  pub copied_statement : Q → S
  pub is_copy_in : S → Bool
  pub run_copy_in : S → Action (World V S (PortalEntry Q)) ℕ
  pub run_copy_out : S → Action (World V S (PortalEntry Q)) ℕ
  -- encode_value(...).encode(), encode_value_binary and decode_binary_param
  pub encode_text : ℤ → C → Result Error (List ℕ)
  pub encode_binary : ℤ → C → Result Error (List ℕ)
  pub decode_binary : ℤ → List ℕ → Result Error Value
