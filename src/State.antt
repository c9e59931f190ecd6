-- ===== src/State.antt =====
-- pg_mimic/state.py: what a connection knows beyond one statement, and the stack of snapshots that
-- makes settings and subscriptions transactional. `V` is the type of setting values, `S` of
-- prepared statements and `P` of portals.
pub mod Scopes
use pg_mimic.Prelude.{ℕ, String, ◌≡◌, Option, none, some, List, [], ◌∷◌, ◌++◌, get_elem?, take}
use pg_mimic.Prelude.Dict.{Dict}

pub record Scope (V : Type 0) : Type 0 where
  pub session_vars : Dict String V
  pub committed_vars : Dict String V
  pub listening : List String
  pub pending_notifies : List (String × String)

pub record SessionState (V S P : Type 0) : Type 0 where
  pub username : String
  pub database : String
  pub application_name : String
  pub session_vars : Dict String V
  pub committed_vars : Dict String V
  pub known_settings : List String
  pub listening : List String
  pub pending_notifies : List (String × String)
  pub scopes : List (Scope V)
  pub statements : Dict String S
  pub portals : Dict String P
  pub savepoints : List String

module _ {V S P : Type 0} where
  unfoldable pub initial : String → String → String → SessionState V S P
  initial username database application_name = record {
    username = username;
    database = database;
    application_name = application_name;
    session_vars = [];
    committed_vars = [];
    known_settings = [];
    listening = [];
    pending_notifies = [];
    scopes = [];
    statements = [];
    portals = [];
    savepoints = [];
  }

  -- DISCARD ALL
  unfoldable pub reset : SessionState V S P → SessionState V S P
  reset s = record s {
    session_vars = [];
    committed_vars = [];
    listening = [];
    pending_notifies = [];
    scopes = [];
    statements = [];
    portals = [];
    savepoints = [];
  }

  abbrev pub snapshot : SessionState V S P → Scope V
  snapshot s = record {
    session_vars = s.session_vars;
    committed_vars = s.committed_vars;
    listening = s.listening;
    pending_notifies = s.pending_notifies;
  }

  unfoldable pub open_scope : SessionState V S P → SessionState V S P
  open_scope s = record s { scopes = s.scopes ++ snapshot s ∷ [] }

  unfoldable pub discard_scopes : ℕ → SessionState V S P → SessionState V S P
  discard_scopes depth s = record s { scopes = take depth s.scopes }

  -- `depth >= len(self._scopes)` is `none`
  unfoldable pub restore_from : Option (Scope V) → ℕ → SessionState V S P → SessionState V S P
  restore_from none depth s = s
  restore_from (some scope) depth s = record s {
    session_vars = scope.session_vars;
    committed_vars = scope.committed_vars;
    listening = scope.listening;
    pending_notifies = scope.pending_notifies;
    scopes = take depth s.scopes;
  }

  unfoldable pub restore_scope : ℕ → SessionState V S P → SessionState V S P
  unfolding restore_from
  restore_scope depth s = restore_from (get_elem? s.scopes depth) depth s

  unfoldable pub commit_transaction : SessionState V S P → SessionState V S P
  commit_transaction s = record s { session_vars = s.committed_vars; scopes = [] }

  unfoldable pub end_transaction : SessionState V S P → SessionState V S P
  unfolding restore_scope
  end_transaction s = record (restore_scope 0 s) { scopes = [] }

  unfoldable pub take_pending_notifies :
      SessionState V S P → List (String × String) × SessionState V S P
  take_pending_notifies s = (s.pending_notifies, record s { pending_notifies = [] })
