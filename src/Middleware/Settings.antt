-- ===== src/Middleware/Settings.antt =====
-- SET, RESET and set_config() of pg_mimic/middleware.py.
pub mod Reports
pub mod Output
use Prim.Native.Char.{code}
use pg_mimic.Prelude.{
  ℕ, String, Bool, true, false, ◌&&◌, ◌≡◌, Option, none, some, List, [], ◌∷◌, ◌++◌, Result, ok, err,
  map, Eq, ◌==◌, nat_eq, string_eq, nat_beq, if◌then◌else◌,
}
use pg_mimic.Prelude.Dict
use pg_mimic.Prelude.Dict.{Dict}
use pg_mimic.Prelude.Set.{contains, add, discard}
use pg_mimic.Errors.{
  Error, pg_error, undefined_object, cant_change_runtime_param, no_active_sql_transaction,
}
use pg_mimic.State.{SessionState}
use pg_mimic.Connection.{Connection}
use pg_mimic.Connection
use pg_mimic.World.{World, on, on_state, is_idle}
use pg_mimic.Middleware.Effect.{Outcome, done, raise, continue, ◌>>>◌}

-- What the settings rest on: the catalogue of parameters (data of pg_settings.json), the reading
-- and the rendering of values (settings_values.py), the defaults that one connection answers from
-- its startup packet and its server (_DEFAULT_SETTINGS), and the two hooks of a Session, which
-- accept or refuse: what a hook does with the application's own state is not the connection's.
pub record Host (V : Type 0) : Type 0 where
  pub same_value : V → V → Bool
  pub parse : String → String → Result Error V
  pub render : String → V → String
  pub setting_default : String → Option String
  pub catalog_default : String → Option String
  pub context : String → Option String
  pub set_parameter : String → Option String → Option V → Result Error (Unit {0})
  pub discard : String → Result Error (Unit {0})

-- "." in name
unfoldable pub is_dotted : String → Bool
is_dotted String.[] = false
is_dotted (String.◌∷◌ c s) = let rest = is_dotted s in if nat_beq (code c) 46 then true else rest

abbrev pub reported_settings : Dict String String
reported_settings =
    ("application_name", "application_name")
    ∷ ("client_encoding", "client_encoding")
    ∷ ("datestyle", "DateStyle")
    ∷ ("intervalstyle", "IntervalStyle")
    ∷ ("is_superuser", "is_superuser")
    ∷ ("search_path", "search_path")
    ∷ ("session_authorization", "session_authorization")
    ∷ ("standard_conforming_strings", "standard_conforming_strings")
    ∷ ("timezone", "TimeZone")
    ∷ []

module _ {V : Type 0} (host : Host V) where
  unfoldable pub check_context : Option String → Result Error (Unit {0})
  check_context none = err (pg_error undefined_object)
  check_context (some context) =
      if context == "user"
      then ok tt
      else (if context == "superuser" then ok tt else err (pg_error cant_change_runtime_param))

  unfoldable pub check_settable : String → Result Error (Unit {0})
  unfolding is_dotted check_context
  check_settable name = if is_dotted name then ok tt else check_context (host.context name)

  unfoldable pub check_all : List (String × Option String) → Result Error (Unit {0})
  unfolding check_settable
  check_all [] = ok tt
  check_all ((name, value) ∷ rest) =
      let others = check_all rest in elim (check_settable name) [ err e ↦ err e | ok u ↦ others ]

  abbrev pub same_entry : Option V → Option V → Bool
  same_entry none none = true
  same_entry none (some b) = false
  same_entry (some a) none = false
  same_entry (some a) (some b) = host.same_value a b

  -- settings_values.parse, and no value to parse for a RESET
  abbrev pub parse_value : String → Option String → Result Error (Option V)
  parse_value key none = ok none
  parse_value key (some text) = elim (host.parse key text) [ ok v ↦ ok (some v) | err e ↦ err e ]

abbrev pub or_blank : Option String → String
or_blank none = ""
or_blank (some t) = t

-- target[key] = value, and target.pop(key, None) for no value
unfoldable pub write_var : {V : Type 0} → Option V → String → Dict String V → Dict String V
write_var none key target = Dict.pop key target
write_var (some value) key target = Dict.insert key value target

module _ {V S P : Type 0} where
  -- What _record_setting writes; `stored` is none for a setting that is dropped.
  unfoldable pub record_setting : String → Option V → Bool → SessionState V S P → SessionState V S P
  unfolding write_var
  record_setting key stored local s = record s {
    known_settings = add key s.known_settings;
    session_vars = write_var stored key s.session_vars;
    committed_vars = if local then s.committed_vars else write_var stored key s.committed_vars;
  }

  -- What the undo that _record_setting hands back does, `old` being the state before the write.
  unfoldable pub undo_setting :
      String → Bool → SessionState V S P → SessionState V S P → SessionState V S P
  unfolding write_var
  undo_setting key local old s = record s {
    known_settings =
        if contains old.known_settings key then s.known_settings else discard key s.known_settings;
    session_vars = write_var (Dict.lookup key old.session_vars) key s.session_vars;
    committed_vars =
        if local
        then s.committed_vars
        else write_var (Dict.lookup key old.committed_vars) key s.committed_vars;
  }

-- The first of the answers that there is.
infixr 30 ◌or_else◌
abbrev pub ◌or_else◌ {ℓ} : {A : Type ℓ} → Option A → Option A → Option A
some a or_else b = some a
none or_else b = b

module _ {V S P : Type 0} (host : Host V) where
  unfoldable pub setting_value : SessionState V S P → String → Option String
  setting_value s key = elim (Dict.lookup key s.session_vars) [
    | some value ↦ some (host.render key value)
    | none ↦
        host.setting_default key
        or_else host.catalog_default key
        or_else (if contains s.known_settings key then some "" else none)
  ]

  unfoldable pub report_as : Option String → String → Connection V S P → Connection V S P
  report_as none key c = c
  report_as (some reported) key c =
      Connection.report_parameter reported (or_blank (setting_value c.state key)) c

  unfoldable pub report_setting : String → Connection V S P → Connection V S P
  unfolding report_as
  report_setting key c = report_as (Dict.lookup key reported_settings) key c

  -- for name in names: if before.get(name) != after.get(name): _report_setting(name)
  unfoldable pub report_changed : List String → Dict String V → Connection V S P → Connection V S P
  unfolding report_setting
  report_changed [] before c = c
  report_changed (name ∷ names) before c = report_changed names before (
      if same_entry host (Dict.lookup name before) (Dict.lookup name c.state.session_vars)
      then c
      else report_setting name c)

  -- What follows the answer of Session.set_parameter: a refusal undoes the write.
  unfoldable pub finish_setting :
      Result Error (Unit {0})
      → String
      → Bool
      → SessionState V S P
      → ℕ
      → World V S P
      → Outcome (World V S P)
  unfolding undo_setting report_setting
  finish_setting (ok u) key local old p w = done w
  finish_setting (err e) key local old p w =
      raise e (on p (λ c. report_setting key (on_state (undo_setting key local old) c)) w)

  unfoldable pub apply_parsed :
      Result Error (Option V)
      → String
      → Option String
      → Bool
      → ℕ
      → World V S P
      → Outcome (World V S P)
  unfolding record_setting report_setting finish_setting
  apply_parsed (err e) key value local p w = raise e w
  apply_parsed (ok stored) key value local p w =
      finish_setting (host.set_parameter key value stored) key local (w.heap p).state p
        (on p (λ c. report_setting key (on_state (record_setting key stored local) c)) w)

  unfoldable pub apply_set_config :
      String → Option String → Bool → ℕ → World V S P → Outcome (World V S P)
  unfolding check_settable apply_parsed
  apply_set_config key value local p w =
      continue (check_settable host key) w
        (apply_parsed (parse_value host key value) key value local p)

  unfoldable pub apply_all :
      List (String × Option String) → Bool → ℕ → World V S P → Outcome (World V S P)
  unfolding apply_set_config
  apply_all [] local p w = done w
  apply_all ((name, value) ∷ rest) local p w =
      apply_set_config name value local p w >>> apply_all rest local p

  -- _assignment_statement
  unfoldable pub assign :
      List (String × Option String) → Bool → ℕ → World V S P → Outcome (World V S P)
  unfolding check_all apply_all
  assign assignments local p w =
      let outside = local && is_idle (w.heap p).tx_status in
      let w' = if outside then on p (Connection.notice true no_active_sql_transaction) w else w in
      continue (check_all host assignments) w'
        (λ w. if outside then done w else apply_all assignments local p w)

  unfoldable pub reset_each : List String → ℕ → World V S P → Outcome (World V S P)
  unfolding apply_set_config
  reset_each [] p w = done w
  reset_each (name ∷ names) p w = apply_set_config name none false p w >>> reset_each names p

  unfoldable pub reset_all : ℕ → World V S P → Outcome (World V S P)
  unfolding reset_each
  reset_all p w = reset_each (map (λ entry. entry.0) (w.heap p).state.session_vars) p w
