-- ===== src/Middleware/Settings/Output.antt =====
-- Reports of changed settings (pg_mimic/middleware.py) wait for the next ReadyForQuery: nothing is
-- written and no message that may come at any time is queued.
use pg_mimic.Prelude.{
  String, Bool, true, false, Option, none, some, List, [], ◌∷◌, refl, string_eq, if◌then◌else◌,
}
use pg_mimic.Prelude.Dict
use pg_mimic.Prelude.Dict.{Dict}
use pg_mimic.Connection.{Connection}
use pg_mimic.Connection
use pg_mimic.World.Received.{SameOutput, SameOutput-refl, SameOutput-trans}
use pg_mimic.Middleware.Settings.{
  Host, report_as, report_setting, report_changed, reported_settings, same_entry,
}

module _ {V S P : Type 0} (host : Host V) where
  SameOutput-report_as :
      (o : Option String) (key : String) (c : Connection V S P)
      → SameOutput (report_as host o key c) c
  unfolding report_as Connection.report_parameter
  SameOutput-report_as none key c = SameOutput-refl c
  SameOutput-report_as (some reported) key c = record {
    written = refl;
    pending_async = refl;
    at_ready_for_query = refl;
  }

  SameOutput-report_if :
      (b : Bool) (key : String) (c : Connection V S P)
      → SameOutput (if b then c else report_setting host key c) c
  unfolding report_setting
  SameOutput-report_if true key c = SameOutput-refl c
  SameOutput-report_if false key c = SameOutput-report_as (Dict.lookup key reported_settings) key c

  pub SameOutput-report_changed :
      (names : List String) (before : Dict String V) (c : Connection V S P)
      → SameOutput (report_changed host names before c) c
  unfolding report_changed
  SameOutput-report_changed [] before c = SameOutput-refl c
  SameOutput-report_changed (name ∷ names) before c =
      let same =
        same_entry host (Dict.lookup name before) (Dict.lookup name c.state.session_vars) in
      SameOutput-trans
        (SameOutput-report_changed names before (if same then c else report_setting host name c))
        (SameOutput-report_if same name c)
