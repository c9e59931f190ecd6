-- ===== src/Middleware/Settings/Reports.antt =====
-- Reports of changed settings (pg_mimic/middleware.py) queue messages and change nothing else.
use pg_mimic.Prelude.{
  String, Bool, true, false, Option, none, some, List, [], ◌∷◌, arith, string_eq, if◌then◌else◌,
}
use pg_mimic.Prelude.Dict
use pg_mimic.Prelude.Dict.{Dict}
use pg_mimic.Connection.{Connection}
use pg_mimic.Connection
use pg_mimic.World.Delivery.{OutputOnly, OutputOnly-refl, OutputOnly-trans}
use pg_mimic.Middleware.Settings.{
  Host, report_as, report_setting, report_changed, reported_settings, same_entry,
}

module _ {V S P : Type 0} (host : Host V) where
  OutputOnly-report_as :
      (o : Option String) (key : String) (c : Connection V S P)
      → OutputOnly c (report_as host o key c)
  unfolding report_as Connection.report_parameter
  OutputOnly-report_as none key c = OutputOnly-refl c
  OutputOnly-report_as (some reported) key c = ground arith

  pub OutputOnly-report_setting :
      (key : String) (c : Connection V S P) → OutputOnly c (report_setting host key c)
  unfolding report_setting
  OutputOnly-report_setting key c = OutputOnly-report_as (Dict.lookup key reported_settings) key c

  OutputOnly-report_if :
      (b : Bool) (key : String) (c : Connection V S P)
      → OutputOnly c (if b then c else report_setting host key c)
  OutputOnly-report_if true key c = OutputOnly-refl c
  OutputOnly-report_if false key c = OutputOnly-report_setting key c

  pub OutputOnly-report_changed :
      (names : List String) (before : Dict String V) (c : Connection V S P)
      → OutputOnly c (report_changed host names before c)
  unfolding report_changed
  OutputOnly-report_changed [] before c = OutputOnly-refl c
  OutputOnly-report_changed (name ∷ names) before c =
      let same =
        same_entry host (Dict.lookup name before) (Dict.lookup name c.state.session_vars) in
      OutputOnly-trans (OutputOnly-report_if same name c)
        (OutputOnly-report_changed names before (if same then c else report_setting host name c))
