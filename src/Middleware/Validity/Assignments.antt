-- ===== src/Middleware/Validity/Assignments.antt =====
-- SET, RESET and set_config() of pg_mimic/middleware.py keep the transaction invariant, whatever the
-- session accepts or refuses.
use pg_mimic.Prelude.{
  ℕ, String, ◌≡◌, refl, ◌∙◌, ap, Bool, true, false, ◌&&◌, Option, none, List, [], ◌∷◌, Result, ok,
  err, arith, nat_beq, if◌then◌else◌, string_eq,
}
use pg_mimic.Errors.{Error, no_active_sql_transaction}
use pg_mimic.State.{SessionState}
use pg_mimic.Messages.Backend.{TxStatus, idle, in_block, failed}
use pg_mimic.Connection.{Connection}
use pg_mimic.Connection
use pg_mimic.World.{World, on, on_state, is_idle}
use pg_mimic.World.Delivery.{OutputOnly, Quiet, Quiet-on}
use pg_mimic.Middleware.Effect.{Outcome, done, continue}
use pg_mimic.Middleware.Settings.{
  Host, record_setting, undo_setting, write_var, report_setting, finish_setting, apply_parsed,
  apply_set_config, check_settable, check_all, apply_all, assign, reset_each, parse_value,
}
use pg_mimic.Middleware.Settings.Reports.{OutputOnly-report_setting}
use pg_mimic.Middleware.Validity.{Settled, IsValid, WorldIsValid}
use pg_mimic.Middleware.Validity.Steps.{WorldIsValid-on, WorldIsValid-Quiet, heap-on}

-- A local write comes only in an open block.
abbrev pub LocalInBlock : Bool → TxStatus → Type 0
LocalInBlock local t = (local && is_idle t) ≡ false

module _ {V S P : Type 0} where
  Settled-record :
      (key : String) (stored : Option V) (local : Bool) (t : TxStatus) (s : SessionState V S P)
      → LocalInBlock local t
      → Settled t s
      → Settled t (record_setting key stored local s)
  unfolding record_setting
  Settled-record key stored true idle s l h = cc
  Settled-record key stored false idle s l h = (h.0, h.1, h.2, ap (write_var stored key) h.3)
  Settled-record key stored local in_block s l h = h
  Settled-record key stored local failed s l h = h

  Settled-undo :
      (key : String) (local : Bool) (t : TxStatus) (old s : SessionState V S P)
      → LocalInBlock local t
      → Settled t old
      → Settled t s
      → Settled t (undo_setting key local old s)
  unfolding undo_setting
  Settled-undo key true idle old s l g h = cc
  Settled-undo key false idle old s l g h = (h.0, h.1, h.2, rw (g.3, h.3) refl)
  Settled-undo key local in_block old s l g h = h
  Settled-undo key local failed old s l g h = h

module _ {V S P : Type 0} where
  -- `w'` is valid too; `p` has its transaction status and its frames, and nothing else changed.
  pub record Keeps (p : ℕ) (w w' : World V S P) : Type 0 where
    pub valid : WorldIsValid w'
    pub status : (w'.heap p).tx_status ≡ (w.heap p).tx_status
    pub scopes : (w'.heap p).state.scopes ≡ (w.heap p).state.scopes
    pub others : (q : ℕ) → nat_beq p q ≡ false → w'.heap q ≡ w.heap q

  pub Keeps-refl : (p : ℕ) (w : World V S P) → WorldIsValid w → Keeps p w w
  Keeps-refl p w v = record { valid = v; status = refl; scopes = refl; others = λ q ne. refl }

  Keeps-trans : (p : ℕ) {u v w : World V S P} → Keeps p u v → Keeps p v w → Keeps p u w
  Keeps-trans p a b = record {
    valid = b.valid;
    status = b.status ∙ a.status;
    scopes = b.scopes ∙ a.scopes;
    others = λ q ne. b.others q ne ∙ a.others q ne;
  }

  pub Keeps-continue :
      (p : ℕ) (u : World V S P) (r : Result Error (Unit {0})) (w : World V S P)
      (f : World V S P → Outcome (World V S P))
      → Keeps p u w
      → Keeps p u (f w).1
      → Keeps p u (continue r w f).1
  Keeps-continue p u (ok t) w f a b = b
  Keeps-continue p u (err e) w f a b = a

  pub Keeps-notice :
      (b : Bool) (p : ℕ) (w : World V S P)
      → WorldIsValid w
      → Keeps p w (if b then on p (Connection.notice true no_active_sql_transaction) w else w)
  Keeps-notice true p w v = record {
    valid = WorldIsValid-Quiet quiet v;
    status = (quiet.heap p).tx_status;
    scopes = ap (λ s. s.scopes) (quiet.heap p).state;
    others = λ q ne. rw ne refl;
  }
    where
      quiet : Quiet w (on p (Connection.notice true no_active_sql_transaction) w)
      quiet =
          Quiet-on p (Connection.notice true no_active_sql_transaction) w
            (unfold Connection.notice in ground arith)
  Keeps-notice false p w v = Keeps-refl p w v

module _ {V S P : Type 0} (host : Host V) where
  -- A step on the state that keeps the invariant, followed by a report.
  IsValid-reported :
      (f : SessionState V S P → SessionState V S P) (key : String) (c : Connection V S P)
      → (f c.state).listening ≡ c.state.listening
      → Settled c.tx_status (f c.state)
      → IsValid c
      → IsValid (report_setting host key (on_state f c))
  IsValid-reported f key c kept settled v = record {
    settled = rw (o.tx_status, o.state) settled;
    registered =
        λ e. rw (o.registered_channels, o.state, kept) (v.registered (rw o.tx_status at e));
  }
    where
      o : OutputOnly (on_state f c) (report_setting host key (on_state f c))
      o = OutputOnly-report_setting host key (on_state f c)

  Keeps-reported :
      (f : SessionState V S P → SessionState V S P) (key : String) (p : ℕ) (w : World V S P)
      → (f (w.heap p).state).listening ≡ (w.heap p).state.listening
      → (f (w.heap p).state).scopes ≡ (w.heap p).state.scopes
      → Settled (w.heap p).tx_status (f (w.heap p).state)
      → WorldIsValid w
      → Keeps p w (on p (λ c. report_setting host key (on_state f c)) w)
  Keeps-reported f key p w kept frames settled v = record {
    valid =
        WorldIsValid-on p (λ c. report_setting host key (on_state f c)) w o.registered_channels
          (IsValid-reported f key (w.heap p) kept settled) v;
    status = rw (heap-on p (λ c. report_setting host key (on_state f c)) w) o.tx_status;
    scopes = rw (heap-on p (λ c. report_setting host key (on_state f c)) w, o.state) frames;
    others = λ q ne. rw ne refl;
  }
    where
      o : OutputOnly (on_state f (w.heap p)) (report_setting host key (on_state f (w.heap p)))
      o = OutputOnly-report_setting host key (on_state f (w.heap p))

  finish_setting-Keeps :
      (r : Result Error (Unit {0})) (key : String) (local : Bool) (old : SessionState V S P) (p : ℕ)
      (w : World V S P)
      → LocalInBlock local (w.heap p).tx_status
      → Settled (w.heap p).tx_status old
      → WorldIsValid w
      → Keeps p w (finish_setting host r key local old p w).1
  unfolding finish_setting
  finish_setting-Keeps (ok u) key local old p w l h v = Keeps-refl p w v
  finish_setting-Keeps (err e) key local old p w l h v =
      Keeps-reported (undo_setting key local old) key p w (unfold undo_setting in refl)
        (unfold undo_setting in refl)
        (Settled-undo key local (w.heap p).tx_status old (w.heap p).state l h (v.each p).settled) v

  apply_parsed-Keeps :
      (r : Result Error (Option V)) (key : String) (value : Option String) (local : Bool) (p : ℕ)
      (w : World V S P)
      → LocalInBlock local (w.heap p).tx_status
      → WorldIsValid w
      → Keeps p w (apply_parsed host r key value local p w).1
  unfolding apply_parsed
  apply_parsed-Keeps (err e) key value local p w l v = Keeps-refl p w v
  apply_parsed-Keeps (ok stored) key value local p w l v = Keeps-trans p recorded (
      finish_setting-Keeps (host.set_parameter key value stored) key local (w.heap p).state p _
        (rw recorded.status l) (rw recorded.status (v.each p).settled) recorded.valid)
    where
      recorded :
          Keeps p w
            (on p (λ c. report_setting host key (on_state (record_setting key stored local) c)) w)
      recorded =
          Keeps-reported (record_setting key stored local) key p w (unfold record_setting in refl)
            (unfold record_setting in refl)
            (Settled-record key stored local (w.heap p).tx_status (w.heap p).state l
              (v.each p).settled)
            v

  pub apply_set_config-Keeps :
      (key : String) (value : Option String) (local : Bool) (p : ℕ) (w : World V S P)
      → LocalInBlock local (w.heap p).tx_status
      → WorldIsValid w
      → Keeps p w (apply_set_config host key value local p w).1
  unfolding apply_set_config
  apply_set_config-Keeps key value local p w l v =
      Keeps-continue p w (check_settable host key) w
        (apply_parsed host (parse_value host key value) key value local p) (Keeps-refl p w v)
        (apply_parsed-Keeps (parse_value host key value) key value local p w l v)

  apply_all-Keeps :
      (assignments : List (String × Option String)) (local : Bool) (p : ℕ) (w : World V S P)
      → LocalInBlock local (w.heap p).tx_status
      → WorldIsValid w
      → Keeps p w (apply_all host assignments local p w).1
  unfolding apply_all
  apply_all-Keeps [] local p w l v = Keeps-refl p w v
  apply_all-Keeps ((name, value) ∷ rest) local p w l v =
      Keeps-continue p w (apply_set_config host name value local p w).0 w'
        (apply_all host rest local p) first
        (Keeps-trans p first (apply_all-Keeps rest local p w' (rw first.status l) first.valid))
    where
      w' : World V S P
      w' = (apply_set_config host name value local p w).1

      first : Keeps p w w'
      first = apply_set_config-Keeps name value local p w l v

  pub reset_each-Keeps :
      (names : List String) (p : ℕ) (w : World V S P)
      → WorldIsValid w
      → Keeps p w (reset_each host names p w).1
  unfolding reset_each
  reset_each-Keeps [] p w v = Keeps-refl p w v
  reset_each-Keeps (name ∷ names) p w v =
      Keeps-continue p w (apply_set_config host name none false p w).0 w' (reset_each host names p)
        first (Keeps-trans p first (reset_each-Keeps names p w' first.valid))
    where
      w' : World V S P
      w' = (apply_set_config host name none false p w).1

      first : Keeps p w w'
      first = apply_set_config-Keeps name none false p w refl v

  assign_inside-Keeps :
      (outside : Bool) (assignments : List (String × Option String)) (local : Bool) (p : ℕ)
      (w : World V S P)
      → (local && is_idle (w.heap p).tx_status) ≡ outside
      → WorldIsValid w
      → Keeps p w (if outside then done w else apply_all host assignments local p w).1
  assign_inside-Keeps true assignments local p w e v = Keeps-refl p w v
  assign_inside-Keeps false assignments local p w e v = apply_all-Keeps assignments local p w e v

  -- SET and RESET keep the world valid.
  pub assign-Keeps :
      (assignments : List (String × Option String)) (local : Bool) (p : ℕ) (w : World V S P)
      → WorldIsValid w
      → Keeps p w (assign host assignments local p w).1
  unfolding assign
  assign-Keeps assignments local p w v =
      Keeps-continue p w (check_all host assignments) w'
        (λ u. if outside then done u else apply_all host assignments local p u) noticed
        (Keeps-trans p noticed (
          assign_inside-Keeps outside assignments local p w' (rw noticed.status refl)
            noticed.valid))
    where
      outside : Bool
      outside = local && is_idle (w.heap p).tx_status

      w' : World V S P
      w' = if outside then on p (Connection.notice true no_active_sql_transaction) w else w

      noticed : Keeps p w w'
      noticed = Keeps-notice outside p w v
