-- ===== src/Protocol/Quiet.antt =====
-- Actions that send no ReadyForQuery, and that the handlers' single steps are such.
use pg_mimic.Prelude.{
  ℕ, String, Bool, true, false, ◌&&◌, not, ◌≡◌, refl, List, [], ◌∷◌, Option, none, some, Result, ok,
  err, ℤ, if◌then◌else◌, arith, string_eq,
}
use pg_mimic.Errors.{Error}
use pg_mimic.State.{SessionState}
use pg_mimic.Messages.Backend.{Backend, row_description, data_row}
use pg_mimic.Connection
use pg_mimic.Connection.{Connection}
use pg_mimic.World.{World, on_state}
use pg_mimic.Loop.Silent.{
  is_ready, readies-append, IsSilent, IsSilent-refl, IsSilent-on, IsSilent-trans,
}
use pg_mimic.Protocol.Action.{Action, from, continue, ◌>>>◌, for_each}
use pg_mimic.Protocol.Session.{ResultColumn, Row, PortalEntry, Session}
use pg_mimic.Protocol.Values.{encode_row, field_specs}
use pg_mimic.Protocol.Handlers.{
  emit, update, read_state, known, check_failed, write_row, describe_row, simple_rows,
}
use pg_mimic.Middleware.Guard.{is_failed}

-- What an action does to its connection sends no ReadyForQuery.
pub record Silent {V S P : Type 0} (p : ℕ) {A : Type 0} (m : Action (World V S P) A) : Type 0 where
  pub silently : (w : World V S P) → IsSilent (w.heap p) ((m w).1.heap p)

module _ {V S P : Type 0} {p : ℕ} where
  pub Silent-from : {A : Type 0} (r : Result Error A) → Silent {V = V} {S = S} {P = P} p (from r)
  unfolding from
  Silent-from r = record { silently = λ w. IsSilent-refl (w.heap p) }

  pub IsSilent-continue :
      {A B : Type 0} (f : A → Action (World V S P) B) (c : Connection V S P)
      (out : Result Error A × World V S P)
      → IsSilent c (out.1.heap p)
      → ((a : A) → Silent p (f a))
      → IsSilent c ((continue f out).1.heap p)
  IsSilent-continue f c (ok a, w) h each = IsSilent-trans h ((each a).silently w)
  IsSilent-continue f c (err e, w) h each = h

  pub Silent-then :
      {A B : Type 0} {m : Action (World V S P) A} (f : A → Action (World V S P) B)
      → Silent p m
      → ((a : A) → Silent p (f a))
      → Silent p (m >>> f)
  unfolding ◌>>>◌
  Silent-then {m = m} f first each = record {
    silently = λ w. IsSilent-continue f (w.heap p) (m w) (first.silently w) each;
  }

  pub Silent-for_each :
      {A : Type 0} (body : A → Action (World V S P) (Unit {0}))
      → ((a : A) → Silent p (body a))
      → (items : List A) → Silent p (for_each body items)
  Silent-for_each body each [] = Silent-from (ok tt)
  Silent-for_each body each (a ∷ items) =
      Silent-then (λ u. for_each body items) (each a) λ u. Silent-for_each body each items

  pub Silent-if :
      {A : Type 0} (b : Bool) {m n : Action (World V S P) A}
      → Silent p m
      → Silent p n
      → Silent p (if b then m else n)
  Silent-if true h k = h
  Silent-if false h k = k

-- A session whose operations send no ReadyForQuery.
pub record IsSilentSession {V S Q C : Type 0} (session : Session V S Q C) (p : ℕ) : Type 0 where
  pub prepares : (sql : String) (oids : List (Option ℤ)) → Silent p (session.prepare sql oids)
  pub describes : (statement : S) → Silent p (session.describe statement)
  pub runs : (portal : Q) (n : ℤ) → Silent p (session.run_portal portal n)
  pub copies_in : (statement : S) → Silent p (session.run_copy_in statement)
  pub copies_out : (statement : S) → Silent p (session.run_copy_out statement)

module _ {V S Q C : Type 0} (session : Session V S Q C) (p : ℕ) where
  pub Silent-emit : (m : Backend) → is_ready m ≡ 0 → Silent p (emit session p m)
  unfolding Connection.write emit
  Silent-emit m h = record {
    silently = λ w. IsSilent-on p (Connection.write m) w λ c. record {
      sends = omega (arith, h, readies-append c.written (m ∷ []));
      queues = λ q. q;
    };
  }

  pub Silent-update :
      (f : SessionState V S (PortalEntry Q) → SessionState V S (PortalEntry Q))
      → Silent p (update session p f)
  unfolding update
  Silent-update f = record {
    silently = λ w. IsSilent-on p (on_state f) w λ c. record { sends = refl; queues = λ q. q };
  }

  pub Silent-known : {A : Type 0} (o : Option A) → Silent p (known session p o)
  Silent-known none = Silent-from (err _)
  Silent-known (some a) = Silent-from (ok a)

  pub Silent-read_known :
      {A : Type 0} (f : SessionState V S (PortalEntry Q) → Option A)
      → Silent p (read_state session p f >>> known session p)
  unfolding ◌>>>◌ read_state
  Silent-read_known f = record { silently = λ w. (Silent-known (f (w.heap p).state)).silently w }

  pub Silent-check_failed : (sql : String) → Silent p (check_failed session p sql)
  unfolding check_failed
  Silent-check_failed sql = record {
    silently = λ w.
        (Silent-if (is_failed (w.heap p).tx_status && not (session.allowed sql))
            (Silent-from (err _)) (Silent-from (ok tt))).silently
          w;
  }

  pub Silent-write_row :
      (convert : Result Error (List (Option (List ℕ))) → Result Error (List (Option (List ℕ))))
      (codes : List ℤ) (columns : List ResultColumn) (row : Row C)
      → Silent p (write_row session p convert codes columns row)
  unfolding write_row
  Silent-write_row convert codes columns row =
      Silent-then (λ values. emit session p (data_row values))
        (Silent-from (convert (encode_row session codes columns 0 row)))
        λ values. Silent-emit (data_row values) refl

  pub Silent-describe_row :
      (codes : List ℤ) (columns : Option (List ResultColumn))
      → Silent p (describe_row session p codes columns)
  unfolding describe_row
  Silent-describe_row codes none = Silent-emit _ refl
  Silent-describe_row codes (some columns) =
      Silent-then (λ specs. emit session p (row_description specs))
        (Silent-from (field_specs codes 0 columns))
        λ specs. Silent-emit (row_description specs) refl

  pub Silent-simple_rows :
      (columns : Option (List ResultColumn)) (rows : List (Row C))
      → Silent p (simple_rows session p columns rows)
  unfolding simple_rows
  Silent-simple_rows none rows = Silent-from (ok tt)
  Silent-simple_rows (some columns) rows =
      Silent-then _ (Silent-describe_row [] (some columns))
        λ u. Silent-for_each _ (Silent-write_row (λ r. r) [] columns) rows
