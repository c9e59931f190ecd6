-- ===== src/Protocol/Ends.antt =====
-- Runs of the handlers' steps whose outcome is known, followed on the connection that takes them.
use pg_mimic.Prelude.{
  ℕ, String, false, ◌&&◌, not, ◌≡◌, refl, sym, ap, ◌∙◌, subst, List, [], ◌∷◌, ◌++◌, append_assoc,
  append-nil, Option, none, some, Result, ok, err, ℤ, string_eq,
}
use pg_mimic.Prelude.Dict
use pg_mimic.Errors.{Error}
use pg_mimic.State.{SessionState}
use pg_mimic.Messages.Backend.{Backend, data_row}
use pg_mimic.Connection
use pg_mimic.Connection.{Connection}
use pg_mimic.World.{World, on, on_state}
use pg_mimic.Middleware.Guard.{is_failed}
use pg_mimic.Loop.Silent.{on_self}
use pg_mimic.Protocol.Action.{Action, from, continue, ◌>>>◌, for_each}
use pg_mimic.Protocol.Session.{ResultColumn, Row, PortalEntry, Session}
use pg_mimic.Protocol.Values.{encode_row}
use pg_mimic.Protocol.Handlers.{
  known, emit, update, get_statement, get_portal, read_state, check_failed, write_row,
}

-- In any server where the connection `p` is `c`, the action ends with `r` and leaves `p` as `d`.
pub record Ends {V S P : Type 0} (p : ℕ) (c : Connection V S P) {A : Type 0}
    (m : Action (World V S P) A) (r : Result Error A) (d : Connection V S P) : Type 0 where
  pub result : (w : World V S P) → w.heap p ≡ c → (m w).0 ≡ r
  pub state : (w : World V S P) → w.heap p ≡ c → (m w).1.heap p ≡ d

continue-ok :
    {W A B : Type 0} (f : A → Action W B) (out : Result Error A × W) (a : A)
    → out.0 ≡ ok a
    → continue f out ≡ f a out.1
continue-ok f (ok b, w) a h = let same : b ≡ a = cc in ap (λ v. f v w) same
continue-ok f (err e, w) a h = absurd cc

module _ {V S P : Type 0} {p : ℕ} where
  pub Ends-from : {A : Type 0} {c : Connection V S P} (r : Result Error A) → Ends p c (from r) r c
  unfolding from
  Ends-from r = record { result = λ w h. refl; state = λ w h. h }

  pub Ends-read :
      {A : Type 0} {c : Connection V S P} {m : Action (World V S P) A} {r : Result Error A}
      → ((w : World V S P) → w.heap p ≡ c → m w ≡ (r, w))
      → Ends p c m r c
  Ends-read e = record {
    result = λ w h. ap (λ o. o.0) (e w h);
    state = λ w h. ap (λ o. o.1.heap p) (e w h) ∙ h;
  }

  pub Ends-then :
      {A B : Type 0} {m : Action (World V S P) A} {a : A} {c d e : Connection V S P}
      {r : Result Error B} (f : A → Action (World V S P) B)
      → Ends p c m (ok a) d
      → Ends p d (f a) r e
      → Ends p c (m >>> f) r e
  unfolding ◌>>>◌
  Ends-then {m = m} {a = a} f h k = record {
    result = λ w i.
        ap (λ o. o.0) (continue-ok f (m w) a (h.result w i)) ∙ k.result (m w).1 (h.state w i);
    state = λ w i.
        ap (λ o. o.1.heap p) (continue-ok f (m w) a (h.result w i)) ∙ k.state (m w).1 (h.state w i);
  }

  -- what is already computed
  pub Ends-known :
      {A : Type 0} {c : Connection V S P} {r : Result Error A} {a : A}
      → r ≡ ok a
      → Ends p c (from r) (ok a) c
  unfolding from
  Ends-known {r = r} e = record { result = λ w h. e; state = λ w h. h }

  pub Ends-on :
      {c : Connection V S P} (f : Connection V S P → Connection V S P)
      → Ends p c (λ w. (ok (tt {0}), on p f w)) (ok tt) (f c)
  Ends-on f = record { result = λ w h. refl; state = λ w h. on_self p f w ∙ ap f h }

-- Messages written one after the other.
abbrev pub write_all : {V S P : Type 0} → List Backend → Connection V S P → Connection V S P
write_all ms c = record c { written = c.written ++ ms }

-- The rows that encode, one after the other.
pub data EncodedAs {V S Q C : Type 0} (session : Session V S Q C) (codes : List ℤ)
    (columns : List ResultColumn) : List (Row C) → List Backend → Type 0 where
  no_rows : EncodedAs session codes columns [] []
  a_row :
      {row : Row C} {rows : List (Row C)} {values : List (Option (List ℕ))} {ms : List Backend}
      → encode_row session codes columns 0 row ≡ ok values
      → EncodedAs session codes columns rows ms
      → EncodedAs session codes columns (row ∷ rows) (data_row values ∷ ms)

module _ {V S Q C : Type 0} (session : Session V S Q C) (p : ℕ) where
  pub Ends-emit :
      (m : Backend) (c : Connection V S (PortalEntry Q))
      → Ends p c (emit session p m) (ok tt) (write_all (m ∷ []) c)
  unfolding emit Connection.write
  Ends-emit m c = Ends-on (Connection.write m)

  pub Ends-update :
      (f : SessionState V S (PortalEntry Q) → SessionState V S (PortalEntry Q))
      (c : Connection V S (PortalEntry Q))
      → Ends p c (update session p f) (ok tt) (on_state f c)
  unfolding update
  Ends-update f c = Ends-on (on_state f)

  known-some :
      {A : Type 0} (o : Option A) (a : A) (w : World V S (PortalEntry Q))
      → o ≡ some a
      → known session p o w ≡ (ok a, w)
  unfolding from
  known-some none a w h = absurd cc
  known-some (some b) a w h = let same : b ≡ a = cc in ap (λ v. (ok v, w)) same

  pub Ends-get_statement :
      (name : String) (c : Connection V S (PortalEntry Q)) (statement : S)
      → Dict.lookup name c.state.statements ≡ some statement
      → Ends p c (get_statement session p name) (ok statement) c
  unfolding get_statement ◌>>>◌ read_state
  Ends-get_statement name c statement e =
      Ends-read
        λ w h. known-some _ statement w (ap (λ d. Dict.lookup name d.state.statements) h ∙ e)

  pub Ends-get_portal :
      (name : String) (c : Connection V S (PortalEntry Q)) (entry : PortalEntry Q)
      → Dict.lookup name c.state.portals ≡ some entry
      → Ends p c (get_portal session p name) (ok entry) c
  unfolding get_portal ◌>>>◌ read_state
  Ends-get_portal name c entry e =
      Ends-read λ w h. known-some _ entry w (ap (λ d. Dict.lookup name d.state.portals) h ∙ e)

  pub Ends-check_failed :
      (sql : String) (c : Connection V S (PortalEntry Q))
      → is_failed c.tx_status && not (session.allowed sql) ≡ false
      → Ends p c (check_failed session p sql) (ok tt) c
  unfolding check_failed from
  Ends-check_failed sql c e = Ends-read λ w h.
      let refused_now : (is_failed (w.heap p).tx_status && not (session.allowed sql)) ≡ false =
        ap (λ d. is_failed d.tx_status && not (session.allowed sql)) h ∙ e in
      rw refused_now refl

  pub write_all_nil : (c : Connection V S (PortalEntry Q)) → write_all [] c ≡ c
  write_all_nil c = ap (λ l. record c { written = l }) (append-nil c.written)

  pub write_all-append :
      (ms ns : List Backend) (c : Connection V S (PortalEntry Q))
      → write_all ns (write_all ms c) ≡ write_all (ms ++ ns) c
  write_all-append ms ns c = ap (λ l. record c { written = l }) (append_assoc c.written ms ns)

  Ends-write_row :
      (convert : Result Error (List (Option (List ℕ))) → Result Error (List (Option (List ℕ))))
      (codes : List ℤ) (columns : List ResultColumn) (row : Row C) (values : List (Option (List ℕ)))
      (c : Connection V S (PortalEntry Q))
      → convert (encode_row session codes columns 0 row) ≡ ok values
      → Ends p c
          (write_row session p convert codes columns row)
          (ok tt)
          (write_all (data_row values ∷ []) c)
  unfolding write_row
  Ends-write_row convert codes columns row values c e =
      Ends-then (λ v. emit session p (data_row v)) (Ends-known e) (Ends-emit (data_row values) c)

  pub Ends-rows :
      (convert : Result Error (List (Option (List ℕ))) → Result Error (List (Option (List ℕ))))
      → ((values : List (Option (List ℕ))) → convert (ok values) ≡ ok values)
      → (codes : List ℤ) (columns : List ResultColumn) (c : Connection V S (PortalEntry Q))
        {rows : List (Row C)} {ms : List Backend}
      → EncodedAs session codes columns rows ms
      → Ends p c
          (for_each (write_row session p convert codes columns) rows)
          (ok tt)
          (write_all ms c)
  Ends-rows convert keeps codes columns c no_rows =
      subst (Ends p c (from (ok tt)) (ok tt)) (sym (write_all_nil c)) (Ends-from (ok tt))
  Ends-rows convert keeps codes columns c (a_row {row} {rows} {values} {ms} e rest) =
      Ends-then (λ u. for_each (write_row session p convert codes columns) rows)
        (Ends-write_row convert codes columns row values c (ap convert e ∙ keeps values))
        (subst
          (Ends p (write_all (data_row values ∷ []) c)
            (for_each (write_row session p convert codes columns) rows) (ok tt))
          (write_all-append (data_row values ∷ []) ms c)
          (Ends-rows convert keeps codes columns (write_all (data_row values ∷ []) c) rest))
