-- ===== src/Middleware/Validity/Steps.antt =====
-- The steps that the statements of pg_mimic/middleware.py are made of, against the transaction
-- invariant.
use pg_mimic.Prelude.{ℕ, ◌≡◌, refl, false, inl, inr, nat_beq, nat_beq_iff, string_eq, Bool-cases}
use pg_mimic.Prelude.Set.{difference}
use pg_mimic.Connection.{Connection}
use pg_mimic.World.{World, on, sync_listeners, sync_registry}
use pg_mimic.World.Delivery.{OutputOnly, Quiet}
use pg_mimic.World.Registered.{IsConsistent, IsConsistent-on, IsConsistent-Quiet, IsConsistent-sync}
use pg_mimic.Server.Husks.{NoHusk, NoHusk-sync}
use pg_mimic.Middleware.Validity.{Settled, IsValid, WorldIsValid}

module _ {V S P : Type 0} where
  -- Valid but for `p`, which is in the middle of a statement.
  pub record OthersValid (p : ℕ) (w : World V S P) : Type 0 where
    pub others : (q : ℕ) → nat_beq p q ≡ false → IsValid (w.heap q)
    pub consistent : IsConsistent w
    pub no_husk : NoHusk w.registry

  pub OthersValid-weaken : (p : ℕ) (w : World V S P) → WorldIsValid w → OthersValid p w
  OthersValid-weaken p w v = record {
    others = λ q ne. v.each q;
    consistent = v.consistent;
    no_husk = v.no_husk;
  }

  pub heap-on :
      (p : ℕ) (f : Connection V S P → Connection V S P) (w : World V S P)
      → (on p f w).heap p ≡ f (w.heap p)
  heap-on p f w = rw ((nat_beq_iff p p).1 refl) refl

  IsValid-output : {c c' : Connection V S P} → OutputOnly c c' → IsValid c → IsValid c'
  IsValid-output o v = record {
    settled = rw (o.tx_status, o.state) v.settled;
    registered = λ e. rw (o.registered_channels, o.state) (v.registered (rw o.tx_status at e));
  }

  pub OthersValid-on :
      (p : ℕ) (f : Connection V S P → Connection V S P) (w : World V S P)
      → (f (w.heap p)).registered_channels ≡ (w.heap p).registered_channels
      → OthersValid p w
      → OthersValid p (on p f w)
  OthersValid-on p f w kept v = record {
    others = λ q ne. rw ne (v.others q ne);
    consistent = IsConsistent-on p f w kept v.consistent;
    no_husk = v.no_husk;
  }

  pub OthersValid-Quiet :
      (p : ℕ) {w w' : World V S P} → Quiet w w' → OthersValid p w → OthersValid p w'
  OthersValid-Quiet p quiet v = record {
    others = λ q ne. IsValid-output (quiet.heap q) (v.others q ne);
    consistent = IsConsistent-Quiet quiet v.consistent;
    no_husk = rw quiet.registry v.no_husk;
  }

  pub WorldIsValid-Quiet : {w w' : World V S P} → Quiet w w' → WorldIsValid w → WorldIsValid w'
  WorldIsValid-Quiet quiet v = record {
    each = λ q. IsValid-output (quiet.heap q) (v.each q);
    consistent = IsConsistent-Quiet quiet v.consistent;
    no_husk = rw quiet.registry v.no_husk;
  }

  NoHusk-sync_listeners :
      (p : ℕ) (w : World V S P) → NoHusk w.registry → NoHusk (sync_listeners p w).registry
  unfolding sync_listeners sync_registry
  NoHusk-sync_listeners p w =
      NoHusk-sync (difference (w.heap p).registered_channels (w.heap p).state.listening)
        (difference (w.heap p).state.listening (w.heap p).registered_channels) p w.registry

  IsValid-sync_listeners :
      (p : ℕ) (w : World V S P) (q : ℕ)
      → OthersValid p w
      → Settled (w.heap p).tx_status (w.heap p).state
      → IsValid ((sync_listeners p w).heap q)
  unfolding sync_listeners
  IsValid-sync_listeners p w q v self = elim (Bool-cases (nat_beq p q)) [
    | inl e ↦ rw (e, ← (nat_beq_iff p q).0 e) (record { settled = self; registered = λ _. refl })
    | inr e ↦ rw e (v.others q e)
  ]

  pub WorldIsValid-sync :
      (p : ℕ) (w : World V S P)
      → OthersValid p w
      → Settled (w.heap p).tx_status (w.heap p).state
      → WorldIsValid (sync_listeners p w)
  WorldIsValid-sync p w v self = record {
    each = λ q. IsValid-sync_listeners p w q v self;
    consistent = IsConsistent-sync p w v.consistent;
    no_husk = NoHusk-sync_listeners p w v.no_husk;
  }

  pub WorldIsValid-on :
      (p : ℕ) (f : Connection V S P → Connection V S P) (w : World V S P)
      → (f (w.heap p)).registered_channels ≡ (w.heap p).registered_channels
      → (IsValid (w.heap p) → IsValid (f (w.heap p)))
      → WorldIsValid w
      → WorldIsValid (on p f w)
  WorldIsValid-on p f w kept step v = record {
    each = λ q. elim (Bool-cases (nat_beq p q)) [
      | inl e ↦ rw (e, ← (nat_beq_iff p q).0 e) (step (v.each p))
      | inr e ↦ rw e (v.each q)
    ];
    consistent = IsConsistent-on p f w kept v.consistent;
    no_husk = v.no_husk;
  }
