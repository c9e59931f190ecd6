-- ===== src/World/Registered.antt =====
-- The registry of the server and the channels that each connection believes it is registered for
-- say the same (sync_listeners and _drop_listeners of pg_mimic/connection.py).
use pg_mimic.Prelude.{
  ℕ, String, false, ◌≡◌, refl, ap, ◌∙◌, inl, inr, List, [], arith, nat_beq, nat_beq_iff,
  if◌then◌else◌, string_eq, nat_eq, ◌==◌, Bool-cases,
}
use pg_mimic.Prelude.Set.{contains, contains-difference, difference}
use pg_mimic.Connection.{Connection}
use pg_mimic.Server.Registry.{Registry, hears, remove_all, hears-add_all, hears-remove_all}
use pg_mimic.World.{World, on, sync_registry, sync_listeners, drop_listeners}
use pg_mimic.World.Delivery.{Quiet}

-- The registry after a sync, when it held the registered channels of `p` before.
hears-sync_registry :
    (registered listening : List String) (p : ℕ) (r : Registry) (ch : String) (q : ℕ)
    → hears r ch p ≡ contains registered ch
    → hears (sync_registry registered listening p r) ch q
      ≡ (if p == q then contains listening ch else hears r ch q)
unfolding sync_registry
hears-sync_registry registered listening p r ch q h = ground (
  arith,
  hears-add_all (difference listening registered) ch p q
      (remove_all (difference registered listening) p r),
  hears-remove_all (difference registered listening) ch p q r,
  contains-difference listening registered ch,
  contains-difference registered listening ch,
  nat_beq_iff p q,
)

module _ {V S P : Type 0} where
  -- The server delivers to a connection what the connection is registered for.
  abbrev pub IsConsistent : World V S P → Type 0
  IsConsistent w =
      (ch : String) (q : ℕ) → hears w.registry ch q ≡ contains (w.heap q).registered_channels ch

  pub IsConsistent-Quiet : {w w' : World V S P} → Quiet w w' → IsConsistent w → IsConsistent w'
  IsConsistent-Quiet quiet h ch q = rw (quiet.registry, (quiet.heap q).registered_channels) (h ch q)

  pub IsConsistent-on :
      (p : ℕ) (f : Connection V S P → Connection V S P) (w : World V S P)
      → (f (w.heap p)).registered_channels ≡ (w.heap p).registered_channels
      → IsConsistent w
      → IsConsistent (on p f w)
  IsConsistent-on p f w kept h ch q = elim (Bool-cases (nat_beq p q)) [
    | inl e ↦ rw (e, ← (nat_beq_iff p q).0 e, kept) (h ch p)
    | inr e ↦ rw e (h ch q)
  ]

  -- If the registry agrees with the connections, then after a sync the connection hears exactly the
  -- channels it listens to, and every other connection hears what it heard.
  pub hears-sync_listeners :
      (p : ℕ) (w : World V S P) (ch : String) (q : ℕ)
      → IsConsistent w
      → hears (sync_listeners p w).registry ch q
        ≡ (if p == q then contains (w.heap p).state.listening ch else hears w.registry ch q)
  unfolding sync_listeners
  hears-sync_listeners p w ch q h =
      hears-sync_registry (w.heap p).registered_channels (w.heap p).state.listening p w.registry ch
        q (h ch p)

  registered-sync :
      (p : ℕ) (w : World V S P) (q : ℕ)
      → ((sync_listeners p w).heap q).registered_channels
        ≡ (if nat_beq p q then (w.heap q).state.listening else (w.heap q).registered_channels)
  unfolding sync_listeners
  registered-sync p w q = ground arith

  pub IsConsistent-sync :
      (p : ℕ) (w : World V S P) → IsConsistent w → IsConsistent (sync_listeners p w)
  IsConsistent-sync p w h ch q = elim (Bool-cases (nat_beq p q)) [
    | inl e ↦
        hears-sync_listeners p w ch q h ∙ rw (registered-sync p w q, e, (nat_beq_iff p q).0 e) refl
    | inr e ↦ hears-sync_listeners p w ch q h ∙ rw (registered-sync p w q, e) (h ch q)
  ]

  pub IsConsistent-drop :
      (p : ℕ) (w : World V S P) → IsConsistent w → IsConsistent (drop_listeners p w)
  unfolding drop_listeners
  IsConsistent-drop p w h ch q = ground (
    arith,
    hears-remove_all (w.heap p).registered_channels ch p q w.registry,
    h ch p,
    h ch q,
    nat_beq_iff p q,
  )

  -- If the registry agrees with the connections, a connection whose listeners were dropped hears no
  -- channel.
  pub hears-drop_listeners :
      (p : ℕ) (w : World V S P) (ch : String)
      → IsConsistent w
      → hears (drop_listeners p w).registry ch p ≡ false
  hears-drop_listeners p w ch h = IsConsistent-drop p w h ch p ∙ ap (λ xs. contains xs ch) gone
    where
      gone : ((drop_listeners p w).heap p).registered_channels ≡ []
      gone = unfold drop_listeners in rw ((nat_beq_iff p p).1 refl) refl
