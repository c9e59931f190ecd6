-- ===== src/World/Received.antt =====
-- What each connection receives of the notifications that PgServer.notify fans out, connection by
-- connection: the registry holds sets, so that nobody receives one twice.
use pg_mimic.Prelude.{
  ℕ, zero, suc, String, ◌≡◌, refl, ap, ◌∙◌, List, [], ◌∷◌, arith, nat_beq, if◌then◌else◌,
  Bool-cases, inl, inr, nat_eq, string_eq,
}
use pg_mimic.Connection.{Connection}
use pg_mimic.Connection
use pg_mimic.Server.Registry.{Registry, listeners, hears}
use pg_mimic.World.{World, on, fan_out, notify, notify_each}
use pg_mimic.World.Delivery.{Quiet-notify}

abbrev pub occurrences : List ℕ → ℕ → ℕ
occurrences [] q = 0
occurrences (x ∷ xs) q = let rest = occurrences xs q in if nat_beq x q then suc rest else rest

-- Each channel has a connection once, or not at all.
abbrev pub IsOnce : Registry → Type 0
IsOnce r = (ch : String) (q : ℕ) → occurrences (listeners ch r) q ≡ (if hears r ch q then 1 else 0)

module _ {V S P : Type 0} where
  -- The notifications, in their order, to a connection that hears their channel.
  unfoldable pub received :
      List (String × String) → ℕ → ℕ → Registry → Connection V S P → Connection V S P
  received [] from q r c = c
  received ((channel, payload) ∷ rest) from q r c =
      received rest from q r
        (if hears r channel q then Connection.notify from channel payload c else c)

  times : ℕ → (Connection V S P → Connection V S P) → Connection V S P → Connection V S P
  times zero f c = c
  times (suc n) f c = times n f (f c)

  fan_out-heap :
      (qs : List ℕ) (from : ℕ) (channel payload : String) (w : World V S P) (q : ℕ)
      → (fan_out qs from channel payload w).heap q
        ≡ times (occurrences qs q) (Connection.notify from channel payload) (w.heap q)
  unfolding fan_out times
  fan_out-heap [] from channel payload w q = refl
  fan_out-heap (x ∷ qs) from channel payload w q =
      fan_out-heap qs from channel payload (on x (Connection.notify from channel payload) w) q
      ∙ elim (Bool-cases (nat_beq x q)) [ inl e ↦ rw e refl | inr e ↦ rw e refl ]

  notify-heap :
      (from : ℕ) (channel payload : String) (w : World V S P) (q : ℕ)
      → IsOnce w.registry
      → (notify from channel payload w).heap q ≡ (
          if hears w.registry channel q
          then Connection.notify from channel payload (w.heap q)
          else w.heap q)
  unfolding notify times
  notify-heap from channel payload w q once =
      fan_out-heap (listeners channel w.registry) from channel payload w q
      ∙ ap (λ n. times n (Connection.notify from channel payload) (w.heap q)) (once channel q)
      ∙ elim (Bool-cases (hears w.registry channel q)) [ inl e ↦ rw e refl | inr e ↦ rw e refl ]

  pub notify_each-heap :
      (pending : List (String × String)) (from : ℕ) (w : World V S P) (r : Registry) (q : ℕ)
      → w.registry ≡ r
      → IsOnce r
      → (notify_each pending from w).heap q ≡ received pending from q r (w.heap q)
  unfolding notify_each received
  notify_each-heap [] from w r q same once = refl
  notify_each-heap ((channel, payload) ∷ rest) from w r q same once =
      notify_each-heap rest from (notify from channel payload w) r q
        ((Quiet-notify from channel payload w).registry ∙ same) once
      ∙ ap (received rest from q r) (
          notify-heap from channel payload w q (rw same once)
          ∙ ap
              (λ s.
                if hears s channel q
                then Connection.notify from channel payload (w.heap q)
                else w.heap q)
              same)

  -- Two connections that the client has the same messages from, now or at the next flush.
  pub record SameOutput (c d : Connection V S P) : Type 0 where
    pub written : c.written ≡ d.written
    pub pending_async : c.pending_async ≡ d.pending_async
    pub at_ready_for_query : c.at_ready_for_query ≡ d.at_ready_for_query

  pub SameOutput-refl : (c : Connection V S P) → SameOutput c c
  SameOutput-refl c = record { written = refl; pending_async = refl; at_ready_for_query = refl }

  pub SameOutput-trans :
      {c d e : Connection V S P} → SameOutput c d → SameOutput d e → SameOutput c e
  SameOutput-trans a b = record {
    written = a.written ∙ b.written;
    pending_async = a.pending_async ∙ b.pending_async;
    at_ready_for_query = a.at_ready_for_query ∙ b.at_ready_for_query;
  }

  pub SameOutput-of_eq : {c d : Connection V S P} → c ≡ d → SameOutput c d
  SameOutput-of_eq e = record {
    written = ap (λ c. c.written) e;
    pending_async = ap (λ c. c.pending_async) e;
    at_ready_for_query = ap (λ c. c.at_ready_for_query) e;
  }

  SameOutput-notify :
      (from : ℕ) (channel payload : String) (c d : Connection V S P)
      → SameOutput c d
      → SameOutput
          (Connection.notify from channel payload c)
          (Connection.notify from channel payload d)
  unfolding Connection.notify Connection.deliver_async Connection.write
  SameOutput-notify from channel payload c d s =
      ground (arith, s.written, s.pending_async, s.at_ready_for_query)

  pub SameOutput-received :
      (pending : List (String × String)) (from q : ℕ) (r : Registry) (c d : Connection V S P)
      → SameOutput c d
      → SameOutput (received pending from q r c) (received pending from q r d)
  unfolding received
  SameOutput-received [] from q r c d s = s
  SameOutput-received ((channel, payload) ∷ rest) from q r c d s =
      elim (Bool-cases (hears r channel q)) [
        | inl e ↦
            rw e
              (SameOutput-received rest from q r _ _ (SameOutput-notify from channel payload c d s))
        | inr e ↦ rw e (SameOutput-received rest from q r c d s)
      ]
