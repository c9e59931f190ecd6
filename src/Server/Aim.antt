-- ===== src/Server/Aim.antt =====
-- The one event that cancels a running statement (pg_mimic/server.py, `cancel`).
use pg_mimic.Prelude.{
  ℕ, ◌≡◌, ◌↔◌, refl, sym, ap, ◌∙◌, Bool, true, false, ◌&&◌, Option, none, some, arith, nat_eq,
  nat_beq, nat_beq_iff, if◌then◌else◌, ℤ, pos, negsuc, Option-cases, inl, inr,
}
use pg_mimic.Prelude.Dict
use pg_mimic.Prelude.Dict.{Dict, lookup-insert, lookup-pop}
use pg_mimic.Server.Connections.{
  Task, idle, running, cancelling, KeyedConnection, Server, same_int, cancel_task, request_cancel,
  on_found, on_connection, cancel_by, cancel, open_connection, close_connection, with_task, Event,
  opens, closes, begins, ends, cancels, step,
}

abbrev is_cancelling : Task → Bool
is_cancelling idle = false
is_cancelling running = false
is_cancelling cancelling = true

abbrev cancelling_at : Option KeyedConnection → Bool
cancelling_at none = false
cancelling_at (some c) = is_cancelling c.current_task

-- whether an event is a CancelRequest for this pid and secret
abbrev is_aimed : ℕ → ℤ → Event → Bool
is_aimed p secret (opens t) = false
is_aimed p secret (closes q) = false
is_aimed p secret (begins q) = false
is_aimed p secret (ends q) = false
is_aimed p secret (cancels (pos q) t) = nat_beq q p && same_int secret t
is_aimed p secret (cancels (negsuc k) t) = false

same_int-eq : (a b : ℤ) → same_int a b ≡ true → a ≡ b
unfolding same_int
same_int-eq (pos a) (pos b) e = ap pos ((nat_beq_iff a b).0 e)
same_int-eq (pos a) (negsuc b) e = absurd cc
same_int-eq (negsuc a) (pos b) e = absurd cc
same_int-eq (negsuc a) (negsuc b) e = ap negsuc ((nat_beq_iff a b).0 e)

same_int_refl : (a : ℤ) → same_int a a ≡ true
unfolding same_int
same_int_refl (pos a) = (nat_beq_iff a a).1 refl
same_int_refl (negsuc a) = (nat_beq_iff a a).1 refl

is_aimed-eq :
    (p : ℕ) (secret : ℤ) (e : Event) → is_aimed p secret e ≡ true → e ≡ cancels (pos p) secret
is_aimed-eq p secret (opens t) h = absurd cc
is_aimed-eq p secret (closes q) h = absurd cc
is_aimed-eq p secret (begins q) h = absurd cc
is_aimed-eq p secret (ends q) h = absurd cc
is_aimed-eq p secret (cancels (pos q) t) h = ground (arith, nat_beq_iff q p, same_int-eq secret t)
is_aimed-eq p secret (cancels (negsuc k) t) h = absurd cc

lookup-on_connection :
    (p q : ℕ) (f : KeyedConnection → KeyedConnection) (s : Server) (c : KeyedConnection)
    → Dict.lookup p s.connections ≡ some c
    → Dict.lookup p ((on_connection q f s).connections)
      ≡ (if nat_beq q p then some (f c) else some c)
unfolding on_connection on_found
lookup-on_connection p q f s c h = elim (Option-cases (Dict.lookup q s.connections)) [
  | inl e ↦ rw e (ground (arith, h, e, nat_beq_iff q p))
  | inr (d, e) ↦ rw e (ground (arith, lookup-insert q p (f d) s.connections, h, e, nat_beq_iff q p))
]

module _ (p : ℕ) (s : Server) (secret : ℤ) where
  -- a step, where the connection is there and runs a statement
  cancelling-step :
      (e : Event)
      → Dict.lookup p s.connections ≡ some (record { secret = secret; current_task = running })
      → cancelling_at (Dict.lookup p ((step e s).connections)) ≡ is_aimed p secret e
  unfolding step open_connection close_connection cancel cancel_by request_cancel cancel_task
      with_task
  cancelling-step (opens t) h = ground (
    arith,
    h,
    lookup-insert s.next_pid p (record { secret = t; current_task = idle }) s.connections,
  )
  cancelling-step (closes q) h = ground (arith, h, lookup-pop q p s.connections)
  cancelling-step (begins q) h = ground (
    arith,
    lookup-on_connection p q (with_task running) s
        (record { secret = secret; current_task = running }) h,
  )
  cancelling-step (ends q) h = ground (
    arith,
    lookup-on_connection p q (with_task idle) s (record { secret = secret; current_task = running })
        h,
  )
  cancelling-step (cancels (pos q) t) h = ground (
    arith,
    lookup-on_connection p q (cancel_by t) s (record { secret = secret; current_task = running }) h,
  )
  cancelling-step (cancels (negsuc k) t) h = rw h refl

  -- A CancelRequest that names the pid and the secret reaches the statement.
  cancels-cancelling :
      Dict.lookup p s.connections ≡ some (record { secret = secret; current_task = running })
      → Dict.lookup p ((step (cancels (pos p) secret) s).connections)
        ≡ some (record { secret = secret; current_task = cancelling })
  unfolding step cancel cancel_by request_cancel cancel_task
  cancels-cancelling h = ground (
    arith,
    lookup-on_connection p p (cancel_by secret) s
        (record { secret = secret; current_task = running }) h,
    same_int_refl secret,
    nat_beq_iff p p,
  )

-- While a connection runs a statement, a step of the server cancels that statement exactly where
-- the step is a CancelRequest with the connection's pid and its secret: any other CancelRequest,
-- and whatever else the connections do, leaves it alone.
pub step-cancelling :
    (p : ℕ) (s : Server) (secret : ℤ) (e : Event)
    → Dict.lookup p s.connections ≡ some (record { secret = secret; current_task = running })
    → (Dict.lookup p ((step e s).connections)
        ≡ some (record { secret = secret; current_task = cancelling }))
      ↔ (e ≡ cancels (pos p) secret)
step-cancelling p s secret e h = (
  λ g. is_aimed-eq p secret e (sym (cancelling-step p s secret e h) ∙ ap cancelling_at g),
  λ g. rw g (cancels-cancelling p s secret h),
)
