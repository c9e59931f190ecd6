-- ===== src/Server/Cancel.antt =====
-- Whom a CancelRequest reaches (pg_mimic/server.py, `cancel`).
use pg_mimic.Prelude.{
  ℕ, ◌<◌, ◌≡◌, refl, none, List, [], ◌∷◌, arith, nat_eq, ℤ, pos, negsuc, Option-cases, inl, inr,
}
use pg_mimic.Prelude.Dict
use pg_mimic.Prelude.Dict.{Dict, lookup-insert, lookup-pop}
use pg_mimic.Server.Connections.{
  idle, running, KeyedConnection, Server, on_found, on_connection, cancel_by, cancel,
  open_connection, close_connection, with_task, Event, opens, closes, begins, ends, cancels, step,
  run,
}

-- a pid that was given out and is registered no more
pub record IsGone (p : ℕ) (s : Server) : Type 0 where
  pub given : p < s.next_pid
  pub absent : Dict.lookup p s.connections ≡ none

on_connection-IsGone :
    (p q : ℕ) (f : KeyedConnection → KeyedConnection) (s : Server)
    → IsGone p s
    → IsGone p (on_connection q f s)
unfolding on_connection on_found
on_connection-IsGone p q f s g = elim (Option-cases (Dict.lookup q s.connections)) [
  | inl e ↦ rw e g
  | inr (c, e) ↦ rw e (record {
    given = g.given;
    absent = ground (arith, lookup-insert q p (f c) s.connections, g.absent, e, nat_eq.beq_iff q p);
  })
]

cancel-IsGone : (p : ℕ) (pid secret : ℤ) (s : Server) → IsGone p s → IsGone p (cancel pid secret s)
unfolding cancel
cancel-IsGone p (pos q) secret s g = on_connection-IsGone p q (cancel_by secret) s g
cancel-IsGone p (negsuc k) secret s g = g

step-IsGone : (p : ℕ) (e : Event) (s : Server) → IsGone p s → IsGone p (step e s)
unfolding step open_connection close_connection
step-IsGone p (opens secret) s g = record {
  given = omega (arith, g.given);
  absent = ground (
    arith,
    lookup-insert s.next_pid p (record { secret = secret; current_task = idle }) s.connections,
    g.absent,
    g.given,
    nat_eq.beq_iff s.next_pid p,
  );
}
step-IsGone p (closes q) s g = record {
  given = g.given;
  absent = ground (arith, lookup-pop q p s.connections, g.absent);
}
step-IsGone p (begins q) s g = on_connection-IsGone p q (with_task running) s g
step-IsGone p (ends q) s g = on_connection-IsGone p q (with_task idle) s g
step-IsGone p (cancels pid secret) s g = cancel-IsGone p pid secret s g

run-IsGone : (p : ℕ) (es : List Event) (s : Server) → IsGone p s → IsGone p (run es s)
unfolding run
run-IsGone p [] s g = g
run-IsGone p (e ∷ es) s g = run-IsGone p es (step e s) (step-IsGone p e s g)

close_connection-IsGone : (p : ℕ) (s : Server) → p < s.next_pid → IsGone p (close_connection p s)
unfolding close_connection
close_connection-IsGone p s h = record {
  given = h;
  absent = ground (arith, lookup-pop p p s.connections, nat_eq.beq_iff p p);
}

cancel-gone :
    (p : ℕ) (secret : ℤ) (s : Server)
    → Dict.lookup p s.connections ≡ none
    → cancel (pos p) secret s ≡ s
unfolding cancel on_connection on_found
cancel-gone p secret s e = rw e refl

pub cancel-closed :
    (after : List Event) (p : ℕ) (secret : ℤ) (s : Server)
    → p < s.next_pid
    → cancel (pos p) secret (run after (close_connection p s)) ≡ run after (close_connection p s)
cancel-closed after p secret s h =
    cancel-gone p secret (run after (close_connection p s))
      ((run-IsGone p after (close_connection p s) (close_connection-IsGone p s h)).absent)
