-- ===== src/Loop/Skips.antt =====
-- The messages between an error of the extended protocol and the next Query, Sync or Terminate.
use pg_mimic.Prelude.{
  ℕ, String, ◌≡◌, refl, ap, ◌∙◌, Bool, true, false, not, ◌&&◌, if_true, if_false, List, [], ◌∷◌,
  ◌++◌, nat_beq, if◌then◌else◌, fun_ext, arith,
}
use pg_mimic.Errors.{pg_error}
use pg_mimic.Connection.{Connection}
use pg_mimic.World.{World, on}
use pg_mimic.Middleware.Guard.{report_error}
use pg_mimic.Loop.{
  Kind, query, parse, bind, describe, execute, close, flush, unknown, sync, terminate, Message,
  returned, raised, Handler, Served, is_query_or_sync, is_sync_or_terminate, is_terminate, is_copy,
  by_tag, answered, dispatch, closing, finished, leave_ready, turn, next, command_loop,
}
use pg_mimic.Loop.Silent.{on_self}

-- the messages of the extended protocol that a handler answers
abbrev pub is_extended : Kind → Bool
is_extended parse = true
is_extended bind = true
is_extended describe = true
is_extended execute = true
is_extended close = true
is_extended _ = false

abbrev pub is_passed_over : Kind → Bool
is_passed_over k = not (is_query_or_sync k) && not (is_terminate k)

abbrev pub all_passed_over : List Message → Bool
all_passed_over [] = true
all_passed_over (m ∷ ms) = is_passed_over m.kind && all_passed_over ms

-- Served with these messages before.
abbrev pub prepend : {V S P : Type 0} → List Message → Served V S P → Served V S P
prepend ms s = (s.0, ms ++ s.1, s.2)

both_true : (a b : Bool) → a ≡ true → b ≡ true → (a && b) ≡ true
both_true a b h k = rw (h, k) refl

both : (a b : Bool) → (a && b) ≡ true → (a ≡ true) × (b ≡ true)
both a b h = ground arith

passed_over :
    (k : Kind)
    → is_passed_over k ≡ true
    → (not (is_sync_or_terminate k) ≡ true)
      × ((is_query_or_sync k ≡ false) × (is_terminate k ≡ false))
passed_over query h = absurd cc
passed_over sync h = absurd cc
passed_over terminate h = absurd cc
passed_over _ h = (refl, (refl, refl))

extended :
    (k : Kind)
    → is_extended k ≡ true
    → (is_query_or_sync k ≡ false) × ((is_copy k ≡ false) × (is_terminate k ≡ false))
extended parse x = (refl, (refl, refl))
extended bind x = (refl, (refl, refl))
extended describe x = (refl, (refl, refl))
extended execute x = (refl, (refl, refl))
extended close x = (refl, (refl, refl))
extended _ x = absurd cc

first_false : (a b : Bool) → a ≡ false → (a && b) ≡ false
first_false a b h = rw h refl

module _ {V S P : Type 0} where
  leave_again :
      (p : ℕ) (w : World V S P) → on p leave_ready (on p leave_ready w) ≡ on p leave_ready w
  leave_again p w = ap (λ h. record w { heap = h }) (fun_ext (λ q. twice (nat_beq p q) (w.heap q)))
    where
      twice :
          (b : Bool) (c : Connection V S P)
          → (if b
              then leave_ready (if b then leave_ready c else c)
              else (if b then leave_ready c else c))
            ≡ (if b then leave_ready c else c)
      twice true c = refl
      twice false c = refl

  module _ (handler : Handler V S P) (p : ℕ) where
    turn-passed_over :
        (m : Message) (w : World V S P)
        → (w.heap p).ignore_until_sync ≡ true
        → is_passed_over m.kind ≡ true
        → turn handler p m w ≡ (returned, on p leave_ready w)
    unfolding turn dispatch finished closing
    turn-passed_over m w i k =
        ap (finished m.kind p) (
          if_true _ _ (
            both_true _ _ (ap (λ c. c.ignore_until_sync) (on_self p leave_ready w) ∙ i)
              (passed_over m.kind k).0))
        ∙ ap (λ v. (returned, v)) (if_false _ _ (passed_over m.kind k).1.0)

    command_loop-leave :
        (k : Message) (rest : List Message) (w : World V S P)
        → command_loop handler p (k ∷ rest) (on p leave_ready w)
          ≡ command_loop handler p (k ∷ rest) w
    unfolding command_loop turn
    command_loop-leave k rest w =
        ap
          (λ v.
            if is_terminate k.kind
            then (returned, [], v)
            else next (command_loop handler p rest) k (finished k.kind p (dispatch handler p k v)))
          (leave_again p w)

    command_loop-passed_over :
        (ms : List Message) (k : Message) (rest : List Message) (w : World V S P)
        → (w.heap p).ignore_until_sync ≡ true
        → all_passed_over ms ≡ true
        → command_loop handler p (ms ++ k ∷ rest) w
          ≡ prepend ms (command_loop handler p (k ∷ rest) w)
    unfolding command_loop next
    command_loop-passed_over [] k rest w i h = refl
    command_loop-passed_over (m ∷ ms) k rest w i h =
        let (first, others) = both _ _ h in
        if_false _ _ (passed_over m.kind first).1.1
        ∙ ap (next (command_loop handler p (ms ++ k ∷ rest)) m) (turn-passed_over m w i first)
        ∙ ap (prepend (m ∷ [])) (
            command_loop-passed_over ms k rest (on p leave_ready w)
              (ap (λ c. c.ignore_until_sync) (on_self p leave_ready w) ∙ i) others)
        ∙ ap (prepend (m ∷ ms)) (command_loop-leave k rest w)

    by_tag-extended :
        (k : Kind) (payload : List ℕ) (w : World V S P)
        → is_extended k ≡ true
        → by_tag handler k payload w ≡ handler k payload w
    unfolding by_tag
    by_tag-extended sync payload w x = absurd cc
    by_tag-extended flush payload w x = absurd cc
    by_tag-extended unknown payload w x = absurd cc
    by_tag-extended terminate payload w x = absurd cc
    by_tag-extended _ payload w x = refl

    turn-refused :
        (m : Message) (s : String) (w w' : World V S P)
        → (w.heap p).ignore_until_sync ≡ false
        → is_extended m.kind ≡ true
        → handler m.kind m.payload (on p leave_ready w) ≡ (raised (pg_error s), w')
        → turn handler p m w ≡ (returned, on p (report_error (pg_error s)) w')
    unfolding turn dispatch answered finished closing
    turn-refused m s w w' i x r =
        ap (finished m.kind p) (
          if_false _ _
            (first_false _ _ (ap (λ c. c.ignore_until_sync) (on_self p leave_ready w) ∙ i))
          ∙ if_false _ _ (extended m.kind x).1.0
          ∙ ap (answered p) (by_tag-extended m.kind m.payload (on p leave_ready w) x ∙ r))
        ∙ ap (λ v. (returned, v)) (if_false _ _ (extended m.kind x).0)

  -- When a handler of the extended protocol raises a PgError, the messages behind it up to a Query, a
  -- Sync or a Terminate are served without an answer and without a trace: what follows is served as
  -- if it stood directly behind the message that failed, on the server with the error reported.
  pub command_loop-skips :
      (handler : Handler V S P) (p : ℕ) (m : Message) (s : String) (ms : List Message) (k : Message)
      (rest : List Message) (w w' : World V S P)
      → (w.heap p).ignore_until_sync ≡ false
      → is_extended m.kind ≡ true
      → handler m.kind m.payload (on p leave_ready w) ≡ (raised (pg_error s), w')
      → all_passed_over ms ≡ true
      → command_loop handler p (m ∷ (ms ++ k ∷ rest)) w
        ≡ prepend (m ∷ ms) (command_loop handler p (k ∷ rest) (on p (report_error (pg_error s)) w'))
  unfolding command_loop next report_error
  command_loop-skips handler p m s ms k rest w w' i x r h =
      if_false _ _ (extended m.kind x).1.1
      ∙ ap (next (command_loop handler p (ms ++ k ∷ rest)) m)
          (turn-refused handler p m s w w' i x r)
      ∙ ap (prepend (m ∷ [])) (
          command_loop-passed_over handler p ms k rest (on p (report_error (pg_error s)) w')
            (ap (λ c. c.ignore_until_sync) (on_self p (report_error (pg_error s)) w')) h)
