-- ===== src/Protocol/Action.antt =====
-- A coroutine of a connection: it changes the server, and returns or raises. What was done before a
-- raise stays done.
use pg_mimic.Prelude.{List, [], ◌∷◌, Result, ok, err}
use pg_mimic.Errors.{Error}

abbrev pub Action : Type 0 → Type 0 → Type 0
Action W A = W → Result Error A × W

module _ {W : Type 0} where
  -- what is already known
  unfoldable pub from : {A : Type 0} → Result Error A → Action W A
  from r w = (r, w)

  abbrev pub give : {A : Type 0} → A → Action W A
  give a = from (ok a)

  abbrev pub raise : {A : Type 0} → Error → Action W A
  raise e = from (err e)

  abbrev pub continue : {A B : Type 0} → (A → Action W B) → Result Error A × W → Result Error B × W
  continue f (ok a, w) = f a w
  continue f (err e, w) = (err e, w)

  infixl 5 ◌>>>◌
  unfoldable pub ◌>>>◌ : {A B : Type 0} → Action W A → (A → Action W B) → Action W B
  (m >>> f) w = continue f (m w)

  -- for item in items
  abbrev pub for_each : {A : Type 0} → (A → Action W (Unit {0})) → List A → Action W (Unit {0})
  for_each body [] = give tt
  for_each body (item ∷ items) = body item >>> λ u. for_each body items
