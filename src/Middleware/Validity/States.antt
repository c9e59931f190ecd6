-- ===== src/Middleware/Validity/States.antt =====
-- The transaction invariant of pg_mimic/state.py under the steps of BEGIN, COMMIT, ROLLBACK and the
-- savepoint statements.
use pg_mimic.Prelude.{
  ℕ, suc, ◌<◌, String, ◌≡◌, refl, Option, none, some, List, [], ◌∷◌, ◌++◌, length, take, get_elem?,
  length-append, length-take-le, get_elem?-ge, length-take-bound, arith, inl, inr, Option-cases,
  string_eq,
}
use pg_mimic.State.{
  Scope, SessionState, snapshot, open_scope, discard_scopes, restore_from, commit_transaction,
  end_transaction,
}
use pg_mimic.Messages.Backend.{idle}
use pg_mimic.Middleware.Transactions.{
  forget_savepoints, push_savepoint, drop_savepoints, last_index,
}
use pg_mimic.Middleware.Validity.{BaseIsClean, InBlock, Settled}

pub BaseIsClean-take :
    {V : Type 0} (n : ℕ) (xs : List (Scope V)) → BaseIsClean xs → BaseIsClean (take (suc n) xs)
BaseIsClean-take n [] h = h
BaseIsClean-take n (f ∷ fs) h = h

pub BaseIsClean-append :
    {V : Type 0} (xs ys : List (Scope V)) → BaseIsClean xs → BaseIsClean (xs ++ ys)
BaseIsClean-append [] ys h = elim h [ ]
BaseIsClean-append (f ∷ fs) ys h = h

pub last_index-lt :
    (xs : List String) (name : String) (i : ℕ) → last_index xs name ≡ some i → i < length xs
unfolding last_index
last_index-lt [] name i h = cc
last_index-lt (x ∷ xs) name i h = elim (Option-cases (last_index xs name)) [
  | inl e ↦ ground arith
  | inr (j, e) ↦ ground (arith, last_index-lt xs name j e)
]

module _ {V S P : Type 0} where
  pub InBlock-begin :
      (s : SessionState V S P) → Settled idle s → InBlock (open_scope (forget_savepoints s))
  unfolding open_scope
  InBlock-begin s h = rw h.0 (omega arith, (h.2, h.3))

  pub InBlock-savepoint :
      (name : String) (s : SessionState V S P) → InBlock s → InBlock (push_savepoint name s)
  unfolding open_scope
  InBlock-savepoint name s h = (
    omega (
      arith,
      h.0,
      length-append {0} s.scopes (snapshot s ∷ []),
      length-append {0} s.savepoints (name ∷ []),
    ),
    BaseIsClean-append s.scopes _ h.1,
  )

  pub InBlock-release :
      (i : ℕ) (s : SessionState V S P)
      → i < length s.savepoints
      → InBlock s
      → InBlock (discard_scopes (suc i) (drop_savepoints i s))
  unfolding discard_scopes
  InBlock-release i s lt h = (
    omega (
      arith,
      length-take-le {0} i s.savepoints (omega arith),
      length-take-bound {0} (suc i) s.scopes,
    ),
    BaseIsClean-take i s.scopes h.1,
  )

  pub InBlock-restore :
      (i : ℕ) (s : SessionState V S P) (o : Option (Scope V))
      → i < length s.savepoints
      → get_elem? s.scopes (suc i) ≡ o
      → InBlock s
      → InBlock (restore_from o (suc i) (drop_savepoints (suc i) s))
  unfolding restore_from
  InBlock-restore i s none lt e h = (
    omega (arith, length-take-le {0} (suc i) s.savepoints lt, get_elem?-ge {0} (suc i) s.scopes e),
    h.1,
  )
  InBlock-restore i s (some f) lt e h = (
    omega
        (arith, length-take-le {0} (suc i) s.savepoints lt, length-take-bound {0} (suc i) s.scopes),
    BaseIsClean-take i s.scopes h.1,
  )

  -- What a transaction leaves, before its notifications are handed over.
  abbrev pub Ended : SessionState V S P → Type 0
  Ended s = (s.scopes ≡ []) × (s.savepoints ≡ []) × (s.session_vars ≡ s.committed_vars)

  Ended-commit : (s : SessionState V S P) → Ended (commit_transaction (forget_savepoints s))
  unfolding commit_transaction
  Ended-commit s = (refl, refl, refl)

  Settled-restored :
      (s : SessionState V S P) (xs : List (Scope V))
      → s.savepoints ≡ []
      → BaseIsClean xs
      → Settled idle (record (restore_from (get_elem? xs 0) 0 s) { scopes = [] })
  unfolding restore_from
  Settled-restored s [] e h = elim h [ ]
  Settled-restored s (f ∷ fs) e h = (refl, e, h.0, h.1)

  pub Settled-rollback :
      (s : SessionState V S P) → InBlock s → Settled idle (end_transaction (forget_savepoints s))
  unfolding end_transaction
  Settled-rollback s h = Settled-restored (forget_savepoints s) s.scopes refl h.1
