-- ===== src/State/Scopes.antt =====
-- The scope stack of pg_mimic/state.py against the history of what ran inside a scope.
use pg_mimic.Prelude.{
  ℕ, ◌<◌, ◌≡◌, refl, ◌∙◌, some, List, [], ◌∷◌, inl, inr, arith, get_elem?, take, length,
  get_elem?-append, get_elem?-take, get_elem?-lt, get_elem?-length, take-take, take-append,
  take-append-le, Option-cases,
}
use pg_mimic.State.{Scope, SessionState, snapshot, open_scope, discard_scopes, restore_scope}

Holds-take :
    {V : Type 0} (d : ℕ) (f : Scope V) (below : List (Scope V)) (n : ℕ) (xs : List (Scope V))
    → d < n
    → (get_elem? xs d ≡ some f) × (take d xs ≡ below)
    → (get_elem? (take n xs) d ≡ some f) × (take d (take n xs) ≡ below)
Holds-take d f below n xs lt h =
    (get_elem?-take d n xs lt ∙ h.0, take-take d n xs (omega arith) ∙ h.1)

module _ {V S P : Type 0} where
  -- What may happen above frame `d`: a write that leaves the frames alone, a new frame, and
  -- RELEASE or ROLLBACK TO of a frame above `d`.
  pub data Above (d : ℕ) : SessionState V S P → SessionState V S P → Type 0 where
    write : {s t : SessionState V S P} → t.scopes ≡ s.scopes → Above d s t
    fork : {s t : SessionState V S P} → t ≡ open_scope s → Above d s t
    release : {s t : SessionState V S P} (n : ℕ) → d < n → t ≡ discard_scopes n s → Above d s t
    rollback_to : {s t : SessionState V S P} (n : ℕ) → d < n → t ≡ restore_scope n s → Above d s t
    after : {s t u : SessionState V S P} → Above d s t → Above d t u → Above d s u

  -- Frame `d` holds `f`, above the frames `below`.
  abbrev pub Holds : ℕ → Scope V → List (Scope V) → SessionState V S P → Type 0
  Holds d f below s = (get_elem? s.scopes d ≡ some f) × (take d s.scopes ≡ below)

  module _ (d : ℕ) (f : Scope V) (below : List (Scope V)) where
    Holds-open : (s : SessionState V S P) → Holds d f below s → Holds d f below (open_scope s)
    unfolding open_scope
    Holds-open s h = (
      get_elem?-append d s.scopes (snapshot s ∷ []) f h.0,
      take-append-le d s.scopes (snapshot s ∷ []) (omega (arith, get_elem?-lt d s.scopes f h.0))
          ∙ h.1,
    )

    Holds-restore :
        (n : ℕ) (s : SessionState V S P)
        → d < n
        → Holds d f below s
        → Holds d f below (restore_scope n s)
    unfolding restore_scope
    Holds-restore n s lt h = elim (Option-cases (get_elem? s.scopes n)) [
      | inl e ↦ rw e h
      | inr (g, e) ↦ rw e (Holds-take d f below n s.scopes lt h)
    ]

    pub Above-Holds :
        {s t : SessionState V S P} → Above d s t → Holds d f below s → Holds d f below t
    Above-Holds (write e) h = rw e h
    Above-Holds (fork {s = s} e) h = rw e (Holds-open s h)
    Above-Holds (release {s = s} n lt e) h =
        rw e (unfold discard_scopes in Holds-take d f below n s.scopes lt h)
    Above-Holds (rollback_to {s = s} n lt e) h = rw e (Holds-restore n s lt h)
    Above-Holds (after a b) h = Above-Holds b (Above-Holds a h)

  -- Restoring the frame that `open_scope` pushed brings back the settings, the subscriptions, the
  -- notifications and the frames below as they were, whatever was written, opened, released or
  -- rolled back above it in between.
  pub restore_scope-open_scope :
      (s t : SessionState V S P)
      → Above (length s.scopes) (open_scope s) t
      → (snapshot (restore_scope (length s.scopes) t) ≡ snapshot s)
        × ((restore_scope (length s.scopes) t).scopes ≡ s.scopes)
  unfolding restore_scope
  restore_scope-open_scope s t a = rw kept.0 (refl, kept.1)
    where
      kept : Holds (length s.scopes) (snapshot s) s.scopes t
      kept =
          Above-Holds (length s.scopes) (snapshot s) s.scopes a
            (unfold open_scope in (get_elem?-length s.scopes (snapshot s), take-append s.scopes _))
