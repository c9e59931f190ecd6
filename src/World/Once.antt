-- ===== src/World/Once.antt =====
-- The registry of pg_mimic/server.py lists a connection once for each channel, whatever is registered
-- and unregistered: its lists stand for sets.
use pg_mimic.Prelude.{
  ℕ, ◌+◌, String, ◌≡◌, refl, subst, List, [], ◌∷◌, ◌++◌, arith, nat_beq, nat_beq_iff, if◌then◌else◌,
  Bool-cases, inl, inr, nat_eq, string_eq, ◌==◌, Option-cases,
}
use pg_mimic.World.{sync_registry}
use pg_mimic.Prelude.Set.{difference, contains, add, discard, contains-add, contains-discard}
use pg_mimic.Prelude.Dict
use pg_mimic.Prelude.Dict.{lookup-insert, lookup-pop}
use pg_mimic.Server.Registry.{
  Registry, listeners, hears, members, add_listener, remove_listener, remove_from, without_husk,
  add_all, remove_all,
}
use pg_mimic.World.Received.{IsOnce, occurrences}

abbrev IsSetList : List ℕ → Type 0
IsSetList xs = (q : ℕ) → occurrences xs q ≡ (if contains xs q then 1 else 0)

occurrences-append :
    (xs : List ℕ) (p q : ℕ)
    → occurrences (xs ++ p ∷ []) q ≡ occurrences xs q + (if nat_beq p q then 1 else 0)
occurrences-append [] p q = ground arith
occurrences-append (x ∷ xs) p q = ground (arith, occurrences-append xs p q)

IsSetList-add : (p : ℕ) (xs : List ℕ) → IsSetList xs → IsSetList (add p xs)
unfolding add
IsSetList-add p xs h q =
    ground (arith, h q, h p, occurrences-append xs p q, contains-add p q xs, nat_beq_iff p q)

occurrences-discard :
    (p q : ℕ) (xs : List ℕ)
    → occurrences (discard p xs) q ≡ (if nat_beq p q then 0 else occurrences xs q)
unfolding discard
occurrences-discard p q [] = ground arith
occurrences-discard p q (x ∷ xs) =
    ground (arith, occurrences-discard p q xs, nat_beq_iff x p, nat_beq_iff x q, nat_beq_iff p q)

IsSetList-discard : (p : ℕ) (xs : List ℕ) → IsSetList xs → IsSetList (discard p xs)
IsSetList-discard p xs h q =
    ground (arith, h q, occurrences-discard p q xs, contains-discard p q xs, nat_beq_iff p q)

IsOnce-members : (r : Registry) → IsOnce r → (c : String) → IsSetList (members (Dict.lookup c r))
IsOnce-members r h c q = unfold hears listeners in h c q

IsOnce-insert :
    (c : String) (xs : List ℕ) (r : Registry)
    → IsSetList xs
    → IsOnce r
    → IsOnce (Dict.insert c xs r)
unfolding hears listeners
IsOnce-insert c xs r k h ch q = elim (Bool-cases (c == ch)) [
  | inl e ↦ rw (lookup-insert c ch xs r, e) (k q)
  | inr e ↦ rw (lookup-insert c ch xs r, e) (h ch q)
]

IsOnce-pop : (c : String) (r : Registry) → IsOnce r → IsOnce (Dict.pop c r)
unfolding hears listeners
IsOnce-pop c r h ch q = elim (Bool-cases (c == ch)) [
  | inl e ↦ rw (lookup-pop c ch r, e) refl
  | inr e ↦ rw (lookup-pop c ch r, e) (h ch q)
]

IsOnce-add : (c : String) (p : ℕ) (r : Registry) → IsOnce r → IsOnce (add_listener c p r)
unfolding add_listener
IsOnce-add c p r h =
    IsOnce-insert c (add p (members (Dict.lookup c r))) r
      (IsSetList-add p (members (Dict.lookup c r)) (IsOnce-members r h c)) h

IsOnce-without_husk :
    (c : String) (xs : List ℕ) (r : Registry)
    → IsSetList xs
    → IsOnce r
    → IsOnce (without_husk c xs r)
unfolding without_husk
IsOnce-without_husk c [] r k h = IsOnce-pop c r h
IsOnce-without_husk c (x ∷ xs) r k h = IsOnce-insert c (x ∷ xs) r k h

IsOnce-remove : (c : String) (p : ℕ) (r : Registry) → IsOnce r → IsOnce (remove_listener c p r)
unfolding remove_listener remove_from
IsOnce-remove c p r h = elim (Option-cases (Dict.lookup c r)) [
  | inl e ↦ rw e h
  | inr (xs, e) ↦ rw e (
      IsOnce-without_husk c (discard p xs) r
        (IsSetList-discard p xs (subst (λ o. IsSetList (members o)) e (IsOnce-members r h c))) h)
]

pub IsOnce-sync_registry :
    (registered listening : List String) (p : ℕ) (r : Registry)
    → IsOnce r
    → IsOnce (sync_registry registered listening p r)
unfolding sync_registry add_all remove_all
IsOnce-sync_registry registered listening p r h =
    added (difference listening registered) _ (removed (difference registered listening) r h)
  where
    added : (cs : List String) (r : Registry) → IsOnce r → IsOnce (add_all cs p r)
    added [] r h = h
    added (c ∷ cs) r h = added cs (add_listener c p r) (IsOnce-add c p r h)

    removed : (cs : List String) (r : Registry) → IsOnce r → IsOnce (remove_all cs p r)
    removed [] r h = h
    removed (c ∷ cs) r h = removed cs (remove_listener c p r) (IsOnce-remove c p r h)
