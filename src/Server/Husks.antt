-- ===== src/Server/Husks.antt =====
-- The registry of pg_mimic/server.py keeps no entry for a channel that nobody listens to.
use pg_mimic.Prelude.{
  ℕ, String, ◌≢◌, Option, none, some, List, [], ◌∷◌, ◌++◌, arith, nat_eq, string_eq,
}
use pg_mimic.Prelude.Dict
use pg_mimic.Prelude.Dict.{lookup-insert, lookup-pop}
use pg_mimic.Prelude.Set.{add, discard}
use pg_mimic.Server.Registry.{
  Registry, members, add_listener, without_husk, remove_from, remove_listener, add_all, remove_all,
}

abbrev pub NoHusk : Registry → Type 0
NoHusk r = (c : String) → Dict.lookup c r ≢ some []

append_ne : (xs : List ℕ) (a : ℕ) → xs ++ a ∷ [] ≢ []
append_ne [] a h = cc
append_ne (x ∷ xs) a h = cc

add_ne : (p : ℕ) (xs : List ℕ) → add p xs ≢ []
unfolding add
add_ne p [] h = cc
add_ne p (x ∷ xs) h = ground (arith, append_ne (x ∷ xs) p)

NoHusk-add : (c : String) (p : ℕ) (r : Registry) → NoHusk r → NoHusk (add_listener c p r)
unfolding add_listener
NoHusk-add c p r h ch = ground (
  arith,
  lookup-insert c ch (add p (members (Dict.lookup c r))) r,
  add_ne p (members (Dict.lookup c r)),
  h ch,
)

NoHusk-without_husk :
    (c : String) (xs : List ℕ) (r : Registry) → NoHusk r → NoHusk (without_husk c xs r)
unfolding without_husk
NoHusk-without_husk c [] r h ch = ground (arith, lookup-pop c ch r, h ch)
NoHusk-without_husk c (x ∷ xs) r h ch = ground (arith, lookup-insert c ch (x ∷ xs) r, h ch)

NoHusk-remove_from :
    (o : Option (List ℕ)) (c : String) (p : ℕ) (r : Registry)
    → NoHusk r
    → NoHusk (remove_from o c p r)
unfolding remove_from
NoHusk-remove_from none c p r h = h
NoHusk-remove_from (some xs) c p r h = NoHusk-without_husk c (discard p xs) r h

NoHusk-add_all : (cs : List String) (p : ℕ) (r : Registry) → NoHusk r → NoHusk (add_all cs p r)
unfolding add_all
NoHusk-add_all [] p r h = h
NoHusk-add_all (c ∷ cs) p r h = NoHusk-add_all cs p (add_listener c p r) (NoHusk-add c p r h)

NoHusk-remove_all :
    (cs : List String) (p : ℕ) (r : Registry) → NoHusk r → NoHusk (remove_all cs p r)
unfolding remove_all remove_listener
NoHusk-remove_all [] p r h = h
NoHusk-remove_all (c ∷ cs) p r h =
    NoHusk-remove_all cs p (remove_listener c p r) (NoHusk-remove_from (Dict.lookup c r) c p r h)

-- Unregistering from some channels and then registering for some leaves no empty entry, if there
-- was none before.
pub NoHusk-sync :
    (gone fresh : List String) (p : ℕ) (r : Registry)
    → NoHusk r
    → NoHusk (add_all fresh p (remove_all gone p r))
NoHusk-sync gone fresh p r h =
    NoHusk-add_all fresh p (remove_all gone p r) (NoHusk-remove_all gone p r h)
