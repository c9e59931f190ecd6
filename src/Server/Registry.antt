-- ===== src/Server/Registry.antt =====
-- The LISTEN/NOTIFY registry of pg_mimic/server.py: for each channel the connections that listen
-- to it. A connection is named by its pid, which the server gives out once.
use pg_mimic.Prelude.{
  ℕ, String, ◌≡◌, refl, Bool, not, ◌&&◌, ◌||◌, Option, none, some, List, [], ◌∷◌, arith, ◌==◌,
  nat_eq, string_eq, if◌then◌else◌,
}
use pg_mimic.Prelude.Dict
use pg_mimic.Prelude.Dict.{Dict, lookup-insert, lookup-pop}
use pg_mimic.Prelude.Set.{contains, add, discard, contains-add, contains-discard}

abbrev pub Registry : Type 0
Registry = Dict String (List ℕ)

-- dict.get(channel, ())
abbrev pub members : Option (List ℕ) → List ℕ
members none = []
members (some xs) = xs

unfoldable pub add_listener : String → ℕ → Registry → Registry
add_listener channel p r = Dict.insert channel (add p (members (Dict.lookup channel r))) r

-- An entry that becomes empty is deleted.
unfoldable pub without_husk : String → List ℕ → Registry → Registry
without_husk channel [] r = Dict.pop channel r
without_husk channel (q ∷ qs) r = Dict.insert channel (q ∷ qs) r

unfoldable pub remove_from : Option (List ℕ) → String → ℕ → Registry → Registry
unfolding without_husk
remove_from none channel p r = r
remove_from (some subscribers) channel p r = without_husk channel (discard p subscribers) r

unfoldable pub remove_listener : String → ℕ → Registry → Registry
unfolding remove_from
remove_listener channel p r = remove_from (Dict.lookup channel r) channel p r

unfoldable pub listeners : String → Registry → List ℕ
listeners channel r = members (Dict.lookup channel r)

-- A notification raised on `channel` reaches `p`.
unfoldable pub hears : Registry → String → ℕ → Bool
unfolding listeners
hears r channel p = contains (listeners channel r) p

pub hears-add :
    (c ch : String) (p q : ℕ) (r : Registry)
    → hears (add_listener c p r) ch q ≡ (c == ch && p == q || hears r ch q)
unfolding hears add_listener
hears-add c ch p q r = ground (
  arith,
  lookup-insert c ch (add p (members (Dict.lookup c r))) r,
  contains-add p q (members (Dict.lookup c r)),
  string_eq.beq_iff c ch,
)

hears-without_husk :
    (c ch : String) (xs : List ℕ) (q : ℕ) (r : Registry)
    → hears (without_husk c xs r) ch q ≡ (if c == ch then contains xs q else hears r ch q)
unfolding hears without_husk
hears-without_husk c ch [] q r = ground (arith, lookup-pop c ch r)
hears-without_husk c ch (x ∷ xs) q r = ground (arith, lookup-insert c ch (x ∷ xs) r)

hears-of_lookup :
    (c : String) (q : ℕ) (r : Registry) (o : Option (List ℕ))
    → Dict.lookup c r ≡ o
    → hears r c q ≡ contains (members o) q
unfolding hears
hears-of_lookup c q r o h = rw h

hears-remove_from :
    (o : Option (List ℕ)) (c ch : String) (p q : ℕ) (r : Registry)
    → Dict.lookup c r ≡ o
    → hears (remove_from o c p r) ch q ≡ (not (c == ch && p == q) && hears r ch q)
unfolding remove_from
hears-remove_from none c ch p q r h =
    ground (arith, hears-of_lookup c q r none h, string_eq.beq_iff c ch)
hears-remove_from (some xs) c ch p q r h = ground (
  arith,
  hears-without_husk c ch (discard p xs) q r,
  contains-discard p q xs,
  hears-of_lookup c q r (some xs) h,
  string_eq.beq_iff c ch,
)

pub hears-remove :
    (c ch : String) (p q : ℕ) (r : Registry)
    → hears (remove_listener c p r) ch q ≡ (not (c == ch && p == q) && hears r ch q)
unfolding remove_listener
hears-remove c ch p q r = hears-remove_from (Dict.lookup c r) c ch p q r refl

-- for channel in cs: add_listener(channel, p)
unfoldable pub add_all : List String → ℕ → Registry → Registry
add_all [] p r = r
add_all (c ∷ cs) p r = add_all cs p (add_listener c p r)

-- for channel in cs: remove_listener(channel, p)
unfoldable pub remove_all : List String → ℕ → Registry → Registry
remove_all [] p r = r
remove_all (c ∷ cs) p r = remove_all cs p (remove_listener c p r)

pub hears-add_all :
    (cs : List String) (ch : String) (p q : ℕ) (r : Registry)
    → hears (add_all cs p r) ch q ≡ (contains cs ch && p == q || hears r ch q)
unfolding add_all
hears-add_all [] ch p q r = refl
hears-add_all (c ∷ cs) ch p q r =
    ground (arith, hears-add_all cs ch p q (add_listener c p r), hears-add c ch p q r)

pub hears-remove_all :
    (cs : List String) (ch : String) (p q : ℕ) (r : Registry)
    → hears (remove_all cs p r) ch q ≡ (not (contains cs ch && p == q) && hears r ch q)
unfolding remove_all
hears-remove_all [] ch p q r = refl
hears-remove_all (c ∷ cs) ch p q r =
    ground (arith, hears-remove_all cs ch p q (remove_listener c p r), hears-remove c ch p q r)
