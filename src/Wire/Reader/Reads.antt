-- ===== src/Wire/Reader/Reads.antt =====
-- What a reader makes of bytes that stand anywhere in the data.
use pg_mimic.Prelude.{
  ℕ, ◌+◌, ◌≤◌, ◌≡◌, refl, sym, ap, subst, append-nil, ◌∙◌, List, [], ◌∷◌, map, ◌++◌, append_assoc,
  Option, none, some, length, length-append, take, take-append, drop-append, arith, ℤ, pos, negsuc,
}
use pg_mimic.Wire.Ints.{bytes32, bytes16, pack_int32, pack_int16, unpack_int32, unpack_int16}
use pg_mimic.Wire.Ints.RoundTrip.{unpack_int32-pack_int32, unpack_int16-pack_int16, some_inj}
use pg_mimic.Wire.Messages.Builders.{◌then◌, each, field, fields}
use pg_mimic.Wire.Reader.{
  Reader, give, ◌>>>◌, place, bound, slice, moved, read_int32, read_int16, read_sized, read_value,
  read_times, result,
}

-- `r` reads `a` from `bs` wherever they stand, and moves right behind them.
pub record Reads {A : Type 0} (r : Reader A) (bs : List ℕ) (a : A) : Type 0 where
  pub reads :
      (before rest : List ℕ)
      → r (before ++ (bs ++ rest)) (pos (length before)) ≡ some (a, pos (length before + length bs))

pub Reads-give : {A : Type 0} (a : A) → Reads (give a) [] a
Reads-give a = record { reads = λ before rest. ap (λ n. some (a, pos n)) (omega arith) }

-- The reading goes on behind `bs`.
Reads-behind :
    {B : Type 0} {r : Reader B} {cs : List ℕ} {b : B} (bs before rest : List ℕ)
    → Reads r cs b
    → r (before ++ (bs ++ (cs ++ rest))) (pos (length before + length bs))
      ≡ some (b, pos (length before + length (bs ++ cs)))
Reads-behind {B} {r} {cs} {b} bs before rest q =
    ap (λ n. r (before ++ (bs ++ (cs ++ rest))) (pos n)) (sym (length-append before bs))
    ∙ ap (λ l. r l (pos (length (before ++ bs)))) (sym (append_assoc before bs (cs ++ rest)))
    ∙ q.reads (before ++ bs) rest
    ∙ ap (λ n. some (b, pos n)) (omega (arith, length-append before bs, length-append bs cs))

pub Reads-then :
    {A B : Type 0} {r : Reader A} (f : A → Reader B) {bs cs : List ℕ} {a : A} {b : B}
    → Reads r bs a
    → Reads (f a) cs b
    → Reads (r >>> f) (bs ++ cs) b
Reads-then {A} {B} {r} f {bs} {cs} {a} {b} p q = record {
  reads = λ before rest.
      ap (λ l. (r >>> f) (before ++ l) (pos (length before))) (append_assoc bs cs rest)
      ∙ ap (λ o. elim o [ none ↦ none | some s ↦ f s.0 (before ++ (bs ++ (cs ++ rest))) s.1 ])
          (p.reads before (cs ++ rest))
      ∙ Reads-behind bs before rest q;
}

bytes32-length : (o : Option ℕ) (bs : List ℕ) → bytes32 o ≡ some bs → length bs ≡ 4
unfolding bytes32
bytes32-length none bs e = absurd cc
bytes32-length (some w) bs e = ap length (sym (some_inj e))

bytes16-length : (o : Option ℕ) (bs : List ℕ) → bytes16 o ≡ some bs → length bs ≡ 2
unfolding bytes16
bytes16-length none bs e = absurd cc
bytes16-length (some w) bs e = ap length (sym (some_inj e))

pub pack_int32-length : (z : ℤ) (bs : List ℕ) → pack_int32 z ≡ some bs → length bs ≡ 4
unfolding pack_int32
pack_int32-length z bs e = bytes32-length _ bs e

pub pack_int16-length : (z : ℤ) (bs : List ℕ) → pack_int16 z ≡ some bs → length bs ≡ 2
unfolding pack_int16
pack_int16-length z bs e = bytes16-length _ bs e

pub Reads-int32 : (z : ℤ) (bs : List ℕ) → pack_int32 z ≡ some bs → Reads read_int32 bs z
unfolding read_int32 place
Reads-int32 z bs e = record {
  reads = λ before rest.
      ap (λ l. moved (pos (length before)) 4 (unpack_int32 l (length before)))
        (sym (append_assoc before bs rest))
      ∙ ap (moved (pos (length before)) 4) (unpack_int32-pack_int32 z before bs rest e)
      ∙ ap (λ n. some (z, pos (length before + n))) (sym (pack_int32-length z bs e));
}

pub Reads-int16 : (z : ℤ) (bs : List ℕ) → pack_int16 z ≡ some bs → Reads read_int16 bs z
unfolding read_int16 place
Reads-int16 z bs e = record {
  reads = λ before rest.
      ap (λ l. moved (pos (length before)) 2 (unpack_int16 l (length before)))
        (sym (append_assoc before bs rest))
      ∙ ap (moved (pos (length before)) 2) (unpack_int16-pack_int16 z before bs rest e)
      ∙ ap (λ n. some (z, pos (length before + n))) (sym (pack_int16-length z bs e));
}

bound-le : (size n : ℕ) → n ≤ size → bound size (pos n) ≡ n
unfolding bound
bound-le size n h = ground arith

slice-append :
    (before bs rest : List ℕ)
    → slice (before ++ (bs ++ rest)) (pos (length before)) (pos (length before + length bs)) ≡ bs
unfolding slice
slice-append before bs rest =
    let outer = length-append before (bs ++ rest) in
    let inner = length-append bs rest in
    rw
      (
        bound-le (length (before ++ (bs ++ rest))) (length before) (omega arith),
        bound-le (length (before ++ (bs ++ rest))) (length before + length bs) (omega arith),
        drop-append before (bs ++ rest),
      )
      (ap (λ n. take n (bs ++ rest)) (omega arith) ∙ take-append bs rest)

Reads-sized : (bs : List ℕ) → Reads (read_sized (pos (length bs))) bs (some bs)
unfolding read_sized
Reads-sized bs = record {
  reads = λ before rest.
      ap (λ l. some (some l, pos (length before + length bs))) (slice-append before bs rest);
}

pub then-some :
    (o p : Option (List ℕ)) (bs : List ℕ)
    → (o then p) ≡ some bs
    → (xs ys : List ℕ) × (o ≡ some xs) × (p ≡ some ys) × (bs ≡ xs ++ ys)
then-some none p bs e = absurd cc
then-some (some xs) none bs e = absurd cc
then-some (some xs) (some ys) bs e = (xs, ys, refl, refl, sym (some_inj e))

Reads-null : Reads (read_sized (negsuc 0)) [] none
unfolding read_sized
Reads-null = record { reads = λ before rest. ap (λ n. some (none, pos n)) (omega arith) }

pub Reads-eq :
    {A : Type 0} {r : Reader A} {bs cs : List ℕ} {a : A} → bs ≡ cs → Reads r cs a → Reads r bs a
Reads-eq {A} {r} {bs} {cs} {a} e p = subst (λ l. Reads r l a) (sym e) p

pub Reads-field : (v : Option (List ℕ)) (bs : List ℕ) → field v ≡ some bs → Reads read_value bs v
unfolding field read_value
Reads-field none bs e =
    Reads-eq (sym (append-nil bs)) (Reads-then read_sized (Reads-int32 (negsuc 0) bs e) Reads-null)
Reads-field (some t) bs e =
    let (xs, ys, packed, same, joined) = then-some (pack_int32 (pos (length t))) (some t) bs e in
    Reads-eq (joined ∙ ap (λ l. xs ++ l) (sym (some_inj same)))
      (Reads-then read_sized (Reads-int32 (pos (length t)) xs packed) (Reads-sized t))

pub Reads-map :
    {A B : Type 0} (f : A → B) (write : A → Option (List ℕ)) (r : Reader B)
    → ((a : A) (bs : List ℕ) → write a ≡ some bs → Reads r bs (f a))
    → (items : List A) (bs : List ℕ) → each write items ≡ some bs
    → Reads (read_times r (length items)) bs (map f items)
Reads-map f write r one [] bs e = Reads-eq (sym (some_inj e)) (Reads-give [])
Reads-map f write r one (a ∷ items) bs e =
    let (xs, ys, first, others, joined) = then-some (write a) (each write items) bs e in
    Reads-eq (joined ∙ ap (λ l. xs ++ l) (sym (append-nil ys))) (
      Reads-then (λ b. read_times r (length items) >>> λ rest. give (b ∷ rest)) (one a xs first)
        (Reads-then (λ rest. give (f a ∷ rest)) (Reads-map f write r one items ys others)
          (Reads-give (f a ∷ map f items))))

map_same : {A : Type 0} (items : List A) → map (λ a. a) items ≡ items
map_same [] = refl
map_same (a ∷ items) = ap (λ l. a ∷ l) (map_same items)

pub Reads-each :
    {A : Type 0} (write : A → Option (List ℕ)) (r : Reader A)
    → ((a : A) (bs : List ℕ) → write a ≡ some bs → Reads r bs a)
    → (items : List A) (bs : List ℕ) → each write items ≡ some bs
    → Reads (read_times r (length items)) bs items
Reads-each write r one items bs e =
    subst (λ l. Reads (read_times r (length items)) bs l) (map_same items)
      (Reads-map (λ a. a) write r one items bs e)

pub fields-each : (vs : List (Option (List ℕ))) → fields vs ≡ each field vs
unfolding fields
fields-each [] = refl
fields-each (v ∷ vs) = ap (λ o. field v then o) (fields-each vs)

pub Reads-result :
    {A : Type 0} (r : Reader A) (bs rest : List ℕ) (a : A)
    → Reads r bs a
    → result (r (bs ++ rest) (pos 0)) ≡ some a
Reads-result r bs rest a p = ap result (p.reads [] rest)
