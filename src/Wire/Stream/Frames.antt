-- ===== src/Wire/Stream/Frames.antt =====
-- What the readers make of the bytes: a frame that was written comes back, whatever follows it, and
-- no frame makes a reader hold more than its limit.
use pg_mimic.Prelude.{
  ℕ, ◌+◌, ◌-◌, ◌≤◌, ◌^◌, ◌≡◌, refl, sym, ap, subst, ◌∙◌, List, [], ◌∷◌, ◌++◌, true, Option, none,
  some, ltb, le→ltb, if_false, take, drop, length, length-append, take-append, drop-append, arith,
  Result, ok, >>=-eq-ok, ℤ, pos, negsuc, to_nat, length-take-le, take-append-drop, Bool-cases, inl,
  inr, Bool,
}
use pg_mimic.Errors.{Error}
use pg_mimic.Wire.Ints.{bytes32, word, pack_int32, first_int32, unpack_int32}
use pg_mimic.Wire.Ints.RoundTrip.{first_int32-bytes32, some_inj}
use pg_mimic.Wire.Stream.{read_exactly, check_length, header_int, read_message, frame, message}

read_exactly-some : (n : ℕ) (r : List ℕ) → n ≤ length r → read_exactly n r ≡ ok (take n r, drop n r)
unfolding read_exactly
read_exactly-some n r h = if_false _ _ (le→ltb (length r) n h)

check_length-ok :
    (n minimum maximum : ℕ)
    → minimum ≤ n
    → n ≤ maximum
    → check_length (pos n) minimum maximum ≡ ok true
unfolding check_length
check_length-ok n minimum maximum h k = ground arith

ok_inj : {A : Type 0} {a b : A} → ◌≡◌ {A = Result Error A} (ok a) (ok b) → a ≡ b
ok_inj e = cc

read_payload :
    (payload rest : List ℕ)
    → read_exactly (length payload + 4 - 4) (payload ++ rest) ≡ ok (payload, rest)
read_payload payload rest =
    ap (λ n. read_exactly n (payload ++ rest)) same
    ∙ read_exactly-some (length payload) (payload ++ rest)
        (omega (arith, length-append payload rest))
    ∙ rw (take-append payload rest, drop-append payload rest) refl
  where
    same : length payload + 4 - 4 ≡ length payload
    same = omega arith

read_message-header :
    (limit tag a b c d : ℕ) (payload rest : List ℕ)
    → first_int32 (a ∷ b ∷ c ∷ d ∷ []) ≡ some (pos (length payload + 4))
    → length payload + 4 ≤ limit
    → read_message limit (tag ∷ a ∷ b ∷ c ∷ d ∷ (payload ++ rest)) ≡ ok (tag ∷ [], payload, rest)
unfolding read_message header_int unpack_int32
read_message-header limit tag a b c d payload rest h k =
    rw
      (
        read_exactly-some 5 (tag ∷ a ∷ b ∷ c ∷ d ∷ (payload ++ rest)) (omega arith),
        h,
        check_length-ok (length payload + 4) 4 limit (omega arith) k,
        read_payload payload rest,
      )
      refl

message-bytes :
    (limit tag : ℕ) (payload rest bs : List ℕ) (o : Option ℕ)
    → word (2 ^ 31) (pos (length payload + 4)) ≡ o
    → frame tag payload (bytes32 o) ≡ some bs
    → length payload + 4 ≤ limit
    → read_message limit (bs ++ rest) ≡ ok (tag ∷ [], payload, rest)
unfolding frame bytes32
message-bytes limit tag payload rest bs none h e k = absurd cc
message-bytes limit tag payload rest bs (some w) h e k =
    ap (λ l. read_message limit (l ++ rest)) (sym (some_inj e))
    ∙ read_message-header limit tag _ _ _ _ payload rest
        (first_int32-bytes32 (pos (length payload + 4)) (some w) _ [] h refl) k

-- A message that `_message` builds, within the reader's limit, is read back with its tag and its
-- payload, and the reader then stands right behind it.
pub read_message-message :
    (limit tag : ℕ) (payload rest bs : List ℕ)
    → message tag payload ≡ some bs
    → length payload + 4 ≤ limit
    → read_message limit (bs ++ rest) ≡ ok (tag ∷ [], payload, rest)
unfolding message pack_int32
read_message-message limit tag payload rest bs e k =
    message-bytes limit tag payload rest bs _ refl e k

-- What a successful read_exactly returns.
record IsRead (n : ℕ) (r : List ℕ) (p : List ℕ × List ℕ) : Type 0 where
  enough : n ≤ length r
  head : p.0 ≡ take n r
  tail : p.1 ≡ drop n r

read_exactly-IsRead :
    (n : ℕ) (r : List ℕ) (p : List ℕ × List ℕ) → read_exactly n r ≡ ok p → IsRead n r p
unfolding read_exactly
read_exactly-IsRead n r p e = elim (Bool-cases (ltb (length r) n)) [
  | inl b ↦ absurd cc
  | inr b ↦ record {
    enough = ground arith;
    head = ap (λ x. x.0) (sym (ok_inj (sym (if_false _ _ b) ∙ e)));
    tail = ap (λ x. x.1) (sym (ok_inj (sym (if_false _ _ b) ∙ e)));
  }
]

check_length-inv :
    (z : ℤ) (minimum maximum : ℕ) (b : Bool)
    → check_length z minimum maximum ≡ ok b
    → (minimum ≤ to_nat z) × (to_nat z ≤ maximum)
unfolding check_length
check_length-inv (pos n) minimum maximum b e = ground arith
check_length-inv (negsuc n) minimum maximum b e = absurd cc

IsRead-join : {n : ℕ} {r : List ℕ} {p : List ℕ × List ℕ} → IsRead n r p → p.0 ++ p.1 ≡ r
IsRead-join {n} {r} h = rw (h.head, h.tail) (take-append-drop n r)

-- The parts of a message that was read.
message-parts :
    (limit : ℕ) (r : List ℕ) (h : List ℕ × List ℕ) (z : ℤ) (p : List ℕ × List ℕ)
    → IsRead 5 r h
    → (4 ≤ to_nat z) × (to_nat z ≤ limit)
    → IsRead (to_nat z - 4) h.1 p
    → (length p.0 + 4 ≤ limit) × (take 5 r ++ (p.0 ++ p.1) ≡ r)
message-parts limit r h z p i b j = (
  omega (arith, b.0, b.1, ap length j.head, length-take-le (to_nat z - 4) h.1 j.enough),
  ap (λ l. take 5 r ++ l) (IsRead-join j ∙ i.tail) ∙ take-append-drop 5 r,
)

-- A message that is read is the head of what the peer sent, five bytes and then the payload, and
-- its length with the length field's own is within the limit.
pub read_message-bounds :
    (limit : ℕ) (r tag payload rest : List ℕ)
    → read_message limit r ≡ ok (tag, payload, rest)
    → (length payload + 4 ≤ limit) × (take 5 r ++ (payload ++ rest) ≡ r)
unfolding read_message
read_message-bounds limit r tag payload rest e =
    let (h, e1, k1) = >>=-eq-ok (read_exactly 5 r) _ e in
    let (z, e2, k2) = >>=-eq-ok (header_int (unpack_int32 h.0 1)) _ k1 in
    let (b, e3, k3) = >>=-eq-ok (check_length z 4 limit) _ k2 in
    let (p, e4, k4) = >>=-eq-ok (read_exactly (to_nat z - 4) h.1) _ k3 in
    subst (λ out. (length out.1 + 4 ≤ limit) × (take 5 r ++ (out.1 ++ out.2) ≡ r)) (ok_inj k4)
      (message-parts limit r h z p (read_exactly-IsRead 5 r h e1) (check_length-inv z 4 limit b e3)
        (read_exactly-IsRead (to_nat z - 4) h.1 p e4))
