-- ===== src/Arrays/Literal/Fuel.antt =====
-- The parser of array literals ends: the fuel that `parse_array_literal` gives is enough.
use pg_mimic.Prelude.{
  ℕ, zero, suc, ◌+◌, ◌*◌, ◌≤◌, ◌<◌, ◌≡◌, ◌≢◌, refl, List, [], ◌∷◌, ◌++◌, Bool, true, false, Option,
  none, some, nat_beq, if◌then◌else◌, length, Result, ok, err, ◌>>=◌, Bool-cases, inl, inr, arith,
  text_beq,
}
use pg_mimic.Arrays.Defs.{Value, Values}
use pg_mimic.Arrays.Literal.{
  Failure, malformed, out_of_fuel, Parsed, skip_space, parse_quoted, take_bare, strip, parse_bare,
  starts, rest_of, as_some, as_list, prepend, parse_braced, parse_items, parse_item, after_item,
  whole, parse_body, parse_array_literal,
}

-- A parse that ended: with at most `n` characters left, or refused.
data Ends {A : Type 0} (n : ℕ) : Parsed A → Type 0 where
  ended : {a : A} {rest : List ℕ} → length rest ≤ n → Ends n (ok (a, rest))
  rejected : Ends n (err malformed)

length-skip_space : (s : List ℕ) → length (skip_space s) ≤ length s
unfolding skip_space
length-skip_space [] = omega arith
length-skip_space (c ∷ s) = ground (arith, length-skip_space s)

length-rest_of : (s : List ℕ) → length (rest_of s) ≤ length s
length-rest_of [] = omega arith
length-rest_of (c ∷ s) = omega arith

starts-rest_of : (c : ℕ) (s : List ℕ) → starts c s ≡ true → length (rest_of s) < length s
starts-rest_of c [] h = absurd cc
starts-rest_of c (d ∷ s) h = omega arith

length-take_bare : (s : List ℕ) → length (take_bare s).1 ≤ length s
unfolding take_bare
length-take_bare [] = omega arith
length-take_bare (c ∷ s) = ground (arith, length-take_bare s)

Ends-if :
    {A : Type 0} {n : ℕ} (b : Bool) {x y : Parsed A}
    → (b ≡ true → Ends n x)
    → (b ≡ false → Ends n y)
    → Ends n (if b then x else y)
Ends-if true on_true on_false = on_true refl
Ends-if false on_true on_false = on_false refl

Ends-le : {A : Type 0} {m n : ℕ} {p : Parsed A} → m ≤ n → Ends m p → Ends n p
Ends-le b (ended h) = ended (omega arith)
Ends-le b rejected = rejected

parse_quoted-Ends : (chars s : List ℕ) → Ends (length s) (parse_quoted chars s)
unfolding parse_quoted
parse_quoted-Ends chars [] = rejected
parse_quoted-Ends chars (c ∷ []) =
    Ends-if (nat_beq c 92) (λ h. rejected)
      λ h. Ends-if (nat_beq c 34) (λ q. ended (omega arith)) λ q. rejected
parse_quoted-Ends chars (c ∷ d ∷ s) = elim (Bool-cases (nat_beq c 92)) [
  | inl p ↦ rw (p, parse_quoted) (Ends-le (omega arith) (parse_quoted-Ends (chars ++ d ∷ []) s))
  | inr p ↦ elim (Bool-cases (nat_beq c 34)) [
    | inl q ↦ rw (p, q, parse_quoted) (ended (omega arith))
    | inr q ↦
        rw (p, q, parse_quoted)
          (Ends-le (omega arith) (parse_quoted-Ends (chars ++ c ∷ []) (d ∷ s)))
  ]
]

as_some-Ends : {n : ℕ} {p : Parsed (List ℕ)} → Ends n p → Ends n (as_some p)
as_some-Ends (ended h) = ended h
as_some-Ends rejected = rejected

as_list-Ends : {n : ℕ} {p : Parsed Values} → Ends n p → Ends n (as_list p)
as_list-Ends (ended h) = ended h
as_list-Ends rejected = rejected

prepend-Ends : {n : ℕ} {p : Parsed Values} (v : Value) → Ends n p → Ends n (prepend v p)
prepend-Ends v (ended h) = ended h
prepend-Ends v rejected = rejected

-- an item, and what its end allows
bind-Ends :
    {n : ℕ} {p : Parsed Value} (f : Value × List ℕ → Parsed Values)
    → Ends n p
    → ((v : Value) (rest : List ℕ) → length rest ≤ n → Ends n (f (v, rest)))
    → Ends n (p >>= f)
bind-Ends f (ended h) each = each _ _ h
bind-Ends f rejected each = rejected

mutual
  unfolding parse_braced parse_bare

  parse_braced-Ends :
      (fuel n : ℕ) (s : List ℕ) → length s ≤ n → 3 * n + 2 < fuel → Ends n (parse_braced fuel s)
  parse_braced-Ends zero n s l b = absurd (omega arith)
  parse_braced-Ends (suc fuel) n s l b =
      Ends-if (starts b'}' (skip_space s))
        (λ brace. ended (omega (arith, length-skip_space s, length-rest_of (skip_space s))))
        (λ other. parse_items-Ends fuel n s l (omega arith))

  parse_items-Ends :
      (fuel n : ℕ) (s : List ℕ) → length s ≤ n → 3 * n + 1 < fuel → Ends n (parse_items fuel s)
  parse_items-Ends zero n s l b = absurd (omega arith)
  parse_items-Ends (suc fuel) n s l b =
      bind-Ends (λ p. after_item fuel p.0 (skip_space p.1))
        (parse_item-Ends fuel n (skip_space s) (omega (arith, length-skip_space s)) (omega arith))
        (λ v rest h.
          after_item-Ends fuel n v (skip_space rest) (omega (arith, length-skip_space rest))
            (omega arith))

  parse_item-Ends :
      (fuel n : ℕ) (s : List ℕ) → length s ≤ n → 3 * n < fuel → Ends n (parse_item fuel s)
  parse_item-Ends zero n s l b = absurd (omega arith)
  parse_item-Ends (suc fuel) n s l b =
      Ends-if (text_beq s []) (λ empty. rejected)
        λ filled.
          Ends-if (starts b'{' s)
            (λ brace. as_list-Ends (
              Ends-le (omega (arith, length-rest_of s)) (
                parse_braced-Ends fuel (length (rest_of s)) (rest_of s) (omega arith)
                  (omega (arith, starts-rest_of b'{' s brace)))))
            λ other.
              Ends-if (starts 34 s)
                (λ quote.
                  as_some-Ends
                    (Ends-le (omega (arith, length-rest_of s)) (parse_quoted-Ends [] (rest_of s))))
                λ bare. ended (omega (arith, length-take_bare s))

  after_item-Ends :
      (fuel n : ℕ) (v : Value) (s : List ℕ)
      → length s ≤ n
      → 3 * n < fuel
      → Ends n (after_item fuel v s)
  after_item-Ends zero n v s l b = absurd (omega arith)
  after_item-Ends (suc fuel) n v s l b =
      Ends-if (starts b',' s)
        (λ comma. prepend-Ends v (
          Ends-le (omega (arith, length-rest_of s)) (
            parse_items-Ends fuel (length (rest_of s)) (rest_of s) (omega arith)
              (omega (arith, starts-rest_of b',' s comma)))))
        λ other.
          Ends-if (starts b'}' s) (λ brace. ended (omega (arith, length-rest_of s)))
            (λ bad. rejected)

-- The verdict is a value or the ValueError of the source.
abbrev pub IsVerdict : Result Failure Values → Type 0
IsVerdict r = r ≢ err out_of_fuel

IsVerdict-if :
    (b : Bool) {x y : Result Failure Values}
    → IsVerdict x
    → IsVerdict y
    → IsVerdict (if b then x else y)
IsVerdict-if true on_true on_false = on_true
IsVerdict-if false on_true on_false = on_false

ok-IsVerdict : (vs : Values) → IsVerdict (ok vs)
ok-IsVerdict vs e = absurd cc

malformed-IsVerdict : IsVerdict (err malformed)
malformed-IsVerdict e = absurd cc

whole-Ends : {n : ℕ} (p : Parsed Values) → Ends n p → IsVerdict (whole p)
unfolding whole
whole-Ends _ (ended {a} {rest} h) =
    IsVerdict-if (text_beq (strip rest) []) (ok-IsVerdict a) malformed-IsVerdict
whole-Ends _ rejected = malformed-IsVerdict

parse_body-IsVerdict : (body : Option (List ℕ)) → IsVerdict (parse_body body)
unfolding parse_body
parse_body-IsVerdict none = malformed-IsVerdict
parse_body-IsVerdict (some []) = malformed-IsVerdict
parse_body-IsVerdict (some (c ∷ s)) =
    IsVerdict-if (nat_beq c b'{')
      (whole-Ends _ (parse_braced-Ends _ (length s) s (omega arith) (omega arith)))
      malformed-IsVerdict

-- Every text is read within the fuel given: as nested lists, or refused by a ValueError.
pub parse_array_literal-IsVerdict : (text : List ℕ) → parse_array_literal text ≢ err out_of_fuel
unfolding parse_array_literal
parse_array_literal-IsVerdict text = parse_body-IsVerdict _
