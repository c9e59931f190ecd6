-- ===== src/Arrays/Shape/RoundTrip.antt =====
-- A rectangular array is what its elements in row-major order and its sizes say.
use pg_mimic.Prelude.{
  ℕ, zero, suc, ◌*◌, ◌≤◌, ◌<◌, ◌≡◌, refl, sym, ap, subst, ◌∙◌, List, [], ◌∷◌, ◌++◌, nat_beq_iff,
  length, length-append, take, drop, take-append, drop-append, arith, map, pos, ◌*ℤ◌, Result, ok,
  ◌>>=◌, >>=-eq-ok,
}
use pg_mimic.Errors.{Error}
use pg_mimic.Arrays.Defs.{Value, Values, scalar, list, no_values, value, Element, count_values}
use pg_mimic.Arrays.Shape.{
  check_rectangular, check_each, flatten, flatten_each, leaves, product, slices, in_steps, reshape,
  first_sizes, dimensions,
}

-- The number of elements of a shape, and its sizes as the source's ints.
abbrev pub cells : List ℕ → ℕ
cells [] = 1
cells (size ∷ sizes) = size * cells sizes

pub product-cells : (sizes : List ℕ) → product (map pos sizes) ≡ pos (cells sizes)
product-cells [] = refl
product-cells (size ∷ sizes) = ap (λ z. pos size *ℤ z) (product-cells sizes)

check_each-cons :
    (v : Value) (vs : Values) (sizes : List ℕ)
    → check_each (value v vs) sizes ≡ ok tt
    → (check_rectangular v sizes ≡ ok tt) × (check_each vs sizes ≡ ok tt)
unfolding check_each
check_each-cons v vs sizes h =
    let (u, first, rest) = >>=-eq-ok (check_rectangular v sizes) _ h in (first, rest)

check_rectangular-list :
    (vs : Values) (size : ℕ) (sizes : List ℕ)
    → check_rectangular (list vs) (size ∷ sizes) ≡ ok tt
    → (count_values vs ≡ size) × (check_each vs sizes ≡ ok tt)
unfolding check_rectangular
check_rectangular-list vs size sizes h = ground (arith, nat_beq_iff (count_values vs) size)

mutual
  unfolding flatten check_rectangular

  length-flatten :
      (v : Value) (sizes : List ℕ)
      → check_rectangular v sizes ≡ ok tt
      → length (flatten v) ≡ cells sizes
  length-flatten (scalar e) [] h = refl
  length-flatten (scalar e) (size ∷ sizes) h = absurd cc
  length-flatten (list vs) [] h = absurd cc
  length-flatten (list vs) (size ∷ sizes) h =
      let (sized, each) = check_rectangular-list vs size sizes h in
      length-flatten_each vs sizes each ∙ ap (λ k. k * cells sizes) sized

  length-flatten_each :
      (vs : Values) (sizes : List ℕ)
      → check_each vs sizes ≡ ok tt
      → length (flatten_each vs) ≡ count_values vs * cells sizes
  length-flatten_each no_values sizes h = omega arith
  length-flatten_each (value v vs) sizes h =
      let (first, rest) = check_each-cons v vs sizes h in
      grind (
        arith,
        length-append (flatten v) (flatten_each vs),
        length-flatten v sizes first,
        length-flatten_each vs sizes rest,
      )

leaves-flatten_each : (vs : Values) → check_each vs [] ≡ ok tt → leaves (flatten_each vs) ≡ vs
unfolding leaves flatten check_rectangular
leaves-flatten_each no_values h = refl
leaves-flatten_each (value (scalar e) vs) h =
    ap (value (scalar e)) (leaves-flatten_each vs (check_each-cons (scalar e) vs [] h).1)
leaves-flatten_each (value (list ws) vs) h = absurd cc

-- A slice that is a child of the shape `sizes`, and its value.
IsInverse : (List Element → Result Error Value) → List ℕ → Type 0
IsInverse one sizes = (v : Value) → check_rectangular v sizes ≡ ok tt → one (flatten v) ≡ ok v

slices-step :
    (one : List Element → Result Error Value) (fuel n : ℕ) (flat : List Element)
    → 0 < length flat
    → slices one (suc fuel) n flat
      ≡ (one (take n flat) >>= λ v. slices one fuel n (drop n flat) >>= λ vs. ok (value v vs))
unfolding slices
slices-step one fuel n [] h = absurd (omega arith)
slices-step one fuel n (e ∷ es) h = refl

slices-nil :
    (one : List Element → Result Error Value) (fuel n : ℕ) → slices one fuel n [] ≡ ok no_values
unfolding slices
slices-nil one zero n = refl
slices-nil one (suc fuel) n = refl

-- the first slice of a list that begins with one
take-slice : (n : ℕ) (xs ys : List Element) → length xs ≡ n → take n (xs ++ ys) ≡ xs
take-slice n xs ys h = ap (λ k. take k (xs ++ ys)) (sym h) ∙ take-append xs ys

drop-slice : (n : ℕ) (xs ys : List Element) → length xs ≡ n → drop n (xs ++ ys) ≡ ys
drop-slice n xs ys h = ap (λ k. drop k (xs ++ ys)) (sym h) ∙ drop-append xs ys

slices-flatten_each :
    (one : List Element → Result Error Value) (sizes : List ℕ) (fuel n : ℕ) (vs : Values)
    → IsInverse one sizes
    → cells sizes ≡ n
    → 0 < n
    → check_each vs sizes ≡ ok tt
    → length (flatten_each vs) ≤ fuel
    → slices one fuel n (flatten_each vs) ≡ ok vs
unfolding IsInverse flatten
slices-flatten_each one sizes fuel n no_values inv p filled h b = slices-nil one fuel n
slices-flatten_each one sizes zero n (value v vs) inv p filled h b = absurd (
    omega (
      arith,
      length-append (flatten v) (flatten_each vs),
      length-flatten v sizes (check_each-cons v vs sizes h).0,
    ))
slices-flatten_each one sizes (suc fuel) n (value v vs) inv p filled h b =
    let (first, rest) = check_each-cons v vs sizes h in
    let sized = length-flatten v sizes first ∙ p in
    let whole = length-append (flatten v) (flatten_each vs) in
    slices-step one fuel n (flatten v ++ flatten_each vs) (omega arith)
    ∙ rw
        (
          take-slice n (flatten v) (flatten_each vs) sized,
          drop-slice n (flatten v) (flatten_each vs) sized,
          inv v first,
          slices-flatten_each one sizes fuel n vs inv p filled rest (omega arith),
        )
        refl

in_steps-flatten_each :
    (one : List Element → Result Error Value) (sizes : List ℕ) (n : ℕ) (vs : Values)
    → IsInverse one sizes
    → cells sizes ≡ n
    → 0 < n
    → check_each vs sizes ≡ ok tt
    → in_steps one (pos n) (flatten_each vs) ≡ ok vs
unfolding in_steps
in_steps-flatten_each one sizes zero vs inv p filled h = absurd (omega arith)
in_steps-flatten_each one sizes (suc n) vs inv p filled h =
    slices-flatten_each one sizes (length (flatten_each vs)) (suc n) vs inv p filled h (omega arith)

-- No size is zero.
abbrev pub AllPositive : List ℕ → Type 0
AllPositive [] = Unit
AllPositive (size ∷ sizes) = (0 < size) × AllPositive sizes

cells-pos : (sizes : List ℕ) → AllPositive sizes → 0 < cells sizes
cells-pos [] h = omega arith
cells-pos (size ∷ sizes) h = grind (arith, cells-pos sizes h.1)

-- What is read back at one depth less.
reshape-child :
    (size : ℕ) (sizes : List ℕ)
    → ((vs : Values)
        → check_rectangular (list vs) (size ∷ sizes) ≡ ok tt
        → reshape (map pos (size ∷ sizes)) (flatten_each vs) ≡ ok (list vs))
    → IsInverse (reshape (map pos (size ∷ sizes))) (size ∷ sizes)
unfolding IsInverse flatten check_rectangular
reshape-child size sizes inv (scalar e) h = absurd cc
reshape-child size sizes inv (list vs) h = inv vs h

reshape-flatten_list :
    (sizes : List ℕ) (size : ℕ) (vs : Values)
    → AllPositive (size ∷ sizes)
    → check_rectangular (list vs) (size ∷ sizes) ≡ ok tt
    → reshape (map pos (size ∷ sizes)) (flatten_each vs) ≡ ok (list vs)
unfolding reshape
reshape-flatten_list [] size vs filled h =
    ap (λ l. ok (list l)) (leaves-flatten_each vs (check_rectangular-list vs size [] h).1)
reshape-flatten_list (inner ∷ sizes) size vs filled h =
    rw
      (
        product-cells (inner ∷ sizes),
        in_steps-flatten_each (reshape (map pos (inner ∷ sizes))) (inner ∷ sizes)
            (cells (inner ∷ sizes)) vs
            (reshape-child inner sizes λ ws k. reshape-flatten_list sizes inner ws filled.1 k) refl
            (cells-pos (inner ∷ sizes) filled.1)
            (check_rectangular-list vs size (inner ∷ sizes) h).1,
      )
      refl

-- An array that `_dimensions` accepts, with no empty list inside, is rebuilt by `_reshape` from its
-- flat elements and its sizes.
pub reshape-flatten :
    (vs : Values) (sizes : List ℕ)
    → dimensions vs ≡ ok sizes
    → AllPositive sizes
    → reshape (map pos sizes) (flatten (list vs)) ≡ ok (list vs)
unfolding dimensions reshape flatten leaves first_sizes
reshape-flatten no_values sizes h filled =
    let e : [] ≡ sizes = cc in subst (λ l. reshape (map pos l) [] ≡ ok (list no_values)) e refl
reshape-flatten (value v vs) sizes h filled =
    let (u, checked, same) = >>=-eq-ok (check_rectangular (list (value v vs)) _) _ h in
    let e : first_sizes (list (value v vs)) ≡ sizes = cc in
    subst
      (λ l.
        AllPositive l → reshape (map pos l) (flatten (list (value v vs))) ≡ ok (list (value v vs)))
      e
      (λ positive.
        reshape-flatten_list (first_sizes v) (count_values (value v vs)) (value v vs) positive
          checked)
      filled

-- The sizes say how many elements there are.
pub length-dimensions :
    (vs : Values) (size : ℕ) (sizes : List ℕ)
    → dimensions vs ≡ ok (size ∷ sizes)
    → length (flatten (list vs)) ≡ cells (size ∷ sizes)
unfolding dimensions
length-dimensions no_values size sizes h = absurd cc
length-dimensions (value v vs) size sizes h =
    let (u, checked, same) = >>=-eq-ok (check_rectangular (list (value v vs)) _) _ h in
    let e : first_sizes (list (value v vs)) ≡ size ∷ sizes = cc in
    length-flatten (list (value v vs)) (size ∷ sizes)
      (subst (λ l. check_rectangular (list (value v vs)) l ≡ ok tt) e checked)
