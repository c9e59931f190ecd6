-- ===== src/Arrays/Shape.antt =====
-- pg_mimic/arrays.py, `_dimensions`, `_check_rectangular`, `_flatten` and `_reshape`. Their
-- ValueError is `value_error`.
pub mod RoundTrip
use pg_mimic.Prelude.{
  ℕ, zero, suc, ◌*◌, ◌≡◌, List, [], ◌∷◌, ◌++◌, Bool, true, false, nat_beq, if◌then◌else◌, length,
  take, drop, ℤ, pos, negsuc, ◌*ℤ◌, Result, ok, err, ◌>>=◌, ◌>>◌,
}
use pg_mimic.Errors.{Error, value_error}
use pg_mimic.Arrays.Defs.{Value, Values, scalar, list, no_values, value, Element, count_values}

-- the walk down the first elements
unfoldable mutual
  pub first_sizes : Value → List ℕ
  first_sizes (scalar e) = []
  first_sizes (list vs) = count_values vs ∷ first_sizes_of vs

  pub first_sizes_of : Values → List ℕ
  first_sizes_of no_values = []
  first_sizes_of (value v vs) = first_sizes v

unfoldable mutual
  pub check_rectangular : Value → List ℕ → Result Error (Unit {0})
  check_rectangular (scalar e) [] = ok tt
  check_rectangular (list vs) [] = err value_error
  check_rectangular (scalar e) (size ∷ sizes) = err value_error
  check_rectangular (list vs) (size ∷ sizes) =
      if nat_beq (count_values vs) size then check_each vs sizes else err value_error

  pub check_each : Values → List ℕ → Result Error (Unit {0})
  check_each no_values sizes = ok tt
  check_each (value v vs) sizes = check_rectangular v sizes >> check_each vs sizes

-- `_dimensions` of a list
unfoldable pub dimensions : Values → Result Error (List ℕ)
dimensions no_values = ok []
dimensions (value v vs) =
    check_rectangular (list (value v vs)) (first_sizes (list (value v vs)))
    >> ok (first_sizes (list (value v vs)))

unfoldable mutual
  pub flatten : Value → List Element
  flatten (scalar e) = e ∷ []
  flatten (list vs) = flatten_each vs

  pub flatten_each : Values → List Element
  flatten_each no_values = []
  flatten_each (value v vs) = flatten v ++ flatten_each vs

-- a flat list as it is
unfoldable pub leaves : List Element → Values
leaves [] = no_values
leaves (e ∷ es) = value (scalar e) (leaves es)

abbrev pub product : List ℤ → ℤ
product [] = pos 1
product (size ∷ sizes) = size *ℤ product sizes

-- The comprehension over range(0, len(flat), step), a slice of `step` elements at each turn, with
-- fuel for the turns. A step of 0 is refused
-- by range, and a negative one makes no turn.
unfoldable pub slices :
    (List Element → Result Error Value) → ℕ → ℕ → List Element → Result Error Values
slices reshape_one zero step flat = ok no_values
slices reshape_one (suc fuel) step [] = ok no_values
slices reshape_one (suc fuel) step (e ∷ es) = do
  v ← reshape_one (take step (e ∷ es))
  vs ← slices reshape_one fuel step (drop step (e ∷ es))
  ok (value v vs)

unfoldable pub in_steps :
    (List Element → Result Error Value) → ℤ → List Element → Result Error Values
in_steps reshape_one (negsuc n) flat = ok no_values
in_steps reshape_one (pos zero) flat = err value_error
in_steps reshape_one (pos (suc n)) flat = slices reshape_one (length flat) (suc n) flat

unfoldable pub reshape : List ℤ → List Element → Result Error Value
reshape [] flat = ok (list (leaves flat))
reshape (size ∷ []) flat = ok (list (leaves flat))
reshape (size ∷ inner ∷ sizes) flat = do
  vs ← in_steps (reshape (inner ∷ sizes)) (product (inner ∷ sizes)) flat
  ok (list vs)
