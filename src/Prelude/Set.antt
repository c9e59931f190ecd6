-- ===== src/Prelude/Set.antt =====
-- Python's `set`, as the list of its members. The order of the list stands for the order of
-- iteration, which Python leaves open.
use mathlib.Core.Path.{◌≡◌, refl}
use mathlib.Core.Bool.{Bool, true, false, not, ◌&&◌, ◌||◌}
use mathlib.Core.List.{List, [], ◌∷◌, ◌++◌}
use native.Mathlib.Omega.{arith}
use pg_mimic.Prelude.Tests.{if◌then◌else◌}
use pg_mimic.Prelude.Class.{Eq, ◌==◌}

module _ {ℓ} {A : Type ℓ} ⦃e : Eq A⦄ where
  -- a in xs
  abbrev pub contains : List A → A → Bool
  contains [] a = false
  contains (x ∷ xs) a = x == a || contains xs a

  -- xs.add(a)
  unfoldable pub add : A → List A → List A
  add a xs = if contains xs a then xs else xs ++ a ∷ []

  -- xs.discard(a)
  unfoldable pub discard : A → List A → List A
  discard a [] = []
  discard a (x ∷ xs) = let rest = discard a xs in if x == a then rest else x ∷ rest

  -- xs - ys
  unfoldable pub difference : List A → List A → List A
  difference [] ys = []
  difference (x ∷ xs) ys = let rest = difference xs ys in if contains ys x then rest else x ∷ rest

  contains-append :
      (xs ys : List A) (b : A) → contains (xs ++ ys) b ≡ (contains xs b || contains ys b)
  contains-append [] ys b = refl
  contains-append (x ∷ xs) ys b = ground (arith, contains-append xs ys b)

  contains-of_eq :
      (xs : List A) (a b : A) → (a == b) ≡ true → contains xs a ≡ true → contains xs b ≡ true
  contains-of_eq xs a b same h = ground (arith, e.beq_iff a b)

  pub contains-add : (a b : A) (xs : List A) → contains (add a xs) b ≡ (a == b || contains xs b)
  unfolding add
  contains-add a b xs = ground (arith, contains-append xs (a ∷ []) b, contains-of_eq xs a b)

  pub contains-discard :
      (a b : A) (xs : List A) → contains (discard a xs) b ≡ (not (a == b) && contains xs b)
  unfolding discard
  contains-discard a b [] = ground arith
  contains-discard a b (x ∷ xs) =
      ground (arith, contains-discard a b xs, e.beq_iff x a, e.beq_iff x b, e.beq_iff a b)

  pub contains-difference :
      (xs ys : List A) (b : A)
      → contains (difference xs ys) b ≡ (contains xs b && not (contains ys b))
  unfolding difference
  contains-difference [] ys b = refl
  contains-difference (x ∷ xs) ys b = ground (arith, contains-difference xs ys b, e.beq_iff x b)
