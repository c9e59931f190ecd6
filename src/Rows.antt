-- ===== src/Rows.antt =====
-- How a portal's rows reach the client: `drain_rows` of pg_mimic/session.py and `format_code_for`
-- of pg_mimic/results.py. A row source is the list of the rows that it still has, and how it ends:
-- it is exhausted, or it raises an error.
pub mod Drains
use pg_mimic.Prelude.{
  ℕ, zero, suc, Bool, true, false, List, [], ◌∷◌, Option, none, some, get_elem?, ℤ, pos, negsuc,
  Result, ok, err,
}
use pg_mimic.Errors.{Error}

pub record RowSource (A : Type 0) : Type 0 where
  pub rows : List A
  pub failure : Option Error

-- What was pulled, whether the limit was hit, and the source afterwards.
pub record Drained (A : Type 0) : Type 0 where
  pub rows : List A
  pub suspended : Bool
  pub source : RowSource A

module _ {A : Type 0} where
  -- a row before those that the rest of the loop pulls, which are lost if it raises
  abbrev pub cons_row : A → Result Error (Drained A) → Result Error (Drained A)
  cons_row row (ok d) = ok (record d { rows = row ∷ d.rows })
  cons_row row (err e) = err e

  -- StopAsyncIteration ends the loop, and any other exception leaves it.
  abbrev pub source_ends : Option Error → Result Error (Drained A)
  source_ends none =
      ok (record { rows = []; suspended = false; source = record { rows = []; failure = none } })
  source_ends (some e) = err e

  -- the loop, with a positive limit
  unfoldable pub drain_up_to : ℕ → List A → Option Error → Result Error (Drained A)
  drain_up_to zero rows failure =
      ok
        (record { rows = []; suspended = true; source = record { rows = rows; failure = failure } })
  drain_up_to (suc n) [] failure = source_ends failure
  drain_up_to (suc n) (row ∷ rows) failure = cons_row row (drain_up_to n rows failure)

  -- the loop without one
  unfoldable pub drain_all : List A → Option Error → Result Error (Drained A)
  drain_all [] failure = source_ends failure
  drain_all (row ∷ rows) failure = cons_row row (drain_all rows failure)

  unfoldable pub drain_rows : RowSource A → ℤ → Result Error (Drained A)
  drain_rows source (pos zero) = drain_all source.rows source.failure
  drain_rows source (pos (suc n)) = drain_up_to (suc n) source.rows source.failure
  drain_rows source (negsuc n) = drain_all source.rows source.failure

module _ {ℓ} {A : Type ℓ} where
  -- `none` is the IndexError of a list with a code for some columns and not for this one.
  unfoldable pub format_code_for : A → List A → ℕ → Option A
  format_code_for text [] index = some text
  format_code_for text (code ∷ []) index = some code
  format_code_for text (code ∷ other ∷ codes) index = get_elem? (code ∷ other ∷ codes) index
