-- ===== src/Rows/Drains.antt =====
-- What an execution pulls from a row source, and what two executions of a portal pull together
-- (`drain_rows` of pg_mimic/session.py).
use pg_mimic.Prelude.{
  ℕ, zero, suc, ◌+◌, ◌≡◌, refl, sym, ap, leb, ◌∙◌, Bool, true, false, List, [], ◌∷◌, ◌++◌, Option,
  none, some, length, arith, ℤ, pos, negsuc, to_nat, Result, ok, err, Bool-cases, inl, inr,
  if◌then◌else◌,
}
use pg_mimic.Errors.{Error}
use pg_mimic.Rows.{RowSource, Drained, cons_row, source_ends, drain_up_to, drain_all, drain_rows}

-- Whether an execution stops at its limit: a source with exactly as many rows stops it, too.
abbrev pub reaches : ℤ → ℕ → Bool
reaches (pos zero) rows = false
reaches (pos (suc n)) rows = leb (suc n) rows
reaches (negsuc n) rows = false

module _ {A : Type 0} where
  -- What an execution that returns leaves behind: the rows are the head of the source, and one that
  -- is not suspended has emptied a source that does not raise.
  pub record IsDrained (source : RowSource A) (limit : ℤ) (d : Drained A) : Type 0 where
    pub parts : d.rows ++ d.source.rows ≡ source.rows
    pub same_end : d.source.failure ≡ source.failure
    pub stops : d.suspended ≡ reaches limit (length source.rows)
    pub full : d.suspended ≡ true → length d.rows ≡ to_nat limit
    pub empty : d.suspended ≡ false → d.source.rows ≡ []
    pub exhausted : d.suspended ≡ false → source.failure ≡ none

  -- An execution returns so, or raises what the source raises before the limit is reached.
  abbrev pub IsOutcome : RowSource A → ℤ → Result Error (Drained A) → Type 0
  IsOutcome source limit (ok d) = IsDrained source limit d
  IsOutcome source limit (err e) =
      (source.failure ≡ some e) × (reaches limit (length source.rows) ≡ false)

  abbrev of_rows : List A → Option Error → RowSource A
  of_rows rows failure = record { rows = rows; failure = failure }

source_ends-IsOutcome :
    (A : Type 0) (failure : Option Error) (limit : ℤ)
    → reaches limit 0 ≡ false
    → IsOutcome (of_rows {A = A} [] failure) limit (source_ends failure)
source_ends-IsOutcome A none limit h = record {
  parts = refl;
  same_end = refl;
  stops = sym h;
  full = λ e. absurd cc;
  empty = λ e. refl;
  exhausted = λ e. refl;
}
source_ends-IsOutcome A (some e) limit h = (refl, h)

module _ {A : Type 0} where
  cons_row-all :
      (row : A) (rows : List A) (failure : Option Error) (limit : ℤ)
      → ((k : ℕ) → reaches limit k ≡ false)
      → (out : Result Error (Drained A)) → IsOutcome (of_rows rows failure) limit out
      → IsOutcome (of_rows (row ∷ rows) failure) limit (cons_row row out)
  cons_row-all row rows failure limit never (ok d) h = record {
    parts = ap (λ r. row ∷ r) h.parts;
    same_end = h.same_end;
    stops = h.stops ∙ never (length rows) ∙ sym (never (suc (length rows)));
    full = λ e. absurd (cc (h.stops, never (length rows), e));
    empty = h.empty;
    exhausted = h.exhausted;
  }
  cons_row-all row rows failure limit never (err e) h = (h.0, never (suc (length rows)))

  drain_all-IsOutcome :
      (rows : List A) (failure : Option Error) (limit : ℤ)
      → ((k : ℕ) → reaches limit k ≡ false)
      → IsOutcome (of_rows rows failure) limit (drain_all rows failure)
  unfolding drain_all
  drain_all-IsOutcome [] failure limit never = source_ends-IsOutcome A failure limit (never 0)
  drain_all-IsOutcome (row ∷ rows) failure limit never =
      cons_row-all row rows failure limit never (drain_all rows failure)
        (drain_all-IsOutcome rows failure limit never)

  cons_row-next :
      (row : A) (rows : List A) (failure : Option Error) (n : ℕ) (out : Result Error (Drained A))
      → IsOutcome (of_rows rows failure) (pos (suc n)) out
      → IsOutcome (of_rows (row ∷ rows) failure) (pos (suc (suc n))) (cons_row row out)
  cons_row-next row rows failure n (ok d) h = record {
    parts = ap (λ r. row ∷ r) h.parts;
    same_end = h.same_end;
    stops = h.stops ∙ ground arith;
    full = λ e. ap suc (h.full e);
    empty = h.empty;
    exhausted = h.exhausted;
  }
  cons_row-next row rows failure n (err e) h = (h.0, ground (arith, h.1))

  drain_up_to-IsOutcome :
      (n : ℕ) (rows : List A) (failure : Option Error)
      → IsOutcome (of_rows rows failure) (pos (suc n)) (drain_up_to (suc n) rows failure)
  unfolding drain_up_to
  drain_up_to-IsOutcome n [] failure = source_ends-IsOutcome A failure (pos (suc n)) (ground arith)
  drain_up_to-IsOutcome zero (row ∷ rows) failure = record {
    parts = refl;
    same_end = refl;
    stops = ground arith;
    full = λ e. refl;
    empty = λ e. absurd cc;
    exhausted = λ e. absurd cc;
  }
  drain_up_to-IsOutcome (suc n) (row ∷ rows) failure =
      cons_row-next row rows failure n (drain_up_to (suc n) rows failure)
        (drain_up_to-IsOutcome n rows failure)

  -- An execution returns the head of the source's rows, or raises. It is suspended exactly where its
  -- limit is positive and the source has that many rows, and then it has that many; where it is not
  -- suspended, it has emptied a source that does not raise; and it raises only what the source raises
  -- behind its rows, with the limit not reached.
  pub drain_rows-IsOutcome :
      (source : RowSource A) (limit : ℤ) → IsOutcome source limit (drain_rows source limit)
  unfolding drain_rows
  drain_rows-IsOutcome source (pos zero) =
      drain_all-IsOutcome source.rows source.failure (pos zero) (λ k. refl)
  drain_rows-IsOutcome source (negsuc n) =
      drain_all-IsOutcome source.rows source.failure (negsuc n) (λ k. refl)
  drain_rows-IsOutcome source (pos (suc n)) = drain_up_to-IsOutcome n source.rows source.failure

  -- rows that were pulled before
  abbrev pub behind_rows : List A → Result Error (Drained A) → Result Error (Drained A)
  behind_rows rows (ok d) = ok (record d { rows = rows ++ d.rows })
  behind_rows rows (err e) = err e

  after_none : (out : Result Error (Drained A)) → behind_rows [] out ≡ out
  after_none (ok d) = refl
  after_none (err e) = refl

  -- A portal that is suspended is executed again, and the client has the rows of both.
  abbrev pub again : Result Error (Drained A) → ℤ → Result Error (Drained A)
  again (ok d) limit = if d.suspended then behind_rows d.rows (drain_rows d.source limit) else ok d
  again (err e) limit = err e

  after_cons :
      (row : A) (rows : List A) (out : Result Error (Drained A))
      → behind_rows (row ∷ rows) out ≡ cons_row row (behind_rows rows out)
  after_cons row rows (ok d) = refl
  after_cons row rows (err e) = refl

  again_cons :
      (row : A) (out : Result Error (Drained A)) (limit : ℤ)
      → again (cons_row row out) limit ≡ cons_row row (again out limit)
  again_cons row (err e) limit = refl
  again_cons row (ok d) limit = elim (Bool-cases d.suspended) [
    | inl e ↦ rw e (after_cons row d.rows (drain_rows d.source limit))
    | inr e ↦ rw e refl
  ]

again_ends :
    (A : Type 0) (failure : Option Error) (limit : ℤ)
    → again {A = A} (source_ends failure) limit ≡ source_ends failure
again_ends A none limit = refl
again_ends A (some e) limit = refl

module _ {A : Type 0} where
  drain_up_to-resume :
      (m n : ℕ) (rows : List A) (failure : Option Error)
      → again (drain_up_to m rows failure) (pos (suc n)) ≡ drain_up_to (m + suc n) rows failure
  unfolding drain_up_to drain_rows
  drain_up_to-resume zero n rows failure =
      after_none (drain_up_to (suc n) rows failure) ∙ ap (λ k. drain_up_to k rows failure) more
    where
      more : suc n ≡ zero + suc n
      more = omega arith
  drain_up_to-resume (suc m) n [] failure =
      again_ends A failure (pos (suc n)) ∙ ap (λ k. drain_up_to k [] failure) more
    where
      more : suc (m + suc n) ≡ suc m + suc n
      more = omega arith
  drain_up_to-resume (suc m) n (row ∷ rows) failure =
      again_cons row (drain_up_to m rows failure) (pos (suc n))
      ∙ ap (cons_row row) (drain_up_to-resume m n rows failure)
      ∙ ap (λ k. drain_up_to k (row ∷ rows) failure) more
    where
      more : suc (m + suc n) ≡ suc m + suc n
      more = omega arith

  -- A portal that is executed with a limit, and again with another one where it was suspended, sends
  -- the rows of one execution with the sum of the limits, and ends as that does: suspended with the
  -- same rows left, exhausted, or with the same error.
  pub drain_rows-resume :
      (m n : ℕ) (source : RowSource A)
      → again (drain_rows source (pos (suc m))) (pos (suc n))
        ≡ drain_rows source (pos (suc (m + suc n)))
  unfolding drain_rows
  drain_rows-resume m n source =
      drain_up_to-resume (suc m) n source.rows source.failure
      ∙ ap (λ k. drain_up_to k source.rows source.failure) (omega arith)
