-- ===== src/Copy/Decoder/Split.antt =====
-- Where a record ends does not depend on the text that is still to come.
use pg_mimic.Prelude.{
  ℕ, zero, suc, ◌<◌, ◌≡◌, refl, sym, ap, subst, List, [], ◌∷◌, ◌++◌, Bool, true, false, none, some,
  nat_beq, if◌then◌else◌, length, arith, ◌⊎◌, inl, inr, Bool-cases,
}
use pg_mimic.Copy.{CopyOptions}
use pg_mimic.Prelude.{newline}
use pg_mimic.Copy.Decoder.{
  Split, before, split_line, CsvMove, record_ends, moves, moves_two, waits, doubled_quote, csv_move,
  split_csv, split_record,
}

-- The split of a longer buffer.
abbrev pub with_tail : Split → List ℕ → Split
with_tail none t = none
with_tail (some (r, rest)) t = some (r, rest ++ t)

-- `p` is the split of a buffer of length `n`, and `q` of the buffer with `t` behind it.
pub record Extends (n : ℕ) (p q : Split) (t : List ℕ) : Type 0 where
  pub stable : {r rest : List ℕ} → p ≡ some (r, rest) → q ≡ some (r, rest ++ t)
  pub shorter : {r rest : List ℕ} → p ≡ some (r, rest) → length rest < n

rest_length : Split → ℕ
rest_length none = 0
rest_length (some (r, rest)) = length rest

Extends-none : (n : ℕ) (q : Split) (t : List ℕ) → Extends n none q t
Extends-none n q t = record { stable = λ e. absurd cc; shorter = λ e. absurd cc }

Extends-here : (s t : List ℕ) → Extends (suc (length s)) (some ([], s)) (some ([], s ++ t)) t
unfolding rest_length
Extends-here s t = record { stable = λ e. cc; shorter = λ e. omega (arith, ap rest_length e) }

Extends-before :
    (n c : ℕ) (p q : Split) (t : List ℕ)
    → Extends n p q t
    → Extends (suc n) (before c p) (before c q) t
unfolding before rest_length
Extends-before n c none q t h = Extends-none (suc n) (before c q) t
Extends-before n c (some (r, rest)) q t h = record {
  stable = λ e. rw (h.stable refl) cc;
  shorter = λ e. omega (arith, h.shorter refl, ap rest_length e);
}

pub split_line-Extends : (s t : List ℕ) → Extends (length s) (split_line s) (split_line (s ++ t)) t
unfolding split_line
split_line-Extends [] t = Extends-none 0 (split_line t) t
split_line-Extends (c ∷ s) t = elim (Bool-cases (nat_beq c newline)) [
  | inl e ↦ rw e (Extends-here s t)
  | inr e ↦
      rw e (
        Extends-before (length s) c (split_line s) (split_line (s ++ t)) t (split_line-Extends s t))
]

-- A move made with a buffer at hand is made with a longer one too, or it waits.
csv_move-append :
    (options : CopyOptions) (in_quotes : Bool) (c : ℕ) (s t : List ℕ)
    → (csv_move options in_quotes c s ≡ waits)
      ⊎ (csv_move options in_quotes c (s ++ t) ≡ csv_move options in_quotes c s)
unfolding csv_move doubled_quote
csv_move-append options in_quotes c [] t = ground arith
csv_move-append options in_quotes c (d ∷ s) t = inr refl

-- The rest of the loop after a move, with `after` for the loop itself.
moved : (ℕ → Bool → List ℕ → Split) → ℕ → List ℕ → CsvMove → Split
moved after c s record_ends = some ([], s)
moved after c s (moves q) = before c (after zero q s)
moved after c s (moves_two q) = before c (after 1 q s)
moved after c s waits = none

moved-Extends :
    (after : ℕ → Bool → List ℕ → Split) (c : ℕ) (s t : List ℕ)
    → ((skip : ℕ) (q : Bool) → Extends (length s) (after skip q s) (after skip q (s ++ t)) t)
    → (m : CsvMove) → Extends (suc (length s)) (moved after c s m) (moved after c (s ++ t) m) t
unfolding moved
moved-Extends after c s t ih record_ends = Extends-here s t
moved-Extends after c s t ih (moves q) =
    Extends-before (length s) c (after zero q s) (after zero q (s ++ t)) t (ih zero q)
moved-Extends after c s t ih (moves_two q) =
    Extends-before (length s) c (after 1 q s) (after 1 q (s ++ t)) t (ih 1 q)
moved-Extends after c s t ih waits = Extends-none (suc (length s)) none t

split_csv-moved :
    (options : CopyOptions) (q : Bool) (c : ℕ) (s : List ℕ)
    → split_csv options zero q (c ∷ s) ≡ moved (split_csv options) c s (csv_move options q c s)
unfolding moved split_csv
split_csv-moved options q c s = elim (csv_move options q c s) [
  | record_ends ↦ refl
  | moves q' ↦ refl
  | moves_two q' ↦ refl
  | waits ↦ refl
]

split_csv-Extends :
    (options : CopyOptions) (skip : ℕ) (q : Bool) (s t : List ℕ)
    → Extends (length s) (split_csv options skip q s) (split_csv options skip q (s ++ t)) t
unfolding split_csv moved
split_csv-Extends options skip q [] t = Extends-none 0 (split_csv options skip q t) t
split_csv-Extends options (suc skip) q (c ∷ s) t =
    Extends-before (length s) c (split_csv options skip q s) (split_csv options skip q (s ++ t)) t
      (split_csv-Extends options skip q s t)
split_csv-Extends options zero q (c ∷ s) t =
    subst (λ p. Extends (suc (length s)) p (split_csv options zero q (c ∷ s ++ t)) t)
      (sym (split_csv-moved options q c s))
      (subst
        (λ p. Extends (suc (length s)) (moved (split_csv options) c s (csv_move options q c s)) p t)
        (sym (split_csv-moved options q c (s ++ t)))
        (elim (csv_move-append options q c s t) [
          | inl e ↦ rw e (
              Extends-none (suc (length s))
                (moved (split_csv options) c (s ++ t) (csv_move options q c (s ++ t))) t)
          | inr e ↦ rw e (
              moved-Extends (split_csv options) c s t (λ k b. split_csv-Extends options k b s t)
                (csv_move options q c s))
        ]))

either-Extends :
    {n : ℕ} {p q p' q' : Split} {t : List ℕ} (b : Bool)
    → Extends n p q t
    → Extends n p' q' t
    → Extends n (if b then p else p') (if b then q else q') t
either-Extends true h h' = h
either-Extends false h h' = h'

-- A record that is complete stays the same record when more text arrives behind it, in both
-- formats, and what is left after it is shorter.
pub split_record-Extends :
    (options : CopyOptions) (s t : List ℕ)
    → Extends (length s) (split_record options s) (split_record options (s ++ t)) t
unfolding split_record
split_record-Extends options s t =
    either-Extends (options.is_csv) (split_csv-Extends options zero false s t)
      (split_line-Extends s t)
