-- ===== src/Copy/Decoder/Chunks.antt =====
-- Cutting the text of COPY data into payloads in another way changes neither the rows nor the state
-- of the decoder.
use pg_mimic.Prelude.{
  ℕ, zero, suc, ◌<◌, ◌≡◌, refl, sym, ap, ◌∙◌, subst, List, [], ◌∷◌, ◌++◌, append_assoc, Bool, true,
  false, none, some, if◌then◌else◌, if_true, if_false, length, length-append, arith, inl, inr,
  Bool-cases, Option-cases,
}
use pg_mimic.Prelude.{text_beq, backslash}
use pg_mimic.Copy.Decoder.{
  Row, Decoder, drop_return, read_record, fields, extend, consume_split, consume_loop, clear_ended,
  feed, split_record,
}
use pg_mimic.Copy.Decoder.Split.{split_record-Extends}

-- The decoder with more text pending.
abbrev pub plus : Decoder → List ℕ → Decoder
plus s t = record s { pending = s.pending ++ t }

read_record-pending :
    (s : Decoder) (text p : List ℕ)
    → read_record (record s { pending = p }) text
      ≡ ((read_record s text).0, record (read_record s text).1 { pending = p })
unfolding read_record
read_record-pending s text p =
    by_tests (text_beq (drop_return text) (backslash ∷ 46 ∷ [])) (s.skip_header)
  where
    row : List Row
    row = fields (s.options) (drop_return text) ∷ []

    out : Decoder → Bool → Bool → List Row × Decoder
    out d a b =
        if a
        then ([], record d { ended = true })
        else if b
        then ([], record d { skip_header = false })
        else (row, d)

    by_tests :
        (a b : Bool)
        → out (record s { pending = p }) a b ≡ ((out s a b).0, record (out s a b).1 { pending = p })
    by_tests true b = refl
    by_tests false true = refl
    by_tests false false = refl

-- One turn of the loop on a complete record.
abbrev pub taken : Decoder → List ℕ → List ℕ → List Row × Decoder
taken s text rest = read_record (record s { pending = rest }) text

taken-pending : (s : Decoder) (text rest : List ℕ) → (taken s text rest).1.pending ≡ rest
taken-pending s text rest = ap (λ o. o.1.pending) (read_record-pending s text rest)

taken-plus :
    (s : Decoder) (text rest t : List ℕ)
    → taken (plus s t) text (rest ++ t) ≡ ((taken s text rest).0, plus (taken s text rest).1 t)
taken-plus s text rest t =
    read_record-pending (record s { pending = rest }) text (rest ++ t)
    ∙ ap (λ p. ((taken s text rest).0, record (taken s text rest).1 { pending = p ++ t }))
        (sym (taken-pending s text rest))

loop-ended : (n : ℕ) (s : Decoder) → s.ended ≡ true → consume_loop n s ≡ ([], s)
unfolding consume_loop
loop-ended zero s e = refl
loop-ended (suc n) s e = if_true _ _ e

pub loop-waits :
    (n : ℕ) (s : Decoder)
    → s.ended ≡ false
    → split_record s.options s.pending ≡ none
    → consume_loop (suc n) s ≡ ([], s)
unfolding consume_loop consume_split
loop-waits n s e w = if_false _ _ e ∙ ap (λ p. consume_split (consume_loop n) p s) w

pub loop-takes :
    (n : ℕ) (s : Decoder) {text rest : List ℕ}
    → s.ended ≡ false
    → split_record s.options s.pending ≡ some (text, rest)
    → consume_loop (suc n) s ≡ extend (taken s text rest).0 (consume_loop n (taken s text rest).1)
unfolding consume_loop consume_split
loop-takes n s e w = if_false _ _ e ∙ ap (λ p. consume_split (consume_loop n) p s) w

taken-shorter :
    (s : Decoder) {text rest : List ℕ}
    → split_record s.options s.pending ≡ some (text, rest)
    → length (taken s text rest).1.pending < length s.pending
taken-shorter s {text} {rest} w =
    subst (λ p. length p < length s.pending) (sym (taken-pending s text rest))
      ((split_record-Extends s.options s.pending []).shorter w)

pub consume-fuel :
    (n m : ℕ) (s : Decoder)
    → length s.pending < n
    → length s.pending < m
    → consume_loop n s ≡ consume_loop m s
unfolding consume_loop consume_split
consume-fuel zero m s h k = absurd (omega arith)
consume-fuel (suc n) zero s h k = absurd (omega arith)
consume-fuel (suc n) (suc m) s h k = elim (Bool-cases s.ended) [
  | inl e ↦ loop-ended (suc n) s e ∙ sym (loop-ended (suc m) s e)
  | inr e ↦ elim (Option-cases (split_record s.options s.pending)) [
    | inl w ↦ loop-waits n s e w ∙ sym (loop-waits m s e w)
    | inr ((text, rest), w) ↦
        loop-takes n s e w
        ∙ ap (extend (taken s text rest).0) (
            consume-fuel n m (taken s text rest).1 (omega (arith, taken-shorter s w))
              (omega (arith, taken-shorter s w)))
        ∙ sym (loop-takes m s e w)
  ]
]

-- What is read of a longer buffer: what is read of the shorter one, and then the rest.
Reads : (s : Decoder) (t : List ℕ) → List Row × Decoder → Type 0
Reads s t out =
    (m k : ℕ)
    → length (s.pending ++ t) < m
    → length (out.1.pending ++ t) < k
    → consume_loop m (plus s t) ≡ extend out.0 (consume_loop k (plus out.1 t))

Reads-self : (s : Decoder) (t : List ℕ) → Reads s t ([], s)
unfolding Reads
Reads-self s t m k h h' = consume-fuel m k (plus s t) h h'

extend-extend :
    (p q : List Row) (out : List Row × Decoder) → extend p (extend q out) ≡ extend (p ++ q) out
extend-extend p q out = ap (λ r. (r, out.1)) (sym (append_assoc p q out.0))

Reads-takes :
    (n : ℕ) (s : Decoder) (t text rest : List ℕ)
    → s.ended ≡ false
    → split_record s.options s.pending ≡ some (text, rest)
    → Reads (taken s text rest).1 t (consume_loop n (taken s text rest).1)
    → Reads s t (extend (taken s text rest).0 (consume_loop n (taken s text rest).1))
unfolding Reads
Reads-takes n s t text rest e w ih zero k h h' = absurd (omega arith)
Reads-takes n s t text rest e w ih (suc m) k h h' =
    loop-takes m (plus s t) e ((split_record-Extends s.options s.pending t).stable w)
    ∙ ap (λ p. extend p.0 (consume_loop m p.1)) (taken-plus s text rest t)
    ∙ ap (extend (taken s text rest).0) (
        ih m k
          (omega (
            arith,
            h,
            taken-shorter s w,
            length-append s.pending t,
            length-append (taken s text rest).1.pending t,
          ))
          h')
    ∙ extend-extend (taken s text rest).0 (consume_loop n (taken s text rest).1).0
        (consume_loop k (plus (consume_loop n (taken s text rest).1).1 t))

Reads-loop :
    (n : ℕ) (s : Decoder) (t : List ℕ) → length s.pending < n → Reads s t (consume_loop n s)
Reads-loop zero s t h = absurd (omega arith)
Reads-loop (suc n) s t h = elim (Bool-cases s.ended) [
  | inl e ↦ subst (Reads s t) (sym (loop-ended (suc n) s e)) (Reads-self s t)
  | inr e ↦ elim (Option-cases (split_record s.options s.pending)) [
    | inl w ↦ subst (Reads s t) (sym (loop-waits n s e w)) (Reads-self s t)
    | inr ((text, rest), w) ↦ subst (Reads s t) (sym (loop-takes n s e w)) (
        Reads-takes n s t text rest e w
          (Reads-loop n (taken s text rest).1 t (omega (arith, taken-shorter s w))))
  ]
]

abbrev cleared : List Row × Decoder → List Row × Decoder
cleared out = (out.0, clear_ended out.1)

-- `feed`, with the buffer that the loop starts on written out
abbrev fed : Decoder → List ℕ → List Row × Decoder
fed s t = cleared (consume_loop (suc (length (s.pending ++ t))) (plus s t))

fed-ended :
    (s : Decoder) (t : List ℕ)
    → s.ended ≡ true
    → ◌≡◌ {A = List Row × Decoder} (fed s t) ([], record s { pending = [] })
fed-ended s t e =
    ap cleared (loop-ended (suc (length (s.pending ++ t))) (plus s t) e)
    ∙ ap (λ d. ([], d)) (if_true _ _ e)

-- What is pending after the marker does not matter.
fed-clear_ended : (s : Decoder) (t : List ℕ) → fed s t ≡ fed (clear_ended s) t
fed-clear_ended s t = elim (Bool-cases s.ended) [
  | inl e ↦
      fed-ended s t e
      ∙ sym (fed-ended (record s { pending = [] }) t e)
      ∙ ap (λ d. fed d t) (sym (if_true _ _ e))
  | inr e ↦ ap (λ d. fed d t) (sym (if_false _ _ e))
]

-- Feeding two texts one after the other yields the rows of feeding them at once, in the same
-- order, and leaves the same decoder, wherever the cut falls.
pub feed-append :
    (s : Decoder) (a b : List ℕ) → feed s (a ++ b) ≡ extend (feed s a).0 (feed (feed s a).1 b)
unfolding feed Reads
feed-append s a b =
    ap (λ p. cleared (consume_loop (suc (length p)) (record s { pending = p })))
      (sym (append_assoc s.pending a b))
    ∙ ap cleared (
        Reads-loop (suc (length (s.pending ++ a))) (plus s a) b (omega arith)
          (suc (length ((s.pending ++ a) ++ b))) (suc (length (left.pending ++ b))) (omega arith)
          (omega arith))
    ∙ ap (extend read.0) (fed-clear_ended left b)
  where
    read : List Row × Decoder
    read = consume_loop (suc (length (s.pending ++ a))) (plus s a)

    left : Decoder
    left = read.1
