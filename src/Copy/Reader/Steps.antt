-- ===== src/Copy/Reader/Steps.antt =====
-- What a client may send while it copies, and what a reader's single steps do with it.
use pg_mimic.Prelude.{
  ℕ, zero, suc, ◌-◌, ◌≡◌, refl, sym, ap, ◌∙◌, List, [], ◌∷◌, ◌++◌, append_assoc, true, Option, none,
  some, length, take, Result, ok, err, arith,
}
use pg_mimic.Errors.{Error}
use pg_mimic.Copy.Decoder.{Row, Decoder, feed, leftover_record, finish}
use pg_mimic.Copy.Decoder.Chunks.{feed-append}
use pg_mimic.Loop.{copy_data, copy_done, flush, sync, Message}
use pg_mimic.Copy.Reader.{
  behind, decode_more, Incremental, Reader, finish_bytes, read_batch, Progress, prefixed, iterate,
  skip_rows, drain, then_drain,
}

-- What a client may send while it copies: data, and Flush and Sync, which are passed over.
pub data CopyStream : List Message → List ℕ → Type 0 where
  no_more : {last : List ℕ} → CopyStream (record { kind = copy_done; payload = last } ∷ []) []
  data_message :
      {payload whole : List ℕ} {ms : List Message}
      → CopyStream ms whole
      → CopyStream (record { kind = copy_data; payload = payload } ∷ ms) (payload ++ whole)
  flush_message :
      {payload whole : List ℕ} {ms : List Message}
      → CopyStream ms whole
      → CopyStream (record { kind = flush; payload = payload } ∷ ms) whole
  sync_message :
      {payload whole : List ℕ} {ms : List Message}
      → CopyStream ms whole
      → CopyStream (record { kind = sync; payload = payload } ∷ ms) whole

pub less_zero : (n : ℕ) → 0 - n ≡ 0
less_zero n = omega arith

pub less_suc : (n k : ℕ) → suc n - suc k ≡ n - k
less_suc n k = omega arith

pub less_none : (n : ℕ) → n - 0 ≡ n
less_none n = omega arith

pub take-split : (n : ℕ) (a b : List Row) → take n a ++ take (n - length a) b ≡ take n (a ++ b)
take-split zero a b = rw (less_zero (length a)) refl
take-split (suc n) [] b = ap (λ k. take k b) (less_none (suc n))
take-split (suc n) (x ∷ a) b =
    ap (λ l. x ∷ l) (ap (λ k. take n a ++ take k b) (less_suc n (length a)) ∙ take-split n a b)

-- The end of the data may come in the same text.
pub finish-append :
    (s : Decoder) (a b : List ℕ) → (finish s (a ++ b)).0 ≡ (feed s a).0 ++ (finish (feed s a).1 b).0
unfolding finish leftover_record
finish-append s a b =
    ap (λ out. (leftover_record out).0) (feed-append s a b)
    ∙ append_assoc (feed s a).0 (feed (feed s a).1 b).0 _

module _ {U : Type 0} (utf8 : Incremental U) where
  -- A decoding of a part, and of the rest.
  pub record Parts (u : U) (a b text : List ℕ) (v : U) : Type 0 where
    pub first : List ℕ
    pub second : List ℕ
    pub mid : U
    pub decodes_first : utf8.decode_bytes u a ≡ some (first, mid)
    pub decodes_second : utf8.decode_bytes mid b ≡ some (second, v)
    pub joined : text ≡ first ++ second

  pub more-Parts :
      (u : U) (a b text t : List ℕ) (v m : U) (o : Option (List ℕ × U))
      → utf8.decode_bytes u a ≡ some (t, m)
      → utf8.decode_bytes m b ≡ o
      → behind t o ≡ some (text, v)
      → Parts u a b text v
  more-Parts u a b text t v m none h k e = absurd cc
  more-Parts u a b text t v m (some (t', v')) h k e =
      let same : v' ≡ v = cc in
      record {
        first = t;
        second = t';
        mid = m;
        decodes_first = h;
        decodes_second = k ∙ ap (λ w. some (t', w)) same;
        joined = cc;
      }

  pub first-Parts :
      (u : U) (a b text : List ℕ) (v : U) (o : Option (List ℕ × U))
      → utf8.decode_bytes u a ≡ o
      → decode_more utf8.decode_bytes b o ≡ some (text, v)
      → Parts u a b text v
  first-Parts u a b text v none h e = absurd cc
  first-Parts u a b text v (some (t, m)) h e =
      more-Parts u a b text t v m (utf8.decode_bytes m b) h refl e

  pub decode-Parts :
      (u : U) (a b text : List ℕ) (v : U)
      → utf8.decode_bytes u (a ++ b) ≡ some (text, v)
      → Parts u a b text v
  decode-Parts u a b text v e =
      first-Parts u a b text v (utf8.decode_bytes u a) refl
        (sym (utf8.decode_bytes-append u a b) ∙ e)

  -- A copy that ended well, with the messages behind it left.
  pub record IsCopied (p : Progress utf8) (rows : List Row) (rest : List Message) : Type 0 where
    pub copied : p.0 ≡ ok rows
    pub ended : p.1.done ≡ true
    pub remains : p.2 ≡ rest

  pub drain-done :
      (ms : List Message) (r : Reader utf8) → r.done ≡ true → drain utf8 ms r ≡ (ok [], r, ms)
  unfolding drain
  drain-done [] r h = rw h refl
  drain-done (m ∷ ms) r h = rw h refl

  pub iterate-done :
      (n : ℕ) (ms : List Message) (r : Reader utf8)
      → r.done ≡ true
      → iterate utf8 n ms r ≡ (ok [], r, ms)
  unfolding iterate
  iterate-done zero ms r h = refl
  iterate-done (suc n) [] r h = rw h refl
  iterate-done (suc n) (m ∷ ms) r h = rw h refl

  pub then_drain-done :
      (rows : List Row) (ms : List Message) (r : Reader utf8)
      → r.done ≡ true
      → IsCopied (then_drain utf8 (ok rows, r, ms)) rows ms
  unfolding then_drain
  then_drain-done rows ms r h =
      rw (drain-done ms r h) (record { copied = refl; ended = h; remains = refl })

  pub drained-ok :
      (more rows : List Row) (rest : List Message) (q : Progress utf8)
      → IsCopied ((elim (q.0) [ ok skipped ↦ ok more | err e ↦ err e ]), q.1, q.2) rows rest
      → (before : List Row)
      → IsCopied
          ((elim (q.0) [ ok skipped ↦ ok (before ++ more) | err e ↦ err e ]), q.1, q.2)
          (before ++ rows)
          rest
  drained-ok more rows rest (ok skipped, r, ms) h before =
      let same : more ≡ rows = (let e = h.copied in cc) in
      record { copied = ap (λ l. ok (before ++ l)) same; ended = h.ended; remains = h.remains }
  drained-ok more rows rest (err e, r, ms) h before = absurd (let c = h.copied in cc)

  pub then_drain-prefixed :
      (before rows : List Row) (rest : List Message) (q : Progress utf8)
      → IsCopied (then_drain utf8 q) rows rest
      → IsCopied (then_drain utf8 (prefixed utf8 before q)) (before ++ rows) rest
  unfolding then_drain prefixed
  then_drain-prefixed before rows rest (ok more, r, ms) h =
      drained-ok more rows rest (drain utf8 ms r) h before
  then_drain-prefixed before rows rest (err e, r, ms) h = absurd (let c = h.copied in cc)

  pub skipped-last :
      (rest : List Message) (q : Result Error (List Row) × Reader utf8) (rows : List Row)
      → q.0 ≡ ok rows
      → q.1.done ≡ true
      → IsCopied (skip_rows utf8 (drain utf8 rest) rest q) [] rest
  unfolding skip_rows
  skipped-last rest (err e, r) rows o h = absurd cc
  skipped-last rest (ok more, r) rows o h =
      rw (drain-done rest r h) (record { copied = refl; ended = h; remains = refl })

  -- The last batch, of a reader whose bytes end well.
  pub last_batch :
      (payload tail : List ℕ) (r : Reader utf8) (v : U)
      → r.partial ≡ v
      → utf8.end v ≡ some tail
      → (read_batch utf8 copy_done payload r).0 ≡ ok (finish r.decoder tail).0
  unfolding read_batch finish_bytes
  last_batch payload tail r v same e = rw (ap utf8.end same ∙ e) refl

  pub last_done :
      (payload tail : List ℕ) (r : Reader utf8) (v : U)
      → r.partial ≡ v
      → utf8.end v ≡ some tail
      → (read_batch utf8 copy_done payload r).1.done ≡ true
  unfolding read_batch finish_bytes
  last_done payload tail r v same e = rw (ap utf8.end same ∙ e) refl
