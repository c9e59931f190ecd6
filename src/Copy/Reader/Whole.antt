-- ===== src/Copy/Reader/Whole.antt =====
-- However the client cuts its data into CopyData messages, the session gets the rows of the whole.
use pg_mimic.Prelude.{
  ℕ, zero, suc, ◌+◌, ◌-◌, ◌≡◌, refl, sym, ap, ◌∙◌, subst, List, [], ◌∷◌, ◌++◌, append_assoc,
  append-nil, true, false, some, if_false, length, take, Result, ok, err,
}
use pg_mimic.Errors.{Error}
use pg_mimic.Copy.{CopyOptions}
use pg_mimic.Copy.Decoder.{Row, init, feed, finish}
use pg_mimic.Loop.{copy_data, copy_done, flush, sync, Message}
use pg_mimic.Copy.Reader.{
  Incremental, Reader, new_reader, feed_bytes, finish_bytes, read_batch, yield_rows, iterate,
  skip_rows, drain, then_drain, copy_in,
}
use pg_mimic.Copy.Reader.Steps.{
  take-split, finish-append, decode-Parts, iterate-done, then_drain-done, then_drain-prefixed,
  skipped-last, last_batch, last_done, CopyStream, no_more, data_message, flush_message,
  sync_message, IsCopied,
}

module _ {U : Type 0} (utf8 : Incremental U) where
  drain-step :
      (m : Message) (ms : List Message) (r : Reader utf8)
      → r.done ≡ false
      → drain utf8 (m ∷ ms) r
        ≡ skip_rows utf8 (drain utf8 ms) ms (read_batch utf8 m.kind m.payload r)
  unfolding drain
  drain-step m ms r h = if_false _ _ h

  iterate-step :
      (n : ℕ) (m : Message) (ms : List Message) (r : Reader utf8)
      → r.done ≡ false
      → iterate utf8 (suc n) (m ∷ ms) r
        ≡ yield_rows utf8 (λ k. iterate utf8 k ms) (suc n) ms (read_batch utf8 m.kind m.payload r)
  unfolding iterate
  iterate-step n m ms r h = if_false _ _ h

  -- the reader after a payload that decodes to `t`
  after_data : Reader utf8 → List ℕ → U → Reader utf8
  after_data r t m = record r { partial = m; decoder = (feed r.decoder t).1 }

  batch-data :
      (payload t : List ℕ) (m : U) (r : Reader utf8)
      → utf8.decode_bytes r.partial payload ≡ some (t, m)
      → read_batch utf8 copy_data payload r ≡ (ok (feed r.decoder t).0, after_data r t m)
  unfolding read_batch feed_bytes after_data
  batch-data payload t m r h = ap (λ o. feed_bytes utf8 o r) h

  drain-stream :
      (ms : List Message) (whole : List ℕ)
      → CopyStream ms whole
      → (rest : List Message) (r : Reader utf8) (text tail : List ℕ) (v : U) → r.done ≡ false
      → utf8.decode_bytes r.partial whole ≡ some (text, v)
      → utf8.end v ≡ some tail
      → IsCopied utf8 (drain utf8 (ms ++ rest) r) [] rest
  unfolding skip_rows read_batch after_data
  drain-stream _ _ (no_more {last}) rest r text tail v h d e =
      let same : r.partial ≡ v = (let n = utf8.decode_bytes-nil r.partial in cc) in
      subst (λ q. IsCopied utf8 q [] rest) (sym (drain-step _ rest r h))
        (skipped-last utf8 rest (read_batch utf8 copy_done last r) _
          (last_batch utf8 last tail r v same e) (last_done utf8 last tail r v same e))
  drain-stream _ _ (data_message {payload} {whole} {ms} st) rest r text tail v h d e =
      let parts = decode-Parts utf8 r.partial payload whole text v d in
      subst (λ q. IsCopied utf8 q [] rest)
        (sym (
          drain-step _ (ms ++ rest) r h
          ∙ ap (skip_rows utf8 (drain utf8 (ms ++ rest)) (ms ++ rest))
              (batch-data payload parts.first parts.mid r parts.decodes_first)))
        (drain-stream ms whole st rest (after_data r parts.first parts.mid) parts.second tail v h
          parts.decodes_second e)
  drain-stream _ _ (flush_message {whole = whole} {ms = ms} st) rest r text tail v h d e =
      subst (λ q. IsCopied utf8 q [] rest) (sym (drain-step _ (ms ++ rest) r h))
        (drain-stream ms whole st rest r text tail v h d e)
  drain-stream _ _ (sync_message {whole = whole} {ms = ms} st) rest r text tail v h d e =
      subst (λ q. IsCopied utf8 q [] rest) (sym (drain-step _ (ms ++ rest) r h))
        (drain-stream ms whole st rest r text tail v h d e)

  -- One turn whose batch gives `rows`, and the copy of what follows.
  copy_in-turn :
      (n : ℕ) (m : Message) (ms rest : List Message) (r q : Reader utf8) (rows more : List Row)
      → r.done ≡ false
      → read_batch utf8 m.kind m.payload r ≡ (ok rows, q)
      → IsCopied utf8
          (copy_in utf8
            (suc n - length rows)
            ms
            (record q { row_count = q.row_count + length (take (suc n) rows) }))
          (take (suc n - length rows) more)
          rest
      → IsCopied utf8 (copy_in utf8 (suc n) (m ∷ ms) r) (take (suc n) (rows ++ more)) rest
  unfolding copy_in yield_rows
  copy_in-turn n m ms rest r q rows more h b done =
      subst (λ l. IsCopied utf8 (then_drain utf8 (iterate utf8 (suc n) (m ∷ ms) r)) l rest)
        (take-split (suc n) rows more)
        (subst
          (λ g.
            IsCopied utf8 (then_drain utf8 g) (take (suc n) rows ++ take (suc n - length rows) more)
              rest)
          (sym
            (iterate-step n m ms r h ∙ ap (yield_rows utf8 (λ k. iterate utf8 k ms) (suc n) ms) b))
          (then_drain-prefixed utf8 (take (suc n) rows) _ rest _ done))

  drained :
      (rows : List Row) (ms rest : List Message) (r : Reader utf8)
      → IsCopied utf8 (drain utf8 ms r) [] rest
      → IsCopied utf8 (then_drain utf8 (ok rows, r, ms)) rows rest
  unfolding then_drain
  drained rows ms rest r h = record {
    copied =
        ap (λ o. elim o as (λ x. Result Error (List Row)) [ ok more ↦ ok rows | err e ↦ err e ])
          h.copied;
    ended = h.ended;
    remains = h.remains;
  }

  copy_in-none :
      (ms rest : List Message) (r : Reader utf8)
      → IsCopied utf8 (drain utf8 ms r) [] rest
      → IsCopied utf8 (copy_in utf8 0 ms r) [] rest
  unfolding copy_in iterate
  copy_in-none ms rest r h = drained [] ms rest r h

  take_nil : (n : ℕ) → take {A = Row} n [] ≡ []
  take_nil zero = refl
  take_nil (suc n) = refl

  -- nothing more is read once the copy is done
  copy_in-done :
      (n : ℕ) (ms : List Message) (r : Reader utf8)
      → r.done ≡ true
      → IsCopied utf8 (copy_in utf8 n ms r) (take n []) ms
  unfolding copy_in
  copy_in-done n ms r h =
      subst (λ q. IsCopied utf8 (then_drain utf8 q) (take n []) ms)
        (sym (iterate-done utf8 n ms r h))
        (subst (λ l. IsCopied utf8 (then_drain utf8 (ok [], r, ms)) l ms) (sym (take_nil n))
          (then_drain-done utf8 [] ms r h))

  -- the reader after CopyDone
  after_done : Reader utf8 → List ℕ → Reader utf8
  after_done r tail = record r { done = true; decoder = (finish r.decoder tail).1 }

  batch-done :
      (payload tail : List ℕ) (r : Reader utf8) (v : U)
      → r.partial ≡ v
      → utf8.end v ≡ some tail
      → read_batch utf8 copy_done payload r ≡ (ok (finish r.decoder tail).0, after_done r tail)
  unfolding read_batch finish_bytes after_done
  batch-done payload tail r v same e =
      ap (λ o. finish_bytes utf8 o (record r { done = true })) (ap utf8.end same ∙ e)

  copy_in-stream :
      (ms : List Message) (whole : List ℕ)
      → CopyStream ms whole
      → (rest : List Message) (n : ℕ) (r : Reader utf8) (text tail : List ℕ) (v : U)
      → r.done ≡ false
      → utf8.decode_bytes r.partial whole ≡ some (text, v)
      → utf8.end v ≡ some tail
      → IsCopied utf8
          (copy_in utf8 n (ms ++ rest) r)
          (take n (finish r.decoder (text ++ tail)).0)
          rest
  unfolding read_batch after_data after_done
  copy_in-stream ms whole st rest zero r text tail v h d e =
      copy_in-none (ms ++ rest) rest r (drain-stream ms whole st rest r text tail v h d e)
  copy_in-stream _ _ (no_more {last}) rest (suc n) r text tail v h d e =
      let nothing = utf8.decode_bytes-nil r.partial in
      let same : r.partial ≡ v = cc in
      let empty : text ≡ [] = cc in
      subst
        (λ l.
          IsCopied utf8
            (copy_in utf8 (suc n) (record { kind = copy_done; payload = last } ∷ rest) r)
            (take (suc n) l) rest)
        (append-nil (finish r.decoder tail).0
          ∙ ap (λ t. (finish r.decoder (t ++ tail)).0) (sym empty))
        (copy_in-turn n (record { kind = copy_done; payload = last }) rest rest r
          (after_done r tail) (finish r.decoder tail).0 [] h (batch-done last tail r v same e)
          (copy_in-done _ rest _ refl))
  copy_in-stream _ _ (data_message {payload} {whole} {ms} st) rest (suc n) r text tail v h d e =
      let parts = decode-Parts utf8 r.partial payload whole text v d in
      let all : (feed r.decoder parts.first).0
            ++ (finish (feed r.decoder parts.first).1 (parts.second ++ tail)).0
          ≡ (finish r.decoder (text ++ tail)).0 =
        sym (
          ap (λ t. (finish r.decoder (t ++ tail)).0) parts.joined
          ∙ ap (λ t. (finish r.decoder t).0) (append_assoc parts.first parts.second tail)
          ∙ finish-append r.decoder parts.first (parts.second ++ tail)) in
      subst
        (λ l.
          IsCopied utf8
            (copy_in utf8 (suc n) (record { kind = copy_data; payload = payload } ∷ (ms ++ rest)) r)
            (take (suc n) l) rest)
        all
        (copy_in-turn n (record { kind = copy_data; payload = payload }) (ms ++ rest) rest r
          (after_data r parts.first parts.mid) (feed r.decoder parts.first).0 _ h
          (batch-data payload parts.first parts.mid r parts.decodes_first)
          (copy_in-stream ms whole st rest (suc n - length (feed r.decoder parts.first).0) _
            parts.second tail v h parts.decodes_second e))
  copy_in-stream _ _ (flush_message {payload} {whole} {ms} st) rest (suc n) r text tail v h d e =
      copy_in-turn n (record { kind = flush; payload = payload }) (ms ++ rest) rest r r [] _ h refl
        (copy_in-stream ms whole st rest (suc n - 0) _ text tail v h d e)
  copy_in-stream _ _ (sync_message {payload} {whole} {ms} st) rest (suc n) r text tail v h d e =
      copy_in-turn n (record { kind = sync; payload = payload }) (ms ++ rest) rest r r [] _ h refl
        (copy_in-stream ms whole st rest (suc n - 0) _ text tail v h d e)

  -- However the client cuts its bytes into CopyData messages, with Flush and Sync in between, a
  -- session that stops after `n` rows gets the first `n` rows of the whole text decoded and read at
  -- once, and the exchange ends with every message up to CopyDone consumed and none behind it, if
  -- the bytes decode.
  pub copy_in-whole :
      (options : CopyOptions) (ms : List Message) (whole : List ℕ)
      → CopyStream ms whole
      → (rest : List Message) (n : ℕ) (text tail : List ℕ) (v : U)
      → utf8.decode_bytes utf8.start whole ≡ some (text, v)
      → utf8.end v ≡ some tail
      → IsCopied utf8
          (copy_in utf8 n (ms ++ rest) (new_reader utf8 options))
          (take n (finish (init options) (text ++ tail)).0)
          rest
  unfolding new_reader
  copy_in-whole options ms whole st rest n text tail v d e =
      copy_in-stream ms whole st rest n (new_reader utf8 options) text tail v refl d e
