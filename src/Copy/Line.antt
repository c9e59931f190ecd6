-- ===== src/Copy/Line.antt =====
-- A whole line of the text format: what CopyEncoder writes, fed to CopyInDecoder.
use pg_mimic.Prelude.{
  ℕ, zero, suc, ◌≡◌, refl, sym, ap, ◌∙◌, List, [], ◌∷◌, ◌++◌, map, append-nil, append_assoc, false,
  Option, none, some, nat_beq, length, arith,
}
use pg_mimic.Prelude.{newline, text_beq, has_char}
use pg_mimic.Copy.Encoder.{text_escape, escape_char, escape_text, text_field, render, join, line}
use pg_mimic.Copy.Text.{text_fields}
use pg_mimic.Copy.Text.RoundTrip.{IsPlain, delimited, text_fields-join}
use pg_mimic.Copy.Decoder.{
  init, before, split_line, split_record, drop_return, fields, read_record, extend, consume_loop,
  consume_split, clear_ended, feed,
}
use pg_mimic.Copy.Decoder.Chunks.{loop-takes}

-- A delimiter that is no line end and does not make the end-of-data marker.
pub record IsLineSafe (d : ℕ) : Type 0 where
  pub plain : IsPlain d
  pub no_newline : nat_beq d 10 ≡ false
  pub no_return : nat_beq d 13 ≡ false
  pub no_period : nat_beq d 46 ≡ false

has_char-append :
    (a b : List ℕ) (k : ℕ)
    → has_char a k ≡ false
    → has_char b k ≡ false
    → has_char (a ++ b) k ≡ false
has_char-append [] b k h g = g
has_char-append (c ∷ a) b k h g = ground (arith, has_char-append a b k)

escape_char-newline :
    (d c : ℕ) → IsLineSafe d → has_char (escape_char d (text_escape c) c) 10 ≡ false
unfolding escape_char text_escape
escape_char-newline d c p = ground (arith, p.no_newline)

escape_char-return :
    (d c : ℕ) → IsLineSafe d → has_char (escape_char d (text_escape c) c) 13 ≡ false
unfolding escape_char text_escape
escape_char-return d c p = ground (arith, p.no_return)

escape_char-marker :
    (d c : ℕ) (s : List ℕ)
    → IsLineSafe d
    → text_beq (escape_char d (text_escape c) c ++ s) (92 ∷ 46 ∷ []) ≡ false
unfolding escape_char text_escape
escape_char-marker d c s p = ground (arith, p.no_period)

-- A character that no escaped text holds, and no delimiter is.
record IsAbsent (d k : ℕ) : Type 0 where
  escaped : (c : ℕ) → has_char (escape_char d (text_escape c) c) k ≡ false
  delimiter : nat_beq d k ≡ false
  null : has_char (92 ∷ 78 ∷ []) k ≡ false

escape_text-IsAbsent :
    (d k : ℕ) → IsAbsent d k → (t : List ℕ) → has_char (escape_text d t) k ≡ false
unfolding escape_text
escape_text-IsAbsent d k a [] = refl
escape_text-IsAbsent d k a (c ∷ t) =
    has_char-append (escape_char d (text_escape c) c) (escape_text d t) k (a.escaped c)
      (escape_text-IsAbsent d k a t)

text_field-IsAbsent :
    (d k : ℕ)
    → IsAbsent d k
    → (f : Option (List ℕ)) → has_char (text_field (delimited d) f) k ≡ false
unfolding text_field
text_field-IsAbsent d k a none = a.null
text_field-IsAbsent d k a (some t) = escape_text-IsAbsent d k a t

join-IsAbsent :
    (d k : ℕ)
    → IsAbsent d k
    → (fs : List (Option (List ℕ)))
    → has_char (join d (map (text_field (delimited d)) fs)) k ≡ false
unfolding join
join-IsAbsent d k a [] = refl
join-IsAbsent d k a (f ∷ []) = text_field-IsAbsent d k a f
join-IsAbsent d k a (f ∷ g ∷ fs) =
    has_char-append (text_field (delimited d) f)
      (d ∷ join d (map (text_field (delimited d)) (g ∷ fs))) k (text_field-IsAbsent d k a f)
      (rw a.delimiter (join-IsAbsent d k a (g ∷ fs)))

split_line-line :
    (j : List ℕ) → has_char j 10 ≡ false → split_line (j ++ newline ∷ []) ≡ some (j, [])
unfolding split_line before
split_line-line [] h = refl
split_line-line (c ∷ j) h = ground (arith, split_line-line j)

has_char-tail : (c : ℕ) (s : List ℕ) (k : ℕ) → has_char (c ∷ s) k ≡ false → has_char s k ≡ false
has_char-tail c s k h = ground arith

drop_return-absent : (j : List ℕ) → has_char j 13 ≡ false → drop_return j ≡ j
unfolding drop_return
drop_return-absent [] h = refl
drop_return-absent (c ∷ []) h = ground arith
drop_return-absent (c ∷ e ∷ j) h =
    ap (λ r. c ∷ r) (drop_return-absent (e ∷ j) (has_char-tail c (e ∷ j) 13 h))

text_field-marker :
    (d : ℕ)
    → IsLineSafe d
    → (f : Option (List ℕ)) (rest : List ℕ) → text_beq rest (92 ∷ 46 ∷ []) ≡ false
    → text_beq (text_field (delimited d) f ++ rest) (92 ∷ 46 ∷ []) ≡ false
unfolding text_field escape_text
text_field-marker d p none rest h = refl
text_field-marker d p (some []) rest h = h
text_field-marker d p (some (c ∷ t)) rest h =
    ap (λ l. text_beq l (92 ∷ 46 ∷ []))
      (append_assoc (escape_char d (text_escape c) c) (escape_text d t) rest)
    ∙ escape_char-marker d c (escape_text d t ++ rest) p

join-marker :
    (d : ℕ)
    → IsLineSafe d
    → (fs : List (Option (List ℕ)))
    → text_beq (join d (map (text_field (delimited d)) fs)) (92 ∷ 46 ∷ []) ≡ false
unfolding join
join-marker d p [] = refl
join-marker d p (f ∷ []) =
    ap (λ l. text_beq l (92 ∷ 46 ∷ [])) (sym (append-nil (text_field (delimited d) f)))
    ∙ text_field-marker d p f [] refl
join-marker d p (f ∷ g ∷ fs) =
    text_field-marker d p f (d ∷ join d (map (text_field (delimited d)) (g ∷ fs)))
      (rw p.plain.no_backslash refl)

read_record-text :
    (d : ℕ) (j : List ℕ)
    → drop_return j ≡ j
    → text_beq j (92 ∷ 46 ∷ []) ≡ false
    → read_record (init (delimited d)) j ≡ (text_fields (delimited d) j ∷ [], init (delimited d))
unfolding read_record init fields
read_record-text d j h m = rw (h, m) refl

consume_loop-init : (d n : ℕ) → consume_loop n (init (delimited d)) ≡ ([], init (delimited d))
unfolding consume_loop consume_split init split_record split_line
consume_loop-init d zero = refl
consume_loop-init d (suc n) = refl

-- A line without a carriage return that is not the end-of-data marker.
feed-one :
    (d : ℕ) (j : List ℕ)
    → has_char j 10 ≡ false
    → drop_return j ≡ j
    → text_beq j (92 ∷ 46 ∷ []) ≡ false
    → feed (init (delimited d)) (j ++ newline ∷ [])
      ≡ (text_fields (delimited d) j ∷ [], init (delimited d))
unfolding feed init split_record
feed-one d j k h m =
    ap (λ r. (r.0, clear_ended r.1))
      (loop-takes n (record (init (delimited d)) { pending = j ++ newline ∷ [] }) refl
          (split_line-line j k)
        ∙ ap (λ o. extend o.0 (consume_loop n o.1)) (read_record-text d j h m)
        ∙ ap (extend (text_fields (delimited d) j ∷ [])) (consume_loop-init d n))
  where
    n : ℕ
    n = length (j ++ newline ∷ [])

map-render :
    (d : ℕ) (fs : List (Option (List ℕ)))
    → map (render (delimited d)) fs ≡ map (text_field (delimited d)) fs
unfolding render
map-render d [] = refl
map-render d (f ∷ fs) = ap (λ r. text_field (delimited d) f ∷ r) (map-render d fs)

-- A row of at least one field, written as a line of the text format with its default null string
-- and fed to a fresh decoder, is the one row that comes out, and the decoder is fresh again, if
-- the delimiter means itself after a backslash and is no line end, no period and no N.
pub feed-line :
    (d : ℕ)
    → IsLineSafe d
    → (f : Option (List ℕ)) (fs : List (Option (List ℕ)))
    → feed (init (delimited d)) (line (delimited d) (f ∷ fs)) ≡ ((f ∷ fs) ∷ [], init (delimited d))
unfolding line
feed-line d p f fs =
    ap (λ r. feed (init (delimited d)) (join d r ++ newline ∷ [])) (map-render d (f ∷ fs))
    ∙ feed-one d j (join-IsAbsent d 10 newline_absent (f ∷ fs))
        (drop_return-absent j (join-IsAbsent d 13 return_absent (f ∷ fs)))
        (join-marker d p (f ∷ fs))
    ∙ ap (λ row. (row ∷ [], init (delimited d))) (text_fields-join d p.plain f fs)
  where
    j : List ℕ
    j = join d (map (text_field (delimited d)) (f ∷ fs))

    newline_absent : IsAbsent d 10
    newline_absent = record {
      escaped = λ c. escape_char-newline d c p;
      delimiter = p.no_newline;
      null = refl;
    }

    return_absent : IsAbsent d 13
    return_absent = record {
      escaped = λ c. escape_char-return d c p;
      delimiter = p.no_return;
      null = refl;
    }
