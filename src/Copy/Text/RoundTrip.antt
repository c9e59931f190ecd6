-- ===== src/Copy/Text/RoundTrip.antt =====
-- A row that CopyEncoder writes in the text format, read back by `_text_fields`.
use pg_mimic.Prelude.{
  ℕ, ◌≡◌, refl, sym, ap, List, [], ◌∷◌, ◌++◌, map, append_assoc, append-nil, true, false, Option,
  none, some, nat_beq, nat_beq_iff, nat_beq_refl, arith, inl, inr, Option-cases, Bool-cases, ◌∙◌,
}
use pg_mimic.Copy.{CopyOptions, text_options}
use pg_mimic.Prelude.{backslash, text_beq}
use pg_mimic.Copy.Encoder.{text_escape, escape_char, escape_text, text_field, join}
use pg_mimic.Copy.Text.{
  text_unescape, is_octal, unescape_marker, unescape_from, unescape_text, split_fields, field_value,
  text_fields,
}

-- A delimiter that means itself after a backslash.
pub record IsPlain (d : ℕ) : Type 0 where
  pub no_letter : text_unescape d ≡ none
  pub no_octal : is_octal d ≡ false
  pub no_hex : nat_beq d 120 ≡ false
  pub no_backslash : nat_beq d 92 ≡ false
  pub no_null : nat_beq d 78 ≡ false

-- An escape letter and the character it stands for.
record IsEscape (c letter : ℕ) : Type 0 where
  reads : (s : List ℕ) → unescape_marker letter s ≡ (c, 1)
  no_null : nat_beq letter 78 ≡ false

IsEscape-eq : (c k letter : ℕ) → nat_beq c k ≡ true → IsEscape k letter → IsEscape c letter
IsEscape-eq c k letter h e = rw ((nat_beq_iff c k).0 h) e

text_escape-IsEscape : (c letter : ℕ) → text_escape c ≡ some letter → IsEscape c letter
unfolding text_escape unescape_marker text_unescape
text_escape-IsEscape c letter h = record { reads = λ s. ground arith; no_null = ground arith }

plain_marker : (d : ℕ) → IsPlain d → (s : List ℕ) → unescape_marker d s ≡ (d, 1)
unfolding unescape_marker
plain_marker d p s = rw (p.no_letter, p.no_hex, p.no_octal) refl

unescape-other :
    (c : ℕ) (s : List ℕ) → nat_beq c 92 ≡ false → unescape_from 0 (c ∷ s) ≡ c ∷ unescape_from 0 s
unfolding unescape_from
unescape-other c [] h = refl
unescape-other c (d ∷ s) h = ground arith

not_backslash : (c : ℕ) → text_escape c ≡ none → nat_beq c 92 ≡ false
unfolding text_escape
not_backslash c h = ground arith

unescape-escaped :
    (c m : ℕ) (s : List ℕ)
    → unescape_marker m s ≡ (c, 1)
    → unescape_from 0 (backslash ∷ m ∷ s) ≡ c ∷ unescape_from 0 s
unfolding unescape_from
unescape-escaped c m s h = rw h refl

-- What an escaped character is: the pair of a backslash and a marker, or the character itself.
data EscapedAs (d c : ℕ) : List ℕ → Type 0 where
  pair :
      {m : ℕ}
      → ((s : List ℕ) → unescape_marker m s ≡ (c, 1))
      → nat_beq m 78 ≡ false
      → EscapedAs d c (backslash ∷ m ∷ [])
  itself : nat_beq c 92 ≡ false → nat_beq c d ≡ false → EscapedAs d c (c ∷ [])

EscapedAs-delimiter :
    (d c : ℕ) → IsPlain d → nat_beq c d ≡ true → EscapedAs d c (backslash ∷ c ∷ [])
EscapedAs-delimiter d c p same = rw ((nat_beq_iff c d).0 same) (pair (plain_marker d p) p.no_null)

EscapedAs-unlettered :
    (d c : ℕ) → IsPlain d → nat_beq c 92 ≡ false → EscapedAs d c (escape_char d none c)
unfolding escape_char
EscapedAs-unlettered d c p n = elim (Bool-cases (nat_beq c d)) [
  | inl same ↦ rw same (EscapedAs-delimiter d c p same)
  | inr other ↦ rw other (itself n other)
]

escape_char-EscapedAs :
    (d : ℕ) → IsPlain d → (c : ℕ) → EscapedAs d c (escape_char d (text_escape c) c)
unfolding escape_char
escape_char-EscapedAs d p c = elim (Option-cases (text_escape c)) [
  | inr (letter, e) ↦
      rw e (pair (text_escape-IsEscape c letter e).reads (text_escape-IsEscape c letter e).no_null)
  | inl e ↦ rw e (EscapedAs-unlettered d c p (not_backslash c e))
]

unescape-EscapedAs :
    {d c : ℕ} (e : List ℕ)
    → EscapedAs d c e
    → (s : List ℕ) → unescape_from 0 (e ++ s) ≡ c ∷ unescape_from 0 s
unescape-EscapedAs _ (pair {m} reads n) s = unescape-escaped _ m s (reads s)
unescape-EscapedAs _ (itself n o) s = unescape-other _ s n

split-other :
    (d c : ℕ) (current s : List ℕ)
    → nat_beq c 92 ≡ false
    → nat_beq c d ≡ false
    → split_fields d current (c ∷ s) ≡ split_fields d (current ++ c ∷ []) s
unfolding split_fields
split-other d c current [] n o = ground arith
split-other d c current (x ∷ s) n o = ground arith

split-EscapedAs :
    {d c : ℕ} (e : List ℕ)
    → EscapedAs d c e
    → (current s : List ℕ) → split_fields d current (e ++ s) ≡ split_fields d (current ++ e) s
unfolding split_fields
split-EscapedAs _ (pair reads n) current s = refl
split-EscapedAs _ (itself n o) current s = split-other _ _ current s n o

unescape-escape_text : (d : ℕ) → IsPlain d → (s : List ℕ) → unescape_text (escape_text d s) ≡ s
unfolding unescape_text escape_text unescape_from
unescape-escape_text d p [] = refl
unescape-escape_text d p (c ∷ s) =
    unescape-EscapedAs _ (escape_char-EscapedAs d p c) (escape_text d s)
    ∙ ap (λ r. c ∷ r) (unescape-escape_text d p s)

split-escape_text :
    (d : ℕ)
    → IsPlain d
    → (t current s : List ℕ)
    → split_fields d current (escape_text d t ++ s) ≡ split_fields d (current ++ escape_text d t) s
unfolding escape_text
split-escape_text d p [] current s = ap (λ c. split_fields d c s) (sym (append-nil current))
split-escape_text d p (c ∷ t) current s =
    ap (split_fields d current) (append_assoc e (escape_text d t) s)
    ∙ split-EscapedAs e (escape_char-EscapedAs d p c) current (escape_text d t ++ s)
    ∙ split-escape_text d p t (current ++ e) s
    ∙ ap (λ r. split_fields d r s) (append_assoc current e (escape_text d t))
  where
    e : List ℕ
    e = escape_char d (text_escape c) c

-- The options of the text format with a delimiter of their own.
abbrev pub delimited : ℕ → CopyOptions
delimited d = record text_options { delimiter = d }

split-text_field :
    (d : ℕ)
    → IsPlain d
    → (f : Option (List ℕ)) (s : List ℕ)
    → split_fields d [] (text_field (delimited d) f ++ s)
      ≡ split_fields d (text_field (delimited d) f) s
unfolding text_field split_fields
split-text_field d p none s = refl
split-text_field d p (some t) s = split-escape_text d p t [] s

split-delimiter :
    (d : ℕ)
    → IsPlain d
    → (current s : List ℕ) → split_fields d current (d ∷ s) ≡ current ∷ split_fields d [] s
unfolding split_fields
split-delimiter d p current [] = rw (nat_beq_refl d) refl
split-delimiter d p current (c ∷ s) = ground (arith, p.no_backslash, nat_beq_refl d)

split-join :
    (d : ℕ)
    → IsPlain d
    → (f : Option (List ℕ)) (fs : List (Option (List ℕ)))
    → split_fields d [] (join d (map (text_field (delimited d)) (f ∷ fs)))
      ≡ map (text_field (delimited d)) (f ∷ fs)
unfolding join split_fields
split-join d p f [] =
    ap (split_fields d []) (sym (append-nil (text_field (delimited d) f)))
    ∙ split-text_field d p f []
split-join d p f (g ∷ fs) =
    split-text_field d p f (d ∷ join d (map (text_field (delimited d)) (g ∷ fs)))
    ∙ split-delimiter d p (text_field (delimited d) f)
        (join d (map (text_field (delimited d)) (g ∷ fs)))
    ∙ ap (λ r. text_field (delimited d) f ∷ r) (split-join d p g fs)

EscapedAs-not_null :
    {d c : ℕ} (e : List ℕ)
    → EscapedAs d c e
    → (s : List ℕ) → text_beq (e ++ s) (92 ∷ 78 ∷ []) ≡ false
EscapedAs-not_null _ (pair reads n) s = rw n refl
EscapedAs-not_null _ (itself n o) s = rw n refl

escape_text-not_null :
    (d : ℕ) → IsPlain d → (t : List ℕ) → text_beq (escape_text d t) (92 ∷ 78 ∷ []) ≡ false
unfolding escape_text
escape_text-not_null d p [] = refl
escape_text-not_null d p (c ∷ t) =
    EscapedAs-not_null _ (escape_char-EscapedAs d p c) (escape_text d t)

field_value-text_field :
    (d : ℕ)
    → IsPlain d
    → (f : Option (List ℕ)) → field_value (delimited d) (text_field (delimited d) f) ≡ f
unfolding field_value text_field
field_value-text_field d p none = refl
field_value-text_field d p (some t) =
    rw (escape_text-not_null d p t) (ap some (unescape-escape_text d p t))

field_values :
    (d : ℕ)
    → IsPlain d
    → (fs : List (Option (List ℕ)))
    → map (field_value (delimited d)) (map (text_field (delimited d)) fs) ≡ fs
field_values d p [] = refl
field_values d p (f ∷ fs) = rw (field_value-text_field d p f, field_values d p fs) refl

-- A row of at least one field, written in the text format with its default null string and a
-- delimiter that means itself after a backslash and is not N, is read back as it was, NULLs told
-- apart from every string.
pub text_fields-join :
    (d : ℕ)
    → IsPlain d
    → (f : Option (List ℕ)) (fs : List (Option (List ℕ)))
    → text_fields (delimited d) (join d (map (text_field (delimited d)) (f ∷ fs))) ≡ f ∷ fs
unfolding text_fields
text_fields-join d p f fs =
    ap (map (field_value (delimited d))) (split-join d p f fs) ∙ field_values d p (f ∷ fs)
