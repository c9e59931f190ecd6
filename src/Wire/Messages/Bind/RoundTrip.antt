-- ===== src/Wire/Messages/Bind/RoundTrip.antt =====
-- A Bind message as the protocol documents it, and a SASLInitialResponse, read back.
use pg_mimic.Prelude.{
  ℕ, ◌≡◌, sym, ap, ◌∙◌, List, ◌++◌, append-nil, Option, none, some, length, ℤ, pos,
}
use pg_mimic.Wire.Ints.{pack_int16}
use pg_mimic.Wire.Messages.Builders.{◌then◌, each, cstring, field}
use pg_mimic.Wire.Messages.Parsers.{zero_index}
use pg_mimic.Wire.Messages.Strings.{read_cstring-cstring}
use pg_mimic.Wire.Reader.{Reader, ◌>>>◌, give, read_int16, read_value}
use pg_mimic.Wire.Reader.Reads.{
  Reads, Reads-give, Reads-then, Reads-eq, Reads-result, Reads-int16, Reads-field, Reads-each,
  then-some,
}
use pg_mimic.Wire.Messages.Bind.{
  or_empty, parse_sasl_initial_response, read_sasl, read_name, at_offset, ParsedBind, read_counted,
  read_format_codes, read_bind, parse_bind,
}

-- a count, and the values
abbrev pub counted : {A : Type 0} → (A → Option (List ℕ)) → List A → Option (List ℕ)
counted write items = pack_int16 (pos (length items)) then each write items

-- the payload of a Bind message
abbrev pub bind_payload : ParsedBind → Option (List ℕ)
bind_payload b =
    cstring b.portal_name
    then cstring b.statement_name
    then counted pack_int16 b.param_format_codes
    then counted field b.params
    then counted pack_int16 b.result_format_codes

Reads-name : (s bs : List ℕ) → cstring s ≡ some bs → zero_index s ≡ none → Reads read_name bs s
unfolding read_name
Reads-name s bs e z = record {
  reads = λ before rest. ap at_offset (read_cstring-cstring s bs before rest e z);
}

Reads-counted :
    {A : Type 0} (write : A → Option (List ℕ)) (r : Reader A)
    → ((a : A) (bs : List ℕ) → write a ≡ some bs → Reads r bs a)
    → (items : List A) (bs : List ℕ) → counted write items ≡ some bs
    → Reads (read_counted r) bs items
unfolding read_counted
Reads-counted write r one items bs e =
    let (xs, ys, first, others, joined) =
      then-some (pack_int16 (pos (length items))) (each write items) bs e in
    Reads-eq joined (
      Reads-then _ (Reads-int16 (pos (length items)) xs first)
        (Reads-each write r one items ys others))

Reads-format_codes :
    (codes : List ℤ) (bs : List ℕ)
    → counted pack_int16 codes ≡ some bs
    → Reads read_format_codes bs codes
unfolding read_format_codes
Reads-format_codes = Reads-counted pack_int16 read_int16 Reads-int16

Reads-bind :
    (b : ParsedBind) (bs : List ℕ)
    → bind_payload b ≡ some bs
    → zero_index b.portal_name ≡ none
    → zero_index b.statement_name ≡ none
    → Reads read_bind bs b
unfolding read_bind
Reads-bind b bs e zp zs =
    let (portal, tail, e_portal, e_tail, joined) = then-some (cstring b.portal_name) _ bs e in
    let (statement, tail', e_statement, e_tail', joined') =
      then-some (cstring b.statement_name) _ tail e_tail in
    let (codes, tail'', e_codes, e_tail'', joined'') =
      then-some (counted pack_int16 b.param_format_codes) _ tail' e_tail' in
    let (params, last, e_params, e_last, ends) =
      then-some (counted field b.params) _ tail'' e_tail'' in
    Reads-eq
      (joined
        ∙ ap (λ l. portal ++ l)
            (joined'
              ∙ ap (λ l. statement ++ l)
                  (joined''
                    ∙ ap (λ l. codes ++ l) (ends ∙ ap (λ l. params ++ l) (sym (append-nil last))))))
      (Reads-then _ (Reads-name b.portal_name portal e_portal zp) (
        Reads-then _ (Reads-name b.statement_name statement e_statement zs) (
          Reads-then _ (Reads-format_codes b.param_format_codes codes e_codes) (
            Reads-then _ (Reads-counted field read_value Reads-field b.params params e_params) (
              Reads-then _ (Reads-format_codes b.result_format_codes last e_last)
                (Reads-give b))))))

-- A Bind message that is built as the protocol documents it, with names without a NUL, is read back
-- with its names, its format codes and its parameters, NULLs told apart from empty ones, whatever
-- stands behind it.
pub parse_bind-payload :
    (b : ParsedBind) (bs rest : List ℕ)
    → bind_payload b ≡ some bs
    → zero_index b.portal_name ≡ none
    → zero_index b.statement_name ≡ none
    → parse_bind (bs ++ rest) ≡ some b
unfolding parse_bind
parse_bind-payload b bs rest e zp zs = Reads-result read_bind bs rest b (Reads-bind b bs e zp zs)

Reads-sasl :
    (mechanism : List ℕ) (response : Option (List ℕ)) (bs : List ℕ)
    → (cstring mechanism then field response) ≡ some bs
    → zero_index mechanism ≡ none
    → Reads read_sasl bs (mechanism, or_empty response)
unfolding read_sasl
Reads-sasl mechanism response bs e z =
    let (name, last, e_name, e_last, joined) =
      then-some (cstring mechanism) (field response) bs e in
    Reads-eq (joined ∙ ap (λ l. name ++ l) (sym (append-nil last))) (
      Reads-then (λ m. read_value >>> λ r. give (m, or_empty r))
        (Reads-name mechanism name e_name z)
        (Reads-then (λ r. give (mechanism, or_empty r)) (Reads-field response last e_last)
          (Reads-give (mechanism, or_empty response))))

-- A SASLInitialResponse that is built as the protocol documents it, with a mechanism's name without
-- a NUL, is read back with its response, an empty one where it was left out.
pub parse_sasl_initial_response-payload :
    (mechanism : List ℕ) (response : Option (List ℕ)) (bs rest : List ℕ)
    → (cstring mechanism then field response) ≡ some bs
    → zero_index mechanism ≡ none
    → parse_sasl_initial_response (bs ++ rest) ≡ some (mechanism, or_empty response)
unfolding parse_sasl_initial_response
parse_sasl_initial_response-payload mechanism response bs rest e z =
    Reads-result read_sasl bs rest (mechanism, or_empty response)
      (Reads-sasl mechanism response bs e z)
