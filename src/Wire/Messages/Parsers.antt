-- ===== src/Wire/Messages/Parsers.antt =====
-- pg_mimic/messages.py, the parsers of payloads, and types.py, `read_cstring`.
use pg_mimic.Prelude.{
  ℕ, zero, suc, ◌+◌, List, [], ◌∷◌, Option, none, some, take, drop, nat_beq, if◌then◌else◌, ℤ,
  to_nat,
}
use pg_mimic.Wire.Ints.{unpack_int32, unpack_int16}
use pg_mimic.Wire.Utf8.{decode}

-- data.index(b"\x00"): the place of the first zero byte
unfoldable pub zero_index : List ℕ → Option ℕ
zero_index [] = none
zero_index (b ∷ s) =
    let rest = zero_index s in
    if nat_beq b 0 then some 0 else elim rest [ none ↦ none | some i ↦ some (suc i) ]

unfoldable pub with_offset : Option (List ℕ) → ℕ → Option (List ℕ × ℕ)
with_offset none offset = none
with_offset (some s) offset = some (s, offset)

unfoldable pub cut_cstring : Option ℕ → List ℕ → ℕ → Option (List ℕ × ℕ)
cut_cstring none s offset = none
cut_cstring (some n) s offset = with_offset (decode (take n s)) (offset + n + 1)

-- the string at the offset, and the offset after its zero byte
unfoldable pub read_cstring : List ℕ → ℕ → Option (List ℕ × ℕ)
read_cstring bytes offset = cut_cstring (zero_index (drop offset bytes)) (drop offset bytes) offset

infixl 5 ◌and_then◌
abbrev pub ◌and_then◌ : {A B : Type 0} → Option A → (A → Option B) → Option B
none and_then f = none
some a and_then f = f a

unfoldable pub parse_query : List ℕ → Option (List ℕ)
parse_query payload = read_cstring payload 0 and_then λ sql. some (sql.0)

-- `n` integers from the offset on
unfoldable pub read_int32s : ℕ → List ℕ → ℕ → Option (List ℤ)
read_int32s zero payload offset = some []
read_int32s (suc n) payload offset = unpack_int32 payload offset and_then λ z.
    read_int32s n payload (offset + 4) and_then λ rest. some (z ∷ rest)

pub record ParsedParse : Type 0 where
  pub statement_name : List ℕ
  pub sql : List ℕ
  pub param_oids : List ℤ

unfoldable pub parse_parse : List ℕ → Option ParsedParse
parse_parse payload = read_cstring payload 0 and_then λ name.
    read_cstring payload (name.1) and_then λ sql. unpack_int16 payload (sql.1) and_then λ num_oids.
    read_int32s (to_nat num_oids) payload (sql.1 + 2) and_then λ oids.
    some (record { statement_name = name.0; sql = sql.0; param_oids = oids })

pub record ParsedExecute : Type 0 where
  pub portal_name : List ℕ
  pub max_rows : ℤ

unfoldable pub parse_execute : List ℕ → Option ParsedExecute
parse_execute payload = read_cstring payload 0 and_then λ name.
    unpack_int32 payload (name.1) and_then λ max_rows.
    some (record { portal_name = name.0; max_rows = max_rows })

pub record ParsedDescribeOrClose : Type 0 where
  pub target : ℕ
  pub name : List ℕ

unfoldable pub parse_describe : List ℕ → Option ParsedDescribeOrClose
parse_describe [] = none
parse_describe (kind ∷ rest) =
    read_cstring (kind ∷ rest) 1 and_then λ name. some (record { target = kind; name = name.0 })

unfoldable pub parse_close : List ℕ → Option ParsedDescribeOrClose
parse_close payload = parse_describe payload

unfoldable pub parse_copy_fail : List ℕ → Option (List ℕ)
parse_copy_fail payload = read_cstring payload 0 and_then λ reason. some (reason.0)

unfoldable pub parse_cancel_request : List ℕ → Option (ℤ × ℤ)
parse_cancel_request payload = unpack_int32 payload 0 and_then λ pid.
    unpack_int32 payload 4 and_then λ secret. some (pid, secret)
