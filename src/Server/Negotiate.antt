-- ===== src/Server/Negotiate.antt =====
-- pg_mimic/server.py, `_negotiate_startup`: what the first packets of a client ask for. A packet is
-- its code and its payload, as read_startup_packet gives them.
use pg_mimic.Prelude.{
  ℕ, ◌/◌, ◌%◌, Bool, true, false, not, ◌||◌, Option, none, some, List, [], ◌∷◌, nat_beq, ltb,
  if◌then◌else◌, ℤ, pos, negsuc, take, text_beq,
}
use pg_mimic.Prelude.Dict
use pg_mimic.Prelude.Dict.{Dict, lookup-pop}
use pg_mimic.Wire.Messages.Parsers.{parse_cancel_request}
use pg_mimic.Wire.Messages.Startup.{
  ParsedStartup, parsed, bad_string, out_of_fuel, parse_startup_message, text_eq,
}
use pg_mimic.Server.Connections.{same_int}

abbrev pub ssl_request_code : ℕ
ssl_request_code = 80877103

abbrev pub cancel_request_code : ℕ
cancel_request_code = 80877102

abbrev pub gssenc_request_code : ℕ
gssenc_request_code = 80877104

-- "_pq_."
abbrev pub protocol_extension_prefix : List ℕ
protocol_extension_prefix = 95 ∷ 112 ∷ 113 ∷ 95 ∷ 46 ∷ []

-- What it comes to: a CancelRequest, an exception of a parser, ProtocolViolation, ConnectionClosed,
-- a version with the parameters, and the extensions of NegotiateProtocolVersion where it is sent, or
-- `stuck`, where the loop of the model ran out of fuel.
pub data Negotiated : Type 0 where
  cancel_request : ℤ → ℤ → Negotiated
  unreadable : Negotiated
  unsupported : Negotiated
  stuck : Negotiated
  closed : Negotiated
  started : ℕ → Dict (List ℕ) (List ℕ) → Option (List (List ℕ)) → Negotiated

abbrev pub is_extension : List ℕ → Bool
is_extension name = text_beq (take 5 name) protocol_extension_prefix

unfoldable pub extensions : Dict (List ℕ) (List ℕ) → List (List ℕ)
extensions [] = []
extensions ((name, value) ∷ params) =
    let rest = extensions params in if is_extension name then name ∷ rest else rest

-- del params[name] for each
unfoldable pub without : List (List ℕ) → Dict (List ℕ) (List ℕ) → Dict (List ℕ) (List ℕ)
without [] params = params
without (name ∷ names) params = without names (Dict.pop name params)

abbrev pub is_empty : List (List ℕ) → Bool
is_empty [] = true
is_empty (name ∷ names) = false

unfoldable pub negotiate_version : ℕ → ParsedStartup → Negotiated
negotiate_version code bad_string = unreadable
negotiate_version code out_of_fuel = stuck
negotiate_version code (parsed params) = started code (without (extensions params) params) (
    if ltb 0 (code % 65536) || not (is_empty (extensions params))
    then some (extensions params)
    else none)

abbrev pub cancel_of : Option (ℤ × ℤ) → Negotiated
cancel_of none = unreadable
cancel_of (some (pid, secret)) = cancel_request pid secret

unfoldable pub major : ℤ → List ℕ → Negotiated
major (negsuc k) payload = unsupported
major (pos code) payload =
    if nat_beq (code / 65536) 3
    then negotiate_version code (parse_startup_message payload)
    else unsupported

unfoldable pub accept : ℤ × List ℕ → Negotiated
accept (code, payload) =
    if same_int code (pos cancel_request_code)
    then cancel_of (parse_cancel_request payload)
    else major code payload

abbrev pub accept_first : List (ℤ × List ℕ) → Negotiated
accept_first [] = closed
accept_first (packet ∷ packets) = accept packet

unfoldable pub is_encryption_request : ℤ → Bool
is_encryption_request code =
    same_int code (pos ssl_request_code) || same_int code (pos gssenc_request_code)

-- and whether the `N` that declines encryption was sent
unfoldable pub negotiate_startup : List (ℤ × List ℕ) → Bool × Negotiated
negotiate_startup [] = (false, closed)
negotiate_startup (packet ∷ packets) =
    if is_encryption_request (packet.0)
    then (true, accept_first packets)
    else (false, accept packet)
