-- ===== src/Server/Params.antt =====
-- The parameters that a session gets from a startup packet (pg_mimic/server.py, `_negotiate_startup`).
use pg_mimic.Prelude.{
  ℕ, ◌≡◌, ◌<◌, ◌≤◌, refl, ap, ◌∙◌, Bool, true, false, none, List, [], ◌∷◌, arith, if◌then◌else◌, ℤ,
  pos, text_beq_iff, Bool-cases, inl, inr,
}
use pg_mimic.Prelude.Dict
use pg_mimic.Prelude.Dict.{Dict, lookup-pop}
use pg_mimic.Prelude.Set.{contains}
use pg_mimic.Wire.Messages.Startup.{parsed, parse_startup_message, text_eq}
use pg_mimic.Server.Connections.{same_int}
use pg_mimic.Server.Negotiate.{
  Negotiated, cancel_request, unreadable, unsupported, stuck, closed, started, is_extension,
  extensions, without, ssl_request_code, negotiate_version, major, accept, is_encryption_request,
  negotiate_startup,
}

abbrev Params : Type 0
Params = Dict (List ℕ) (List ℕ)

lookup-without :
    (name : List ℕ) (names : List (List ℕ)) (d : Params)
    → Dict.lookup name (without names d)
      ≡ (if contains names name then none else Dict.lookup name d)
unfolding without
lookup-without name [] d = refl
lookup-without name (n ∷ names) d =
    ground (arith, lookup-without name names (Dict.pop n d), lookup-pop n name d)

contains-extensions :
    (name : List ℕ) (d : Params) → contains (extensions d) name ≡ true → is_extension name ≡ true
unfolding extensions
contains-extensions name [] h = absurd cc
contains-extensions name ((n, v) ∷ d) h =
    ground (arith, contains-extensions name d, text_beq_iff n name)

lookup-extensions :
    (name : List ℕ) (d : Params)
    → contains (extensions d) name ≡ false
    → is_extension name ≡ true
    → Dict.lookup name d ≡ none
unfolding extensions Dict.lookup
lookup-extensions name [] h e = refl
lookup-extensions name ((n, v) ∷ d) h e =
    ground (arith, lookup-extensions name d, text_beq_iff n name)

lookup-params :
    (name : List ℕ) (d : Params)
    → Dict.lookup name (without (extensions d) d)
      ≡ (if is_extension name then none else Dict.lookup name d)
lookup-params name d = elim (Bool-cases (contains (extensions d) name)) [
  | inl e ↦ lookup-without name (extensions d) d ∙ ground (arith, e, contains-extensions name d e)
  | inr e ↦ lookup-without name (extensions d) d ∙ ground (arith, e, lookup-extensions name d e)
]

abbrev pub params_of : Negotiated → Dict (List ℕ) (List ℕ)
params_of (cancel_request pid secret) = []
params_of unreadable = []
params_of unsupported = []
params_of stuck = []
params_of closed = []
params_of (started code params told) = params

-- a client that asks for TLS first, or one that does not
abbrev pub asking : Bool → List (ℤ × List ℕ) → List (ℤ × List ℕ)
asking true packets = (pos ssl_request_code, []) ∷ packets
asking false packets = packets

accept-started :
    (code : ℕ) (payload : List ℕ) (params : Params)
    → 196608 ≤ code
    → code < 262144
    → parse_startup_message payload ≡ parsed params
    → accept (pos code, payload) ≡ negotiate_version code (parsed params)
unfolding accept major same_int
accept-started code payload params low high e = rw e (ground arith)

params_of-version :
    (code : ℕ) (params : Params)
    → params_of (negotiate_version code (parsed params)) ≡ without (extensions params) params
unfolding negotiate_version
params_of-version code params = refl

negotiate_startup-accept :
    (tls : Bool) (code : ℕ) (payload : List ℕ) (packets : List (ℤ × List ℕ))
    → code < 262144
    → (negotiate_startup (asking tls ((pos code, payload) ∷ packets))).1
      ≡ accept (pos code, payload)
unfolding negotiate_startup is_encryption_request same_int
negotiate_startup-accept true code payload packets high = refl
negotiate_startup-accept false code payload packets high = ground arith

-- A client that speaks protocol 3, in any minor version, gets as its session's parameters those of
-- its startup packet without the names that begin with `_pq_.`, whether it asked for TLS before or
-- not, if the packet is readable.
pub negotiate_startup-params :
    (tls : Bool) (code : ℕ) (payload : List ℕ) (packets : List (ℤ × List ℕ))
    (params : Dict (List ℕ) (List ℕ)) (name : List ℕ)
    → 196608 ≤ code
    → code < 262144
    → parse_startup_message payload ≡ parsed params
    → Dict.lookup name
        (params_of ((negotiate_startup (asking tls ((pos code, payload) ∷ packets))).1))
      ≡ (if is_extension name then none else Dict.lookup name params)
negotiate_startup-params tls code payload packets params name low high e =
    ap (λ r. Dict.lookup name (params_of r))
      (negotiate_startup-accept tls code payload packets high
        ∙ accept-started code payload params low high e)
    ∙ ap (Dict.lookup name) (params_of-version code params)
    ∙ lookup-params name params
