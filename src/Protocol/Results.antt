-- ===== src/Protocol/Results.antt =====
-- The messages that the simple and the extended protocol have in common.
use pg_mimic.Prelude.{
  ◌≡◌, refl, sym, ◌∙◌, Bool, true, false, List, [], ◌∷◌, ◌++◌, append-nil, if◌then◌else◌, ap,
}
use pg_mimic.Messages.Backend.{Backend, parse_complete, bind_complete, no_data}

-- the messages that only the extended protocol has
abbrev pub is_handshake : Backend → Bool
is_handshake parse_complete = true
is_handshake bind_complete = true
is_handshake no_data = true
is_handshake _ = false

-- the messages of both
abbrev pub results : List Backend → List Backend
results [] = []
results (m ∷ ms) = let rest = results ms in if is_handshake m then rest else m ∷ rest

results-cons :
    (skipped : Bool) (m : Backend) (a b : List Backend)
    → results (a ++ b) ≡ results a ++ results b
    → (if skipped then results (a ++ b) else m ∷ results (a ++ b))
      ≡ (if skipped then results a else m ∷ results a) ++ results b
results-cons true m a b h = h
results-cons false m a b h = ap (λ l. m ∷ l) h

pub results-append : (a b : List Backend) → results (a ++ b) ≡ results a ++ results b
results-append [] b = refl
results-append (m ∷ a) b = results-cons (is_handshake m) m a b (results-append a b)

-- lists with the same results, continued by such lists
pub same_end :
    (a b c d : List Backend)
    → results a ≡ results b
    → results c ≡ results d
    → results (a ++ c) ≡ results (b ++ d)
same_end a b c d h k = results-append a c ∙ rw (h, k) (sym (results-append b d))

pub results-handshake :
    (a : List Backend) (m : Backend) → is_handshake m ≡ true → results (a ++ m ∷ []) ≡ results a
results-handshake a m h = results-append a (m ∷ []) ∙ rw h (append-nil (results a))
