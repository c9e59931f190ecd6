-- ===== src/Wire/Messages/Startup.antt =====
-- pg_mimic/messages.py, `parse_startup_message`: key and value strings up to a lone zero byte.
use pg_mimic.Prelude.{
  Eq, ℕ, zero, suc, ◌+◌, ◌<◌, ◌≤◌, ◌-◌, ◌≡◌, refl, sym, ap, arith, Option-cases, Bool, true, false,
  Bool-cases, ◌∙◌, inl, inr, length-drop, List, [], ◌∷◌, Option, none, some, take, drop, length,
  nat_beq, if◌then◌else◌,
}
use pg_mimic.Prelude.Dict
use pg_mimic.Prelude.Dict.{Dict}
use pg_mimic.Prelude.{text_beq, text_beq_iff}
use pg_mimic.Wire.Utf8.{decode}
use pg_mimic.Wire.Messages.Parsers.{zero_index, with_offset, cut_cstring, read_cstring}

instance abbrev pub text_eq : Eq (List ℕ)
text_eq = record { beq = text_beq; beq_iff = text_beq_iff }

-- The parameters, the ValueError of a string that does not read, or a loop of the model that ran
-- out of fuel.
pub data ParsedStartup : Type 0 where
  parsed : Dict (List ℕ) (List ℕ) → ParsedStartup
  bad_string : ParsedStartup
  out_of_fuel : ParsedStartup

abbrev pub after_string : Option (List ℕ × ℕ) → (List ℕ × ℕ → ParsedStartup) → ParsedStartup
after_string none f = bad_string
after_string (some p) f = f p

-- The loop, with fuel for its turns: each moves the offset on by two bytes at least. `left` is the
-- payload from the offset on.
unfoldable pub startup_loop : ℕ → List ℕ → List ℕ → ℕ → Dict (List ℕ) (List ℕ) → ParsedStartup
startup_loop zero payload left offset params = out_of_fuel
startup_loop (suc fuel) payload [] offset params = parsed params
startup_loop (suc fuel) payload (b ∷ left) offset params =
    if nat_beq b 0
    then parsed params
    else after_string (read_cstring payload offset) (λ key.
      after_string (read_cstring payload (key.1)) (λ value.
        startup_loop fuel payload (drop (value.1) payload) (value.1)
          (Dict.insert (key.0) (value.0) params)))

unfoldable pub parse_startup_message : List ℕ → ParsedStartup
parse_startup_message payload = startup_loop (suc (length payload)) payload payload 0 []

end_of : Option (List ℕ × ℕ) → ℕ
end_of none = 0
end_of (some p) = p.1

with_offset-end :
    (o : Option (List ℕ)) (offset : ℕ) (p : List ℕ × ℕ)
    → with_offset o offset ≡ some p
    → p.1 ≡ offset
unfolding with_offset end_of
with_offset-end none offset p e = absurd cc
with_offset-end (some s) offset p e = sym (ap end_of e)

cut_cstring-advances :
    (o : Option ℕ) (s : List ℕ) (offset : ℕ) (p : List ℕ × ℕ)
    → cut_cstring o s offset ≡ some p
    → offset < p.1
unfolding cut_cstring
cut_cstring-advances none s offset p e = absurd cc
cut_cstring-advances (some n) s offset p e =
    omega (arith, with_offset-end (decode (take n s)) (offset + n + 1) p e)

read_cstring-advances :
    (bytes : List ℕ) (offset : ℕ) (p : List ℕ × ℕ)
    → read_cstring bytes offset ≡ some p
    → offset < p.1
unfolding read_cstring
read_cstring-advances bytes offset p e =
    cut_cstring-advances (zero_index (drop offset bytes)) (drop offset bytes) offset p e

abbrev is_out_of_fuel : ParsedStartup → Bool
is_out_of_fuel out_of_fuel = true
is_out_of_fuel _ = false

-- A continuation that returns at every later offset.
after_string-returns :
    (bytes : List ℕ) (offset : ℕ) (f : List ℕ × ℕ → ParsedStartup)
    → ((p : List ℕ × ℕ) → offset < p.1 → is_out_of_fuel (f p) ≡ false)
    → is_out_of_fuel (after_string (read_cstring bytes offset) f) ≡ false
after_string-returns bytes offset f h = elim (Option-cases (read_cstring bytes offset)) [
  | inl e ↦ rw e refl
  | inr (p, e) ↦ rw e (h p (read_cstring-advances bytes offset p e))
]

-- Fuel for more bytes than are left is enough.
startup_loop-returns :
    (fuel : ℕ) (payload left : List ℕ) (offset : ℕ) (params : Dict (List ℕ) (List ℕ))
    → length left < fuel
    → length payload - offset ≤ length left
    → is_out_of_fuel (startup_loop fuel payload left offset params) ≡ false
unfolding startup_loop
startup_loop-returns zero payload left offset params h b = absurd (omega arith)
startup_loop-returns (suc fuel) payload [] offset params h b = refl
startup_loop-returns (suc fuel) payload (c ∷ left) offset params h b =
    elim (Bool-cases (nat_beq c 0)) [
      | inl e ↦ rw e refl
      | inr e ↦ rw e (
          after_string-returns payload offset _ (λ key later.
            after_string-returns payload (key.1) _ (λ value last.
              startup_loop-returns fuel payload (drop (value.1) payload) (value.1)
                (Dict.insert (key.0) (value.0) params)
                (omega (arith, later, last, length-drop (value.1) payload))
                (omega (arith, later, last, length-drop (value.1) payload)))))
    ]

-- The loop of `parse_startup_message` ends on every payload within the fuel given: with the
-- parameters, or with the exception of a string that does not read.
pub parse_startup_message-returns :
    (payload : List ℕ) → ¬ (parse_startup_message payload ≡ out_of_fuel)
unfolding parse_startup_message
parse_startup_message-returns payload e = absurd (
    true_false (
      sym (ap is_out_of_fuel e)
      ∙ startup_loop-returns (suc (length payload)) payload payload 0 [] (omega arith)
          (omega arith)))
  where
    true_false : ¬ (true ≡ false)
    true_false h = absurd cc
