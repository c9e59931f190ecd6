-- ===== src/Middleware/Effect.antt =====
-- An effect of a statement of pg_mimic/middleware.py: it changes the server and its connections,
-- and may raise. What was done before a raise stays done.
use pg_mimic.Prelude.{Result, ok, err}
use pg_mimic.Errors.{Error}

abbrev pub Outcome : Type 0 → Type 0
Outcome W = Result Error (Unit {0}) × W

module _ {W : Type 0} where
  abbrev pub done : W → Outcome W
  done w = (ok tt, w)

  abbrev pub raise : Error → W → Outcome W
  raise e w = (err e, w)

  -- m; f
  abbrev pub continue : Result Error (Unit {0}) → W → (W → Outcome W) → Outcome W
  continue (ok u) w f = f w
  continue (err e) w f = (err e, w)

  infixl 5 ◌>>>◌
  abbrev pub ◌>>>◌ : Outcome W → (W → Outcome W) → Outcome W
  m >>> f = continue m.0 m.1 f
