-- ===== src/Arrays/Defs.antt =====
-- Nested Python lists of texts and None.
use pg_mimic.Prelude.{ℕ, suc, List, Bool, true, false, Option}

abbrev pub Element : Type 0
Element = Option (List ℕ)

mutual
  pub data Value : Type 0 where
    scalar : Element → Value
    list : Values → Value

  pub data Values : Type 0 where
    no_values : Values
    value : Value → Values → Values

-- isinstance(node, list)
abbrev pub is_list : Value → Bool
is_list (scalar e) = false
is_list (list vs) = true

-- len(node)
abbrev pub count_values : Values → ℕ
count_values no_values = 0
count_values (value v vs) = suc (count_values vs)
