-- ===== src/Credits/Multipliers/Examples.antt =====
-- The theorems on multipliers at concrete inputs, and tests
-- (legacy/services_python/credit_multipliers.py).
use distrib_ai.Base.{ℕ, ◌≡◌, refl, true, false, some, none, List, [], ◌∷◌, arith}
use distrib_ai.Base.Int.{ℤ, pos, ◌+ℤ◌, ◌-ℤ◌, ◌*ℤ◌, ◌≤ℤ◌}
use distrib_ai.Credits.Multipliers.{
  NodeMultiplierState, CreditMultiplierEngine, final, new_engine, new_state, put_state,
  calculate_multipliers, multipliers_of, trigger_surge, set_early_adopter, earn, calculate_credits,
  round_ℤ,
}
use distrib_ai.Credits.Multipliers.Caps.{earn_all, earn_all-bound}

-- The engine starts at 1000, and a surge of an hour at 2000.
abbrev engine : CreditMultiplierEngine
engine = trigger_surge 3600 2000 (new_engine (pos 5000) 1000)

-- A new node that opts in gets 1.5 * 1.1 * 2.0.
surge_boosted : final (calculate_multipliers 7 (some true) 2100 2100 2100 engine).0 ≡ 3300000
unfolding calculate_multipliers multipliers_of
surge_boosted = refl

-- The multiplier for early adopters is applied also after it was switched off.
still_early :
    final
      (calculate_multipliers 7 none 2100 2100 9000 (set_early_adopter 7 false 2100 2100 engine)).0
    ≡ 1100000
unfolding calculate_multipliers multipliers_of set_early_adopter
still_early = refl

-- A node with a hundred tasks completed and one failed.
abbrev tried : CreditMultiplierEngine
tried =
    put_state 7 (record (new_state 7 1000 2000) { tasks_completed = 100; tasks_failed = 1 }) engine

abbrev worker : NodeMultiplierState
worker = new_state 7 1000 2000

abbrev amounts : List (ℤ × ℕ)
amounts = (pos 3000, 2100) ∷ (pos 3000, 2200) ∷ []

capped : (earn_all (pos 5000) amounts worker).0 ≡ pos 5000
unfolding earn ◌+ℤ◌ ◌-ℤ◌
capped = refl

earn_all-bound_example : (earn_all (pos 5000) amounts worker).0 ≤ℤ pos 5000 -ℤ pos 0
earn_all-bound_example =
    earn_all-bound (pos 5000) amounts worker (omega arith) (omega arith, (omega arith, tt))

-- The answer is rounded to hundredths, and the state is not: 1.234567 credits with a multiplier of 1.1.
rounded :
    (calculate_credits 7
      (pos 1234567)
      none
      2100
      2100
      9000
      2100
      (record engine { velocity_cap = pos 9000000000000 })).0.capped_credits
    ≡ pos 136
unfolding calculate_credits calculate_multipliers multipliers_of earn round_ℤ ◌+ℤ◌ ◌-ℤ◌ ◌*ℤ◌
rounded = refl
