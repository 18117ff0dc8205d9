-- ===== src/Ledger/Staking/Stats.antt =====
-- What the ledger tells of stakes (`get_staking_stats`, legacy/worker/src/daemon/credit_ledger.py).
use distrib_ai.Base.{ℕ, ◌+◌, Option, none, some, List, [], ◌∷◌, if◌then◌else◌, ltb, length}
use distrib_ai.Base.Int.{ℤ, pos, ◌*ℤ◌}
use distrib_ai.Ledger.Staking.{StakeInfo, EnhancedCreditLedger, div_ℤ, stakes_of, get_staked_amount}

-- An average is given as the sum and the number, which is 1 where there is no stake.
pub record ContributorStats : Type 0 where
  pub contributor_id : ℕ
  pub total_staked : ℤ
  pub active_stakes : ℕ
  pub lock_days : ℕ
  pub averaged_over : ℕ
  pub next_unlock : Option ℕ
  pub estimated_annual_yield : ℤ

pub record NetworkStats : Type 0 where
  pub total_staked_network : ℤ
  pub total_slashed : ℤ
  pub staking_participants : ℕ
  pub average_annual_yield : ℕ
  pub total_slashing_events : ℕ

abbrev pub lock_days_of : List StakeInfo → ℕ
lock_days_of [] = 0
lock_days_of (s ∷ ss) = s.lock_period_days + lock_days_of ss

abbrev pub earliest : ℕ → Option ℕ → ℕ
earliest t none = t
earliest t (some u) = if ltb u t then u else t

abbrev pub next_unlock_of : List StakeInfo → Option ℕ
next_unlock_of [] = none
next_unlock_of (s ∷ ss) = some (earliest s.unlocks_at (next_unlock_of ss))

abbrev pub number_of : List StakeInfo → ℕ
number_of [] = 1
number_of (s ∷ ss) = length (s ∷ ss)

-- `get_staking_stats(contributor_id)`
abbrev pub contributor_stats : ℕ → EnhancedCreditLedger → ContributorStats
contributor_stats c e =
    let ss = stakes_of c e.stakes in
    record {
      contributor_id = c;
      total_staked = get_staked_amount c e;
      active_stakes = length ss;
      lock_days = lock_days_of ss;
      averaged_over = number_of ss;
      next_unlock = next_unlock_of ss;
      estimated_annual_yield = div_ℤ (get_staked_amount c e *ℤ pos e.annual_yield_rate) 100;
    }

-- `get_staking_stats()`
abbrev pub network_stats : EnhancedCreditLedger → NetworkStats
network_stats e = record {
  total_staked_network = e.total_staked;
  total_slashed = e.total_slashed;
  staking_participants = length e.stakes;
  average_annual_yield = e.annual_yield_rate;
  total_slashing_events = length e.slashing_history;
}
