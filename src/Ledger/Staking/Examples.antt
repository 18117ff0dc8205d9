-- ===== src/Ledger/Staking/Examples.antt =====
-- The theorems of staking at concrete inputs, and tests
-- (legacy/worker/src/daemon/credit_ledger.py). Every record stands for a credit of 50 to name 1 here.
use distrib_ai.Base.{◌≡◌, refl, none, some, List, [], ◌∷◌, ◌++◌}
use distrib_ai.Base.Int.{pos, ◌+ℤ◌}
use distrib_ai.Ledger.Types.{Platform, object}
use distrib_ai.Ledger.Chain.{new_ledger}
use distrib_ai.Ledger.Writes
use distrib_ai.Ledger.Writes.{write_all}
use distrib_ai.Ledger.Staking.{
  StakeInfo, EnhancedCreditLedger, new_enhanced, unstake_credits, take_unlocked, stakes_of,
}
use distrib_ai.Ledger.Staking.Sums.{sum_all, IsTotaled}
use distrib_ai.Ledger.Staking.Totals
use distrib_ai.Ledger.Staking.Totals.{
  Change, change_all, change_all-IsTotaled, unstake_credits_drift,
}

abbrev platform : Platform
platform = record {
  sha256 = λ x. x;
  mac = λ key root. key ++ root;
  pack_double = λ t. t ∷ [];
  dumps = λ q. [];
  loads = λ b. object (record { contributor_id = some 1; job_id = some 2; amount = some (pos 50) });
}

abbrev start : EnhancedCreditLedger
start = new_enhanced (write_all platform (Writes.append [] 10 11 ∷ []) (new_ledger (1 ∷ []) 100)) 5

abbrev changes : List Change
changes =
    Totals.stake 1 (pos 20) 0 3 20 21 22
    ∷ Totals.slash 1 (some (pos 50)) 1 30 31 32
    ∷ Totals.unstake_at 7 1 0 40 41 42 43 44 45
    ∷ []

change_all-IsTotaled_example : IsTotaled (change_all platform changes start)
change_all-IsTotaled_example = change_all-IsTotaled platform changes start refl

-- A stake of 20 that was slashed by half.
abbrev slashed : StakeInfo
slashed = record {
  contributor_id = 1;
  amount = pos 10;
  staked_at = 20;
  lock_period_days = 0;
  unlocks_at = 20;
  purpose = 3;
  slashed_amount = pos 10;
}

abbrev after_slash : EnhancedCreditLedger
after_slash = record start {
  stakes = (1, slashed ∷ []) ∷ [];
  total_staked = pos 10;
  total_slashed = pos 10;
}

after_slash-IsTotaled : IsTotaled after_slash
unfolding ◌+ℤ◌
after_slash-IsTotaled = refl

oldest : take_unlocked 40 (stakes_of 1 after_slash.stakes) ≡ some (slashed, [])
unfolding take_unlocked
oldest = refl

unstake_credits_drift_example :
    (unstake_credits platform 7 1 none 40 41 42 43 44 45 after_slash).1.total_staked
    ≡ sum_all (unstake_credits platform 7 1 none 40 41 42 43 44 45 after_slash).1.stakes +ℤ pos 10
unstake_credits_drift_example =
    unstake_credits_drift platform 7 1 40 41 42 43 44 45 slashed [] after_slash
      after_slash-IsTotaled oldest
