-- ===== src/Ledger/Vesting/Examples.antt =====
-- The theorems on vesting at concrete inputs, and tests (legacy/worker/src/daemon/credit_ledger.py).
use distrib_ai.Base.{ℕ, zero, suc, ◌≡◌, refl, some, [], ◌∷◌, ◌++◌, returned, ◌+◌, ◌*◌, List}
use distrib_ai.Base.Int.{ℤ, pos, negsuc, ◌+ℤ◌, ◌-ℤ◌}
use distrib_ai.Ledger.Types.{Bytes, Payload, credit, Loaded, malformed, object, Platform}
use distrib_ai.Ledger.Chain.{new_ledger, credit_to, add_credit}
use distrib_ai.Ledger.Queries.{get_balance, balance_from}
use distrib_ai.Ledger.Queries.Balance.{LoadsCredits}
use distrib_ai.Ledger.Staking.{new_enhanced}
use distrib_ai.Ledger.Vesting.{
  VestingLedger, new_schedule, plan_releases, release_due, release_schedules, release_all,
  process_vesting_releases,
}
use distrib_ai.Ledger.Vesting.Once.{process_all, marked, planned, process_all-get_balance}
use distrib_ai.Ledger.Vesting.Releases.{paid, process_vesting_releases-get_balance}

dump_amount : ℤ → Bytes
dump_amount (pos n) = 0 ∷ n ∷ []
dump_amount (negsuc n) = 1 ∷ n ∷ []

dump : Payload → Bytes
unfolding dump_amount
dump (credit e) = e.contributor_id ∷ e.job_id ∷ dump_amount e.amount
dump _ = []

members : ℕ → ℕ → ℤ → Loaded
members c j a = object (record { contributor_id = some c; job_id = some j; amount = some a })

load : Bytes → Loaded
unfolding members
load (c ∷ (j ∷ (zero ∷ (n ∷ [])))) = members c j (pos n)
load (c ∷ (j ∷ (suc z ∷ (n ∷ [])))) = members c j (negsuc n)
load _ = malformed

abbrev platform : Platform
unfolding load dump
platform = record {
  sha256 = λ x. x;
  mac = λ key root. key ++ root;
  pack_double = λ t. t ∷ [];
  dumps = dump;
  loads = load;
}

by_amount : (c j : ℕ) (a : ℤ) → load (c ∷ j ∷ dump_amount a) ≡ members c j a
unfolding load dump_amount
by_amount c j (pos n) = refl
by_amount c j (negsuc n) = refl

loads_credits : LoadsCredits platform
unfolding load dump members
loads_credits e = by_amount e.contributor_id e.job_id e.amount

-- 2000 over two months, without a cliff.
abbrev vesting : VestingLedger
vesting = record {
  base = new_enhanced (new_ledger (1 ∷ []) 100) 5;
  vesting_schedules = (1, new_schedule 1 (pos 2000) 2 0 100 ∷ []) ∷ [];
}

-- After 31 days.
abbrev later : ℕ
later = 2678500

one_due :
    (process_vesting_releases platform 9 later later vesting).0 ≡ returned ((1, (pos 1000, 1)) ∷ [])
unfolding plan_releases release_due release_schedules release_all process_vesting_releases credit_to
    add_credit
one_due = refl

balance_before : get_balance platform 1 vesting.base.ledger ≡ returned (pos 0)
unfolding get_balance balance_from
balance_before = refl

process_vesting_releases-get_balance_example :
    get_balance platform 1 (process_vesting_releases platform 9 later later vesting).1.base.ledger
    ≡ returned (
        pos 0
        +ℤ paid 1
            (release_all platform 9 later later vesting.vesting_schedules
              vesting.base.ledger).processed)
process_vesting_releases-get_balance_example =
    process_vesting_releases-get_balance platform 9 later later 1 (pos 0) vesting loads_credits
      balance_before

-- Two calls at the same time, and one two months later.
abbrev calls : List (ℕ × ℕ)
calls = (later, later) ∷ (later, later + 1) ∷ (later * 3, later * 3) ∷ []

all_paid : marked 1 (process_all platform 9 calls vesting).vesting_schedules ≡ pos 2000
unfolding plan_releases release_due release_schedules release_all process_vesting_releases credit_to
    add_credit ◌+ℤ◌
all_paid = refl

process_all-get_balance_example :
    (get_balance platform 1 (process_all platform 9 calls vesting).base.ledger
      ≡ returned (
          pos 0
          +ℤ (marked 1 (process_all platform 9 calls vesting).vesting_schedules
              -ℤ marked 1 vesting.vesting_schedules)))
    × (planned 1 (process_all platform 9 calls vesting).vesting_schedules
        ≡ planned 1 vesting.vesting_schedules)
process_all-get_balance_example =
    process_all-get_balance platform 9 1 (pos 0) calls vesting loads_credits balance_before
