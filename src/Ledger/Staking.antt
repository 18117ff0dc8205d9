-- ===== src/Ledger/Staking.antt =====
-- `EnhancedCreditLedger` (legacy/worker/src/daemon/credit_ledger.py): stakes, slashing and yields
-- over the records of the ledger. A rate or a fraction is a number of percents, and a product with
-- one is rounded down to a millionth of a credit.
pub mod Sums
pub mod Totals
pub mod Stats
mod Examples
use distrib_ai.Base.{
  ℕ, zero, suc, ◌+◌, ◌-◌, ◌*◌, ◌/◌, ◌==◌, Bool, true, false, Option, none, some, List, [], ◌∷◌,
  ◌++◌, if◌then◌else◌, ltb, leb, get_elem?, remove, keep, length, Outcome, returned, value_error,
  index_error, attribute_error, decode_error, key_error, zero_division_error,
}
use distrib_ai.Base.Int.{ℤ, pos, negsuc, ◌+ℤ◌, ◌-ℤ◌, ◌*ℤ◌, ltb_ℤ, sum_ℤ}
use distrib_ai.Base.Dict.{Dict, lookup, insert}
use distrib_ai.Ledger.Types.{Bytes, Platform, stake, unstake, slash, CreditLedger}
use distrib_ai.Ledger.Chain.{append, credit_to}
use distrib_ai.Ledger.Queries.{get_balance}

pub record StakeInfo : Type 0 where
  pub contributor_id : ℕ
  pub amount : ℤ
  pub staked_at : ℕ
  pub lock_period_days : ℕ
  pub unlocks_at : ℕ
  pub purpose : ℕ
  pub slashed_amount : ℤ

-- An entry of `slashing_history`, which is also written to the ledger.
pub record SlashRecord : Type 0 where
  pub contributor_id : ℕ
  pub amount : ℤ
  pub fraction : ℤ
  pub reason : ℕ
  pub timestamp : ℕ

-- The fields of the class but `vesting_schedules`.
pub record EnhancedCreditLedger : Type 0 where
  pub ledger : CreditLedger
  pub stakes : Dict (List StakeInfo)
  pub annual_yield_rate : ℕ
  pub slashing_history : List SlashRecord
  pub total_staked : ℤ
  pub total_slashed : ℤ

-- `EnhancedCreditLedger(signing_key, batch_size, annual_yield_rate)` behind `super().__init__`.
abbrev pub new_enhanced : CreditLedger → ℕ → EnhancedCreditLedger
new_enhanced l rate = record {
  ledger = l;
  stakes = [];
  annual_yield_rate = rate;
  slashing_history = [];
  total_staked = pos 0;
  total_slashed = pos 0;
}

-- Rounding down.
abbrev pub div_ℤ : ℤ → ℕ → ℤ
div_ℤ (pos n) k = pos (n / k)
div_ℤ (negsuc n) k = negsuc (n / k)

-- `self.stakes.get(contributor_id, [])`
abbrev pub stakes_of : ℕ → Dict (List StakeInfo) → List StakeInfo
stakes_of c stakes = elim (lookup c stakes) [ none ↦ [] | some xs ↦ xs ]

abbrev pub sum_stakes : List StakeInfo → ℤ
sum_stakes [] = pos 0
sum_stakes (x ∷ xs) = x.amount +ℤ sum_stakes xs

abbrev pub get_staked_amount : ℕ → EnhancedCreditLedger → ℤ
get_staked_amount c e = sum_stakes (stakes_of c e.stakes)

-- `_calculate_yield`, for an end that is not before the start; a day has 86400 seconds, a year 365
-- days.
unfoldable pub calculate_yield : ℤ → ℕ → ℕ → EnhancedCreditLedger → ℤ
calculate_yield amount start end e =
    div_ℤ (amount *ℤ pos (e.annual_yield_rate * (end - start))) (100 * 365 * 24 * 3600)

-- The reasons, numbered in their order, and their percents; 10 for any other.
abbrev pub slashing_rules : Dict ℤ
slashing_rules = (1, pos 50) ∷ (2, pos 30) ∷ (3, pos 100) ∷ (4, pos 10) ∷ (5, pos 5) ∷ []

abbrev pub slashing_rule : ℕ → ℤ
slashing_rule reason = elim (lookup reason slashing_rules) [ none ↦ pos 10 | some f ↦ f ]

-- `max(0.0, min(1.0, fraction))`
abbrev pub clamp_fraction : ℤ → ℤ
clamp_fraction x =
    let capped = if ltb_ℤ x (pos 100) then x else pos 100 in
    if ltb_ℤ (pos 0) capped then capped else pos 0

abbrev pub slash_amount : ℤ → StakeInfo → ℤ
slash_amount fraction x = div_ℤ (x.amount *ℤ fraction) 100

abbrev pub slash_stake : ℤ → StakeInfo → StakeInfo
slash_stake fraction x = record x {
  slashed_amount = x.slashed_amount +ℤ slash_amount fraction x;
  amount = x.amount -ℤ slash_amount fraction x;
}

-- The loop of `slash`: the stakes, and what they lost.
unfoldable pub slash_all : ℤ → List StakeInfo → List StakeInfo × ℤ
slash_all fraction [] = ([], pos 0)
slash_all fraction (x ∷ xs) =
    let (rest, total) = slash_all fraction xs in
    (slash_stake fraction x ∷ rest, slash_amount fraction x +ℤ total)

-- The loop of `unstake` without an index: the first stake that is unlocked, and the others.
unfoldable pub take_unlocked : ℕ → List StakeInfo → Option (StakeInfo × List StakeInfo)
take_unlocked now [] = none
take_unlocked now (x ∷ xs) =
    let rest = take_unlocked now xs in
    if leb x.unlocks_at now
    then some (x, xs)
    else elim rest [ none ↦ none | some (y, ys) ↦ some (y, x ∷ ys) ]

-- The stake that `unstake` takes, what it releases, and the stakes that are left. An index is not
-- negative.
unfoldable pub choose_stake :
    Option ℕ → ℕ → List StakeInfo → Outcome (StakeInfo × ℤ × List StakeInfo)
choose_stake none now xs = elim (take_unlocked now xs) [
  | none ↦ value_error
  | some (x, rest) ↦ returned (x, x.amount -ℤ x.slashed_amount, rest)
]
choose_stake (some i) now xs = elim (get_elem? xs i) [
  | none ↦ index_error
  | some x ↦ if ltb now x.unlocks_at then value_error else returned (x, x.amount, remove xs i)
]

-- The part of `unstake` before the yield: the stake leaves the list, and the total shrinks.
abbrev pub release : ℕ → ℤ → List StakeInfo → EnhancedCreditLedger → EnhancedCreditLedger
release c unstaked rest e = record e {
  stakes = insert c rest e.stakes;
  total_staked = e.total_staked -ℤ unstaked;
}

-- The part of `stake` before the record.
abbrev pub add_stake : StakeInfo → EnhancedCreditLedger → EnhancedCreditLedger
add_stake x e = record e {
  stakes = insert x.contributor_id (stakes_of x.contributor_id e.stakes ++ x ∷ []) e.stakes;
  total_staked = e.total_staked +ℤ x.amount;
}

module _ (p : Platform) where
  -- The clock is read as `now`, then by `append`.
  unfoldable pub stake_credits :
      ℕ → ℤ → ℕ → ℕ → ℕ → ℕ → ℕ → EnhancedCreditLedger → Outcome StakeInfo × EnhancedCreditLedger
  stake_credits c amount days purpose now t t' e = elim (get_balance p c e.ledger) [
    | returned balance ↦
        if ltb_ℤ (balance -ℤ get_staked_amount c e) amount
        then (value_error, e)
        else (let x : StakeInfo = record {
          contributor_id = c;
          amount = amount;
          staked_at = now;
          lock_period_days = days;
          unlocks_at = now + days * 24 * 3600;
          purpose = purpose;
          slashed_amount = pos 0;
        } in
            let content = p.dumps (stake c amount days purpose (now + days * 24 * 3600)) in
            (returned x, record (add_stake x e) { ledger = (append p content t t' e.ledger).1 }))
    | value_error ↦ (value_error, e)
    | index_error ↦ (index_error, e)
    | attribute_error ↦ (attribute_error, e)
    | decode_error ↦ (decode_error, e)
    | key_error ↦ (key_error, e)
    | zero_division_error ↦ (zero_division_error, e)
  ]

  -- The end of `unstake`: the yield is credited, which raises `ValueError` if it is negative, and
  -- then the release is recorded. `yield_job` is the name "staking_yield".
  unfoldable pub pay_out :
      (yield_job : ℕ)
      → ℕ
      → StakeInfo
      → ℤ
      → List StakeInfo
      → ℕ
      → ℕ
      → ℕ
      → ℕ
      → ℕ
      → ℕ
      → EnhancedCreditLedger
      → Outcome ℤ × EnhancedCreditLedger
  pay_out yield_job c x unstaked rest now written t t' u u' e =
      let yield_amount = calculate_yield unstaked x.staked_at now e in
      let total = unstaked +ℤ yield_amount in
      let (credited, l) = credit_to p c yield_amount yield_job [] written t t' e.ledger in
      let content = p.dumps (unstake c unstaked yield_amount total) in
      (
        elim credited [ returned i ↦ returned total | _ ↦ value_error ],
        record (release c unstaked rest e) {
          ledger = elim credited [ returned i ↦ (append p content u u' l).1 | _ ↦ l ];
        },
      )

  -- The clock is read as `now`, by `credit` as `written`, `t` and `t'`, then by `append`.
  unfoldable pub unstake_credits :
      (yield_job : ℕ)
      → ℕ
      → Option ℕ
      → ℕ
      → ℕ
      → ℕ
      → ℕ
      → ℕ
      → ℕ
      → EnhancedCreditLedger
      → Outcome ℤ × EnhancedCreditLedger
  unstake_credits yield_job c index now written t t' u u' e = elim (stakes_of c e.stakes) [
    | [] ↦ (value_error, e)
    | s ∷ ss ↦ elim (choose_stake index now (s ∷ ss)) as (λ _. Outcome ℤ × EnhancedCreditLedger) [
      | returned (x, unstaked, rest) ↦ pay_out yield_job c x unstaked rest now written t t' u u' e
      | index_error ↦ (index_error, e)
      | _ ↦ (value_error, e)
    ]
  ]

  -- The clock is read as `now`, then by `append`.
  unfoldable pub slash_stakes :
      ℕ → Option ℤ → ℕ → ℕ → ℕ → ℕ → EnhancedCreditLedger → ℤ × EnhancedCreditLedger
  slash_stakes c fraction reason now t t' e = elim (lookup c e.stakes) [
    | none ↦ (pos 0, e)
    | some xs ↦
        (let f = clamp_fraction (elim fraction [ none ↦ slashing_rule reason | some x ↦ x ]) in
          let (slashed, total) = slash_all f xs in
          (
            total,
            record e {
              stakes = insert c slashed e.stakes;
              total_slashed = e.total_slashed +ℤ total;
              total_staked = e.total_staked -ℤ total;
              slashing_history =
                  e.slashing_history
                  ++ record {
                    contributor_id = c;
                    amount = total;
                    fraction = f;
                    reason = reason;
                    timestamp = now;
                  }
                    ∷ [];
              ledger = (append p (p.dumps (slash c total f reason now)) t t' e.ledger).1;
            },
          ))
  ]

-- `get_available_balance` of a balance that could be read.
abbrev pub available : ℤ → ℤ → ℤ
available balance staked = if ltb_ℤ (pos 0) (balance -ℤ staked) then balance -ℤ staked else pos 0

-- `get_slashed_history`; without a name it is the whole history.
pub get_slashed_history : Option ℕ → EnhancedCreditLedger → List SlashRecord
get_slashed_history none e = e.slashing_history
get_slashed_history (some c) e =
    if c == 0 then e.slashing_history else keep (λ s. s.contributor_id == c) e.slashing_history
