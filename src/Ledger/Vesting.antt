-- ===== src/Ledger/Vesting.antt =====
-- Vesting schedules of `EnhancedCreditLedger` (legacy/worker/src/daemon/credit_ledger.py). A monthly
-- amount is rounded down to a millionth of a credit.
pub mod Once
pub mod Releases
mod Examples
use distrib_ai.Base.{
  ℕ, zero, suc, ◌+◌, ◌*◌, ◌==◌, Bool, true, false, ◌||◌, Option, none, some, List, [], ◌∷◌, ◌++◌,
  if◌then◌else◌, ltb, Outcome, returned, value_error, index_error, attribute_error, decode_error,
  key_error, zero_division_error,
}
use distrib_ai.Base.Int.{ℤ, pos, ◌+ℤ◌}
use distrib_ai.Base.Dict.{Dict, lookup, insert}
use distrib_ai.Ledger.Types.{Platform, CreditLedger}
use distrib_ai.Ledger.Chain.{credit_to}
use distrib_ai.Ledger.Staking.{StakeInfo, EnhancedCreditLedger, div_ℤ, stake_credits}

pub record Release : Type 0 where
  pub month : ℕ
  pub amount : ℤ
  pub release_time : ℕ
  pub released : Bool

pub record Schedule : Type 0 where
  pub contributor_id : ℕ
  pub total_amount : ℤ
  pub vested_amount : ℤ
  pub monthly_amount : ℤ
  pub vesting_months : ℕ
  pub cliff_months : ℕ
  pub created_at : ℕ
  pub releases : List Release

-- The class with its field `vesting_schedules`.
pub record VestingLedger : Type 0 where
  pub base : EnhancedCreditLedger
  pub vesting_schedules : Dict (List Schedule)

-- The releases from a month on.
unfoldable pub plan_releases : ℤ → ℕ → ℕ → ℕ → ℕ → List Release
plan_releases monthly now cliff month zero = []
plan_releases monthly now cliff month (suc left) =
    record {
      month = month + 1;
      amount = monthly;
      release_time = now + (cliff + month + 1) * 30 * 24 * 3600;
      released = false;
    }
    ∷ plan_releases monthly now cliff (suc month) left

abbrev pub new_schedule : ℕ → ℤ → ℕ → ℕ → ℕ → Schedule
new_schedule c total months cliff now =
    let monthly = div_ℤ total months in
    record {
      contributor_id = c;
      total_amount = total;
      vested_amount = pos 0;
      monthly_amount = monthly;
      vesting_months = months;
      cliff_months = cliff;
      created_at = now;
      releases = plan_releases monthly now cliff 0 months;
    }

abbrev pub schedules_of : ℕ → Dict (List Schedule) → List Schedule
schedules_of c d = elim (lookup c d) [ none ↦ [] | some ss ↦ ss ]

-- What a run through due releases has done: whether it came to the end, the releases, their sum, the
-- amounts that were credited, and the ledger.
pub record Run (A : Type 0) : Type 0 where
  pub finished : Bool
  pub rows : A
  pub processed : List (ℕ × (ℤ × ℕ))
  pub ledger : CreditLedger

pub record Vested : Type 0 where
  pub finished : Bool
  pub releases : List Release
  pub vested : ℤ
  pub processed : List (ℕ × (ℤ × ℕ))
  pub ledger : CreditLedger

abbrev pub is_waiting : ℕ → Release → Bool
is_waiting now r = r.released || ltb now r.release_time

module _ (p : Platform) where
  -- The schedule is stored before the stake, and stays if that raises. The clock is read as `now`, by
  -- `stake` as `staked`, and by `append`. `vesting` is the name of the purpose.
  unfoldable pub create_vesting_schedule :
      ℕ → ℕ → ℤ → ℕ → ℕ → ℕ → ℕ → ℕ → ℕ → VestingLedger → Outcome Schedule × VestingLedger
  create_vesting_schedule vesting c total months cliff now staked t t' v =
      if months == 0
      then (zero_division_error, v)
      else (let s = new_schedule c total months cliff now in
          let (done, e) = stake_credits p c total (months * 30) vesting staked t t' v.base in
          (
            elim done [
              | returned x ↦ returned s
              | value_error ↦ value_error
              | index_error ↦ index_error
              | attribute_error ↦ attribute_error
              | decode_error ↦ decode_error
              | key_error ↦ key_error
              | zero_division_error ↦ zero_division_error
            ],
            record {
              base = e;
              vesting_schedules =
                  insert c (schedules_of c v.vesting_schedules ++ s ∷ []) v.vesting_schedules;
            },
          ))

  -- `vesting_release` is the name of the job. The readings of the clock by `credit` are taken to be
  -- equal, `t`. A `ValueError` of `credit` ends the run.
  unfoldable pub release_due : ℕ → ℕ → ℕ → ℕ → List Release → CreditLedger → Vested
  release_due job c now t [] l = record {
    finished = true;
    releases = [];
    vested = pos 0;
    processed = [];
    ledger = l;
  }
  release_due job c now t (r ∷ rs) l =
      let (credited, l') = credit_to p c r.amount job [] t t t l in
      let skipped = release_due job c now t rs l in
      let rest = release_due job c now t rs l' in
      if is_waiting now r
      then record skipped { releases = r ∷ skipped.releases }
      else elim credited as (λ _. Vested) [
        | returned i ↦ record rest {
          releases = record r { released = true } ∷ rest.releases;
          vested = r.amount +ℤ rest.vested;
          processed = (c, (r.amount, r.month)) ∷ rest.processed;
        }
        | _ ↦ record {
          finished = false;
          releases = r ∷ rs;
          vested = pos 0;
          processed = [];
          ledger = l';
        }
      ]

  -- The schedules of a contributor.
  unfoldable pub release_schedules :
      ℕ → ℕ → ℕ → ℕ → List Schedule → CreditLedger → Run (List Schedule)
  release_schedules job c now t [] l = record {
    finished = true;
    rows = [];
    processed = [];
    ledger = l;
  }
  release_schedules job c now t (s ∷ ss) l =
      let first = release_due job c now t s.releases l in
      let s' = record s {
        releases = first.releases;
        vested_amount = s.vested_amount +ℤ first.vested;
      } in
      let rest = release_schedules job c now t ss first.ledger in
      if first.finished
      then record rest { rows = s' ∷ rest.rows; processed = first.processed ++ rest.processed }
      else record {
        finished = false;
        rows = s' ∷ ss;
        processed = first.processed;
        ledger = first.ledger;
      }

  unfoldable pub release_all :
      ℕ → ℕ → ℕ → Dict (List Schedule) → CreditLedger → Run (Dict (List Schedule))
  release_all job now t [] l = record { finished = true; rows = []; processed = []; ledger = l }
  release_all job now t ((c, ss) ∷ d) l =
      let first = release_schedules job c now t ss l in
      let rest = release_all job now t d first.ledger in
      if first.finished
      then record rest {
        rows = (c, first.rows) ∷ rest.rows;
        processed = first.processed ++ rest.processed;
      }
      else record {
        finished = false;
        rows = (c, first.rows) ∷ d;
        processed = first.processed;
        ledger = first.ledger;
      }

  -- The releases, or a `ValueError`, and what has become of the ledger.
  unfoldable pub process_vesting_releases :
      ℕ → ℕ → ℕ → VestingLedger → Outcome (List (ℕ × (ℤ × ℕ))) × VestingLedger
  process_vesting_releases job now t v =
      let run = release_all job now t v.vesting_schedules v.base.ledger in
      (
        if run.finished then returned run.processed else value_error,
        record { base = record v.base { ledger = run.ledger }; vesting_schedules = run.rows },
      )
