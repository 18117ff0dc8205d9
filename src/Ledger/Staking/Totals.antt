-- ===== src/Ledger/Staking/Totals.antt =====
-- `total_staked` beside the stakes (legacy/worker/src/daemon/credit_ledger.py,
-- `EnhancedCreditLedger`).
use distrib_ai.Base.{
  ℕ, ◌+◌, ◌*◌, ◌≡◌, ◌∙◌, sym, ap, refl, Option, none, some, List, [], ◌∷◌, arith, Outcome, returned,
  Option-cases, inl, inr,
}
use distrib_ai.Base.Int.{ℤ, pos, ◌+ℤ◌, ◌-ℤ◌}
use distrib_ai.Base.Dict.{Dict, lookup, insert}
use distrib_ai.Ledger.Types.{Platform}
use distrib_ai.Ledger.Staking.{
  StakeInfo, EnhancedCreditLedger, stakes_of, sum_stakes, choose_stake, take_unlocked, pay_out,
  stake_credits, unstake_credits, slash_stakes,
}
use distrib_ai.Ledger.Staking.Sums.{
  sum_all, IsTotaled, sum_all-insert, none_is_none, take_unlocked-sum, add_stake-IsTotaled,
  reduced-IsTotaled, slashed-IsTotaled, choose_stake-sum, oldest_choice, drift_shift,
  choose_stake-amount,
}

module _ (p : Platform) where
  stake_credits-IsTotaled :
      (c : ℕ) (amount : ℤ) (days purpose now t t' : ℕ) (e : EnhancedCreditLedger)
      → IsTotaled e
      → IsTotaled (stake_credits p c amount days purpose now t t' e).1
  unfolding stake_credits
  stake_credits-IsTotaled c amount days purpose now t t' e h =
      let x : StakeInfo = record {
        contributor_id = c;
        amount = amount;
        staked_at = now;
        lock_period_days = days;
        unlocks_at = now + days * 24 * 3600;
        purpose = purpose;
        slashed_amount = pos 0;
      } in
      let added = add_stake-IsTotaled x e h in ground (arith, h, added)

  slash_stakes-IsTotaled :
      (c : ℕ) (fraction : Option ℤ) (reason now t t' : ℕ) (e : EnhancedCreditLedger)
      → IsTotaled e
      → IsTotaled (slash_stakes p c fraction reason now t t' e).1
  unfolding slash_stakes
  slash_stakes-IsTotaled c fraction reason now t t' e h = elim (Option-cases (lookup c e.stakes)) [
    | inl k ↦ rw (k, slash_stakes) h
    | inr (xs, k) ↦ rw (k, slash_stakes) (slashed-IsTotaled c _ xs e h k)
  ]

  -- The outcome of the choice decides what `unstake` does to the stakes and the total.
  unstake_credits-cases :
      (job c : ℕ) (index : Option ℕ) (now written t t' u u' : ℕ) (e : EnhancedCreditLedger)
      (P : ℤ → Dict (List StakeInfo) → Type 0)
      → P e.total_staked e.stakes
      → ((x : StakeInfo) (a : ℤ) (rest : List StakeInfo)
          → choose_stake index now (stakes_of c e.stakes) ≡ returned (x, a, rest)
          → P (e.total_staked -ℤ a) (insert c rest e.stakes))
      → P
          (unstake_credits p job c index now written t t' u u' e).1.total_staked
          (unstake_credits p job c index now written t t' u u' e).1.stakes
  unfolding unstake_credits pay_out
  unstake_credits-cases job c index now written t t' u u' e P same taken =
      by_stakes (stakes_of c e.stakes) refl
    where
      by_stakes :
          (xs : List StakeInfo)
          → stakes_of c e.stakes ≡ xs
          → P
              (unstake_credits p job c index now written t t' u u' e).1.total_staked
              (unstake_credits p job c index now written t t' u u' e).1.stakes
      by_stakes [] k = rw (k, unstake_credits) same
      by_stakes (y ∷ ys) k = by_choice (choose_stake index now (y ∷ ys)) refl
        where
          by_choice :
              (o : Outcome (StakeInfo × ℤ × List StakeInfo))
              → choose_stake index now (y ∷ ys) ≡ o
              → P
                  (unstake_credits p job c index now written t t' u u' e).1.total_staked
                  (unstake_credits p job c index now written t t' u u' e).1.stakes
          by_choice (returned (x, a, rest)) w = rw (k, w, unstake_credits) (taken x a rest (rw k w))
          by_choice _ w = rw (k, w, unstake_credits) same

  unstake_credits-IsTotaled :
      (job c i now written t t' u u' : ℕ) (e : EnhancedCreditLedger)
      → IsTotaled e
      → IsTotaled (unstake_credits p job c (some i) now written t t' u u' e).1
  unstake_credits-IsTotaled job c i now written t t' u u' e h =
      unstake_credits-cases job c (some i) now written t t' u u' e
        (λ total stakes. total ≡ sum_all stakes) h
        (λ x a rest k.
          let whole = choose_stake-amount i now (stakes_of c e.stakes) x a rest k in
          let left = choose_stake-sum (some i) now (stakes_of c e.stakes) x a rest k in
          reduced-IsTotaled c a rest e h
            (left ∙ ap (λ r. sum_stakes (stakes_of c e.stakes) -ℤ r) (sym whole)))

-- A call that changes the stakes, with what it reads of the clock.
pub data Change : Type 0 where
  stake : (contributor : ℕ) (amount : ℤ) (days purpose now t t' : ℕ) → Change
  unstake_at : (job contributor index now written t t' u u' : ℕ) → Change
  slash : (contributor : ℕ) (fraction : Option ℤ) (reason now t t' : ℕ) → Change

module _ (p : Platform) where
  unfoldable pub change : Change → EnhancedCreditLedger → EnhancedCreditLedger
  change (stake c amount days purpose now t t') e =
      (stake_credits p c amount days purpose now t t' e).1
  change (unstake_at job c i now written t t' u u') e =
      (unstake_credits p job c (some i) now written t t' u u' e).1
  change (slash c fraction reason now t t') e = (slash_stakes p c fraction reason now t t' e).1

  unfoldable pub change_all : List Change → EnhancedCreditLedger → EnhancedCreditLedger
  unfolding change
  change_all [] e = e
  change_all (x ∷ xs) e = change_all xs (change x e)

  change-IsTotaled : (x : Change) (e : EnhancedCreditLedger) → IsTotaled e → IsTotaled (change x e)
  unfolding change
  change-IsTotaled (stake c amount days purpose now t t') e h =
      stake_credits-IsTotaled p c amount days purpose now t t' e h
  change-IsTotaled (unstake_at job c i now written t t' u u') e h =
      unstake_credits-IsTotaled p job c i now written t t' u u' e h
  change-IsTotaled (slash c fraction reason now t t') e h =
      slash_stakes-IsTotaled p c fraction reason now t t' e h

  -- Calls of `stake`, `slash` and `unstake` with an index, of any number and however they end, keep
  -- `total_staked` at the sum of all stakes of all contributors, if it was that before.
  pub change_all-IsTotaled :
      (xs : List Change) (e : EnhancedCreditLedger) → IsTotaled e → IsTotaled (change_all xs e)
  unfolding change_all
  change_all-IsTotaled [] e h = h
  change_all-IsTotaled (x ∷ xs) e h = change_all-IsTotaled xs (change x e) (change-IsTotaled x e h)

  -- `unstake` without an index takes the first stake that is unlocked. If `total_staked` was the sum
  -- of all stakes, it is then larger than the sum by what slashing had taken from that stake before.
  pub unstake_credits_drift :
      (job c now written t t' u u' : ℕ) (x : StakeInfo) (rest : List StakeInfo)
      (e : EnhancedCreditLedger)
      → IsTotaled e
      → take_unlocked now (stakes_of c e.stakes) ≡ some (x, rest)
      → (unstake_credits p job c none now written t t' u u' e).1.total_staked
        ≡ sum_all (unstake_credits p job c none now written t t' u u' e).1.stakes
          +ℤ x.slashed_amount
  unfolding unstake_credits pay_out take_unlocked
  unstake_credits_drift job c now written t t' u u' x rest e h k =
      by_stakes (stakes_of c e.stakes) refl
    where
      by_stakes :
          (xs : List StakeInfo)
          → stakes_of c e.stakes ≡ xs
          → (unstake_credits p job c none now written t t' u u' e).1.total_staked
            ≡ sum_all (unstake_credits p job c none now written t t' u u' e).1.stakes
              +ℤ x.slashed_amount
      by_stakes [] w = absurd (none_is_none (rw (w, take_unlocked) at k))
      by_stakes (y ∷ ys) w =
          let at_first : take_unlocked now (y ∷ ys) ≡ some (x, rest) = rw w at k in
          rw (w, oldest_choice now (y ∷ ys) x rest at_first, unstake_credits)
            (drift_shift e.total_staked (sum_all e.stakes) (sum_stakes (stakes_of c e.stakes))
                x.amount x.slashed_amount (sum_stakes rest) h
                (take_unlocked-sum now (stakes_of c e.stakes) x rest k)
              ∙ ap (λ r. r +ℤ x.slashed_amount) (sym (sum_all-insert c rest e.stakes)))
