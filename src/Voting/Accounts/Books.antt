-- ===== src/Voting/Accounts/Books.antt =====
-- What the operations on accounts do to an account, and to no other
-- (legacy/worker/src/daemon/voting_system.py).
use distrib_ai.Base.{
  ℕ, ◌≡◌, ◌↔◌, true, some, arith, ◌==◌, if◌then◌else◌, Option-cases, inl, inr, ap, ◌∙◌,
}
use distrib_ai.Base.Int.{ℤ, pos, ◌+ℤ◌, ◌-ℤ◌, ◌≤ℤ◌, int_laws}
use distrib_ai.Base.Dict.{lookup, lookup-insert, Each, Each-lookup, Each-insert}
use distrib_ai.Voting.Types.{CreditAccount, VotingSystem, one, new_account}
use distrib_ai.Voting.Accounts.{
  create_account, add_credits, spend_credits, update_reputation, clamp_score,
}

-- The account holds a positive amount.
pub record Affords (id : ℕ) (amount : ℤ) (s : VotingSystem) : Type 0 where
  pub account : CreditAccount
  pub stored : lookup id s.accounts ≡ some account
  pub positive : pos 1 ≤ℤ amount
  pub covered : amount ≤ℤ account.balance

abbrev pub pay : ℤ → CreditAccount → CreditAccount
pay amount a = record a { balance = a.balance -ℤ amount; credits_spent = a.credits_spent +ℤ amount }

-- A payment goes through exactly when the amount is positive and the account holds it.
pub spend_credits_iff :
    (id : ℕ) (amount : ℤ) (s : VotingSystem)
    → ((spend_credits id amount s).0 ≡ true) ↔ Affords id amount s
unfolding spend_credits
spend_credits_iff id amount s = (there, back)
  where
    there : (spend_credits id amount s).0 ≡ true → Affords id amount s
    there h = elim (Option-cases (lookup id s.accounts)) [
      | inl e ↦ absurd (ground arith)
      | inr (a, e) ↦ record {
        account = a;
        stored = e;
        positive = ground arith;
        covered = ground arith;
      }
    ]

    back : Affords id amount s → (spend_credits id amount s).0 ≡ true
    back h = ground arith

-- The account after a payment; a refused payment changes nothing, and no other account changes.
pub spend_credits-accounts :
    (id j : ℕ) (amount : ℤ) (s : VotingSystem) (h : Affords id amount s)
    → lookup j (spend_credits id amount s).1.accounts
      ≡ (if j == id then some (pay amount h.account) else lookup j s.accounts)
unfolding spend_credits
spend_credits-accounts id j amount s h =
    ground (arith, lookup-insert id j (pay amount h.account) s.accounts)

-- A payment touches no vote and no setting.
pub spend_credits-votes :
    (id : ℕ) (amount : ℤ) (s : VotingSystem)
    → ((spend_credits id amount s).1.votes ≡ s.votes)
      × ((spend_credits id amount s).1.credit_price_per_vote ≡ s.credit_price_per_vote)
unfolding spend_credits
spend_credits-votes id amount s = ground arith

-- The balance is what was earned less what was spent.
abbrev pub IsBalanced : CreditAccount → Type 0
IsBalanced a = a.balance +ℤ a.credits_spent ≡ a.credits_earned

abbrev pub IsSound : VotingSystem → Type 0
IsSound s = Each IsBalanced s.accounts

pay_regroup : (b c x : ℤ) → b -ℤ x +ℤ (c +ℤ x) ≡ b +ℤ c
pay_regroup b c x = omega int_laws

earn_regroup : (b c x : ℤ) → b +ℤ x +ℤ c ≡ b +ℤ c +ℤ x
earn_regroup b c x = omega int_laws

pub new_account-IsBalanced : (id : ℕ) → IsBalanced (new_account id)
new_account-IsBalanced id = omega int_laws

pub create_account-IsSound :
    (id : ℕ) (s : VotingSystem)
    → IsSound s
    → IsBalanced (create_account id s).0 × IsSound (create_account id s).1
unfolding create_account
create_account-IsSound id s h = elim (Option-cases (lookup id s.accounts)) [
  | inl e ↦
      let fresh = new_account-IsBalanced id in
      let kept = Each-insert IsBalanced id (new_account id) s.accounts h fresh in
      rw (e, create_account) (fresh, kept)
  | inr (a, e) ↦ rw (e, create_account) (Each-lookup IsBalanced id s.accounts h e, h)
]

pub add_credits-IsSound :
    (id : ℕ) (amount : ℤ) (s : VotingSystem) → IsSound s → IsSound (add_credits id amount s).1
unfolding add_credits
add_credits-IsSound id amount s h =
    let (a, s') = create_account id s in
    let (balanced, sound) = create_account-IsSound id s h in
    Each-insert IsBalanced id
      (record a { balance = a.balance +ℤ amount; credits_earned = a.credits_earned +ℤ amount })
      s'.accounts sound
      (earn_regroup a.balance a.credits_spent amount ∙ ap (λ c. c +ℤ amount) balanced)

pub spend_credits-IsSound :
    (id : ℕ) (amount : ℤ) (s : VotingSystem) → IsSound s → IsSound (spend_credits id amount s).1
unfolding spend_credits
spend_credits-IsSound id amount s h = elim (Option-cases (lookup id s.accounts)) [
  | inl e ↦ rw (e, spend_credits) (ground arith)
  | inr (a, e) ↦
      let balanced = Each-lookup IsBalanced id s.accounts h e in
      let paid : IsBalanced (pay amount a) =
        pay_regroup a.balance a.credits_spent amount ∙ balanced in
      let kept = Each-insert IsBalanced id (pay amount a) s.accounts h paid in ground arith
]

pub update_reputation-IsSound :
    (id : ℕ) (delta : ℤ) (s : VotingSystem) → IsSound s → IsSound (update_reputation id delta s).1
unfolding update_reputation
update_reputation-IsSound id delta s h = elim (Option-cases (lookup id s.accounts)) [
  | inl e ↦ rw (e, update_reputation) h
  | inr (a, e) ↦
      let score = clamp_score (a.reputation_score +ℤ delta) in
      rw (e, update_reputation)
        (Each-insert IsBalanced id (record a { reputation_score = score }) s.accounts h
          (Each-lookup IsBalanced id s.accounts h e))
]

-- The score of a reputation stays between 0 and 1, from any score and by any step.
pub clamp_score_bounds : (x : ℤ) → (pos 0 ≤ℤ clamp_score x) × (clamp_score x ≤ℤ one)
unfolding clamp_score
clamp_score_bounds x = ground arith
