-- ===== src/Voting/Delegation/Frame.antt =====
-- Delegations and the books of the accounts (legacy/worker/src/daemon/voting_system.py).
use distrib_ai.Base.{
  ℕ, ◌≡◌, ◌∙◌, refl, Option, none, some, arith, Option-cases, inl, inr, discard, add,
}
use distrib_ai.Base.Dict.{lookup, Each-lookup, Each-insert}
use distrib_ai.Voting.Types.{CreditAccount, VotingSystem}
use distrib_ai.Voting.Accounts.Books.{IsBalanced, IsSound}
use distrib_ai.Voting.Delegation.{
  modify_account, leave_delegate, redirect, delegate_vote, revoke_delegation,
}
use distrib_ai.Voting.Delegation.Redirect.{delegate_vote_cases, revoke_delegation_cases}

-- A write that leaves the amounts alone keeps the books sound.
modify-IsSound :
    (id : ℕ) (f : CreditAccount → CreditAccount) (s : VotingSystem)
    → ((a : CreditAccount) → IsBalanced a → IsBalanced (f a))
    → IsSound s
    → IsSound (modify_account id f s)
modify-IsSound id f s g h = elim (Option-cases (lookup id s.accounts)) [
  | inl e ↦ rw (e, modify_account) h
  | inr (a, e) ↦
      rw (e, modify_account)
        (Each-insert IsBalanced id (f a) s.accounts h
          (g a (Each-lookup IsBalanced id s.accounts h e)))
]

leave-IsSound :
    (voter : ℕ) (old : Option ℕ) (s : VotingSystem)
    → IsSound s
    → IsSound (leave_delegate voter old s)
leave-IsSound voter none s h = h
leave-IsSound voter (some old) s h =
    modify-IsSound old (λ a. record a { delegates = discard voter a.delegates }) s (λ a b. b) h

redirect-IsSound :
    (voter target : ℕ) (old : Option ℕ) (s : VotingSystem)
    → IsSound s
    → IsSound (redirect voter target old s)
unfolding redirect
redirect-IsSound voter target old s h =
    let left = leave_delegate voter old s in
    let pointed = modify_account voter (λ a. record a { delegated_to = some target }) left in
    modify-IsSound target (λ a. record a { delegates = add voter a.delegates }) pointed (λ a b. b)
      (modify-IsSound voter (λ a. record a { delegated_to = some target }) left (λ a b. b)
        (leave-IsSound voter old s h))

pub delegate_vote-IsSound :
    (voter target : ℕ) (s : VotingSystem) → IsSound s → IsSound (delegate_vote voter target s).1
delegate_vote-IsSound voter target s h = elim (delegate_vote_cases voter target s) [
  | inl refused ↦ rw refused h
  | inr d ↦ rw d.after (redirect-IsSound voter target d.old s h)
]

pub revoke_delegation-IsSound :
    (voter : ℕ) (s : VotingSystem) → IsSound s → IsSound (revoke_delegation voter s).1
revoke_delegation-IsSound voter s h = elim (revoke_delegation_cases voter s) [
  | inl refused ↦ rw refused h
  | inr r ↦ rw r.after (
      modify-IsSound voter (λ a. record a { delegated_to = none })
        (leave_delegate voter (some r.old) s) (λ a b. b) (leave-IsSound voter (some r.old) s h))
]

modify_account-votes :
    (id : ℕ) (f : CreditAccount → CreditAccount) (s : VotingSystem)
    → (modify_account id f s).votes ≡ s.votes
modify_account-votes id f s = ground arith

leave-votes :
    (voter : ℕ) (old : Option ℕ) (s : VotingSystem) → (leave_delegate voter old s).votes ≡ s.votes
leave-votes voter none s = refl
leave-votes voter (some old) s =
    modify_account-votes old (λ a. record a { delegates = discard voter a.delegates }) s

-- A delegation and a revocation touch no vote.
pub delegate_vote-votes :
    (voter target : ℕ) (s : VotingSystem) → (delegate_vote voter target s).1.votes ≡ s.votes
unfolding redirect
delegate_vote-votes voter target s = elim (delegate_vote_cases voter target s) [
  | inl refused ↦ rw refused
  | inr d ↦
      let left = leave_delegate voter d.old s in
      let pointed = modify_account voter (λ a. record a { delegated_to = some target }) left in
      rw d.after (
        modify_account-votes target (λ a. record a { delegates = add voter a.delegates }) pointed
        ∙ modify_account-votes voter (λ a. record a { delegated_to = some target }) left
        ∙ leave-votes voter d.old s)
]

pub revoke_delegation-votes :
    (voter : ℕ) (s : VotingSystem) → (revoke_delegation voter s).1.votes ≡ s.votes
revoke_delegation-votes voter s = elim (revoke_delegation_cases voter s) [
  | inl refused ↦ rw refused
  | inr r ↦ rw r.after (
      modify_account-votes voter (λ a. record a { delegated_to = none })
        (leave_delegate voter (some r.old) s)
      ∙ leave-votes voter (some r.old) s)
]
