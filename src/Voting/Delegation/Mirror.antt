-- ===== src/Voting/Delegation/Mirror.antt =====
-- The two directions of a delegation agree (legacy/worker/src/daemon/voting_system.py).
use distrib_ai.Base.{
  ℕ, zero, suc, refl, ◌≡◌, ◌≢◌, ◌↔◌, ◌⊎◌, true, false, Option, none, some, if◌then◌else◌, ◌==◌,
  arith, elem, add, Option-cases, Bool-cases, inl, inr, elem-add, elem-discard,
}
use distrib_ai.Voting.Types.{VotingSystem}
use distrib_ai.Voting.Delegation.{
  next_of, non_empty, leave_delegate, redirect, delegate_vote, revoke_delegation,
}
use distrib_ai.Voting.Delegation.Redirect.{
  delegates_of, redirect-next_of, redirect-delegates_of, leave-delegates_of, revoke-next_of,
  revoke-delegates_of, delegate_vote_cases, revoke_delegation_cases,
}

-- A name is among the delegates of an account exactly when its own account points there.
abbrev pub IsMirrored : VotingSystem → Type 0
IsMirrored s =
    (x y : ℕ)
    → y ≢ 0
    → (elem x (delegates_of y s.accounts) ≡ true) ↔ (next_of x s.accounts ≡ some y)

-- A revocation keeps the two directions in agreement.
pub revoke_delegation-IsMirrored :
    (voter : ℕ) (s : VotingSystem) → IsMirrored s → IsMirrored (revoke_delegation voter s).1
revoke_delegation-IsMirrored voter s h x y n = elim (revoke_delegation_cases voter s) [
  | inl refused ↦ rw refused (h x y n)
  | inr r ↦ rw r.after (
      ground (
        arith,
        h x y n,
        r.next,
        revoke-next_of voter r.old s x r.known,
        revoke-delegates_of voter r.old s y,
        elem-discard voter x (delegates_of y s.accounts),
      ))
]

non_empty_cases : (n : ℕ) → (non_empty (some n) ≡ none) ⊎ (non_empty (some n) ≡ some n)
non_empty_cases zero = inl refl
non_empty_cases (suc n) = inr refl

non_empty-some : (n : ℕ) → n ≢ 0 → non_empty (some n) ≡ some n
non_empty-some zero h = absurd (h refl)
non_empty-some (suc n) h = refl

module _ (voter target : ℕ) (old : Option ℕ) (s : VotingSystem) (x y : ℕ) (n : y ≢ 0)
    (h : IsMirrored s) (next : next_of voter s.accounts ≡ old) where
  left_delegates :
      elem x (delegates_of y (leave_delegate voter old s).accounts)
      ≡ (if x == voter then false else elem x (delegates_of y s.accounts))
  left_delegates = elim (Option-cases old) [
    | inl e ↦ ground (arith, h x y n, leave-delegates_of voter s y old)
    | inr (k, e) ↦ ground (
      arith,
      h x y n,
      leave-delegates_of voter s y old,
      elem-discard voter x (delegates_of y s.accounts),
    )
  ]

  redirected :
      next_of x (redirect voter target old s).accounts
        ≡ (if x == voter then non_empty (some target) else next_of x s.accounts)
      → delegates_of y (redirect voter target old s).accounts ≡ (
          if y == target
          then add voter (delegates_of target (leave_delegate voter old s).accounts)
          else delegates_of y (leave_delegate voter old s).accounts)
      → (elem x (delegates_of y (redirect voter target old s).accounts) ≡ true)
        ↔ (next_of x (redirect voter target old s).accounts ≡ some y)
  redirected e f = elim (Bool-cases (y == target)) [
    | inl same ↦
        let at : target ≡ y = ground arith in
        (ground (
          arith,
          h x y n,
          left_delegates,
          elem-add voter x (delegates_of y (leave_delegate voter old s).accounts),
          non_empty-some target,
        ))
    | inr other ↦ ground (arith, h x y n, left_delegates, non_empty_cases target)
  ]

-- A delegation, taken or refused, keeps the two directions in agreement.
pub delegate_vote-IsMirrored :
    (voter target : ℕ) (s : VotingSystem)
    → IsMirrored s
    → IsMirrored (delegate_vote voter target s).1
delegate_vote-IsMirrored voter target s h x y n = elim (delegate_vote_cases voter target s) [
  | inl refused ↦ rw refused (h x y n)
  | inr d ↦ rw d.after (
      redirected voter target d.old s x y n h d.next
        (redirect-next_of voter target d.old s x d.known)
        (redirect-delegates_of voter target d.old s y d.target_known))
]
