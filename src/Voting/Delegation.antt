-- ===== src/Voting/Delegation.antt =====
-- Liquid democracy: `delegate_vote`, `_would_create_cycle` and `revoke_delegation`
-- (legacy/worker/src/daemon/voting_system.py). The loop takes fuel: one round more than accounts.
pub mod Walk
pub mod Redirect
pub mod Acyclic
pub mod Mirror
pub mod Links
pub mod Frame
use distrib_ai.Base.{
  ℕ, zero, suc, ◌+◌, Bool, true, false, Option, none, some, List, [], ◌∷◌, if◌then◌else◌, length,
  elem, ◌==◌, add, discard,
}
use distrib_ai.Base.Dict.{Dict, lookup}
use distrib_ai.Voting.Types.{CreditAccount, VotingSystem}
use distrib_ai.Voting.Accounts.{put_account}

-- A field `delegated_to` that is neither `None` nor empty.
abbrev pub non_empty : Option ℕ → Option ℕ
non_empty none = none
non_empty (some zero) = none
non_empty (some (suc n)) = some (suc n)

-- Whom the account of a name has delegated to, if it has one and it has.
unfoldable pub next_of : ℕ → Dict CreditAccount → Option ℕ
next_of id accounts = elim (lookup id accounts) [ none ↦ none | some a ↦ non_empty a.delegated_to ]

-- The `while` loop: `none` means that the fuel ran out.
walk : ℕ → ℕ → List ℕ → ℕ → Dict CreditAccount → Option Bool
walk zero voter visited current accounts = none
walk (suc fuel) voter visited current accounts =
    if current == 0
    then some false
    else if current == voter
    then some true
    else if elem current visited
    then some true
    else elim (next_of current accounts) [
      | none ↦ some false
      | some next ↦ walk fuel voter (current ∷ visited) next accounts
    ]

unfoldable pub would_create_cycle : ℕ → ℕ → VotingSystem → Option Bool
unfolding walk
would_create_cycle voter target s = walk (length s.accounts + 1) voter [] target s.accounts

-- A write to an account that may be absent.
abbrev pub modify_account : ℕ → (CreditAccount → CreditAccount) → VotingSystem → VotingSystem
modify_account id f s = elim (lookup id s.accounts) [ none ↦ s | some a ↦ put_account id (f a) s ]

-- `old.delegates.discard(voter)` at the account that the voter had delegated to.
abbrev pub leave_delegate : ℕ → Option ℕ → VotingSystem → VotingSystem
leave_delegate voter none s = s
leave_delegate voter (some old) s =
    modify_account old (λ a. record a { delegates = discard voter a.delegates }) s

-- The writes of `delegate_vote`. Two of the three accounts may be one object.
unfoldable pub redirect : ℕ → ℕ → Option ℕ → VotingSystem → VotingSystem
redirect voter target old s =
    let left = leave_delegate voter old s in
    let pointed = modify_account voter (λ a. record a { delegated_to = some target }) left in
    modify_account target (λ a. record a { delegates = add voter a.delegates }) pointed

unfoldable pub delegate_vote : ℕ → ℕ → VotingSystem → Bool × VotingSystem
delegate_vote voter target s = elim (lookup voter s.accounts) [
  | none ↦ (false, s)
  | some a ↦ elim (lookup target s.accounts) [
    | none ↦ (false, s)
    | some b ↦ if voter == target then (false, s) else elim (would_create_cycle voter target s) [
      | some false ↦ (true, redirect voter target (non_empty a.delegated_to) s)
      | _ ↦ (false, s)
    ]
  ]
]

unfoldable pub revoke_delegation : ℕ → VotingSystem → Bool × VotingSystem
revoke_delegation voter s = elim (next_of voter s.accounts) [
  | none ↦ (false, s)
  | some old ↦ (
    true,
    modify_account voter (λ a. record a { delegated_to = none })
        (leave_delegate voter (some old) s),
  )
]
