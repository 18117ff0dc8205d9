-- ===== src/Voting/Delegation/Acyclic.antt =====
-- No delegation cycles (legacy/worker/src/daemon/voting_system.py).
use distrib_ai.Base.{
  ℕ, zero, suc, ◌≡◌, ◌⊎◌, false, Option, none, some, if◌then◌else◌, ◌==◌, arith, Bool-cases, inl,
  inr, refl, subst,
}
use distrib_ai.Base.Dict.{Dict}
use distrib_ai.Voting.Types.{CreditAccount, VotingSystem}
use distrib_ai.Voting.Delegation.{
  next_of, non_empty, redirect, would_create_cycle, delegate_vote, revoke_delegation,
}
use distrib_ai.Voting.Delegation.Walk.{Avoids, would_create_cycle-Avoids}
use distrib_ai.Voting.Delegation.Redirect.{
  redirect-next_of, revoke-next_of, revoke, delegate_vote_cases, revoke_delegation_cases,
}

-- Following the delegations from `id` leads to a name that has not delegated.
pub data Leads (accounts : Dict CreditAccount) : ℕ → Type 0 where
  stop : (id : ℕ) → next_of id accounts ≡ none → Leads accounts id
  step : (id next : ℕ) → next_of id accounts ≡ some next → Leads accounts next → Leads accounts id

-- No delegation runs in a circle: from every name the delegations come to an end.
abbrev pub IsAcyclic : VotingSystem → Type 0
IsAcyclic s = (id : ℕ) → Leads s.accounts id

module _ (voter : ℕ) (to : Option ℕ) (old new : Dict CreditAccount)
    (moved : (j : ℕ) → next_of j new ≡ (if j == voter then to else next_of j old)) where
  Avoids-Leads : (id : ℕ) → Avoids voter old id → Leads new id
  Avoids-Leads id (Avoids.stop _ n e) = Leads.stop id (ground (arith, moved id))
  Avoids-Leads id (Avoids.step _ next n e rest) =
      Leads.step id next (ground (arith, moved id)) (Avoids-Leads next rest)

  module _ (ends : (to ≡ none) ⊎ ((t : ℕ) × (to ≡ some t) × Leads new t)) where
    voter-Leads : Leads new voter
    voter-Leads = elim ends [
      | inl e ↦ Leads.stop voter (ground (arith, moved voter))
      | inr (t, e, rest) ↦ Leads.step voter t (ground (arith, moved voter)) rest
    ]

    -- Where the voter's new delegation leads to an end, so do all that led to one before.
    Leads-moved : (id : ℕ) → Leads old id → Leads new id
    Leads-moved id (Leads.stop _ e) = elim (Bool-cases (id == voter)) [
      | inl same ↦ subst (Leads new) (ground arith) voter-Leads
      | inr other ↦ Leads.stop id (ground (arith, moved id))
    ]
    Leads-moved id (Leads.step _ next e rest) = elim (Bool-cases (id == voter)) [
      | inl same ↦ subst (Leads new) (ground arith) voter-Leads
      | inr other ↦ Leads.step id next (ground (arith, moved id)) (Leads-moved next rest)
    ]

target_ends :
    (voter target : ℕ) (s : VotingSystem) (new : Dict CreditAccount)
    → would_create_cycle voter target s ≡ some false
    → ((j : ℕ)
        → next_of j new ≡ (if j == voter then non_empty (some target) else next_of j s.accounts))
    → (non_empty (some target) ≡ none)
      ⊎ ((t : ℕ) × (non_empty (some target) ≡ some t) × Leads new t)
target_ends voter zero s new h moved = inl refl
target_ends voter (suc t) s new h moved = inr (
  suc t,
  refl,
  Avoids-Leads voter (some (suc t)) s.accounts new moved (suc t)
      (would_create_cycle-Avoids voter (suc t) s (omega arith) h),
)

-- A delegation keeps the delegations free of cycles, whether it is taken or refused.
pub delegate_vote-IsAcyclic :
    (voter target : ℕ) (s : VotingSystem) → IsAcyclic s → IsAcyclic (delegate_vote voter target s).1
delegate_vote-IsAcyclic voter target s h id = elim (delegate_vote_cases voter target s) [
  | inl refused ↦ rw refused (h id)
  | inr d ↦
      let accounts = (redirect voter target d.old s).accounts in
      let moved = λ (j : ℕ). redirect-next_of voter target d.old s j d.known in
      let ends : (non_empty (some target) ≡ none)
          ⊎ ((t : ℕ) × (non_empty (some target) ≡ some t) × Leads accounts t) =
        target_ends voter target s accounts d.no_cycle moved in
      rw d.after
        (Leads-moved voter (non_empty (some target)) s.accounts accounts moved ends id (h id))
]

-- A revocation keeps the delegations free of cycles.
pub revoke_delegation-IsAcyclic :
    (voter : ℕ) (s : VotingSystem) → IsAcyclic s → IsAcyclic (revoke_delegation voter s).1
revoke_delegation-IsAcyclic voter s h id = elim (revoke_delegation_cases voter s) [
  | inl refused ↦ rw refused (h id)
  | inr r ↦ rw r.after (
      Leads-moved voter none s.accounts (revoke voter r.old s).accounts
        (λ (j : ℕ). revoke-next_of voter r.old s j r.known) (inl refl) id (h id))
]
