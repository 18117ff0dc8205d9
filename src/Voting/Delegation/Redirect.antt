-- ===== src/Voting/Delegation/Redirect.antt =====
-- What a new delegation and a revocation change in the accounts
-- (legacy/worker/src/daemon/voting_system.py).
use distrib_ai.Base.{
  ℕ, ◌≡◌, ◌≢◌, ◌⊎◌, true, false, Option, none, some, List, [], if◌then◌else◌, add, discard, ◌==◌,
  arith, Option-cases, Bool-cases, inl, inr, refl, ap, ◌∙◌,
}
use distrib_ai.Base.Dict.{Dict, lookup, lookup-insert}
use distrib_ai.Voting.Types.{CreditAccount, VotingSystem}
use distrib_ai.Voting.Delegation.{
  next_of, non_empty, modify_account, leave_delegate, redirect, would_create_cycle, delegate_vote,
  revoke_delegation,
}

abbrev pub delegates_of : ℕ → Dict CreditAccount → List ℕ
delegates_of id accounts = elim (lookup id accounts) [ none ↦ [] | some a ↦ a.delegates ]

module _ (id : ℕ) (s : VotingSystem) (j : ℕ) where
  -- A write to `delegates` moves no delegation.
  delegates_write-next_of :
      (g : List ℕ → List ℕ)
      → next_of j (modify_account id (λ a. record a { delegates = g a.delegates }) s).accounts
        ≡ next_of j s.accounts
  unfolding next_of
  delegates_write-next_of g = elim (Option-cases (lookup id s.accounts)) [
    | inl e ↦ ground arith
    | inr (a, e) ↦
        ground (arith, lookup-insert id j (record a { delegates = g a.delegates }) s.accounts)
  ]

  delegates_write-delegates_of :
      (g : List ℕ → List ℕ)
      → g [] ≡ []
      → delegates_of j (modify_account id (λ a. record a { delegates = g a.delegates }) s).accounts
        ≡ (if j == id then g (delegates_of id s.accounts) else delegates_of j s.accounts)
  delegates_write-delegates_of g n = elim (Option-cases (lookup id s.accounts)) [
    | inl e ↦ ground arith
    | inr (a, e) ↦
        ground (arith, lookup-insert id j (record a { delegates = g a.delegates }) s.accounts)
  ]

  delegates_write-known :
      (g : List ℕ → List ℕ)
      → lookup id s.accounts ≢ none
      → delegates_of j (modify_account id (λ a. record a { delegates = g a.delegates }) s).accounts
        ≡ (if j == id then g (delegates_of id s.accounts) else delegates_of j s.accounts)
  delegates_write-known g n = elim (Option-cases (lookup id s.accounts)) [
    | inl e ↦ absurd (n e)
    | inr (a, e) ↦
        ground (arith, lookup-insert id j (record a { delegates = g a.delegates }) s.accounts)
  ]

  delegates_write-lookup :
      (g : List ℕ → List ℕ)
      → lookup j s.accounts ≢ none
      → lookup j (modify_account id (λ a. record a { delegates = g a.delegates }) s).accounts ≢ none
  delegates_write-lookup g n m = elim (Option-cases (lookup id s.accounts)) [
    | inl e ↦ n (ground arith)
    | inr (a, e) ↦
        n (ground (arith, lookup-insert id j (record a { delegates = g a.delegates }) s.accounts))
  ]

  -- A write to `delegated_to` moves one delegation, and no set of delegates.
  pointer_write-next_of :
      (t : Option ℕ)
      → lookup id s.accounts ≢ none
      → next_of j (modify_account id (λ a. record a { delegated_to = t }) s).accounts
        ≡ (if j == id then non_empty t else next_of j s.accounts)
  unfolding next_of
  pointer_write-next_of t n = elim (Option-cases (lookup id s.accounts)) [
    | inl e ↦ absurd (n e)
    | inr (a, e) ↦ ground (arith, lookup-insert id j (record a { delegated_to = t }) s.accounts)
  ]

  pointer_write-delegates_of :
      (t : Option ℕ)
      → delegates_of j (modify_account id (λ a. record a { delegated_to = t }) s).accounts
        ≡ delegates_of j s.accounts
  pointer_write-delegates_of t = elim (Option-cases (lookup id s.accounts)) [
    | inl e ↦ ground arith
    | inr (a, e) ↦ ground (arith, lookup-insert id j (record a { delegated_to = t }) s.accounts)
  ]

  pointer_write-lookup :
      (t : Option ℕ)
      → lookup j s.accounts ≢ none
      → lookup j (modify_account id (λ a. record a { delegated_to = t }) s).accounts ≢ none
  pointer_write-lookup t n m = elim (Option-cases (lookup id s.accounts)) [
    | inl e ↦ n (ground arith)
    | inr (a, e) ↦ n (ground (arith, lookup-insert id j (record a { delegated_to = t }) s.accounts))
  ]

module _ (voter : ℕ) (s : VotingSystem) (j : ℕ) where
  pub leave-next_of :
      (old : Option ℕ) → next_of j (leave_delegate voter old s).accounts ≡ next_of j s.accounts
  leave-next_of none = refl
  leave-next_of (some old) = delegates_write-next_of old s j (discard voter)

  pub leave-lookup :
      (old : Option ℕ)
      → lookup j s.accounts ≢ none
      → lookup j (leave_delegate voter old s).accounts ≢ none
  leave-lookup none n = n
  leave-lookup (some old) n = delegates_write-lookup old s j (discard voter) n

  -- Only the old delegate's set loses the voter.
  pub leave-delegates_of :
      (old : Option ℕ)
      → delegates_of j (leave_delegate voter old s).accounts ≡ elim old [
        | none ↦ delegates_of j s.accounts
        | some k ↦
            if j == k then discard voter (delegates_of j s.accounts) else delegates_of j s.accounts
      ]
  leave-delegates_of none = refl
  leave-delegates_of (some old) =
      ground (arith, delegates_write-delegates_of old s j (discard voter) refl)

module _ (voter target : ℕ) (old : Option ℕ) (s : VotingSystem) (j : ℕ) where
  -- After a delegation the voter points at the target, and nobody else's delegation changes.
  pub redirect-next_of :
      lookup voter s.accounts ≢ none
      → next_of j (redirect voter target old s).accounts
        ≡ (if j == voter then non_empty (some target) else next_of j s.accounts)
  unfolding redirect
  redirect-next_of n =
      let left = leave_delegate voter old s in
      let pointed = modify_account voter (λ a. record a { delegated_to = some target }) left in
      delegates_write-next_of target pointed j (add voter)
      ∙ pointer_write-next_of voter left j (some target) (leave-lookup voter s voter old n)
      ∙ ap (λ t. if j == voter then non_empty (some target) else t) (leave-next_of voter s j old)

  -- The target's set gains the voter, behind the loss of the old delegate's.
  pub redirect-delegates_of :
      lookup target s.accounts ≢ none
      → delegates_of j (redirect voter target old s).accounts ≡ (
          if j == target
          then add voter (delegates_of target (leave_delegate voter old s).accounts)
          else delegates_of j (leave_delegate voter old s).accounts)
  unfolding redirect
  redirect-delegates_of n =
      let left = leave_delegate voter old s in
      let pointed = modify_account voter (λ a. record a { delegated_to = some target }) left in
      let there =
        pointer_write-lookup voter left target (some target) (leave-lookup voter s target old n) in
      ground (
        arith,
        delegates_write-known target pointed j (add voter) there,
        pointer_write-delegates_of voter left j (some target),
        pointer_write-delegates_of voter left target (some target),
      )

-- The writes of `revoke_delegation`.
abbrev pub revoke : ℕ → ℕ → VotingSystem → VotingSystem
revoke voter old s =
    modify_account voter (λ a. record a { delegated_to = none }) (leave_delegate voter (some old) s)

module _ (voter old : ℕ) (s : VotingSystem) (j : ℕ) where
  pub revoke-next_of :
      lookup voter s.accounts ≢ none
      → next_of j (revoke voter old s).accounts
        ≡ (if j == voter then none else next_of j s.accounts)
  revoke-next_of n =
      pointer_write-next_of voter (leave_delegate voter (some old) s) j none
        (leave-lookup voter s voter (some old) n)
      ∙ ap (λ t. if j == voter then none else t) (leave-next_of voter s j (some old))

  pub revoke-delegates_of :
      delegates_of j (revoke voter old s).accounts
      ≡ (if j == old then discard voter (delegates_of j s.accounts) else delegates_of j s.accounts)
  revoke-delegates_of =
      pointer_write-delegates_of voter (leave_delegate voter (some old) s) j none
      ∙ leave-delegates_of voter s j (some old)

-- When `delegate_vote` succeeds.
pub record Delegates (voter target : ℕ) (s : VotingSystem) : Type 0 where
  pub known : lookup voter s.accounts ≢ none
  pub target_known : lookup target s.accounts ≢ none
  pub different : voter ≢ target
  pub no_cycle : would_create_cycle voter target s ≡ some false
  pub old : Option ℕ
  pub next : next_of voter s.accounts ≡ old
  pub after : delegate_vote voter target s ≡ (true, redirect voter target old s)

-- `delegate_vote` refuses and changes nothing, or it redirects the voter's delegation.
pub delegate_vote_cases :
    (voter target : ℕ) (s : VotingSystem)
    → (delegate_vote voter target s ≡ (false, s)) ⊎ Delegates voter target s
unfolding delegate_vote next_of
delegate_vote_cases voter target s = elim (Option-cases (lookup voter s.accounts)) [
  | inl e ↦ inl (ground arith)
  | inr (a, e) ↦ elim (Option-cases (lookup target s.accounts)) [
    | inl f ↦ inl (ground arith)
    | inr (b, f) ↦ elim (Bool-cases (voter == target)) [
      | inl same ↦ inl (ground arith)
      | inr other ↦ elim (Option-cases (would_create_cycle voter target s)) [
        | inl g ↦ inl (ground arith)
        | inr (true, g) ↦ inl (ground arith)
        | inr (false, g) ↦ inr (record {
          known = λ n. cc;
          target_known = λ n. cc;
          different = ground arith;
          no_cycle = g;
          old = non_empty a.delegated_to;
          next = ground arith;
          after = ground arith;
        })
      ]
    ]
  ]
]

-- When `revoke_delegation` succeeds.
pub record Revokes (voter : ℕ) (s : VotingSystem) : Type 0 where
  pub known : lookup voter s.accounts ≢ none
  pub old : ℕ
  pub next : next_of voter s.accounts ≡ some old
  pub after : revoke_delegation voter s ≡ (true, revoke voter old s)

-- `revoke_delegation` refuses and changes nothing, or it takes the voter's delegation back.
pub revoke_delegation_cases :
    (voter : ℕ) (s : VotingSystem) → (revoke_delegation voter s ≡ (false, s)) ⊎ Revokes voter s
unfolding revoke_delegation
revoke_delegation_cases voter s = elim (Option-cases (next_of voter s.accounts)) [
  | inl e ↦ inl (ground arith)
  | inr (old, e) ↦ inr (record {
    known = λ n. (unfold next_of in ground arith);
    old = old;
    next = e;
    after = ground arith;
  })
]
