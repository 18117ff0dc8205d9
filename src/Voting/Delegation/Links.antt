-- ===== src/Voting/Delegation/Links.antt =====
-- The calls that leave every delegation as it is (legacy/worker/src/daemon/voting_system.py).
use distrib_ai.Base.{ℕ, ◌≡◌, refl, ◌∙◌, Bool-cases, arith, Option-cases, inl, inr}
use distrib_ai.Base.Int.{ℤ, ◌+ℤ◌}
use distrib_ai.Base.Dict.{Dict, lookup, insert, lookup-insert}
use distrib_ai.Voting.Types.{CreditAccount, VotingSystem, new_account}
use distrib_ai.Voting.Accounts.{
  create_account, add_credits, spend_credits, update_reputation, clamp_score,
}
use distrib_ai.Voting.Accounts.Books.{pay}
use distrib_ai.Voting.Ballots.{Proposal, create_vote, cast_vote}
use distrib_ai.Voting.Ballots.Casting.{cast_vote_iff, cast_vote_effect, cast_vote_refused}
use distrib_ai.Voting.Delegation.{next_of, non_empty}
use distrib_ai.Voting.Delegation.Redirect.{delegates_of}

-- The same delegations, in both directions.
abbrev pub SameLinks : Dict CreditAccount → Dict CreditAccount → Type 0
SameLinks d d' = (j : ℕ) → (next_of j d' ≡ next_of j d) × (delegates_of j d' ≡ delegates_of j d)

SameLinks-trans : (d e f : Dict CreditAccount) → SameLinks d e → SameLinks e f → SameLinks d f
SameLinks-trans d e f g h j = ((h j).0 ∙ (g j).0, (h j).1 ∙ (g j).1)

insert-SameLinks :
    (id : ℕ) (a : CreditAccount) (d : Dict CreditAccount)
    → non_empty a.delegated_to ≡ next_of id d
    → a.delegates ≡ delegates_of id d
    → SameLinks d (insert id a d)
unfolding next_of
insert-SameLinks id a d p q j =
    (ground (arith, lookup-insert id j a d), ground (arith, lookup-insert id j a d))

pub create_account-SameLinks :
    (id : ℕ) (s : VotingSystem)
    → SameLinks s.accounts (create_account id s).1.accounts
      × (non_empty (create_account id s).0.delegated_to
          ≡ next_of id (create_account id s).1.accounts)
      × ((create_account id s).0.delegates ≡ delegates_of id (create_account id s).1.accounts)
unfolding create_account next_of
create_account-SameLinks id s = elim (Option-cases (lookup id s.accounts)) [
  | inl e ↦ (
    (λ j. (
      ground
          (arith, insert-SameLinks id (new_account id) s.accounts (ground arith) (ground arith) j),
      ground
          (arith, insert-SameLinks id (new_account id) s.accounts (ground arith) (ground arith) j),
    )),
    ground (arith, lookup-insert id id (new_account id) s.accounts),
    ground (arith, lookup-insert id id (new_account id) s.accounts),
  )
  | inr (a, e) ↦ ((λ j. ground arith), ground arith, ground arith)
]

pub add_credits-SameLinks :
    (id : ℕ) (amount : ℤ) (s : VotingSystem)
    → SameLinks s.accounts (add_credits id amount s).1.accounts
unfolding add_credits
add_credits-SameLinks id amount s =
    let (a, s') = create_account id s in
    let (same, p, q) = create_account-SameLinks id s in
    let b = record a {
      balance = a.balance +ℤ amount;
      credits_earned = a.credits_earned +ℤ amount;
    } in
    SameLinks-trans s.accounts s'.accounts (insert id b s'.accounts) same
      (insert-SameLinks id b s'.accounts p q)

pub spend_credits-SameLinks :
    (id : ℕ) (amount : ℤ) (s : VotingSystem)
    → SameLinks s.accounts (spend_credits id amount s).1.accounts
unfolding spend_credits
spend_credits-SameLinks id amount s j = elim (Option-cases (lookup id s.accounts)) [
  | inl e ↦ ground arith
  | inr (a, e) ↦ ground (
    arith,
    insert-SameLinks id (pay amount a) s.accounts (unfold next_of in ground arith) (ground arith) j,
  )
]

pub update_reputation-SameLinks :
    (id : ℕ) (delta : ℤ) (s : VotingSystem)
    → SameLinks s.accounts (update_reputation id delta s).1.accounts
unfolding update_reputation
update_reputation-SameLinks id delta s j = elim (Option-cases (lookup id s.accounts)) [
  | inl e ↦ ground arith
  | inr (a, e) ↦ ground (
    arith,
    insert-SameLinks id (record a { reputation_score = clamp_score (a.reputation_score +ℤ delta) })
        s.accounts (unfold next_of in ground arith) (ground arith) j,
  )
]

pub create_vote-SameLinks :
    (digest : ℕ → ℕ → ℕ → ℕ) (p : Proposal) (now now' now'' : ℕ) (s : VotingSystem)
    → SameLinks s.accounts (create_vote digest p now now' now'' s).1.accounts
unfolding create_vote
create_vote-SameLinks digest p now now' now'' s j =
    ground (arith, spend_credits-SameLinks p.proposer p.credits_required s j)

pub cast_vote-SameLinks :
    (voter id option now : ℕ) (s : VotingSystem)
    → SameLinks s.accounts (cast_vote voter id option now s).1.accounts
unfolding next_of
cast_vote-SameLinks voter id option now s j =
    elim (Bool-cases (cast_vote voter id option now s).0) [
      | inl yes_vote ↦
          let (v, ok) = (cast_vote_iff voter id option now s).0 yes_vote in
          let effect = (cast_vote_effect voter id option now s v ok j).1 in
          let stored = ok.paid.stored in (ground arith, ground arith)
      | inr no_vote ↦ elim (cast_vote_refused voter id option now s no_vote) [
        | inl e ↦ rw e (refl, refl)
        | inr (v, _, _, _, e) ↦ rw e (refl, refl)
      ]
    ]
