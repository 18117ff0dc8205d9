-- ===== src/Voting/Ballots/Casting.antt =====
-- When `cast_vote` takes a ballot, and what it changes
-- (legacy/worker/src/daemon/voting_system.py).
use distrib_ai.Base.{
  ℕ, ◌+◌, ◌≤◌, ◌≡◌, ◌↔◌, ◌⊎◌, refl, true, false, Option, none, some, arith, Option-cases, inl, inr,
  elem, ◌==◌, if◌then◌else◌, Bool-cases,
}
use distrib_ai.Base.Dict.{lookup, insert, lookup-insert}
use distrib_ai.Voting.Types.{Vote, CreditAccount, VotingSystem, pending, expired}
use distrib_ai.Voting.Accounts.{spend_credits, create_account}
use distrib_ai.Voting.Accounts.Books.{
  Affords, pay, spend_credits_iff, spend_credits-votes, spend_credits-accounts,
}
use distrib_ai.Voting.Ballots.{is_pending, is_past, put_vote, record_ballot, cast_on, cast_vote}

-- The deadline has not passed. The deadline 0.0 counts as none.
abbrev pub InTime : ℕ → Option ℕ → Type 0
InTime now none = Unit
InTime now (some t) = (t ≡ 0) ⊎ (now ≤ t)

pub is_past-InTime : (now : ℕ) (e : Option ℕ) → (is_past now e ≡ false) ↔ InTime now e
is_past-InTime now none = ((λ _. tt), (λ _. refl))
is_past-InTime now (some t) = (λ h. ground arith, λ h. ground arith)

-- What has to hold for a ballot to be taken: the vote is stored, pending and in time, lists the
-- option and has no ballot of the voter, and the voter can pay the price.
pub record Accepts (voter id option now : ℕ) (v : Vote) (s : VotingSystem) : Type 0 where
  pub stored : lookup id s.votes ≡ some v
  pub open_vote : v.status ≡ pending
  pub in_time : InTime now v.expires_at
  pub listed : elem option v.options ≡ true
  pub first : lookup voter v.votes_cast ≡ none
  pub paid : Affords voter s.credit_price_per_vote s

module _ (voter id option now : ℕ) (s : VotingSystem) where
  cast_on-Accepts :
      (v : Vote)
      → lookup id s.votes ≡ some v
      → (cast_on voter id option now v s).0 ≡ true
      → Accepts voter id option now v s
  unfolding cast_on
  cast_on-Accepts v e h = record {
    stored = e;
    open_vote = ground arith;
    in_time = (is_past-InTime now v.expires_at).0 (ground arith);
    listed = ground arith;
    first = ground arith;
    paid = (spend_credits_iff voter s.credit_price_per_vote s).0 (ground arith);
  }

  -- A ballot is taken exactly when all that `Accepts` asks for holds.
  pub cast_vote_iff :
      ((cast_vote voter id option now s).0 ≡ true) ↔ ((v : Vote) × Accepts voter id option now v s)
  unfolding cast_vote
  cast_vote_iff = (there, back)
    where
      there :
          (cast_vote voter id option now s).0 ≡ true → (v : Vote) × Accepts voter id option now v s
      there h = elim (Option-cases (lookup id s.votes)) [
        | inl e ↦ absurd (ground arith)
        | inr (v, e) ↦ (v, cast_on-Accepts v e (rw (e, cast_vote) at h))
      ]

      back :
          (v : Vote) × Accepts voter id option now v s → (cast_vote voter id option now s).0 ≡ true
      back (v, a) = ground (
        arith,
        (is_past-InTime now v.expires_at).1 a.in_time,
        (spend_credits_iff voter s.credit_price_per_vote s).1 a.paid,
      )

  cast_vote-record :
      (v : Vote)
      → Accepts voter id option now v s
      → cast_vote voter id option now s
        ≡ (true, record_ballot voter id option v (spend_credits voter s.credit_price_per_vote s).1)
  unfolding cast_vote
  cast_vote-record v a = ground (
    arith,
    (is_past-InTime now v.expires_at).1 a.in_time,
    (spend_credits_iff voter s.credit_price_per_vote s).1 a.paid,
  )

  record_ballot-votes :
      (v : Vote) (j : ℕ)
      → lookup j (record_ballot voter id option v s).votes ≡ (
          if j == id
          then some (record v { votes_cast = insert voter option v.votes_cast })
          else lookup j s.votes)
  unfolding record_ballot create_account
  record_ballot-votes v j = ground (
    arith,
    lookup-insert id j (record v { votes_cast = insert voter option v.votes_cast }) s.votes,
  )

  record_ballot-accounts :
      (v : Vote) (a : CreditAccount) (j : ℕ)
      → lookup voter s.accounts ≡ some a
      → lookup j (record_ballot voter id option v s).accounts ≡ (
          if j == voter
          then some (record a { votes_cast = a.votes_cast + 1 })
          else lookup j s.accounts)
  unfolding record_ballot create_account
  record_ballot-accounts v a j e =
      ground (arith, lookup-insert voter j (record a { votes_cast = a.votes_cast + 1 }) s.accounts)

module _ (voter id option now : ℕ) (s : VotingSystem) (v : Vote)
    (ok : Accepts voter id option now v s) where
  -- A taken ballot is stored under the voter's name, the voter pays the price and counts one more
  -- ballot, and no other vote and no other account changes.
  pub cast_vote_effect :
      (j : ℕ)
      → (lookup j (cast_vote voter id option now s).1.votes ≡ (
          if j == id
          then some (record v { votes_cast = insert voter option v.votes_cast })
          else lookup j s.votes))
        × (lookup j (cast_vote voter id option now s).1.accounts ≡ (
            if j == voter
            then some (record (pay s.credit_price_per_vote ok.paid.account) {
              votes_cast = ok.paid.account.votes_cast + 1;
            })
            else lookup j s.accounts))
  cast_vote_effect j =
      let paid = (spend_credits voter s.credit_price_per_vote s).1 in
      let price = s.credit_price_per_vote in
      let account = pay price ok.paid.account in
      let stored = spend_credits-accounts voter voter price s ok.paid in
      rw (cast_vote-record voter id option now s v ok) (
        ground (
          arith,
          record_ballot-votes voter id option now paid v j,
          spend_credits-votes voter price s,
        ),
        ground (
          arith,
          record_ballot-accounts voter id option now paid v account j,
          stored,
          spend_credits-accounts voter j price s ok.paid,
        ),
      )

-- A refused ballot changes nothing, but that a pending vote whose deadline has passed is marked as
-- expired.
pub cast_vote_refused :
    (voter id option now : ℕ) (s : VotingSystem)
    → (cast_vote voter id option now s).0 ≡ false
    → ((cast_vote voter id option now s).1 ≡ s)
      ⊎ ((v : Vote) × (lookup id s.votes ≡ some v)
          × (v.status ≡ pending)
          × (¬ InTime now v.expires_at)
          × ((cast_vote voter id option now s).1 ≡ put_vote id (record v { status = expired }) s))
unfolding cast_vote cast_on spend_credits
cast_vote_refused voter id option now s h = elim (Option-cases (lookup id s.votes)) [
  | inl e ↦ inl (ground arith)
  | inr (v, e) ↦ elim (Bool-cases (is_past now v.expires_at)) [
    | inl late ↦ elim (Bool-cases (is_pending v.status)) [
      | inl waits ↦ inr (
        v,
        e,
        ground arith,
        (λ t. cc (late, (is_past-InTime now v.expires_at).1 t)),
        ground arith,
      )
      | inr done ↦ inl (ground arith)
    ]
    | inr early ↦ inl (ground arith)
  ]
]
