-- ===== src/Voting/Ballots/Frame.antt =====
-- Proposals and ballots, and the books of the accounts
-- (legacy/worker/src/daemon/voting_system.py).
use distrib_ai.Base.{ℕ, ◌+◌, arith, Option-cases, inl, inr}
use distrib_ai.Base.Dict.{lookup, insert, Each-insert}
use distrib_ai.Voting.Types.{Vote, VotingSystem}
use distrib_ai.Voting.Accounts.{create_account, spend_credits}
use distrib_ai.Voting.Accounts.Books.{
  IsBalanced, IsSound, create_account-IsSound, spend_credits-IsSound,
}
use distrib_ai.Voting.Ballots.{Proposal, put_vote, create_vote, record_ballot, cast_on, cast_vote}

pub create_vote-IsSound :
    (digest : ℕ → ℕ → ℕ → ℕ) (p : Proposal) (now now' now'' : ℕ) (s : VotingSystem)
    → IsSound s
    → IsSound (create_vote digest p now now' now'' s).1
unfolding create_vote
create_vote-IsSound digest p now now' now'' s h =
    ground (arith, spend_credits-IsSound p.proposer p.credits_required s h)

record_ballot-IsSound :
    (voter id option : ℕ) (v : Vote) (s : VotingSystem)
    → IsSound s
    → IsSound (record_ballot voter id option v s)
unfolding record_ballot
record_ballot-IsSound voter id option v s h =
    let voted = put_vote id (record v { votes_cast = insert voter option v.votes_cast }) s in
    let (a, s') = create_account voter voted in
    let (balanced, sound) = create_account-IsSound voter voted h in
    Each-insert IsBalanced voter (record a { votes_cast = a.votes_cast + 1 }) s'.accounts sound
      balanced

cast_on-IsSound :
    (voter id option now : ℕ) (v : Vote) (s : VotingSystem)
    → IsSound s
    → IsSound (cast_on voter id option now v s).1
unfolding cast_on
cast_on-IsSound voter id option now v s h =
    let (paid, s') = spend_credits voter s.credit_price_per_vote s in
    let sound = spend_credits-IsSound voter s.credit_price_per_vote s h in
    ground (arith, record_ballot-IsSound voter id option v s' sound)

pub cast_vote-IsSound :
    (voter id option now : ℕ) (s : VotingSystem)
    → IsSound s
    → IsSound (cast_vote voter id option now s).1
unfolding cast_vote
cast_vote-IsSound voter id option now s h = elim (Option-cases (lookup id s.votes)) [
  | inl e ↦ rw (e, cast_vote) h
  | inr (v, e) ↦ rw (e, cast_vote) (cast_on-IsSound voter id option now v s h)
]
