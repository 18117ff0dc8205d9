-- ===== src/Voting/Examples.antt =====
-- The theorems of the voting system at concrete inputs, and tests of its operations
-- (legacy/worker/src/daemon/voting_system.py).
use distrib_ai.Base.{
  ℕ, ◌+◌, take, ◌≡◌, ◌↔◌, refl, true, false, none, some, List, [], ◌∷◌, arith, inr,
}
use distrib_ai.Base.Int.{pos, ◌+ℤ◌, ◌-ℤ◌, ◌*ℤ◌}
use distrib_ai.Base.Dict.{Dict, lookup}
use distrib_ai.Voting.Types.{approved, job_priority, CreditAccount, Vote, VotingSystem, new_account}
use distrib_ai.Voting.Accounts.{initial_configs, add_credits, spend_credits}
use distrib_ai.Voting.Accounts.Books.{IsSound}
use distrib_ai.Voting.Ballots.{
  Proposal, create_vote, new_vote, cast_vote, tally_vote, tally_weighted,
}
use distrib_ai.Voting.Ballots.Casting.{Accepts, cast_vote_iff, cast_vote_effect}
use distrib_ai.Voting.Signatures.{Platform}
use distrib_ai.Voting.Ballots.Tally.{tally_weighted-support}
use distrib_ai.Voting.Finalize.Winner.{
  Ending, Approval, finalize_vote-Ending, finalize_vote_approved,
}
use distrib_ai.Voting.Delegation.Acyclic.{Leads, IsAcyclic, delegate_vote-IsAcyclic}
use distrib_ai.Voting.Requests.{Request, serve, run}
use distrib_ai.Voting.Requests.Invariants.{IsLiquid, run-IsLiquid, run-IsSound}
use distrib_ai.Voting.Requests.Settled.{Stores, run-decided}
use distrib_ai.Voting.Finalize.{finalize_vote, close_vote, decide_vote, config_of}
use distrib_ai.Voting.Delegation.{delegate_vote, would_create_cycle, redirect, next_of}

-- An account that has earned its balance.
abbrev earner : ℕ → ℕ → CreditAccount
earner id amount = record (new_account id) { balance = pos amount; credits_earned = pos amount }

-- Account 1 holds the delegation of account 4.
abbrev accounts : Dict CreditAccount
accounts =
    (1, record (earner 1 50000000) { delegates = 4 ∷ [] })
    ∷ (2, earner 2 30000000)
    ∷ (3, earner 3 10000000)
    ∷ (4, record (earner 4 20000000) { delegated_to = some 1 })
    ∷ []

abbrev ballot_box : Dict ℕ → Vote
ballot_box cast = record (new_vote 7 job_priority 21 22 1 (11 ∷ 12 ∷ []) 100 5000 (pos 100)) {
  votes_cast = cast;
}

abbrev system : Vote → VotingSystem
system v = record {
  votes = (7, v) ∷ [];
  accounts = accounts;
  credit_price_per_vote = pos 10000000;
  vote_duration_hours = 24;
  signing_key = [];
  quorum_configs = initial_configs;
}

-- Two ballots are cast, and three.
abbrev two : VotingSystem
two = system (ballot_box ((2, 12) ∷ (3, 11) ∷ []))

abbrev three : VotingSystem
three = system (ballot_box ((2, 12) ∷ (3, 11) ∷ (1, 11) ∷ []))

tally-three : tally_vote 7 three ≡ (11, 2) ∷ (12, 1) ∷ []
unfolding tally_vote
tally-three = refl

-- Account 1 weighs 50 credits and the 20 of account 4.
weighted-three : tally_weighted 7 three ≡ (11, pos 80000000) ∷ (12, pos 30000000) ∷ []
unfolding tally_weighted ◌+ℤ◌
weighted-three = refl

finalize-three : (finalize_vote 7 200 three).0 ≡ some 11
unfolding finalize_vote close_vote decide_vote tally_weighted ◌+ℤ◌ ◌*ℤ◌
finalize-three = refl

-- No accounts and no votes.
abbrev empty : VotingSystem
empty = record (system (ballot_box [])) { votes = []; accounts = [] }

empty-IsLiquid : IsLiquid empty
unfolding next_of
empty-IsLiquid = (λ id. Leads.stop id refl, λ x y n. (λ h. absurd (cc), λ h. absurd (cc)))

-- A platform with a code and a hash that are easy to follow.
abbrev platform : Platform
platform = record {
  mac = λ key message. message;
  digest = λ proposer title now. proposer + title + now;
  text = λ name. name ∷ [];
  decimal = λ time. time ∷ [];
}

-- Two accounts earn credits, one proposes, both delegate in turn, and the second is refused.
abbrev proposal : Proposal
proposal = record {
  proposer = 1;
  vote_type = job_priority;
  title = 5;
  description = 22;
  options = 11 ∷ 12 ∷ [];
  credits_required = pos 100;
  duration_hours = 24;
}

abbrev requests : List Request
requests =
    Request.add_credits 1 (pos 50000000)
    ∷ Request.add_credits 2 (pos 30000000)
    ∷ Request.create_vote proposal 1 2 3
    ∷ Request.cast_vote 2 7 11 4
    ∷ Request.delegate_vote 1 2
    ∷ Request.delegate_vote 2 1
    ∷ Request.finalize_vote 7 5
    ∷ []

run-requests : (delegate_vote 2 1 (run platform (take 5 requests) empty)).0 ≡ false
unfolding run serve add_credits spend_credits create_vote cast_vote delegate_vote would_create_cycle
    next_of redirect ◌+ℤ◌ ◌-ℤ◌
run-requests = refl

run-IsLiquid_example : IsLiquid (run platform requests empty)
run-IsLiquid_example = run-IsLiquid platform requests empty empty-IsLiquid

run-IsSound_example : IsSound (run platform requests empty)
run-IsSound_example = run-IsSound platform requests empty tt

-- Vote 7 is closed.
abbrev closed : Vote
closed = record (ballot_box ((2, 12) ∷ [])) { status = approved; winning_option = some 12 }

abbrev later : List Request
later =
    Request.cast_vote 1 7 11 4
    ∷ Request.finalize_vote 7 5
    ∷ Request.create_vote proposal 2 3 4
    ∷ Request.cleanup_expired_votes 0 90000
    ∷ []

run-decided_example : Stores 7 closed (run platform later (system closed))
run-decided_example =
    run-decided platform later (system closed) 7 closed refl
      (record { closed = λ e. cc; counted = λ e. cc }) (tt, (tt, (omega arith, (tt, tt))))

cast_vote_iff_example :
    ((cast_vote 1 7 11 200 two).0 ≡ true) ↔ ((v : Vote) × Accepts 1 7 11 200 v two)
cast_vote_iff_example = cast_vote_iff 1 7 11 200 two

accepted : Accepts 1 7 11 200 (ballot_box ((2, 12) ∷ (3, 11) ∷ [])) two
accepted = record {
  stored = refl;
  open_vote = refl;
  in_time = inr (omega arith);
  listed = refl;
  first = refl;
  paid = record {
    account = record (earner 1 50000000) { delegates = 4 ∷ [] };
    stored = refl;
    positive = omega arith;
    covered = omega arith;
  };
}

cast_vote_effect_example :
    (lookup 7 (cast_vote 1 7 11 200 two).1.votes
      ≡ some (ballot_box ((2, 12) ∷ (3, 11) ∷ (1, 11) ∷ [])))
    × (lookup 7 (cast_vote 1 7 11 200 two).1.accounts ≡ none)
cast_vote_effect_example =
    cast_vote_effect 1 7 11 200 two (ballot_box ((2, 12) ∷ (3, 11) ∷ [])) accepted 7

finalize_vote-Ending_example :
    Ending
      (config_of job_priority three)
      7
      200
      (ballot_box ((2, 12) ∷ (3, 11) ∷ (1, 11) ∷ []))
      three
      (finalize_vote 7 200 three)
finalize_vote-Ending_example =
    finalize_vote-Ending 7 200 three (ballot_box ((2, 12) ∷ (3, 11) ∷ (1, 11) ∷ [])) refl refl

abbrev won : Vote
won = record (ballot_box ((2, 12) ∷ (3, 11) ∷ (1, 11) ∷ [])) {
  status = approved;
  winning_option = some 11;
}

finalize_vote_approved_example :
    (w : ℕ) × Approval
      (config_of job_priority three)
      7
      200
      w
      (ballot_box ((2, 12) ∷ (3, 11) ∷ (1, 11) ∷ []))
      three
    × ((finalize_vote 7 200 three).0 ≡ some w)
    × (won ≡ record (ballot_box ((2, 12) ∷ (3, 11) ∷ (1, 11) ∷ [])) {
      status = approved;
      winning_option = some w;
    })
unfolding finalize_vote close_vote decide_vote tally_weighted ◌+ℤ◌ ◌*ℤ◌
finalize_vote_approved_example =
    finalize_vote_approved 7 200 three (ballot_box ((2, 12) ∷ (3, 11) ∷ (1, 11) ∷ [])) won refl refl
      refl refl

tally_weighted-support_example : lookup 11 (tally_weighted 7 three) ≡ some (pos 80000000)
unfolding ◌+ℤ◌
tally_weighted-support_example =
    tally_weighted-support 7 11 three (ballot_box ((2, 12) ∷ (3, 11) ∷ (1, 11) ∷ [])) refl

delegate_vote-IsAcyclic_example : IsAcyclic (delegate_vote 2 1 (run platform requests empty)).1
delegate_vote-IsAcyclic_example =
    delegate_vote-IsAcyclic 2 1 (run platform requests empty) run-IsLiquid_example.0
