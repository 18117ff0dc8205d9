-- ===== src/Voting/Quadratic/Examples.antt =====
-- The theorems of quadratic voting at concrete inputs, and tests of its operations
-- (legacy/worker/src/daemon/voting_system.py).
use distrib_ai.Base.{◌+◌, ◌≡◌, ◌↔◌, ◌++◌, refl, true, some, [], ◌∷◌, is_some}
use distrib_ai.Base.Int.{pos, negsuc, ◌*ℤ◌, ◌+ℤ◌}
use distrib_ai.Base.Dict.{lookup}
use distrib_ai.Voting.Types.{approved, job_priority, VotingSystem, new_account}
use distrib_ai.Voting.Accounts.{initial_configs, spend_credits}
use distrib_ai.Voting.Accounts.Books.{IsSound, Affords}
use distrib_ai.Voting.Ballots.{new_vote}
use distrib_ai.Voting.Quadratic.{
  QuadraticVotingSystem, Hashing, Readings, quadratic, SignedReceipt, new_quadratic, price,
  check_vote_velocity, record_vote_activity, record_quadratic, cast_enabled, cast_quadratic_vote,
  sign_receipt, tally_quadratic_votes, tally_from,
}
use distrib_ai.Voting.Quadratic.Casting.{
  IsWithinLimits, Effect, cast_quadratic_vote_iff, cast_quadratic_vote-Effect,
}
use distrib_ai.Voting.Quadratic.Tally.{or_zero}

abbrev hashing : Hashing
hashing = record {
  mac = λ key message. key ++ message;
  dumps = λ r. r.receipt_id ∷ r.voter_id ∷ [];
  digest = λ a b t. a + b + t;
}

-- Voter 1 holds 30 credits, and vote 7 is approved.
abbrev base : VotingSystem
base = record {
  votes =
      (
        7,
        record (new_vote 7 job_priority 21 22 1 (11 ∷ 12 ∷ []) 100 5000 (pos 100)) {
          status = approved;
        },
      )
      ∷ [];
  accounts =
      (1, record (new_account 1) { balance = pos 30000000; credits_earned = pos 30000000 }) ∷ [];
  credit_price_per_vote = pos 10000000;
  vote_duration_hours = 24;
  signing_key = 9 ∷ [];
  quorum_configs = initial_configs;
}

abbrev quadratic_system : QuadraticVotingSystem
quadratic_system = new_quadratic base true

abbrev readings : Readings
readings = record { checked = 200; voted = 201; logged = 202; received = 203; named = 204 }

abbrev receipt : SignedReceipt
receipt = record {
  receipt = record {
    voter_id = 1;
    vote_id = 7;
    option = 11;
    votes = pos 5;
    credits_spent = pos 25;
    timestamp = 203;
    receipt_id = 212;
  };
  signature = 9 ∷ 212 ∷ 1 ∷ [];
}

-- Five votes cost 25 credits.
five_votes :
    (cast_quadratic_vote hashing 1 7 11 (pos 5) readings quadratic_system).0
    ≡ some (quadratic receipt)
unfolding cast_quadratic_vote cast_enabled check_vote_velocity record_quadratic record_vote_activity
    sign_receipt spend_credits ◌*ℤ◌
five_votes = refl

-- An option that the vote does not have, and a negative number of votes, are taken as well.
negative_votes :
    or_zero (
      lookup 99 (
        tally_quadratic_votes 7
          (cast_quadratic_vote hashing 1 7 99 (negsuc 4) readings quadratic_system).1))
    ≡ negsuc 4
unfolding cast_quadratic_vote cast_enabled check_vote_velocity record_quadratic record_vote_activity
    sign_receipt spend_credits ◌*ℤ◌ tally_quadratic_votes tally_from ◌+ℤ◌
negative_votes = refl

cast_quadratic_vote_iff_example :
    (is_some (cast_quadratic_vote hashing 1 7 11 (pos 5) readings quadratic_system).0 ≡ true)
    ↔ (IsWithinLimits 1 7 200 quadratic_system × Affords 1 (price (pos 5)) base)
cast_quadratic_vote_iff_example =
    cast_quadratic_vote_iff hashing 1 7 11 (pos 5) readings quadratic_system refl

cast_quadratic_vote-Effect_example :
    Effect hashing 1 7 11
      (pos 5)
      readings
      quadratic_system
      (cast_quadratic_vote hashing 1 7 11 (pos 5) readings quadratic_system).1
cast_quadratic_vote-Effect_example =
    cast_quadratic_vote-Effect hashing 1 7 11 (pos 5) readings quadratic_system receipt five_votes

base-IsSound : IsSound base
unfolding ◌+ℤ◌
base-IsSound = (refl, tt)
