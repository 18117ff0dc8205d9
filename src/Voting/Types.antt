-- ===== src/Voting/Types.antt =====
-- The state of legacy/worker/src/daemon/voting_system.py: its enums, its dataclasses and the fields
-- of `VotingSystem`. An amount is a signed number of millionths of a credit, a share is a number of
-- percents, a time is a natural number of seconds, and a name is a number (Base/Dict.antt).
use distrib_ai.Base.{ℕ, Bool, true, List, [], Option, none}
use distrib_ai.Base.Int.{ℤ, pos}
use distrib_ai.Base.Dict.{Dict}

-- One credit, and the reputation 1.0, in millionths.
abbrev pub one : ℤ
one = pos 1000000

abbrev pub Bytes : Type 0
Bytes = List ℕ

pub data VoteStatus : Type 0 where
  pending approved rejected expired quorum_not_met : VoteStatus

pub data VoteType : Type 0 where
  job_priority system_config governance parameter_change trust_anchor : VoteType

pub record VoteSignature : Type 0 where
  pub voter_id : ℕ
  pub signature : Bytes
  pub timestamp : ℕ

pub record Vote : Type 0 where
  pub id : ℕ
  pub vote_type : VoteType
  pub title : ℕ
  pub description : ℕ
  pub proposer : ℕ
  pub options : List ℕ
  pub created_at : ℕ
  pub expires_at : Option ℕ
  pub status : VoteStatus
  pub votes_cast : Dict ℕ
  pub signatures : List VoteSignature
  pub credits_required : ℤ
  pub min_participation : ℕ
  pub quorum_required : ℕ
  pub weighted_voting : Bool
  pub delegation_chain : Dict ℕ
  pub winning_option : Option ℕ

pub record CreditAccount : Type 0 where
  pub contributor_id : ℕ
  pub balance : ℤ
  pub credits_earned : ℤ
  pub credits_spent : ℤ
  pub votes_cast : ℕ
  pub reputation_score : ℤ
  pub delegated_to : Option ℕ
  pub delegates : List ℕ

pub record QuorumConfig : Type 0 where
  pub vote_type : VoteType
  pub min_participation : ℕ
  pub quorum_required : ℕ
  pub approval_threshold : ℕ
  pub weighted_voting : Bool
  pub min_voters : ℕ

pub record VotingSystem : Type 0 where
  pub votes : Dict Vote
  pub accounts : Dict CreditAccount
  pub credit_price_per_vote : ℤ
  pub vote_duration_hours : ℕ
  pub signing_key : Bytes
  pub quorum_configs : VoteType → Option QuorumConfig

-- `CreditAccount(contributor_id=id)`: every other field has its default.
abbrev pub new_account : ℕ → CreditAccount
new_account id = record {
  contributor_id = id;
  balance = pos 0;
  credits_earned = pos 0;
  credits_spent = pos 0;
  votes_cast = 0;
  reputation_score = pos 0;
  delegated_to = none;
  delegates = [];
}

-- `QuorumConfig(vote_type)`: the configuration of a type that has none.
abbrev pub default_config : VoteType → QuorumConfig
default_config t = record {
  vote_type = t;
  min_participation = 10;
  quorum_required = 50;
  approval_threshold = 50;
  weighted_voting = true;
  min_voters = 3;
}
