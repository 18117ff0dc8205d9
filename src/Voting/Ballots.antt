-- ===== src/Voting/Ballots.antt =====
-- Proposing, voting and counting: `create_vote`, `cast_vote`, `tally_vote`, `_tally_simple` and
-- `_tally_weighted` (legacy/worker/src/daemon/voting_system.py).
pub mod Casting
pub mod Tally
pub mod Frame
use distrib_ai.Base.{
  ℕ, ◌+◌, ◌*◌, Bool, true, false, not, ◌&&◌, Option, none, some, List, [], ◌∷◌, if◌then◌else◌,
  Outcome, returned, value_error, ltb, elem,
}
use distrib_ai.Base.Int.{ℤ, pos, ◌+ℤ◌}
use distrib_ai.Base.Dict.{Dict, lookup, insert, contains, values}
use distrib_ai.Voting.Types.{
  one, VoteStatus, pending, approved, rejected, expired, quorum_not_met, VoteType, Vote,
  CreditAccount, VotingSystem,
}
use distrib_ai.Voting.Accounts.{put_account, create_account, spend_credits}

abbrev pub is_pending : VoteStatus → Bool
is_pending pending = true
is_pending _ = false

-- `expires_at and now > expires_at`: no deadline, and the deadline 0.0, never pass.
abbrev pub is_past : ℕ → Option ℕ → Bool
is_past now none = false
is_past now (some t) = ltb 0 t && ltb t now

-- A write to a vote object of the dict.
abbrev pub put_vote : ℕ → Vote → VotingSystem → VotingSystem
put_vote id v s = record s { votes = insert id v s.votes }

-- `Vote(...)` as `create_vote` calls it: the other fields have their defaults.
abbrev pub new_vote : ℕ → VoteType → ℕ → ℕ → ℕ → List ℕ → ℕ → ℕ → ℤ → Vote
new_vote id type title description proposer options created expires required = record {
  id = id;
  vote_type = type;
  title = title;
  description = description;
  proposer = proposer;
  options = options;
  created_at = created;
  expires_at = some expires;
  status = pending;
  votes_cast = [];
  signatures = [];
  credits_required = required;
  min_participation = 10;
  quorum_required = 50;
  weighted_voting = true;
  delegation_chain = [];
  winning_option = none;
}

-- What a call of `create_vote` is given.
pub record Proposal : Type 0 where
  pub proposer : ℕ
  pub vote_type : VoteType
  pub title : ℕ
  pub description : ℕ
  pub options : List ℕ
  pub credits_required : ℤ
  pub duration_hours : ℕ

-- `digest proposer title time` is the first 16 hexadecimal digits of the SHA-256 of the three. The
-- clock is read for the identifier, for the deadline and for `created_at`, in this order.
unfoldable pub create_vote :
    (digest : ℕ → ℕ → ℕ → ℕ) → Proposal → ℕ → ℕ → ℕ → VotingSystem → Outcome ℕ × VotingSystem
create_vote digest p now now' now'' s =
    let (paid, s') = spend_credits p.proposer p.credits_required s in
    let id = digest p.proposer p.title now in
    let vote =
      new_vote id p.vote_type p.title p.description p.proposer p.options now''
        (now' + p.duration_hours * 3600) p.credits_required in
    if paid then (returned id, put_vote id vote s') else (value_error, s')

-- The end of `cast_vote`, behind the payment: the ballot, and the voter's count.
record_ballot : ℕ → ℕ → ℕ → Vote → VotingSystem → VotingSystem
record_ballot voter id option v s =
    let voted = put_vote id (record v { votes_cast = insert voter option v.votes_cast }) s in
    let (a, s') = create_account voter voted in
    put_account voter (record a { votes_cast = a.votes_cast + 1 }) s'

-- `cast_vote` on a vote that is there.
cast_on : ℕ → ℕ → ℕ → ℕ → Vote → VotingSystem → Bool × VotingSystem
unfolding record_ballot
cast_on voter id option now v s =
    if not (is_pending v.status)
    then (false, s)
    else if is_past now v.expires_at
    then (false, put_vote id (record v { status = expired }) s)
    else if not (elem option v.options)
    then (false, s)
    else if contains voter v.votes_cast
    then (false, s)
    else let (paid, s') = spend_credits voter s.credit_price_per_vote s in
      if paid then (true, record_ballot voter id option v s') else (false, s')

unfoldable pub cast_vote : ℕ → ℕ → ℕ → ℕ → VotingSystem → Bool × VotingSystem
unfolding cast_on
cast_vote voter id option now s = elim (lookup id s.votes) [
  | none ↦ (false, s)
  | some v ↦ cast_on voter id option now v s
]

-- `dict.fromkeys(options, v)`, added to `d`.
abbrev pub from_keys : {V : Type 0} → Dict V → List ℕ → V → Dict V
from_keys d [] v = d
from_keys d (k ∷ ks) v = from_keys (insert k v d) ks v

-- `if option in tally: tally[option] += 1`
abbrev pub bump : ℕ → Dict ℕ → Dict ℕ
bump option tally = elim (lookup option tally) [
  | none ↦ tally
  | some n ↦ insert option (n + 1) tally
]

pub count_ballots : Dict ℕ → List ℕ → Dict ℕ
count_ballots tally [] = tally
count_ballots tally (option ∷ ballots) = count_ballots (bump option tally) ballots

unfoldable pub tally_vote : ℕ → VotingSystem → Dict ℕ
unfolding count_ballots
tally_vote id s = elim (lookup id s.votes) [
  | none ↦ []
  | some v ↦ count_ballots (from_keys [] v.options 0) (values v.votes_cast)
]

unfoldable pub tally_simple : ℕ → VotingSystem → Dict ℕ
unfolding count_ballots
tally_simple id s = elim (lookup id s.votes) [
  | none ↦ []
  | some v ↦ count_ballots (from_keys [] v.options 0) (values v.votes_cast)
]

-- The balances of the delegates that have an account.
abbrev pub delegated_weight : Dict CreditAccount → List ℕ → ℤ
delegated_weight accounts [] = pos 0
delegated_weight accounts (d ∷ ds) =
    let rest = delegated_weight accounts ds in
    elim (lookup d accounts) [ none ↦ rest | some a ↦ a.balance +ℤ rest ]

abbrev pub weight : Dict CreditAccount → ℕ → ℤ
weight accounts voter = elim (lookup voter accounts) [
  | none ↦ one
  | some a ↦ a.balance +ℤ delegated_weight accounts a.delegates
]

abbrev pub add_weight : ℕ → ℤ → Dict ℤ → Dict ℤ
add_weight option w tally = elim (lookup option tally) [
  | none ↦ tally
  | some n ↦ insert option (n +ℤ w) tally
]

pub weigh_ballots : Dict CreditAccount → Dict ℤ → Dict ℕ → Dict ℤ
weigh_ballots accounts tally [] = tally
weigh_ballots accounts tally ((voter, option) ∷ ballots) =
    weigh_ballots accounts (add_weight option (weight accounts voter) tally) ballots

unfoldable pub tally_weighted : ℕ → VotingSystem → Dict ℤ
unfolding weigh_ballots
tally_weighted id s = elim (lookup id s.votes) [
  | none ↦ []
  | some v ↦ weigh_ballots s.accounts (from_keys [] v.options (pos 0)) v.votes_cast
]
