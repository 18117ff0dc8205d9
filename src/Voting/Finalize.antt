-- ===== src/Voting/Finalize.antt =====
-- Ending a vote: `finalize_vote`, `expire_votes`, `cleanup_expired_votes`, `get_vote_status` and
-- `get_active_votes` (legacy/worker/src/daemon/voting_system.py).
pub mod Winner
pub mod Frame
use distrib_ai.Base.{
  ℕ, ◌+◌, ◌-◌, ◌*◌, Bool, true, false, not, ◌&&◌, Option, none, some, List, [], ◌∷◌, map,
  if◌then◌else◌, ltb, leb, length,
}
use distrib_ai.Base.Int.{ℤ, pos, ◌*ℤ◌, ltb_ℤ, leb_ℤ, sum_ℤ}
use distrib_ai.Base.Dict.{Dict, lookup, values, keys}
use distrib_ai.Voting.Types.{
  VoteStatus, pending, approved, rejected, expired, quorum_not_met, VoteType, Vote, CreditAccount,
  QuorumConfig, VotingSystem, default_config,
}
use distrib_ai.Voting.Ballots.{
  is_pending, is_past, put_vote, tally_vote, tally_simple, tally_weighted,
}

-- `self.quorum_configs.get(vote_type)`, or the default.
abbrev pub config_of : VoteType → VotingSystem → QuorumConfig
config_of t s = elim (s.quorum_configs t) [ none ↦ default_config t | some c ↦ c ]

-- `max(tally, key=tally.get)`: the first key with the greatest value.
pub best : ℕ × ℤ → Dict ℤ → ℕ × ℤ
best top [] = top
best top (e ∷ d) = best (if ltb_ℤ top.1 e.1 then e else top) d

-- `part / total >= percent / 100`, for a total that is not 0: division by a negative total turns
-- the order round.
pub ratio_at_least : ℤ → ℤ → ℕ → Bool
ratio_at_least part total percent =
    if ltb_ℤ (pos 0) total
    then leb_ℤ (pos percent *ℤ total) (pos 100 *ℤ part)
    else leb_ℤ (pos 100 *ℤ part) (pos percent *ℤ total)

-- The counts of `_tally_simple` as integers, so that both tallies have one type.
abbrev pub as_weights : Dict ℕ → Dict ℤ
as_weights [] = []
as_weights ((k, n) ∷ d) = (k, pos n) ∷ as_weights d

abbrev pub tally_by : QuorumConfig → ℕ → VotingSystem → Dict ℤ
tally_by c id s = if c.weighted_voting then tally_weighted id s else as_weights (tally_simple id s)

-- The end of `finalize_vote`: the winner of a tally, and whether its share is enough.
unfoldable pub decide_vote :
    QuorumConfig → ℕ → Vote → Dict ℤ → VotingSystem → Option ℕ × VotingSystem
unfolding best ratio_at_least
decide_vote c id v [] s = (none, s)
decide_vote c id v (e ∷ d) s =
    let total = sum_ℤ (values (e ∷ d)) in
    let (winner, share) = best e d in
    if leb_ℤ total (pos 0) && leb_ℤ (pos 0) total
    then (none, s)
    else if ratio_at_least share total c.approval_threshold
    then (some winner, put_vote id (record v { status = approved; winning_option = some winner }) s)
    else (some winner, put_vote id (record v { status = rejected }) s)

-- `finalize_vote` on a pending vote whose deadline has not passed.
unfoldable pub close_vote : QuorumConfig → ℕ → Vote → VotingSystem → Option ℕ × VotingSystem
close_vote c id v s =
    let cast = length v.votes_cast in
    let voters = length s.accounts in
    if ltb cast c.min_voters
    then (none, s)
    else if ltb 0 voters && ltb (cast * 100) (c.quorum_required * voters)
    then (none, put_vote id (record v { status = quorum_not_met }) s)
    else decide_vote c id v (tally_by c id s) s

-- `finalize_vote` on a vote that is there.
finalize_on : ℕ → ℕ → Vote → VotingSystem → Option ℕ × VotingSystem
finalize_on id now v s = elim v.status [
  | pending ↦
      if is_past now v.expires_at
      then (none, put_vote id (record v { status = expired }) s)
      else close_vote (config_of v.vote_type s) id v s
  | approved ↦ (v.winning_option, s)
  | _ ↦ (none, s)
]

unfoldable pub finalize_vote : ℕ → ℕ → VotingSystem → Option ℕ × VotingSystem
unfolding finalize_on
finalize_vote id now s = elim (lookup id s.votes) [
  | none ↦ (none, s)
  | some v ↦ finalize_on id now v s
]

-- The test of `expire_votes`.
abbrev pub is_due : ℕ → Vote → Bool
is_due now v = is_pending v.status && is_past now v.expires_at

expire_all : ℕ → Dict Vote → ℕ × Dict Vote
expire_all now [] = (0, [])
expire_all now ((k, v) ∷ d) =
    let (n, d') = expire_all now d in
    if is_due now v then (n + 1, (k, record v { status = expired }) ∷ d') else (n, (k, v) ∷ d')

unfoldable pub expire_votes : ℕ → VotingSystem → ℕ × VotingSystem
unfolding expire_all
expire_votes now s = let (n, d) = expire_all now s.votes in (n, record s { votes = d })

abbrev pub is_expired : VoteStatus → Bool
is_expired expired = true
is_expired _ = false

-- `age_hours > max_age_hours`, the age being `(now - created_at) / 3600`.
abbrev pub is_stale : ℕ → ℕ → Vote → Bool
is_stale max_age_hours now v =
    is_expired v.status && ltb (max_age_hours * 3600) (now - v.created_at)

remove_stale : ℕ → ℕ → Dict Vote → ℕ × Dict Vote
remove_stale max_age now [] = (0, [])
remove_stale max_age now ((k, v) ∷ d) =
    let (n, d') = remove_stale max_age now d in
    if is_stale max_age now v then (n + 1, d') else (n, (k, v) ∷ d')

unfoldable pub cleanup_expired_votes : ℕ → ℕ → VotingSystem → ℕ × VotingSystem
unfolding remove_stale
cleanup_expired_votes max_age now s =
    let (n, d) = remove_stale max_age now s.votes in (n, record s { votes = d })

-- The dict that `get_vote_status` returns.
pub record VoteReport : Type 0 where
  pub id : ℕ
  pub vote_type : VoteType
  pub title : ℕ
  pub description : ℕ
  pub proposer : ℕ
  pub options : List ℕ
  pub created_at : ℕ
  pub expires_at : Option ℕ
  pub status : VoteStatus
  pub votes_cast : ℕ
  pub tally : Dict ℕ
  pub winner : Option ℕ

abbrev pub report : Vote → Dict ℕ → VoteReport
report v tally = record {
  id = v.id;
  vote_type = v.vote_type;
  title = v.title;
  description = v.description;
  proposer = v.proposer;
  options = v.options;
  created_at = v.created_at;
  expires_at = v.expires_at;
  status = v.status;
  votes_cast = length v.votes_cast;
  tally = tally;
  winner = v.winning_option;
}

-- The clock is read for the test of the deadline, and once more by `finalize_vote`. The report reads
-- the vote object after that call.
unfoldable pub get_vote_status : ℕ → ℕ → ℕ → VotingSystem → Option VoteReport × VotingSystem
get_vote_status id now now' s = elim (lookup id s.votes) [
  | none ↦ (none, s)
  | some v ↦
      let tally = tally_vote id s in
      let s' = if is_due now v then (finalize_vote id now' s).1 else s in
      elim (lookup id s'.votes) [ none ↦ (none, s') | some v' ↦ (some (report v' tally), s') ]
]

-- The loop of `get_active_votes` over the identifiers; the clock is read at each as `now`.
report_each : ℕ → List ℕ → VotingSystem → List (Option VoteReport) × VotingSystem
report_each now [] s = ([], s)
report_each now (id ∷ ids) s =
    let (r, s') = get_vote_status id now now s in
    let waits = elim (lookup id s.votes) as (λ _. Bool) [
      | none ↦ false
      | some v ↦ is_pending v.status
    ] in
    let (rs, s'') = report_each now ids (if waits then s' else s) in
    (if waits then r ∷ rs else rs, s'')

unfoldable pub get_active_votes : ℕ → VotingSystem → List (Option VoteReport) × VotingSystem
unfolding report_each
get_active_votes now s = report_each now (keys s.votes) s
