-- ===== src/Voting/Finalize/Frame.antt =====
-- What the operations that end votes leave alone (legacy/worker/src/daemon/voting_system.py).
use distrib_ai.Base.{
  ℕ, ◌≡◌, ◌≢◌, ◌==◌, refl, ◌∙◌, some, List, [], ◌∷◌, arith, Option-cases, Bool-cases, inl, inr,
}
use distrib_ai.Base.Dict.{lookup, keys, lookup-insert}
use distrib_ai.Voting.Finalize.Winner.{finalize_vote_final}
use distrib_ai.Voting.Types.{
  pending, approved, rejected, expired, quorum_not_met, QuorumConfig, Vote, VotingSystem,
}
use distrib_ai.Base.Int.{ℤ}
use distrib_ai.Base.Dict.{Dict}
use distrib_ai.Voting.Finalize.{
  config_of, best, expire_all, remove_stale, tally_by, decide_vote, close_vote, finalize_vote,
  expire_votes, cleanup_expired_votes, get_vote_status, report_each, get_active_votes,
}

decide_vote-accounts :
    (c : QuorumConfig) (id : ℕ) (v : Vote) (tally : Dict ℤ) (s : VotingSystem)
    → (decide_vote c id v tally s).1.accounts ≡ s.accounts
unfolding decide_vote
decide_vote-accounts c id v [] s = refl
decide_vote-accounts c id v (e ∷ d) s = ground arith

close_vote-accounts :
    (c : QuorumConfig) (id : ℕ) (v : Vote) (s : VotingSystem)
    → (close_vote c id v s).1.accounts ≡ s.accounts
unfolding close_vote
close_vote-accounts c id v s = ground (arith, decide_vote-accounts c id v (tally_by c id s) s)

-- No call that ends or reports votes touches an account.
pub finalize_vote-accounts :
    (id now : ℕ) (s : VotingSystem) → (finalize_vote id now s).1.accounts ≡ s.accounts
unfolding finalize_vote
finalize_vote-accounts id now s = elim (Option-cases (lookup id s.votes)) [
  | inl e ↦ ground arith
  | inr (v, e) ↦ ground (arith, close_vote-accounts (config_of v.vote_type s) id v s)
]

pub expire_votes-accounts :
    (now : ℕ) (s : VotingSystem) → (expire_votes now s).1.accounts ≡ s.accounts
unfolding expire_votes
expire_votes-accounts now s = refl

pub cleanup_expired_votes-accounts :
    (max_age now : ℕ) (s : VotingSystem)
    → (cleanup_expired_votes max_age now s).1.accounts ≡ s.accounts
unfolding cleanup_expired_votes
cleanup_expired_votes-accounts max_age now s = refl

pub get_vote_status-accounts :
    (id now now' : ℕ) (s : VotingSystem) → (get_vote_status id now now' s).1.accounts ≡ s.accounts
unfolding get_vote_status
get_vote_status-accounts id now now' s = ground (arith, finalize_vote-accounts id now' s)

report_each-accounts :
    (now : ℕ) (ids : List ℕ) (s : VotingSystem) → (report_each now ids s).1.accounts ≡ s.accounts
unfolding report_each
report_each-accounts now [] s = refl
report_each-accounts now (id ∷ ids) s = ground (
  arith,
  get_vote_status-accounts id now now s,
  report_each-accounts now ids (get_vote_status id now now s).1,
  report_each-accounts now ids s,
)

pub get_active_votes-accounts :
    (now : ℕ) (s : VotingSystem) → (get_active_votes now s).1.accounts ≡ s.accounts
unfolding get_active_votes
get_active_votes-accounts now s = report_each-accounts now (keys s.votes) s

-- The vote is neither pending nor expired: approved, rejected, or short of its quorum.
pub record IsDecided (v : Vote) : Type 0 where
  pub closed : v.status ≢ pending
  pub counted : v.status ≢ expired

-- The vote that is stored under `id` is still there.
abbrev pub Keeps : ℕ → Vote → VotingSystem → VotingSystem → Type 0
Keeps id v s s' = lookup id s.votes ≡ some v → lookup id s'.votes ≡ some v

decide_vote-others :
    (c : QuorumConfig) (id : ℕ) (v : Vote) (tally : Dict ℤ) (s : VotingSystem) (j : ℕ)
    → j ≢ id
    → lookup j (decide_vote c id v tally s).1.votes ≡ lookup j s.votes
unfolding decide_vote
decide_vote-others c id v [] s j n = refl
decide_vote-others c id v (e ∷ d) s j n = ground (
  arith,
  lookup-insert id j (record v { status = approved; winning_option = some (best e d).0 }) s.votes,
  lookup-insert id j (record v { status = rejected }) s.votes,
)

close_vote-others :
    (c : QuorumConfig) (id : ℕ) (v : Vote) (s : VotingSystem) (j : ℕ)
    → j ≢ id
    → lookup j (close_vote c id v s).1.votes ≡ lookup j s.votes
unfolding close_vote
close_vote-others c id v s j n = ground (
  arith,
  decide_vote-others c id v (tally_by c id s) s j n,
  lookup-insert id j (record v { status = quorum_not_met }) s.votes,
)

-- No call that ends or reports a vote touches another one.
pub finalize_vote-others :
    (id now : ℕ) (s : VotingSystem) (j : ℕ)
    → j ≢ id
    → lookup j (finalize_vote id now s).1.votes ≡ lookup j s.votes
unfolding finalize_vote
finalize_vote-others id now s j n = elim (Option-cases (lookup id s.votes)) [
  | inl e ↦ ground arith
  | inr (v, e) ↦ ground (
    arith,
    close_vote-others (config_of v.vote_type s) id v s j n,
    lookup-insert id j (record v { status = expired }) s.votes,
  )
]

module _ (id : ℕ) (v : Vote) (d : IsDecided v) where
  pub finalize_vote-Keeps : (j now : ℕ) (s : VotingSystem) → Keeps id v s (finalize_vote j now s).1
  finalize_vote-Keeps j now s e = elim (Bool-cases (id == j)) [
    | inl same ↦ ground (arith, finalize_vote_final id now s v e d.closed)
    | inr other ↦ finalize_vote-others j now s id (ground arith) ∙ e
  ]

  expire_all-Keeps :
      (now : ℕ) (votes : Dict Vote)
      → lookup id votes ≡ some v
      → lookup id (expire_all now votes).1 ≡ some v
  unfolding expire_all
  expire_all-Keeps now [] e = absurd (cc)
  expire_all-Keeps now (x ∷ votes) e = ground (arith, expire_all-Keeps now votes, d.closed)

  remove_stale-Keeps :
      (max_age now : ℕ) (votes : Dict Vote)
      → lookup id votes ≡ some v
      → lookup id (remove_stale max_age now votes).1 ≡ some v
  unfolding remove_stale
  remove_stale-Keeps max_age now [] e = absurd (cc)
  remove_stale-Keeps max_age now (x ∷ votes) e =
      ground (arith, remove_stale-Keeps max_age now votes, d.counted)

  pub expire_votes-Keeps : (now : ℕ) (s : VotingSystem) → Keeps id v s (expire_votes now s).1
  unfolding expire_votes
  expire_votes-Keeps now s e = expire_all-Keeps now s.votes e

  pub cleanup_expired_votes-Keeps :
      (max_age now : ℕ) (s : VotingSystem) → Keeps id v s (cleanup_expired_votes max_age now s).1
  unfolding cleanup_expired_votes
  cleanup_expired_votes-Keeps max_age now s e = remove_stale-Keeps max_age now s.votes e

  pub get_vote_status-Keeps :
      (j now now' : ℕ) (s : VotingSystem) → Keeps id v s (get_vote_status j now now' s).1
  unfolding get_vote_status
  get_vote_status-Keeps j now now' s e = ground (arith, finalize_vote-Keeps j now' s e)

  report_each-Keeps :
      (now : ℕ) (ids : List ℕ) (s : VotingSystem) → Keeps id v s (report_each now ids s).1
  unfolding report_each
  report_each-Keeps now [] s e = e
  report_each-Keeps now (j ∷ ids) s e = ground (
    arith,
    get_vote_status-Keeps j now now s e,
    report_each-Keeps now ids (get_vote_status j now now s).1,
    report_each-Keeps now ids s,
  )

  pub get_active_votes-Keeps :
      (now : ℕ) (s : VotingSystem) → Keeps id v s (get_active_votes now s).1
  unfolding get_active_votes
  get_active_votes-Keeps now s e = report_each-Keeps now (keys s.votes) s e
