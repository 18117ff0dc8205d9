-- ===== src/Voting/Requests.antt =====
-- The calls that a client makes of a `VotingSystem` (legacy/worker/src/daemon/voting_system.py), and
-- a run of them. A call that reads the clock carries what it reads.
pub mod Invariants
pub mod Settled
use distrib_ai.Base.{ℕ, List, [], ◌∷◌}
use distrib_ai.Base.Int.{ℤ}
use distrib_ai.Voting.Types.{VotingSystem}
use distrib_ai.Voting.Accounts
use distrib_ai.Voting.Ballots
use distrib_ai.Voting.Ballots.{Proposal}
use distrib_ai.Voting.Finalize
use distrib_ai.Voting.Delegation
use distrib_ai.Voting.Signatures
use distrib_ai.Voting.Signatures.{Platform}

pub data Request : Type 0 where
  create_account : (id : ℕ) → Request
  add_credits spend_credits update_reputation : (id : ℕ) (amount : ℤ) → Request
  create_vote : (proposal : Proposal) (now now' now'' : ℕ) → Request
  cast_vote : (voter id option now : ℕ) → Request
  finalize_vote : (id now : ℕ) → Request
  delegate_vote : (voter target : ℕ) → Request
  revoke_delegation : (voter : ℕ) → Request
  sign_vote : (id voter now : ℕ) → Request
  expire_votes : (now : ℕ) → Request
  cleanup_expired_votes : (max_age_hours now : ℕ) → Request
  get_vote_status : (id now now' : ℕ) → Request
  get_active_votes : (now : ℕ) → Request

module _ (p : Platform) where
  -- The state behind a call.
  unfoldable pub serve : Request → VotingSystem → VotingSystem
  serve (Request.create_account id) s = (Accounts.create_account id s).1
  serve (Request.add_credits id amount) s = (Accounts.add_credits id amount s).1
  serve (Request.spend_credits id amount) s = (Accounts.spend_credits id amount s).1
  serve (Request.update_reputation id delta) s = (Accounts.update_reputation id delta s).1
  serve (Request.create_vote proposal now now' now'') s =
      (Ballots.create_vote p.digest proposal now now' now'' s).1
  serve (Request.cast_vote voter id option now) s = (Ballots.cast_vote voter id option now s).1
  serve (Request.finalize_vote id now) s = (Finalize.finalize_vote id now s).1
  serve (Request.delegate_vote voter target) s = (Delegation.delegate_vote voter target s).1
  serve (Request.revoke_delegation voter) s = (Delegation.revoke_delegation voter s).1
  serve (Request.sign_vote id voter now) s = (Signatures.sign_vote p id voter now s).1
  serve (Request.expire_votes now) s = (Finalize.expire_votes now s).1
  serve (Request.cleanup_expired_votes max_age now) s =
      (Finalize.cleanup_expired_votes max_age now s).1
  serve (Request.get_vote_status id now now') s = (Finalize.get_vote_status id now now' s).1
  serve (Request.get_active_votes now) s = (Finalize.get_active_votes now s).1

  unfoldable pub run : List Request → VotingSystem → VotingSystem
  run [] s = s
  run (r ∷ rs) s = run rs (serve r s)
