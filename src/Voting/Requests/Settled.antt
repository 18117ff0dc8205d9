-- ===== src/Voting/Requests/Settled.antt =====
-- A decided vote stays decided (legacy/worker/src/daemon/voting_system.py).
use distrib_ai.Base.{
  ℕ, ◌+◌, ◌*◌, ◌≡◌, refl, some, List, [], ◌∷◌, ◌++◌, arith, Option-cases, Bool-cases, inl, inr, sym,
  ◌≢◌, ap, ◌==◌, ◌∙◌,
}
use distrib_ai.Base.Int.{ℤ}
use distrib_ai.Base.Dict.{Dict, lookup, lookup-insert}
use distrib_ai.Voting.Types.{expired, VotingSystem, Vote}
use distrib_ai.Voting.Accounts.{create_account, add_credits, spend_credits, update_reputation}
use distrib_ai.Voting.Accounts.Books.{spend_credits-votes}
use distrib_ai.Voting.Ballots.{Proposal, new_vote, create_vote, cast_vote}
use distrib_ai.Voting.Ballots.Casting.{cast_vote_iff, cast_vote_effect, cast_vote_refused}
use distrib_ai.Voting.Finalize.Frame.{
  finalize_vote-Keeps, expire_votes-Keeps, cleanup_expired_votes-Keeps, get_vote_status-Keeps,
  get_active_votes-Keeps, IsDecided, Keeps,
}
use distrib_ai.Voting.Delegation.Frame.{delegate_vote-votes, revoke_delegation-votes}
use distrib_ai.Voting.Signatures.{Platform, sign_vote, make_signature}
use distrib_ai.Voting.Requests.{Request, serve, run}

-- The same vote but for its signatures.
pub record IsSame (v v' : Vote) : Type 0 where
  pub status : v'.status ≡ v.status
  pub ballots : v'.votes_cast ≡ v.votes_cast
  pub winner : v'.winning_option ≡ v.winning_option

-- The vote is stored under `id`, with further signatures perhaps.
abbrev pub Stores : ℕ → Vote → VotingSystem → Type 0
Stores id v s = (v' : Vote) × (lookup id s.votes ≡ some v') × IsSame v v'

-- No proposal of the calls is given the identifier `id`, which is a hash of its text and its time.
abbrev pub AvoidsId : Platform → ℕ → List Request → Type 0
AvoidsId p id [] = Unit
AvoidsId p id (r ∷ rs) =
    elim r as (λ _. Type 0) [
      | Request.create_vote q now _ _ ↦ id ≢ p.digest q.proposer q.title now
      | _ ↦ Unit
    ]
    × AvoidsId p id rs

create_account-votes : (j : ℕ) (s : VotingSystem) → (create_account j s).1.votes ≡ s.votes
unfolding create_account
create_account-votes j s = ground arith

add_credits-votes :
    (j : ℕ) (amount : ℤ) (s : VotingSystem) → (add_credits j amount s).1.votes ≡ s.votes
unfolding add_credits
add_credits-votes j amount s = create_account-votes j s

update_reputation-votes :
    (j : ℕ) (delta : ℤ) (s : VotingSystem) → (update_reputation j delta s).1.votes ≡ s.votes
unfolding update_reputation
update_reputation-votes j delta s = ground arith

module _ (id : ℕ) (v : Vote) (d : IsDecided v) where
  create_vote-Keeps :
      (digest : ℕ → ℕ → ℕ → ℕ) (q : Proposal) (now now' now'' : ℕ) (s : VotingSystem)
      → id ≢ digest q.proposer q.title now
      → Keeps id v s (create_vote digest q now now' now'' s).1
  unfolding create_vote
  create_vote-Keeps digest q now now' now'' s n e =
      let paid = spend_credits q.proposer q.credits_required s in
      let key = digest q.proposer q.title now in
      ground (
        arith,
        spend_credits-votes q.proposer q.credits_required s,
        lookup-insert key id
            (new_vote key q.vote_type q.title q.description q.proposer q.options now''
              (now' + q.duration_hours * 3600) q.credits_required)
            s.votes,
      )

  cast_vote-Keeps :
      (voter j option now : ℕ) (s : VotingSystem) → Keeps id v s (cast_vote voter j option now s).1
  cast_vote-Keeps voter j option now s e = elim (Bool-cases (cast_vote voter j option now s).0) [
    | inl taken ↦
        let (u, ok) = (cast_vote_iff voter j option now s).0 taken in
        ground (
          arith,
          (cast_vote_effect voter j option now s u ok id).0,
          ok.stored,
          ok.open_vote,
          d.closed,
        )
    | inr no_vote ↦ elim (cast_vote_refused voter j option now s no_vote) [
      | inl same ↦ rw same e
      | inr (u, f, open_vote, _, after) ↦
          ground (arith, lookup-insert j id (record u { status = expired }) s.votes, d.closed)
    ]
  ]

IsDecided-of_same : (v u : Vote) → IsDecided v → IsSame v u → IsDecided u
IsDecided-of_same v u d same = record {
  closed = λ e. d.closed (sym same.status ∙ e);
  counted = λ e. d.counted (sym same.status ∙ e);
}

module _ (p : Platform) (id : ℕ) (v : Vote) (d : IsDecided v) where
  -- A signature is added to the vote, and nothing else of it changes.
  sign_vote-Stores :
      (j voter now : ℕ) (s : VotingSystem)
      → Stores id v s
      → Stores id v (sign_vote p j voter now s).1
  unfolding sign_vote
  sign_vote-Stores j voter now s (u, e, same) = elim (Option-cases (lookup j s.votes)) [
    | inl f ↦ (u, ground arith, same)
    | inr (w, f) ↦
        let signed = record w {
          signatures = w.signatures ++ make_signature p j voter now w s ∷ [];
        } in
        elim (Bool-cases (id == j)) [
          | inl here ↦ (
            signed,
            ground (arith, lookup-insert j id signed s.votes),
            record { status = ground arith; ballots = ground arith; winner = ground arith },
          )
          | inr there ↦ (u, ground (arith, lookup-insert j id signed s.votes), same)
        ]
  ]

  abbrev StoredIn : Dict Vote → Type 0
  StoredIn votes = (u : Vote) × (lookup id votes ≡ some u) × IsSame v u

  same_votes : (old new : Dict Vote) → new ≡ old → StoredIn old → StoredIn new
  same_votes old new q (u, e, same) = (u, ap (lookup id) q ∙ e, same)

  kept :
      (old new : Dict Vote)
      → ((u : Vote) → IsDecided u → lookup id old ≡ some u → lookup id new ≡ some u)
      → StoredIn old
      → StoredIn new
  kept old new k (u, e, same) = (u, k u (IsDecided-of_same v u d same) e, same)

  serve-Stores :
      (r : Request) (s : VotingSystem)
      → AvoidsId p id (r ∷ [])
      → Stores id v s
      → Stores id v (serve p r s)
  unfolding serve
  serve-Stores (Request.create_account j) s n h = same_votes s.votes _ (create_account-votes j s) h
  serve-Stores (Request.add_credits j amount) s n h =
      same_votes s.votes _ (add_credits-votes j amount s) h
  serve-Stores (Request.spend_credits j amount) s n h =
      same_votes s.votes _ (spend_credits-votes j amount s).0 h
  serve-Stores (Request.update_reputation j delta) s n h =
      same_votes s.votes _ (update_reputation-votes j delta s) h
  serve-Stores (Request.create_vote q now now' now'') s n h =
      kept s.votes _ (λ u du. create_vote-Keeps id u du p.digest q now now' now'' s n.0) h
  serve-Stores (Request.cast_vote voter j option now) s n h =
      kept s.votes _ (λ u du. cast_vote-Keeps id u du voter j option now s) h
  serve-Stores (Request.finalize_vote j now) s n h =
      kept s.votes _ (λ u du. finalize_vote-Keeps id u du j now s) h
  serve-Stores (Request.delegate_vote voter target) s n h =
      same_votes s.votes _ (delegate_vote-votes voter target s) h
  serve-Stores (Request.revoke_delegation voter) s n h =
      same_votes s.votes _ (revoke_delegation-votes voter s) h
  serve-Stores (Request.sign_vote j voter now) s n h = sign_vote-Stores j voter now s h
  serve-Stores (Request.expire_votes now) s n h =
      kept s.votes _ (λ u du. expire_votes-Keeps id u du now s) h
  serve-Stores (Request.cleanup_expired_votes max_age now) s n h =
      kept s.votes _ (λ u du. cleanup_expired_votes-Keeps id u du max_age now s) h
  serve-Stores (Request.get_vote_status j now now') s n h =
      kept s.votes _ (λ u du. get_vote_status-Keeps id u du j now now' s) h
  serve-Stores (Request.get_active_votes now) s n h =
      kept s.votes _ (λ u du. get_active_votes-Keeps id u du now s) h

  run-Stores :
      (rs : List Request) (s : VotingSystem)
      → AvoidsId p id rs
      → Stores id v s
      → Stores id v (run p rs s)
  unfolding run
  run-Stores [] s n h = h
  run-Stores (r ∷ rs) s n h = run-Stores rs (serve p r s) n.1 (serve-Stores r s (n.0, tt) h)

-- A vote that is approved, rejected or short of its quorum stays so: whatever calls are made, it
-- stays stored with its status, its ballots and its winner, if no new proposal is given its
-- identifier.
pub run-decided :
    (p : Platform) (rs : List Request) (s : VotingSystem) (id : ℕ) (v : Vote)
    → lookup id s.votes ≡ some v
    → IsDecided v
    → AvoidsId p id rs
    → Stores id v (run p rs s)
run-decided p rs s id v e d n =
    run-Stores p id v d rs s n (v, e, record { status = refl; ballots = refl; winner = refl })
