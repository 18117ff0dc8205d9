-- ===== src/Voting/Requests/Invariants.antt =====
-- What every run of calls keeps (legacy/worker/src/daemon/voting_system.py).
use distrib_ai.Base.{ℕ, ◌≡◌, true, some, List, [], ◌∷◌, arith, subst, sym, ◌≢◌, ◌↔◌, elem}
use distrib_ai.Base.Dict.{Dict, Each}
use distrib_ai.Voting.Types.{CreditAccount, VotingSystem}
use distrib_ai.Voting.Accounts.Books.{
  IsBalanced, IsSound, create_account-IsSound, add_credits-IsSound, spend_credits-IsSound,
  update_reputation-IsSound,
}
use distrib_ai.Voting.Ballots.Frame.{create_vote-IsSound, cast_vote-IsSound}
use distrib_ai.Voting.Finalize.Frame.{
  finalize_vote-accounts, expire_votes-accounts, cleanup_expired_votes-accounts,
  get_vote_status-accounts, get_active_votes-accounts,
}
use distrib_ai.Voting.Delegation.{next_of}
use distrib_ai.Voting.Delegation.Redirect.{delegates_of}
use distrib_ai.Voting.Delegation.Frame.{delegate_vote-IsSound, revoke_delegation-IsSound}
use distrib_ai.Voting.Delegation.Acyclic.{
  Leads, IsAcyclic, delegate_vote-IsAcyclic, revoke_delegation-IsAcyclic,
}
use distrib_ai.Voting.Delegation.Mirror.{
  IsMirrored, delegate_vote-IsMirrored, revoke_delegation-IsMirrored,
}
use distrib_ai.Voting.Delegation.Links.{
  SameLinks, create_account-SameLinks, add_credits-SameLinks, spend_credits-SameLinks,
  update_reputation-SameLinks, create_vote-SameLinks, cast_vote-SameLinks,
}
use distrib_ai.Voting.Signatures.{Platform, sign_vote}
use distrib_ai.Voting.Requests.{Request, serve, run}

abbrev SoundAccounts : Dict CreditAccount → Type 0
SoundAccounts d = Each IsBalanced d

module _ (p : Platform) where
  sign_vote-accounts :
      (id voter now : ℕ) (s : VotingSystem) → (sign_vote p id voter now s).1.accounts ≡ s.accounts
  unfolding sign_vote
  sign_vote-accounts id voter now s = ground arith

  serve-IsSound : (r : Request) (s : VotingSystem) → IsSound s → IsSound (serve p r s)
  unfolding serve
  serve-IsSound (Request.create_account id) s h = (create_account-IsSound id s h).1
  serve-IsSound (Request.add_credits id amount) s h = add_credits-IsSound id amount s h
  serve-IsSound (Request.spend_credits id amount) s h = spend_credits-IsSound id amount s h
  serve-IsSound (Request.update_reputation id delta) s h = update_reputation-IsSound id delta s h
  serve-IsSound (Request.create_vote q now now' now'') s h =
      create_vote-IsSound p.digest q now now' now'' s h
  serve-IsSound (Request.cast_vote voter id option now) s h =
      cast_vote-IsSound voter id option now s h
  serve-IsSound (Request.finalize_vote id now) s h = rw (finalize_vote-accounts id now s) h
  serve-IsSound (Request.delegate_vote voter target) s h = delegate_vote-IsSound voter target s h
  serve-IsSound (Request.revoke_delegation voter) s h = revoke_delegation-IsSound voter s h
  serve-IsSound (Request.sign_vote id voter now) s h = rw (sign_vote-accounts id voter now s) h
  serve-IsSound (Request.expire_votes now) s h = rw (expire_votes-accounts now s) h
  serve-IsSound (Request.cleanup_expired_votes max_age now) s h =
      rw (cleanup_expired_votes-accounts max_age now s) h
  serve-IsSound (Request.get_vote_status id now now') s h =
      rw (get_vote_status-accounts id now now' s) h
  serve-IsSound (Request.get_active_votes now) s h = rw (get_active_votes-accounts now s) h

  -- Whatever calls are made, in every account the balance is what was earned less what was spent.
  pub run-IsSound : (rs : List Request) (s : VotingSystem) → IsSound s → IsSound (run p rs s)
  unfolding run
  run-IsSound [] s h = h
  run-IsSound (r ∷ rs) s h = run-IsSound rs (serve p r s) (serve-IsSound r s h)

-- The delegations are free of cycles, and their two directions agree.
abbrev pub IsLiquid : VotingSystem → Type 0
IsLiquid s = IsAcyclic s × IsMirrored s

SameLinks-Leads : (d d' : Dict CreditAccount) → SameLinks d d' → (id : ℕ) → Leads d id → Leads d' id
SameLinks-Leads d d' same id (Leads.stop _ e) = Leads.stop id (ground (arith, same id))
SameLinks-Leads d d' same id (Leads.step _ next e rest) =
    Leads.step id next (ground (arith, same id)) (SameLinks-Leads d d' same next rest)

-- The same of the accounts alone.
abbrev LiquidAccounts : Dict CreditAccount → Type 0
LiquidAccounts d =
    ((id : ℕ) → Leads d id)
    × ((x y : ℕ) → y ≢ 0 → (elem x (delegates_of y d) ≡ true) ↔ (next_of x d ≡ some y))

SameLinks-liquid :
    (d d' : Dict CreditAccount) → SameLinks d d' → LiquidAccounts d → LiquidAccounts d'
SameLinks-liquid d d' same (acyclic, mirrored) = (
  (λ id. SameLinks-Leads d d' same id (acyclic id)),
  λ x y n. ground (arith, same x, same y, mirrored x y n),
)

same_accounts : (d d' : Dict CreditAccount) → d' ≡ d → LiquidAccounts d → LiquidAccounts d'
same_accounts d d' e h = subst LiquidAccounts (sym e) h

module _ (p : Platform) where
  serve-IsLiquid : (r : Request) (s : VotingSystem) → IsLiquid s → IsLiquid (serve p r s)
  unfolding serve
  serve-IsLiquid (Request.create_account id) s h =
      SameLinks-liquid s.accounts _ (create_account-SameLinks id s).0 h
  serve-IsLiquid (Request.add_credits id amount) s h =
      SameLinks-liquid s.accounts _ (add_credits-SameLinks id amount s) h
  serve-IsLiquid (Request.spend_credits id amount) s h =
      SameLinks-liquid s.accounts _ (spend_credits-SameLinks id amount s) h
  serve-IsLiquid (Request.update_reputation id delta) s h =
      SameLinks-liquid s.accounts _ (update_reputation-SameLinks id delta s) h
  serve-IsLiquid (Request.create_vote q now now' now'') s h =
      SameLinks-liquid s.accounts _ (create_vote-SameLinks p.digest q now now' now'' s) h
  serve-IsLiquid (Request.cast_vote voter id option now) s h =
      SameLinks-liquid s.accounts _ (cast_vote-SameLinks voter id option now s) h
  serve-IsLiquid (Request.finalize_vote id now) s h =
      same_accounts s.accounts _ (finalize_vote-accounts id now s) h
  serve-IsLiquid (Request.delegate_vote voter target) s h =
      (delegate_vote-IsAcyclic voter target s h.0, delegate_vote-IsMirrored voter target s h.1)
  serve-IsLiquid (Request.revoke_delegation voter) s h =
      (revoke_delegation-IsAcyclic voter s h.0, revoke_delegation-IsMirrored voter s h.1)
  serve-IsLiquid (Request.sign_vote id voter now) s h =
      same_accounts s.accounts _ (sign_vote-accounts p id voter now s) h
  serve-IsLiquid (Request.expire_votes now) s h =
      same_accounts s.accounts _ (expire_votes-accounts now s) h
  serve-IsLiquid (Request.cleanup_expired_votes max_age now) s h =
      same_accounts s.accounts _ (cleanup_expired_votes-accounts max_age now s) h
  serve-IsLiquid (Request.get_vote_status id now now') s h =
      same_accounts s.accounts _ (get_vote_status-accounts id now now' s) h
  serve-IsLiquid (Request.get_active_votes now) s h =
      same_accounts s.accounts _ (get_active_votes-accounts now s) h

  -- Whatever calls are made, the delegations stay free of cycles, and a name stays among the delegates
  -- of an account exactly while it delegates there.
  pub run-IsLiquid : (rs : List Request) (s : VotingSystem) → IsLiquid s → IsLiquid (run p rs s)
  unfolding run
  run-IsLiquid [] s h = h
  run-IsLiquid (r ∷ rs) s h = run-IsLiquid rs (serve p r s) (serve-IsLiquid r s h)
