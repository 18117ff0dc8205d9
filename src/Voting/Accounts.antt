-- ===== src/Voting/Accounts.antt =====
-- The accounts of `VotingSystem`: its constructor, `create_account`, `add_credits`,
-- `spend_credits`, `update_reputation`, `get_credit_balance` and `get_account_info`
-- (legacy/worker/src/daemon/voting_system.py). A method returns its result and the new state.
pub mod Books
use distrib_ai.Base.{
  ℕ, Bool, true, false, Option, none, some, [], if◌then◌else◌, Outcome, returned, value_error,
}
use distrib_ai.Base.Int.{ℤ, pos, ◌+ℤ◌, ◌-ℤ◌, ltb_ℤ, leb_ℤ}
use distrib_ai.Base.Dict.{lookup, insert}
use distrib_ai.Voting.Types.{
  one, Bytes, VoteType, job_priority, system_config, governance, parameter_change, trust_anchor,
  CreditAccount, QuorumConfig, VotingSystem, new_account,
}

-- The five positional arguments behind the type: participation, quorum, threshold, weighting, voters.
abbrev pub quorum_config : VoteType → ℕ → ℕ → ℕ → Bool → ℕ → QuorumConfig
quorum_config t participation quorum threshold weighted voters = record {
  vote_type = t;
  min_participation = participation;
  quorum_required = quorum;
  approval_threshold = threshold;
  weighted_voting = weighted;
  min_voters = voters;
}

abbrev pub initial_configs : VoteType → Option QuorumConfig
initial_configs job_priority = some (quorum_config job_priority 5 30 50 true 3)
initial_configs system_config = some (quorum_config system_config 20 60 67 true 5)
initial_configs governance = some (quorum_config governance 30 70 75 true 7)
initial_configs parameter_change = some (quorum_config parameter_change 10 50 67 true 5)
initial_configs trust_anchor = some (quorum_config trust_anchor 50 80 90 true 10)

-- `VotingSystem(signing_key)`: without a key it raises `ValueError`.
abbrev pub new_system : Option Bytes → Outcome VotingSystem
new_system none = value_error
new_system (some key) = returned (record {
  votes = [];
  accounts = [];
  credit_price_per_vote = pos 10000000;
  vote_duration_hours = 24;
  signing_key = key;
  quorum_configs = initial_configs;
})

-- A write to an account of the dict, which is how an account object is mutated.
abbrev pub put_account : ℕ → CreditAccount → VotingSystem → VotingSystem
put_account id a s = record s { accounts = insert id a s.accounts }

unfoldable pub create_account : ℕ → VotingSystem → CreditAccount × VotingSystem
create_account id s = elim (lookup id s.accounts) [
  | none ↦ (new_account id, put_account id (new_account id) s)
  | some a ↦ (a, s)
]

unfoldable pub add_credits : ℕ → ℤ → VotingSystem → Bool × VotingSystem
unfolding create_account
add_credits id amount s =
    let (a, s') = create_account id s in
    (
      true,
      put_account id
          (record a { balance = a.balance +ℤ amount; credits_earned = a.credits_earned +ℤ amount })
          s',
    )

unfoldable pub spend_credits : ℕ → ℤ → VotingSystem → Bool × VotingSystem
spend_credits id amount s =
    if leb_ℤ amount (pos 0) then (false, s) else elim (lookup id s.accounts) [
      | none ↦ (false, s)
      | some a ↦ if ltb_ℤ a.balance amount then (false, s) else (
        true,
        put_account id
            (record a { balance = a.balance -ℤ amount; credits_spent = a.credits_spent +ℤ amount })
            s,
      )
    ]

-- `max(0.0, min(1.0, x))`
pub clamp_score : ℤ → ℤ
clamp_score x =
    let capped = if ltb_ℤ x one then x else one in if ltb_ℤ (pos 0) capped then capped else pos 0

unfoldable pub update_reputation : ℕ → ℤ → VotingSystem → Bool × VotingSystem
unfolding clamp_score
update_reputation id delta s = elim (lookup id s.accounts) [
  | none ↦ (false, s)
  | some a ↦ (
    true,
    put_account id (record a { reputation_score = clamp_score (a.reputation_score +ℤ delta) }) s,
  )
]

pub get_credit_balance : ℕ → VotingSystem → ℤ
get_credit_balance id s = elim (lookup id s.accounts) [ none ↦ pos 0 | some a ↦ a.balance ]

pub record AccountInfo : Type 0 where
  pub contributor_id : ℕ
  pub balance : ℤ
  pub credits_earned : ℤ
  pub credits_spent : ℤ
  pub votes_cast : ℕ

get_account_info : ℕ → VotingSystem → Option AccountInfo
get_account_info id s = elim (lookup id s.accounts) [
  | none ↦ none
  | some a ↦ some (record {
    contributor_id = a.contributor_id;
    balance = a.balance;
    credits_earned = a.credits_earned;
    credits_spent = a.credits_spent;
    votes_cast = a.votes_cast;
  })
]
