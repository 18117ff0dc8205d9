-- ===== src/Voting/Quadratic.antt =====
-- `QuadraticVotingSystem` (legacy/worker/src/daemon/voting_system.py): quadratic ballots, their
-- velocity limits and receipts, discussions, and the execution of approved proposals. hashlib, hmac
-- and json are parameters.
pub mod Casting
pub mod Receipts
pub mod Tally
mod Examples
use distrib_ai.Base.{
  ℕ, ◌+◌, ◌*◌, Bool, true, false, ◌&&◌, Option, none, some, List, [], ◌∷◌, ◌++◌, if◌then◌else◌,
  ◌==◌, ltb, leb, length, keep, take,
}
use distrib_ai.Base.Int.{ℤ, pos, ◌+ℤ◌, ◌*ℤ◌}
use distrib_ai.Base.Dict.{Dict, lookup, insert}
use distrib_ai.Voting.Types.{one, Bytes, approved, VoteStatus, Vote, VotingSystem}
use distrib_ai.Voting.Accounts.{spend_credits}
use distrib_ai.Voting.Ballots
use distrib_ai.Voting.Signatures.{same_bytes}

-- `votes_cast` is an `int`, which may be negative.
pub record QuadraticVote : Type 0 where
  pub voter_id : ℕ
  pub vote_id : ℕ
  pub votes_cast : ℤ
  pub credits_spent : ℤ
  pub option : ℕ
  pub timestamp : ℕ

-- An entry of `vote_history`.
pub record Activity : Type 0 where
  pub vote_id : ℕ
  pub timestamp : ℕ
  pub credits : ℤ

pub record Comment : Type 0 where
  pub id : ℕ
  pub author : ℕ
  pub content : ℕ
  pub timestamp : ℕ
  pub reply_to : Option ℕ
  pub upvotes : ℕ
  pub downvotes : ℕ

-- How the callback of `execute_proposal` ended: with a result, or with an `Exception`.
pub data Called : Type 0 where
  success : (result : ℕ) → Called
  failed : (error : ℕ) → Called

pub record Execution : Type 0 where
  pub vote_id : ℕ
  pub executed_at : ℕ
  pub called : Called

-- A receipt without its signature.
pub record Receipt : Type 0 where
  pub voter_id : ℕ
  pub vote_id : ℕ
  pub option : ℕ
  pub votes : ℤ
  pub credits_spent : ℤ
  pub timestamp : ℕ
  pub receipt_id : ℕ

pub record SignedReceipt : Type 0 where
  pub receipt : Receipt
  pub signature : Bytes

pub record QuadraticVotingSystem : Type 0 where
  pub base : VotingSystem
  pub enable_quadratic : Bool
  pub quadratic_votes : Dict (List QuadraticVote)
  pub vote_history : Dict (List Activity)
  pub proposal_discussions : Dict (List Comment)
  pub executed_proposals : List Execution
  pub vote_receipts : Dict SignedReceipt

-- The hexadecimal digits of HMAC-SHA256 of a key and a message, the UTF-8 bytes of `json.dumps` with
-- sorted keys, and the first 16 hexadecimal digits of the SHA-256 of two names and a time.
pub record Hashing : Type 0 where
  pub mac : Bytes → Bytes → Bytes
  pub dumps : Receipt → Bytes
  pub digest : ℕ → ℕ → ℕ → ℕ

-- What `cast_quadratic_vote` returns, if not `None`: the dict of a plain ballot, or a receipt.
pub data Cast : Type 0 where
  plain : (credits_spent : ℤ) → Cast
  quadratic : SignedReceipt → Cast

-- The readings of the clock in a call of `cast_quadratic_vote`, in their order: for the limits (or a
-- plain ballot), the vote, the receipt, its identifier. `_record_vote_activity` reads `logged`.
pub record Readings : Type 0 where
  pub checked : ℕ
  pub voted : ℕ
  pub logged : ℕ
  pub received : ℕ
  pub named : ℕ

abbrev pub max_votes_per_hour : ℕ
max_votes_per_hour = 1000

abbrev pub max_votes_per_job : ℕ
max_votes_per_job = 500

-- `QuadraticVotingSystem(signing_key, enable_quadratic)` behind `super().__init__`.
abbrev pub new_quadratic : VotingSystem → Bool → QuadraticVotingSystem
new_quadratic s enable = record {
  base = s;
  enable_quadratic = enable;
  quadratic_votes = [];
  vote_history = [];
  proposal_discussions = [];
  executed_proposals = [];
  vote_receipts = [];
}

-- `d.get(key, [])`, and the entry that a test `if key not in d: d[key] = []` leaves.
abbrev pub entries {ℓ} : {A : Type ℓ} → ℕ → Dict (List A) → List A
entries key d = elim (lookup key d) [ none ↦ [] | some xs ↦ xs ]

abbrev pub touch {ℓ} : {A : Type ℓ} → ℕ → Dict (List A) → Dict (List A)
touch key d = elim (lookup key d) [ none ↦ insert key [] d | some xs ↦ d ]

-- The number of votes squared, in credits.
abbrev pub calculate_quadratic_cost : ℤ → ℤ
calculate_quadratic_cost votes = votes *ℤ votes

-- `h["timestamp"] > now - 3600`, where the time of a record is natural.
abbrev pub recent : ℕ → List Activity → List Activity
recent now history = keep (λ h. ltb now (h.timestamp + 3600)) history

abbrev pub on_vote : ℕ → List Activity → List Activity
on_vote id history = keep (λ h. h.vote_id == id) history

unfoldable pub check_vote_velocity :
    ℕ → ℕ → ℕ → QuadraticVotingSystem → Bool × QuadraticVotingSystem
check_vote_velocity voter id now q =
    let latest = recent now (entries voter q.vote_history) in
    let q' : QuadraticVotingSystem = record q { vote_history = touch voter q.vote_history } in
    if leb max_votes_per_hour (length latest)
    then (false, q')
    else if leb max_votes_per_job (length (on_vote id latest))
    then (false, q')
    else (true, q')

unfoldable pub record_vote_activity : ℕ → ℕ → ℤ → ℕ → QuadraticVotingSystem → QuadraticVotingSystem
record_vote_activity voter id credits now q = record q {
  vote_history =
      insert voter
        (entries voter q.vote_history
          ++ record { vote_id = id; timestamp = now; credits = credits } ∷ [])
        q.vote_history;
}

-- The ballot in the base system, if the vote is there: it is not tested further.
abbrev pub mark_ballot : ℕ → ℕ → ℕ → VotingSystem → VotingSystem
mark_ballot voter id option s = record s {
  votes = elim (lookup id s.votes) [
    | none ↦ s.votes
    | some v ↦ insert id (record v { votes_cast = insert voter option v.votes_cast }) s.votes
  ];
}

abbrev pub add_quadratic_vote : QuadraticVote → QuadraticVotingSystem → QuadraticVotingSystem
add_quadratic_vote v q = record q {
  quadratic_votes =
      insert v.vote_id (entries v.vote_id q.quadratic_votes ++ v ∷ []) q.quadratic_votes;
}

-- The cost in millionths, which the account pays.
abbrev pub price : ℤ → ℤ
price votes = calculate_quadratic_cost votes *ℤ one

-- The system behind the test of the limits and the payment.
abbrev pub charge : ℕ → ℕ → ℤ → Readings → QuadraticVotingSystem → QuadraticVotingSystem
charge voter id votes t q =
    let (within, q') = check_vote_velocity voter id t.checked q in
    record q' { base = (spend_credits voter (price votes) q'.base).1 }

module _ (p : Hashing) where
  unfoldable pub sign_receipt : Bytes → Receipt → SignedReceipt
  sign_receipt key r = record { receipt = r; signature = take 32 (p.mac key (p.dumps r)) }

  -- What follows the payment in `cast_quadratic_vote`: the record, the ballot, the activity and the
  -- receipt. The cost is `cost` credits.
  unfoldable pub record_quadratic :
      ℕ → ℕ → ℕ → ℤ → ℤ → Readings → QuadraticVotingSystem → SignedReceipt × QuadraticVotingSystem
  record_quadratic voter id option votes cost t q =
      let added =
        add_quadratic_vote
          (record {
            voter_id = voter;
            vote_id = id;
            votes_cast = votes;
            credits_spent = cost;
            option = option;
            timestamp = t.voted;
          })
          q in
      let marked : QuadraticVotingSystem = record added {
        base = mark_ballot voter id option added.base;
      } in
      let logged = record_vote_activity voter id cost t.logged marked in
      let receipt_id = p.digest voter id t.named in
      let receipt = sign_receipt q.base.signing_key (record {
        voter_id = voter;
        vote_id = id;
        option = option;
        votes = votes;
        credits_spent = cost;
        timestamp = t.received;
        receipt_id = receipt_id;
      }) in
      (receipt, record logged { vote_receipts = insert receipt_id receipt logged.vote_receipts })

  -- `cast_quadratic_vote` with quadratic voting on.
  unfoldable pub cast_enabled :
      ℕ → ℕ → ℕ → ℤ → Readings → QuadraticVotingSystem → Option Cast × QuadraticVotingSystem
  cast_enabled voter id option votes t q =
      let (within, q') = check_vote_velocity voter id t.checked q in
      let (paid, s) = spend_credits voter (price votes) q'.base in
      let charged = charge voter id votes t q in
      let (receipt, q'') =
        record_quadratic voter id option votes (calculate_quadratic_cost votes) t charged in
      if within
      then (if paid then (some (quadratic receipt), q'') else (none, charged))
      else (none, q')

  unfoldable pub cast_quadratic_vote :
      ℕ → ℕ → ℕ → ℤ → Readings → QuadraticVotingSystem → Option Cast × QuadraticVotingSystem
  cast_quadratic_vote voter id option votes t q =
      let (cast, s) = Ballots.cast_vote voter id option t.checked q.base in
      if q.enable_quadratic
      then cast_enabled voter id option votes t q
      else (if cast then some (plain q.base.credit_price_per_vote) else none, record q { base = s })

  unfoldable pub verify_vote_receipt : ℕ → QuadraticVotingSystem → Option SignedReceipt
  verify_vote_receipt id q = elim (lookup id q.vote_receipts) [
    | none ↦ none
    | some r ↦
        if same_bytes (take 32 (p.mac q.base.signing_key (p.dumps r.receipt))) r.signature
        then some r
        else none
  ]

  unfoldable pub add_proposal_comment :
      ℕ → ℕ → ℕ → Option ℕ → ℕ → ℕ → QuadraticVotingSystem → ℕ × QuadraticVotingSystem
  add_proposal_comment id author comment reply_to now now' q =
      let comment_id = p.digest author comment now in
      (
        comment_id,
        record q {
          proposal_discussions =
              insert id
                (entries id q.proposal_discussions
                  ++ record {
                    id = comment_id;
                    author = author;
                    content = comment;
                    timestamp = now';
                    reply_to = reply_to;
                    upvotes = 0;
                    downvotes = 0;
                  }
                    ∷ [])
                q.proposal_discussions;
        },
      )

pub get_proposal_discussion : ℕ → QuadraticVotingSystem → List Comment
get_proposal_discussion id q = entries id q.proposal_discussions

-- The voice of every option, in the order of first use.
abbrev pub add_voice : ℕ → ℤ → Dict ℤ → Dict ℤ
add_voice option votes tally = elim (lookup option tally) [
  | none ↦ insert option (pos 0 +ℤ votes) tally
  | some n ↦ insert option (n +ℤ votes) tally
]

unfoldable pub tally_from : Dict ℤ → List QuadraticVote → Dict ℤ
tally_from tally [] = tally
tally_from tally (v ∷ vs) = tally_from (add_voice v.option v.votes_cast tally) vs

unfoldable pub tally_quadratic_votes : ℕ → QuadraticVotingSystem → Dict ℤ
tally_quadratic_votes id q = tally_from [] (entries id q.quadratic_votes)

abbrev pub is_approved : VoteStatus → Bool
is_approved approved = true
is_approved _ = false

-- The callback may change the system, which it has at hand.
unfoldable pub execute_proposal :
    ℕ
    → (QuadraticVotingSystem → Called × QuadraticVotingSystem)
    → ℕ
    → QuadraticVotingSystem
    → Option Execution × QuadraticVotingSystem
execute_proposal id callback now q = elim (lookup id q.base.votes) [
  | none ↦ (none, q)
  | some v ↦
      if is_approved v.status
      then (let (called, q') = callback q in
          let execution : Execution = record { vote_id = id; executed_at = now; called = called } in
          (
            some execution,
            record q' { executed_proposals = q'.executed_proposals ++ execution ∷ [] },
          ))
      else (none, q)
]
