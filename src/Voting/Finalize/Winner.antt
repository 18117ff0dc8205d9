-- ===== src/Voting/Finalize/Winner.antt =====
-- What an approval means (legacy/worker/src/daemon/voting_system.py).
use distrib_ai.Base.{
  ℕ, zero, suc, sym, subst, ◌*◌, ◌≤◌, ◌<◌, ◌≡◌, ◌≢◌, ◌↔◌, ◌⊎◌, refl, true, false, Option, none,
  some, arith, inl, inr, [], ◌∷◌, Bool-cases, length, ltb, ◌&&◌,
}
use distrib_ai.Base.Int.{ℤ, pos, ◌*ℤ◌, ◌≤ℤ◌, leb_ℤ, sum_ℤ, int_laws}
use distrib_ai.Base.Dict.{Dict, values, lookup, lookup-insert}
use distrib_ai.Voting.Types.{
  Vote, QuorumConfig, VotingSystem, pending, expired, approved, rejected, quorum_not_met,
}
use distrib_ai.Voting.Ballots.{is_past, put_vote}
use distrib_ai.Voting.Ballots.Casting.{InTime, is_past-InTime}
use distrib_ai.Voting.Finalize.{
  config_of, best, ratio_at_least, tally_by, decide_vote, close_vote, finalize_vote,
}

-- No value of the dict is above `top`.
abbrev pub IsTop : ℤ → Dict ℤ → Type 0
IsTop top [] = Unit
IsTop top (e ∷ d) = (e.1 ≤ℤ top) × IsTop top d

-- `e` is an entry of the dict.
abbrev pub IsEntry : ℕ × ℤ → Dict ℤ → Type 0
IsEntry e [] = ⊥
IsEntry e (f ∷ d) = (e ≡ f) ⊎ IsEntry e d

-- `best` skips the lesser of its first two entries.
best_step :
    (top e : ℕ × ℤ) (d : Dict ℤ)
    → ((top.1 ≤ℤ e.1) × (best top (e ∷ d) ≡ best e d))
      ⊎ ((e.1 ≤ℤ top.1) × (best top (e ∷ d) ≡ best top d))
unfolding best
best_step top e d = ground arith

best-IsTop : (top : ℕ × ℤ) (d : Dict ℤ) → (top.1 ≤ℤ (best top d).1) × IsTop (best top d).1 d
best-IsTop top [] = (unfold best in omega arith, tt)
best-IsTop top (e ∷ d) = elim (best_step top e d) [
  | inl (h, q) ↦
      let (a, b) = best-IsTop e d in
      subst (λ t. (top.1 ≤ℤ t.1) × IsTop t.1 (e ∷ d)) (sym q) (omega arith, (a, b))
  | inr (h, q) ↦
      let (a, b) = best-IsTop top d in
      subst (λ t. (top.1 ≤ℤ t.1) × IsTop t.1 (e ∷ d)) (sym q) (a, (omega arith, b))
]

best-IsEntry : (top : ℕ × ℤ) (d : Dict ℤ) → IsEntry (best top d) (top ∷ d)
best-IsEntry top [] = inl (unfold best in refl)
best-IsEntry top (e ∷ d) = elim (best_step top e d) [
  | inl (h, q) ↦ subst (λ t. IsEntry t (top ∷ e ∷ d)) (sym q) (inr (best-IsEntry e d))
  | inr (h, q) ↦
      subst (λ t. IsEntry t (top ∷ e ∷ d)) (sym q)
        (elim (best-IsEntry top d) [ inl p ↦ inl p | inr r ↦ inr (inr r) ])
]

abbrev pub total : Dict ℤ → ℤ
total tally = sum_ℤ (values tally)

-- The winner of a tally: an entry with the greatest weight, the total not being 0.
pub record Wins (w : ℕ) (share : ℤ) (tally : Dict ℤ) : Type 0 where
  pub listed : IsEntry (w, share) tally
  pub greatest : IsTop share tally
  pub weighed : ¬ (total tally ≡ pos 0)

-- The share reaches the percentage of the whole; a whole below 0 turns the comparison round.
abbrev pub Reaches : ℕ → ℤ → ℤ → Type 0
Reaches percent whole share =
    ((pos 1 ≤ℤ whole) × (pos percent *ℤ whole ≤ℤ pos 100 *ℤ share))
    ⊎ ((whole ≤ℤ pos 0) × (pos 100 *ℤ share ≤ℤ pos percent *ℤ whole))

-- How `decide_vote` ends: nobody wins, or somebody does and the vote is approved or rejected.
pub data Verdict (c : QuorumConfig) (id : ℕ) (v : Vote) (tally : Dict ℤ) (s : VotingSystem)
    : Option ℕ × VotingSystem → Type 0 where
  undecided : (tally ≡ []) ⊎ (total tally ≡ pos 0) → Verdict c id v tally s (none, s)
  approval :
      (w : ℕ) (share : ℤ)
      → Wins w share tally
      → Reaches c.approval_threshold (total tally) share
      → Verdict c id v tally s
          (some w, put_vote id (record v { status = approved; winning_option = some w }) s)
  rejection :
      (w : ℕ) (share : ℤ)
      → Wins w share tally
      → ¬ Reaches c.approval_threshold (total tally) share
      → Verdict c id v tally s (some w, put_vote id (record v { status = rejected }) s)

zero_test : (x : ℤ) → ((leb_ℤ x (pos 0) && leb_ℤ (pos 0) x) ≡ true) ↔ (x ≡ pos 0)
zero_test x = ground arith

ratio-Reaches :
    (part whole : ℤ) (percent : ℕ)
    → (ratio_at_least part whole percent ≡ true) ↔ Reaches percent whole part
unfolding ratio_at_least
ratio-Reaches part whole percent = (λ h. ground arith, λ h. ground arith)

best-Wins :
    (e : ℕ × ℤ) (d : Dict ℤ) → ¬ (total (e ∷ d) ≡ pos 0) → Wins (best e d).0 (best e d).1 (e ∷ d)
best-Wins e d h = record { listed = best-IsEntry e d; greatest = best-IsTop e d; weighed = h }

decide_vote-Verdict :
    (c : QuorumConfig) (id : ℕ) (v : Vote) (tally : Dict ℤ) (s : VotingSystem)
    → Verdict c id v tally s (decide_vote c id v tally s)
unfolding decide_vote
decide_vote-Verdict c id v [] s = Verdict.undecided (inl refl)
decide_vote-Verdict c id v (e ∷ d) s =
    let sum = total (e ∷ d) in
    let top = best e d in
    elim (Bool-cases (leb_ℤ sum (pos 0) && leb_ℤ (pos 0) sum)) [
      | inl h ↦ rw (h, decide_vote) (Verdict.undecided (inr ((zero_test sum).0 h)))
      | inr h ↦
          let wins = best-Wins e d (λ z. cc (h, (zero_test sum).1 z)) in
          elim (Bool-cases (ratio_at_least top.1 sum c.approval_threshold)) [
            | inl r ↦
                rw (h, r, decide_vote)
                  (Verdict.approval top.0 top.1 wins
                    ((ratio-Reaches top.1 sum c.approval_threshold).0 r))
            | inr r ↦
                rw (h, r, decide_vote)
                  (Verdict.rejection top.0 top.1 wins
                    (λ k. cc (r, (ratio-Reaches top.1 sum c.approval_threshold).1 k)))
          ]
    ]

-- How `finalize_vote` ends on a pending vote: too late, too few ballots, no quorum, or a verdict.
pub data Ending (c : QuorumConfig) (id now : ℕ) (v : Vote) (s : VotingSystem)
    : Option ℕ × VotingSystem → Type 0 where
  late :
      ¬ InTime now v.expires_at
      → Ending c id now v s (none, put_vote id (record v { status = expired }) s)
  few : InTime now v.expires_at → length v.votes_cast < c.min_voters → Ending c id now v s (none, s)
  absent :
      InTime now v.expires_at
      → c.min_voters ≤ length v.votes_cast
      → 0 < length s.accounts
      → length v.votes_cast * 100 < c.quorum_required * length s.accounts
      → Ending c id now v s (none, put_vote id (record v { status = quorum_not_met }) s)
  decided :
      {r : Option ℕ × VotingSystem}
      → InTime now v.expires_at
      → c.min_voters ≤ length v.votes_cast
      → c.quorum_required * length s.accounts ≤ length v.votes_cast * 100
      → Verdict c id v (tally_by c id s) s r
      → Ending c id now v s r

quorum_met : (q n x : ℕ) → (ltb 0 n && ltb x (q * n)) ≡ false → q * n ≤ x
quorum_met q zero x h = omega arith
quorum_met q (suc n) x h = ground arith

absent_lem : (q n x : ℕ) → (ltb 0 n && ltb x (q * n)) ≡ true → (0 < n) × (x < q * n)
absent_lem q n x h = ground arith

module _ (c : QuorumConfig) (id now : ℕ) (v : Vote) (s : VotingSystem) where
  close_vote-Ending : InTime now v.expires_at → Ending c id now v s (close_vote c id v s)
  unfolding close_vote
  close_vote-Ending t =
      let cast = length v.votes_cast in
      let voters = length s.accounts in
      elim (Bool-cases (ltb cast c.min_voters)) [
        | inl h ↦ rw (h, close_vote) (Ending.few t (ground arith))
        | inr h ↦
            elim (Bool-cases (ltb 0 voters && ltb (cast * 100) (c.quorum_required * voters))) [
              | inl q ↦
                  rw (h, q, close_vote)
                    (Ending.absent t (ground arith)
                      (absent_lem c.quorum_required voters (cast * 100) q).0
                      (absent_lem c.quorum_required voters (cast * 100) q).1)
              | inr q ↦
                  let met = quorum_met c.quorum_required voters (cast * 100) q in
                  rw (h, q, close_vote)
                    (Ending.decided t (ground arith) met
                      (decide_vote-Verdict c id v (tally_by c id s) s))
            ]
      ]

finalize_open :
    (id now : ℕ) (s : VotingSystem) (v : Vote)
    → lookup id s.votes ≡ some v
    → v.status ≡ pending
    → (is_past now v.expires_at ≡ true
        → finalize_vote id now s ≡ (none, put_vote id (record v { status = expired }) s))
      × (is_past now v.expires_at ≡ false
          → finalize_vote id now s ≡ close_vote (config_of v.vote_type s) id v s)
unfolding finalize_vote
finalize_open id now s v e p = (λ h. ground arith, λ h. ground arith)

-- On a stored pending vote `finalize_vote` ends in one of these ways, nothing else being changed: too
-- late, it is expired; in time with too few ballots, it stays as it is, whatever the quorum; with
-- enough ballots, but accounts that are there and of which too few voted, the quorum is not met; and
-- else it stays where there is no tally or its sum is 0, is approved with a winner of greatest weight
-- whose share reaches the threshold of the sum, or is rejected where that share does not.
pub finalize_vote-Ending :
    (id now : ℕ) (s : VotingSystem) (v : Vote)
    → lookup id s.votes ≡ some v
    → v.status ≡ pending
    → Ending (config_of v.vote_type s) id now v s (finalize_vote id now s)
finalize_vote-Ending id now s v e p = elim (Bool-cases (is_past now v.expires_at)) [
  | inl h ↦
      subst (Ending (config_of v.vote_type s) id now v s) (sym ((finalize_open id now s v e p).0 h))
        (Ending.late (λ t. cc (h, (is_past-InTime now v.expires_at).1 t)))
  | inr h ↦
      subst (Ending (config_of v.vote_type s) id now v s) (sym ((finalize_open id now s v e p).1 h))
        (close_vote-Ending (config_of v.vote_type s) id now v s
          ((is_past-InTime now v.expires_at).0 h))
]

Reaches-positive :
    (part whole : ℤ) (percent : ℕ)
    → Reaches percent whole part
    → pos 1 ≤ℤ whole
    → pos percent *ℤ whole ≤ℤ pos 100 *ℤ part
Reaches-positive part whole percent (inl (h, k)) p = k
Reaches-positive part whole percent (inr (h, k)) p = absurd (omega (int_laws, h, p))

-- Why a vote is approved.
pub record Approval (c : QuorumConfig) (id now w : ℕ) (v : Vote) (s : VotingSystem) : Type 0 where
  pub in_time : InTime now v.expires_at
  pub voters : c.min_voters ≤ length v.votes_cast
  pub quorum : c.quorum_required * length s.accounts ≤ length v.votes_cast * 100
  pub share : ℤ
  pub wins : Wins w share (tally_by c id s)
  pub reached :
      pos 1 ≤ℤ total (tally_by c id s)
      → pos c.approval_threshold *ℤ total (tally_by c id s) ≤ℤ pos 100 *ℤ share

lookup-put_vote :
    (id : ℕ) (u : Vote) (s : VotingSystem) → lookup id (put_vote id u s).votes ≡ some u
lookup-put_vote id u s = ground (arith, lookup-insert id id u s.votes)

module _ (c : QuorumConfig) (id now : ℕ) (v v' : Vote) (s : VotingSystem) where
  -- What an ending says of a vote that it leaves approved.
  Ending-approved :
      {r : Option ℕ × VotingSystem}
      → Ending c id now v s r
      → lookup id s.votes ≡ some v
      → v.status ≡ pending
      → lookup id r.1.votes ≡ some v'
      → v'.status ≡ approved
      → (w : ℕ) × Approval c id now w v s
        × (r.0 ≡ some w)
        × (v' ≡ record v { status = approved; winning_option = some w })
  Ending-approved (Ending.late t) e p e' p' =
      absurd (ground (arith, lookup-put_vote id (record v { status = expired }) s))
  Ending-approved (Ending.few t h) e p e' p' = absurd (ground arith)
  Ending-approved (Ending.absent t m n h) e p e' p' =
      absurd (ground (arith, lookup-put_vote id (record v { status = quorum_not_met }) s))
  Ending-approved (Ending.decided t m q (Verdict.undecided u)) e p e' p' = absurd (ground arith)
  Ending-approved (Ending.decided t m q (Verdict.rejection w share wins r)) e p e' p' =
      absurd (ground (arith, lookup-put_vote id (record v { status = rejected }) s))
  Ending-approved (Ending.decided t m q (Verdict.approval w share wins r)) e p e' p' =
      let won = record v { status = approved; winning_option = some w } in
      let why : Approval c id now w v s = record {
        in_time = t;
        voters = m;
        quorum = q;
        share = share;
        wins = wins;
        reached = Reaches-positive share (total (tally_by c id s)) c.approval_threshold r;
      } in
      (w, why, refl, ground (arith, lookup-put_vote id won s))

-- A vote that `finalize_vote` turns from pending to approved was in time, had the least number of
-- ballots and the quorum of the accounts, and is won by an option of greatest weight in the tally,
-- whose share reaches the threshold where the total weight is positive. The winner is returned and
-- stored, and nothing else of the vote changes.
pub finalize_vote_approved :
    (id now : ℕ) (s : VotingSystem) (v v' : Vote)
    → lookup id s.votes ≡ some v
    → v.status ≡ pending
    → lookup id (finalize_vote id now s).1.votes ≡ some v'
    → v'.status ≡ approved
    → (w : ℕ) × Approval (config_of v.vote_type s) id now w v s
      × ((finalize_vote id now s).0 ≡ some w)
      × (v' ≡ record v { status = approved; winning_option = some w })
finalize_vote_approved id now s v v' e p =
    Ending-approved (config_of v.vote_type s) id now v v' s (finalize_vote-Ending id now s v e p) e
      p

-- A vote that is no longer pending is final: `finalize_vote` changes nothing, and returns the winner
-- exactly of an approved vote.
pub finalize_vote_final :
    (id now : ℕ) (s : VotingSystem) (v : Vote)
    → lookup id s.votes ≡ some v
    → v.status ≢ pending
    → ((finalize_vote id now s).1 ≡ s)
      × (v.status ≡ approved → (finalize_vote id now s).0 ≡ v.winning_option)
      × (v.status ≢ approved → (finalize_vote id now s).0 ≡ none)
unfolding finalize_vote
finalize_vote_final id now s v e p = (ground arith, λ h. ground arith, λ h. ground arith)
