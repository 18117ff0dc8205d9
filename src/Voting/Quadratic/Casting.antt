-- ===== src/Voting/Quadratic/Casting.antt =====
-- When `cast_quadratic_vote` takes a ballot, and what it does
-- (legacy/worker/src/daemon/voting_system.py).
use distrib_ai.Base.{
  ℕ, ◌<◌, ◌≡◌, ◌↔◌, true, some, List, [], ◌∷◌, ◌++◌, arith, refl, ap, subst, sym, ◌∙◌, length,
  if◌then◌else◌, ◌==◌, is_some,
}
use distrib_ai.Base.Int.{ℤ}
use distrib_ai.Base.Dict.{Dict, lookup, insert, lookup-insert}
use distrib_ai.Voting.Accounts.{spend_credits}
use distrib_ai.Voting.Accounts.Books.{
  Affords, pay, spend_credits_iff, spend_credits-accounts, IsSound, spend_credits-IsSound,
}
use distrib_ai.Voting.Ballots.Frame.{cast_vote-IsSound}
use distrib_ai.Voting.Quadratic.{
  QuadraticVotingSystem, Hashing, Readings, quadratic, SignedReceipt, charge, price,
  calculate_quadratic_cost, recent, on_vote, entries, touch, check_vote_velocity,
  record_vote_activity, record_quadratic, cast_enabled, cast_quadratic_vote,
}

-- The voter has cast fewer than 1000 quadratic votes in the last hour, and fewer than 500 of them on
-- this vote.
pub record IsWithinLimits (voter id now : ℕ) (q : QuadraticVotingSystem) : Type 0 where
  pub hourly : length (recent now (entries voter q.vote_history)) < 1000
  pub on_this : length (on_vote id (recent now (entries voter q.vote_history))) < 500

check_vote_velocity_iff :
    (voter id now : ℕ) (q : QuadraticVotingSystem)
    → ((check_vote_velocity voter id now q).0 ≡ true) ↔ IsWithinLimits voter id now q
unfolding check_vote_velocity
check_vote_velocity_iff voter id now q = (
  λ h. record { hourly = ground arith; on_this = ground arith },
  λ h. ground (arith, h.hourly, h.on_this),
)

check_vote_velocity-base :
    (voter id now : ℕ) (q : QuadraticVotingSystem)
    → (check_vote_velocity voter id now q).1
      ≡ record q { vote_history = touch voter q.vote_history }
unfolding check_vote_velocity
check_vote_velocity-base voter id now q = ground arith

entries-insert :
    {A : Type 0} (k j : ℕ) (v : List A) (d : Dict (List A))
    → entries j (insert k v d) ≡ (if j == k then v else entries j d)
entries-insert k j v d = ground (arith, lookup-insert k j v d)

entries-touch : {A : Type 0} (k j : ℕ) (d : Dict (List A)) → entries j (touch k d) ≡ entries j d
entries-touch k j d = ground (arith, lookup-insert k j [] d)

entries-add :
    {A : Type 0} (k j : ℕ) (x : A) (d : Dict (List A))
    → entries j (insert k (entries k (touch k d) ++ x ∷ []) (touch k d))
      ≡ (if j == k then entries k d ++ x ∷ [] else entries j d)
entries-add k j x d =
    rw
      (
        entries-insert k j (entries k (touch k d) ++ x ∷ []) (touch k d),
        entries-touch k k d,
        entries-touch k j d,
      )
      refl

module _ (p : Hashing) where
  -- The call got as far as recording the ballot.
  pub record Taken (voter id option : ℕ) (votes : ℤ) (t : Readings) (q : QuadraticVotingSystem)
      (r : SignedReceipt) : Type 0 where
    pub within : (check_vote_velocity voter id t.checked q).0 ≡ true
    pub paid :
        (spend_credits voter (price votes) (check_vote_velocity voter id t.checked q).1.base).0
        ≡ true
    pub outcome :
        record_quadratic p voter id option votes
          (calculate_quadratic_cost votes)
          t
          (charge voter id votes t q)
        ≡ (r, (cast_quadratic_vote p voter id option votes t q).1)

  pub cast_quadratic_vote-Taken :
      (voter id option : ℕ) (votes : ℤ) (t : Readings) (q : QuadraticVotingSystem)
      (r : SignedReceipt)
      → (cast_quadratic_vote p voter id option votes t q).0 ≡ some (quadratic r)
      → Taken voter id option votes t q r
  unfolding cast_quadratic_vote cast_enabled
  cast_quadratic_vote-Taken voter id option votes t q r h = record {
    within = ground arith;
    paid = ground arith;
    outcome = ground arith;
  }

  cast_enabled_iff :
      (voter id option : ℕ) (votes : ℤ) (t : Readings) (q : QuadraticVotingSystem)
      → q.enable_quadratic ≡ true
      → (is_some (cast_quadratic_vote p voter id option votes t q).0 ≡ true) ↔ (
          ((check_vote_velocity voter id t.checked q).0 ≡ true)
          × ((spend_credits voter (price votes) (check_vote_velocity voter id t.checked q).1.base).0
              ≡ true))
  unfolding cast_quadratic_vote cast_enabled
  cast_enabled_iff voter id option votes t q on = ground arith

  -- With quadratic voting on, `cast_quadratic_vote` takes a ballot exactly if the voter is within the
  -- limits and holds the square of the number of votes in credits, which is not zero. The vote need
  -- not be there, be open, or have the option.
  pub cast_quadratic_vote_iff :
      (voter id option : ℕ) (votes : ℤ) (t : Readings) (q : QuadraticVotingSystem)
      → q.enable_quadratic ≡ true
      → (is_some (cast_quadratic_vote p voter id option votes t q).0 ≡ true)
        ↔ (IsWithinLimits voter id t.checked q × Affords voter (price votes) q.base)
  unfolding cast_quadratic_vote cast_enabled
  cast_quadratic_vote_iff voter id option votes t q on =
      let limits = check_vote_velocity_iff voter id t.checked q in
      let same = ap (λ k. k.base) (check_vote_velocity-base voter id t.checked q) in
      let payment =
        subst
          (λ b.
            ((spend_credits voter (price votes) b).0 ≡ true) ↔ Affords voter (price votes) q.base)
          (sym same) (spend_credits_iff voter (price votes) q.base) in
      let steps = cast_enabled_iff voter id option votes t q on in
      (
        λ h. (limits.0 (steps.0 h).0, payment.0 (steps.0 h).1),
        λ h. steps.1 (limits.1 h.0, payment.1 h.1),
      )

  -- What a quadratic ballot that was taken has done.
  pub record Effect (voter id option : ℕ) (votes : ℤ) (t : Readings) (q q' : QuadraticVotingSystem)
      : Type 0 where
    pub affords : Affords voter (price votes) q.base
    pub accounts :
        (j : ℕ)
        → lookup j q'.base.accounts ≡ (
            if j == voter
            then some (pay (price votes) affords.account)
            else lookup j q.base.accounts)
    pub ballots :
        (j : ℕ)
        → entries j q'.quadratic_votes ≡ (
            if j == id
            then entries id q.quadratic_votes
              ++ record {
                voter_id = voter;
                vote_id = id;
                votes_cast = votes;
                credits_spent = calculate_quadratic_cost votes;
                option = option;
                timestamp = t.voted;
              }
                ∷ []
            else entries j q.quadratic_votes)
    pub history :
        (j : ℕ)
        → entries j q'.vote_history ≡ (
            if j == voter
            then entries voter q.vote_history
              ++ record {
                vote_id = id;
                timestamp = t.logged;
                credits = calculate_quadratic_cost votes;
              }
                ∷ []
            else entries j q.vote_history)

  -- A quadratic ballot that was taken has cost the voter the square of its number of votes and nobody
  -- else anything; it stands behind the earlier ones of its vote, and in the voter's history.
  pub cast_quadratic_vote-Effect :
      (voter id option : ℕ) (votes : ℤ) (t : Readings) (q : QuadraticVotingSystem)
      (r : SignedReceipt)
      → (cast_quadratic_vote p voter id option votes t q).0 ≡ some (quadratic r)
      → Effect voter id option votes t q (cast_quadratic_vote p voter id option votes t q).1
  unfolding record_quadratic record_vote_activity
  cast_quadratic_vote-Effect voter id option votes t q r h =
      let taken = cast_quadratic_vote-Taken voter id option votes t q r h in
      let checked = check_vote_velocity-base voter id t.checked q in
      let same = ap (λ k. k.base) checked in
      let paid =
        (spend_credits_iff voter (price votes) q.base).0
          (subst (λ b. (spend_credits voter (price votes) b).0 ≡ true) same taken.paid) in
      subst (λ c. Effect voter id option votes t q c.1) taken.outcome
        (record {
          affords = paid;
          accounts = λ j.
              ap (λ b. lookup j (spend_credits voter (price votes) b).1.accounts) same
              ∙ spend_credits-accounts voter j (price votes) q.base paid;
          ballots = λ j.
              rw (ap (λ k. k.quadratic_votes) checked) (entries-insert id j _ q.quadratic_votes);
          history =
              λ j. rw (ap (λ k. k.vote_history) checked) (entries-add voter j _ q.vote_history);
        })

  -- A call of `cast_quadratic_vote`, taken or not, keeps the balance of every account at what was
  -- earned less what was spent.
  pub cast_quadratic_vote-IsSound :
      (voter id option : ℕ) (votes : ℤ) (t : Readings) (q : QuadraticVotingSystem)
      → IsSound q.base
      → IsSound (cast_quadratic_vote p voter id option votes t q).1.base
  unfolding cast_quadratic_vote cast_enabled record_quadratic record_vote_activity
  cast_quadratic_vote-IsSound voter id option votes t q sound =
      let plain_sound = cast_vote-IsSound voter id option t.checked q.base sound in
      let same = ap (λ k. k.base) (check_vote_velocity-base voter id t.checked q) in
      let kept = subst IsSound (sym same) sound in
      let paid_sound =
        spend_credits-IsSound voter (price votes) (check_vote_velocity voter id t.checked q).1.base
          kept in
      ground (arith, plain_sound, kept, paid_sound)
