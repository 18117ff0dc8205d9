-- ===== src/Voting/Quadratic/Receipts.antt =====
-- The receipts of quadratic ballots (legacy/worker/src/daemon/voting_system.py).
use distrib_ai.Base.{ℕ, ◌≡◌, true, some, [], ◌∷◌, arith, take, refl, ap, subst, ◌∙◌}
use distrib_ai.Base.Int.{ℤ}
use distrib_ai.Base.Dict.{lookup, lookup-insert}
use distrib_ai.Voting.Types.{Bytes}
use distrib_ai.Voting.Signatures.{same_bytes}
use distrib_ai.Voting.Quadratic.{
  QuadraticVotingSystem, Hashing, Readings, charge, calculate_quadratic_cost, quadratic,
  SignedReceipt, cast_quadratic_vote, verify_vote_receipt, record_quadratic, sign_receipt,
  record_vote_activity,
}
use distrib_ai.Voting.Quadratic.Casting.{cast_quadratic_vote-Taken}

same_bytes_refl : (a : Bytes) → same_bytes a a ≡ true
same_bytes_refl [] = refl
same_bytes_refl (x ∷ a) = ground (arith, same_bytes_refl a)

module _ (p : Hashing) where
  -- A receipt that is stored under its key with the system's signature is verified.
  stored-verify :
      (id : ℕ) (r : SignedReceipt) (q : QuadraticVotingSystem)
      → lookup id q.vote_receipts ≡ some r
      → r ≡ sign_receipt p q.base.signing_key r.receipt
      → verify_vote_receipt p id q ≡ some r
  unfolding verify_vote_receipt sign_receipt
  stored-verify id r q e signed =
      let same =
        ap (λ k. same_bytes (take 32 (p.mac q.base.signing_key (p.dumps r.receipt))) k.signature)
          signed in
      rw (e, verify_vote_receipt)
        (rw (same ∙ same_bytes_refl (sign_receipt p q.base.signing_key r.receipt).signature) refl)

  record_quadratic-verify :
      (voter id option : ℕ) (votes cost : ℤ) (t : Readings) (q : QuadraticVotingSystem)
      → let (r, q') = record_quadratic p voter id option votes cost t q in
        verify_vote_receipt p r.receipt.receipt_id q' ≡ some r
  unfolding record_quadratic sign_receipt record_vote_activity
  record_quadratic-verify voter id option votes cost t q =
      let (r, q') = record_quadratic p voter id option votes cost t q in
      stored-verify r.receipt.receipt_id r q'
        (rw (lookup-insert r.receipt.receipt_id r.receipt.receipt_id r q.vote_receipts)
          (ground arith))
        refl

  -- The receipt that `cast_quadratic_vote` returns is stored, and `verify_vote_receipt` verifies it.
  pub cast_quadratic_vote-verify_vote_receipt :
      (voter id option : ℕ) (votes : ℤ) (t : Readings) (q : QuadraticVotingSystem)
      (r : SignedReceipt)
      → (cast_quadratic_vote p voter id option votes t q).0 ≡ some (quadratic r)
      → verify_vote_receipt p r.receipt.receipt_id
          (cast_quadratic_vote p voter id option votes t q).1
        ≡ some r
  cast_quadratic_vote-verify_vote_receipt voter id option votes t q r h =
      let taken = cast_quadratic_vote-Taken p voter id option votes t q r h in
      let verified =
        record_quadratic-verify voter id option votes (calculate_quadratic_cost votes) t
          (charge voter id votes t q) in
      subst (λ c. verify_vote_receipt p c.0.receipt.receipt_id c.1 ≡ some c.0) taken.outcome
        verified
