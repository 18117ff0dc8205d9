-- ===== src/Voting/Signatures/Verify.antt =====
-- Which signatures `verify_signature` takes (legacy/worker/src/daemon/voting_system.py).
use distrib_ai.Base.{ℕ, ◌≡◌, ◌↔◌, refl, true, some, [], ◌∷◌, ◌++◌, arith}
use distrib_ai.Base.Dict.{lookup, lookup-insert}
use distrib_ai.Voting.Types.{Bytes, VoteSignature, Vote, VotingSystem}
use distrib_ai.Voting.Signatures.{
  Platform, same_bytes, winner_name, signed_text, make_signature, sign_vote, verify_signature,
}

same_bytes_iff : (a b : Bytes) → (same_bytes a b ≡ true) ↔ (a ≡ b)
same_bytes_iff [] [] = (λ h. refl, λ h. refl)
same_bytes_iff [] (y ∷ ys) = (λ h. absurd (cc), λ h. absurd (cc))
same_bytes_iff (x ∷ xs) [] = (λ h. absurd (cc), λ h. absurd (cc))
same_bytes_iff (x ∷ xs) (y ∷ ys) = ground (arith, same_bytes_iff xs ys)

-- A signature passes exactly if it is the code, under the system's key, of the vote's identifier, the
-- voter, the winner as it is now, and the time.
pub verify_signature_iff :
    (p : Platform) (id : ℕ) (sig : VoteSignature) (s : VotingSystem) (v : Vote)
    → lookup id s.votes ≡ some v
    → (verify_signature p id sig s ≡ true) ↔ (
        p.mac s.signing_key (signed_text p id sig.voter_id (winner_name v) sig.timestamp)
        ≡ sig.signature)
unfolding verify_signature
verify_signature_iff p id sig s v e =
    let code = p.mac s.signing_key (signed_text p id sig.voter_id (winner_name v) sig.timestamp) in
    ground (arith, same_bytes_iff code sig.signature)

-- What `sign_vote` returns for a stored vote passes `verify_signature` in every state that has the
-- same key and in which the vote has the same winner, the state behind the call among them.
pub sign_vote-verify_signature :
    (p : Platform) (id voter now : ℕ) (s : VotingSystem) (v : Vote)
    → lookup id s.votes ≡ some v
    → (sig : VoteSignature) × ((sign_vote p id voter now s).0 ≡ some sig)
      × (verify_signature p id sig (sign_vote p id voter now s).1 ≡ true)
      × ((s' : VotingSystem) (v' : Vote)
          → s'.signing_key ≡ s.signing_key
          → lookup id s'.votes ≡ some v'
          → v'.winning_option ≡ v.winning_option
          → verify_signature p id sig s' ≡ true)
unfolding sign_vote
sign_vote-verify_signature p id voter now s v e =
    let sig = make_signature p id voter now v s in
    let signed = record v { signatures = v.signatures ++ sig ∷ [] } in
    let after = (sign_vote p id voter now s).1 in
    (
      sig,
      ground arith,
      (verify_signature_iff p id sig after signed
            (ground (arith, lookup-insert id id signed s.votes))).1
          (ground arith),
      λ s' v' k e' w. (verify_signature_iff p id sig s' v' e').1 (rw (k, w, winner_name) refl),
    )
