-- ===== src/Voting/Signatures.antt =====
-- `sign_vote` and `verify_signature` (legacy/worker/src/daemon/voting_system.py), over the code of
-- hashlib and hmac, which is a parameter.
pub mod Verify
use distrib_ai.Base.{
  ℕ, ◌+◌, Bool, true, false, ◌&&◌, Option, none, some, List, [], ◌∷◌, ◌++◌, if◌then◌else◌, ◌==◌,
}
use distrib_ai.Base.Dict.{lookup}
use distrib_ai.Voting.Types.{Bytes, VoteSignature, Vote, VotingSystem}
use distrib_ai.Voting.Ballots.{put_vote}

-- `mac` is HMAC-SHA256 of a key and a message, `digest` the first 16 hexadecimal digits of the
-- SHA-256 of a proposer, a title and a time, `text` the UTF-8 bytes of a name, and `decimal` those
-- of `int(time)`.
pub record Platform : Type 0 where
  pub mac : Bytes → Bytes → Bytes
  pub digest : ℕ → ℕ → ℕ → ℕ
  pub text : ℕ → Bytes
  pub decimal : ℕ → Bytes

-- `hmac.compare_digest`
abbrev pub same_bytes : Bytes → Bytes → Bool
same_bytes [] [] = true
same_bytes (a ∷ xs) (b ∷ ys) = a == b && same_bytes xs ys
same_bytes _ _ = false

-- `vote.winning_option or ''`
abbrev pub winner_name : Vote → ℕ
winner_name v = elim v.winning_option [ none ↦ 0 | some w ↦ w ]

module _ (p : Platform) where
  -- `f"{vote_id}:{voter_id}:{winning_option or ''}:{int(timestamp)}".encode()`
  pub signed_text : ℕ → ℕ → ℕ → ℕ → Bytes
  signed_text id voter winner time =
      p.text id ++ (b':' ∷ (p.text voter ++ (b':' ∷ (p.text winner ++ (b':' ∷ p.decimal time)))))

  abbrev pub make_signature : ℕ → ℕ → ℕ → Vote → VotingSystem → VoteSignature
  make_signature id voter now v s = record {
    voter_id = voter;
    signature = p.mac s.signing_key (signed_text id voter (winner_name v) now);
    timestamp = now;
  }

  unfoldable pub sign_vote : ℕ → ℕ → ℕ → VotingSystem → Option VoteSignature × VotingSystem
  sign_vote id voter now s = elim (lookup id s.votes) [
    | none ↦ (none, s)
    | some v ↦
        let signature = make_signature id voter now v s in
        (some signature, put_vote id (record v { signatures = v.signatures ++ signature ∷ [] }) s)
  ]

  unfoldable pub verify_signature : ℕ → VoteSignature → VotingSystem → Bool
  verify_signature id sig s = elim (lookup id s.votes) [
    | none ↦ false
    | some v ↦
        same_bytes (p.mac s.signing_key (signed_text id sig.voter_id (winner_name v) sig.timestamp))
          sig.signature
  ]
