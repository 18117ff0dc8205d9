-- ===== src/Voting/Quadratic/Tally.antt =====
-- What `tally_quadratic_votes` counts (legacy/worker/src/daemon/voting_system.py).
use distrib_ai.Base.{
  ℕ, ◌≡◌, ◌∙◌, sym, ap, Option, none, some, List, [], ◌∷◌, arith, if◌then◌else◌, ◌==◌, Option-cases,
  inl, inr,
}
use distrib_ai.Base.Int.{ℤ, pos, ◌+ℤ◌, int_laws}
use distrib_ai.Base.Dict.{Dict, lookup, lookup-insert}
use distrib_ai.Voting.Quadratic.{
  QuadraticVote, QuadraticVotingSystem, entries, tally_from, tally_quadratic_votes, add_voice,
}

-- The votes for an option, over all ballots.
abbrev pub voice : ℕ → List QuadraticVote → ℤ
voice o [] = pos 0
voice o (v ∷ vs) = (if o == v.option then v.votes_cast else pos 0) +ℤ voice o vs

abbrev pub or_zero : Option ℤ → ℤ
or_zero none = pos 0
or_zero (some n) = n

plus_zero : (a : ℤ) → a +ℤ pos 0 ≡ a
plus_zero a = omega int_laws

zero_plus : (a : ℤ) → pos 0 +ℤ a ≡ a
zero_plus a = omega int_laws

regroup : (a b c : ℤ) → a +ℤ b +ℤ c ≡ a +ℤ (b +ℤ c)
regroup a b c = omega int_laws

add_voice-lookup :
    (o option : ℕ) (votes : ℤ) (tally : Dict ℤ)
    → or_zero (lookup o (add_voice option votes tally))
      ≡ or_zero (lookup o tally) +ℤ (if o == option then votes else pos 0)
add_voice-lookup o option votes tally = elim (Option-cases (lookup option tally)) [
  | inl e ↦
      rw (e, add_voice)
        (rw (lookup-insert option o (pos 0 +ℤ votes) tally) (grind (arith, plus_zero)))
  | inr (n, e) ↦
      rw (e, add_voice) (rw (lookup-insert option o (n +ℤ votes) tally) (grind (arith, plus_zero)))
]

tally_from-voice :
    (o : ℕ) (vs : List QuadraticVote) (tally : Dict ℤ)
    → or_zero (lookup o (tally_from tally vs)) ≡ or_zero (lookup o tally) +ℤ voice o vs
unfolding tally_from
tally_from-voice o [] tally = sym (plus_zero (or_zero (lookup o tally)))
tally_from-voice o (v ∷ vs) tally =
    let votes = if o == v.option then v.votes_cast else pos 0 in
    tally_from-voice o vs (add_voice v.option v.votes_cast tally)
    ∙ ap (λ n. n +ℤ voice o vs) (add_voice-lookup o v.option v.votes_cast tally)
    ∙ regroup (or_zero (lookup o tally)) votes (voice o vs)

-- The tally of an option is the sum of the votes of all quadratic ballots for it on the vote; it is
-- missing, which reads as 0, where there are none.
pub tally_quadratic_votes-voice :
    (o id : ℕ) (q : QuadraticVotingSystem)
    → or_zero (lookup o (tally_quadratic_votes id q)) ≡ voice o (entries id q.quadratic_votes)
unfolding tally_quadratic_votes
tally_quadratic_votes-voice o id q =
    tally_from-voice o (entries id q.quadratic_votes) []
    ∙ zero_plus (voice o (entries id q.quadratic_votes))
