-- ===== src/Voting/Ballots/Tally.antt =====
-- What the tallies count (legacy/worker/src/daemon/voting_system.py).
use distrib_ai.Base.{
  ℕ, ◌+◌, ◌≡◌, refl, none, some, List, [], ◌∷◌, if◌then◌else◌, elem, ◌==◌, true, arith,
  Option-cases, inl, inr, length,
}
use distrib_ai.Base.Int.{ℤ, pos, ◌+ℤ◌, int_laws}
use distrib_ai.Base.Dict.{Dict, lookup, contains, insert, lookup-insert, values}
use distrib_ai.Voting.Types.{CreditAccount, VotingSystem, Vote}
use distrib_ai.Voting.Ballots.{
  from_keys, bump, count_ballots, tally_vote, weight, add_weight, weigh_ballots, tally_weighted,
}

lookup-from_keys :
    {V : Type 0} (o : ℕ) (d : Dict V) (ks : List ℕ) (v : V)
    → lookup o (from_keys d ks v) ≡ (if elem o ks then some v else lookup o d)
lookup-from_keys o d [] v = refl
lookup-from_keys o d (k ∷ ks) v =
    ground (arith, lookup-from_keys o (insert k v d) ks v, lookup-insert k o v d)

-- How often an option was chosen.
abbrev pub count : ℕ → List ℕ → ℕ
count o [] = 0
count o (x ∷ xs) = let rest = count o xs in if o == x then rest + 1 else rest

lookup-bump :
    (o k : ℕ) (d : Dict ℕ) {n : ℕ}
    → lookup o d ≡ some n
    → lookup o (bump k d) ≡ some (if o == k then n + 1 else n)
lookup-bump o k d e = elim (Option-cases (lookup k d)) [
  | inl f ↦ ground arith
  | inr (m, f) ↦ ground (arith, lookup-insert k o (m + 1) d)
]

lookup-count_ballots :
    (o : ℕ) (xs : List ℕ) (d : Dict ℕ) (n : ℕ)
    → lookup o d ≡ some n
    → lookup o (count_ballots d xs) ≡ some (n + count o xs)
unfolding count_ballots
lookup-count_ballots o [] d n e = ground arith
lookup-count_ballots o (x ∷ xs) d n e =
    ground (
      arith,
      lookup-bump o x d e,
      lookup-count_ballots o xs (bump x d) (if o == x then n + 1 else n),
    )

bump-none : (o k : ℕ) (d : Dict ℕ) → lookup o d ≡ none → lookup o (bump k d) ≡ none
bump-none o k d e = elim (Option-cases (lookup k d)) [
  | inl f ↦ ground arith
  | inr (m, f) ↦ ground (arith, lookup-insert k o (m + 1) d)
]

count_ballots-none :
    (o : ℕ) (xs : List ℕ) (d : Dict ℕ) → lookup o d ≡ none → lookup o (count_ballots d xs) ≡ none
unfolding count_ballots
count_ballots-none o [] d e = e
count_ballots-none o (x ∷ xs) d e = count_ballots-none o xs (bump x d) (bump-none o x d e)

-- The tally of a stored vote has exactly the vote's options, each with the number of the ballots that chose it.
pub tally_vote-count :
    (id o : ℕ) (s : VotingSystem) (v : Vote)
    → lookup id s.votes ≡ some v
    → lookup o (tally_vote id s)
      ≡ (if elem o v.options then some (count o (values v.votes_cast)) else none)
unfolding tally_vote
tally_vote-count id o s v e = ground (
  arith,
  lookup-from_keys {V = ℕ} o [] v.options 0,
  lookup-count_ballots o (values v.votes_cast) (from_keys [] v.options 0) 0,
  count_ballots-none o (values v.votes_cast) (from_keys [] v.options 0),
)

-- The weights of the ballots that chose an option.
abbrev pub support : Dict CreditAccount → ℕ → Dict ℕ → ℤ
support accounts o [] = pos 0
support accounts o ((voter, option) ∷ ballots) =
    let rest = support accounts o ballots in
    if o == option then weight accounts voter +ℤ rest else rest

lookup-add_weight :
    (o k : ℕ) (w : ℤ) (d : Dict ℤ) {n : ℤ}
    → lookup o d ≡ some n
    → lookup o (add_weight k w d) ≡ some (if o == k then n +ℤ w else n)
lookup-add_weight o k w d e = elim (Option-cases (lookup k d)) [
  | inl f ↦ ground arith
  | inr (m, f) ↦ ground (arith, lookup-insert k o (m +ℤ w) d)
]

add_weight-none :
    (o k : ℕ) (w : ℤ) (d : Dict ℤ) → lookup o d ≡ none → lookup o (add_weight k w d) ≡ none
add_weight-none o k w d e = elim (Option-cases (lookup k d)) [
  | inl f ↦ ground arith
  | inr (m, f) ↦ ground (arith, lookup-insert k o (m +ℤ w) d)
]

+ℤ_zero : (a : ℤ) → a +ℤ pos 0 ≡ a
+ℤ_zero a = omega int_laws

+ℤ_assoc : (a b c : ℤ) → a +ℤ b +ℤ c ≡ a +ℤ (b +ℤ c)
+ℤ_assoc a b c = omega int_laws

zero_+ℤ : (a : ℤ) → pos 0 +ℤ a ≡ a
zero_+ℤ a = omega int_laws

module _ (accounts : Dict CreditAccount) (o : ℕ) where
  lookup-weigh_ballots :
      (bs : Dict ℕ) (d : Dict ℤ) (n : ℤ)
      → lookup o d ≡ some n
      → lookup o (weigh_ballots accounts d bs) ≡ some (n +ℤ support accounts o bs)
  unfolding weigh_ballots
  lookup-weigh_ballots [] d n e = ground (arith, +ℤ_zero n)
  lookup-weigh_ballots ((voter, k) ∷ bs) d n e =
      let w = weight accounts voter in
      ground (
        arith,
        lookup-add_weight o k w d e,
        lookup-weigh_ballots bs (add_weight k w d) (if o == k then n +ℤ w else n),
        +ℤ_assoc n w (support accounts o bs),
      )

  weigh_ballots-none :
      (bs : Dict ℕ) (d : Dict ℤ) → lookup o d ≡ none → lookup o (weigh_ballots accounts d bs) ≡ none
  unfolding weigh_ballots
  weigh_ballots-none [] d e = e
  weigh_ballots-none ((voter, k) ∷ bs) d e =
      let w = weight accounts voter in
      weigh_ballots-none bs (add_weight k w d) (add_weight-none o k w d e)

-- The weighted tally of a stored vote has exactly the vote's options, each with the sum of the
-- weights of the voters who chose it.
pub tally_weighted-support :
    (id o : ℕ) (s : VotingSystem) (v : Vote)
    → lookup id s.votes ≡ some v
    → lookup o (tally_weighted id s)
      ≡ (if elem o v.options then some (support s.accounts o v.votes_cast) else none)
unfolding tally_weighted
tally_weighted-support id o s v e =
    let start : Dict ℤ = from_keys [] v.options (pos 0) in
    ground (
      arith,
      lookup-from_keys o [] v.options (pos 0),
      lookup-weigh_ballots s.accounts o v.votes_cast start (pos 0),
      weigh_ballots-none s.accounts o v.votes_cast start,
      zero_+ℤ (support s.accounts o v.votes_cast),
    )

-- The ballots that a tally holds.
abbrev pub sum : List ℕ → ℕ
sum [] = 0
sum (x ∷ xs) = x + sum xs

sum-insert :
    (k n m : ℕ) (d : Dict ℕ)
    → lookup k d ≡ some n
    → sum (values (insert k m d)) + n ≡ sum (values d) + m
sum-insert k n m [] e = absurd (cc)
sum-insert k n m (x ∷ d) e = ground (arith, sum-insert k n m d)

sum-from_keys :
    (d : Dict ℕ) (ks : List ℕ) → sum (values d) ≡ 0 → sum (values (from_keys d ks 0)) ≡ 0
sum-from_keys d [] h = h
sum-from_keys d (k ∷ ks) h = sum-from_keys (insert k 0 d) ks (insert_zero k d h)
  where
    insert_zero : (k : ℕ) (d : Dict ℕ) → sum (values d) ≡ 0 → sum (values (insert k 0 d)) ≡ 0
    insert_zero k [] h = omega arith
    insert_zero k (x ∷ d) h = ground (arith, insert_zero k d)

-- Every ballot is for a listed option.
abbrev pub Listed : List ℕ → List ℕ → Type 0
Listed options [] = Unit
Listed options (o ∷ os) = (elem o options ≡ true) × Listed options os

-- Every ballot is for an option that the tally has.
abbrev Counted : Dict ℕ → List ℕ → Type 0
Counted d [] = Unit
Counted d (o ∷ os) = (contains o d ≡ true) × Counted d os

contains-bump : (o k : ℕ) (d : Dict ℕ) → contains o d ≡ true → contains o (bump k d) ≡ true
contains-bump o k d h = elim (Option-cases (lookup k d)) [
  | inl f ↦ ground arith
  | inr (m, f) ↦ ground (arith, lookup-insert k o (m + 1) d)
]

Counted-bump : (k : ℕ) (d : Dict ℕ) (os : List ℕ) → Counted d os → Counted (bump k d) os
Counted-bump k d [] h = tt
Counted-bump k d (o ∷ os) h = (contains-bump o k d h.0, Counted-bump k d os h.1)

Listed-Counted : (options os : List ℕ) → Listed options os → Counted (from_keys [] options 0) os
Listed-Counted options [] h = tt
Listed-Counted options (o ∷ os) h =
    (ground (arith, lookup-from_keys {V = ℕ} o [] options 0), Listed-Counted options os h.1)

sum-bump : (k : ℕ) (d : Dict ℕ) → contains k d ≡ true → sum (values (bump k d)) ≡ sum (values d) + 1
sum-bump k d h = elim (Option-cases (lookup k d)) [
  | inl f ↦ absurd (ground arith)
  | inr (m, f) ↦ ground (arith, sum-insert k m (m + 1) d f)
]

sum-count_ballots :
    (d : Dict ℕ) (os : List ℕ)
    → Counted d os
    → sum (values (count_ballots d os)) ≡ sum (values d) + length os
unfolding count_ballots
sum-count_ballots d [] h = omega arith
sum-count_ballots d (o ∷ os) h =
    omega (arith, sum-count_ballots (bump o d) os (Counted-bump o d os h.1), sum-bump o d h.0)

length-values : (d : Dict ℕ) → length (values d) ≡ length d
length-values [] = refl
length-values (e ∷ d) = omega (arith, length-values d)

-- No ballot is lost: where every ballot is for a listed option, the counts of the tally add up to
-- the number of ballots.
pub tally_vote-total :
    (id : ℕ) (s : VotingSystem) (v : Vote)
    → lookup id s.votes ≡ some v
    → Listed v.options (values v.votes_cast)
    → sum (values (tally_vote id s)) ≡ length v.votes_cast
unfolding tally_vote
tally_vote-total id s v e h =
    let start : Dict ℕ = from_keys [] v.options 0 in
    ground (
      arith,
      sum-count_ballots start (values v.votes_cast)
          (Listed-Counted v.options (values v.votes_cast) h),
      sum-from_keys [] v.options (omega arith),
      length-values v.votes_cast,
    )
