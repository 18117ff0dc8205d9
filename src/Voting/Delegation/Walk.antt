-- ===== src/Voting/Delegation/Walk.antt =====
-- The loop of `_would_create_cycle` (legacy/worker/src/daemon/voting_system.py): it ends within its
-- fuel, and what its answer means.
use distrib_ai.Base.{
  ℕ, zero, suc, ◌+◌, ◌≤◌, ◌<◌, ◌≡◌, ◌≢◌, Bool, true, false, Option, none, some, List, [], ◌∷◌,
  if◌then◌else◌, length, elem, arith, Bool-cases, Option-cases, inl, inr,
}
use distrib_ai.Base.Dict.{Dict, lookup, keys}
use distrib_ai.Voting.Types.{CreditAccount, VotingSystem}
use distrib_ai.Voting.Delegation.{next_of, non_empty, walk, would_create_cycle}

-- How many of the keys were not visited.
abbrev unvisited : List ℕ → List ℕ → ℕ
unvisited visited [] = 0
unvisited visited (k ∷ ks) =
    let rest = unvisited visited ks in if elem k visited then rest else rest + 1

unvisited-le :
    (visited : List ℕ) (k : ℕ) (ks : List ℕ) → unvisited (k ∷ visited) ks ≤ unvisited visited ks
unvisited-le visited k [] = omega arith
unvisited-le visited k (j ∷ ks) = ground (arith, unvisited-le visited k ks)

unvisited-lt :
    (visited : List ℕ) (k : ℕ) (ks : List ℕ)
    → elem k ks ≡ true
    → elem k visited ≡ false
    → unvisited (k ∷ visited) ks < unvisited visited ks
unvisited-lt visited k [] h g = absurd (cc)
unvisited-lt visited k (j ∷ ks) h g =
    ground (arith, unvisited-le visited k ks, unvisited-lt visited k ks)

unvisited-nil : {V : Type 0} (d : Dict V) → unvisited [] (keys d) ≡ length d
unvisited-nil [] = omega arith
unvisited-nil (e ∷ d) = omega (arith, unvisited-nil d)

elem-keys : {V : Type 0} (k : ℕ) (d : Dict V) → lookup k d ≢ none → elem k (keys d) ≡ true
elem-keys k [] h = absurd (h (cc))
elem-keys k (e ∷ d) h = ground (arith, elem-keys k d)

next_of-elem :
    (id next : ℕ) (accounts : Dict CreditAccount)
    → next_of id accounts ≡ some next
    → elem id (keys accounts) ≡ true
unfolding next_of
next_of-elem id next accounts h = elem-keys id accounts (λ e. ground arith)

next_of-ne-zero :
    (id next : ℕ) (accounts : Dict CreditAccount) → next_of id accounts ≡ some next → next ≢ 0
unfolding next_of
next_of-ne-zero id next accounts h = elim (Option-cases (lookup id accounts)) [
  | inl e ↦ absurd (ground arith)
  | inr (a, e) ↦ some_non_empty a.delegated_to (ground arith)
]
  where
    some_non_empty : (o : Option ℕ) → non_empty o ≡ some next → next ≢ 0
    some_non_empty none h = absurd (cc)
    some_non_empty (some zero) h = absurd (cc)
    some_non_empty (some (suc n)) h = ground arith

-- From `id` the delegations lead, past others than `voter`, to a name that has not delegated.
pub data Avoids (voter : ℕ) (accounts : Dict CreditAccount) : ℕ → Type 0 where
  stop : (id : ℕ) → id ≢ voter → next_of id accounts ≡ none → Avoids voter accounts id
  step :
      (id next : ℕ)
      → id ≢ voter
      → next_of id accounts ≡ some next
      → Avoids voter accounts next
      → Avoids voter accounts id

module _ (voter : ℕ) (accounts : Dict CreditAccount) where
  -- With more fuel than names left to visit the loop returns an answer.
  walk_total :
      (fuel : ℕ) (visited : List ℕ) (current : ℕ)
      → unvisited visited (keys accounts) < fuel
      → walk fuel voter visited current accounts ≢ none
  unfolding walk
  walk_total zero visited current h = absurd (omega arith)
  walk_total (suc fuel) visited current h = elim (Option-cases (next_of current accounts)) [
    | inl e ↦ ground arith
    | inr (next, e) ↦ elim (Bool-cases (elem current visited)) [
      | inl seen ↦ ground arith
      | inr new ↦
          let known = next_of-elem current next accounts e in
          let falls = unvisited-lt visited current (keys accounts) known new in
          ground (arith, walk_total fuel (current ∷ visited) next)
    ]
  ]

  -- An answer `False` about a name that is not empty.
  walk-Avoids :
      (fuel : ℕ) (visited : List ℕ) (current : ℕ)
      → current ≢ 0
      → walk fuel voter visited current accounts ≡ some false
      → Avoids voter accounts current
  unfolding walk
  walk-Avoids zero visited current n h = absurd (cc)
  walk-Avoids (suc fuel) visited current n h = elim (Option-cases (next_of current accounts)) [
    | inl e ↦ Avoids.stop current (ground arith) e
    | inr (next, e) ↦ Avoids.step current next (ground arith) e (
        walk-Avoids fuel (current ∷ visited) next (next_of-ne-zero current next accounts e)
          (ground arith))
  ]

-- The loop of `_would_create_cycle` always ends: it returns an answer for all names and accounts.
pub would_create_cycle_total :
    (voter target : ℕ) (s : VotingSystem)
    → (b : Bool) × (would_create_cycle voter target s ≡ some b)
unfolding would_create_cycle
would_create_cycle_total voter target s =
    let enough : unvisited [] (keys s.accounts) < length s.accounts + 1 =
      omega (arith, unvisited-nil s.accounts) in
    elim (Option-cases (walk (length s.accounts + 1) voter [] target s.accounts)) [
      | inl e ↦ absurd (walk_total voter s.accounts (length s.accounts + 1) [] target enough e)
      | inr r ↦ r
    ]

-- The answer `False` about a name that is not empty: following the delegations from it leads past
-- others than the voter, to a name that has not delegated.
pub would_create_cycle-Avoids :
    (voter target : ℕ) (s : VotingSystem)
    → target ≢ 0
    → would_create_cycle voter target s ≡ some false
    → Avoids voter s.accounts target
unfolding would_create_cycle
would_create_cycle-Avoids voter target s n h =
    walk-Avoids voter s.accounts (length s.accounts + 1) [] target n h
