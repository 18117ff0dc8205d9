-- ===== src/Ledger/Staking/Sums.antt =====
-- Sums of stakes, and how the steps of `EnhancedCreditLedger` change them
-- (legacy/worker/src/daemon/credit_ledger.py).
use distrib_ai.Base.{
  ℕ, zero, suc, ◌≡◌, ◌∙◌, sym, ap, subst, refl, Option, none, some, List, [], ◌∷◌, ◌++◌, arith,
  if◌then◌else◌, ◌==◌, get_elem?, remove, returned, Option-cases, Bool-cases, inl, inr, leb,
}
use distrib_ai.Base.Int.{ℤ, pos, ◌+ℤ◌, ◌-ℤ◌, int_laws}
use distrib_ai.Base.Dict.{Dict, lookup, insert}
use distrib_ai.Ledger.Staking.{
  StakeInfo, EnhancedCreditLedger, stakes_of, sum_stakes, slash_all, slash_amount, choose_stake,
  take_unlocked, add_stake,
}

-- The sum of all stakes of all contributors.
abbrev pub sum_all : Dict (List StakeInfo) → ℤ
sum_all [] = pos 0
sum_all ((c, xs) ∷ d) = sum_stakes xs +ℤ sum_all d

abbrev pub IsTotaled : EnhancedCreditLedger → Type 0
IsTotaled e = e.total_staked ≡ sum_all e.stakes

zero_left : (a : ℤ) → pos 0 +ℤ a ≡ a
zero_left a = omega int_laws

replace : (xs ys r : ℤ) → ys +ℤ r ≡ xs +ℤ r +ℤ (ys -ℤ xs)
replace xs ys r = omega int_laws

only : (y : ℤ) → y +ℤ pos 0 ≡ pos 0 +ℤ (y -ℤ pos 0)
only y = omega int_laws

regroup : (a b c : ℤ) → a +ℤ (b +ℤ c) ≡ a +ℤ b +ℤ c
regroup a b c = omega int_laws

nothing : pos 0 ≡ pos 0 -ℤ pos 0
nothing = omega int_laws

slash_regroup : (a s xs t : ℤ) → a -ℤ s +ℤ (xs -ℤ t) ≡ a +ℤ xs -ℤ (s +ℤ t)
slash_regroup a s xs t = omega int_laws

take_first : (a xs : ℤ) → xs ≡ a +ℤ xs -ℤ a
take_first a xs = omega int_laws

take_later : (a b xs : ℤ) → a +ℤ (xs -ℤ b) ≡ a +ℤ xs -ℤ b
take_later a b xs = omega int_laws

stakes_of-first :
    (c k : ℕ) (xs : List StakeInfo) (d : Dict (List StakeInfo))
    → stakes_of c ((k, xs) ∷ d) ≡ (if c == k then xs else stakes_of c d)
stakes_of-first c k xs d = ground arith

pub sum_all-insert :
    (c : ℕ) (ys : List StakeInfo) (d : Dict (List StakeInfo))
    → sum_all (insert c ys d) ≡ sum_all d +ℤ (sum_stakes ys -ℤ sum_stakes (stakes_of c d))
sum_all-insert c ys [] = only (sum_stakes ys)
sum_all-insert c ys ((k, xs) ∷ d) = elim (Bool-cases (c == k)) [
  | inl same ↦
      rw (stakes_of-first c k xs d, same) (replace (sum_stakes xs) (sum_stakes ys) (sum_all d))
  | inr other ↦
      rw (stakes_of-first c k xs d, other)
        (ap (λ r. sum_stakes xs +ℤ r) (sum_all-insert c ys d)
          ∙ regroup (sum_stakes xs) (sum_all d) (sum_stakes ys -ℤ sum_stakes (stakes_of c d)))
]

sum_stakes-append :
    (xs ys : List StakeInfo) → sum_stakes (xs ++ ys) ≡ sum_stakes xs +ℤ sum_stakes ys
sum_stakes-append [] ys = sym (zero_left (sum_stakes ys))
sum_stakes-append (x ∷ xs) ys =
    ap (λ r. x.amount +ℤ r) (sum_stakes-append xs ys)
    ∙ regroup x.amount (sum_stakes xs) (sum_stakes ys)

slash_all-sum :
    (f : ℤ) (xs : List StakeInfo)
    → sum_stakes (slash_all f xs).0 ≡ sum_stakes xs -ℤ (slash_all f xs).1
unfolding slash_all
slash_all-sum f [] = nothing
slash_all-sum f (x ∷ xs) =
    ap (λ r. x.amount -ℤ slash_amount f x +ℤ r) (slash_all-sum f xs)
    ∙ slash_regroup x.amount (slash_amount f x) (sum_stakes xs) (slash_all f xs).1

remove-sum :
    (xs : List StakeInfo) (i : ℕ) (x : StakeInfo)
    → get_elem? xs i ≡ some x
    → sum_stakes (remove xs i) ≡ sum_stakes xs -ℤ x.amount
remove-sum [] i x h = absurd (cc)
remove-sum (y ∷ xs) zero x h =
    let same : y ≡ x = cc in
    take_first y.amount (sum_stakes xs) ∙ ap (λ z. y.amount +ℤ sum_stakes xs -ℤ z.amount) same
remove-sum (y ∷ xs) (suc i) x h =
    ap (λ r. y.amount +ℤ r) (remove-sum xs i x h) ∙ take_later y.amount x.amount (sum_stakes xs)

some_injective : {A : Type 0} {a b : A} → some a ≡ some b → a ≡ b
some_injective e = cc

pub none_is_none : {A : Type 0} {a : A} → none ≡ some a → ⊥
none_is_none e = cc

-- The amounts that leave the stakes and the total when the first unlocked stake is taken.
pub take_unlocked-sum :
    (now : ℕ) (xs : List StakeInfo) (x : StakeInfo) (rest : List StakeInfo)
    → take_unlocked now xs ≡ some (x, rest)
    → sum_stakes rest ≡ sum_stakes xs -ℤ x.amount
unfolding take_unlocked
take_unlocked-sum now [] x rest h = absurd (cc)
take_unlocked-sum now (y ∷ xs) x rest h = elim (Bool-cases (leb y.unlocks_at now)) [
  | inl unlocked ↦
      let same : some (y, xs) ≡ some (x, rest) = rw (unlocked, take_unlocked) at h in
      subst (λ q. sum_stakes q.1 ≡ sum_stakes (y ∷ xs) -ℤ q.0.amount) (some_injective same)
        (take_first y.amount (sum_stakes xs))
  | inr locked ↦ elim (Option-cases (take_unlocked now xs)) [
    | inl e ↦ absurd (none_is_none (rw (locked, e, take_unlocked) at h))
    | inr ((z, zs), e) ↦
        let same : some (z, y ∷ zs) ≡ some (x, rest) = rw (locked, e, take_unlocked) at h in
        subst (λ q. sum_stakes q.1 ≡ sum_stakes (y ∷ xs) -ℤ q.0.amount) (some_injective same)
          (ap (λ r. y.amount +ℤ r) (take_unlocked-sum now xs z zs e)
            ∙ take_later y.amount z.amount (sum_stakes xs))
  ]
]

total_added : (total all xs a : ℤ) → total ≡ all → total +ℤ a ≡ all +ℤ (xs +ℤ (a +ℤ pos 0) -ℤ xs)
total_added total all xs a h = ap (λ r. r +ℤ a) h ∙ cancel all xs a
  where
    cancel : (all xs a : ℤ) → all +ℤ a ≡ all +ℤ (xs +ℤ (a +ℤ pos 0) -ℤ xs)
    cancel all xs a = omega int_laws

total_reduced : (total all xs a : ℤ) → total ≡ all → total -ℤ a ≡ all +ℤ (xs -ℤ a -ℤ xs)
total_reduced total all xs a h = ap (λ r. r -ℤ a) h ∙ cancel all xs a
  where
    cancel : (all xs a : ℤ) → all -ℤ a ≡ all +ℤ (xs -ℤ a -ℤ xs)
    cancel all xs a = omega int_laws

pub add_stake-IsTotaled :
    (x : StakeInfo) (e : EnhancedCreditLedger) → IsTotaled e → IsTotaled (add_stake x e)
add_stake-IsTotaled x e h =
    let mine = stakes_of x.contributor_id e.stakes in
    total_added e.total_staked (sum_all e.stakes) (sum_stakes mine) x.amount h
    ∙ ap (λ r. sum_all e.stakes +ℤ (r -ℤ sum_stakes mine)) (sym (sum_stakes-append mine (x ∷ [])))
    ∙ sym (sum_all-insert x.contributor_id (mine ++ x ∷ []) e.stakes)

-- A list of stakes that is replaced by one that is smaller by `a`.
pub reduced-IsTotaled :
    (c : ℕ) (a : ℤ) (ys : List StakeInfo) (e : EnhancedCreditLedger)
    → IsTotaled e
    → sum_stakes ys ≡ sum_stakes (stakes_of c e.stakes) -ℤ a
    → e.total_staked -ℤ a ≡ sum_all (insert c ys e.stakes)
reduced-IsTotaled c a ys e h k =
    let mine = stakes_of c e.stakes in
    total_reduced e.total_staked (sum_all e.stakes) (sum_stakes mine) a h
    ∙ ap (λ r. sum_all e.stakes +ℤ (r -ℤ sum_stakes mine)) (sym k)
    ∙ sym (sum_all-insert c ys e.stakes)

stored_stakes :
    (c : ℕ) (xs : List StakeInfo) (d : Dict (List StakeInfo))
    → lookup c d ≡ some xs
    → stakes_of c d ≡ xs
stored_stakes c xs d k = ground arith

pub slashed-IsTotaled :
    (c : ℕ) (f : ℤ) (xs : List StakeInfo) (e : EnhancedCreditLedger)
    → IsTotaled e
    → lookup c e.stakes ≡ some xs
    → e.total_staked -ℤ (slash_all f xs).1 ≡ sum_all (insert c (slash_all f xs).0 e.stakes)
slashed-IsTotaled c f xs e h k =
    let lost = (slash_all f xs).1 in
    reduced-IsTotaled c lost (slash_all f xs).0 e h
      (slash_all-sum f xs ∙ ap (λ zs. sum_stakes zs -ℤ lost) (sym (stored_stakes c xs e.stakes k)))

-- What leaves the list is the stake that was taken.
pub choose_stake-sum :
    (index : Option ℕ) (now : ℕ) (xs : List StakeInfo) (x : StakeInfo) (u : ℤ)
    (rest : List StakeInfo)
    → choose_stake index now xs ≡ returned (x, u, rest)
    → sum_stakes rest ≡ sum_stakes xs -ℤ x.amount
unfolding choose_stake
choose_stake-sum none now xs x u rest h = elim (Option-cases (take_unlocked now xs)) [
  | inl e ↦ absurd (ground arith)
  | inr ((y, ys), e) ↦
      let k : take_unlocked now xs ≡ some (x, rest) = ground arith in
      take_unlocked-sum now xs x rest k
]
choose_stake-sum (some i) now xs x u rest h = elim (Option-cases (get_elem? xs i)) [
  | inl e ↦ absurd (ground arith)
  | inr (y, e) ↦
      let k : get_elem? xs i ≡ some x = ground arith in
      let same : rest ≡ remove xs i = ground arith in
      subst (λ zs. sum_stakes zs ≡ sum_stakes xs -ℤ x.amount) (sym same) (remove-sum xs i x k)
]

pub oldest_choice :
    (now : ℕ) (xs : List StakeInfo) (x : StakeInfo) (rest : List StakeInfo)
    → take_unlocked now xs ≡ some (x, rest)
    → choose_stake none now xs ≡ returned (x, x.amount -ℤ x.slashed_amount, rest)
unfolding choose_stake
oldest_choice now xs x rest k = rw (k, choose_stake) refl

pub drift_shift :
    (total all xs a lost left : ℤ)
    → total ≡ all
    → left ≡ xs -ℤ a
    → total -ℤ (a -ℤ lost) ≡ all +ℤ (left -ℤ xs) +ℤ lost
drift_shift total all xs a lost left h k =
    ap (λ r. r -ℤ (a -ℤ lost)) h ∙ shift all xs a lost ∙ ap (λ r. all +ℤ (r -ℤ xs) +ℤ lost) (sym k)
  where
    shift : (all xs a lost : ℤ) → all -ℤ (a -ℤ lost) ≡ all +ℤ (xs -ℤ a -ℤ xs) +ℤ lost
    shift all xs a lost = omega int_laws

-- By its index, a stake is released whole.
pub choose_stake-amount :
    (i now : ℕ) (xs : List StakeInfo) (x : StakeInfo) (u : ℤ) (rest : List StakeInfo)
    → choose_stake (some i) now xs ≡ returned (x, u, rest)
    → u ≡ x.amount
unfolding choose_stake
choose_stake-amount i now xs x u rest h = ground arith
