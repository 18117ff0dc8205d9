-- ===== src/Ledger/Vesting/Releases.antt =====
-- What the processing of vesting releases pays out (legacy/worker/src/daemon/credit_ledger.py).
use distrib_ai.Base.{
  ℕ, ◌==◌, ◌≡◌, ◌⊎◌, inl, inr, refl, sym, ap, ◌∙◌, Bool, true, false, List, [], ◌∷◌, ◌++◌,
  if◌then◌else◌, Bool-cases, length, returned, value_error,
}
use distrib_ai.Base.Int.{ℤ, pos, ◌+ℤ◌, ltb_ℤ, int_laws}
use distrib_ai.Base.Dict.{Dict}
use distrib_ai.Ledger.Types.{Platform, CreditLedger}
use distrib_ai.Ledger.Chain.{append, add_credit, credit_to}
use distrib_ai.Ledger.Queries.{get_balance}
use distrib_ai.Ledger.Queries.Balance.{LoadsCredits, add_credit-get_balance}
use distrib_ai.Ledger.Vesting.{
  Release, Schedule, VestingLedger, is_waiting, release_due, release_schedules, release_all,
  process_vesting_releases,
}

-- What a node got of the processed releases.
abbrev pub paid : ℕ → List (ℕ × (ℤ × ℕ)) → ℤ
paid n [] = pos 0
paid n ((c, (a, m)) ∷ rest) = (if c == n then a else pos 0) +ℤ paid n rest

plus_zero : (a : ℤ) → a ≡ a +ℤ pos 0
plus_zero a = omega int_laws

assoc : (a b c : ℤ) → a +ℤ b +ℤ c ≡ a +ℤ (b +ℤ c)
assoc a b c = omega int_laws

zero_sum : (a : ℤ) → pos 0 +ℤ a ≡ a
zero_sum a = omega int_laws

pub paid-append : (n : ℕ) (xs ys : List (ℕ × (ℤ × ℕ))) → paid n (xs ++ ys) ≡ paid n xs +ℤ paid n ys
paid-append n [] ys = sym (zero_sum (paid n ys))
paid-append n ((c, (a, m)) ∷ xs) ys =
    ap (λ s. (if c == n then a else pos 0) +ℤ s) (paid-append n xs ys)
    ∙ sym (assoc (if c == n then a else pos 0) (paid n xs) (paid n ys))

same_sum : (t : Bool) (b a : ℤ) → (if t then b +ℤ a else b) ≡ b +ℤ (if t then a else pos 0)
same_sum true b a = refl
same_sum false b a = plus_zero b

module _ (p : Platform) where
  credit-cases :
      (c job : ℕ) (a : ℤ) (t n : ℕ) (b : ℤ) (l : CreditLedger)
      → LoadsCredits p
      → get_balance p n l ≡ returned b
      → (((credit_to p c a job [] t t t l).0 ≡ value_error)
          × ((credit_to p c a job [] t t t l).1 ≡ l))
        ⊎ (((credit_to p c a job [] t t t l).0 ≡ returned (length l.records))
            × (get_balance p n (credit_to p c a job [] t t t l).1
                ≡ returned (b +ℤ (if c == n then a else pos 0))))
  unfolding credit_to add_credit append
  credit-cases c job a t n b l loads h = elim (Bool-cases (ltb_ℤ a (pos 0))) [
    | inl e ↦ inl (rw e refl, rw e refl)
    | inr e ↦ inr (
      rw e refl,
      add_credit-get_balance p c job a [] t t t n b l loads e h
          ∙ ap returned (same_sum (c == n) b a),
    )
  ]

  release_due-paid :
      (job c now t n : ℕ) (b : ℤ) (rs : List Release) (l : CreditLedger)
      → LoadsCredits p
      → get_balance p n l ≡ returned b
      → get_balance p n (release_due p job c now t rs l).ledger
        ≡ returned (b +ℤ paid n (release_due p job c now t rs l).processed)
  unfolding release_due
  release_due-paid job c now t n b [] l loads h = h ∙ ap returned (plus_zero b)
  release_due-paid job c now t n b (r ∷ rs) l loads h = elim (Bool-cases (is_waiting now r)) [
    | inl w ↦ rw (w, release_due) (release_due-paid job c now t n b rs l loads h)
    | inr w ↦ elim (credit-cases c job r.amount t n b l loads h) [
      | inl (e, same) ↦
          rw (w, e, release_due) (ap (get_balance p n) same ∙ h ∙ ap returned (plus_zero b))
      | inr (e, k) ↦
          rw (w, e, release_due)
            (release_due-paid job c now t n (b +ℤ (if c == n then r.amount else pos 0)) rs
                (credit_to p c r.amount job [] t t t l).1 loads k
              ∙ ap returned (assoc b (if c == n then r.amount else pos 0) _))
    ]
  ]

  schedules-paid :
      (job c now t n : ℕ) (b : ℤ) (ss : List Schedule) (l : CreditLedger)
      → LoadsCredits p
      → get_balance p n l ≡ returned b
      → get_balance p n (release_schedules p job c now t ss l).ledger
        ≡ returned (b +ℤ paid n (release_schedules p job c now t ss l).processed)
  unfolding release_schedules
  schedules-paid job c now t n b [] l loads h = h ∙ ap returned (plus_zero b)
  schedules-paid job c now t n b (s ∷ ss) l loads h =
      let first = release_due p job c now t s.releases l in
      let rest = release_schedules p job c now t ss first.ledger in
      let k = release_due-paid job c now t n b s.releases l loads h in
      elim (Bool-cases first.finished) [
        | inl e ↦
            rw (e, release_schedules)
              (schedules-paid job c now t n (b +ℤ paid n first.processed) ss first.ledger loads k
                ∙ ap returned (
                    assoc b (paid n first.processed) (paid n rest.processed)
                    ∙ ap (λ x. b +ℤ x) (sym (paid-append n first.processed rest.processed))))
        | inr e ↦ rw (e, release_schedules) k
      ]

  all-paid :
      (job now t n : ℕ) (b : ℤ) (d : Dict (List Schedule)) (l : CreditLedger)
      → LoadsCredits p
      → get_balance p n l ≡ returned b
      → get_balance p n (release_all p job now t d l).ledger
        ≡ returned (b +ℤ paid n (release_all p job now t d l).processed)
  unfolding release_all
  all-paid job now t n b [] l loads h = h ∙ ap returned (plus_zero b)
  all-paid job now t n b ((c, ss) ∷ d) l loads h =
      let first = release_schedules p job c now t ss l in
      let rest = release_all p job now t d first.ledger in
      let k = schedules-paid job c now t n b ss l loads h in
      elim (Bool-cases first.finished) [
        | inl e ↦
            rw (e, release_all)
              (all-paid job now t n (b +ℤ paid n first.processed) d first.ledger loads k
                ∙ ap returned (
                    assoc b (paid n first.processed) (paid n rest.processed)
                    ∙ ap (λ x. b +ℤ x) (sym (paid-append n first.processed rest.processed))))
        | inr e ↦ rw (e, release_all) k
      ]

  -- `process_vesting_releases` raises the balance of every node by exactly what it has processed for
  -- the node, also where an exception ends it early, if the balance could be read before and `json`
  -- gives back what it wrote of a credit.
  pub process_vesting_releases-get_balance :
      (job now t n : ℕ) (b : ℤ) (v : VestingLedger)
      → LoadsCredits p
      → get_balance p n v.base.ledger ≡ returned b
      → get_balance p n (process_vesting_releases p job now t v).1.base.ledger
        ≡ returned
            (b +ℤ paid n (release_all p job now t v.vesting_schedules v.base.ledger).processed)
  unfolding process_vesting_releases
  process_vesting_releases-get_balance job now t n b v loads h =
      all-paid job now t n b v.vesting_schedules v.base.ledger loads h
