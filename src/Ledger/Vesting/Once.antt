-- ===== src/Ledger/Vesting/Once.antt =====
-- Releases over runs of their processing (legacy/worker/src/daemon/credit_ledger.py).
use distrib_ai.Base.{
  ℕ, ◌==◌, ◌≡◌, ◌⊎◌, inl, inr, refl, sym, ap, ◌∙◌, false, List, [], ◌∷◌, if◌then◌else◌, arith,
  Bool-cases, length, returned, value_error,
}
use distrib_ai.Base.Int.{ℤ, pos, ◌+ℤ◌, ◌-ℤ◌, ltb_ℤ, int_laws}
use distrib_ai.Base.Dict.{Dict}
use distrib_ai.Ledger.Types.{Platform, CreditLedger}
use distrib_ai.Ledger.Chain.{append, add_credit, credit_to}
use distrib_ai.Ledger.Queries.{get_balance}
use distrib_ai.Ledger.Queries.Balance.{LoadsCredits}
use distrib_ai.Ledger.Vesting.{
  Release, Schedule, VestingLedger, is_waiting, release_due, release_schedules, release_all,
  process_vesting_releases,
}
use distrib_ai.Ledger.Vesting.Releases.{paid, paid-append, process_vesting_releases-get_balance}

-- The part of an amount of contributor `c` that is node `n`'s.
abbrev share : ℕ → ℕ → ℤ → ℤ
share n c a = if c == n then a else pos 0

-- The releases of node `n` that are marked as released.
abbrev pub marked_in : ℕ → ℕ → List Release → ℤ
marked_in n c [] = pos 0
marked_in n c (r ∷ rs) = (if r.released then share n c r.amount else pos 0) +ℤ marked_in n c rs

abbrev pub marked_of : ℕ → ℕ → List Schedule → ℤ
marked_of n c [] = pos 0
marked_of n c (s ∷ ss) = marked_in n c s.releases +ℤ marked_of n c ss

abbrev pub marked : ℕ → Dict (List Schedule) → ℤ
marked n [] = pos 0
marked n ((c, ss) ∷ d) = marked_of n c ss +ℤ marked n d

-- All releases of node `n`.
abbrev pub planned_in : ℕ → ℕ → List Release → ℤ
planned_in n c [] = pos 0
planned_in n c (r ∷ rs) = share n c r.amount +ℤ planned_in n c rs

abbrev pub planned_of : ℕ → ℕ → List Schedule → ℤ
planned_of n c [] = pos 0
planned_of n c (s ∷ ss) = planned_in n c s.releases +ℤ planned_of n c ss

abbrev pub planned : ℕ → Dict (List Schedule) → ℤ
planned n [] = pos 0
planned n ((c, ss) ∷ d) = planned_of n c ss +ℤ planned n d

nothing_paid : (a : ℤ) → a ≡ a +ℤ pos 0
nothing_paid a = omega int_laws

kept_sum : (x f g : ℤ) → x +ℤ (f +ℤ g) ≡ (x +ℤ f) +ℤ g
kept_sum x f g = omega int_laws

new_sum : (x f g : ℤ) → x +ℤ (f +ℤ g) ≡ (pos 0 +ℤ f) +ℤ (x +ℤ g)
new_sum x f g = omega int_laws

both_sums : (f g h k : ℤ) → (f +ℤ g) +ℤ (h +ℤ k) ≡ (f +ℤ h) +ℤ (g +ℤ k)
both_sums f g h k = omega int_laws

first_sum : (f g h : ℤ) → (f +ℤ g) +ℤ h ≡ (f +ℤ h) +ℤ g
first_sum f g h = omega int_laws

not_released : (now : ℕ) (r : Release) → is_waiting now r ≡ false → r.released ≡ false
not_released now r h = ground arith

module _ (p : Platform) where
  credit_ending :
      (c job : ℕ) (a : ℤ) (t : ℕ) (l : CreditLedger)
      → ((credit_to p c a job [] t t t l).0 ≡ value_error)
        ⊎ ((credit_to p c a job [] t t t l).0 ≡ returned (length l.records))
  unfolding credit_to add_credit append
  credit_ending c job a t l = elim (Bool-cases (ltb_ℤ a (pos 0))) [
    | inl e ↦ inl (rw e refl)
    | inr e ↦ inr (rw e refl)
  ]

  due-marked :
      (job c now t n : ℕ) (rs : List Release) (l : CreditLedger)
      → (marked_in n c (release_due p job c now t rs l).releases
          ≡ marked_in n c rs +ℤ paid n (release_due p job c now t rs l).processed)
        × (planned_in n c (release_due p job c now t rs l).releases ≡ planned_in n c rs)
  unfolding release_due
  due-marked job c now t n [] l = (nothing_paid (pos 0), refl)
  due-marked job c now t n (r ∷ rs) l = elim (Bool-cases (is_waiting now r)) [
    | inl w ↦
        let (a, b) = due-marked job c now t n rs l in
        let first = if r.released then share n c r.amount else pos 0 in
        rw (w, release_due)
          (
            ap (λ x. first +ℤ x) a ∙ kept_sum first (marked_in n c rs) _,
            ap (λ x. share n c r.amount +ℤ x) b,
          )
    | inr w ↦ elim (credit_ending c job r.amount t l) [
      | inl e ↦ rw (w, e, release_due) (nothing_paid (marked_in n c (r ∷ rs)), refl)
      | inr e ↦
          let (a, b) = due-marked job c now t n rs (credit_to p c r.amount job [] t t t l).1 in
          let fresh = not_released now r w in
          rw (w, e, fresh, release_due)
            (
              ap (λ x. share n c r.amount +ℤ x) a
                  ∙ new_sum (share n c r.amount) (marked_in n c rs) _,
              ap (λ x. share n c r.amount +ℤ x) b,
            )
    ]
  ]

  schedules-marked :
      (job c now t n : ℕ) (ss : List Schedule) (l : CreditLedger)
      → (marked_of n c (release_schedules p job c now t ss l).rows
          ≡ marked_of n c ss +ℤ paid n (release_schedules p job c now t ss l).processed)
        × (planned_of n c (release_schedules p job c now t ss l).rows ≡ planned_of n c ss)
  unfolding release_schedules
  schedules-marked job c now t n [] l = (nothing_paid (pos 0), refl)
  schedules-marked job c now t n (s ∷ ss) l =
      let first = release_due p job c now t s.releases l in
      let rest = release_schedules p job c now t ss first.ledger in
      let (a, b) = due-marked job c now t n s.releases l in
      let (a', b') = schedules-marked job c now t n ss first.ledger in
      elim (Bool-cases first.finished) [
        | inl e ↦
            rw (e, release_schedules)
              (
                ap (λ x. x +ℤ marked_of n c rest.rows) a
                    ∙ ap (λ x. marked_in n c s.releases +ℤ paid n first.processed +ℤ x) a'
                    ∙ both_sums (marked_in n c s.releases) (paid n first.processed)
                        (marked_of n c ss) (paid n rest.processed)
                    ∙ ap (λ x. marked_in n c s.releases +ℤ marked_of n c ss +ℤ x)
                        (sym (paid-append n first.processed rest.processed)),
                ap (λ x. x +ℤ planned_of n c rest.rows) b
                    ∙ ap (λ x. planned_in n c s.releases +ℤ x) b',
              )
        | inr e ↦
            rw (e, release_schedules)
              (
                ap (λ x. x +ℤ marked_of n c ss) a
                    ∙ first_sum (marked_in n c s.releases) (paid n first.processed)
                        (marked_of n c ss),
                ap (λ x. x +ℤ planned_of n c ss) b,
              )
      ]

  all-marked :
      (job now t n : ℕ) (d : Dict (List Schedule)) (l : CreditLedger)
      → (marked n (release_all p job now t d l).rows
          ≡ marked n d +ℤ paid n (release_all p job now t d l).processed)
        × (planned n (release_all p job now t d l).rows ≡ planned n d)
  unfolding release_all
  all-marked job now t n [] l = (nothing_paid (pos 0), refl)
  all-marked job now t n ((c, ss) ∷ d) l =
      let first = release_schedules p job c now t ss l in
      let rest = release_all p job now t d first.ledger in
      let (a, b) = schedules-marked job c now t n ss l in
      let (a', b') = all-marked job now t n d first.ledger in
      elim (Bool-cases first.finished) [
        | inl e ↦
            rw (e, release_all)
              (
                ap (λ x. x +ℤ marked n rest.rows) a
                    ∙ ap (λ x. marked_of n c ss +ℤ paid n first.processed +ℤ x) a'
                    ∙ both_sums (marked_of n c ss) (paid n first.processed) (marked n d)
                        (paid n rest.processed)
                    ∙ ap (λ x. marked_of n c ss +ℤ marked n d +ℤ x)
                        (sym (paid-append n first.processed rest.processed)),
                ap (λ x. x +ℤ planned n rest.rows) b ∙ ap (λ x. planned_of n c ss +ℤ x) b',
              )
        | inr e ↦
            rw (e, release_all)
              (
                ap (λ x. x +ℤ marked n d) a
                    ∙ first_sum (marked_of n c ss) (paid n first.processed) (marked n d),
                ap (λ x. x +ℤ planned n d) b,
              )
      ]

  -- The state behind calls of `process_vesting_releases`, each with its two readings of the clock.
  abbrev pub process_all : ℕ → List (ℕ × ℕ) → VestingLedger → VestingLedger
  process_all job [] v = v
  process_all job ((now, t) ∷ calls) v =
      process_all job calls (process_vesting_releases p job now t v).1

  no_difference : (b f : ℤ) → b ≡ b +ℤ (f -ℤ f)
  no_difference b f = omega int_laws

  difference : (b f g h : ℤ) → (b +ℤ g) +ℤ (h -ℤ (f +ℤ g)) ≡ b +ℤ (h -ℤ f)
  difference b f g h = omega int_laws

  -- Over any calls of `process_vesting_releases`, at any times, also such as end by an exception, the
  -- balance of every node rises by exactly the sum of those of its releases that have become marked as
  -- released, while what is planned for the node stays the same: no release is credited twice. The
  -- balance could be read before, and `json` gives back what it wrote of a credit.
  pub process_all-get_balance :
      (job n : ℕ) (b : ℤ) (calls : List (ℕ × ℕ)) (v : VestingLedger)
      → LoadsCredits p
      → get_balance p n v.base.ledger ≡ returned b
      → (get_balance p n (process_all job calls v).base.ledger
          ≡ returned (
              b
              +ℤ (marked n (process_all job calls v).vesting_schedules
                  -ℤ marked n v.vesting_schedules)))
        × (planned n (process_all job calls v).vesting_schedules ≡ planned n v.vesting_schedules)
  unfolding process_vesting_releases
  process_all-get_balance job n b [] v loads h =
      (h ∙ ap returned (no_difference b (marked n v.vesting_schedules)), refl)
  process_all-get_balance job n b ((now, t) ∷ calls) v loads h =
      let run = release_all p job now t v.vesting_schedules v.base.ledger in
      let after = (process_vesting_releases p job now t v).1 in
      let (a, same) = all-marked job now t n v.vesting_schedules v.base.ledger in
      let (k, same') =
        process_all-get_balance job n (b +ℤ paid n run.processed) calls after loads
          (process_vesting_releases-get_balance p job now t n b v loads h) in
      (
        k
            ∙ ap returned (
                ap
                  (λ x.
                    b
                    +ℤ paid n run.processed
                    +ℤ (marked n (process_all job calls after).vesting_schedules -ℤ x))
                  a
                ∙ difference b (marked n v.vesting_schedules) (paid n run.processed)
                    (marked n (process_all job calls after).vesting_schedules)),
        same' ∙ same,
      )
