-- ===== src/Credits/Multipliers/Caps.antt =====
-- What multipliers and the daily cap leave of an amount
-- (legacy/services_python/credit_multipliers.py).
use distrib_ai.Base.{
  ℕ, ◌+◌, ◌*◌, ◌≤◌, ◌<◌, ◌≡◌, ◌≢◌, ◌↔◌, ◌⊎◌, inl, inr, false, List, [], ◌∷◌, if◌then◌else◌, ltb,
  arith, Bool-cases, All,
}
use distrib_ai.Base.Int.{ℤ, pos, ◌+ℤ◌, ◌-ℤ◌, ◌≤ℤ◌, ltb_ℤ, int_laws}
use distrib_ai.Credits.Multipliers.{NodeMultiplierState, Multipliers, final, earn}

-- Of ten tasks at least, at most one in a hundred failed; or more than 2 in a hundred did.
abbrev pub IsReliable : ℕ → ℕ → Type 0
IsReliable completed failed = (10 ≤ completed + failed) × (100 * failed ≤ completed + failed)

abbrev pub HasHighErrorRate : ℕ → ℕ → Type 0
HasHighErrorRate completed failed =
    (10 ≤ completed + failed) × (2 * (completed + failed) < 100 * failed)

-- The factors for a node's record, and the range of the product.
pub record IsInRange (completed failed : ℕ) (m : Multipliers) : Type 0 where
  pub bonus : (m.reliability ≡ 12) ↔ IsReliable completed failed
  pub penalty : (m.error_penalty ≡ 8) ↔ HasHighErrorRate completed failed
  pub never_both : ¬ ((m.reliability ≡ 12) × (m.error_penalty ≡ 8))
  pub least : 640000 ≤ final m
  pub greatest : final m ≤ 3960000
  pub reliable_least : (m.reliability ≢ 12) ⊎ (960000 ≤ final m)
  pub faulty_greatest : (m.error_penalty ≢ 8) ⊎ (final m ≤ 2640000)

-- What a run of amounts, each with its time, is credited, and the state behind it.
abbrev pub earn_all : ℤ → List (ℤ × ℕ) → NodeMultiplierState → ℤ × NodeMultiplierState
earn_all cap [] s = (pos 0, s)
earn_all cap ((a, t) ∷ rest) s =
    let (c, s') = earn cap a t s in let (total, s'') = earn_all cap rest s' in (c +ℤ total, s'')

step_cap : (cap earned c total : ℤ) → total ≤ℤ cap -ℤ (earned +ℤ c) → c +ℤ total ≤ℤ cap -ℤ earned
step_cap cap earned c total h = omega (int_laws, h)

nothing_more : (cap earned : ℤ) → earned ≤ℤ cap → pos 0 ≤ℤ cap -ℤ earned
nothing_more cap earned h = omega (int_laws, h)

not_below : (x a : ℤ) → ltb_ℤ x a ≡ false → a ≤ℤ x
not_below x a h = ground arith

room : (cap earned a : ℤ) → a ≤ℤ cap -ℤ earned → earned +ℤ a ≤ℤ cap
room cap earned a h = omega (int_laws, h)

stays : (cap earned a : ℤ) → earned +ℤ (if ltb_ℤ (cap -ℤ earned) a then cap -ℤ earned else a) ≤ℤ cap
stays cap earned a = elim (Bool-cases (ltb_ℤ (cap -ℤ earned) a)) [
  | inl e ↦ rw e (omega int_laws)
  | inr e ↦ rw e (room cap earned a (not_below (cap -ℤ earned) a e))
]

ltb_no : (a b : ℕ) → b ≤ a → ltb a b ≡ false
ltb_no a b h = ground arith

-- Within one day of a node, whatever amounts come in, what is credited of them is no more than the cap
-- leaves over from what the node had earned before.
pub earn_all-bound :
    (cap : ℤ) (calls : List (ℤ × ℕ)) (s : NodeMultiplierState)
    → s.daily_earnings ≤ℤ cap
    → All (λ x. x.1 ≤ s.daily_window_start + 86400) calls
    → (earn_all cap calls s).0 ≤ℤ cap -ℤ s.daily_earnings
unfolding earn
earn_all-bound cap [] s h k = nothing_more cap s.daily_earnings h
earn_all-bound cap ((a, t) ∷ rest) s h k =
    let c = if ltb_ℤ (cap -ℤ s.daily_earnings) a then cap -ℤ s.daily_earnings else a in
    let after = record s { daily_earnings = s.daily_earnings +ℤ c } in
    rw (ltb_no (s.daily_window_start + 86400) t k.0) (
      step_cap cap s.daily_earnings c (earn_all cap rest after).0
        (earn_all-bound cap rest after (stays cap s.daily_earnings a) k.1))
