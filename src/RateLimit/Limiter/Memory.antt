-- ===== src/RateLimit/Limiter/Memory.antt =====
-- The limits on what a `RateLimiter` remembers (legacy/services_python/rate_limiter.py).
use distrib_ai.Base.{
  ℕ, zero, suc, ◌-◌, ◌<◌, ◌≡◌, refl, true, false, List, [], ◌∷◌, arith, length, ltb, take, Outcome,
  key_error,
}
use distrib_ai.Base.Dict.{contains}
use distrib_ai.RateLimit.Limiter.{
  RateLimiter, Verdict, Readings, evict, by_value, limit_buckets, enforce_limits, is_allowed,
}

-- There are more buckets than allowed, and the client that was used longest ago has none.
pub record IsStuck (l : RateLimiter) : Type 0 where
  pub oldest : ℕ
  pub others : List ℕ
  pub order : by_value l.access_times ≡ oldest ∷ others
  pub full : l.max_buckets < length l.buckets
  pub gone : contains oldest l.buckets ≡ false

-- Requests of clients, with the readings of the clock: the answers, and the limiter behind them.
abbrev pub requests : List (ℕ × Readings) → RateLimiter → List (Outcome Verdict) × RateLimiter
requests [] l = ([], l)
requests ((client, t) ∷ rest) l =
    let (answer, l') = is_allowed client t l in
    let (answers, l'') = requests rest l' in (answer ∷ answers, l'')

abbrev pub all_fail : List (ℕ × Readings) → List (Outcome Verdict)
all_fail [] = []
all_fail (r ∷ rest) = key_error ∷ all_fail rest

evict_gone :
    (n oldest : ℕ) (others ks : List ℕ) (l : RateLimiter)
    → 0 < n
    → ks ≡ oldest ∷ others
    → contains oldest l.buckets ≡ false
    → evict (take n ks) l ≡ (false, l)
unfolding evict
evict_gone zero oldest others ks l h e g = absurd (omega (arith, h))
evict_gone (suc n) oldest others ks l h e g = rw (e, g) refl

limit_buckets_stuck : (l : RateLimiter) → IsStuck l → limit_buckets l ≡ (false, l)
unfolding limit_buckets
limit_buckets_stuck l s =
    let over : ltb l.max_buckets (length l.buckets) ≡ true = ground (arith, s.full) in
    let n = length l.buckets - l.max_buckets in
    rw over (
      evict_gone n s.oldest s.others (by_value l.access_times) l (omega (arith, s.full)) s.order
        s.gone)

is_allowed_stuck :
    (client : ℕ) (t : Readings) (l : RateLimiter)
    → IsStuck l
    → is_allowed client t l ≡ (key_error, l)
unfolding is_allowed enforce_limits
is_allowed_stuck client t l s = rw (limit_buckets_stuck l s) refl

-- If there are more buckets than allowed and the client that was used longest ago has none, as after
-- a cleanup of it, then every request of any client at any time raises `KeyError`, and the limiter
-- stays as it is.
pub requests_stuck :
    (rs : List (ℕ × Readings)) (l : RateLimiter) → IsStuck l → requests rs l ≡ (all_fail rs, l)
requests_stuck [] l s = refl
requests_stuck ((client, t) ∷ rs) l s =
    rw (is_allowed_stuck client t l s, requests_stuck rs l s) refl
