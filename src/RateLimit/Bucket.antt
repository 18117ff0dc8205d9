-- ===== src/RateLimit/Bucket.antt =====
-- `TokenBucket` (legacy/services_python/rate_limiter.py). Tokens are counted in millionths, a rate is
-- a number of them per second, a time is a natural number of seconds.
pub mod Bounds
use distrib_ai.Base.{
  ℕ, ◌+◌, ◌*◌, ◌/◌, ◌==◌, Bool, true, false, List, [], ◌∷◌, if◌then◌else◌, Outcome, returned,
  zero_division_error,
}
use distrib_ai.Base.Int.{ℤ, pos, ◌+ℤ◌, ◌-ℤ◌, leb_ℤ, min_ℤ}

pub record TokenBucket : Type 0 where
  pub rate : ℕ
  pub capacity : ℕ
  pub tokens : ℤ
  pub last_update : ℕ

-- One token.
abbrev pub one_token : ℤ
one_token = pos 1000000

-- `min(capacity, tokens + elapsed * rate)`; the clock may have gone back, and `elapsed` be negative.
unfoldable pub refill : ℕ → TokenBucket → ℤ
refill now b =
    min_ℤ (pos b.capacity) (b.tokens +ℤ (pos (now * b.rate) -ℤ pos (b.last_update * b.rate)))

unfoldable pub consume : ℤ → ℕ → TokenBucket → Bool × TokenBucket
consume tokens now b =
    let current = refill now b in
    let enough = leb_ℤ tokens current in
    (enough, record b { tokens = if enough then current -ℤ tokens else current; last_update = now })

-- The seconds as a fraction: what is needed, over the rate.
unfoldable pub get_wait_time : ℤ → ℕ → TokenBucket → Outcome (ℤ × ℕ)
get_wait_time tokens now b =
    let current = refill now b in
    if leb_ℤ tokens current
    then returned (pos 0, 1)
    else if b.rate == 0
    then zero_division_error
    else returned (tokens -ℤ current, b.rate)
