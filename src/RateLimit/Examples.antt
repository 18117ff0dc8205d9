-- ===== src/RateLimit/Examples.antt =====
-- The theorems of the rate limiter at concrete inputs, and tests
-- (legacy/services_python/rate_limiter.py).
use distrib_ai.Base.{ℕ, ◌+◌, ◌*◌, ◌≡◌, refl, true, List, [], ◌∷◌, arith, returned, key_error}
use distrib_ai.Base.Int.{ℤ, pos, ◌+ℤ◌, ◌-ℤ◌, ◌≤ℤ◌, truncate}
use distrib_ai.RateLimit.Bucket.{TokenBucket, refill, consume, get_wait_time}
use distrib_ai.RateLimit.Bucket.Bounds.{
  consume_all, IsFilled, last_time, consume_all-bound, get_wait_time-consume,
}
use distrib_ai.RateLimit.Limiter.{
  RateLimiter, Readings, new_limiter, is_allowed, enforce_limits, limit_buckets, limit_violations,
  limit_blocked, admit, serve, cleanup,
}
use distrib_ai.RateLimit.Limiter.Memory.{IsStuck, requests, requests_stuck}

-- Two tokens at most, and half a token per second.
abbrev bucket : TokenBucket
bucket = record { rate = 500000; capacity = 2000000; tokens = pos 2000000; last_update = 10 }

abbrev times : List ℕ
times = 10 ∷ 10 ∷ 11 ∷ 12 ∷ []

three_of_four : (consume_all times bucket).0 ≡ 3
unfolding consume refill ◌+ℤ◌ ◌-ℤ◌
three_of_four = refl

bucket-IsFilled : IsFilled bucket
bucket-IsFilled = record { some_left = omega arith; within = omega arith }

consume_all-bound_example :
    pos ((consume_all times bucket).0 * 1000000 + 10 * 500000)
    ≤ℤ pos 2000000 +ℤ pos (last_time 10 times * 500000)
consume_all-bound_example =
    consume_all-bound times bucket bucket-IsFilled
      (omega arith, (omega arith, (omega arith, (omega arith, tt))))

abbrev empty_bucket : TokenBucket
empty_bucket = record bucket { tokens = pos 0 }

abbrev two_seconds : ℤ × ℕ
two_seconds = (pos 1000000, 500000)

told : get_wait_time (pos 1000000) 10 empty_bucket ≡ returned two_seconds
unfolding get_wait_time refill ◌+ℤ◌ ◌-ℤ◌
told = refl

soon : truncate (pos 1000000) 500000 +ℤ pos 10 +ℤ pos 1 ≤ℤ pos 13
unfolding ◌+ℤ◌
soon = omega arith

get_wait_time-consume_example : (consume (pos 1000000) 13 empty_bucket).0 ≡ true
get_wait_time-consume_example =
    get_wait_time-consume (pos 1000000) 10 13 two_seconds empty_bucket (omega arith) told soon

abbrev readings : ℕ → Readings
readings t = record { now = t; enforced = t; created = t; consumed = t; waited = t }

-- One bucket at most. Client 1 comes at 10; its bucket is cleaned up at 700; then 2 and 3 come.
abbrev after_cleanup : RateLimiter
after_cleanup = cleanup 700 (is_allowed 1 (readings 10) (new_limiter 1000000 2000000 60 1 5 5)).1

abbrev crowded : RateLimiter
crowded = (is_allowed 3 (readings 702) (is_allowed 2 (readings 701) after_cleanup).1).1

crowded-IsStuck : IsStuck crowded
unfolding is_allowed enforce_limits limit_buckets limit_violations limit_blocked admit serve consume
    refill cleanup ◌+ℤ◌ ◌-ℤ◌
crowded-IsStuck = record {
  oldest = 1;
  others = 2 ∷ 3 ∷ [];
  order = refl;
  full = omega arith;
  gone = refl;
}

requests_stuck_example :
    requests ((2, readings 703) ∷ (4, readings 800) ∷ []) crowded
    ≡ (key_error ∷ key_error ∷ [], crowded)
requests_stuck_example =
    requests_stuck ((2, readings 703) ∷ (4, readings 800) ∷ []) crowded crowded-IsStuck
