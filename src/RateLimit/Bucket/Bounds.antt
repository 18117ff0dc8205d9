-- ===== src/RateLimit/Bucket/Bounds.antt =====
-- How much a bucket gives out, and that it gives again (legacy/services_python/rate_limiter.py).
use native.Mathlib.Nat.{mul-le-mul_right, div-add-mod, mod-lt}
use distrib_ai.Base.{
  ℕ, ◌+◌, ◌*◌, ◌/◌, ◌≤◌, ◌<◌, ◌≡◌, subst, sym, ap, Bool, true, false, List, [], ◌∷◌, if◌then◌else◌,
  ◌==◌, arith, Bool-cases, inl, inr, returned,
}
use distrib_ai.Base.Int.{
  ℤ, pos, ◌+ℤ◌, ◌-ℤ◌, ◌≤ℤ◌, leb_ℤ, min_ℤ, truncate, negsuc, -ℤ_parts, int_laws,
}
use distrib_ai.RateLimit.Bucket.{TokenBucket, one_token, refill, consume, get_wait_time}

-- Calls of `consume` for one token each, at the given times: the number of those that got it.
abbrev pub consume_all : List ℕ → TokenBucket → ℕ × TokenBucket
consume_all [] b = (0, b)
consume_all (now ∷ times) b =
    let (got, b') = consume one_token now b in
    let (n, b'') = consume_all times b' in ((if got then 1 else 0) + n, b'')

-- Every time is at least the one before it.
abbrev pub IsForward : ℕ → List ℕ → Type 0
IsForward last [] = Unit
IsForward last (now ∷ times) = (last ≤ now) × IsForward now times

abbrev pub last_time : ℕ → List ℕ → ℕ
last_time last [] = last
last_time last (now ∷ times) = last_time now times

pub record IsFilled (b : TokenBucket) : Type 0 where
  pub some_left : pos 0 ≤ℤ b.tokens
  pub within : b.tokens ≤ℤ pos b.capacity

consume-IsFilled :
    (tokens : ℕ) (now : ℕ) (b : TokenBucket)
    → b.last_update * b.rate ≤ now * b.rate
    → IsFilled b
    → IsFilled (consume (pos tokens) now b).1
unfolding consume refill ◌+ℤ◌ ◌-ℤ◌
consume-IsFilled tokens now b h f = record { some_left = ground arith; within = ground arith }

times_rate : (a b r : ℕ) → a ≤ b → a * r ≤ b * r
times_rate a b r h = mul-le-mul_right r h

min_ℤ_lower : (a b : ℤ) → (min_ℤ a b ≤ℤ a) × (min_ℤ a b ≤ℤ b)
min_ℤ_lower a b = ground arith

refill_cost :
    (now : ℕ) (b : TokenBucket)
    → refill now b +ℤ pos (b.last_update * b.rate) ≤ℤ b.tokens +ℤ pos (now * b.rate)
unfolding refill
refill_cost now b = omega (
  int_laws,
  min_ℤ_lower (pos b.capacity) (b.tokens +ℤ (pos (now * b.rate) -ℤ pos (b.last_update * b.rate))),
)

-- What one call gives out and leaves is at most what was there and what the time has brought.
consume-cost :
    (now : ℕ) (b : TokenBucket)
    → (if (consume one_token now b).0 then one_token else pos 0)
        +ℤ (consume one_token now b).1.tokens
        +ℤ pos (b.last_update * b.rate)
      ≤ℤ b.tokens +ℤ pos (now * b.rate)
unfolding consume
consume-cost now b = elim (Bool-cases (leb_ℤ one_token (refill now b))) [
  | inl got ↦ rw got (omega (int_laws, refill_cost now b))
  | inr not ↦ rw not (omega (int_laws, refill_cost now b))
]

bound_step :
    (n start mid end : ℕ) (t t' : ℤ) (got : Bool)
    → pos (n * 1000000 + mid) ≤ℤ t' +ℤ pos end
    → (if got then one_token else pos 0) +ℤ t' +ℤ pos start ≤ℤ t +ℤ pos mid
    → pos (((if got then 1 else 0) + n) * 1000000 + start) ≤ℤ t +ℤ pos end
bound_step n start mid end t t' true h k = omega int_laws
bound_step n start mid end t t' false h k = omega int_laws

-- Over any run of calls at times that do not go back, the tokens given out are at most those that
-- were there and those that the rate has brought since.
pub consume_all-bound :
    (times : List ℕ) (b : TokenBucket)
    → IsFilled b
    → IsForward b.last_update times
    → pos ((consume_all times b).0 * 1000000 + b.last_update * b.rate)
      ≤ℤ b.tokens +ℤ pos (last_time b.last_update times * b.rate)
unfolding consume
consume_all-bound [] b f h = omega (int_laws, f.some_left)
consume_all-bound (now ∷ times) b f h =
    let filled = consume-IsFilled 1000000 now b (times_rate b.last_update now b.rate h.0) f in
    let rest = consume_all-bound times (consume one_token now b).1 filled h.1 in
    let cost = consume-cost now b in
    bound_step (consume_all times (consume one_token now b).1).0 (b.last_update * b.rate)
      (now * b.rate) (last_time now times * b.rate) b.tokens (consume one_token now b).1.tokens
      (consume one_token now b).0 rest cost

quotient_upper : (n r : ℕ) → 0 < r → n ≤ n / r * r + r
quotient_upper n r h = omega (arith, div-add-mod n r, mod-lt n h)

min_ℤ_upper : (t a b : ℤ) → t ≤ℤ a → t ≤ℤ b → leb_ℤ t (min_ℤ a b) ≡ true
min_ℤ_upper t a b h k = ground arith

leb_ℤ_lem : (a b : ℤ) → leb_ℤ a b ≡ true → a ≤ℤ b
leb_ℤ_lem a b h = ground arith

-- A refill takes what there is and what the time has brought, up to the capacity.
refill_lower :
    (tokens : ℤ) (now : ℕ) (b : TokenBucket)
    → tokens ≤ℤ pos b.capacity
    → tokens +ℤ pos (b.last_update * b.rate) ≤ℤ b.tokens +ℤ pos (now * b.rate)
    → leb_ℤ tokens (refill now b) ≡ true
unfolding refill
refill_lower tokens now b fits h =
    min_ℤ_upper tokens (pos b.capacity)
      (b.tokens +ℤ (pos (now * b.rate) -ℤ pos (b.last_update * b.rate))) fits (omega int_laws)

waits :
    (v w : ℤ)
    → v ≡ w
    → (now later : ℕ) → w +ℤ pos now +ℤ pos 1 ≤ℤ pos later
    → v +ℤ pos now +ℤ pos 1 ≤ℤ pos later
waits v w e now later k = subst (λ u. u +ℤ pos now +ℤ pos 1 ≤ℤ pos later) (sym e) k

wait_upper :
    (need : ℤ) (r : ℕ) (w : ℤ) (now later : ℕ)
    → 0 < r
    → pos 0 ≤ℤ need
    → truncate need r ≡ w
    → w +ℤ pos now +ℤ pos 1 ≤ℤ pos later
    → need +ℤ pos (now * r) ≤ℤ pos (later * r)
wait_upper (pos n) r w now later h p e k =
    let late : n / r + now + 1 ≤ later = omega (int_laws, waits (pos (n / r)) w e now later k) in
    omega (int_laws, quotient_upper n r h, mul-le-mul_right r late)
wait_upper (negsuc n) r w now later h p e k = absurd (omega (int_laws, p))

-- A client that waits a second longer than the whole seconds of what `get_wait_time` told it gets its
-- tokens, if they fit in the bucket and nobody else has taken any.
pub get_wait_time-consume :
    (tokens : ℤ) (now later : ℕ) (w : ℤ × ℕ) (b : TokenBucket)
    → tokens ≤ℤ pos b.capacity
    → get_wait_time tokens now b ≡ returned w
    → truncate w.0 w.1 +ℤ pos now +ℤ pos 1 ≤ℤ pos later
    → (consume tokens later b).0 ≡ true
unfolding consume get_wait_time
get_wait_time-consume tokens now later w b fits h k =
    elim (Bool-cases (leb_ℤ tokens (refill now b))) [
      | inl y ↦
          let no_wait : (pos 0, 1) ≡ w = ground arith in
          let told : pos 0 ≡ truncate w.0 w.1 = ap (λ x. truncate x.0 x.1) no_wait in
          let late : now ≤ later =
            omega (int_laws, waits (pos 0) (truncate w.0 w.1) told now later k) in
          refill_lower tokens later b fits (
            omega (
              int_laws,
              leb_ℤ_lem tokens (refill now b) y,
              refill_cost now b,
              mul-le-mul_right b.rate late,
            ))
      | inr n ↦ elim (Bool-cases (b.rate == 0)) [
        | inl z ↦ absurd (ground arith)
        | inr r ↦
            let same : (tokens -ℤ refill now b, b.rate) ≡ w = ground arith in
            let told : truncate (tokens -ℤ refill now b) b.rate ≡ truncate w.0 w.1 =
              ap (λ x. truncate x.0 x.1) same in
            let waited =
              wait_upper (tokens -ℤ refill now b) b.rate (truncate w.0 w.1) now later (ground arith)
                (ground (arith, n, -ℤ_parts tokens (refill now b))) told k in
            refill_lower tokens later b fits (omega (int_laws, waited, refill_cost now b))
      ]
    ]
