-- ===== src/RateLimit/Limiter.antt =====
-- `RateLimiter` (legacy/services_python/rate_limiter.py). A client's name is a number; how it is read
-- from the headers of a request is not modelled. The lock is held where the state is used.
pub mod Memory
use distrib_ai.Base.{
  ℕ, ◌+◌, ◌-◌, ◌*◌, ◌/◌, ◌==◌, Bool, true, false, Option, none, some, List, [], ◌∷◌, if◌then◌else◌,
  length, ltb, leb, take, sort_by, Outcome, returned, key_error, zero_division_error,
}
use distrib_ai.Base.Int.{ℤ, pos, ◌+ℤ◌, ◌-ℤ◌, max_ℤ, truncate}
use distrib_ai.Base.Dict.{Dict, insert, lookup, contains}
use distrib_ai.RateLimit.Bucket.{TokenBucket, one_token, consume, get_wait_time}

-- The constants of the class are read from the environment.
pub record RateLimiter : Type 0 where
  pub rate : ℕ
  pub capacity : ℕ
  pub block_duration : ℕ
  pub max_buckets : ℕ
  pub max_blocked_clients : ℕ
  pub max_violations_tracked : ℕ
  pub buckets : Dict TokenBucket
  pub blocked_clients : Dict ℕ
  pub violations : Dict ℕ
  pub access_times : Dict ℕ

abbrev pub new_limiter :
    (rate capacity block_duration max_buckets max_blocked max_violations : ℕ) → RateLimiter
new_limiter rate capacity block_duration max_buckets max_blocked max_violations = record {
  rate = rate;
  capacity = capacity;
  block_duration = block_duration;
  max_buckets = max_buckets;
  max_blocked_clients = max_blocked;
  max_violations_tracked = max_violations;
  buckets = [];
  blocked_clients = [];
  violations = [];
  access_times = [];
}

-- `del d[key]` of a key that is there.
abbrev pub delete {ℓ} : {V : Type ℓ} → ℕ → Dict V → Dict V
delete key [] = []
delete key ((k, v) ∷ d) = if key == k then d else (k, v) ∷ delete key d

-- `{k: v for k, v in d.items() if p(v)}`
abbrev pub keep_values {ℓ} : {V : Type ℓ} → (V → Bool) → Dict V → Dict V
keep_values p [] = []
keep_values p ((k, v) ∷ d) = let rest = keep_values p d in if p v then (k, v) ∷ rest else rest

abbrev pub names {ℓ} : {V : Type ℓ} → Dict V → List ℕ
names [] = []
names ((k, v) ∷ d) = k ∷ names d

-- `_cleanup`
unfoldable pub cleanup : ℕ → RateLimiter → RateLimiter
cleanup now l = record l {
  blocked_clients = keep_values (λ t. ltb now t) l.blocked_clients;
  buckets = keep_values (λ b. leb now (b.last_update + 600)) l.buckets;
}

-- The loop of `_enforce_limits` over the clients used longest ago. A client without a bucket raises
-- `KeyError`, which `false` stands for, and what is deleted by then stays so.
unfoldable pub evict : List ℕ → RateLimiter → Bool × RateLimiter
evict [] l = (true, l)
evict (client ∷ clients) l =
    let rest = evict clients (record l {
      buckets = delete client l.buckets;
      access_times = delete client l.access_times;
      violations = delete client l.violations;
    }) in
    if contains client l.buckets then rest else (false, l)

abbrev pub by_value : Dict ℕ → List ℕ
by_value d = names (sort_by (λ (e : ℕ × ℕ). e.1) d)

abbrev pub delete_all {ℓ} : {V : Type ℓ} → List ℕ → Dict V → Dict V
delete_all [] d = d
delete_all (k ∷ ks) d = delete_all ks (delete k d)

-- The three parts of `_enforce_limits`.
unfoldable pub limit_buckets : RateLimiter → Bool × RateLimiter
limit_buckets l =
    if ltb l.max_buckets (length l.buckets)
    then evict (take (length l.buckets - l.max_buckets) (by_value l.access_times)) l
    else (true, l)

unfoldable pub limit_violations : RateLimiter → RateLimiter
limit_violations l =
    if ltb l.max_violations_tracked (length l.violations)
    then record l {
      violations =
          delete_all (take (length l.violations - l.max_violations_tracked) (by_value l.violations))
            l.violations;
    }
    else l

unfoldable pub limit_blocked : ℕ → RateLimiter → RateLimiter
limit_blocked now l =
    let active = keep_values (λ t. ltb now t) l.blocked_clients in
    if ltb l.max_blocked_clients (length l.blocked_clients)
    then (if ltb l.max_blocked_clients (length active)
        then record l {
          blocked_clients =
              delete_all (take (length active - l.max_blocked_clients) (by_value active))
                l.blocked_clients;
        }
        else record l { blocked_clients = active })
    else l

unfoldable pub enforce_limits : ℕ → RateLimiter → Bool × RateLimiter
enforce_limits now l =
    let (done, l') = limit_buckets l in
    if done then (true, limit_blocked now (limit_violations l')) else (false, l')

-- The numbers in the headers of an answer.
pub data Verdict : Type 0 where
  allowed : (limit : ℕ) (remaining reset : ℤ) (policy : ℕ) → Verdict
  blocked : (retry_after : ℤ) → Verdict
  limited : (retry_after : ℤ) (limit violations : ℕ) → Verdict

-- The readings of the clock in `is_allowed`, in their order; a new bucket reads `created`.
pub record Readings : Type 0 where
  pub now : ℕ
  pub enforced : ℕ
  pub created : ℕ
  pub consumed : ℕ
  pub waited : ℕ

-- `self.violations[client]`, which is 0 where it is missing.
abbrev pub violations_of : ℕ → RateLimiter → ℕ
violations_of client l = elim (lookup client l.violations) [ none ↦ 0 | some n ↦ n ]

abbrev pub bucket_of : ℕ → ℕ → RateLimiter → TokenBucket
bucket_of client created l = elim (lookup client l.buckets) [
  | none ↦ record {
    rate = l.rate;
    capacity = l.capacity;
    tokens = pos l.capacity;
    last_update = created;
  }
  | some b ↦ b
]

-- `is_allowed` where the bucket has given a token, and where it has not.
unfoldable pub grant : Readings → TokenBucket → RateLimiter → Outcome Verdict
grant t b l =
    if l.rate == 0
    then zero_division_error
    else returned (
        allowed (l.capacity / 1000000) (max_ℤ (pos 0) (truncate b.tokens 1000000))
          (truncate (one_token -ℤ b.tokens +ℤ pos ((t.now + 1) * l.rate)) l.rate)
          (l.rate / 1000000))

unfoldable pub punish : ℕ → Readings → TokenBucket → RateLimiter → Outcome Verdict × RateLimiter
punish client t b l =
    let count = violations_of client l + 1 in
    let blocks =
      if leb 5 count
      then insert client (t.now + l.block_duration) l.blocked_clients
      else l.blocked_clients in
    (
      elim (get_wait_time one_token t.waited b) [
        | returned w ↦ returned (limited (truncate w.0 w.1 +ℤ pos 1) (l.capacity / 1000000) count)
        | _ ↦ zero_division_error
      ],
      record l { violations = insert client count l.violations; blocked_clients = blocks },
    )

-- `is_allowed` of a client that is not blocked.
unfoldable pub serve : ℕ → Readings → RateLimiter → Outcome Verdict × RateLimiter
serve client t l =
    let (got, b) = consume one_token t.consumed (bucket_of client t.created l) in
    let l' : RateLimiter = record l {
      buckets = insert client b l.buckets;
      access_times = insert client t.now l.access_times;
    } in
    if got then (grant t b l', l') else punish client t b l'

-- `is_allowed` behind `_enforce_limits`: a block that has ended is lifted.
unfoldable pub admit : ℕ → Readings → RateLimiter → Outcome Verdict × RateLimiter
admit client t l = elim (lookup client l.blocked_clients) [
  | none ↦ serve client t l
  | some until ↦
      if ltb t.now until
      then (returned (blocked (pos (until - t.now))), l)
      else serve client t (record l {
        blocked_clients = delete client l.blocked_clients;
        violations = insert client 0 l.violations;
      })
]

unfoldable pub is_allowed : ℕ → Readings → RateLimiter → Outcome Verdict × RateLimiter
is_allowed client t l =
    let (done, l') = enforce_limits t.enforced l in
    if done then admit client t l' else (key_error, l')
