-- ===== src/RateLimit.antt =====
-- The rate limiter, apps/api/src/common/rate-limit/rate-limiter.ts: fixed windows counted in Redis.
-- A counter's key is the tuple of the parts that the source joins with colons; a pipeline of Redis
-- either answers or fails as a whole.
pub mod Window
pub mod Admission
mod Tests
use audio_book.Base.{
  ℕ, zero, suc, ◌+◌, ◌-◌, ◌*◌, ◌/◌, Bool, true, false, ◌&&◌, Option, none, some, String, List, [],
  ◌∷◌, ◌==◌, ltb, str_eq, if◌then◌else◌,
}

-- `RateLimitBucket` of buckets.ts
pub data RateLimitBucket : Type 0 where
  read write upload expensive access_url auth : RateLimitBucket

abbrev pub same_bucket : RateLimitBucket → RateLimitBucket → Bool
same_bucket read read = true
same_bucket write write = true
same_bucket upload upload = true
same_bucket expensive expensive = true
same_bucket access_url access_url = true
same_bucket auth auth = true
same_bucket _ _ = false

pub record RateLimitDimension : Type 0 where
  pub kind : String
  pub id : String
  pub limit : ℕ

pub record RateLimitDecision : Type 0 where
  pub allowed : Bool
  pub limit : ℕ
  pub remaining : ℕ
  pub reset_at : ℕ
  pub retry_after_seconds : ℕ
  pub degraded : Bool

-- `ratelimit:${bucket}:${kind}:${id}:${windowIndex}`
pub record CounterKey : Type 0 where
  pub bucket : RateLimitBucket
  pub kind : String
  pub id : String
  pub window_index : ℕ

unfoldable pub same_counter : CounterKey → CounterKey → Bool
same_counter a b =
    same_bucket a.bucket b.bucket
    && (str_eq a.kind b.kind && (str_eq a.id b.id && a.window_index == b.window_index))

abbrev pub Counters : Type 0
Counters = CounterKey → ℕ

unfoldable pub incr : CounterKey → Counters → Counters
incr key counters other = if same_counter key other then suc (counters other) else counters other

unfoldable pub counter_key : RateLimitBucket → ℕ → RateLimitDimension → CounterKey
counter_key bucket window_index d = record {
  bucket = bucket;
  kind = d.kind;
  id = d.id;
  window_index = window_index;
}

-- The pipeline: every dimension is counted, and `counts` are the answers of its INCRs.
unfoldable pub count_all :
    RateLimitBucket → ℕ → List RateLimitDimension → Counters → Counters × List ℕ
count_all bucket window_index [] counters = (counters, [])
count_all bucket window_index (d ∷ ds) counters =
    let key = counter_key bucket window_index d in
    let counted = incr key counters in
    let (after, counts) = count_all bucket window_index ds counted in (after, counted key ∷ counts)

-- The dimension with the least headroom so far, `none` for the two infinities, and `allowed`.
pub record Binding : Type 0 where
  pub tightest : Option (ℕ × ℕ)
  pub allowed : Bool

abbrev pub is_tighter : ℕ → Option (ℕ × ℕ) → Bool
is_tighter remaining none = true
is_tighter remaining (some (limit, least)) = ltb remaining least

-- The body of `dimensions.forEach`; subtraction that stops at 0 is the source's `Math.max(0, …)`.
unfoldable pub bind_dimension : RateLimitDimension → ℕ → Binding → Binding
bind_dimension d used b =
    let remaining = d.limit - used in
    record {
      tightest = if is_tighter remaining b.tightest then some (d.limit, remaining) else b.tightest;
      allowed = if ltb d.limit used then false else b.allowed;
    }

unfoldable pub bind_all : List RateLimitDimension → List ℕ → Binding → Binding
bind_all [] counts b = b
bind_all (d ∷ ds) [] b = bind_all ds [] (bind_dimension d 0 b)
bind_all (d ∷ ds) (n ∷ ns) b = bind_all ds ns (bind_dimension d n b)

abbrev pub first_limit : List RateLimitDimension → ℕ
first_limit [] = 0
first_limit (d ∷ ds) = d.limit

abbrev pub at_least_one : ℕ → ℕ
at_least_one n = if ltb n 1 then 1 else n

abbrev pub tight_limit : Option (ℕ × ℕ) → ℕ
tight_limit none = 0
tight_limit (some (limit, remaining)) = limit

abbrev pub tight_remaining : Option (ℕ × ℕ) → ℕ
tight_remaining none = 0
tight_remaining (some (limit, remaining)) = remaining

-- `consume`; `up` says whether the pipeline answers, and `now_seconds` is the clock.
unfoldable pub consume :
    ℕ
    → Bool
    → ℕ
    → RateLimitBucket
    → List RateLimitDimension
    → Counters
    → Counters × RateLimitDecision
consume window_seconds up now_seconds bucket dimensions counters =
    let window_index = now_seconds / window_seconds in
    let reset_at = (window_index + 1) * window_seconds in
    let (after, counts) = count_all bucket window_index dimensions counters in
    let binding = bind_all dimensions counts (record { tightest = none; allowed = true }) in
    if up
    then (
      after,
      record {
        allowed = binding.allowed;
        limit = tight_limit binding.tightest;
        remaining = tight_remaining binding.tightest;
        reset_at = reset_at;
        retry_after_seconds = at_least_one (reset_at - now_seconds);
        degraded = false;
      },
    )
    else (
      counters,
      record {
        allowed = true;
        limit = first_limit dimensions;
        remaining = first_limit dimensions;
        reset_at = reset_at;
        retry_after_seconds = 0;
        degraded = true;
      },
    )
