-- ===== src/RateLimit/Admission.antt =====
-- A sequence of requests to the limiter of apps/api/src/common/rate-limit/rate-limiter.ts, and when
-- a window ends.
use mathlib.Core.List.{Memᴰ}
use native.Mathlib.Nat.{lt-mul-div-succ, div-mul-le_self}
use audio_book.Base.{
  ℕ, suc, ◌+◌, ◌-◌, ◌*◌, ◌/◌, ◌≤◌, ◌<◌, true, List, [], ◌∷◌, if◌then◌else◌, ◌≡◌, subst, inl, inr,
  Bool-cases, All, arith,
}
use audio_book.RateLimit.{RateLimitBucket, RateLimitDimension, Counters, counter_key, consume}
use audio_book.RateLimit.Window.{allowed_below, counted_once}

-- A request: the second in which it comes, and what it is counted against.
pub record Request : Type 0 where
  pub now_seconds : ℕ
  pub dimensions : List RateLimitDimension

module _ (window_seconds : ℕ) (bucket : RateLimitBucket) where
  -- How many of the requests are allowed, one after the other.
  unfoldable pub admitted : List Request → Counters → ℕ
  admitted [] c = 0
  admitted (r ∷ rs) c =
      let (after, decision) = consume window_seconds true r.now_seconds bucket r.dimensions c in
      let rest = admitted rs after in if decision.allowed then suc rest else rest

  consume_below :
      (r : Request) (c : Counters) (d : RateLimitDimension)
      → Memᴰ d r.dimensions
      → (consume window_seconds true r.now_seconds bucket r.dimensions c).1.allowed ≡ true
      → c (counter_key bucket (r.now_seconds / window_seconds) d) < d.limit
  unfolding consume
  consume_below r c d m ok =
      allowed_below bucket (r.now_seconds / window_seconds) r.dimensions c _ d m ok

  consume_counts :
      (r : Request) (c : Counters) (d : RateLimitDimension)
      → Memᴰ d r.dimensions
      → c (counter_key bucket (r.now_seconds / window_seconds) d)
        < (consume window_seconds true r.now_seconds bucket r.dimensions c).0
            (counter_key bucket (r.now_seconds / window_seconds) d)
  unfolding consume
  consume_counts r c d m = counted_once bucket (r.now_seconds / window_seconds) r.dimensions c d m

  -- While Redis answers, the requests that come in one window with a given user, address or tenant
  -- among their dimensions are allowed at most as often as its limit, less what the window has
  -- counted already, whatever their other dimensions are.
  pub admitted-le :
      (window_index : ℕ) (d : RateLimitDimension) (requests : List Request) (c : Counters)
      → All (λ r. (r.now_seconds / window_seconds ≡ window_index) × Memᴰ d r.dimensions) requests
      → admitted requests c ≤ d.limit - c (counter_key bucket window_index d)
  unfolding admitted
  admitted-le w d [] c h = omega arith
  admitted-le w d (r ∷ rs) c ((same, m), h) =
      let after = (consume window_seconds true r.now_seconds bucket r.dimensions c).0 in
      let rest = admitted-le w d rs after h in
      let counted : c (counter_key bucket w d) < after (counter_key bucket w d) =
        subst (λ x. c (counter_key bucket x d) < after (counter_key bucket x d)) same
          (consume_counts r c d m) in
      elim (Bool-cases
        (consume window_seconds true r.now_seconds bucket r.dimensions c).1.allowed) [
          | inl ok ↦
              let below : c (counter_key bucket w d) < d.limit =
                subst (λ x. c (counter_key bucket x d) < d.limit) same (consume_below r c d m ok) in
              rw ok (omega arith)
          | inr refused ↦ rw refused (omega arith)
        ]

  -- The window that a decision names ends after the request and at most one window later, and a
  -- client that waits for as long as it is told to waits until then.
  consume-retry :
      (now : ℕ) (dimensions : List RateLimitDimension) (c : Counters)
      → 0 < window_seconds
      → let decision = (consume window_seconds true now bucket dimensions c).1 in
        (now < decision.reset_at)
        × (decision.reset_at ≤ now + window_seconds)
        × (now + decision.retry_after_seconds ≡ decision.reset_at)
  unfolding consume
  consume-retry now dimensions c pos =
      let ends = lt-mul-div-succ now pos in
      let starts = div-mul-le_self now window_seconds in
      let later : now < (now / window_seconds + 1) * window_seconds = grind arith in
      let soon : (now / window_seconds + 1) * window_seconds ≤ now + window_seconds = grind arith in
      (later, soon, ground arith)
