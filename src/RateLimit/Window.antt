-- ===== src/RateLimit/Window.antt =====
-- How many requests one window of apps/api/src/common/rate-limit/rate-limiter.ts admits.
use text.Mathlib.TextEquality.{eq_iff}
use mathlib.Core.List.{Memᴰ}
use audio_book.Base.{
  ℕ, suc, ◌≤◌, ◌<◌, true, false, List, [], ◌∷◌, ==_self, ltb, ◌≡◌, refl, sym, subst, inl, inr,
  Bool-cases, arith,
}
use audio_book.RateLimit.{
  RateLimitBucket, same_bucket, read, write, upload, expensive, access_url, auth,
  RateLimitDimension, CounterKey, same_counter, Counters, incr, counter_key, count_all, Binding,
  bind_dimension, bind_all,
}

same_bucket_self : (b : RateLimitBucket) → same_bucket b b ≡ true
same_bucket_self read = refl
same_bucket_self write = refl
same_bucket_self upload = refl
same_bucket_self expensive = refl
same_bucket_self access_url = refl
same_bucket_self auth = refl

same_counter_self : (k : CounterKey) → same_counter k k ≡ true
unfolding same_counter
same_counter_self k =
    rw (same_bucket_self k.bucket, (eq_iff k.kind k.kind).1 refl, (eq_iff k.id k.id).1 refl)
      (==_self k.window_index)

incr_self : (k : CounterKey) (c : Counters) → incr k c k ≡ suc (c k)
unfolding incr
incr_self k c = rw (same_counter_self k) refl

incr_grows : (k other : CounterKey) (c : Counters) → c other ≤ incr k c other
unfolding incr
incr_grows k other c = ground arith

module _ (bucket : RateLimitBucket) (window : ℕ) where
  count_all_grows :
      (ds : List RateLimitDimension) (c : Counters) (k : CounterKey)
      → c k ≤ (count_all bucket window ds c).0 k
  unfolding count_all
  count_all_grows [] c k = omega arith
  count_all_grows (d ∷ ds) c k =
      let first = incr_grows (counter_key bucket window d) k c in
      let rest = count_all_grows ds (incr (counter_key bucket window d) c) k in omega arith

  refused_stays :
      (ds : List RateLimitDimension) (ns : List ℕ) (b : Binding)
      → b.allowed ≡ false
      → (bind_all ds ns b).allowed ≡ false
  unfolding bind_all bind_dimension
  refused_stays [] ns b h = h
  refused_stays (d ∷ ds) [] b h = refused_stays ds [] (bind_dimension d 0 b) (ground arith)
  refused_stays (d ∷ ds) (n ∷ ns) b h = refused_stays ds ns (bind_dimension d n b) (ground arith)

  over_limit :
      (d : RateLimitDimension) (n : ℕ) (b : Binding)
      → ltb d.limit n ≡ true
      → (bind_dimension d n b).allowed ≡ false
  unfolding bind_dimension
  over_limit d n b h = rw h refl

  -- A request that is allowed counted each of its dimensions once, and none beyond its limit.
  pub allowed_below :
      (ds : List RateLimitDimension) (c : Counters) (b : Binding) (d : RateLimitDimension)
      → Memᴰ d ds
      → (bind_all ds (count_all bucket window ds c).1 b).allowed ≡ true
      → c (counter_key bucket window d) < d.limit
  unfolding count_all bind_all
  allowed_below [] c b d m ok = elim m [ ]
  allowed_below (e ∷ ds) c b d m ok = elim m [
    | Memᴰ.head p ↦
        let key = counter_key bucket window e in
        let used = incr key c key in
        elim (Bool-cases (ltb e.limit used)) [
          | inl over ↦ cc (
            refused_stays ds (count_all bucket window ds (incr key c)).1 (bind_dimension e used b)
                (over_limit e used b over),
            ok,
          )
          | inr under ↦
              let one : used ≡ suc (c key) = incr_self key c in
              let within : c key < e.limit = ground arith in
              subst (λ x. c (counter_key bucket window x) < x.limit) (sym p) within
        ]
    | Memᴰ.tail t ↦
        let key = counter_key bucket window e in
        let later = allowed_below ds (incr key c) (bind_dimension e (incr key c key) b) d t ok in
        let grown = incr_grows key (counter_key bucket window d) c in omega arith
  ]

  pub counted_once :
      (ds : List RateLimitDimension) (c : Counters) (d : RateLimitDimension)
      → Memᴰ d ds
      → c (counter_key bucket window d)
        < (count_all bucket window ds c).0 (counter_key bucket window d)
  unfolding count_all
  counted_once [] c d m = elim m [ ]
  counted_once (e ∷ ds) c d m = elim m [
    | Memᴰ.head p ↦
        let key = counter_key bucket window e in
        let one = incr_self key c in
        let rest = count_all_grows ds (incr key c) key in
        let own : c key < (count_all bucket window ds (incr key c)).0 key = omega arith in
        subst
          (λ x.
            c (counter_key bucket window x)
            < (count_all bucket window ds (incr key c)).0 (counter_key bucket window x))
          (sym p) own
    | Memᴰ.tail t ↦
        let key = counter_key bucket window e in
        let rest = counted_once ds (incr key c) d t in
        let grown = incr_grows key (counter_key bucket window d) c in omega arith
  ]
