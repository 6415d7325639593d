-- ===== src/RateLimit/Tests.antt =====
-- A concrete window of the limiter of apps/api/src/common/rate-limit/rate-limiter.ts.
use mathlib.Core.List.{Memᴰ}
use audio_book.Base.{◌≤◌, List, [], ◌∷◌, ◌≡◌, refl}
use audio_book.RateLimit.{
  RateLimitDimension, Counters, write, counter_key, consume, count_all, bind_all, bind_dimension,
  incr, same_counter,
}
use audio_book.RateLimit.Admission.{Request, admitted, admitted-le}

abbrev user : RateLimitDimension
user = record { kind = "user"; id = "u1"; limit = 2 }

abbrev tenant : RateLimitDimension
tenant = record { kind = "tenant"; id = "t1"; limit = 5 }

abbrev fresh : Counters
fresh key = 0

abbrev three_requests : List Request
three_requests =
    record { now_seconds = 60; dimensions = user ∷ tenant ∷ [] }
    ∷ record { now_seconds = 75; dimensions = user ∷ tenant ∷ [] }
    ∷ record { now_seconds = 119; dimensions = tenant ∷ user ∷ [] }
    ∷ []

two_admitted : admitted 60 write three_requests fresh ≡ 2
unfolding admitted consume count_all bind_all bind_dimension incr same_counter counter_key
two_admitted = refl

admitted-le_example : admitted 60 write three_requests fresh ≤ 2
admitted-le_example =
    admitted-le 60 write 1 user three_requests fresh
      ((refl, Memᴰ.head refl), ((refl, Memᴰ.head refl), ((refl, Memᴰ.tail (Memᴰ.head refl)), tt)))
