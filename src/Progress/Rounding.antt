-- ===== src/Progress/Rounding.antt =====
-- The rounding of apps/api/src/progress/progress.service.ts: what `Math.round` of a quotient keeps.
use native.Mathlib.Nat.{div-lt_iff_lt-mul, le-div_iff_mul-le}
use audio_book.Base.{ℕ, suc, ◌+◌, ◌*◌, ◌/◌, ◌≤◌, ◌<◌, arith}
use audio_book.Progress.Counts.{nearest, round, min_of}

pub nearest-le : (n d k : ℕ) → 0 < d → n ≤ k * d → nearest n d ≤ k
unfolding nearest
nearest-le n d k d>0 h =
    let two_d : 0 < 2 * d = omega arith in
    let p : 2 * n + d < suc k * (2 * d) = grind arith in
    let q : (2 * n + d) / (2 * d) < suc k = (div-lt_iff_lt-mul two_d).1 p in omega arith

pub le-nearest : (n d k : ℕ) → 0 < d → k * d ≤ n → k ≤ nearest n d
unfolding nearest
le-nearest n d k d>0 h =
    let two_d : 0 < 2 * d = omega arith in
    let p : k * (2 * d) ≤ 2 * n + d = grind arith in (le-div_iff_mul-le two_d).1 p

pub nearest_mono : (n m d : ℕ) → 0 < d → n ≤ m → nearest n d ≤ nearest m d
unfolding nearest
nearest_mono n m d d>0 h =
    let two_d : 0 < 2 * d = omega arith in
    let p : (2 * n + d) / (2 * d) * (2 * d) ≤ 2 * n + d =
      (le-div_iff_mul-le two_d).0 (omega arith) in
    (le-div_iff_mul-le two_d).1 (omega arith)

-- A fraction of fewer than 20000 units is rounded to 1 only when it is 1.
pub round-full : (a d : ℕ) → 0 < d → d < 20000 → 10000 ≤ round a d → d ≤ a
unfolding round nearest
round-full a d d>0 small h =
    let two_d : 0 < 2 * d = omega arith in
    let p : 10000 * (2 * d) ≤ 2 * (10000 * a) + d = (le-div_iff_mul-le two_d).0 h in omega arith

pub min_of-left : (a b : ℕ) → min_of a b ≤ a
min_of-left a b = ground arith

pub min_of-right : (a b : ℕ) → min_of a b ≤ b
min_of-right a b = ground arith

pub min_of_mono : (a b c : ℕ) → a ≤ b → min_of a c ≤ min_of b c
min_of_mono a b c h = ground arith

pub round-le : (a d : ℕ) → 0 < d → a ≤ d → round a d ≤ 10000
unfolding round
round-le a d d>0 h = nearest-le (10000 * a) d 10000 d>0 (omega arith)

pub round_mono : (a b d : ℕ) → 0 < d → a ≤ b → round a d ≤ round b d
unfolding round
round_mono a b d d>0 h = nearest_mono (10000 * a) (10000 * b) d d>0 (omega arith)

pub round-all : (d : ℕ) → 0 < d → 10000 ≤ round d d
unfolding round
round-all d d>0 = le-nearest (10000 * d) d 10000 d>0 (omega arith)
