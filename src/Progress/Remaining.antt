-- ===== src/Progress/Remaining.antt =====
-- When the estimate of apps/api/src/progress/progress.service.ts names a time.
use native.Mathlib.Nat.{lt-mul-div-succ, mul-div-le}
use audio_book.Base.{
  ℕ, ◌+◌, ◌-◌, ◌*◌, ◌≤◌, ◌<◌, ◌||◌, Option, some, List, ◌≡◌, subst, find, leb, Bool-cases,
  Option-cases, inl, inr, arith,
}
use audio_book.Progress.{StageProgress}
use audio_book.Progress.Counts.{nearest}
use audio_book.Progress.Overview.{low, estimate, rate_estimate, is_active}

-- The time `ms` is the quotient `a / b`, rounded to the nearest number, half a unit up.
abbrev pub IsNearest : ℕ → ℕ → ℕ → Type 0
IsNearest ms a b = (2 * b * ms ≤ 2 * a + b) × (2 * a + b < 2 * b * (ms + 1))

nearest-IsNearest : (a b : ℕ) → 0 < b → IsNearest (nearest a b) a b
unfolding nearest
nearest-IsNearest a b pos =
    let two_b : 0 < 2 * b = omega arith in
    (mul-div-le (2 * a + b) (2 * b), lt-mul-div-succ (2 * a + b) two_b)

abbrev IsMeasured : ℕ → ℕ → ℕ → ℕ → Type 0
IsMeasured completed elapsed remaining ms =
    (0 < completed) × (0 < elapsed) × (0 < remaining) × IsNearest ms (elapsed * remaining) completed

low_inj : {a b : ℕ} → low a ≡ low b → a ≡ b
low_inj e = cc

rate_estimate-low :
    (completed elapsed remaining ms : ℕ)
    → rate_estimate completed elapsed remaining ≡ low ms
    → IsMeasured completed elapsed remaining ms
unfolding rate_estimate
rate_estimate-low completed elapsed remaining ms e =
    elim (Bool-cases (leb completed 0 || leb elapsed 0 || leb remaining 0)) [
      | inl b ↦ cc (rw b at e)
      | inr b ↦
          let c : 0 < completed = ground arith in
          let same : nearest (elapsed * remaining) completed ≡ ms = low_inj (rw b at e) in
          (
            c,
            ground arith,
            ground arith,
            subst (λ x. IsNearest x (elapsed * remaining) completed) same
                (nearest-IsNearest (elapsed * remaining) completed c),
          )
    ]

-- The estimate names a remaining time only when a stage is queued or running whose total is known,
-- a job has started, and time has passed, units are completed and units remain; and the time is
-- then that of the remaining units at the measured rate, rounded.
pub estimate-low :
    (now ms : ℕ) (stages : List StageProgress) (started_at : Option ℕ)
    → estimate now stages started_at ≡ low ms
    → (active : StageProgress) × (total started : ℕ) × (find (λ s. is_active s.status) stages
        ≡ some active)
      × (active.total_units ≡ some total)
      × (started_at ≡ some started)
      × (started < now)
      × (0 < active.completed_units)
      × (active.completed_units < total)
      × IsNearest ms ((now - started) * (total - active.completed_units)) active.completed_units
unfolding estimate
estimate-low now ms stages started_at e =
    elim (Option-cases (find (λ s. is_active s.status) stages)) [
      | inl f ↦ cc (rw (estimate, f) at e)
      | inr (active, f) ↦ elim (Option-cases active.total_units) [
        | inl t ↦ cc (rw (estimate, f, t) at e)
        | inr (total, t) ↦ elim (Option-cases started_at) [
          | inl s ↦ cc (rw (estimate, f, t, s) at e)
          | inr (started, s) ↦
              let (c, elapsed, remaining, rate) =
                rate_estimate-low active.completed_units (now - started)
                  (total - active.completed_units) ms (rw (estimate, f, t, s) at e) in
              (active, total, started, f, t, s, omega arith, c, omega arith, rate)
        ]
      ]
    ]
