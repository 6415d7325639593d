-- ===== src/Progress/Overview.antt =====
-- What the progress endpoint derives from the stages: the overall figure and the flagged units of
-- `getBookProgress`, and `estimate`, of apps/api/src/progress/progress.service.ts.
use audio_book.Base.{
  ℕ, ◌+◌, ◌-◌, ◌*◌, ◌/◌, Bool, true, false, ◌||◌, Option, none, some, List, [], ◌∷◌, leb,
  if◌then◌else◌, length, find,
}
use audio_book.Progress.{StageStatus, running, queued, StageProgress}
use audio_book.Progress.Counts.{nearest}

-- The figures of the stages whose denominator is known.
unfoldable pub measurable : List StageProgress → List ℕ
measurable [] = []
measurable (s ∷ stages) = elim s.progress [
  | none ↦ measurable stages
  | some p ↦ p ∷ measurable stages
]

unfoldable pub sum : List ℕ → ℕ
sum [] = 0
sum (p ∷ ps) = p + sum ps

-- The mean of figures in 1/10000, rounded to that unit, half a unit up.
unfoldable pub mean : List ℕ → Option ℕ
mean [] = none
mean (p ∷ ps) = let n = length (p ∷ ps) in some ((2 * sum (p ∷ ps) + n) / (2 * n))

unfoldable pub overall_progress : List StageProgress → Option ℕ
overall_progress stages = mean (measurable stages)

unfoldable pub needs_review_count : List StageProgress → ℕ
needs_review_count [] = 0
needs_review_count (s ∷ stages) = s.flagged_units + needs_review_count stages

-- `status === 'RUNNING' || status === 'QUEUED'`
abbrev pub is_active : StageStatus → Bool
is_active running = true
is_active queued = true
is_active _ = false

-- `confidence: 'NONE'`, or `confidence: 'LOW'` with `remaining_ms`.
pub data Estimate : Type 0 where
  unknown : Estimate
  low : ℕ → Estimate

-- The second test of `estimate` and its result: `Math.round(elapsed / completed * remaining)`.
unfoldable pub rate_estimate : ℕ → ℕ → ℕ → Estimate
rate_estimate completed_units elapsed_ms remaining_units =
    if leb completed_units 0 || leb elapsed_ms 0 || leb remaining_units 0
    then unknown
    else low (nearest (elapsed_ms * remaining_units) completed_units)

-- A negative difference of the source is `<= 0`, as is the 0 at which subtraction stops here.
unfoldable pub estimate : ℕ → List StageProgress → Option ℕ → Estimate
estimate now stages first_started_at = elim (find (λ s. is_active s.status) stages) [
  | none ↦ unknown
  | some active ↦ elim active.total_units [
    | none ↦ unknown
    | some total ↦ elim first_started_at [
      | none ↦ unknown
      | some started ↦
          rate_estimate active.completed_units (now - started) (total - active.completed_units)
    ]
  ]
]
