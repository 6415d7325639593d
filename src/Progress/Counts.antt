-- ===== src/Progress/Counts.antt =====
-- The aggregates and the arithmetic of the progress read model,
-- apps/api/src/progress/progress.service.ts: `JobStatusIndex`, `countsOf`, `ratio` and `round`.
-- A rounded fraction is counted in its unit, 1/10000, and a quotient is exact.
use audio_book.Base.{
  ℕ, ◌+◌, ◌*◌, ◌/◌, Bool, ◌&&◌, Option, none, some, String, List, [], ◌∷◌, ltb, leb, str_eq,
  if◌then◌else◌, ◌==◌,
}

-- A row of `groupBy(type, status)`: the counts are keyed by both texts.
pub record JobCount : Type 0 where
  pub type : String
  pub status : String
  pub count : ℕ

-- A row of `groupBy(status)`.
pub record StatusCount : Type 0 where
  pub status : String
  pub count : ℕ

-- `new Map` filled row by row: the last row of a key is the one that `get` finds.
unfoldable pub get_count : List JobCount → String → String → Option ℕ
get_count [] t s = none
get_count (row ∷ rows) t s = elim (get_count rows t s) [
  | some n ↦ some n
  | none ↦ if str_eq row.type t && str_eq row.status s then some row.count else none
]

abbrev pub or_zero : Option ℕ → ℕ
or_zero none = 0
or_zero (some n) = n

-- The inner loop of `JobStatusIndex.count`.
unfoldable pub count_statuses : List JobCount → String → List String → ℕ
count_statuses jobs t [] = 0
count_statuses jobs t (s ∷ ss) = or_zero (get_count jobs t s) + count_statuses jobs t ss

-- `JobStatusIndex.count`
unfoldable pub count : List JobCount → List String → List String → ℕ
count jobs [] ss = 0
count jobs (t ∷ ts) ss = count_statuses jobs t ss + count jobs ts ss

unfoldable pub any_blocked : List JobCount → List String → Bool
any_blocked jobs types = ltb 0 (count jobs types ("BLOCKED" ∷ []))

-- `countsOf(rows)[status]`: a later row of the same status replaces an earlier one.
unfoldable pub counts_of : List StatusCount → String → Option ℕ
counts_of [] s = none
counts_of (row ∷ rows) s = elim (counts_of rows s) [
  | some n ↦ some n
  | none ↦ if str_eq row.status s then some row.count else none
]

abbrev pub min_of : ℕ → ℕ → ℕ
min_of a b = if leb a b then a else b

-- `Math.round` of the quotient `a / b`: half a unit is rounded up.
unfoldable pub nearest : ℕ → ℕ → ℕ
nearest a b = (2 * a + b) / (2 * b)

-- `Math.round(value * 10_000)` of the quotient `a / b`
unfoldable pub round : ℕ → ℕ → ℕ
unfolding nearest
round a b = nearest (10000 * a) b

-- A version that is READY without a page count is complete, not unmeasurable.
unfoldable pub ratio : ℕ → Option ℕ → Option String → Option ℕ
ratio done none status = elim status [
  | some s ↦ if str_eq s "READY" then some 10000 else none
  | none ↦ none
]
ratio done (some total) status =
    if total == 0
    then elim status [ some s ↦ if str_eq s "READY" then some 10000 else none | none ↦ none ]
    else some (round (min_of done total) total)
