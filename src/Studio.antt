-- ===== src/Studio.antt =====
-- The generation plan of the web studio, apps/web/src/lib/generation.ts: which stage of the pipeline
-- the studio offers next, from the progress that the server reports. Labels are left out, and a
-- reason is a constructor for its sentence.
pub mod Plan
pub mod PartialOcr
pub mod Redirect
mod Tests
use audio_book.Base.{
  ℕ, Bool, true, false, ◌&&◌, ◌||◌, not, Option, none, some, String, List, [], ◌∷◌, ◌==◌, ltb,
  str_eq, map, all, find, if◌then◌else◌,
}
use audio_book.Progress.{
  StageName, ingestion, analysis, director, tts, assembly, StageStatus, running, queued, validating,
  completed, not_started, StageProgress, is_completed,
}

-- The fields of `CastingState` that the plan reads: `ready_for_generation`, `blocking.length`.
pub record CastingState : Type 0 where
  pub ready_for_generation : Bool
  pub blocking : ℕ

pub data BlockedReason : Type 0 where
  book_unread analysis_unfinished script_unvalidated script_unwritten no_audio : BlockedReason
  voices_unapproved : ℕ → BlockedReason

pub record StagePlanEntry : Type 0 where
  pub stage : StageName
  pub complete : Bool
  pub running : Bool
  pub blocked_reason : Option BlockedReason
  pub would_redo_work : Bool

pub record GenerationPlan : Type 0 where
  pub entries : List StagePlanEntry
  pub next : Option StagePlanEntry
  pub finished : Bool

-- `ORDER`
abbrev pub order : List StageName
order = ingestion ∷ analysis ∷ director ∷ tts ∷ assembly ∷ []

abbrev pub same_stage : StageName → StageName → Bool
same_stage ingestion ingestion = true
same_stage analysis analysis = true
same_stage director director = true
same_stage tts tts = true
same_stage assembly assembly = true
same_stage _ _ = false

-- `byStage.get(stage)`: the map keeps the last entry of a stage.
unfoldable pub by_stage : List StageProgress → StageName → Option StageProgress
by_stage [] stage = none
by_stage (s ∷ stages) stage = elim (by_stage stages stage) [
  | some t ↦ some t
  | none ↦ if same_stage s.stage stage then some s else none
]

-- `byStage.get(name)?.status ?? 'NOT_STARTED'`
unfoldable pub status_of : List StageProgress → StageName → StageStatus
status_of stages stage = elim (by_stage stages stage) [ none ↦ not_started | some s ↦ s.status ]

-- `(state?.completed_units ?? 0) > 0`
unfoldable pub has_units : List StageProgress → StageName → Bool
has_units stages stage = elim (by_stage stages stage) [
  | none ↦ false
  | some s ↦ ltb 0 s.completed_units
]

unfoldable pub voices_blocked : Option CastingState → Option BlockedReason
voices_blocked none = none
voices_blocked (some c) =
    if not c.ready_for_generation then some (voices_unapproved c.blocking) else none

-- `blockedReasonFor`; a script is known by its state.
unfoldable pub blocked_reason_for :
    StageName → List StageProgress → Option CastingState → Option String → Option BlockedReason
blocked_reason_for ingestion stages casting script = none
blocked_reason_for analysis stages casting script =
    if is_completed (status_of stages ingestion) then none else some book_unread
blocked_reason_for director stages casting script =
    if is_completed (status_of stages analysis) then none else some analysis_unfinished
blocked_reason_for tts stages casting (some state) =
    if not (str_eq state "VALIDATED") then some script_unvalidated else voices_blocked casting
blocked_reason_for tts stages casting none =
    if not (is_completed (status_of stages director))
    then some script_unwritten
    else voices_blocked casting
blocked_reason_for assembly stages casting script =
    if has_units stages tts then none else some no_audio

-- `status === 'QUEUED' || status === 'RUNNING' || status === 'VALIDATING'`
abbrev pub is_running : StageStatus → Bool
is_running queued = true
is_running running = true
is_running validating = true
is_running _ = false

unfoldable pub plan_entry :
    List StageProgress → Option CastingState → Option String → StageName → StagePlanEntry
plan_entry stages casting script stage =
    let status = status_of stages stage in
    record {
      stage = stage;
      complete = is_completed status;
      running = is_running status;
      blocked_reason = blocked_reason_for stage stages casting script;
      would_redo_work = is_completed status || has_units stages stage;
    }

abbrev pub is_due : StagePlanEntry → Bool
is_due entry = not entry.complete && not entry.running

-- `buildGenerationPlan`, where the absent progress is no stage.
unfoldable pub build_generation_plan :
    List StageProgress → Option CastingState → Option String → GenerationPlan
build_generation_plan stages casting script =
    let entries = map (plan_entry stages casting script) order in
    record {
      entries = entries;
      next = find is_due entries;
      finished = all (λ entry. entry.complete) entries;
    }
