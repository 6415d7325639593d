-- ===== src/Progress.antt =====
-- The book progress read model, apps/api/src/progress/progress.service.ts: the stages that
-- `computeStages` derives from the aggregates of the database, and what `getBookProgress` and
-- `estimate` make of them. The answers of the database's aggregates are a record.
pub mod Counts
pub mod Overview
pub mod Remaining
pub mod Rounding
pub mod Bounds
pub mod Status
mod Tests
use audio_book.Base.{
  ℕ, ◌+◌, Bool, true, false, ◌&&◌, Option, none, some, String, List, [], ◌∷◌, ltb, leb, str_eq,
  if◌then◌else◌, ◌==◌,
}
use Counts.{JobCount, StatusCount, count, any_blocked, counts_of, or_zero, min_of, round, ratio}

pub data StageName : Type 0 where
  ingestion analysis director tts assembly : StageName

unfoldable pub stage_job_types : StageName → List String
stage_job_types ingestion = "parse_book" ∷ "ocr_page" ∷ "normalize_text" ∷ "analyze_structure" ∷ []
stage_job_types analysis = "analyze_scene" ∷ "build_story_bible_delta" ∷ []
stage_job_types director = "generate_director_ir" ∷ "revise_director_ir" ∷ []
stage_job_types tts =
    "generate_tts_chunk" ∷ "validate_audio" ∷ "process_audio" ∷ "verify_transcript" ∷ []
stage_job_types assembly = "assemble_chapter" ∷ "assemble_audiobook" ∷ "encode_delivery_format" ∷ []

pub data StageStatus : Type 0 where
  running queued blocked completed failed cancelled not_started : StageStatus
  partial_ocr needs_review validating partial : StageStatus

-- `progress` is in units of 1/10000.
pub record StageProgress : Type 0 where
  pub stage : StageName
  pub status : StageStatus
  pub progress : Option ℕ
  pub completed_units : ℕ
  pub total_units : Option ℕ
  pub failed_units : ℕ
  pub flagged_units : ℕ

unfoldable pub job_derived_status : StageName → List JobCount → StageStatus
unfolding stage_job_types
job_derived_status stage jobs =
    let types = stage_job_types stage in
    if ltb 0 (count jobs types ("RUNNING" ∷ []))
    then running
    else if ltb 0 (count jobs types ("RETRYING" ∷ []))
    then running
    else if ltb 0 (count jobs types ("CREATED" ∷ "QUEUED" ∷ []))
    then queued
    else if ltb 0 (count jobs types ("BLOCKED" ∷ []))
    then blocked
    else if ltb 0 (count jobs types ("SUCCEEDED" ∷ []))
    then completed
    else if ltb 0 (count jobs types ("FAILED" ∷ "DEAD_LETTERED" ∷ []))
    then failed
    else if ltb 0 (count jobs types ("CANCELLED" ∷ []))
    then cancelled
    else not_started

abbrev pub is : String → Option String → Bool
is s none = false
is s (some t) = str_eq t s

unfoldable pub ingestion_status : List JobCount → Option String → StageStatus
ingestion_status jobs version =
    if is "READY" version
    then completed
    else if is "PARTIAL_OCR" version
    then partial_ocr
    else if is "NEEDS_REVIEW" version
    then needs_review
    else if is "FAILED" version
    then failed
    else job_derived_status ingestion jobs

abbrev pub is_completed : StageStatus → Bool
is_completed completed = true
is_completed _ = false

abbrev pub is_not_started : StageStatus → Bool
is_not_started not_started = true
is_not_started _ = false

unfoldable pub director_status : List JobCount → Option String → StageStatus
director_status jobs state =
    let derived = job_derived_status director jobs in
    if is "VALIDATED" state
    then completed
    else if is "DRAFT" state
    then (if is_completed derived then validating else derived)
    else derived

unfoldable pub tts_status : List JobCount → ℕ → Option ℕ → StageStatus
tts_status jobs done none = job_derived_status tts jobs
tts_status jobs done (some total) =
    let derived = job_derived_status tts jobs in
    if total == 0
    then derived
    else if leb total done
    then completed
    else if is_completed derived && ltb done total
    then partial
    else derived

abbrev pub is_reached : ℕ → Option ℕ → Bool
is_reached done none = false
is_reached done (some total) = ltb 0 total && leb total done

unfoldable pub assembly_status : List JobCount → ℕ → Option ℕ → StageStatus
assembly_status jobs assembled total =
    let derived = job_derived_status assembly jobs in
    if is_reached assembled total
    then completed
    else if is_not_started derived && any_blocked jobs (stage_job_types assembly)
    then blocked
    else derived

unfoldable pub stage_status : StageName → List JobCount → Bool → StageStatus
stage_status stage jobs complete = if complete then completed else job_derived_status stage jobs

-- What the queries of `computeStages` answer: the aggregates, and the current version and script.
pub record Aggregates : Type 0 where
  pub jobs : List JobCount
  pub version_status : Option String
  pub pages_total : Option ℕ
  pub pages : List StatusCount
  pub scene_count : ℕ
  pub semantics_count : ℕ
  pub script_state : Option String
  pub chunk_count : ℕ
  pub flagged_chunk_count : ℕ
  pub audio : List StatusCount
  pub chapter_count : ℕ
  pub chapter_audio : List StatusCount

-- `n > 0 ? n : null`
abbrev pub positive : ℕ → Option ℕ
positive n = if ltb 0 n then some n else none

-- `total === null ? null : round(Math.min(done, total) / total)`
abbrev pub fraction : ℕ → Option ℕ → Option ℕ
fraction done none = none
fraction done (some total) = some (round (min_of done total) total)

unfoldable pub ingestion_stage : Aggregates → StageProgress
ingestion_stage a =
    let pages_done =
      or_zero (counts_of a.pages "OK") + or_zero (counts_of a.pages "NEEDS_REVIEW") in
    record {
      stage = ingestion;
      status = ingestion_status a.jobs a.version_status;
      progress = ratio pages_done a.pages_total a.version_status;
      completed_units = pages_done;
      total_units = a.pages_total;
      failed_units = or_zero (counts_of a.pages "FAILED");
      flagged_units = or_zero (counts_of a.pages "NEEDS_REVIEW");
    }

unfoldable pub analysis_stage : Aggregates → StageProgress
analysis_stage a = record {
  stage = analysis;
  status =
      stage_status analysis a.jobs (ltb 0 a.semantics_count && leb a.scene_count a.semantics_count);
  progress = fraction a.semantics_count (positive a.scene_count);
  completed_units = min_of a.semantics_count a.scene_count;
  total_units = positive a.scene_count;
  failed_units = 0;
  flagged_units = 0;
}

unfoldable pub director_stage : Aggregates → StageProgress
director_stage a =
    let done = is "VALIDATED" a.script_state in
    record {
      stage = director;
      status = director_status a.jobs a.script_state;
      progress = elim a.script_state [ none ↦ none | some _ ↦ some (if done then 10000 else 0) ];
      completed_units = if done then a.chunk_count else 0;
      total_units = elim a.script_state [ none ↦ none | some _ ↦ some a.chunk_count ];
      failed_units = 0;
      flagged_units = a.flagged_chunk_count;
    }

unfoldable pub tts_stage : Aggregates → StageProgress
tts_stage a =
    let done =
      or_zero (counts_of a.audio "GENERATED")
      + or_zero (counts_of a.audio "VALIDATED")
      + or_zero (counts_of a.audio "ASSEMBLED") in
    let total = positive a.chunk_count in
    record {
      stage = tts;
      status = tts_status a.jobs done total;
      progress = fraction done total;
      completed_units = done;
      total_units = total;
      failed_units = or_zero (counts_of a.audio "FAILED");
      flagged_units = or_zero (counts_of a.audio "INVALID");
    }

unfoldable pub assembly_stage : Aggregates → StageProgress
assembly_stage a =
    let assembled = or_zero (counts_of a.chapter_audio "ASSEMBLED") in
    let total = positive a.chapter_count in
    record {
      stage = assembly;
      status = assembly_status a.jobs assembled total;
      progress = fraction assembled total;
      completed_units = assembled;
      total_units = total;
      failed_units = or_zero (counts_of a.chapter_audio "INVALID");
      flagged_units = 0;
    }

unfoldable pub compute_stages : Aggregates → List StageProgress
compute_stages a =
    ingestion_stage a ∷ analysis_stage a ∷ director_stage a ∷ tts_stage a ∷ assembly_stage a ∷ []
