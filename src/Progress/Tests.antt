-- ===== src/Progress/Tests.antt =====
-- Concrete books for the progress read model, apps/api/src/progress/progress.service.ts.
use audio_book.Base.{
  ℕ, ◌≤◌, ◌≡◌, ◌⊎◌, ◌↔◌, none, some, List, [], ◌∷◌, refl, arith, ◌<◌, ◌-◌, ◌*◌, find,
}
use audio_book.Progress.{
  Aggregates, StageProgress, compute_stages, completed, running, assembly_status, tts_stage,
  assembly_stage, job_derived_status, assembly, tts, stage_job_types, ingestion,
}
use audio_book.Progress.Counts.{
  StatusCount, count, count_statuses, get_count, counts_of, round, nearest,
}
use audio_book.Progress.Overview.{
  measurable, overall_progress, estimate, rate_estimate, low, is_active,
}
use audio_book.Progress.Bounds.{Grows, AllTwo, compute_stages_grow, overall_progress_between}
use audio_book.Progress.Remaining.{IsNearest, estimate-low}
use audio_book.Progress.Status.{
  assembly_status_lem, assembly_stage_by_jobs, tts_stage_completed, rendered,
}

-- Ten chunks of which four are rendered, two chapters, and assembly jobs that have succeeded.
abbrev half_book : Aggregates
half_book = record {
  jobs =
      record { type = "assemble_chapter"; status = "SUCCEEDED"; count = 2 }
      ∷ record { type = "generate_tts_chunk"; status = "RUNNING"; count = 6 }
      ∷ [];
  version_status = some "READY";
  pages_total = none;
  pages = [];
  scene_count = 3;
  semantics_count = 2;
  script_state = some "VALIDATED";
  chunk_count = 10;
  flagged_chunk_count = 1;
  audio =
      record { status = "GENERATED"; count = 1 } ∷ record { status = "VALIDATED"; count = 3 } ∷ [];
  chapter_count = 2;
  chapter_audio = [];
}

abbrev more_audio : List StatusCount
more_audio = record { status = "VALIDATED"; count = 7 } ∷ []

two_thirds : round 2 3 ≡ 6667
unfolding round nearest
two_thirds = refl

status_example : job_derived_status tts half_book.jobs ≡ running
unfolding job_derived_status stage_job_types count count_statuses get_count
status_example = refl

estimate_example :
    estimate 9000
      (record {
        stage = tts;
        status = running;
        progress = some 4000;
        completed_units = 4;
        total_units = some 10;
        failed_units = 0;
        flagged_units = 0;
      }
        ∷ [])
      (some 1000)
    ≡ low 12000
unfolding estimate rate_estimate nearest
estimate_example = refl

compute_stages_grow_example :
    AllTwo
      (λ s t. Grows s.progress t.progress)
      (compute_stages half_book)
      (compute_stages record half_book {
        jobs = [];
        pages = [];
        semantics_count = 3;
        audio = more_audio;
        chapter_audio = [];
      })
unfolding counts_of
compute_stages_grow_example =
    compute_stages_grow half_book [] [] more_audio [] 3 (omega arith) (omega arith) (omega arith)
      (omega arith)

abbrev three_stages : List StageProgress
three_stages =
    record {
      stage = tts;
      status = running;
      progress = some 4000;
      completed_units = 4;
      total_units = some 10;
      failed_units = 0;
      flagged_units = 0;
    }
    ∷ record {
      stage = assembly;
      status = completed;
      progress = some 10000;
      completed_units = 2;
      total_units = some 2;
      failed_units = 0;
      flagged_units = 0;
    }
    ∷ record {
      stage = ingestion;
      status = running;
      progress = none;
      completed_units = 0;
      total_units = none;
      failed_units = 0;
      flagged_units = 0;
    }
    ∷ []

overall_progress_between_example :
    ((measurable three_stages ≡ []) × (overall_progress three_stages ≡ none))
    ⊎ ((m : ℕ) × (overall_progress three_stages ≡ some m) × (4000 ≤ m) × (m ≤ 10000))
unfolding measurable
overall_progress_between_example =
    overall_progress_between 4000 10000 three_stages
      ((omega arith, omega arith), ((omega arith, omega arith), tt))

assembly_status_lem_example :
    assembly_status half_book.jobs 0 (some 2) ≡ job_derived_status assembly half_book.jobs
assembly_status_lem_example = assembly_status_lem half_book.jobs 0 (some 2)

assembly_stage_by_jobs_example : (assembly_stage half_book).status ≡ completed
unfolding count count_statuses get_count stage_job_types
assembly_stage_by_jobs_example = assembly_stage_by_jobs half_book refl refl refl refl (omega arith)

tts_stage_completed_example :
    (((tts_stage half_book).status ≡ completed) ↔ (10 ≤ rendered half_book))
    × (((tts_stage half_book).progress ≡ some 10000) ↔ (10 ≤ rendered half_book))
tts_stage_completed_example = tts_stage_completed half_book (omega arith) (omega arith)

abbrev rendering : List StageProgress
rendering =
    record {
      stage = tts;
      status = running;
      progress = some 4000;
      completed_units = 4;
      total_units = some 10;
      failed_units = 0;
      flagged_units = 0;
    }
    ∷ []

estimate-low_example :
    (active : StageProgress) × (total started : ℕ) × (find (λ s. is_active s.status) rendering
      ≡ some active)
    × (active.total_units ≡ some total)
    × (some 1000 ≡ some started)
    × (started < 9000)
    × (0 < active.completed_units)
    × (active.completed_units < total)
    × IsNearest 12000 ((9000 - started) * (total - active.completed_units)) active.completed_units
unfolding estimate rate_estimate nearest
estimate-low_example = estimate-low 9000 12000 rendering (some 1000) refl
