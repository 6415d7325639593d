-- ===== src/Jobs/Tests.antt =====
-- Tests of the job system, and its theorems at concrete inputs.
use mathlib.Core.List.{Memᴰ}
use audio_book.Base.{
  ℕ, ◌+◌, Bool, true, false, Option, none, some, List, [], ◌∷◌, ◌++◌, ◌≡◌, ◌⊎◌, ◌↔◌, inr, refl, map,
  select, All, Result, ok, err, arith, is_some, ◌&&◌,
}
use audio_book.Jobs.Model.{
  Job, JobStatus, running, queued, succeeded, dead_lettered, created, cancelled, Envelope,
  IdempotencyKey, World, Principal, JobError, job_not_found, job_not_replayable, enqueue_failed,
  QueueCall, find_job, is_terminal, is_immediately_cancellable, is_queue_name, update_job,
}
use audio_book.Jobs.Dto.{JobDto, to_job_dto}
use audio_book.Jobs.Cancel.{
  cancel_job, commit_cancel, cancelled_event, is_live_child, refreshed, cancellation_patch,
}
use audio_book.Jobs.Cancel.Rows.{cancelled_row}
use audio_book.Jobs.Cancel.Outcome.{cancel_job-rows, cancel_job_again, targets}
use audio_book.Jobs.Cancel.Race.{ChildrenShareTenant, cancel_job_tenant, commit_cancel_stale}
use audio_book.Jobs.Gate.{halt_if_cancelled, is_set}
use audio_book.Jobs.Gate.Laws.{cancel_job-halts, cancel_job-lost}
use audio_book.Jobs.Dispatch.{Broker, mark_queued, enqueue, enqueue_processing_job}
use audio_book.Jobs.Dispatch.Sweep.{is_orphan, claim, poll_once, sweep_row, insert_by_age}
use audio_book.Jobs.Dispatch.Sweep.Rows.{dispatchable}
use audio_book.Jobs.Dispatch.Sweep.Laws.{poll_once_drains}
use audio_book.Jobs.Dispatch.Replay.{replay_job, replay_envelope, is_replayable}
use audio_book.Jobs.Dispatch.Replay.Laws.{
  replay_job_adds, replay_job-claimed, replay_job-refused_iff, new_row,
}
use audio_book.Jobs.Dispatch.Replay.{fresh_report}

abbrev envelope : Envelope
envelope = record {
  job_id = 7;
  entity_id = none;
  version_id = none;
  correlation_id = 90;
  causation_id = none;
  tenant_id = 1;
  payload = "{}";
}

-- A job of tenant 1 with an id, a status and a parent.
abbrev job_of : ℕ → JobStatus → Option ℕ → Job
job_of i s parent = record {
  id = i;
  tenant_id = 1;
  book_id = some 50;
  job_type = "generate_tts_chunk";
  status = s;
  status_changed_at = 100;
  queue = "gpu";
  priority = "NORMAL";
  related_resource_type = "book";
  related_resource_id = 50;
  scope = none;
  dispatch_envelope = some envelope;
  parent_job_id = parent;
  max_attempts = 3;
  idempotency_key = IdempotencyKey.given "k";
  idempotency_fingerprint = "f";
  correlation_id = 90;
  causation_id = none;
  forced = false;
  forced_by_user_id = none;
  created_by_user_id = none;
  created_at = 10 + i;
  queued_at = none;
  completed_at = none;
  cancellation_requested = false;
  cancellation_requested_at = none;
  cancellation_requested_by = none;
  cancellation_effective_at = none;
  report = fresh_report;
}

abbrev foreign_job : Job
foreign_job = record (job_of 9 queued none) { tenant_id = 2 }

-- A running coordinator with a queued and a finished child, a dead job, and a job of tenant 2.
abbrev world : World
world = record {
  jobs =
      job_of 7 running none
      ∷ job_of 8 queued (some 7)
      ∷ job_of 6 succeeded (some 7)
      ∷ job_of 5 dead_lettered none
      ∷ foreign_job
      ∷ [];
  outbox = [];
  audit = [];
  flags = [];
  calls = [];
}

abbrev caller : Principal
caller = record { sub = 30; tenant_id = 1 }

abbrev redis_ok : ℕ → ℕ → Bool
redis_ok tenant i = true

abbrev redis_fails : ℕ → ℕ → Bool
redis_fails tenant i = false

abbrev statuses : Result JobError (World × JobDto) → List JobStatus
statuses (ok (w, dto)) = map (λ (j : Job). j.status) w.jobs
statuses (err e) = []

-- The children of the test world belong to their parents' tenant.
children_share : ChildrenShareTenant world.jobs
children_share = ground arith

-- What a request leaves and answers; the arguments stand in for an error.
abbrev left : Result JobError (World × JobDto) → World
left (ok (w, dto)) = w
left (err e) = world

abbrev answer : Result JobError (World × JobDto) → JobDto
answer (ok (w, dto)) = dto
answer (err e) = to_job_dto foreign_job

cancel_job_runs :
    statuses (cancel_job redis_ok 200 caller 7 false false world)
    ≡ running ∷ cancelled ∷ succeeded ∷ dead_lettered ∷ queued ∷ []
unfolding cancel_job commit_cancel refreshed find_job is_terminal is_live_child update_job
    is_immediately_cancellable cancellation_patch
cancel_job_runs = refl

cancel_job-rows_example :
    (w' : World) × (cancel_job redis_ok 200 caller 7 false false world
      ≡ ok (w', to_job_dto (cancelled_row 30 200 7 (job_of 7 running none))))
    × (w'.jobs ≡ map (cancelled_row 30 200 7) world.jobs)
    × (w'.outbox
        ≡ map (cancelled_event 30 200 (job_of 7 running none)) (
            select
              (λ c. is_immediately_cancellable c.status)
              (targets 7 (job_of 7 running none) world.jobs)))
unfolding find_job is_terminal
cancel_job-rows_example =
    cancel_job-rows redis_ok 200 caller false false world (job_of 7 running none) (omega arith) refl
      (inr refl) refl

-- A job of tenant 1 and one of tenant 2 are named by a caller of tenant 1.
cancel_job_tenant_example :
    (find_job 9 (left (cancel_job redis_ok 200 caller 7 false false world)).jobs ≡ some foreign_job)
    × (cancel_job redis_ok 200 caller 9 false false world ≡ err job_not_found)
unfolding cancel_job commit_cancel refreshed find_job is_terminal is_live_child update_job
    is_immediately_cancellable cancellation_patch
cancel_job_tenant_example =
    cancel_job_tenant redis_ok 200 caller 7 false world
      (left (cancel_job redis_ok 200 caller 7 false false world)) foreign_job
      (answer (cancel_job redis_ok 200 caller 7 false false world)) (omega arith) children_share
      refl (omega arith) refl

commit_cancel_stale_example :
    (j : Job) × (find_job 8
        (commit_cancel redis_ok 200 caller false false
          (job_of 8 queued none)
          []
          (record world { jobs = job_of 8 succeeded none ∷ [] })).jobs
      ≡ some j)
    × (j.status ≡ cancelled)
unfolding find_job is_immediately_cancellable
commit_cancel_stale_example =
    commit_cancel_stale redis_ok 200 caller false false (job_of 8 queued none)
      (job_of 8 succeeded none) [] (record world { jobs = job_of 8 succeeded none ∷ [] }) refl refl

cancel_job_again_example :
    cancel_job redis_ok 300 caller 8 false false
      (left (cancel_job redis_ok 200 caller 8 false false world))
    ≡ ok (
      left (cancel_job redis_ok 200 caller 8 false false world),
      answer (cancel_job redis_ok 200 caller 8 false false world),
    )
unfolding cancel_job commit_cancel refreshed find_job is_terminal is_live_child update_job
    is_immediately_cancellable cancellation_patch
cancel_job_again_example =
    cancel_job_again redis_ok 200 300 caller false false world
      (left (cancel_job redis_ok 200 caller 8 false false world)) (job_of 8 queued (some 7))
      (answer (cancel_job redis_ok 200 caller 8 false false world)) (omega arith) refl (inr refl)
      refl refl

cancel_job-halts_example :
    (halt_if_cancelled true 400 7 (left (cancel_job redis_ok 200 caller 7 false false world))).1
    ≡ true
unfolding cancel_job commit_cancel refreshed find_job is_terminal is_live_child update_job
    is_immediately_cancellable cancellation_patch
cancel_job-halts_example =
    cancel_job-halts redis_ok 200 400 caller false false true world
      (left (cancel_job redis_ok 200 caller 7 false false world)) (job_of 7 running none)
      (answer (cancel_job redis_ok 200 caller 7 false false world)) (omega arith) refl (inr refl)
      refl refl (λ up. refl)

cancel_job-lost_example :
    ((answer (cancel_job redis_fails 200 caller 7 false false world)).cancellation.requested ≡ true)
    × ((halt_if_cancelled true 400 7
          (left (cancel_job redis_fails 200 caller 7 false false world))).1
        ≡ false)
unfolding cancel_job commit_cancel refreshed find_job is_terminal is_live_child update_job
    is_immediately_cancellable cancellation_patch is_set
cancel_job-lost_example =
    cancel_job-lost redis_fails 200 400 caller false false world
      (left (cancel_job redis_fails 200 caller 7 false false world)) (job_of 7 running none)
      (answer (cancel_job redis_fails 200 caller 7 false false world)) (omega arith) refl (inr refl)
      refl refl refl refl

-- Envelopes are small, and BullMQ takes all but those of one queue state.
abbrev broker : Broker
broker = record { size_bytes = λ e. 300; accepts = λ e. true }

abbrev down : Broker
down = record { size_bytes = λ e. 300; accepts = λ e. false }

abbrev nobody : Job → Bool
nobody j = false

abbrev orphans : World
orphans = record world { jobs = job_of 3 created none ∷ job_of 2 created none ∷ [] }

poll_once_drains_example :
    All
      (λ j. is_orphan 1000000 30 j ≡ true → (nobody j ≡ true) ⊎ (dispatchable broker j ≡ false))
      (poll_once broker nobody 1000000 30 50 orphans).0.jobs
poll_once_drains_example = poll_once_drains broker nobody 1000000 30 50 orphans (omega arith)

-- The older orphan is dispatched first.
poll_once_runs : (poll_once broker nobody 1000000 30 50 orphans).1 ≡ 2
unfolding poll_once sweep_row enqueue_processing_job is_queue_name insert_by_age
poll_once_runs = refl

replay_job_adds_example :
    (w' : World) × (replay_job broker 500 caller 77 5 world ≡ (
      w',
      ok (
          to_job_dto (
            mark_queued 500
              (new_row broker 500 caller 77 world (job_of 5 dead_lettered none) envelope))),
    ))
    × (w'.jobs
        ≡ world.jobs
          ++ mark_queued 500
              (new_row broker 500 caller 77 world (job_of 5 dead_lettered none) envelope)
            ∷ [])
    × (w'.calls ≡ QueueCall.add "gpu" (replay_envelope 77 envelope) "generate_tts_chunk" 3 ∷ [])
unfolding find_job is_queue_name
replay_job_adds_example =
    replay_job_adds broker 500 caller 77 world (job_of 5 dead_lettered none) envelope refl
      (refl, refl, refl) (omega arith) (omega arith) refl

replay_job-claimed_example :
    let new = new_row down 500 caller 77 world (job_of 5 dead_lettered none) envelope in
    (replay_job down 500 caller 77 5 world
      ≡ (record world { jobs = world.jobs ++ new ∷ [] }, err enqueue_failed))
    × Memᴰ new (claim nobody 40000 30 50 (world.jobs ++ new ∷ []))
unfolding find_job is_queue_name enqueue
replay_job-claimed_example =
    replay_job-claimed down 500 caller 77 world (job_of 5 dead_lettered none) envelope nobody 30
      40000 50 refl (refl, refl, refl) refl refl (omega arith) (omega arith)

replay_job-refused_iff_example :
    (replay_job broker 500 caller 77 7 world ≡ (world, err job_not_replayable))
    ↔ ((is_replayable running && is_some (some envelope) && is_queue_name "gpu") ≡ false)
unfolding find_job
replay_job-refused_iff_example =
    replay_job-refused_iff broker 500 caller 77 world (job_of 7 running none) refl
