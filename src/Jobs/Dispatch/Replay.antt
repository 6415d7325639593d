-- ===== src/Jobs/Dispatch/Replay.antt =====
-- `replayJob` of apps/api/src/jobs/jobs.service.ts: an operator's replay of a dead-lettered job.
pub mod Laws
use audio_book.Base.{
  ℕ, Bool, true, false, ◌||◌, not, Option, none, some, List, [], ◌∷◌, ◌++◌, Result, ok, err,
  if◌then◌else◌,
}
use audio_book.Jobs.Model.{
  Job, JobStatus, created, failed, dead_lettered, Envelope, IdempotencyKey, Report, World,
  Principal, AuditRow, JobError, job_not_found, job_not_replayable, record_not_found,
  enqueue_failed, find_job, is_queue_name,
}
use audio_book.Jobs.Dto.{JobDto, to_job_dto}
use audio_book.Jobs.Dispatch.{Broker, enqueue_processing_job}

abbrev pub is_replayable : JobStatus → Bool
is_replayable dead_lettered = true
is_replayable failed = true
is_replayable _ = false

-- The columns that `create` leaves to their defaults.
abbrev pub fresh_report : Report
fresh_report = record {
  child_job_count = 0;
  progress = 0;
  progress_stage = none;
  completed_units = 0;
  total_units = none;
  attempt_count = 0;
  retry_count = 0;
  next_attempt_at = none;
  blocked_reason = none;
  error_code = none;
  error_class = none;
  error_message = none;
  error_retryable = none;
  error_terminal = none;
  result_resource_type = none;
  result_resource_id = none;
  result_version = none;
  started_at = none;
  heartbeat_at = none;
}

-- `{ ...original.dispatchEnvelope, job_id: newJobId }`
unfoldable pub replay_envelope : ℕ → Envelope → Envelope
replay_envelope new_id e = record e { job_id = new_id }

-- The new row.
unfoldable pub replayed : Principal → ℕ → ℕ → Job → Envelope → Job
replayed p now new_id original envelope = record {
  id = new_id;
  tenant_id = original.tenant_id;
  book_id = original.book_id;
  job_type = original.job_type;
  status = created;
  status_changed_at = now;
  queue = original.queue;
  priority = original.priority;
  related_resource_type = original.related_resource_type;
  related_resource_id = original.related_resource_id;
  scope = original.scope;
  dispatch_envelope = some envelope;
  parent_job_id = none;
  max_attempts = original.max_attempts;
  idempotency_key = IdempotencyKey.replay original.id new_id;
  idempotency_fingerprint = original.idempotency_fingerprint;
  correlation_id = original.correlation_id;
  causation_id = some original.id;
  forced = true;
  forced_by_user_id = some p.sub;
  created_by_user_id = some p.sub;
  created_at = now;
  queued_at = none;
  completed_at = none;
  cancellation_requested = false;
  cancellation_requested_at = none;
  cancellation_requested_by = none;
  cancellation_effective_at = none;
  report = fresh_report;
}

unfoldable pub replay_audit : Principal → ℕ → Job → AuditRow
replay_audit p new_id original = record {
  action = "JOB_REPLAYED";
  user_id = p.sub;
  resource_id = new_id;
  book_id = original.book_id;
  tenant_id = original.tenant_id;
  previous_status = original.status;
  effective = false;
  cascaded_child_count = 0;
  cross_tenant = false;
  has_reason = false;
  replayed_from = some original.id;
}

-- From the `create` on: where the enqueue throws, the row stays.
unfoldable pub create_and_enqueue :
    Broker → ℕ → Principal → ℕ → Job → Envelope → World → World × Result JobError JobDto
unfolding replayed replay_envelope replay_audit
create_and_enqueue broker now p new_id original stored w =
    let envelope = replay_envelope new_id stored in
    let w1 = record w { jobs = w.jobs ++ replayed p now new_id original envelope ∷ [] } in
    elim (enqueue_processing_job broker now new_id original.queue envelope original.job_type
      original.max_attempts w1) [
        | none ↦ (w1, err enqueue_failed)
        | some w2 ↦
            let w3 = record w2 { audit = w2.audit ++ replay_audit p new_id original ∷ [] } in
            elim (find_job new_id w3.jobs) [
              | none ↦ (w3, err record_not_found)
              | some row ↦ (w3, ok (to_job_dto row))
            ]
      ]

-- `new_id` is what `generateId()` returns.
unfoldable pub replay_job : Broker → ℕ → Principal → ℕ → ℕ → World → World × Result JobError JobDto
unfolding create_and_enqueue
replay_job broker now p new_id i w = elim (find_job i w.jobs) [
  | none ↦ (w, err job_not_found)
  | some original ↦
      if is_replayable original.status
      then elim original.dispatch_envelope [
        | none ↦ (w, err job_not_replayable)
        | some stored ↦
            if is_queue_name original.queue
            then create_and_enqueue broker now p new_id original stored w
            else (w, err job_not_replayable)
      ]
      else (w, err job_not_replayable)
]
