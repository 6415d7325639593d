-- ===== src/Jobs/Dto.antt =====
-- `toJobDto` of apps/api/src/jobs/jobs.service.ts: the public job resource. A date is reported as
-- the number that the row holds, and `links` is left out: it is text built from the two ids.
use audio_book.Base.{ℕ, Bool, false, Option, none, some, String, is_some}
use audio_book.Jobs.Model.{Job, JobStatus}

pub record Cancellation : Type 0 where
  pub requested : Bool
  pub requested_at : Option ℕ
  pub requested_by : Option ℕ
  pub effective : Bool

pub record ErrorDto : Type 0 where
  pub code : String
  pub class : Option String
  pub message : Option String
  pub retryable : Bool
  pub terminal : Bool
  pub attempt_number : ℕ

pub record ResultDto : Type 0 where
  pub resource_type : String
  pub id : ℕ
  pub version : Option ℕ

pub record ProgressDto : Type 0 where
  pub value : ℕ
  pub stage : Option String
  pub completed_units : ℕ
  pub total_units : Option ℕ

pub record JobDto : Type 0 where
  pub id : ℕ
  pub job_type : String
  pub status : JobStatus
  pub tenant_id : ℕ
  pub book_id : Option ℕ
  pub related_resource : String × ℕ
  pub parent_job_id : Option ℕ
  pub child_job_count : ℕ
  pub priority : String
  pub queue : String
  pub progress : ProgressDto
  pub blocked_reason : Option String
  pub attempt_count : ℕ
  pub max_attempts : ℕ
  pub retry_count : ℕ
  pub next_attempt_at : Option ℕ
  pub cancellation : Cancellation
  pub error : Option ErrorDto
  pub result : Option ResultDto
  pub idempotency_fingerprint : String
  pub forced : Bool
  pub correlation_id : ℕ
  pub created_at : ℕ
  pub queued_at : Option ℕ
  pub started_at : Option ℕ
  pub completed_at : Option ℕ
  pub heartbeat_at : Option ℕ

abbrev or_false : Option Bool → Bool
or_false none = false
or_false (some b) = b

-- `job.errorCode ? { … } : null`
error_dto : Job → Option String → Option ErrorDto
error_dto job none = none
error_dto job (some code) = some (record {
  code = code;
  class = job.report.error_class;
  message = job.report.error_message;
  retryable = or_false job.report.error_retryable;
  terminal = or_false job.report.error_terminal;
  attempt_number = job.report.attempt_count;
})

-- `job.status === 'SUCCEEDED' && job.resultResourceType && job.resultResourceId ? { … } : null`
result_dto : JobStatus → Option String → Option ℕ → Option ℕ → Option ResultDto
result_dto JobStatus.succeeded (some t) (some i) version =
    some (record { resource_type = t; id = i; version = version })
result_dto _ _ _ version = none

unfoldable pub to_job_dto : Job → JobDto
unfolding error_dto result_dto
to_job_dto job = record {
  id = job.id;
  job_type = job.job_type;
  status = job.status;
  tenant_id = job.tenant_id;
  book_id = job.book_id;
  related_resource = (job.related_resource_type, job.related_resource_id);
  parent_job_id = job.parent_job_id;
  child_job_count = job.report.child_job_count;
  priority = job.priority;
  queue = job.queue;
  progress = record {
    value = job.report.progress;
    stage = job.report.progress_stage;
    completed_units = job.report.completed_units;
    total_units = job.report.total_units;
  };
  blocked_reason = job.report.blocked_reason;
  attempt_count = job.report.attempt_count;
  max_attempts = job.max_attempts;
  retry_count = job.report.retry_count;
  next_attempt_at = job.report.next_attempt_at;
  cancellation = record {
    requested = job.cancellation_requested;
    requested_at = job.cancellation_requested_at;
    requested_by = job.cancellation_requested_by;
    effective = is_some job.cancellation_effective_at;
  };
  error = error_dto job job.report.error_code;
  result =
      result_dto job.status job.report.result_resource_type job.report.result_resource_id
        job.report.result_version;
  idempotency_fingerprint = job.idempotency_fingerprint;
  forced = job.forced;
  correlation_id = job.correlation_id;
  created_at = job.created_at;
  queued_at = job.queued_at;
  started_at = job.report.started_at;
  completed_at = job.completed_at;
  heartbeat_at = job.report.heartbeat_at;
}
