-- ===== src/Jobs/Model.antt =====
-- The rows and stores that the job code works on. An identifier is a UUIDv7 that the code only
-- compares, so it is a number; so is a date, in microseconds as
-- the columns keep it. JSON columns are opaque texts.
use audio_book.Base.{
  ℕ, Bool, true, false, Option, none, some, String, List, [], ◌∷◌, ◌==◌, str_eq, any, map,
  if◌then◌else◌,
}

pub data JobStatus : Type 0 where
  created queued running retrying blocked succeeded failed cancelled dead_lettered : JobStatus

-- `TERMINAL_JOB_STATUSES.includes(status)`
unfoldable pub is_terminal : JobStatus → Bool
is_terminal succeeded = true
is_terminal failed = true
is_terminal cancelled = true
is_terminal dead_lettered = true
is_terminal created = false
is_terminal queued = false
is_terminal running = false
is_terminal retrying = false
is_terminal blocked = false

-- `IMMEDIATELY_CANCELLABLE.includes(status)`
unfoldable pub is_immediately_cancellable : JobStatus → Bool
is_immediately_cancellable created = true
is_immediately_cancellable queued = true
is_immediately_cancellable blocked = true
is_immediately_cancellable retrying = true
is_immediately_cancellable running = false
is_immediately_cancellable succeeded = false
is_immediately_cancellable failed = false
is_immediately_cancellable cancelled = false
is_immediately_cancellable dead_lettered = false

-- `QUEUE_NAMES` of packages/queue/src/names.ts
abbrev pub queue_names : List String
queue_names = "parse" ∷ "ai" ∷ "gpu" ∷ "audio" ∷ "maintenance" ∷ []

unfoldable pub is_queue_name : String → Bool
is_queue_name value = any (λ q. str_eq value q) queue_names

-- `QueueJobEnvelope` of packages/queue/src/job-payload.ts
pub record Envelope : Type 0 where
  pub job_id : ℕ
  pub entity_id : Option ℕ
  pub version_id : Option ℕ
  pub correlation_id : ℕ
  pub causation_id : Option ℕ
  pub tenant_id : ℕ
  pub payload : String

-- `idempotency_key`: the caller's own, or the key that a replay mints from two identifiers.
pub data IdempotencyKey : Type 0 where
  given : String → IdempotencyKey
  replay : ℕ → ℕ → IdempotencyKey

-- The columns of `processing_job` that the workers write and this code only reports.
pub record Report : Type 0 where
  pub child_job_count : ℕ
  pub progress : ℕ
  pub progress_stage : Option String
  pub completed_units : ℕ
  pub total_units : Option ℕ
  pub attempt_count : ℕ
  pub retry_count : ℕ
  pub next_attempt_at : Option ℕ
  pub blocked_reason : Option String
  pub error_code : Option String
  pub error_class : Option String
  pub error_message : Option String
  pub error_retryable : Option Bool
  pub error_terminal : Option Bool
  pub result_resource_type : Option String
  pub result_resource_id : Option ℕ
  pub result_version : Option ℕ
  pub started_at : Option ℕ
  pub heartbeat_at : Option ℕ

-- The columns of `processing_job` that this code reads or writes.
pub record Job : Type 0 where
  pub id : ℕ
  pub tenant_id : ℕ
  pub book_id : Option ℕ
  pub job_type : String
  pub status : JobStatus
  pub status_changed_at : ℕ
  pub queue : String
  pub priority : String
  pub related_resource_type : String
  pub related_resource_id : ℕ
  pub scope : Option String
  pub dispatch_envelope : Option Envelope
  pub parent_job_id : Option ℕ
  pub max_attempts : ℕ
  pub idempotency_key : IdempotencyKey
  pub idempotency_fingerprint : String
  pub correlation_id : ℕ
  pub causation_id : Option ℕ
  pub forced : Bool
  pub forced_by_user_id : Option ℕ
  pub created_by_user_id : Option ℕ
  pub created_at : ℕ
  pub queued_at : Option ℕ
  pub completed_at : Option ℕ
  pub cancellation_requested : Bool
  pub cancellation_requested_at : Option ℕ
  pub cancellation_requested_by : Option ℕ
  pub cancellation_effective_at : Option ℕ
  pub report : Report

-- A `job.cancelled` row of the outbox: the fields that its writers vary.
pub record OutboxRow : Type 0 where
  pub event_type : String
  pub tenant_id : ℕ
  pub book_id : Option ℕ
  pub job_id : ℕ
  pub correlation_id : ℕ
  pub causation_id : ℕ
  pub producer : String
  pub aggregate_type : String
  pub aggregate_id : ℕ
  pub cancelled_by_user_id : Option ℕ
  pub effective_at : ℕ

pub record AuditRow : Type 0 where
  pub action : String
  pub user_id : ℕ
  pub resource_id : ℕ
  pub book_id : Option ℕ
  pub tenant_id : ℕ
  pub previous_status : JobStatus
  pub effective : Bool
  pub cascaded_child_count : ℕ
  pub cross_tenant : Bool
  pub has_reason : Bool
  pub replayed_from : Option ℕ

-- A call of BullMQ, in the order in which it is made.
pub data QueueCall : Type 0 where
  add : String → Envelope → String → ℕ → QueueCall
  remove : String → ℕ → QueueCall

-- PostgreSQL, the Redis cancellation flags (tenant, job, expiry), and the calls made of BullMQ.
pub record World : Type 0 where
  pub jobs : List Job
  pub outbox : List OutboxRow
  pub audit : List AuditRow
  pub flags : List (ℕ × ℕ × ℕ)
  pub calls : List QueueCall

pub record Principal : Type 0 where
  pub sub : ℕ
  pub tenant_id : ℕ

pub data JobError : Type 0 where
  job_not_found job_not_replayable record_not_found : JobError
  enqueue_failed : JobError

-- `findUnique({ where: { id } })`
unfoldable pub find_job : ℕ → List Job → Option Job
find_job i [] = none
find_job i (j ∷ js) = if j.id == i then some j else find_job i js

-- `update({ where: { id }, data })`
unfoldable pub update_job : ℕ → (Job → Job) → List Job → List Job
update_job i f jobs = map (λ j. if j.id == i then f j else j) jobs
