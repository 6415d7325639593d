-- ===== src/Jobs/Cancel.antt =====
-- `cancelJob` of apps/api/src/jobs/jobs.service.ts. It reads the job and its live children, then
-- writes all of them in one transaction, then removes queued work and sets the Redis flags.
pub mod Rows
pub mod Outcome
pub mod Race
use audio_book.Base.{
  ℕ, ◌+◌, Bool, true, false, ◌&&◌, not, Option, none, some, String, List, [], ◌∷◌, ◌++◌, ◌==◌, map,
  select, length, Result, ok, err, ◌>>=◌, if◌then◌else◌,
}
use audio_book.Jobs.Model.{
  Job, JobStatus, cancelled, World, Principal, JobError, job_not_found, record_not_found, OutboxRow,
  AuditRow, QueueCall, is_terminal, is_immediately_cancellable, is_queue_name, find_job, update_job,
}
use audio_book.Jobs.Dto.{JobDto, to_job_dto}

-- `cancellationPatch(userId, now, immediate)`, applied to a row.
unfoldable pub cancellation_patch : ℕ → ℕ → Bool → Job → Job
cancellation_patch user now immediate j =
    let base = record j {
      cancellation_requested = true;
      cancellation_requested_at = some now;
      cancellation_requested_by = some user;
    } in
    if immediate
    then record base {
      status = cancelled;
      status_changed_at = now;
      completed_at = some now;
      cancellation_effective_at = some now;
    }
    else base

unfoldable pub require_any_job : ℕ → World → Result JobError Job
require_any_job i w = elim (find_job i w.jobs) [ none ↦ err job_not_found | some j ↦ ok j ]

-- `findFirst({ where: { id, tenantId } })`: an id is a primary key, so the one row with the id is
-- found if its tenant is the caller's.
unfoldable pub require_owned_job : Principal → ℕ → World → Result JobError Job
require_owned_job p i w = elim (find_job i w.jobs) [
  | none ↦ err job_not_found
  | some j ↦ if j.tenant_id == p.tenant_id then ok j else err job_not_found
]

abbrev pub is_parent : ℕ → Option ℕ → Bool
is_parent i none = false
is_parent i (some k) = k == i

-- `parentJobId: jobId, status: { notIn: [...TERMINAL_JOB_STATUSES] }`
unfoldable pub is_live_child : ℕ → Job → Bool
is_live_child i j = is_parent i j.parent_job_id && not (is_terminal j.status)

-- The transaction's writes to the jobs of one request, and the two lists that it fills.
pub record Batch : Type 0 where
  pub jobs : List Job
  pub cancelled_immediately : List Job
  pub requested_only : List Job

-- One job of the transaction: `update`, then `push` onto one of the lists. `read` is the row as it
-- was read before the transaction.
unfoldable pub cancel_row : ℕ → ℕ → Job → Batch → Batch
cancel_row user now read b =
    let immediate = is_immediately_cancellable read.status in
    record {
      jobs = update_job read.id (cancellation_patch user now immediate) b.jobs;
      cancelled_immediately =
          if immediate then b.cancelled_immediately ++ read ∷ [] else b.cancelled_immediately;
      requested_only = if immediate then b.requested_only else b.requested_only ++ read ∷ [];
    }

-- The loop over the children, and then the job itself (`children ++ job`).
unfoldable pub cancel_rows : ℕ → ℕ → List Job → Batch → Batch
cancel_rows user now [] b = b
cancel_rows user now (c ∷ cs) b = cancel_rows user now cs (cancel_row user now c b)

-- The `job.cancelled` message of a job that was cancelled outright; `job` is the requested one.
unfoldable pub cancelled_event : ℕ → ℕ → Job → Job → OutboxRow
cancelled_event user now job c = record {
  event_type = "job.cancelled";
  tenant_id = c.tenant_id;
  book_id = job.book_id;
  job_id = c.id;
  correlation_id = job.correlation_id;
  causation_id = job.correlation_id;
  producer = "api";
  aggregate_type = "job";
  aggregate_id = c.id;
  cancelled_by_user_id = some user;
  effective_at = now;
}

-- The clean-up after the commit: `removeQueuedJob` for a job on a known queue.
unfoldable pub removals : List Job → List QueueCall
removals [] = []
removals (c ∷ cs) =
    if is_queue_name c.queue then QueueCall.remove c.queue c.id ∷ removals cs else removals cs

-- `CANCELLATION_FLAG_TTL_SECONDS`, in microseconds.
abbrev pub cancellation_flag_ttl : ℕ
cancellation_flag_ttl = 86400000000

-- `cancellationFlags.set(tenantId, id).catch(() => undefined)`: `set_ok` says which writes Redis
-- takes, and a failed one is swallowed. A flag expires; it is written at the time of the request.
unfoldable pub set_flags : ℕ → (ℕ → ℕ → Bool) → List Job → List (ℕ × ℕ × ℕ) → List (ℕ × ℕ × ℕ)
set_flags now set_ok [] flags = flags
set_flags now set_ok (c ∷ cs) flags = set_flags now set_ok cs (
    if set_ok c.tenant_id c.id
    then (c.tenant_id, c.id, now + cancellation_flag_ttl) ∷ flags
    else flags)

unfoldable pub cancel_audit : Principal → Bool → Bool → Job → List Job → AuditRow
cancel_audit p has_reason cross_tenant job children = record {
  action = "JOB_CANCELLED";
  user_id = p.sub;
  resource_id = job.id;
  book_id = job.book_id;
  tenant_id = job.tenant_id;
  previous_status = job.status;
  effective = is_immediately_cancellable job.status;
  cascaded_child_count = length children;
  cross_tenant = cross_tenant;
  has_reason = has_reason;
  replayed_from = none;
}

-- What follows the reads: `job` and `children` are the rows as read, `w` the world at the commit.
unfoldable pub commit_cancel :
    (ℕ → ℕ → Bool) → ℕ → Principal → Bool → Bool → Job → List Job → World → World
unfolding cancel_rows cancel_row cancelled_event removals set_flags cancel_audit
commit_cancel set_ok now p has_reason cross_tenant job children w =
    let b =
      cancel_rows p.sub now (children ++ job ∷ [])
        (record { jobs = w.jobs; cancelled_immediately = []; requested_only = [] }) in
    record {
      jobs = b.jobs;
      outbox = w.outbox ++ map (cancelled_event p.sub now job) b.cancelled_immediately;
      audit = w.audit ++ cancel_audit p has_reason cross_tenant job children ∷ [];
      flags = set_flags now set_ok (b.cancelled_immediately ++ b.requested_only) w.flags;
      calls = w.calls ++ removals b.cancelled_immediately;
    }

-- `findUniqueOrThrow` and `toJobDto` at the end.
unfoldable pub refreshed : ℕ → World → Result JobError (World × JobDto)
refreshed i w = elim (find_job i w.jobs) [
  | none ↦ err record_not_found
  | some j ↦ ok (w, to_job_dto j)
]

unfoldable pub cancel_job :
    (ℕ → ℕ → Bool) → ℕ → Principal → ℕ → Bool → Bool → World → Result JobError (World × JobDto)
unfolding require_any_job require_owned_job
cancel_job set_ok now p i has_reason cross_tenant w = do
  job ← if cross_tenant then require_any_job i w else require_owned_job p i w
  let children = select (is_live_child i) w.jobs
  if is_terminal job.status
      then ok (w, to_job_dto job)
      else refreshed i (commit_cancel set_ok now p has_reason cross_tenant job children w)
