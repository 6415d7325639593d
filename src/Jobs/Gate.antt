-- ===== src/Jobs/Gate.antt =====
-- The worker's half of cancellation: `isCancellationRequested` of packages/queue/src/cancellation.ts
-- and `haltIfCancelled` of apps/worker-cpu/src/cancellation-gate.ts.
pub mod Laws
use audio_book.Base.{
  ℕ, Bool, true, false, ◌&&◌, ltb, Option, none, some, List, [], ◌∷◌, ◌++◌, ◌==◌, if◌then◌else◌,
}
use audio_book.Jobs.Model.{Job, JobStatus, cancelled, World, OutboxRow, find_job, update_job}

-- `RedisCancellationFlags.isSet`: the key holds the tenant and the job. The newest value of a key
-- stands first, and Redis drops it when it expires.
unfoldable pub is_set : ℕ → ℕ → ℕ → List (ℕ × ℕ × ℕ) → Bool
is_set now tenant i [] = false
is_set now tenant i ((t, j, expires_at) ∷ flags) =
    let rest = is_set now tenant i flags in
    if t == tenant && j == i then ltb now expires_at else rest

-- `flags` is what Redis answers: nothing when the store is absent or the read throws.
unfoldable pub is_cancellation_requested : Option Bool → Bool → Bool
is_cancellation_requested (some set) durable = set
is_cancellation_requested none durable = durable

abbrev pub is_cancelled : JobStatus → Bool
is_cancelled cancelled = true
is_cancelled _ = false

-- The row as the worker leaves it when it acknowledges.
unfoldable pub acknowledge : ℕ → Job → Job
acknowledge now j = record j {
  status = cancelled;
  status_changed_at = now;
  completed_at = some now;
  cancellation_requested = true;
  cancellation_effective_at = some now;
}

unfoldable pub acknowledged_event : ℕ → Job → OutboxRow
acknowledged_event now job = record {
  event_type = "job.cancelled";
  tenant_id = job.tenant_id;
  book_id = job.book_id;
  job_id = job.id;
  correlation_id = job.correlation_id;
  causation_id = job.correlation_id;
  producer = "worker-cpu";
  aggregate_type = "job";
  aggregate_id = job.id;
  cancelled_by_user_id = none;
  effective_at = now;
}

-- `redis_up` says whether the read of the flag succeeds.
unfoldable pub halt_if_cancelled : Bool → ℕ → ℕ → World → World × Bool
unfolding is_cancellation_requested is_set acknowledge acknowledged_event
halt_if_cancelled redis_up now i w = elim (find_job i w.jobs) [
  | none ↦ (w, false)
  | some job ↦
      if is_cancelled job.status
      then (w, true)
      else if is_cancellation_requested
          (if redis_up then some (is_set now job.tenant_id job.id w.flags) else none)
          job.cancellation_requested
      then (
        record w {
          jobs = update_job job.id (acknowledge now) w.jobs;
          outbox = w.outbox ++ acknowledged_event now job ∷ [];
        },
        true,
      )
      else (w, false)
]
