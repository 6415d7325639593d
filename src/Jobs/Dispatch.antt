-- ===== src/Jobs/Dispatch.antt =====
-- Getting a committed job to its queue: packages/queue (payload budget, back-off, `enqueue`,
-- `enqueueProcessingJob`), the sweeper of apps/worker-cpu/src/processing-job-sweeper.ts that
-- re-dispatches orphans, and `replayJob` of apps/api/src/jobs/jobs.service.ts.
pub mod Sweep
pub mod Replay
use audio_book.Base.{
  ℕ, ◌+◌, ◌-◌, ◌*◌, ◌/◌, ◌^◌, Bool, true, false, Option, none, some, String, List, [], ◌∷◌, ◌++◌,
  ltb, leb, if◌then◌else◌,
}
use Prim.Native.Nat.{min}
use audio_book.Jobs.Model.{Job, Envelope, World, QueueCall, update_job}

abbrev pub queue_payload_ceiling_bytes : ℕ
queue_payload_ceiling_bytes = 65536

-- The ceiling of the jitter: `Math.min(baseMs * 2 ** Math.max(attempt - 1, 0), ceilingMs)`.
unfoldable pub jitter_ceiling : ℕ → ℕ → ℕ → ℕ
jitter_ceiling attempt base_ms ceiling_ms = min (base_ms * 2 ^ (attempt - 1)) ceiling_ms

-- `Math.floor(Math.random() * exponential)`: `Math.random()` is the fraction `random / scale`.
unfoldable pub full_jitter_backoff_ms : ℕ → ℕ → ℕ → ℕ → ℕ → ℕ
unfolding jitter_ceiling
full_jitter_backoff_ms random scale attempt base_ms ceiling_ms =
    random * jitter_ceiling attempt base_ms ceiling_ms / scale

-- The handler of a worker's 'failed' event: whether this attempt is the last, so that the job is
-- copied to the dead-letter queue. `attempts` is `job.opts.attempts`.
unfoldable pub is_final_attempt : Option ℕ → ℕ → ℕ → Bool
is_final_attempt none max_attempts made = leb max_attempts made
is_final_attempt (some attempts) max_attempts made = leb attempts made

-- What the program does not implement: the size of an envelope as JSON in UTF-8, and whether the
-- call of BullMQ with it succeeds.
pub record Broker : Type 0 where
  pub size_bytes : Envelope → ℕ
  pub accepts : Envelope → Bool

-- `assertQueuePayloadSizeBudget` and `queue.add`; nothing where either throws.
unfoldable pub enqueue :
    Broker → String → Envelope → String → ℕ → List QueueCall → Option (List QueueCall)
enqueue broker queue envelope job_name max_attempts calls =
    if ltb queue_payload_ceiling_bytes (broker.size_bytes envelope)
    then none
    else if broker.accepts envelope
    then some (calls ++ QueueCall.add queue envelope job_name max_attempts ∷ [])
    else none

unfoldable pub mark_queued : ℕ → Job → Job
mark_queued now j = record j { queued_at = some now }

-- `enqueueProcessingJob`: enqueue, then mark; nothing where the enqueue throws.
unfoldable pub enqueue_processing_job :
    Broker → ℕ → ℕ → String → Envelope → String → ℕ → World → Option World
unfolding enqueue mark_queued
enqueue_processing_job broker now id queue envelope job_name max_attempts w =
    elim (enqueue broker queue envelope job_name max_attempts w.calls) [
      | none ↦ none
      | some calls' ↦
          some (record w { calls = calls'; jobs = update_job id (mark_queued now) w.jobs })
    ]
