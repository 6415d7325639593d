-- ===== src/Jobs/Dispatch/Sweep.antt =====
-- `ProcessingJobSweeper.pollOnce` of apps/worker-cpu/src/processing-job-sweeper.ts: jobs that were
-- committed but never reached their queue are dispatched from their own envelope.
pub mod Rows
pub mod Laws
use audio_book.Base.{
  ℕ, suc, ◌+◌, ◌*◌, Bool, true, false, ◌&&◌, not, Option, none, some, List, [], ◌∷◌, leb, ltb,
  select, take, is_some, if◌then◌else◌,
}
use audio_book.Jobs.Model.{Job, JobStatus, created, Envelope, World, is_queue_name}
use audio_book.Jobs.Dispatch.{Broker, enqueue_processing_job}

abbrev pub is_created : JobStatus → Bool
is_created created = true
is_created _ = false

-- The query's `WHERE`: `created_at < now() - staleAfterMs`.
unfoldable pub is_orphan : ℕ → ℕ → Job → Bool
is_orphan now stale_after_ms j =
    is_created j.status
    && not (is_some j.queued_at)
    && is_some j.dispatch_envelope
    && ltb (j.created_at + stale_after_ms * 1000) now

-- `ORDER BY created_at`
unfoldable pub insert_by_age : Job → List Job → List Job
insert_by_age j [] = j ∷ []
insert_by_age j (k ∷ ks) =
    let rest = insert_by_age j ks in if leb j.created_at k.created_at then j ∷ k ∷ ks else k ∷ rest

unfoldable pub by_age : List Job → List Job
by_age [] = []
by_age (j ∷ js) = insert_by_age j (by_age js)

-- The rows claimed: `locked` says which rows another sweeper holds (`SKIP LOCKED`).
unfoldable pub claim : (Job → Bool) → ℕ → ℕ → ℕ → List Job → List Job
unfolding by_age is_orphan
claim locked now stale_after_ms batch_size jobs =
    take batch_size (by_age (select (λ j. is_orphan now stale_after_ms j && not (locked j)) jobs))

-- One row: an unknown queue and a failed enqueue leave it to a later poll.
unfoldable pub sweep_row : Broker → ℕ → Job → World × ℕ → World × ℕ
unfolding is_queue_name
sweep_row broker now row (w, dispatched) = elim row.dispatch_envelope [
  | none ↦ (w, dispatched)
  | some envelope ↦
      if is_queue_name row.queue
      then elim (enqueue_processing_job broker now row.id row.queue envelope row.job_type
          row.max_attempts w) [ none ↦ (w, dispatched) | some w' ↦ (w', suc dispatched) ]
      else (w, dispatched)
]

unfoldable pub sweep_rows : Broker → ℕ → List Job → World × ℕ → World × ℕ
sweep_rows broker now [] s = s
sweep_rows broker now (row ∷ rows) s = sweep_rows broker now rows (sweep_row broker now row s)

unfoldable pub poll_once : Broker → (Job → Bool) → ℕ → ℕ → ℕ → World → World × ℕ
unfolding sweep_rows claim
poll_once broker locked now stale_after_ms batch_size w =
    sweep_rows broker now (claim locked now stale_after_ms batch_size w.jobs) (w, 0)
