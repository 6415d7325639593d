-- ===== src/Jobs/Dispatch/Replay/Laws.antt =====
-- When a replay is refused, what it creates, and that a lost dispatch is recovered.
use mathlib.Core.List.{Memᴰ}
use audio_book.Base.{
  Bool, none, false, length, length-append, Memᴰ-append_right, ◌*◌, ℕ, ◌+◌, ◌<◌, true, ◌&&◌, some,
  List, [], ◌∷◌, ◌++◌, ◌≡◌, ◌≢◌, ◌↔◌, refl, ap, ◌∙◌, All, arith, is_some, ok, err,
}
use audio_book.Jobs.Model.{
  Job, Envelope, World, Principal, job_not_replayable, enqueue_failed, find_job, is_queue_name,
  update_job, QueueCall,
}
use audio_book.Jobs.Dto.{to_job_dto}
use audio_book.Jobs.Dispatch.{
  Broker, enqueue, enqueue_processing_job, mark_queued, queue_payload_ceiling_bytes,
}
use audio_book.Jobs.Dispatch.Sweep.{is_orphan, claim}
use audio_book.Jobs.Dispatch.Sweep.Laws.{claim-Memᴰ}
use audio_book.Jobs.Dispatch.Replay.{
  is_replayable, replayed, replay_envelope, replay_audit, create_and_enqueue, replay_job,
}

-- The new row is found under its id, where no row has it yet.
find_job-append :
    (new : Job) (js : List Job)
    → All (λ k. k.id ≢ new.id) js
    → find_job new.id (js ++ new ∷ []) ≡ some new
unfolding find_job
find_job-append new [] h = ground arith
find_job-append new (j ∷ js) (p, h) = ground (arith, find_job-append new js h)

update_job_absent :
    (i : ℕ) (f : Job → Job) (js : List Job) → All (λ k. k.id ≢ i) js → update_job i f js ≡ js
unfolding update_job
update_job_absent i f [] h = refl
update_job_absent i f (j ∷ js) (p, h) = ground (arith, update_job_absent i f js h)

update_job-append :
    (i : ℕ) (f : Job → Job) (js : List Job) (new : Job)
    → All (λ k. k.id ≢ i) js
    → new.id ≡ i
    → update_job i f (js ++ new ∷ []) ≡ js ++ f new ∷ []
unfolding update_job
update_job-append i f [] new h e = ground arith
update_job-append i f (j ∷ js) new (p, h) e = ground (arith, update_job-append i f js new h e)

-- The original allows a replay.
abbrev pub CanReplay : Job → Envelope → Type 0
CanReplay original stored =
    (is_replayable original.status ≡ true)
    × (original.dispatch_envelope ≡ some stored)
    × (is_queue_name original.queue ≡ true)

module _ (broker : Broker) (now : ℕ) (p : Principal) (new_id : ℕ) (w : World) (original : Job)
    (stored : Envelope) where
  abbrev pub new_row : Job
  new_row = replayed p now new_id original (replay_envelope new_id stored)

  replay_job_creates :
      find_job original.id w.jobs ≡ some original
      → CanReplay original stored
      → replay_job broker now p new_id original.id w
        ≡ create_and_enqueue broker now p new_id original stored w
  unfolding replay_job
  replay_job_creates f (status, envelope, queue) =
      rw (f, replay_job) (rw status (rw envelope (rw queue)))

  enqueue_accepted :
      (e : Envelope) (calls : List QueueCall)
      → broker.size_bytes e < queue_payload_ceiling_bytes + 1
      → broker.accepts e ≡ true
      → enqueue broker original.queue e original.job_type original.max_attempts calls
        ≡ some
            (calls ++ QueueCall.add original.queue e original.job_type original.max_attempts ∷ [])
  unfolding enqueue
  enqueue_accepted e calls small taken = ground arith

  enqueued :
      (i : ℕ) (e : Envelope) (v : World) (calls : List QueueCall)
      → enqueue broker original.queue e original.job_type original.max_attempts v.calls ≡ some calls
      → enqueue_processing_job broker now i original.queue e original.job_type original.max_attempts
          v
        ≡ some (record v { calls = calls; jobs = update_job i (mark_queued now) v.jobs })
  unfolding enqueue_processing_job
  enqueued i e v calls h = rw (h, enqueue_processing_job)

  -- Replaying a dead-lettered or failed job that has its envelope and a known queue, with an id that
  -- no row has: every old row stays as it is, the original included, one queued row is added with
  -- the original's envelope under the new id, and the queue is called once, with that envelope.
  pub replay_job_adds :
      find_job original.id w.jobs ≡ some original
      → CanReplay original stored
      → All (λ k. k.id ≢ new_id) w.jobs
      → broker.size_bytes (replay_envelope new_id stored) < queue_payload_ceiling_bytes + 1
      → broker.accepts (replay_envelope new_id stored) ≡ true
      → (w' : World) × (replay_job broker now p new_id original.id w
          ≡ (w', ok (to_job_dto (mark_queued now new_row))))
        × (w'.jobs ≡ w.jobs ++ mark_queued now new_row ∷ [])
        × (w'.calls
            ≡ w.calls
              ++ QueueCall.add original.queue
                  (replay_envelope new_id stored)
                  original.job_type
                  original.max_attempts
                ∷ [])
  unfolding create_and_enqueue mark_queued
  replay_job_adds f can fresh small accepted = (
    record w {
      jobs = w.jobs ++ mark_queued now new_row ∷ [];
      audit = w.audit ++ replay_audit p new_id original ∷ [];
      calls =
          w.calls
          ++ QueueCall.add original.queue (replay_envelope new_id stored) original.job_type
              original.max_attempts
            ∷ [];
    },
    replay_job_creates f can
        ∙ rw
            (
              enqueued new_id (replay_envelope new_id stored)
                  (record w { jobs = w.jobs ++ new_row ∷ [] }) _
                  (enqueue_accepted (replay_envelope new_id stored) w.calls small accepted),
              create_and_enqueue,
            )
            (rw
              (ap (find_job new_id)
                  (update_job-append new_id (mark_queued now) w.jobs new_row fresh refl)
                ∙ find_job-append (mark_queued now new_row) w.jobs fresh)
              (rw (update_job-append new_id (mark_queued now) w.jobs new_row fresh refl))),
    refl,
    refl,
  )

  orphaned :
      (stale later : ℕ)
      → CanReplay original stored
      → now + stale * 1000 < later
      → is_orphan later stale new_row ≡ true
  unfolding is_orphan replayed
  orphaned stale later can old = ground arith

  -- Where the enqueue fails, because the envelope is too large or the queue does not take it, the
  -- replay answers an error and the new row stays, unqueued. A sweeper's poll that comes later than
  -- its threshold, finds the row not locked and has a batch as large as the table claims the row.
  pub replay_job-claimed :
      (locked : Job → Bool) (stale later batch : ℕ)
      → find_job original.id w.jobs ≡ some original
      → CanReplay original stored
      → enqueue broker original.queue
          (replay_envelope new_id stored)
          original.job_type
          original.max_attempts
          w.calls
        ≡ none
      → locked new_row ≡ false
      → now + stale * 1000 < later
      → length w.jobs < batch
      → (replay_job broker now p new_id original.id w
          ≡ (record w { jobs = w.jobs ++ new_row ∷ [] }, err enqueue_failed))
        × Memᴰ new_row (claim locked later stale batch (w.jobs ++ new_row ∷ []))
  unfolding create_and_enqueue enqueue_processing_job replayed
  replay_job-claimed locked stale later batch f can refused free old big = (
    replay_job_creates f can ∙ rw (refused, create_and_enqueue, enqueue_processing_job) refl,
    claim-Memᴰ locked later stale batch (w.jobs ++ new_row ∷ [])
        (omega (arith, length-append w.jobs (new_row ∷ []), big)) new_row
        (Memᴰ-append_right w.jobs (new_row ∷ []) (Memᴰ.head refl)) (orphaned stale later can old)
        free,
  )

-- A replay is refused, and nothing is written, exactly when the original is neither dead-lettered
-- nor failed, or has no envelope, or names an unknown queue.
pub replay_job-refused_iff :
    (broker : Broker) (now : ℕ) (p : Principal) (new_id : ℕ) (w : World) (original : Job)
    → find_job original.id w.jobs ≡ some original
    → (replay_job broker now p new_id original.id w ≡ (w, err job_not_replayable)) ↔ (
        (is_replayable original.status
          && is_some original.dispatch_envelope
          && is_queue_name original.queue)
        ≡ false)
unfolding replay_job create_and_enqueue
replay_job-refused_iff broker now p new_id w original f = (ground arith, ground arith)
