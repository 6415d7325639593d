-- ===== src/Jobs/Dispatch/Sweep/Rows.antt =====
-- The effect of the sweeper's loop on each row of the table and on the calls of the queue.
use mathlib.Core.Path.{fun_ext}
use mathlib.Core.List.{Memᴰ, map-map, map-id, append-nil, append_assoc}
use audio_book.Base.{
  ℕ, suc, ◌+◌, Bool, true, false, ◌&&◌, not, none, some, List, [], ◌∷◌, ◌++◌, ◌==◌, ◌≡◌, refl, sym,
  ap, ◌∙◌, subst, map, length, select, arith, ltb, inl, inr, Bool-cases, if◌then◌else◌, is_some,
}
use audio_book.Jobs.Model.{Job, World, QueueCall, is_queue_name, update_job}
use audio_book.Jobs.Dispatch.{
  Broker, enqueue_processing_job, mark_queued, queue_payload_ceiling_bytes,
}
use audio_book.Jobs.Dispatch.Sweep.{sweep_row, sweep_rows}

-- The row names a queue of this build, its envelope is within the budget, and BullMQ takes it.
unfoldable pub dispatchable : Broker → Job → Bool
dispatchable broker j = elim j.dispatch_envelope [
  | none ↦ false
  | some e ↦
      is_queue_name j.queue
      && (not (ltb queue_payload_ceiling_bytes (broker.size_bytes e)) && broker.accepts e)
]

-- The call that dispatches a row.
unfoldable pub add_calls : Job → List QueueCall
add_calls j = elim j.dispatch_envelope [
  | none ↦ []
  | some e ↦ QueueCall.add j.queue e j.job_type j.max_attempts ∷ []
]

abbrev pub flat {ℓ} : {A : Type ℓ} → (Job → List A) → List Job → List A
flat f [] = []
flat f (j ∷ js) = f j ++ flat f js

module _ (broker : Broker) (now : ℕ) where
  dispatch : Job → World → World
  dispatch row w = record w {
    calls = w.calls ++ add_calls row;
    jobs = update_job row.id (mark_queued now) w.jobs;
  }

  sweep_row_lem :
      (row : Job) (w : World) (d : ℕ)
      → sweep_row broker now row (w, d)
        ≡ (if dispatchable broker row then (dispatch row w, suc d) else (w, d))
  unfolding sweep_row enqueue_processing_job dispatchable dispatch add_calls
  sweep_row_lem row w d = ground arith

  swept_by : Job → Job → Job
  swept_by row j = if dispatchable broker row && j.id == row.id then mark_queued now j else j

  pub swept : List Job → Job → Job
  swept [] j = j
  swept (row ∷ rows) j = swept rows (swept_by row j)

  swept_by-true :
      (row : Job)
      → dispatchable broker row ≡ true
      → swept_by row ≡ (λ j. if j.id == row.id then mark_queued now j else j)
  unfolding swept_by
  swept_by-true row e = fun_ext (λ j. rw e)

  swept_by-false : (row : Job) → dispatchable broker row ≡ false → swept_by row ≡ (λ j. j)
  unfolding swept_by
  swept_by-false row e = fun_ext (λ j. rw e)

  sweep_row-true :
      (row : Job) (w : World) (d : ℕ)
      → dispatchable broker row ≡ true
      → sweep_row broker now row (w, d) ≡ (dispatch row w, suc d)
  sweep_row-true row w d e = sweep_row_lem row w d ∙ rw e

  sweep_row-false :
      (row : Job) (w : World) (d : ℕ)
      → dispatchable broker row ≡ false
      → sweep_row broker now row (w, d) ≡ (w, d)
  sweep_row-false row w d e = sweep_row_lem row w d ∙ rw e

  sweep_row-jobs :
      (row : Job) (w : World) (d : ℕ)
      → (sweep_row broker now row (w, d)).0.jobs ≡ map (swept_by row) w.jobs
  unfolding dispatch update_job
  sweep_row-jobs row w d = elim (Bool-cases (dispatchable broker row)) [
    | inl e ↦ rw (sweep_row-true row w d e) (ap (λ f. map f w.jobs) (sym (swept_by-true row e)))
    | inr e ↦
        rw (sweep_row-false row w d e)
          (sym (ap (λ f. map f w.jobs) (swept_by-false row e) ∙ map-id w.jobs))
  ]

  pub sweep_rows-jobs :
      (rows : List Job) (s : World × ℕ)
      → (sweep_rows broker now rows s).0.jobs ≡ map (swept rows) s.0.jobs
  unfolding sweep_rows swept
  sweep_rows-jobs [] s = sym (map-id s.0.jobs)
  sweep_rows-jobs (row ∷ rows) s =
      sweep_rows-jobs rows (sweep_row broker now row s)
      ∙ ap (map (swept rows)) (sweep_row-jobs row s.0 s.1)
      ∙ map-map (swept rows) (swept_by row) s.0.jobs

  abbrev pub Calls : World × ℕ → List Job → World × ℕ → Type 0
  Calls s rows t =
      (t.0.calls ≡ s.0.calls ++ flat add_calls (select (dispatchable broker) rows))
      × (t.1 ≡ s.1 + length (select (dispatchable broker) rows))

  pub sweep_rows-Calls :
      (rows : List Job) (s : World × ℕ) → Calls s rows (sweep_rows broker now rows s)
  unfolding sweep_rows dispatch
  sweep_rows-Calls [] s = (sym (append-nil s.0.calls), omega arith)
  sweep_rows-Calls (row ∷ rows) s = elim (Bool-cases (dispatchable broker row)) [
    | inl e ↦
        let (calls, count) = sweep_rows-Calls rows (dispatch row s.0, suc s.1) in
        subst (λ t. Calls s (row ∷ rows) (sweep_rows broker now rows t))
          (sym (sweep_row-true row s.0 s.1 e))
          (rw e (calls ∙ append_assoc s.0.calls (add_calls row) _, omega (arith, count)))
    | inr e ↦
        subst (λ t. Calls s (row ∷ rows) (sweep_rows broker now rows t))
          (sym (sweep_row-false row s.0 s.1 e)) (rw e (sweep_rows-Calls rows s))
  ]

  -- A row that is queued stays so, and a claimed dispatchable row becomes so.
  queued_stays :
      (rows : List Job) (j : Job)
      → is_some j.queued_at ≡ true
      → is_some (swept rows j).queued_at ≡ true
  unfolding swept swept_by mark_queued
  queued_stays [] j h = h
  queued_stays (row ∷ rows) j h = queued_stays rows (swept_by row j) (ground arith)

  swept-id : (rows : List Job) (j : Job) → (swept rows j).id ≡ j.id
  unfolding swept swept_by mark_queued
  swept-id [] j = refl
  swept-id (row ∷ rows) j = swept-id rows (swept_by row j) ∙ ground arith

  pub swept_claimed :
      (rows : List Job) (j row : Job)
      → Memᴰ row rows
      → j.id ≡ row.id
      → dispatchable broker row ≡ true
      → is_some (swept rows j).queued_at ≡ true
  unfolding swept swept_by mark_queued
  swept_claimed [] j row m e d = elim m [ ]
  swept_claimed (r ∷ rows) j row (Memᴰ.head p) e d =
      queued_stays rows (swept_by r j)
        (first j r (subst (λ x. j.id ≡ x.id) p e) (subst (λ x. dispatchable broker x ≡ true) p d))
    where
      first :
          (j r : Job)
          → j.id ≡ r.id
          → dispatchable broker r ≡ true
          → is_some (swept_by r j).queued_at ≡ true
      first j r e d = ground arith
  swept_claimed (r ∷ rows) j row (Memᴰ.tail m) e d =
      swept_claimed rows (swept_by r j) row m (swept-id (r ∷ []) j ∙ e) d

  marked :
      (row j : Job)
      → (dispatchable broker row && j.id == row.id) ≡ true
      → is_some (swept_by row j).queued_at ≡ true
  unfolding swept_by mark_queued
  marked row j e = rw e

  unmarked :
      (row j : Job) → (dispatchable broker row && j.id == row.id) ≡ false → swept_by row j ≡ j
  unfolding swept_by
  unmarked row j e = rw e

  -- A row that no poll marked is the row that it was.
  pub swept_unqueued :
      (rows : List Job) (j : Job) → is_some (swept rows j).queued_at ≡ false → swept rows j ≡ j
  unfolding swept
  swept_unqueued [] j h = refl
  swept_unqueued (row ∷ rows) j h = elim (Bool-cases (dispatchable broker row && j.id == row.id)) [
    | inl e ↦ cc (queued_stays rows (swept_by row j) (marked row j e), h)
    | inr e ↦
        let same = unmarked row j e in
        ap (swept rows) same
        ∙ swept_unqueued rows j (subst (λ x. is_some (swept rows x).queued_at ≡ false) same h)
  ]
