-- ===== src/Jobs/Gate/Laws.antt =====
-- When the gate stops a job, alone and after a cancellation request of the API.
use mathlib.Core.List.{Memᴰ}
use audio_book.Base.{
  Memᴰ-append_right, Memᴰ-select, ℕ, ◌+◌, ltb, Bool, true, false, ◌||◌, not, some, List, [], ◌∷◌,
  ◌++◌, ◌==◌, ◌≡◌, ◌⊎◌, inl, inr, refl, sym, ap, ◌∙◌, select, arith, Bool-cases, if◌then◌else◌, ok,
  ok_injective, subst,
}
use audio_book.Jobs.Model.{
  Job, JobStatus, running, cancelled, World, Principal, find_job, update_job, is_terminal,
  is_immediately_cancellable,
}
use audio_book.Jobs.Dto.{JobDto, to_job_dto}
use audio_book.Jobs.Cancel.{
  cancellation_patch, cancellation_flag_ttl, cancel_job, set_flags, commit_cancel, cancel_rows,
  is_live_child, Batch,
}
use audio_book.Jobs.Cancel.Rows.{Distinct, cancelled_row}
use audio_book.Jobs.Cancel.Outcome.{
  find_job-map, committed, start, committed_find, cancel_job_commits, cancel_rows-requested,
}
use audio_book.Jobs.Gate.{is_set, is_cancelled, acknowledge, halt_if_cancelled}

-- What the gate decides by: the row's status, then Redis if it answers, else the durable column.
unfoldable pub stops : Bool → ℕ → World → Job → Bool
stops redis_up now w job =
    is_cancelled job.status
    || (if redis_up then is_set now job.tenant_id job.id w.flags else job.cancellation_requested)

halt_stops :
    (redis_up : Bool) (now i : ℕ) (w : World) (job : Job)
    → find_job i w.jobs ≡ some job
    → (halt_if_cancelled redis_up now i w).1 ≡ stops redis_up now w job
unfolding halt_if_cancelled stops
halt_stops redis_up now i w job f = ground arith

acknowledge-id : (now : ℕ) (j : Job) → (acknowledge now j).id ≡ j.id
unfolding acknowledge
acknowledge-id now j = refl

halt_cancels :
    (redis_up : Bool) (now i : ℕ) (w : World) (job : Job)
    → find_job i w.jobs ≡ some job
    → (halt_if_cancelled redis_up now i w).1 ≡ true
    → (j : Job) × (find_job i (halt_if_cancelled redis_up now i w).0.jobs ≡ some j)
      × (j.status ≡ cancelled)
unfolding halt_if_cancelled update_job acknowledge
halt_cancels redis_up now i w job f h = elim (Bool-cases (is_cancelled job.status)) [
  | inl done ↦ (job, ground arith, ground arith)
  | inr live ↦
      let kept =
        find_job-map (λ j. if j.id == job.id then acknowledge now j else j) i w.jobs job
          (λ k. ground arith) f in
      (acknowledge now job, ground (arith, kept), refl)
]

halt_goes_on :
    (redis_up : Bool) (now i : ℕ) (w : World) (job : Job)
    → find_job i w.jobs ≡ some job
    → (halt_if_cancelled redis_up now i w).1 ≡ false
    → (halt_if_cancelled redis_up now i w).0 ≡ w
unfolding halt_if_cancelled
halt_goes_on redis_up now i w job f h = ground arith

-- The gate stops a job exactly when its row is CANCELLED already, or Redis answers and has the
-- flag, or Redis does not answer and the row has the request. A stopped job's row is CANCELLED
-- afterwards, and a job that goes on leaves the world as it was.
halt_if_cancelled_lem :
    (redis_up : Bool) (now i : ℕ) (w : World) (job : Job)
    → find_job i w.jobs ≡ some job
    → ((halt_if_cancelled redis_up now i w).1 ≡ stops redis_up now w job)
      × ((halt_if_cancelled redis_up now i w).1 ≡ true
          → (j : Job) × (find_job i (halt_if_cancelled redis_up now i w).0.jobs ≡ some j)
            × (j.status ≡ cancelled))
      × ((halt_if_cancelled redis_up now i w).1 ≡ false
          → (halt_if_cancelled redis_up now i w).0 ≡ w)
halt_if_cancelled_lem redis_up now i w job f = (
  halt_stops redis_up now i w job f,
  halt_cancels redis_up now i w job f,
  halt_goes_on redis_up now i w job f,
)

module _ (set_ok : ℕ → ℕ → Bool) (now later t i : ℕ) where
  -- A flag that this request writes is still there later.
  abbrev fresh : Bool
  fresh = ltb later (now + cancellation_flag_ttl)

  -- What one `set` makes of the flags.
  abbrev with_flag : ℕ → ℕ → List (ℕ × ℕ × ℕ) → List (ℕ × ℕ × ℕ)
  with_flag a b flags = if set_ok a b then (a, b, now + cancellation_flag_ttl) ∷ flags else flags

  set_flag_keep :
      (a b : ℕ) (flags : List (ℕ × ℕ × ℕ))
      → is_set later t i flags ≡ fresh
      → is_set later t i (with_flag a b flags) ≡ fresh
  unfolding is_set
  set_flag_keep a b flags h = ground arith

  set_flags_keep :
      (cs : List Job) (flags : List (ℕ × ℕ × ℕ))
      → is_set later t i flags ≡ fresh
      → is_set later t i (set_flags now set_ok cs flags) ≡ fresh
  unfolding set_flags
  set_flags_keep [] flags h = h
  set_flags_keep (c ∷ cs) flags h =
      set_flags_keep cs (with_flag c.tenant_id c.id flags) (set_flag_keep c.tenant_id c.id flags h)

  set_flag_lost :
      (a b : ℕ) (flags : List (ℕ × ℕ × ℕ))
      → set_ok t i ≡ false
      → is_set later t i (with_flag a b flags) ≡ is_set later t i flags
  unfolding is_set
  set_flag_lost a b flags h = ground arith

  set_flag_set :
      (a b : ℕ) (flags : List (ℕ × ℕ × ℕ))
      → a ≡ t
      → b ≡ i
      → set_ok t i ≡ true
      → is_set later t i (with_flag a b flags) ≡ fresh
  unfolding is_set
  set_flag_set a b flags ea eb h = ground arith

  set_flags_lost :
      (cs : List Job) (flags : List (ℕ × ℕ × ℕ))
      → set_ok t i ≡ false
      → is_set later t i (set_flags now set_ok cs flags) ≡ is_set later t i flags
  unfolding set_flags
  set_flags_lost [] flags h = refl
  set_flags_lost (c ∷ cs) flags h =
      set_flags_lost cs (with_flag c.tenant_id c.id flags) h
      ∙ set_flag_lost c.tenant_id c.id flags h

  set_flags_set :
      (cs : List Job) (flags : List (ℕ × ℕ × ℕ)) (c : Job)
      → Memᴰ c cs
      → c.tenant_id ≡ t
      → c.id ≡ i
      → set_ok t i ≡ true
      → is_set later t i (set_flags now set_ok cs flags) ≡ fresh
  unfolding set_flags
  set_flags_set [] flags c m et ei h = elim m [ ]
  set_flags_set (d ∷ cs) flags c (Memᴰ.head e) et ei h =
      set_flags_keep cs (with_flag d.tenant_id d.id flags) (
        set_flag_set d.tenant_id d.id flags (ap (λ (x : Job). x.tenant_id) (sym e) ∙ et)
          (ap (λ (x : Job). x.id) (sym e) ∙ ei) h)
  set_flags_set (d ∷ cs) flags c (Memᴰ.tail m) et ei h =
      set_flags_set cs (with_flag d.tenant_id d.id flags) c m et ei h

stops_running :
    (redis_up : Bool) (now : ℕ) (w : World) (row job : Job)
    → (row.status ≡ running)
      × (row.cancellation_requested ≡ true)
      × (row.tenant_id ≡ job.tenant_id)
      × (row.id ≡ job.id)
    → stops redis_up now w row
      ≡ (if redis_up then is_set now job.tenant_id job.id w.flags else true)
unfolding stops
stops_running true now w row job h = rw (h.0, h.2, h.3)
stops_running false now w row job h = rw (h.0, h.1)

-- A running job that is not outright cancellable is among those whose flag is written.
module _ (set_ok : ℕ → ℕ → Bool) (now : ℕ) (p : Principal) (has_reason cross_tenant : Bool)
    (w : World) (job : Job) (run : job.status ≡ running) where
  abbrev batch : Batch
  batch =
      cancel_rows p.sub now (select (is_live_child job.id) w.jobs ++ job ∷ [])
        (start set_ok now p has_reason cross_tenant w job)

  abbrev request_flags : List Job
  request_flags = batch.cancelled_immediately ++ batch.requested_only

  committed-flags :
      (committed set_ok now p has_reason cross_tenant w job).flags
      ≡ set_flags now set_ok request_flags w.flags
  unfolding commit_cancel
  committed-flags = refl

  job_requested : Memᴰ job request_flags
  unfolding is_immediately_cancellable
  job_requested =
      let children = select (is_live_child job.id) w.jobs in
      Memᴰ-append_right batch.cancelled_immediately batch.requested_only (
        subst (Memᴰ job)
          (sym (
            cancel_rows-requested p.sub now (children ++ job ∷ [])
              (start set_ok now p has_reason cross_tenant w job)))
          (Memᴰ-select (λ c. not (is_immediately_cancellable c.status)) (children ++ job ∷ [])
            (Memᴰ-append_right children (job ∷ []) (Memᴰ.head refl)) (rw run)))

  running_row :
      ((cancelled_row p.sub now job.id job).status ≡ running)
      × ((cancelled_row p.sub now job.id job).cancellation_requested ≡ true)
      × ((cancelled_row p.sub now job.id job).tenant_id ≡ job.tenant_id)
      × ((cancelled_row p.sub now job.id job).id ≡ job.id)
  unfolding cancelled_row cancellation_patch is_immediately_cancellable
  running_row = ground arith

  -- The row that the gate finds later, and what it decides.
  abbrev after : World
  after = committed set_ok now p has_reason cross_tenant w job

  gate_after :
      (redis_up : Bool) (later : ℕ)
      → Distinct w.jobs
      → find_job job.id w.jobs ≡ some job
      → (halt_if_cancelled redis_up later job.id after).1
        ≡ (if redis_up then is_set later job.tenant_id job.id after.flags else true)
  gate_after redis_up later d f =
      halt_stops redis_up later job.id after (cancelled_row p.sub now job.id job)
        (committed_find set_ok now p has_reason cross_tenant w job d f)
      ∙ stops_running redis_up later after (cancelled_row p.sub now job.id job) job running_row

live_of_running : {s : JobStatus} → s ≡ running → is_terminal s ≡ false
unfolding is_terminal
live_of_running e = rw e

dto_requested :
    (row : Job) → row.cancellation_requested ≡ true → (to_job_dto row).cancellation.requested ≡ true
unfolding to_job_dto
dto_requested row h = h

if_true :
    (c : Bool) (a b : Bool) → (c ≡ true → a ≡ b) → (if c then a else true) ≡ (if c then b else true)
if_true true a b h = h refl
if_true false a b h = refl

-- What the worker's gate does with a running job whose cancellation the API accepted. While Redis
-- does not answer, the durable column decides and the job is stopped. While Redis answers, and took
-- the flag, the job is stopped until the flag expires, 24 hours after the request, and goes on after
-- that.
pub cancel_job-halts :
    (set_ok : ℕ → ℕ → Bool) (now later : ℕ) (p : Principal)
    (has_reason cross_tenant redis_up : Bool) (w w' : World) (job : Job) (dto : JobDto)
    → Distinct w.jobs
    → find_job job.id w.jobs ≡ some job
    → (cross_tenant ≡ true) ⊎ (job.tenant_id ≡ p.tenant_id)
    → job.status ≡ running
    → cancel_job set_ok now p job.id has_reason cross_tenant w ≡ ok (w', dto)
    → (redis_up ≡ true → set_ok job.tenant_id job.id ≡ true)
    → (halt_if_cancelled redis_up later job.id w').1
      ≡ (if redis_up then ltb later (now + cancellation_flag_ttl) else true)
unfolding commit_cancel
cancel_job-halts set_ok now later p has_reason cross_tenant redis_up w w' job dto d f may run e
      flag =
    subst
      (λ (r : World × JobDto).
        (halt_if_cancelled redis_up later job.id r.0).1
        ≡ (if redis_up then ltb later (now + cancellation_flag_ttl) else true))
      (ok_injective (sym first ∙ e))
      (gate_after set_ok now p has_reason cross_tenant w job run redis_up later d f
        ∙ if_true redis_up _ _ λ up.
          set_flags_set set_ok now later job.tenant_id job.id
            (request_flags set_ok now p has_reason cross_tenant w job run) w.flags job
            (job_requested set_ok now p has_reason cross_tenant w job run) refl refl (flag up))
  where
    first :
        cancel_job set_ok now p job.id has_reason cross_tenant w
        ≡ ok (
          committed set_ok now p has_reason cross_tenant w job,
          to_job_dto (cancelled_row p.sub now job.id job),
        )
    first =
        cancel_job_commits set_ok now p has_reason cross_tenant w job d f may (live_of_running run)

-- The flag is not only a cache: when its write failed and Redis answers again, the gate lets the
-- running job go on, although its row carries the request.
pub cancel_job-lost :
    (set_ok : ℕ → ℕ → Bool) (now later : ℕ) (p : Principal) (has_reason cross_tenant : Bool)
    (w w' : World) (job : Job) (dto : JobDto)
    → Distinct w.jobs
    → find_job job.id w.jobs ≡ some job
    → (cross_tenant ≡ true) ⊎ (job.tenant_id ≡ p.tenant_id)
    → job.status ≡ running
    → cancel_job set_ok now p job.id has_reason cross_tenant w ≡ ok (w', dto)
    → set_ok job.tenant_id job.id ≡ false
    → is_set later job.tenant_id job.id w.flags ≡ false
    → (dto.cancellation.requested ≡ true) × ((halt_if_cancelled true later job.id w').1 ≡ false)
unfolding commit_cancel
cancel_job-lost set_ok now later p has_reason cross_tenant w w' job dto d f may run e no_flag
      clear =
    subst
      (λ (r : World × JobDto).
        (r.1.cancellation.requested ≡ true) × ((halt_if_cancelled true later job.id r.0).1 ≡ false))
      (ok_injective (sym first ∙ e))
      (
        dto_requested (cancelled_row p.sub now job.id job)
            (running_row set_ok now p has_reason cross_tenant w job run).1,
        gate_after set_ok now p has_reason cross_tenant w job run true later d f
            ∙ set_flags_lost set_ok now later job.tenant_id job.id
                (request_flags set_ok now p has_reason cross_tenant w job run) w.flags no_flag
            ∙ clear,
      )
  where
    first :
        cancel_job set_ok now p job.id has_reason cross_tenant w
        ≡ ok (
          committed set_ok now p has_reason cross_tenant w job,
          to_job_dto (cancelled_row p.sub now job.id job),
        )
    first =
        cancel_job_commits set_ok now p has_reason cross_tenant w job d f may (live_of_running run)
