-- ===== src/Jobs/Cancel/Outcome.antt =====
-- What cancelJob returns and leaves behind, on each of its branches.
use mathlib.Core.List.{Memᴰ}
use audio_book.Base.{
  ℕ, Bool, true, false, not, some, List, [], ◌∷◌, ◌++◌, ◌==◌, ◌≡◌, ◌⊎◌, inl, inr, sym, ap, ◌∙◌, map,
  select, arith, Bool-cases, map_congr, append-nil, append_assoc, ok, ok_injective, subst,
}
use audio_book.Jobs.Model.{
  Job, JobStatus, World, Principal, is_terminal, is_immediately_cancellable, find_job,
}
use audio_book.Jobs.Dto.{JobDto, to_job_dto}
use audio_book.Jobs.Cancel.{
  cancellation_patch, is_live_child, Batch, cancel_row, cancel_rows, cancelled_event, commit_cancel,
  refreshed, cancel_job,
}
use audio_book.Jobs.Cancel.Rows.{Distinct, cancelled_row, patch_all-request, cancel_rows-jobs}

pub find_job-Memᴰ : (i : ℕ) (js : List Job) (j : Job) → find_job i js ≡ some j → Memᴰ j js
unfolding find_job
find_job-Memᴰ i [] j e = cc
find_job-Memᴰ i (k ∷ ks) j e = elim (Bool-cases (k.id == i)) [
  | inl h ↦ Memᴰ.head (ground arith)
  | inr h ↦ Memᴰ.tail (find_job-Memᴰ i ks j (rw h at e))
]

pub find_job-id : (i : ℕ) (js : List Job) (j : Job) → find_job i js ≡ some j → j.id ≡ i
unfolding find_job
find_job-id i [] j e = cc
find_job-id i (k ∷ ks) j e = ground (arith, find_job-id i ks j)

pub find_job-map :
    (f : Job → Job) (i : ℕ) (js : List Job) (j : Job)
    → ((k : Job) → (f k).id ≡ k.id)
    → find_job i js ≡ some j
    → find_job i (map f js) ≡ some (f j)
unfolding find_job
find_job-map f i [] j keep e = cc
find_job-map f i (k ∷ ks) j keep e = ground (arith, keep k, find_job-map f i ks j keep)

module _ (user now : ℕ) where
  pub cancelled_row-id : (i : ℕ) (j : Job) → (cancelled_row user now i j).id ≡ j.id
  unfolding cancelled_row cancellation_patch
  cancelled_row-id i j = ground arith

  pub cancel_rows-cancelled :
      (cs : List Job) (b : Batch)
      → (cancel_rows user now cs b).cancelled_immediately
        ≡ b.cancelled_immediately ++ select (λ c. is_immediately_cancellable c.status) cs
  unfolding cancel_rows cancel_row
  cancel_rows-cancelled [] b = sym (append-nil _)
  cancel_rows-cancelled (c ∷ cs) b = elim (Bool-cases (is_immediately_cancellable c.status)) [
    | inl h ↦
        cancel_rows-cancelled cs (cancel_row user now c b)
        ∙ rw h (append_assoc b.cancelled_immediately (c ∷ []) _)
    | inr h ↦ cancel_rows-cancelled cs (cancel_row user now c b) ∙ rw h
  ]

  pub cancel_rows-requested :
      (cs : List Job) (b : Batch)
      → (cancel_rows user now cs b).requested_only
        ≡ b.requested_only ++ select (λ c. not (is_immediately_cancellable c.status)) cs
  unfolding cancel_rows cancel_row
  cancel_rows-requested [] b = sym (append-nil _)
  cancel_rows-requested (c ∷ cs) b = elim (Bool-cases (is_immediately_cancellable c.status)) [
    | inl h ↦ cancel_rows-requested cs (cancel_row user now c b) ∙ rw h
    | inr h ↦
        cancel_rows-requested cs (cancel_row user now c b)
        ∙ rw h (append_assoc b.requested_only (c ∷ []) _)
  ]

-- The jobs that one request writes to: the live children, then the job.
unfoldable pub targets : ℕ → Job → List Job → List Job
targets i job jobs = select (is_live_child i) jobs ++ job ∷ []

module _ (set_ok : ℕ → ℕ → Bool) (now : ℕ) (p : Principal) (has_reason cross_tenant : Bool)
    (w : World) (job : Job) where
  abbrev pub start : Batch
  start = record { jobs = w.jobs; cancelled_immediately = []; requested_only = [] }

  abbrev pub committed : World
  committed =
      commit_cancel set_ok now p has_reason cross_tenant job (select (is_live_child job.id) w.jobs)
        w

  pub committed-jobs :
      Distinct w.jobs
      → Memᴰ job w.jobs
      → committed.jobs ≡ map (cancelled_row p.sub now job.id) w.jobs
  unfolding commit_cancel
  committed-jobs d m =
      cancel_rows-jobs p.sub now (select (is_live_child job.id) w.jobs ++ job ∷ []) start
      ∙ map_congr _ _ w.jobs (λ j mj. patch_all-request p.sub now w.jobs job j d m mj)

  committed-outbox :
      committed.outbox
      ≡ w.outbox
        ++ map
            (cancelled_event p.sub now job)
            (select (λ c. is_immediately_cancellable c.status) (targets job.id job w.jobs))
  unfolding commit_cancel targets
  committed-outbox =
      ap (λ l. w.outbox ++ map (cancelled_event p.sub now job) l)
        (cancel_rows-cancelled p.sub now (select (is_live_child job.id) w.jobs ++ job ∷ []) start)

  -- Who may act on the row: the admin route skips the tenant's check.
  abbrev pub MayAct : Type 0
  MayAct = (cross_tenant ≡ true) ⊎ (job.tenant_id ≡ p.tenant_id)

  cancel_job_reads :
      find_job job.id w.jobs ≡ some job
      → MayAct
      → is_terminal job.status ≡ false
      → cancel_job set_ok now p job.id has_reason cross_tenant w ≡ refreshed job.id committed
  unfolding cancel_job
  cancel_job_reads f may live = ground arith

  pub committed_find :
      Distinct w.jobs
      → find_job job.id w.jobs ≡ some job
      → find_job job.id committed.jobs ≡ some (cancelled_row p.sub now job.id job)
  committed_find d f =
      rw (committed-jobs d (find_job-Memᴰ job.id w.jobs job f))
        (find_job-map _ job.id w.jobs job (cancelled_row-id p.sub now job.id) f)

  pub cancel_job_commits :
      Distinct w.jobs
      → find_job job.id w.jobs ≡ some job
      → MayAct
      → is_terminal job.status ≡ false
      → cancel_job set_ok now p job.id has_reason cross_tenant w
        ≡ ok (committed, to_job_dto (cancelled_row p.sub now job.id job))
  unfolding refreshed
  cancel_job_commits d f may live = cancel_job_reads f may live ∙ rw (committed_find d f, refreshed)

cancel_job_terminal :
    (set_ok : ℕ → ℕ → Bool) (now : ℕ) (p : Principal) (has_reason cross_tenant : Bool) (w : World)
    (i : ℕ) (row : Job)
    → find_job i w.jobs ≡ some row
    → (cross_tenant ≡ true) ⊎ (row.tenant_id ≡ p.tenant_id)
    → is_terminal row.status ≡ true
    → cancel_job set_ok now p i has_reason cross_tenant w ≡ ok (w, to_job_dto row)
unfolding cancel_job
cancel_job_terminal set_ok now p has_reason cross_tenant w i row f may t = ground arith

live_of_immediate : (s : JobStatus) → is_immediately_cancellable s ≡ true → is_terminal s ≡ false
unfolding is_immediately_cancellable is_terminal
live_of_immediate s h = ground arith

cancelled_row_terminal :
    (user now : ℕ) (j : Job)
    → is_immediately_cancellable j.status ≡ true
    → is_terminal (cancelled_row user now j.id j).status ≡ true
unfolding cancelled_row cancellation_patch is_terminal
cancelled_row_terminal user now j h = ground arith

cancelled_row-tenant_id :
    (user now i : ℕ) (j : Job) → (cancelled_row user now i j).tenant_id ≡ j.tenant_id
unfolding cancelled_row cancellation_patch
cancelled_row-tenant_id user now i j = ground arith

-- Cancelling a live job that the caller may act on succeeds. In the new world every row is the old
-- row under `cancelled_row` (the job and its live children patched, each by its own status, all
-- others as they were), the answer is the patched row, and the outbox has grown by one
-- `job.cancelled` message for each target whose status allowed outright cancellation, and by none
-- for a running target. The ids of the rows are distinct.
pub cancel_job-rows :
    (set_ok : ℕ → ℕ → Bool) (now : ℕ) (p : Principal) (has_reason cross_tenant : Bool) (w : World)
    (job : Job)
    → Distinct w.jobs
    → find_job job.id w.jobs ≡ some job
    → (cross_tenant ≡ true) ⊎ (job.tenant_id ≡ p.tenant_id)
    → is_terminal job.status ≡ false
    → (w' : World) × (cancel_job set_ok now p job.id has_reason cross_tenant w
        ≡ ok (w', to_job_dto (cancelled_row p.sub now job.id job)))
      × (w'.jobs ≡ map (cancelled_row p.sub now job.id) w.jobs)
      × (w'.outbox
          ≡ w.outbox
            ++ map
                (cancelled_event p.sub now job)
                (select (λ c. is_immediately_cancellable c.status) (targets job.id job w.jobs)))
cancel_job-rows set_ok now p has_reason cross_tenant w job d f may live = (
  committed set_ok now p has_reason cross_tenant w job,
  cancel_job_commits set_ok now p has_reason cross_tenant w job d f may live,
  committed-jobs set_ok now p has_reason cross_tenant w job d (find_job-Memᴰ job.id w.jobs job f),
  committed-outbox set_ok now p has_reason cross_tenant w job,
)

-- Cancelling twice: a job that is already terminal answers with its row, and nothing changes. So
-- after an outright cancellation a second request leaves the world as the first one left it.
pub cancel_job_again :
    (set_ok : ℕ → ℕ → Bool) (now later : ℕ) (p : Principal) (has_reason cross_tenant : Bool)
    (w w' : World) (job : Job) (dto : JobDto)
    → Distinct w.jobs
    → find_job job.id w.jobs ≡ some job
    → (cross_tenant ≡ true) ⊎ (job.tenant_id ≡ p.tenant_id)
    → is_immediately_cancellable job.status ≡ true
    → cancel_job set_ok now p job.id has_reason cross_tenant w ≡ ok (w', dto)
    → cancel_job set_ok later p job.id has_reason cross_tenant w' ≡ ok (w', dto)
cancel_job_again set_ok now later p has_reason cross_tenant w w' job dto d f may imm e =
    let live = live_of_immediate job.status imm in
    let row = cancelled_row p.sub now job.id job in
    let first = cancel_job_commits set_ok now p has_reason cross_tenant w job d f may live in
    subst
      (λ (r : World × JobDto).
        cancel_job set_ok later p job.id has_reason cross_tenant r.0 ≡ ok (r.0, r.1))
      (ok_injective (sym first ∙ e))
      (cancel_job_terminal set_ok later p has_reason cross_tenant
        (committed set_ok now p has_reason cross_tenant w job) job.id row
        (committed_find set_ok now p has_reason cross_tenant w job d f) (may_still may)
        (cancelled_row_terminal p.sub now job imm))
  where
    may_still :
        (cross_tenant ≡ true) ⊎ (job.tenant_id ≡ p.tenant_id)
        → (cross_tenant ≡ true) ⊎ ((cancelled_row p.sub now job.id job).tenant_id ≡ p.tenant_id)
    may_still (inl c) = inl c
    may_still (inr t) = inr (cancelled_row-tenant_id p.sub now job.id job ∙ t)
