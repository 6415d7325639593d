-- ===== src/Jobs/Cancel/Race.antt =====
-- The tenant boundary of cancelJob, and what happens when the row changes between its read and its
-- transaction, which carries no condition on the status.
use audio_book.Base.{
  ℕ, Bool, true, false, some, List, [], ◌∷◌, ◌++◌, ◌≡◌, ◌≢◌, inr, refl, sym, ap, ◌∙◌, All, All-Memᴰ,
  inl, err, Bool-cases, Option-cases, Result-cases, arith, subst, some_inj, ok, ok_injective,
}
use audio_book.Jobs.Model.{
  Job, cancelled, World, Principal, find_job, is_terminal, is_immediately_cancellable, JobError,
  job_not_found,
}
use audio_book.Jobs.Dto.{JobDto, to_job_dto}
use audio_book.Jobs.Cancel.{
  cancellation_patch, is_live_child, is_parent, commit_cancel, cancel_job, require_owned_job,
}
use audio_book.Jobs.Cancel.Rows.{Distinct, cancelled_row, cancel_rows-jobs, patch_all, patch_one}
use audio_book.Jobs.Cancel.Outcome.{
  find_job-Memᴰ, find_job-id, find_job-map, committed, committed-jobs, cancelled_row-id,
  cancel_job_commits, start,
}

-- A child job belongs to its parent's tenant.
abbrev pub ChildrenShareTenant : List Job → Type 0
ChildrenShareTenant js =
    All (λ j. All (λ k. is_parent k.id j.parent_job_id ≡ true → j.tenant_id ≡ k.tenant_id) js) js

untouched :
    (user now : ℕ) (job j : Job)
    → j.tenant_id ≢ job.tenant_id
    → (is_parent job.id j.parent_job_id ≡ true → j.tenant_id ≡ job.tenant_id)
    → j.id ≢ job.id
    → cancelled_row user now job.id j ≡ j
unfolding cancelled_row is_live_child
untouched user now job j far share other = ground arith

owned :
    (p : Principal) (i : ℕ) (w : World) (job : Job)
    → require_owned_job p i w ≡ ok job
    → (find_job i w.jobs ≡ some job) × (job.tenant_id ≡ p.tenant_id)
unfolding require_owned_job
owned p i w job e = elim (Option-cases (find_job i w.jobs)) [
  | inl missing ↦ ground (arith, missing, e)
  | inr (j, found) ↦ ground (arith, found, e)
]

not_owned :
    (p : Principal) (w : World) (j : Job)
    → find_job j.id w.jobs ≡ some j
    → j.tenant_id ≢ p.tenant_id
    → require_owned_job p j.id w ≡ err job_not_found
unfolding require_owned_job
not_owned p w j f far = ground (arith, f, far)

cancel_job_refused :
    (set_ok : ℕ → ℕ → Bool) (now : ℕ) (p : Principal) (i : ℕ) (has_reason : Bool) (w : World)
    (x : JobError)
    → require_owned_job p i w ≡ err x
    → cancel_job set_ok now p i has_reason false w ≡ err x
unfolding cancel_job
cancel_job_refused set_ok now p i has_reason w x e = rw e refl

cancel_job_done :
    (set_ok : ℕ → ℕ → Bool) (now : ℕ) (p : Principal) (has_reason : Bool) (w : World) (job : Job)
    → find_job job.id w.jobs ≡ some job
    → job.tenant_id ≡ p.tenant_id
    → is_terminal job.status ≡ true
    → cancel_job set_ok now p job.id has_reason false w ≡ ok (w, to_job_dto job)
unfolding cancel_job require_owned_job
cancel_job_done set_ok now p has_reason w job f own done = ground (arith, f, own, done)

module _ (set_ok : ℕ → ℕ → Bool) (now : ℕ) (p : Principal) (has_reason : Bool) (w : World) (j : Job)
    (d : Distinct w.jobs) (share : ChildrenShareTenant w.jobs) (fj : find_job j.id w.jobs ≡ some j)
    (far : j.tenant_id ≢ p.tenant_id) where
  -- The row of another tenant, after the job of the caller was cancelled.
  committed-other :
      (job : Job)
      → find_job job.id w.jobs ≡ some job
      → job.tenant_id ≡ p.tenant_id
      → find_job j.id (committed set_ok now p has_reason false w job).jobs ≡ some j
  committed-other job f own =
      let mj = find_job-Memᴰ j.id w.jobs j fj in
      let m = find_job-Memᴰ job.id w.jobs job f in
      let same : j.id ≡ job.id → j.tenant_id ≡ p.tenant_id = λ q.
        ap (λ (x : Job). x.tenant_id)
          (some_inj (sym fj ∙ subst (λ k. find_job k w.jobs ≡ some job) (sym q) f))
        ∙ own in
      let row = cancelled_row p.sub now job.id in
      rw (committed-jobs set_ok now p has_reason false w job d m) (
        find_job-map row j.id w.jobs j (cancelled_row-id p.sub now job.id) fj
        ∙ ap some (
            untouched p.sub now job j (λ q. far (q ∙ own))
              (All-Memᴰ _ w.jobs (All-Memᴰ _ w.jobs share mj) m) (λ q. far (same q))))

  cancel_job-other :
      (job : Job) (r : World × JobDto)
      → find_job job.id w.jobs ≡ some job
      → job.tenant_id ≡ p.tenant_id
      → cancel_job set_ok now p job.id has_reason false w ≡ ok r
      → find_job j.id r.0.jobs ≡ some j
  cancel_job-other job r f own e = elim (Bool-cases (is_terminal job.status)) [
    | inl done ↦
        subst (λ (x : World × JobDto). find_job j.id x.0.jobs ≡ some j)
          (ok_injective (sym (cancel_job_done set_ok now p has_reason w job f own done) ∙ e)) fj
    | inr live ↦
        subst (λ (x : World × JobDto). find_job j.id x.0.jobs ≡ some j)
          (ok_injective
            (sym (cancel_job_commits set_ok now p has_reason false w job d f (inr own) live) ∙ e))
          (committed-other job f own)
  ]

-- The tenant boundary: whatever job a tenant names, its own or another's, a request that is answered
-- leaves every row of another tenant as it is, where children belong to the tenant of their parent
-- and ids are distinct; and a job of another tenant is refused as not found.
pub cancel_job_tenant :
    (set_ok : ℕ → ℕ → Bool) (now : ℕ) (p : Principal) (i : ℕ) (has_reason : Bool) (w w' : World)
    (j : Job) (dto : JobDto)
    → Distinct w.jobs
    → ChildrenShareTenant w.jobs
    → find_job j.id w.jobs ≡ some j
    → j.tenant_id ≢ p.tenant_id
    → cancel_job set_ok now p i has_reason false w ≡ ok (w', dto)
    → (find_job j.id w'.jobs ≡ some j)
      × (cancel_job set_ok now p j.id has_reason false w ≡ err job_not_found)
cancel_job_tenant set_ok now p i has_reason w w' j dto d share fj far e = (
  elim (Result-cases (require_owned_job p i w)) [
    | inl (x, refused) ↦ cc (e, cancel_job_refused set_ok now p i has_reason w x refused)
    | inr (job, found) ↦
        let (f, own) = owned p i w job found in
        let named : job.id ≡ i = find_job-id i w.jobs job f in
        cancel_job-other set_ok now p has_reason w j d share fj far job (w', dto)
          (subst (λ k. find_job k w.jobs ≡ some job) (sym named) f) own
          (subst (λ k. cancel_job set_ok now p k has_reason false w ≡ ok (w', dto)) (sym named) e)
  ],
  cancel_job_refused set_ok now p j.id has_reason w job_not_found (not_owned p w j fj far),
)

module _ (user now : ℕ) where
  patch_all-id : (cs : List Job) (j : Job) → (patch_all user now cs j).id ≡ j.id
  unfolding patch_all patch_one cancellation_patch
  patch_all-id [] j = refl
  patch_all-id (c ∷ cs) j = patch_all-id cs (patch_one user now c j) ∙ ground arith

  patch_last :
      (cs : List Job) (job cur : Job)
      → cur.id ≡ job.id
      → is_immediately_cancellable job.status ≡ true
      → (patch_all user now (cs ++ job ∷ []) cur).status ≡ cancelled
  unfolding patch_all patch_one cancellation_patch
  patch_last [] job cur e imm = ground arith
  patch_last (c ∷ cs) job cur e imm =
      patch_last cs job (patch_one user now c cur) (patch_all-id (c ∷ []) cur ∙ e) imm

-- The update carries no condition on the status: if a job read as outright cancellable has moved
-- on to any other status by the commit, a terminal one included, the row is CANCELLED afterwards.
pub commit_cancel_stale :
    (set_ok : ℕ → ℕ → Bool) (now : ℕ) (p : Principal) (has_reason cross_tenant : Bool)
    (job current : Job) (children : List Job) (w : World)
    → is_immediately_cancellable job.status ≡ true
    → find_job job.id w.jobs ≡ some current
    → (j : Job) × (find_job job.id
          (commit_cancel set_ok now p has_reason cross_tenant job children w).jobs
        ≡ some j)
      × (j.status ≡ cancelled)
unfolding commit_cancel
commit_cancel_stale set_ok now p has_reason cross_tenant job current children w imm f = (
  patch_all p.sub now (children ++ job ∷ []) current,
  rw
      (cancel_rows-jobs p.sub now (children ++ job ∷ [])
        (start set_ok now p has_reason cross_tenant w job))
      (find_job-map _ job.id w.jobs current (patch_all-id p.sub now (children ++ job ∷ [])) f),
  patch_last p.sub now children job current (find_job-id job.id w.jobs current f) imm,
)
