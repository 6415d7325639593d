-- ===== src/Jobs/Cancel/Rows.antt =====
-- What cancelJob does to the rows of `processing_job`: its loop of single-row updates against a
-- description of each row on its own.
use mathlib.Core.List.{Memᴰ, map-map, map-id}
use audio_book.Base.{
  ℕ, Bool, true, false, ◌||◌, List, [], ◌∷◌, ◌++◌, ◌==◌, ◌≡◌, ◌≢◌, refl, sym, ap, ◌∙◌, map, select,
  All, All-select, All-Memᴰ, arith, Bool-cases, inl, inr, if◌then◌else◌, ==_self, ==_iff, subst,
}
use audio_book.Jobs.Model.{Job, is_immediately_cancellable, update_job}
use audio_book.Jobs.Cancel.{cancellation_patch, is_live_child, Batch, cancel_row, cancel_rows}

-- The primary key: no two rows share an id.
abbrev pub Distinct : List Job → Type 0
Distinct [] = Unit
Distinct (j ∷ js) = All (λ k. k.id ≢ j.id) js × Distinct js

-- The request's effect on one row: the job itself and its live children are patched, each by its
-- own status; no other row is touched.
unfoldable pub cancelled_row : ℕ → ℕ → ℕ → Job → Job
cancelled_row user now i j =
    if j.id == i || is_live_child i j
    then cancellation_patch user now (is_immediately_cancellable j.status) j
    else j

module _ (user now : ℕ) where
  unfoldable pub patch_one : Job → Job → Job
  patch_one c j =
      if j.id == c.id
      then cancellation_patch user now (is_immediately_cancellable c.status) j
      else j

  unfoldable pub patch_all : List Job → Job → Job
  patch_all [] j = j
  patch_all (c ∷ cs) j = patch_all cs (patch_one c j)

  cancel_row-jobs :
      (c : Job) (b : Batch) → (cancel_row user now c b).jobs ≡ map (patch_one c) b.jobs
  unfolding cancel_row patch_one update_job
  cancel_row-jobs c b = refl

  pub cancel_rows-jobs :
      (cs : List Job) (b : Batch) → (cancel_rows user now cs b).jobs ≡ map (patch_all cs) b.jobs
  unfolding cancel_rows patch_all
  cancel_rows-jobs [] b = sym (map-id b.jobs)
  cancel_rows-jobs (c ∷ cs) b =
      cancel_rows-jobs cs (cancel_row user now c b)
      ∙ ap (map (patch_all cs)) (cancel_row-jobs c b)
      ∙ map-map (patch_all cs) (patch_one c) b.jobs

  -- A row whose id is not among the jobs written stays as it is.
  patch_all_miss :
      (cs : List Job) (j : Job) (i : ℕ) → j.id ≡ i → All (λ c. c.id ≢ i) cs → patch_all cs j ≡ j
  unfolding patch_all patch_one
  patch_all_miss [] j i e h = refl
  patch_all_miss (c ∷ cs) j i e (h, hs) = ground (arith, patch_all_miss cs j i e hs)

  -- Patching keeps the id, and the same patch again changes nothing.
  pub cancellation_patch-id : (imm : Bool) (j : Job) → (cancellation_patch user now imm j).id ≡ j.id
  unfolding cancellation_patch
  cancellation_patch-id true j = refl
  cancellation_patch-id false j = refl

  cancellation_patch_twice :
      (imm : Bool) (j : Job)
      → cancellation_patch user now imm (cancellation_patch user now imm j)
        ≡ cancellation_patch user now imm j
  unfolding cancellation_patch
  cancellation_patch_twice true j = refl
  cancellation_patch_twice false j = refl

  -- The children's own updates: a live child is patched once, by the status that was read.
  child_once : ℕ → Job → Job
  child_once i j =
      if is_live_child i j
      then cancellation_patch user now (is_immediately_cancellable j.status) j
      else j

  patch_one_self :
      (j : Job)
      → patch_one j j ≡ cancellation_patch user now (is_immediately_cancellable j.status) j
  unfolding patch_one
  patch_one_self j = rw ==_self

  patch_one_miss : (c j : Job) → c.id ≢ j.id → patch_one c j ≡ j
  unfolding patch_one
  patch_one_miss c j h = ground arith

  patch_all-children :
      (i : ℕ) (ys : List Job) (j : Job)
      → Distinct ys
      → Memᴰ j ys
      → patch_all (select (is_live_child i) ys) j ≡ child_once i j
  unfolding patch_all child_once
  patch_all-children i [] j d m = elim m [ ]
  patch_all-children i (y ∷ ys) j (h, d) (Memᴰ.head e) =
      rw e (elim (Bool-cases (is_live_child i y)) [
        | inl live ↦ rw live (
            ap (patch_all (select (is_live_child i) ys)) (patch_one_self y)
            ∙ patch_all_miss _ _ y.id (cancellation_patch-id _ y) (All-select _ _ ys h))
        | inr dead ↦ rw dead (patch_all_miss _ y y.id refl (All-select _ _ ys h))
      ])
  patch_all-children i (y ∷ ys) j (h, d) (Memᴰ.tail m) =
      let apart : y.id ≢ j.id = λ e. All-Memᴰ _ ys h m (sym e) in
      elim (Bool-cases (is_live_child i y)) [
        | inl live ↦ rw live (
            ap (patch_all (select (is_live_child i) ys)) (patch_one_miss y j apart)
            ∙ patch_all-children i ys j d m)
        | inr dead ↦ rw dead (patch_all-children i ys j d m)
      ]

  pub patch_all-append :
      (cs ds : List Job) (j : Job) → patch_all (cs ++ ds) j ≡ patch_all ds (patch_all cs j)
  unfolding patch_all
  patch_all-append [] ds j = refl
  patch_all-append (c ∷ cs) ds j = patch_all-append cs ds (patch_one c j)

  Distinct-unique :
      (js : List Job) (j k : Job) → Distinct js → Memᴰ j js → Memᴰ k js → j.id ≡ k.id → j ≡ k
  Distinct-unique [] j k d mj mk e = elim mj [ ]
  Distinct-unique (y ∷ ys) j k (h, d) (Memᴰ.head p) (Memᴰ.head q) e = p ∙ sym q
  Distinct-unique (y ∷ ys) j k (h, d) (Memᴰ.head p) (Memᴰ.tail n) e =
      absurd (All-Memᴰ _ ys h n (sym e ∙ ap (λ (x : Job). x.id) p))
  Distinct-unique (y ∷ ys) j k (h, d) (Memᴰ.tail m) (Memᴰ.head q) e =
      absurd (All-Memᴰ _ ys h m (e ∙ ap (λ (x : Job). x.id) q))
  Distinct-unique (y ∷ ys) j k (h, d) (Memᴰ.tail m) (Memᴰ.tail n) e = Distinct-unique ys j k d m n e

  patch_one-child_once_self :
      (job : Job) → patch_one job (child_once job.id job) ≡ cancelled_row user now job.id job
  unfolding patch_one child_once cancelled_row cancellation_patch
  patch_one-child_once_self job = ground arith

  patch_one-child_once_other :
      (i : ℕ) (job j : Job)
      → job.id ≡ i
      → (j.id == i) ≡ false
      → patch_one job (child_once i j) ≡ cancelled_row user now i j
  unfolding patch_one child_once cancelled_row cancellation_patch
  patch_one-child_once_other i job j e h = ground arith

  -- The children's updates and then the job's own: each row as the description says.
  pub patch_all-request :
      (js : List Job) (job j : Job)
      → Distinct js
      → Memᴰ job js
      → Memᴰ j js
      → patch_all (select (is_live_child job.id) js ++ job ∷ []) j ≡ cancelled_row user now job.id j
  unfolding patch_all
  patch_all-request js job j d mj m =
      patch_all-append (select (is_live_child job.id) js) (job ∷ []) j
      ∙ ap (patch_all (job ∷ [])) (patch_all-children job.id js j d m)
      ∙ elim (Bool-cases (j.id == job.id)) [
        | inl same ↦
            let e : job ≡ j = Distinct-unique js job j d mj m (sym ((==_iff _ _).0 same)) in
            subst
              (λ x. patch_all (job ∷ []) (child_once job.id x) ≡ cancelled_row user now job.id x) e
              (patch_one-child_once_self job)
        | inr other ↦ patch_one-child_once_other job.id job j refl other
      ]
