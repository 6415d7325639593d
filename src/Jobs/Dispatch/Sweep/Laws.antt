-- ===== src/Jobs/Dispatch/Sweep/Laws.antt =====
-- What one poll of the sweeper dispatches, and what it leaves.
use mathlib.Core.List.{Memᴰ}
use audio_book.Base.{
  ℕ, suc, ◌≤◌, Bool, true, false, ◌&&◌, not, List, [], ◌∷◌, ◌++◌, ◌≡◌, refl, sym, ap, ◌∙◌, subst,
  length, select, length-select, take_all, All, All-map, ◌⊎◌, Memᴰ-select, arith, leb, inl, inr,
  Bool-cases, is_some,
}
use audio_book.Jobs.Model.{Job, World}
use audio_book.Jobs.Dispatch.{Broker}
use audio_book.Jobs.Dispatch.Sweep.Rows.{
  dispatchable, add_calls, flat, swept, sweep_rows-jobs, sweep_rows-Calls, swept_claimed,
  swept_unqueued,
}
use audio_book.Jobs.Dispatch.Sweep.{is_orphan, insert_by_age, by_age, claim, poll_once}

length-insert_by_age : (j : Job) (js : List Job) → length (insert_by_age j js) ≡ suc (length js)
unfolding insert_by_age
length-insert_by_age j [] = refl
length-insert_by_age j (k ∷ ks) = ground (arith, length-insert_by_age j ks)

length-by_age : (js : List Job) → length (by_age js) ≡ length js
unfolding by_age
length-by_age [] = refl
length-by_age (j ∷ js) = length-insert_by_age j (by_age js) ∙ ap suc (length-by_age js)

Memᴰ-insert_by_age_self : (j : Job) (js : List Job) → Memᴰ j (insert_by_age j js)
unfolding insert_by_age
Memᴰ-insert_by_age_self j [] = Memᴰ.head refl
Memᴰ-insert_by_age_self j (k ∷ ks) = elim (Bool-cases (leb j.created_at k.created_at)) [
  | inl e ↦ rw e (Memᴰ.head refl)
  | inr e ↦ rw e (Memᴰ.tail (Memᴰ-insert_by_age_self j ks))
]

Memᴰ-insert_by_age : (j : Job) (js : List Job) {x : Job} → Memᴰ x js → Memᴰ x (insert_by_age j js)
unfolding insert_by_age
Memᴰ-insert_by_age j [] m = elim m [ ]
Memᴰ-insert_by_age j (k ∷ ks) (Memᴰ.head p) = elim (Bool-cases (leb j.created_at k.created_at)) [
  | inl e ↦ rw e (Memᴰ.tail (Memᴰ.head p))
  | inr e ↦ rw e (Memᴰ.head p)
]
Memᴰ-insert_by_age j (k ∷ ks) (Memᴰ.tail m) = elim (Bool-cases (leb j.created_at k.created_at)) [
  | inl e ↦ rw e (Memᴰ.tail (Memᴰ.tail m))
  | inr e ↦ rw e (Memᴰ.tail (Memᴰ-insert_by_age j ks m))
]

Memᴰ-by_age : (js : List Job) {x : Job} → Memᴰ x js → Memᴰ x (by_age js)
unfolding by_age
Memᴰ-by_age [] m = elim m [ ]
Memᴰ-by_age (j ∷ js) (Memᴰ.head p) =
    subst (λ y. Memᴰ y (insert_by_age j (by_age js))) (sym p)
      (Memᴰ-insert_by_age_self j (by_age js))
Memᴰ-by_age (j ∷ js) (Memᴰ.tail m) = Memᴰ-insert_by_age j (by_age js) (Memᴰ-by_age js m)

orphan_unqueued :
    (now stale : ℕ) (j : Job) → is_orphan now stale j ≡ true → is_some j.queued_at ≡ false
unfolding is_orphan
orphan_unqueued now stale j h = ground arith

module _ (locked : Job → Bool) (now stale batch : ℕ) (jobs : List Job)
    (big : length jobs ≤ batch) where
  abbrev wanted : Job → Bool
  wanted j = is_orphan now stale j && not (locked j)

  pub claim-Memᴰ :
      (j : Job)
      → Memᴰ j jobs
      → is_orphan now stale j ≡ true
      → locked j ≡ false
      → Memᴰ j (claim locked now stale batch jobs)
  unfolding claim
  claim-Memᴰ j m o free =
      rw
        (take_all batch (by_age (select wanted jobs))
          (omega (arith, length-by_age (select wanted jobs), length-select wanted jobs, big)))
        (Memᴰ-by_age (select wanted jobs) (Memᴰ-select wanted jobs m (rw (o, free))))

  left_over :
      (broker : Broker) (j : Job)
      → Memᴰ j jobs
      → is_orphan now stale (swept broker now (claim locked now stale batch jobs) j) ≡ true
      → (locked j ≡ true) ⊎ (dispatchable broker j ≡ false)
  left_over broker j m h = elim (Bool-cases (locked j)) [
    | inl held ↦ inl held
    | inr free ↦ elim (Bool-cases (dispatchable broker j)) [
      | inr refused ↦ inr refused
      | inl ready ↦
          let rows = claim locked now stale batch jobs in
          let unqueued = orphan_unqueued now stale (swept broker now rows j) h in
          let same = swept_unqueued broker now rows j unqueued in
          let orphan = subst (λ x. is_orphan now stale x ≡ true) same h in
          cc (swept_claimed broker now rows j j (claim-Memᴰ j m orphan free) refl ready, unqueued)
    ]
  ]

-- What a poll leaves: where the batch is as large as the table, a row that is still an orphan was
-- locked by another sweeper, or it names an unknown queue, or its enqueue failed. So when every
-- queue is known and every enqueue succeeds, the sweeper leaves no orphan.
pub poll_once_drains :
    (broker : Broker) (locked : Job → Bool) (now stale batch : ℕ) (w : World)
    → length w.jobs ≤ batch
    → All
        (λ j. is_orphan now stale j ≡ true → (locked j ≡ true) ⊎ (dispatchable broker j ≡ false))
        (poll_once broker locked now stale batch w).0.jobs
unfolding poll_once
poll_once_drains broker locked now stale batch w big =
    rw (sweep_rows-jobs broker now (claim locked now stale batch w.jobs) (w, 0)) (
      All-map _ (swept broker now (claim locked now stale batch w.jobs)) w.jobs λ j m h.
        subst (λ x. (locked x ≡ true) ⊎ (dispatchable broker x ≡ false))
          (sym (
            swept_unqueued broker now (claim locked now stale batch w.jobs) j (
              orphan_unqueued now stale (swept broker now (claim locked now stale batch w.jobs) j)
                h)))
          (left_over locked now stale batch w.jobs big broker j m h))

-- One poll makes exactly one call of the queue for each claimed row that names a known queue and
-- whose enqueue succeeds, oldest first, with the row's own envelope, and answers how many.
poll_once-calls :
    (broker : Broker) (locked : Job → Bool) (now stale batch : ℕ) (w : World)
    → let ready = select (dispatchable broker) (claim locked now stale batch w.jobs) in
      ((poll_once broker locked now stale batch w).0.calls ≡ w.calls ++ flat add_calls ready)
      × ((poll_once broker locked now stale batch w).1 ≡ length ready)
unfolding poll_once
poll_once-calls broker locked now stale batch w =
    let (calls, count) = sweep_rows-Calls broker now (claim locked now stale batch w.jobs) (w, 0) in
    (calls, omega (arith, count))
