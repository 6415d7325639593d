-- ===== src/Studio/Plan.antt =====
-- What the generation plan of apps/web/src/lib/generation.ts offers, and when it is finished.
use audio_book.Base.{
  ◌≤◌, ◌<◌, Bool, true, false, ◌&&◌, Option, none, some, String, List, [], ◌∷◌, ◌++◌, map, find,
  All, ◌≡◌, ◌⊎◌, inl, inr, refl, sym, ap, ◌∙◌, Bool-cases,
}
use audio_book.Progress.{
  Aggregates, StageStatus, StageProgress, completed, running, queued, blocked, failed, cancelled,
  not_started, partial_ocr, needs_review, validating, partial, is_completed, compute_stages,
  ingestion_stage, analysis_stage, director_stage, tts_stage, assembly_stage,
}
use audio_book.Progress.Status.{rendered, tts_stage_completed}
use audio_book.Studio.{
  CastingState, StagePlanEntry, build_generation_plan, plan_entry, is_due, by_stage, status_of,
  order,
}

-- The first member of a list that a test finds, or that there is none.
find-split {ℓ} :
    {A : Type ℓ} (p : A → Bool) (xs : List A)
    → ((before after : List A) × (x : A) × (xs ≡ before ++ x ∷ after)
        × (find p xs ≡ some x)
        × (p x ≡ true)
        × All (λ y. p y ≡ false) before)
      ⊎ ((find p xs ≡ none) × All (λ y. p y ≡ false) xs)
find-split p [] = inr (refl, tt)
find-split p (x ∷ xs) = elim (Bool-cases (p x)) [
  | inl e ↦ inl ([], xs, x, refl, rw e refl, e, tt)
  | inr e ↦ elim (find-split p xs) [
    | inl (before, after, y, split, found, due, earlier) ↦
        inl (x ∷ before, after, y, ap (◌∷◌ x) split, rw e found, due, (e, earlier))
    | inr (missing, rest) ↦ inr (rw e missing, (e, rest))
  ]
]

-- The plan offers the first stage of the pipeline that is neither complete nor running, all stages
-- before it being complete or running; and it offers none only when every stage is one or the
-- other.
build_generation_plan_next :
    (stages : List StageProgress) (casting : Option CastingState) (script : Option String)
    → let plan = build_generation_plan stages casting script in
      ((before after : List StagePlanEntry) × (entry : StagePlanEntry) × (plan.entries
          ≡ before ++ entry ∷ after)
        × (plan.next ≡ some entry)
        × (is_due entry ≡ true)
        × All (λ e. is_due e ≡ false) before)
      ⊎ ((plan.next ≡ none) × All (λ e. is_due e ≡ false) plan.entries)
unfolding build_generation_plan
build_generation_plan_next stages casting script =
    find-split is_due (map (plan_entry stages casting script) order)

is_completed_iff : (s : StageStatus) → is_completed s ≡ true → s ≡ completed
is_completed_iff completed e = refl
is_completed_iff running e = cc
is_completed_iff queued e = cc
is_completed_iff blocked e = cc
is_completed_iff failed e = cc
is_completed_iff cancelled e = cc
is_completed_iff not_started e = cc
is_completed_iff partial_ocr e = cc
is_completed_iff needs_review e = cc
is_completed_iff validating e = cc
is_completed_iff partial e = cc

and_split : (a b : Bool) → (a && b) ≡ true → (a ≡ true) × (b ≡ true)
and_split true b e = (refl, e)
and_split false b e = cc

finished-fields :
    (a : Aggregates) (casting : Option CastingState) (script : Option String)
    → (build_generation_plan (compute_stages a) casting script).finished ≡ (
        is_completed (ingestion_stage a).status
        && (is_completed (analysis_stage a).status
            && (is_completed (director_stage a).status
                && (is_completed (tts_stage a).status
                    && (is_completed (assembly_stage a).status && true)))))
unfolding build_generation_plan compute_stages plan_entry status_of by_stage ingestion_stage
    analysis_stage director_stage tts_stage assembly_stage
finished-fields a casting script = refl

-- The studio calls the generation finished, from what the server reports of a book, only when each
-- of the five stages is COMPLETED, and then every chunk of the script is rendered, if it has chunks and
-- fewer than 20000.
build_generation_plan_finished :
    (a : Aggregates) (casting : Option CastingState) (script : Option String)
    → 0 < a.chunk_count
    → a.chunk_count < 20000
    → (build_generation_plan (compute_stages a) casting script).finished ≡ true
    → All (λ s. s.status ≡ completed) (compute_stages a) × (a.chunk_count ≤ rendered a)
unfolding compute_stages
build_generation_plan_finished a casting script pos small e =
    let (i, e1) = and_split _ _ (sym (finished-fields a casting script) ∙ e) in
    let (n, e2) = and_split _ _ e1 in
    let (d, e3) = and_split _ _ e2 in
    let (t, e4) = and_split _ _ e3 in
    let (s, _) = and_split _ _ e4 in
    let rendering = is_completed_iff (tts_stage a).status t in
    (
      (
        is_completed_iff (ingestion_stage a).status i,
        (
          is_completed_iff (analysis_stage a).status n,
          (
            is_completed_iff (director_stage a).status d,
            (rendering, (is_completed_iff (assembly_stage a).status s, tt)),
          ),
        ),
      ),
      (tts_stage_completed a pos small).0.0 rendering,
    )
