-- ===== src/Progress/Status.antt =====
-- The states that the progress read model reports, apps/api/src/progress/progress.service.ts:
-- what `jobDerivedStatus` and the mappings of the stages make of jobs and counts.
use audio_book.Base.{
  ℕ, ◌+◌, ◌≤◌, ◌<◌, ◌≡◌, ◌≢◌, ◌↔◌, inl, inr, true, false, arith, leb, ltb, Bool-cases, Bool, Option,
  some, some_inj, List, [], ◌∷◌, refl, sym, ◌∙◌, subst, ◌&&◌, if◌then◌else◌, ◌==◌, leb→le, lt→ltb,
}
use audio_book.Progress.{
  Aggregates, StageStatus, running, queued, blocked, completed, failed, cancelled, not_started,
  partial, partial_ocr, needs_review, validating, StageName, tts, assembly, job_derived_status,
  stage_job_types, tts_status, assembly_status, tts_stage, assembly_stage, is_completed,
  is_not_started, is_reached, fraction, positive,
}
use audio_book.Progress.Counts.{JobCount, count, counts_of, or_zero, any_blocked, round, min_of}
use audio_book.Progress.Rounding.{round-full, round-le, round-all}

blocked_wins :
    (a b c : Bool) (rest : StageStatus)
    → is_not_started (
        if a
        then running
        else if b
        then running
        else if c
        then queued
        else if true
        then blocked
        else rest)
      ≡ false
blocked_wins true b c rest = refl
blocked_wins false true c rest = refl
blocked_wins false false true rest = refl
blocked_wins false false false rest = refl

blocked-not_started :
    (stage : StageName) (jobs : List JobCount)
    → any_blocked jobs (stage_job_types stage) ≡ true
    → is_not_started (job_derived_status stage jobs) ≡ false
unfolding job_derived_status any_blocked
blocked-not_started stage jobs e = rw e (
    blocked_wins (ltb 0 (count jobs (stage_job_types stage) ("RUNNING" ∷ [])))
      (ltb 0 (count jobs (stage_job_types stage) ("RETRYING" ∷ [])))
      (ltb 0 (count jobs (stage_job_types stage) ("CREATED" ∷ "QUEUED" ∷ []))) not_started)

and_false : (a b : Bool) → b ≡ false → (a && b) ≡ false
and_false true b e = e
and_false false b e = refl

if_same : (b : Bool) → (if b then completed else completed) ≡ completed
if_same true = refl
if_same false = refl

-- What `ttsStatus` answers while chunks are missing.
never_completed : (d : StageStatus) → (if is_completed d && true then partial else d) ≢ completed
never_completed running e = cc
never_completed queued e = cc
never_completed blocked e = cc
never_completed completed e = cc
never_completed failed e = cc
never_completed cancelled e = cc
never_completed not_started e = cc
never_completed partial_ocr e = cc
never_completed needs_review e = cc
never_completed validating e = cc
never_completed partial e = cc

never_blocked :
    (stage : StageName) (jobs : List JobCount)
    → (is_not_started (job_derived_status stage jobs) && any_blocked jobs (stage_job_types stage))
      ≡ false
never_blocked stage jobs = elim (Bool-cases (any_blocked jobs (stage_job_types stage))) [
  | inl e ↦ rw (e, blocked-not_started stage jobs e) refl
  | inr e ↦
      and_false (is_not_started (job_derived_status stage jobs))
        (any_blocked jobs (stage_job_types stage)) e
]

-- The state of the assembly is COMPLETED when every chapter is assembled, and otherwise just what
-- its jobs say: the last test of `assemblyStatus`, which would report BLOCKED, never applies.
pub assembly_status_lem :
    (jobs : List JobCount) (assembled : ℕ) (total : Option ℕ)
    → assembly_status jobs assembled total
      ≡ (if is_reached assembled total then completed else job_derived_status assembly jobs)
unfolding assembly_status
assembly_status_lem jobs assembled total = rw (never_blocked assembly jobs) refl

succeeded_wins :
    (stage : StageName) (jobs : List JobCount)
    → count jobs (stage_job_types stage) ("RUNNING" ∷ []) ≡ 0
    → count jobs (stage_job_types stage) ("RETRYING" ∷ []) ≡ 0
    → count jobs (stage_job_types stage) ("CREATED" ∷ "QUEUED" ∷ []) ≡ 0
    → count jobs (stage_job_types stage) ("BLOCKED" ∷ []) ≡ 0
    → 0 < count jobs (stage_job_types stage) ("SUCCEEDED" ∷ [])
    → job_derived_status stage jobs ≡ completed
unfolding job_derived_status
succeeded_wins stage jobs r t q b s =
    rw (r, t, q, b, lt→ltb 0 (count jobs (stage_job_types stage) ("SUCCEEDED" ∷ [])) s) refl

-- A succeeded assembly job with none left to do makes the assembly COMPLETED, whether or not any
-- chapter is assembled.
pub assembly_stage_by_jobs :
    (a : Aggregates)
    → count a.jobs (stage_job_types assembly) ("RUNNING" ∷ []) ≡ 0
    → count a.jobs (stage_job_types assembly) ("RETRYING" ∷ []) ≡ 0
    → count a.jobs (stage_job_types assembly) ("CREATED" ∷ "QUEUED" ∷ []) ≡ 0
    → count a.jobs (stage_job_types assembly) ("BLOCKED" ∷ []) ≡ 0
    → 0 < count a.jobs (stage_job_types assembly) ("SUCCEEDED" ∷ [])
    → (assembly_stage a).status ≡ completed
unfolding assembly_stage
assembly_stage_by_jobs a r t q b s =
    assembly_status_lem a.jobs (or_zero (counts_of a.chapter_audio "ASSEMBLED"))
      (positive a.chapter_count)
    ∙ rw (succeeded_wins assembly a.jobs r t q b s) (
        if_same
          (is_reached (or_zero (counts_of a.chapter_audio "ASSEMBLED")) (positive a.chapter_count)))

tts_status_reached :
    (jobs : List JobCount) (done n : ℕ)
    → 0 < n
    → n ≤ done
    → tts_status jobs done (some n) ≡ completed
unfolding tts_status
tts_status_reached jobs done n pos h =
    let e : leb n done ≡ true = ground arith in
    let z : (n == 0) ≡ false = ground arith in rw (z, e) refl

tts_status_short :
    (jobs : List JobCount) (done n : ℕ) → done < n → tts_status jobs done (some n) ≢ completed
unfolding tts_status
tts_status_short jobs done n h =
    let e : leb n done ≡ false = ground arith in
    let z : (n == 0) ≡ false = ground arith in
    let l : ltb done n ≡ true = ground arith in
    rw (z, e, l) (never_completed (job_derived_status tts jobs))

-- The words of the script's chunks are rendered: GENERATED, VALIDATED or ASSEMBLED audio chunks.
abbrev pub rendered : Aggregates → ℕ
rendered a =
    or_zero (counts_of a.audio "GENERATED")
    + or_zero (counts_of a.audio "VALIDATED")
    + or_zero (counts_of a.audio "ASSEMBLED")

tts_status_completed :
    (jobs : List JobCount) (done n : ℕ)
    → 0 < n
    → (tts_status jobs done (positive n) ≡ completed) ↔ (n ≤ done)
tts_status_completed jobs done n pos = rw (lt→ltb 0 n pos) (
  λ e. elim (Bool-cases (leb n done)) [
    | inl h ↦ leb→le n done h
    | inr h ↦ elim (tts_status_short jobs done n (ground arith) e) [ ]
  ],
  λ h. tts_status_reached jobs done n pos h,
)

fraction_full :
    (done n : ℕ) → 0 < n → n < 20000 → (fraction done (positive n) ≡ some 10000) ↔ (n ≤ done)
fraction_full done n pos small = rw (lt→ltb 0 n pos) (
  λ e.
      let full : n ≤ min_of done n =
        round-full (min_of done n) n pos small
          (subst (λ x. 10000 ≤ x) (sym (some_inj e)) (omega arith)) in
      ground arith,
  λ h.
      let m : min_of done n ≡ n = ground arith in
      let top : round n n ≤ 10000 = round-le n n pos (omega arith) in
      let bottom : 10000 ≤ round n n = round-all n pos in
      let same : round n n ≡ 10000 = omega arith in rw (m, same) refl,
)

-- A script with chunks is reported COMPLETED by TTS exactly when every chunk is rendered, whatever
-- the jobs say, and its figure is 1 exactly then too, if it has fewer than 20000 chunks.
pub tts_stage_completed :
    (a : Aggregates)
    → 0 < a.chunk_count
    → a.chunk_count < 20000
    → (((tts_stage a).status ≡ completed) ↔ (a.chunk_count ≤ rendered a))
      × (((tts_stage a).progress ≡ some 10000) ↔ (a.chunk_count ≤ rendered a))
unfolding tts_stage
tts_stage_completed a pos small = (
  tts_status_completed a.jobs (rendered a) a.chunk_count pos,
  fraction_full (rendered a) a.chunk_count pos small,
)
