-- ===== src/Progress/Bounds.antt =====
-- The figures of the progress read model, apps/api/src/progress/progress.service.ts: their bounds,
-- their growth, and the overall mean.
use audio_book.Base.{
  ℕ, zero, suc, ◌+◌, ◌*◌, ◌≤◌, ◌<◌, ◌≡◌, ◌⊎◌, inl, inr, true, false, arith, lt→ltb, Bool, Option,
  none, some, some_inj, Option-cases, String, List, [], ◌∷◌, length, All, refl, subst,
  if◌then◌else◌, ◌==◌, str_eq,
}
use audio_book.Progress.{
  Aggregates, StageProgress, compute_stages, ingestion_stage, analysis_stage, director_stage,
  tts_stage, assembly_stage, fraction, positive, is,
}
use audio_book.Progress.Counts.{
  JobCount, StatusCount, counts_of, or_zero, ratio, round, min_of, nearest,
}
use audio_book.Progress.Overview.{measurable, sum, mean, overall_progress}
use audio_book.Progress.Rounding.{
  nearest-le, le-nearest, round-le, round_mono, min_of-right, min_of_mono,
}

-- A figure lies between 0 and 1.
abbrev pub IsFigure : Option ℕ → Type 0
IsFigure o = (p : ℕ) → o ≡ some p → p ≤ 10000

-- Two lists of one length, related place by place.
abbrev pub AllTwo {ℓ} : {A : Type ℓ} → (A → A → Type 0) → List A → List A → Type 0
AllTwo R [] [] = Unit
AllTwo R [] (y ∷ ys) = ⊥
AllTwo R (x ∷ xs) [] = ⊥
AllTwo R (x ∷ xs) (y ∷ ys) = R x y × AllTwo R xs ys

-- A later figure is known when an earlier one is, and no smaller.
abbrev pub Grows : Option ℕ → Option ℕ → Type 0
Grows o o' = (p : ℕ) → o ≡ some p → (q : ℕ) × (o' ≡ some q) × (p ≤ q)

Grows-refl : (o : Option ℕ) → Grows o o
Grows-refl o p e = (p, e, omega arith)

IsFigure-some : (p : ℕ) → p ≤ 10000 → IsFigure (some p)
IsFigure-some p h q e = subst (λ x. x ≤ 10000) (some_inj e) h

IsFigure-none : IsFigure none
IsFigure-none q e = cc

positive-suc : (n : ℕ) → positive (suc n) ≡ some (suc n)
positive-suc n = rw (lt→ltb 0 (suc n) (omega arith)) refl

suc_not_zero : (n : ℕ) → (suc n == 0) ≡ false
suc_not_zero n = ground arith

IsFigure-round : (done n : ℕ) → IsFigure (some (round (min_of done (suc n)) (suc n)))
IsFigure-round done n =
    IsFigure-some (round (min_of done (suc n)) (suc n))
      (round-le (min_of done (suc n)) (suc n) (omega arith) (min_of-right done (suc n)))

IsFigure-flag : (b : Bool) → IsFigure (some (if b then 10000 else 0))
IsFigure-flag true = IsFigure-some 10000 (omega arith)
IsFigure-flag false = IsFigure-some 0 (omega arith)

IsFigure-when : (b : Bool) → IsFigure (if b then some 10000 else none)
IsFigure-when true = IsFigure-some 10000 (omega arith)
IsFigure-when false = IsFigure-none

IsFigure-fraction : (done n : ℕ) → IsFigure (fraction done (positive n))
IsFigure-fraction done zero = IsFigure-none
IsFigure-fraction done (suc n) = rw (positive-suc n) (IsFigure-round done n)

IsFigure-ratio : (done : ℕ) (total : Option ℕ) (s : Option String) → IsFigure (ratio done total s)
unfolding ratio
IsFigure-ratio done none none = IsFigure-none
IsFigure-ratio done none (some s) = IsFigure-when (str_eq s "READY")
IsFigure-ratio done (some zero) none = IsFigure-none
IsFigure-ratio done (some zero) (some s) = IsFigure-when (str_eq s "READY")
IsFigure-ratio done (some (suc n)) s = rw (suc_not_zero n) (IsFigure-round done n)

IsFigure-director : (a : Aggregates) → IsFigure (director_stage a).progress
unfolding director_stage
IsFigure-director a = elim (Option-cases a.script_state) [
  | inl e ↦ rw e IsFigure-none
  | inr (s, e) ↦ rw e (IsFigure-flag (is "VALIDATED" a.script_state))
]

-- Every figure that the stages report, for whatever counts the database answers, is at most 1.
compute_stages-IsFigure : (a : Aggregates) → All (λ s. IsFigure s.progress) (compute_stages a)
unfolding compute_stages ingestion_stage analysis_stage tts_stage assembly_stage
compute_stages-IsFigure a = (
  IsFigure-ratio (or_zero (counts_of a.pages "OK") + or_zero (counts_of a.pages "NEEDS_REVIEW"))
      a.pages_total a.version_status,
  (
    IsFigure-fraction a.semantics_count a.scene_count,
    (
      IsFigure-director a,
      (
        IsFigure-fraction
            (or_zero (counts_of a.audio "GENERATED")
              + or_zero (counts_of a.audio "VALIDATED")
              + or_zero (counts_of a.audio "ASSEMBLED"))
            a.chunk_count,
        (IsFigure-fraction (or_zero (counts_of a.chapter_audio "ASSEMBLED")) a.chapter_count, tt),
      ),
    ),
  ),
)

Grows-round :
    (done done' n : ℕ)
    → done ≤ done'
    → Grows
        (some (round (min_of done (suc n)) (suc n)))
        (some (round (min_of done' (suc n)) (suc n)))
Grows-round done done' n h p e = (
  round (min_of done' (suc n)) (suc n),
  refl,
  subst (λ x. x ≤ round (min_of done' (suc n)) (suc n)) (some_inj e)
      (round_mono (min_of done (suc n)) (min_of done' (suc n)) (suc n) (omega arith)
        (min_of_mono done done' (suc n) h)),
)

Grows-fraction :
    (done done' n : ℕ)
    → done ≤ done'
    → Grows (fraction done (positive n)) (fraction done' (positive n))
Grows-fraction done done' zero h = Grows-refl none
Grows-fraction done done' (suc n) h = rw (positive-suc n) (Grows-round done done' n h)

Grows-ratio :
    (done done' : ℕ) (total : Option ℕ) (s : Option String)
    → done ≤ done'
    → Grows (ratio done total s) (ratio done' total s)
unfolding ratio
Grows-ratio done done' none s h = Grows-refl (ratio done none s)
Grows-ratio done done' (some zero) s h = Grows-refl (ratio done (some zero) s)
Grows-ratio done done' (some (suc n)) s h = rw (suc_not_zero n) (Grows-round done done' n h)

-- Finished pages, analysed scenes, rendered chunks and assembled chapters that are added to a book,
-- the totals staying as they are, let no figure of a stage fall or become unknown, whatever
-- happens to the jobs.
pub compute_stages_grow :
    (a : Aggregates) (jobs : List JobCount) (pages audio chapter_audio : List StatusCount)
    (semantics : ℕ)
    → or_zero (counts_of a.pages "OK") + or_zero (counts_of a.pages "NEEDS_REVIEW")
      ≤ or_zero (counts_of pages "OK") + or_zero (counts_of pages "NEEDS_REVIEW")
    → a.semantics_count ≤ semantics
    → or_zero (counts_of a.audio "GENERATED")
        + or_zero (counts_of a.audio "VALIDATED")
        + or_zero (counts_of a.audio "ASSEMBLED")
      ≤ or_zero (counts_of audio "GENERATED")
        + or_zero (counts_of audio "VALIDATED")
        + or_zero (counts_of audio "ASSEMBLED")
    → or_zero (counts_of a.chapter_audio "ASSEMBLED")
      ≤ or_zero (counts_of chapter_audio "ASSEMBLED")
    → AllTwo
        (λ s t. Grows s.progress t.progress)
        (compute_stages a)
        (compute_stages record a {
          jobs = jobs;
          pages = pages;
          semantics_count = semantics;
          audio = audio;
          chapter_audio = chapter_audio;
        })
unfolding compute_stages ingestion_stage analysis_stage director_stage tts_stage assembly_stage
compute_stages_grow a jobs pages audio chapter_audio semantics h1 h2 h3 h4 = (
  Grows-ratio (or_zero (counts_of a.pages "OK") + or_zero (counts_of a.pages "NEEDS_REVIEW"))
      (or_zero (counts_of pages "OK") + or_zero (counts_of pages "NEEDS_REVIEW")) a.pages_total
      a.version_status h1,
  (
    Grows-fraction a.semantics_count semantics a.scene_count h2,
    (
      Grows-refl (director_stage a).progress,
      (
        Grows-fraction
            (or_zero (counts_of a.audio "GENERATED")
              + or_zero (counts_of a.audio "VALIDATED")
              + or_zero (counts_of a.audio "ASSEMBLED"))
            (or_zero (counts_of audio "GENERATED")
              + or_zero (counts_of audio "VALIDATED")
              + or_zero (counts_of audio "ASSEMBLED"))
            a.chunk_count h3,
        (
          Grows-fraction (or_zero (counts_of a.chapter_audio "ASSEMBLED"))
              (or_zero (counts_of chapter_audio "ASSEMBLED")) a.chapter_count h4,
          tt,
        ),
      ),
    ),
  ),
)

-- The mean lies between any two bounds of its terms.
mean-sum :
    (lo hi : ℕ) (ps : List ℕ)
    → All (λ p. (lo ≤ p) × (p ≤ hi)) ps
    → (lo * length ps ≤ sum ps) × (sum ps ≤ hi * length ps)
unfolding sum
mean-sum lo hi [] h = (omega arith, omega arith)
mean-sum lo hi (p ∷ ps) (b, h) = let (low, high) = mean-sum lo hi ps h in (grind arith, grind arith)

length-pos : (p : ℕ) (ps : List ℕ) → 0 < length (p ∷ ps)
length-pos p ps = omega arith

mean-between :
    (lo hi : ℕ) (ps : List ℕ)
    → All (λ p. (lo ≤ p) × (p ≤ hi)) ps
    → ((ps ≡ []) × (mean ps ≡ none)) ⊎ ((m : ℕ) × (mean ps ≡ some m) × (lo ≤ m) × (m ≤ hi))
unfolding mean nearest sum
mean-between lo hi [] h = inl (refl, refl)
mean-between lo hi (p ∷ ps) h =
    let (low, high) = mean-sum lo hi (p ∷ ps) h in
    inr (
      nearest (sum (p ∷ ps)) (length (p ∷ ps)),
      refl,
      le-nearest (sum (p ∷ ps)) (length (p ∷ ps)) lo (length-pos p ps) low,
      nearest-le (sum (p ∷ ps)) (length (p ∷ ps)) hi (length-pos p ps) high,
    )

-- The overall figure is unknown only when every stage's is, and otherwise lies between any bounds of
-- the figures that are known: it is 1 when all that can be measured is finished.
pub overall_progress_between :
    (lo hi : ℕ) (stages : List StageProgress)
    → All (λ p. (lo ≤ p) × (p ≤ hi)) (measurable stages)
    → ((measurable stages ≡ []) × (overall_progress stages ≡ none))
      ⊎ ((m : ℕ) × (overall_progress stages ≡ some m) × (lo ≤ m) × (m ≤ hi))
unfolding overall_progress
overall_progress_between lo hi stages h = mean-between lo hi (measurable stages) h
