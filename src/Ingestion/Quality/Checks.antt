-- ===== src/Ingestion/Quality/Checks.antt =====
-- When the checks of packages/ingestion/src/quality-report.ts for lost text, empty chapters and missing
-- pages pass.
use audio_book.Base.{
  ℕ, suc, zero, ◌*◌, ◌≤◌, Bool, true, false, not, List, [], ◌∷◌, ◌==◌, any, ◌≡◌, ◌↔◌, ◌≢◌, refl,
  sym, ◌∙◌, ==_iff, subst, inl, inr, Bool-cases, All, arith, if◌then◌else◌,
}
use audio_book.Ingestion.Model.{ExtractedPage}
use audio_book.Ingestion.Structure.{CanonicalChapter, is_empty}
use audio_book.Ingestion.Quality.{
  QcOutcome, pass, needs_review, check_content_loss_ratio, empty_of, check_empty_chapters, max_page,
  is_covered, missing_upto, is_page_ok, check_page_coverage,
}

pub check_content_loss_ratio_passes :
    (raw normalized : ℕ)
    → ((check_content_loss_ratio raw normalized).outcome ≡ pass) ↔ (raw * 7 ≤ normalized * 10)
unfolding check_content_loss_ratio
check_content_loss_ratio_passes raw normalized = (ground arith, ground arith)

-- Every chapter has a paragraph.
abbrev pub Filled : List CanonicalChapter → Type 0
Filled = All (λ c. is_empty c.paragraphs ≡ false)

empty_of_none : (cs : List CanonicalChapter) → (is_empty (empty_of cs) ≡ true) ↔ Filled cs
unfolding empty_of
empty_of_none [] = (λ _. tt, λ _. refl)
empty_of_none (c ∷ cs) =
    let (to, from) = empty_of_none cs in
    elim (Bool-cases (is_empty c.paragraphs)) [
      | inl e ↦ rw e ((λ no. cc), λ no. cc)
      | inr e ↦ rw e ((λ h. (refl, to h)), λ h. from h.1)
    ]

-- A check that passes when a test holds, and has another outcome when it does not.
pub passes_if :
    {P : Type 0} (b : Bool) (o : QcOutcome)
    → ((b ≡ true) ↔ P)
    → o ≢ pass
    → ((if b then pass else o) ≡ pass) ↔ P
passes_if true o (to, from) other = (λ _. to refl, λ _. refl)
passes_if false o (to, from) other =
    (λ no. absurd (other no), λ p. let clash : false ≡ true = from p in cc)

pub check_empty_chapters_passes :
    (cs : List CanonicalChapter) → ((check_empty_chapters cs).outcome ≡ pass) ↔ Filled cs
unfolding check_empty_chapters
check_empty_chapters_passes cs =
    passes_if (is_empty (empty_of cs)) needs_review (empty_of_none cs) (λ no. cc)

-- Every page up to the last one is there, and every page is in order.
abbrev pub Covered : List ExtractedPage → Type 0
Covered pages =
    ((n : ℕ) → 1 ≤ n → n ≤ max_page pages → is_covered n pages ≡ true)
    × All (λ p. is_page_ok p.status ≡ true) pages

missing_upto_none :
    (m : ℕ) (pages : List ExtractedPage)
    → (is_empty (missing_upto m pages) ≡ true)
      ↔ ((n : ℕ) → 1 ≤ n → n ≤ m → is_covered n pages ≡ true)
unfolding missing_upto
missing_upto_none zero pages = ((λ _ n low high. absurd (omega arith)), λ _. refl)
missing_upto_none (suc m) pages =
    let (to, from) = missing_upto_none m pages in
    elim (Bool-cases (is_covered (suc m) pages)) [
      | inl e ↦
          let reach : is_empty (missing_upto m pages) ≡ true
              → (n : ℕ) → 1 ≤ n
              → n ≤ suc m
              → is_covered n pages ≡ true =
            λ h n low high. elim (Bool-cases (n == suc m)) [
              | inl same ↦
                  subst (λ k. is_covered k pages ≡ true) (sym ((==_iff n (suc m)).0 same)) e
              | inr other ↦ to h n low (ground arith)
            ] in
          rw e (reach, λ f. from (λ n low high. f n low (omega arith)))
      | inr e ↦ rw e (
        (λ no. cc),
        λ f. let clash : false ≡ true = sym e ∙ f (suc m) (omega arith) (omega arith) in cc,
      )
    ]

pages_in_order :
    (pages : List ExtractedPage)
    → (any (λ p. not (is_page_ok p.status)) pages ≡ false)
      ↔ All (λ p. is_page_ok p.status ≡ true) pages
pages_in_order [] = (λ _. tt, λ _. refl)
pages_in_order (p ∷ ps) =
    let (to, from) = pages_in_order ps in
    elim (Bool-cases (is_page_ok p.status)) [
      | inl e ↦ rw e ((λ h. (refl, to h)), λ h. from h.1)
      | inr e ↦ rw e ((λ no. cc), λ h. cc)
    ]

pub check_page_coverage_passes :
    (pages : List ExtractedPage) → ((check_page_coverage pages).outcome ≡ pass) ↔ Covered pages
unfolding check_page_coverage
check_page_coverage_passes pages =
    let (to, from) = missing_upto_none (max_page pages) pages in
    let (ok_to, ok_from) = pages_in_order pages in
    elim (Bool-cases (is_empty (missing_upto (max_page pages) pages))) [
      | inl e ↦ elim (Bool-cases (any (λ p. not (is_page_ok p.status)) pages)) [
        | inl bad ↦
            rw (e, bad) ((λ no. cc), λ h. let clash : true ≡ false = sym bad ∙ ok_from h.1 in cc)
        | inr fine ↦ rw (e, fine) ((λ _. (to e, ok_to fine)), λ _. refl)
      ]
      | inr e ↦ rw e ((λ no. cc), λ h. let clash : false ≡ true = sym e ∙ from h.0 in cc)
    ]
