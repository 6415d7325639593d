-- ===== src/Ingestion/Quality/Passing.antt =====
-- When the report of packages/ingestion/src/quality-report.ts passes.
use audio_book.Base.{ℕ, ◌*◌, ◌≤◌, Option, none, some, List, [], ◌∷◌, ◌≡◌, ◌↔◌, refl, All, arith}
use audio_book.Ingestion.Model.{ExtractedPage}
use audio_book.Ingestion.Structure.{CanonicalChapter}
use audio_book.Ingestion.Quality.{
  QcOutcome, pass, warn, needs_review, QcCheck, worse, worst_of, page_checks, build_quality_report,
}
use audio_book.Ingestion.Quality.Checks.{
  Filled, Covered, check_content_loss_ratio_passes, check_empty_chapters_passes,
  check_page_coverage_passes,
}
use audio_book.Ingestion.Quality.Repeats.{Unrepeated, check_duplicate_paragraphs_passes}

worse_pass : (a b : QcOutcome) → (worse a b ≡ pass) ↔ ((a ≡ pass) × (b ≡ pass))
unfolding worse
worse_pass pass pass = (λ _. (refl, refl), λ _. refl)
worse_pass pass warn = ((λ no. cc), λ h. h.1)
worse_pass pass needs_review = ((λ no. cc), λ h. h.1)
worse_pass warn pass = ((λ no. cc), λ h. h.0)
worse_pass warn warn = ((λ no. cc), λ h. h.0)
worse_pass warn needs_review = ((λ no. cc), λ h. h.1)
worse_pass needs_review b = ((λ no. ground arith), λ h. cc)

worst_of_pass :
    (w : QcOutcome) (cs : List QcCheck)
    → (worst_of w cs ≡ pass) ↔ ((w ≡ pass) × All (λ c. c.outcome ≡ pass) cs)
unfolding worst_of
worst_of_pass w [] = (λ e. (e, tt), λ h. h.0)
worst_of_pass w (c ∷ cs) =
    let (to, from) = worst_of_pass (worse w c.outcome) cs in
    let (both, back) = worse_pass w c.outcome in
    (λ e. ((both (to e).0).0, ((both (to e).0).1, (to e).1)), λ h. from (back (h.0, h.1.0), h.1.1))

abbrev pub PagesCovered : Option (List ExtractedPage) → Type 0
PagesCovered none = Unit
PagesCovered (some pages) = Covered pages

page_checks_pass :
    (pages : Option (List ExtractedPage))
    → All (λ c. c.outcome ≡ pass) (page_checks pages) ↔ PagesCovered pages
page_checks_pass none = (λ _. tt, λ _. tt)
page_checks_pass (some pages) =
    let (to, from) = check_page_coverage_passes pages in (λ h. to h.0, λ h. (from h, tt))

-- The report passes exactly when at least seven tenths of the characters are left, every chapter has
-- a paragraph, no paragraph of 40 units or more repeats an earlier one, and, of a document with pages,
-- every page up to the last one is there and in order.
pub build_quality_report_passes :
    (chapters : List CanonicalChapter) (raw normalized : ℕ) (pages : Option (List ExtractedPage))
    → ((build_quality_report chapters raw normalized pages).outcome ≡ pass)
      ↔ ((raw * 7 ≤ normalized * 10) × Filled chapters × Unrepeated chapters × PagesCovered pages)
unfolding build_quality_report
build_quality_report_passes chapters raw normalized pages =
    let (loss, loss_back) = check_content_loss_ratio_passes raw normalized in
    let (full, full_back) = check_empty_chapters_passes chapters in
    let (fresh, fresh_back) = check_duplicate_paragraphs_passes chapters in
    let (cover, cover_back) = page_checks_pass pages in
    let (to, from) =
      worst_of_pass pass (build_quality_report chapters raw normalized pages).checks in
    (
      λ e. let (_, (a, (b, (c, rest)))) = to e in (loss a, full b, fresh c, cover rest),
      λ h.
          let (a, b, c, rest) = h in
          from (refl, (loss_back a, (full_back b, (fresh_back c, cover_back rest)))),
    )
