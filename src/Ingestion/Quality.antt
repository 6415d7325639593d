-- ===== src/Ingestion/Quality.antt =====
-- packages/ingestion/src/quality-report.ts: `buildQualityReport` and its four checks. The ratio of
-- characters is compared by cross-multiplication, and the sentences of `detail` are left out.
use audio_book.Base.{
  ℕ, suc, zero, ◌+◌, ◌*◌, Bool, true, false, ◌&&◌, ◌||◌, not, Option, none, some, List, [], ◌∷◌,
  ◌++◌, ◌==◌, ltb, any, length, if◌then◌else◌,
}
use audio_book.Ingestion.Model.{Text, ExtractedPage, PageOutcome, page_ok}
use audio_book.Ingestion.Text.{same_text, text_length}
use audio_book.Ingestion.Structure.{CanonicalParagraph, CanonicalChapter, is_empty}
pub mod Checks
pub mod Repeats
pub mod Passing

pub data QcOutcome : Type 0 where
  pass warn needs_review : QcOutcome

pub data CheckName : Type 0 where
  content_loss_ratio empty_chapters duplicate_paragraphs page_coverage : CheckName

pub record QcCheck : Type 0 where
  pub check : CheckName
  pub outcome : QcOutcome
  pub affected_chapter_ids : List ℕ

pub record QualityReport : Type 0 where
  pub outcome : QcOutcome
  pub checks : List QcCheck

-- `OUTCOME_RANK`
abbrev pub outcome_rank : QcOutcome → ℕ
outcome_rank pass = 0
outcome_rank warn = 1
outcome_rank needs_review = 2

unfoldable pub check_content_loss_ratio : ℕ → ℕ → QcCheck
check_content_loss_ratio raw normalized = record {
  check = content_loss_ratio;
  outcome =
      if raw == 0
      then pass
      else if ltb (normalized * 5) (raw * 2)
      then needs_review
      else if ltb (normalized * 10) (raw * 7)
      then warn
      else pass;
  affected_chapter_ids = [];
}

unfoldable pub empty_of : List CanonicalChapter → List ℕ
empty_of [] = []
empty_of (c ∷ cs) =
    let rest = empty_of cs in if is_empty c.paragraphs then c.order_index ∷ rest else rest

unfoldable pub check_empty_chapters : List CanonicalChapter → QcCheck
check_empty_chapters chapters = record {
  check = empty_chapters;
  outcome = if is_empty (empty_of chapters) then pass else needs_review;
  affected_chapter_ids = empty_of chapters;
}

-- A set of numbers, in ascending order.
abbrev pub add_id : ℕ → List ℕ → List ℕ
add_id i [] = i ∷ []
add_id i (j ∷ js) =
    let rest = add_id i js in if i == j then j ∷ js else if ltb i j then i ∷ j ∷ js else j ∷ rest

abbrev pub seen_in : Text → List (Text × ℕ) → Option ℕ
seen_in text [] = none
seen_in text ((t, i) ∷ seen) = if same_text t text then some i else seen_in text seen

-- `seen` and `affected`
pub record Scan : Type 0 where
  pub seen : List (Text × ℕ)
  pub affected : List ℕ

unfoldable pub scan_paragraph : ℕ → CanonicalParagraph → Scan → Scan
scan_paragraph chapter p st =
    if ltb (text_length p.draft.text) 40 then st else elim (seen_in p.draft.text st.seen) [
      | none ↦ record st { seen = st.seen ++ (p.draft.text, chapter) ∷ [] }
      | some existing ↦ record st { affected = add_id chapter (add_id existing st.affected) }
    ]

unfoldable pub scan_paragraphs : ℕ → List CanonicalParagraph → Scan → Scan
scan_paragraphs chapter [] st = st
scan_paragraphs chapter (p ∷ ps) st = scan_paragraphs chapter ps (scan_paragraph chapter p st)

unfoldable pub scan_chapters : List CanonicalChapter → Scan → Scan
scan_chapters [] st = st
scan_chapters (c ∷ cs) st = scan_chapters cs (scan_paragraphs c.order_index c.paragraphs st)

unfoldable pub check_duplicate_paragraphs : List CanonicalChapter → QcCheck
check_duplicate_paragraphs chapters =
    let scanned = scan_chapters chapters (record { seen = []; affected = [] }) in
    record {
      check = duplicate_paragraphs;
      outcome = if is_empty scanned.affected then pass else warn;
      affected_chapter_ids = scanned.affected;
    }

abbrev pub max_page : List ExtractedPage → ℕ
max_page [] = 0
max_page (p ∷ ps) = if ltb (max_page ps) p.page_number then p.page_number else max_page ps

abbrev pub is_covered : ℕ → List ExtractedPage → Bool
is_covered n pages = any (λ p. p.page_number == n) pages

-- The pages up to `n` that are missing, the last one first.
unfoldable pub missing_upto : ℕ → List ExtractedPage → List ℕ
missing_upto zero pages = []
missing_upto (suc n) pages =
    let rest = missing_upto n pages in if is_covered (suc n) pages then rest else suc n ∷ rest

abbrev pub is_page_ok : PageOutcome → Bool
is_page_ok page_ok = true
is_page_ok _ = false

unfoldable pub check_page_coverage : List ExtractedPage → QcCheck
check_page_coverage pages = record {
  check = page_coverage;
  outcome =
      if is_empty (missing_upto (max_page pages) pages)
      then (if any (λ p. not (is_page_ok p.status)) pages then warn else pass)
      else needs_review;
  affected_chapter_ids = [];
}

unfoldable pub worse : QcOutcome → QcOutcome → QcOutcome
worse worst o = if ltb (outcome_rank worst) (outcome_rank o) then o else worst

unfoldable pub worst_of : QcOutcome → List QcCheck → QcOutcome
worst_of worst [] = worst
worst_of worst (c ∷ cs) = worst_of (worse worst c.outcome) cs

abbrev pub page_checks : Option (List ExtractedPage) → List QcCheck
page_checks none = []
page_checks (some pages) = check_page_coverage pages ∷ []

unfoldable pub build_quality_report :
    List CanonicalChapter → ℕ → ℕ → Option (List ExtractedPage) → QualityReport
build_quality_report chapters raw normalized pages =
    let checks =
      check_content_loss_ratio raw normalized
      ∷ check_empty_chapters chapters
      ∷ check_duplicate_paragraphs chapters
      ∷ page_checks pages in
    record { outcome = worst_of pass checks; checks = checks }
