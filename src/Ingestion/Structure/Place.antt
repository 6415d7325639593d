-- ===== src/Ingestion/Structure/Place.antt =====
-- `detectStructure` of packages/ingestion/src/structure/detect-structure.ts: the places of paragraphs,
-- sections and chapters.
use audio_book.Base.{
  ℕ, suc, ◌+◌, Bool, true, false, Option, some, List, [], ◌∷◌, ltb, length, map, select,
  if◌then◌else◌,
}
use audio_book.Ingestion.Model.{Unicode, ExtractedDocument, SourceKind, epub_source}
use audio_book.Ingestion.Headings.{classify_matter_type}
use audio_book.Ingestion.Structure.{
  Draft, CanonicalParagraph, CanonicalSection, CanonicalChapter, no_chapters, empty_chapter,
  StructureResult, RawChapter, SectionTitle, is_empty, same_index, split_into_chapters,
  split_chapter_into_sections,
}

unfoldable pub number_paragraphs : ℕ → ℕ → List Draft → List CanonicalParagraph
number_paragraphs order spine [] = []
number_paragraphs order spine (d ∷ ds) =
    record { order_index = order; spine_position = spine; draft = d }
    ∷ number_paragraphs (suc order) (suc spine) ds

abbrev pub positions : List CanonicalParagraph → List ℕ
positions [] = []
positions (p ∷ ps) = p.spine_position ∷ positions ps

-- `Math.min(…)` and `Math.max(…)` of some numbers.
abbrev pub least : ℕ → List ℕ → ℕ
least n [] = n
least n (m ∷ ms) = least (if ltb m n then m else n) ms

abbrev pub greatest : ℕ → List ℕ → ℕ
greatest n [] = n
greatest n (m ∷ ms) = greatest (if ltb n m then m else n) ms

-- `values.length > 0 ? Math.min(...values) : otherwise`, and with `max`.
abbrev pub least_or : ℕ → List ℕ → ℕ
least_or otherwise [] = otherwise
least_or otherwise (n ∷ ns) = least n ns

abbrev pub greatest_or : ℕ → List ℕ → ℕ
greatest_or otherwise [] = otherwise
greatest_or otherwise (n ∷ ns) = greatest n ns

unfoldable pub in_section : ℕ → CanonicalParagraph → Bool
in_section i p = same_index p.draft.section_order_index (some i)

unfoldable pub place_section : ℕ → ℕ → List CanonicalParagraph → SectionTitle → CanonicalSection
place_section first last paragraphs s =
    let inside = positions (select (in_section s.order_index) paragraphs) in
    record {
      order_index = s.order_index;
      spine_start = least_or first inside;
      spine_end = greatest_or last inside;
      title = some s.title;
    }

-- The chapter of some paragraphs, where `counter` is the next free position after them.
unfoldable pub place_chapter :
    Unicode
    → ℕ
    → ℕ
    → Option (List ℕ)
    → List SectionTitle
    → List CanonicalParagraph
    → CanonicalChapter
place_chapter u index counter title sections paragraphs =
    let first = least_or counter (positions paragraphs) in
    let last = greatest_or counter (positions paragraphs) in
    record {
      order_index = index;
      spine_start = first;
      spine_end = last;
      title = title;
      matter_type = classify_matter_type u title;
      sections = map (place_section first last paragraphs) sections;
      paragraphs = paragraphs;
    }

-- The loop over the raw chapters, from the index and the position that come next.
unfoldable pub place_chapters : Unicode → Bool → ℕ → ℕ → List RawChapter → StructureResult
place_chapters u dehyphenates index spine [] = record { chapters = []; warnings = [] }
place_chapters u dehyphenates index spine (r ∷ rs) =
    let split = split_chapter_into_sections u dehyphenates r.blocks in
    let paragraphs = number_paragraphs 0 spine split.paragraphs in
    let counter = spine + length split.paragraphs in
    let rest = place_chapters u dehyphenates (suc index) counter rs in
    record {
      chapters =
          place_chapter u index counter r.title split.sections_list paragraphs ∷ rest.chapters;
      warnings =
          if is_empty paragraphs
          then empty_chapter index r.title ∷ rest.warnings
          else rest.warnings;
    }

abbrev pub is_epub : SourceKind → Bool
is_epub epub_source = true
is_epub _ = false

unfoldable pub detect_structure : Unicode → Bool → ExtractedDocument → StructureResult
detect_structure u dehyphenates document =
    let raw = split_into_chapters u (is_epub document.source_kind) document.blocks in
    let placed = place_chapters u dehyphenates 0 0 raw in
    record placed {
      warnings = if is_empty raw then no_chapters ∷ placed.warnings else placed.warnings;
    }
