-- ===== src/Ingestion/Structure.antt =====
-- packages/ingestion/src/structure/detect-structure.ts: `splitIntoChapters`,
-- `splitChapterIntoSections`; Structure/Place is `detectStructure`.
use audio_book.Base.{
  ℕ, suc, ◌+◌, Bool, true, false, ◌&&◌, ◌||◌, not, Option, none, some, List, [], ◌∷◌, ◌++◌, ◌==◌,
  length, last?, map, select, is_some, if◌then◌else◌,
}
use audio_book.Ingestion.Model.{
  Text, Unicode, ExtractedBlock, ExtractedDocument, ExtractionMethod, SourceLocator, pdf_at,
  epub_at, image_at, BlockType, heading, page_artifact, SourceKind, epub_source, IngestionConfig,
}
use audio_book.Ingestion.Text.{codes, same_text}
use audio_book.Ingestion.Normalize.{normalize_text, begins}
use audio_book.Ingestion.Noise.{is_page_number_like}
use audio_book.Ingestion.Headings.{MatterType, is_chapter_heading, classify_matter_type}
pub mod Place
pub mod Split
pub mod Kept
pub mod Spine

-- A paragraph of `splitChapterIntoSections`, before it has its place.
pub record Draft : Type 0 where
  pub text : Text
  pub raw_text : Text
  pub section_order_index : Option ℕ
  pub source_page_number : Option ℕ
  pub source_page_end_number : Option ℕ
  pub source_locator : SourceLocator
  pub extraction_method : ExtractionMethod
  pub extraction_confidence : Option ℕ

pub record CanonicalParagraph : Type 0 where
  pub order_index : ℕ
  pub spine_position : ℕ
  pub draft : Draft

pub record CanonicalSection : Type 0 where
  pub order_index : ℕ
  pub spine_start : ℕ
  pub spine_end : ℕ
  pub title : Option Text

pub record CanonicalChapter : Type 0 where
  pub order_index : ℕ
  pub spine_start : ℕ
  pub spine_end : ℕ
  pub title : Option Text
  pub matter_type : MatterType
  pub sections : List CanonicalSection
  pub paragraphs : List CanonicalParagraph

pub data Warning : Type 0 where
  no_chapters : Warning
  empty_chapter : ℕ → Option Text → Warning

pub record StructureResult : Type 0 where
  pub chapters : List CanonicalChapter
  pub warnings : List Warning

pub record RawChapter : Type 0 where
  pub title : Option Text
  pub blocks : List ExtractedBlock

-- The chapters so far, the last of them current, and `lastSpineIndex`.
pub record SplitState : Type 0 where
  pub chapters : List RawChapter
  pub last_spine_index : Option ℕ

abbrev pub is_heading : ExtractedBlock → Bool
is_heading b = elim b.block_type [ heading ↦ true | _ ↦ false ]

abbrev pub is_page_artifact : ExtractedBlock → Bool
is_page_artifact b = elim b.block_type [ page_artifact ↦ true | _ ↦ false ]

unfoldable pub spine_index : SourceLocator → Option ℕ
spine_index (epub_at i path offset) = some i
spine_index l = none

abbrev pub differs : ℕ → Option ℕ → Bool
differs i none = true
differs i (some j) = not (i == j)

unfoldable pub new_spine_item : Bool → Option ℕ → Option ℕ → Bool
new_spine_item is_epub none last = false
new_spine_item is_epub (some i) last = is_epub && differs i last

-- `(block.headingLevel ?? 2) === 1`
abbrev pub is_top_level : Option ℕ → Bool
is_top_level none = false
is_top_level (some level) = level == 1

abbrev pub is_empty {ℓ} : {A : Type ℓ} → List A → Bool
is_empty [] = true
is_empty (x ∷ xs) = false

unfoldable pub starts_new_chapter : Unicode → Bool → SplitState → ExtractedBlock → Bool
starts_new_chapter u is_epub st b =
    is_empty st.chapters
    || new_spine_item is_epub (spine_index b.locator) st.last_spine_index
    || (is_heading b && not is_epub && is_chapter_heading u b.text)
    || (is_heading b && is_epub && is_top_level b.heading_level)

-- `current.blocks.push(block)`
unfoldable pub push_block : ExtractedBlock → List RawChapter → List RawChapter
push_block b [] = []
push_block b (r ∷ []) = record r { blocks = r.blocks ++ b ∷ [] } ∷ []
push_block b (r ∷ q ∷ rs) = r ∷ push_block b (q ∷ rs)

unfoldable pub place_block : Unicode → Bool → SplitState → ExtractedBlock → List RawChapter
place_block u is_epub st b =
    if starts_new_chapter u is_epub st b
    then st.chapters
      ++ (if is_heading b
          then record { title = some b.text; blocks = [] }
          else record { title = none; blocks = b ∷ [] })
        ∷ []
    else push_block b st.chapters

unfoldable pub split_from : Unicode → Bool → SplitState → List ExtractedBlock → List RawChapter
split_from u is_epub st [] = st.chapters
split_from u is_epub st (b ∷ blocks) =
    split_from u is_epub
      (record {
        chapters = place_block u is_epub st b;
        last_spine_index = elim (spine_index b.locator) [
          | none ↦ st.last_spine_index
          | some i ↦ some i
        ];
      })
      blocks

unfoldable pub split_into_chapters : Unicode → Bool → List ExtractedBlock → List RawChapter
split_into_chapters u is_epub blocks =
    split_from u is_epub (record { chapters = []; last_spine_index = none }) blocks

pub record SectionTitle : Type 0 where
  pub order_index : ℕ
  pub title : Text

pub record Sectioned : Type 0 where
  pub sections_list : List SectionTitle
  pub paragraphs : List Draft

abbrev pub page_of : SourceLocator → Option ℕ
page_of (pdf_at page i bbox) = some page
page_of l = none

-- `/\p{Ll}-$/u`
unfoldable pub ends_hyphenated : Unicode → Text → Bool
ends_hyphenated u [] = false
ends_hyphenated u (c ∷ []) = false
ends_hyphenated u (c ∷ d ∷ []) = u.is_lower_letter c && d == 45
ends_hyphenated u (c ∷ d ∷ e ∷ s) = ends_hyphenated u (d ∷ e ∷ s)

-- `slice(0, -1)`, where the last character is a hyphen.
unfoldable pub without_last : Text → Text
without_last [] = []
without_last (c ∷ []) = []
without_last (c ∷ d ∷ s) = c ∷ without_last (d ∷ s)

abbrev pub same_index : Option ℕ → Option ℕ → Bool
same_index none none = true
same_index (some i) (some j) = i == j
same_index _ _ = false

-- Whether the block goes on with the word that the previous paragraph breaks off.
unfoldable pub continues : Unicode → Bool → Option ℕ → Text → Draft → Bool
continues u dehyphenates section text previous =
    dehyphenates
    && same_index previous.section_order_index section
    && ends_hyphenated u previous.text
    && begins u.is_lower_letter text

unfoldable pub merge_block : Text → ExtractedBlock → Draft → Draft
merge_block text b previous = record previous {
  text = without_last previous.text ++ text;
  raw_text = previous.raw_text ++ 10 ∷ b.text;
  source_page_end_number = elim (page_of b.locator) [
    | none ↦ previous.source_page_end_number
    | some page ↦ some page
  ];
}

unfoldable pub draft_of : Option ℕ → Text → ExtractedBlock → Draft
draft_of section text b = record {
  text = text;
  raw_text = b.text;
  section_order_index = section;
  source_page_number = page_of b.locator;
  source_page_end_number = page_of b.locator;
  source_locator = b.locator;
  extraction_method = b.extraction_method;
  extraction_confidence = b.confidence;
}

-- The block of a text joins the last paragraph or becomes one.
unfoldable pub add_block :
    Unicode → Bool → Option ℕ → Text → ExtractedBlock → List Draft → List Draft
add_block u dehyphenates section text b [] = draft_of section text b ∷ []
add_block u dehyphenates section text b (d ∷ []) =
    if continues u dehyphenates section text d
    then merge_block text b d ∷ []
    else d ∷ draft_of section text b ∷ []
add_block u dehyphenates section text b (d ∷ e ∷ ds) =
    d ∷ add_block u dehyphenates section text b (e ∷ ds)

-- Whether the text of a block, which is no heading, becomes a part of a paragraph.
unfoldable pub is_kept : Unicode → Bool → ExtractedBlock → Bool
is_kept u dehyphenates b =
    not (is_page_artifact b)
    && not (is_page_number_like u b.text)
    && not (is_empty (normalize_text u dehyphenates b.text))

-- `currentSectionIndex`
abbrev pub current_section : List SectionTitle → Option ℕ
current_section sections = elim (last? sections) [ none ↦ none | some s ↦ some s.order_index ]

-- One turn of the loop.
unfoldable pub section_step : Unicode → Bool → Sectioned → ExtractedBlock → Sectioned
section_step u dehyphenates st b =
    let next = length st.sections_list in
    let current = current_section st.sections_list in
    if is_heading b
    then record st {
      sections_list = st.sections_list ++ record { order_index = next; title = b.text } ∷ [];
    }
    else if is_kept u dehyphenates b
    then record st {
      paragraphs =
          add_block u dehyphenates current (normalize_text u dehyphenates b.text) b st.paragraphs;
    }
    else st

unfoldable pub sections_from : Unicode → Bool → Sectioned → List ExtractedBlock → Sectioned
sections_from u dehyphenates st [] = st
sections_from u dehyphenates st (b ∷ blocks) =
    sections_from u dehyphenates (section_step u dehyphenates st b) blocks

unfoldable pub split_chapter_into_sections : Unicode → Bool → List ExtractedBlock → Sectioned
split_chapter_into_sections u dehyphenates blocks =
    sections_from u dehyphenates (record { sections_list = []; paragraphs = [] }) blocks
