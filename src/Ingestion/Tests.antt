-- ===== src/Ingestion/Tests.antt =====
-- A small document for packages/ingestion/src, whose second word is broken between two blocks.
use audio_book.Base.{
  ℕ, ◌*◌, ◌≤◌, Bool, true, false, ◌&&◌, none, some, String, List, [], ◌∷◌, leb, map, length, All,
  ◌≡◌, ◌↔◌, refl,
}
use audio_book.Ingestion.Noise.{
  after_page, count_block, count_blocks, detect_noise, is_page_number_like,
  normalize_for_comparison, numeric_at, page_number_pattern, page_numbers, repeated_keys,
  roman_numeral_pattern,
}
use audio_book.Ingestion.Structure.{
  add_block, continues, draft_of, ends_hyphenated, is_kept, merge_block, new_spine_item,
  place_block, push_block, section_step, sections_from, spine_index, split_chapter_into_sections,
  split_from, split_into_chapters, starts_new_chapter, without_last,
}
use audio_book.Base.Text.{is_space}
use audio_book.Ingestion.Model.{
  Unicode, BlockType, heading, paragraph, ExtractedBlock, ExtractedDocument, ExtractedPage, page_ok,
  digital_text, pdf_at, pdf_source,
}
use audio_book.Ingestion.Text.{
  codes, fold_case, after_spaces, after_word, collapse_from, is_digit, is_roman, is_word, trim,
  trim_end, trim_start, word_run,
}
use audio_book.Ingestion.Normalize.{
  normalize_text, after_char, breaks_word, dehyphenate, dehyphenate_from, is_ascii_lower, join_crlf,
  looks_like_continuation, unbroken,
}
use audio_book.Ingestion.Normalize.Fixed.{normalize_text_again}
use audio_book.Ingestion.Headings.{
  is_chapter_heading, bare_roman_or_number, chapter_pattern, classify_matter_type,
  is_chapter_number, numbered_after, without_dot,
}
use audio_book.Ingestion.Structure.Place.{
  detect_structure, in_section, number_paragraphs, place_chapter, place_chapters, place_section,
}
use audio_book.Ingestion.Structure.Split.{gather}
use audio_book.Ingestion.Structure.Kept.{
  chapter_lines, chapter_titles, kept_line, heading_of, detect_structure_keeps,
}
use audio_book.Ingestion.Structure.Spine.{
  chapter_positions, count_from, Brackets, detect_structure_positions,
}
use audio_book.Ingestion.Quality.{
  build_quality_report, pass, needs_review, check_content_loss_ratio, check_duplicate_paragraphs,
  check_empty_chapters, check_page_coverage, empty_of, missing_upto, scan_chapters, scan_paragraph,
  scan_paragraphs, worse, worst_of,
}
use audio_book.Ingestion.Quality.Checks.{Filled}
use audio_book.Ingestion.Quality.Repeats.{Unrepeated}
use audio_book.Ingestion.Quality.Passing.{PagesCovered, build_quality_report_passes}

abbrev ascii_letter : ℕ → Bool
ascii_letter c = leb 97 (fold_case c) && leb (fold_case c) 122

abbrev ascii : Unicode
ascii = record {
  nfc = λ s. s;
  is_letter = ascii_letter;
  is_lower_letter = λ c. leb 97 c && leb c 122;
  to_lower_case = λ s. map fold_case s;
}

abbrev block : ℕ → BlockType → String → ExtractedBlock
block page type text = record {
  order = page;
  block_type = type;
  text = codes text;
  heading_level = none;
  locator = pdf_at page 0 none;
  extraction_method = digital_text;
  confidence = none;
}

abbrev small_book : ExtractedDocument
small_book = record {
  source_kind = pdf_source;
  pages = none;
  blocks =
      block 1 heading "Chapter 1"
      ∷ block 1 paragraph "It was an extra-"
      ∷ block 1 paragraph "12"
      ∷ block 2 paragraph "ordinary  day."
      ∷ block 3 heading "Chapter II"
      ∷ block 3 paragraph "The end."
      ∷ [];
  parser_identity = record { provider_id = "p"; model_id = "m"; version = "1" };
  title = none;
  language = none;
}

normalize_text_example :
    normalize_text ascii true (codes " well-\nknown\tand  extra-\nOrdinary ")
    ≡ codes "wellknown and extra-Ordinary"
unfolding is_space fold_case is_digit is_roman is_word trim_start trim_end trim collapse_from
    after_word after_spaces word_run join_crlf breaks_word is_ascii_lower looks_like_continuation
    after_char dehyphenate_from dehyphenate unbroken normalize_text
normalize_text_example = refl

normalize_text_again_example :
    normalize_text ascii true (normalize_text ascii false (codes "a-\nb"))
    ≡ normalize_text ascii false (codes "a-\nb")
unfolding is_space fold_case is_digit is_roman is_word trim_start trim_end trim collapse_from
    after_word after_spaces word_run join_crlf breaks_word is_ascii_lower looks_like_continuation
    after_char dehyphenate_from dehyphenate unbroken normalize_text
normalize_text_again_example = normalize_text_again ascii false true (codes "a-\nb") refl

detect_structure_keeps_example :
    let result = detect_structure ascii true small_book in
    (gather chapter_lines result.chapters ≡ gather (kept_line ascii true) small_book.blocks)
    × (gather chapter_titles result.chapters ≡ gather heading_of small_book.blocks)
detect_structure_keeps_example = detect_structure_keeps ascii true small_book

detect_structure_positions_example :
    let chapters = (detect_structure ascii true small_book).chapters in
    let found = gather chapter_positions chapters in
    (found ≡ count_from 0 (length found)) × All Brackets chapters
detect_structure_positions_example = detect_structure_positions ascii true small_book

-- The word that the page break splits is whole again, and its second chapter is found.
small_book_positions :
    gather chapter_positions (detect_structure ascii true small_book).chapters ≡ 0 ∷ 1 ∷ []
unfolding is_space fold_case is_digit is_roman is_word trim_start trim_end trim collapse_from
    after_word after_spaces word_run join_crlf breaks_word is_ascii_lower looks_like_continuation
    after_char dehyphenate_from dehyphenate unbroken normalize_text after_page page_number_pattern
    roman_numeral_pattern normalize_for_comparison is_page_number_like count_block count_blocks
    repeated_keys numeric_at page_numbers detect_noise is_chapter_number numbered_after
    chapter_pattern without_dot bare_roman_or_number is_chapter_heading classify_matter_type
    spine_index new_spine_item starts_new_chapter push_block place_block split_from
    split_into_chapters ends_hyphenated without_last continues merge_block draft_of add_block
    is_kept section_step sections_from split_chapter_into_sections number_paragraphs in_section
    place_section place_chapter place_chapters detect_structure
small_book_positions = refl

abbrev pages : List ExtractedPage
pages =
    record { page_number = 2; extraction_method = digital_text; status = page_ok; char_count = 9 }
    ∷ []

build_quality_report_passes_example :
    let chapters = (detect_structure ascii true small_book).chapters in
    ((build_quality_report chapters 10 9 (some pages)).outcome ≡ pass)
    ↔ ((10 * 7 ≤ 9 * 10) × Filled chapters × Unrepeated chapters × PagesCovered (some pages))
build_quality_report_passes_example =
    build_quality_report_passes (detect_structure ascii true small_book).chapters 10 9 (some pages)

-- A missing first page asks for a review.
missing_page : (build_quality_report [] 10 9 (some pages)).outcome ≡ needs_review
unfolding check_content_loss_ratio empty_of check_empty_chapters scan_paragraph scan_paragraphs
    scan_chapters check_duplicate_paragraphs missing_upto check_page_coverage worse worst_of
    build_quality_report
missing_page = refl

chapter_headings :
    map
      (is_chapter_heading ascii)
      (codes "PART  IV: home" ∷ codes "xii." ∷ codes "chapter 2b" ∷ codes "Index" ∷ [])
    ≡ true ∷ true ∷ false ∷ true ∷ []
unfolding is_space fold_case is_digit is_roman is_word trim_start trim_end trim collapse_from
    after_word after_spaces word_run after_page page_number_pattern roman_numeral_pattern
    normalize_for_comparison is_page_number_like count_block count_blocks repeated_keys numeric_at
    page_numbers detect_noise is_chapter_number numbered_after chapter_pattern without_dot
    bare_roman_or_number is_chapter_heading classify_matter_type
chapter_headings = refl
