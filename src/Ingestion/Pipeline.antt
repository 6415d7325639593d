-- ===== src/Ingestion/Pipeline.antt =====
-- packages/ingestion/src/pipeline.ts and detect-format.ts: `runIngestionPipeline` and `detectFormat`.
-- The sniffing of a file's type, the parsers with their OCR, and the digests are arguments.
use audio_book.Base.{
  ℕ, ◌+◌, Bool, false, ◌&&◌, Option, none, some, String, List, [], ◌∷◌, str_eq, ltb, length, take,
  map, Result, ok, err, ◌>>=◌, if◌then◌else◌,
}
use audio_book.Base.Text.{includes}
use audio_book.Ingestion.Model.{
  Text, Unicode, SourceKind, pdf_source, epub_source, image_set_source, ParserIdentity,
  ExtractedBlock, ExtractedDocument, ExtractedPage, IngestionConfig,
}
use audio_book.Ingestion.Text.{codes, same_text, text_length}
use audio_book.Ingestion.Failure.{IngestionError, invalid_file, unsupported_format, file_too_large}
use audio_book.Ingestion.Structure.{CanonicalChapter, Warning, is_empty}
use audio_book.Ingestion.Structure.Place.{detect_structure}
use audio_book.Ingestion.Structure.Split.{gather}
use audio_book.Ingestion.Quality.{QualityReport, build_quality_report}
use audio_book.Ingestion.Markdown.{render_markdown, join_lines}

-- The bytes of the file, the declared type, and what each library makes of them.
pub record Libraries : Type 0 where
  pub file_type : List ℕ → Option String
  pub parse :
      SourceKind → List ℕ → String → IngestionConfig → Result IngestionError ExtractedDocument
  pub sha256_hex : Text → String
  pub config_hash : IngestionConfig → String
  pub ocr_identity : Option ParserIdentity

pub record FormatDetectionResult : Type 0 where
  pub source_kind : SourceKind
  pub sniffed_mime_type : String
  pub declared_vs_sniffed_match : Bool

-- `IMAGE_MIME_TYPES`
abbrev image_mime_types : List String
image_mime_types = "image/jpeg" ∷ "image/png" ∷ "image/webp" ∷ "image/tiff" ∷ []

unfoldable pub sniffed_format : String → String → Result IngestionError FormatDetectionResult
sniffed_format declared mime =
    if str_eq mime "application/epub+zip"
    then ok (record {
      source_kind = epub_source;
      sniffed_mime_type = mime;
      declared_vs_sniffed_match = str_eq declared mime;
    })
    else if includes image_mime_types mime
    then ok (record {
      source_kind = image_set_source;
      sniffed_mime_type = mime;
      declared_vs_sniffed_match = str_eq declared mime;
    })
    else if str_eq mime "application/zip" && str_eq declared "application/epub+zip"
    then ok (record {
      source_kind = epub_source;
      sniffed_mime_type = mime;
      declared_vs_sniffed_match = false;
    })
    else err unsupported_format

unfoldable pub detect_format :
    Libraries → List ℕ → String → Result IngestionError FormatDetectionResult
detect_format libraries buffer declared =
    if is_empty buffer
    then err invalid_file
    else if same_text (take 5 buffer) (codes "%PDF-")
    then ok (record {
      source_kind = pdf_source;
      sniffed_mime_type = "application/pdf";
      declared_vs_sniffed_match = str_eq declared "application/pdf";
    })
    else elim (libraries.file_type buffer) [
      | none ↦ err unsupported_format
      | some mime ↦ sniffed_format declared mime
    ]

pub record IngestionResult : Type 0 where
  pub source_kind : SourceKind
  pub chapters : List CanonicalChapter
  pub pages : Option (List ExtractedPage)
  pub warnings : List Warning
  pub quality_report : QualityReport
  pub parser_identity : ParserIdentity
  pub ocr_identity : Option ParserIdentity
  pub normalization_version : String
  pub config_hash : String
  pub raw_text_content_hash : String
  pub content_hash : String
  pub markdown : Text
  pub title : Option Text
  pub language : Option Text

unfoldable pub sum_block_chars : List ExtractedBlock → ℕ
sum_block_chars [] = 0
sum_block_chars (b ∷ blocks) = text_length b.text + sum_block_chars blocks

abbrev pub paragraph_texts : List CanonicalChapter → List Text
paragraph_texts chapters = gather (λ c. map (λ p. p.draft.text) c.paragraphs) chapters

-- `normalizedCharCount`
unfoldable pub sum_lengths : List Text → ℕ
sum_lengths [] = 0
sum_lengths (t ∷ ts) = text_length t + sum_lengths ts

unfoldable pub ingest_document :
    Unicode → Libraries → IngestionConfig → SourceKind → ExtractedDocument → IngestionResult
ingest_document u libraries config kind document =
    let structure = detect_structure u config.dehyphenate document in
    let texts = paragraph_texts structure.chapters in
    record {
      source_kind = kind;
      chapters = structure.chapters;
      pages = document.pages;
      warnings = structure.warnings;
      quality_report =
          build_quality_report structure.chapters (sum_block_chars document.blocks)
            (sum_lengths texts) document.pages;
      parser_identity = document.parser_identity;
      ocr_identity = libraries.ocr_identity;
      normalization_version = config.normalization_version;
      config_hash = libraries.config_hash config;
      raw_text_content_hash = libraries.sha256_hex (join_lines (map (λ b. b.text) document.blocks));
      content_hash = libraries.sha256_hex (join_lines texts);
      markdown = render_markdown structure.chapters;
      title = document.title;
      language = document.language;
    }

unfoldable pub run_ingestion_pipeline :
    Unicode → Libraries → IngestionConfig → List ℕ → String → Result IngestionError IngestionResult
run_ingestion_pipeline u libraries config buffer declared =
    if ltb config.max_file_size_bytes (length buffer) then err file_too_large else do
      format ← detect_format libraries buffer declared
      document ← libraries.parse format.source_kind buffer declared config
      ok (ingest_document u libraries config format.source_kind document)
