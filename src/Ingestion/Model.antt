-- ===== src/Ingestion/Model.antt =====
-- packages/ingestion/src/model.ts and the part of config.ts that the pipeline reads.
use audio_book.Base.{ℕ, Bool, Option, String, List}

abbrev pub Text : Type 0
Text = List ℕ

-- What the code relies on from the tables of Unicode: canonical composition, the categories of
-- letters and of lower-case letters, and `toLowerCase`.
pub record Unicode : Type 0 where
  pub nfc : Text → Text
  pub is_letter : ℕ → Bool
  pub is_lower_letter : ℕ → Bool
  pub to_lower_case : Text → Text

pub data SourceKind : Type 0 where
  pdf_source epub_source image_set_source : SourceKind

pub data ExtractionMethod : Type 0 where
  digital_text ocr epub_spine image_ocr : ExtractionMethod

pub data BlockType : Type 0 where
  heading paragraph list_item blockquote table caption footnote page_artifact : BlockType

-- The page, the place on it and its box; the spine item, the path and the offset; the image.
pub data SourceLocator : Type 0 where
  pdf_at : ℕ → ℕ → Option (List ℕ) → SourceLocator
  epub_at : ℕ → String → ℕ → SourceLocator
  image_at : ℕ → Option (List ℕ) → SourceLocator

pub record ExtractedBlock : Type 0 where
  pub order : ℕ
  pub block_type : BlockType
  pub text : Text
  pub heading_level : Option ℕ
  pub locator : SourceLocator
  pub extraction_method : ExtractionMethod
  pub confidence : Option ℕ

pub data PageOutcome : Type 0 where
  page_ok page_needs_review page_failed : PageOutcome

pub record ExtractedPage : Type 0 where
  pub page_number : ℕ
  pub extraction_method : ExtractionMethod
  pub status : PageOutcome
  pub char_count : ℕ

pub record ParserIdentity : Type 0 where
  pub provider_id : String
  pub model_id : String
  pub version : String

pub record ExtractedDocument : Type 0 where
  pub source_kind : SourceKind
  pub pages : Option (List ExtractedPage)
  pub blocks : List ExtractedBlock
  pub parser_identity : ParserIdentity
  pub title : Option Text
  pub language : Option Text

pub record IngestionConfig : Type 0 where
  pub normalization_version : String
  pub max_file_size_bytes : ℕ
  pub dehyphenate : Bool
