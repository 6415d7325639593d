-- ===== src/Ingestion/Failure.antt =====
-- packages/ingestion/src/errors.ts: the classes of errors, and which of them are terminal.
use audio_book.Base.{Bool, true, false, not, String, ◌≡◌, refl}
use audio_book.Errors.{
  ErrorCategory, unsupported_media, validation, payload_too_large, internal, dependency_failure,
}

pub data IngestionError : Type 0 where
  unsupported_format invalid_file corrupted_file file_too_large security_violation : IngestionError
  parser_failed normalization_failed structure_detection_failed : IngestionError
  output_validation_failed ingestion_timeout : IngestionError

-- What a class passes to `AppError`.
pub record IngestionErrorOptions : Type 0 where
  pub code : String
  pub category : ErrorCategory
  pub retryable : Bool

abbrev options_of : String → ErrorCategory → Bool → IngestionErrorOptions
options_of code category retryable = record {
  code = code;
  category = category;
  retryable = retryable;
}

unfoldable pub error_options : IngestionError → IngestionErrorOptions
error_options unsupported_format = options_of "UNSUPPORTED_FORMAT" unsupported_media false
error_options invalid_file = options_of "INVALID_FILE" validation false
error_options corrupted_file = options_of "CORRUPTED_FILE" validation false
error_options file_too_large = options_of "FILE_TOO_LARGE" payload_too_large false
error_options security_violation = options_of "SECURITY_VIOLATION" validation false
error_options parser_failed = options_of "PARSER_FAILED" internal true
error_options normalization_failed = options_of "NORMALIZATION_FAILED" internal true
error_options structure_detection_failed = options_of "STRUCTURE_DETECTION_FAILED" internal true
error_options output_validation_failed = options_of "OUTPUT_VALIDATION_FAILED" internal false
error_options ingestion_timeout = options_of "TIMEOUT" dependency_failure true

unfoldable pub is_terminal_ingestion_error : IngestionError → Bool
is_terminal_ingestion_error unsupported_format = true
is_terminal_ingestion_error invalid_file = true
is_terminal_ingestion_error corrupted_file = true
is_terminal_ingestion_error file_too_large = true
is_terminal_ingestion_error security_violation = true
is_terminal_ingestion_error output_validation_failed = true
is_terminal_ingestion_error _ = false

-- An error is terminal exactly when it is not retryable.
pub is_terminal_ingestion_error_lem :
    (e : IngestionError) → is_terminal_ingestion_error e ≡ not (error_options e).retryable
unfolding is_terminal_ingestion_error error_options
is_terminal_ingestion_error_lem unsupported_format = refl
is_terminal_ingestion_error_lem invalid_file = refl
is_terminal_ingestion_error_lem corrupted_file = refl
is_terminal_ingestion_error_lem file_too_large = refl
is_terminal_ingestion_error_lem security_violation = refl
is_terminal_ingestion_error_lem parser_failed = refl
is_terminal_ingestion_error_lem normalization_failed = refl
is_terminal_ingestion_error_lem structure_detection_failed = refl
is_terminal_ingestion_error_lem output_validation_failed = refl
is_terminal_ingestion_error_lem ingestion_timeout = refl
