-- ===== src/Errors.antt =====
-- packages/errors/src/index.ts: the error taxonomy, the status of each category, and the envelope
-- that a thrown value becomes. A request's identifiers are texts.
pub mod Laws
mod Tests
use audio_book.Base.{ℕ, Bool, true, false, Option, none, some, String, List}

pub data ErrorCategory : Type 0 where
  validation malformed authentication authorization not_found method_not_allowed : ErrorCategory
  gone conflict payload_too_large unsupported_media quota : ErrorCategory
  dependency_failure queue_failure storage_failure internal : ErrorCategory

unfoldable pub category_http_status : ErrorCategory → ℕ
category_http_status validation = 422
category_http_status malformed = 400
category_http_status authentication = 401
category_http_status authorization = 403
category_http_status not_found = 404
category_http_status method_not_allowed = 405
category_http_status gone = 410
category_http_status conflict = 409
category_http_status payload_too_large = 413
category_http_status unsupported_media = 415
category_http_status quota = 429
category_http_status dependency_failure = 502
category_http_status queue_failure = 503
category_http_status storage_failure = 503
category_http_status internal = 500

unfoldable pub default_retryable : ErrorCategory → Bool
default_retryable quota = true
default_retryable dependency_failure = true
default_retryable queue_failure = true
default_retryable storage_failure = true
default_retryable validation = false
default_retryable malformed = false
default_retryable authentication = false
default_retryable authorization = false
default_retryable not_found = false
default_retryable method_not_allowed = false
default_retryable gone = false
default_retryable conflict = false
default_retryable payload_too_large = false
default_retryable unsupported_media = false
default_retryable internal = false

pub record ErrorDetail : Type 0 where
  pub field : Option String
  pub issue : String

-- `message` is left out of both records: it is free text that no code reads.
pub record AppError : Type 0 where
  pub code : String
  pub category : ErrorCategory
  pub http_status : ℕ
  pub details : List ErrorDetail
  pub retryable : Bool

-- The options of the constructor: `category` is fixed by each subclass, `retryable` is optional.
pub record AppErrorOptions : Type 0 where
  pub code : String
  pub category : ErrorCategory
  pub details : List ErrorDetail
  pub retryable : Option Bool

abbrev or_else : Option Bool → Bool → Bool
or_else none d = d
or_else (some b) d = b

-- `new AppError(options)`
unfoldable pub app_error : AppErrorOptions → AppError
unfolding category_http_status default_retryable
app_error o = record {
  code = o.code;
  category = o.category;
  http_status = category_http_status o.category;
  details = o.details;
  retryable = or_else o.retryable (default_retryable o.category);
}

-- What JavaScript can throw: an error of this application, or any other value.
pub data Thrown : Type 0 where
  app : AppError → Thrown
  other : String → Thrown

pub record ErrorEnvelope : Type 0 where
  pub code : String
  pub details : List ErrorDetail
  pub request_id : String
  pub trace_id : String
  pub retryable : Bool

unfoldable pub to_error_envelope : Thrown → String → String → ErrorEnvelope
to_error_envelope (app e) request_id trace_id = record {
  code = e.code;
  details = e.details;
  request_id = request_id;
  trace_id = trace_id;
  retryable = e.retryable;
}
to_error_envelope (other raw) request_id trace_id = record {
  code = "INTERNAL_ERROR";
  details = List.[];
  request_id = request_id;
  trace_id = trace_id;
  retryable = false;
}

unfoldable pub http_status_for_error : Thrown → ℕ
http_status_for_error (app e) = e.http_status
http_status_for_error (other raw) = 500
