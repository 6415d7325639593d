-- ===== src/Errors/Laws.antt =====
-- How the status and the retryability of an error agree, packages/errors/src/index.ts.
use audio_book.Base.{ℕ, Bool, true, false, ◌||◌, none, String, ◌==◌, leb, ltb, ◌&&◌, ◌≡◌, refl}
use audio_book.Errors.{
  ErrorCategory, validation, malformed, authentication, authorization, not_found,
  method_not_allowed, gone, conflict, payload_too_large, unsupported_media, quota,
  dependency_failure, queue_failure, storage_failure, internal, category_http_status,
  default_retryable, AppErrorOptions, app_error, app, to_error_envelope, http_status_for_error,
}

abbrev pub worth_retrying : ℕ → Bool
worth_retrying status = status == 429 || leb 502 status

abbrev pub is_error_status : ℕ → Bool
is_error_status status = leb 400 status && ltb status 600

retry_by_status :
    (c : ErrorCategory)
    → (default_retryable c ≡ worth_retrying (category_http_status c))
      × (is_error_status (category_http_status c) ≡ true)
unfolding default_retryable category_http_status
retry_by_status validation = (refl, refl)
retry_by_status malformed = (refl, refl)
retry_by_status authentication = (refl, refl)
retry_by_status authorization = (refl, refl)
retry_by_status not_found = (refl, refl)
retry_by_status method_not_allowed = (refl, refl)
retry_by_status gone = (refl, refl)
retry_by_status conflict = (refl, refl)
retry_by_status payload_too_large = (refl, refl)
retry_by_status unsupported_media = (refl, refl)
retry_by_status quota = (refl, refl)
retry_by_status dependency_failure = (refl, refl)
retry_by_status queue_failure = (refl, refl)
retry_by_status storage_failure = (refl, refl)
retry_by_status internal = (refl, refl)

-- An error whose author does not say whether it is retryable is reported as retryable exactly when
-- its status is 429 or at least 502, and its status is one of an error. So an internal error, whose
-- status is 500, is reported as not retryable.
pub to_error_envelope_retryable :
    (o : AppErrorOptions) (request_id trace_id : String)
    → o.retryable ≡ none
    → let thrown = app (app_error o) in
      let status = http_status_for_error thrown in
      let envelope = to_error_envelope thrown request_id trace_id in
      (envelope.retryable ≡ worth_retrying status)
      × (is_error_status status ≡ true)
      × ((category_http_status internal ≡ 500) × (default_retryable internal ≡ false))
unfolding to_error_envelope http_status_for_error app_error category_http_status default_retryable
to_error_envelope_retryable o request_id trace_id e =
    let (retry, class) = retry_by_status o.category in (rw e retry, class, (refl, refl))
