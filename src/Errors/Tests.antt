-- ===== src/Errors/Tests.antt =====
-- A concrete error of packages/errors/src/index.ts.
use audio_book.Base.{[], true, false, none, ◌≡◌, refl}
use audio_book.Errors.{
  app_error, app, to_error_envelope, http_status_for_error, category_http_status, default_retryable,
  internal,
}
use audio_book.Errors.Laws.{is_error_status, to_error_envelope_retryable}

to_error_envelope_retryable_example :
    ((to_error_envelope
        (app (
          app_error (record {
            code = "INTERNAL_ERROR";
            category = internal;
            details = [];
            retryable = none;
          })))
        "r"
        "t").retryable
      ≡ false)
    × (is_error_status (
          http_status_for_error (
            app (
              app_error (record {
                code = "INTERNAL_ERROR";
                category = internal;
                details = [];
                retryable = none;
              }))))
        ≡ true)
    × ((category_http_status internal ≡ 500) × (default_retryable internal ≡ false))
unfolding to_error_envelope http_status_for_error app_error category_http_status default_retryable
to_error_envelope_retryable_example =
    to_error_envelope_retryable
      (record { code = "INTERNAL_ERROR"; category = internal; details = []; retryable = none }) "r"
      "t" refl
