-- ===== src/Studio/PartialOcr.antt =====
-- The analysis of a book whose OCR lost pages: the test that apps/api/src/analysis/analysis.service.ts
-- makes before it starts one, and what the studio's plan says of it.
use audio_book.Base.{Bool, true, Option, some, String, [], ◌∷◌, any, str_eq, ◌≡◌, refl}
use audio_book.Progress.{
  Aggregates, partial_ocr, ingestion, analysis, compute_stages, ingestion_stage, analysis_stage,
  director_stage, tts_stage, assembly_stage, ingestion_status,
}
use audio_book.Studio.{
  CastingState, book_unread, by_stage, status_of, plan_entry, blocked_reason_for,
}

-- `INGESTION_COMPLETE_STATUSES` and its test by `includes`.
unfoldable pub is_ingestion_complete : String → Bool
is_ingestion_complete status = any (λ s. str_eq status s) ("READY" ∷ "PARTIAL_OCR" ∷ [])

ingestion_partial_ocr :
    (a : Aggregates)
    → a.version_status ≡ some "PARTIAL_OCR"
    → status_of (compute_stages a) ingestion ≡ partial_ocr
unfolding status_of by_stage compute_stages ingestion_stage analysis_stage director_stage tts_stage
    assembly_stage ingestion_status
ingestion_partial_ocr a e = rw e refl

-- The API admits the analysis of a book whose version is PARTIAL_OCR, but the studio's plan calls it
-- blocked because the book is unread.
pub partial_ocr_blocked :
    (a : Aggregates) (casting : Option CastingState) (script : Option String)
    → a.version_status ≡ some "PARTIAL_OCR"
    → (is_ingestion_complete "PARTIAL_OCR" ≡ true)
      × ((plan_entry (compute_stages a) casting script analysis).blocked_reason ≡ some book_unread)
unfolding is_ingestion_complete plan_entry blocked_reason_for
partial_ocr_blocked a casting script e = (refl, rw (ingestion_partial_ocr a e) refl)
