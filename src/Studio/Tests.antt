-- ===== src/Studio/Tests.antt =====
-- A concrete book for the plan of apps/web/src/lib/generation.ts, and concrete references for
-- apps/web/src/lib/safe-redirect.ts.
use audio_book.Base.{
  Option, String, ◌&&◌, ◌==◌, if◌then◌else◌, true, none, some, [], ◌∷◌, ◌≡◌, refl,
}
use audio_book.Progress.{Aggregates, compute_stages, analysis}
use audio_book.Studio.{plan_entry, book_unread}
use audio_book.Studio.PartialOcr.{is_ingestion_complete, partial_ocr_blocked}
use audio_book.Studio.Redirect.{
  IsLocal, safe_return_path, without_breaks, without_breaks-without_breaks,
  safe_return_path-IsLocal, safe_return_path_remote,
}
use Prim.Native.Char.{code}

abbrev finished_book : Aggregates
finished_book = record {
  jobs = [];
  version_status = some "READY";
  pages_total = none;
  pages = [];
  scene_count = 3;
  semantics_count = 3;
  script_state = some "VALIDATED";
  chunk_count = 2;
  flagged_chunk_count = 0;
  audio = record { status = "ASSEMBLED"; count = 2 } ∷ [];
  chapter_count = 1;
  chapter_audio = record { status = "ASSEMBLED"; count = 1 } ∷ [];
}

partial_ocr_blocked_example :
    (is_ingestion_complete "PARTIAL_OCR" ≡ true)
    × ((plan_entry
          (compute_stages record finished_book { version_status = some "PARTIAL_OCR" })
          none
          none
          analysis).blocked_reason
        ≡ some book_unread)
partial_ocr_blocked_example =
    partial_ocr_blocked (record finished_book { version_status = some "PARTIAL_OCR" }) none none
      refl

safe_return_path-IsLocal_example : IsLocal (safe_return_path (some "/projects/abc"))
safe_return_path-IsLocal_example = safe_return_path-IsLocal (some "/projects/abc")

-- The host after two slashes.
abbrev named_host : String → Option String
named_host String.[] = none
named_host (String.◌∷◌ c String.[]) = none
named_host (String.◌∷◌ c (String.◌∷◌ d rest)) =
    if code c == b'/' && code d == b'/' then some rest else none

safe_return_path_remote_example :
    named_host (
      without_breaks (
        safe_return_path (some (String.◌∷◌ "/" (String.◌∷◌ "\t" (String.◌∷◌ "/" "evil.example"))))))
    ≡ some "evil.example"
unfolding without_breaks
safe_return_path_remote_example =
    safe_return_path_remote (λ s. named_host (without_breaks s)) "evil.example"
      (λ s i. named_host (without_breaks-without_breaks s i)) refl refl
