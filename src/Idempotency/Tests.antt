-- ===== src/Idempotency/Tests.antt =====
-- A concrete request for the registry of apps/api/src/common/idempotency.service.ts: the
-- application counts the books that its handler creates.
use audio_book.Base.{ℕ, suc, true, false, none, [], ◌∷◌, Result, ok, err, ◌≡◌, refl}
use audio_book.Idempotency.{
  RequestKey, IdempotentResponse, thrown, request_in_progress, Updates, find_unique, execute, run,
}
use audio_book.Idempotency.Replay.{run_all, run_all_replayed, run_failed}

abbrev create_books : RequestKey
create_books = record {
  tenant_id = 1;
  principal_id = 7;
  method = "POST";
  path_template = "/books";
  key = "k-1";
}

abbrev accepted : IdempotentResponse
accepted = record { status = 202; body = "{}"; location = none }

abbrev other_answer : IdempotentResponse
other_answer = record { status = 500; body = "null"; location = none }

abbrev saved : Updates ℕ
saved = record { completes = true; marks_failed = true; update_error = 0 }

abbrev cut_off : Updates ℕ
cut_off = record { completes = false; marks_failed = false; update_error = 3 }

abbrev create_book : ℕ → ℕ × Result ℕ IdempotentResponse
create_book n = (suc n, ok accepted)

abbrev fails : ℕ → ℕ × Result ℕ IdempotentResponse
fails n = (n, err 9)

run_all_replayed_example :
    run_all create_books "digest"
      ((saved, 200, 11, create_book) ∷ (saved, 300, 12, fails) ∷ [])
      (run saved 100 10 create_books "digest" create_book [] 0).0
      (run saved 100 10 create_books "digest" create_book [] 0).1
    ≡ (
      (run saved 100 10 create_books "digest" create_book [] 0).0,
      (run saved 100 10 create_books "digest" create_book [] 0).1,
      ok accepted ∷ ok accepted ∷ [],
    )
unfolding run execute find_unique
run_all_replayed_example =
    run_all_replayed saved 100 10 create_books "digest" create_book [] 0 accepted
      ((saved, 200, 11, create_book) ∷ (saved, 300, 12, fails) ∷ []) refl refl

run_failed_example :
    (id : ℕ) × (run saved 200 11 create_books "digest" create_book
        (run cut_off 100 10 create_books "digest" create_book [] 0).0
        1
      ≡ ((run cut_off 100 10 create_books "digest" create_book [] 0).0, 1, err request_in_progress))
unfolding run execute find_unique
run_failed_example =
    run_failed cut_off saved 100 200 10 11 create_books "digest" create_book create_book [] 0 1
      (thrown 3) refl refl
