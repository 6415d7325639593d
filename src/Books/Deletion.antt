-- ===== src/Books/Deletion.antt =====
-- `deleteBook` of apps/api/src/books/books.service.ts and the jobs that wait on a queue: a dispatch
-- leaves the status of its job at CREATED, which `deleteBook` does not count.
use mathlib.Core.List.{Memᴰ}
use audio_book.Base.{
  ℕ, Bool, true, false, ◌&&◌, not, some, String, List, [], ◌∷◌, ◌++◌, ◌==◌, any, is_some, str_eq,
  ltb, ◌≡◌, refl, sym, ap, ◌∙◌, subst, inl, inr, Bool-cases, Option-cases, Result-cases,
  Memᴰ-append_right, if◌then◌else◌, Result, ok, err,
}
use audio_book.Jobs.Model.{Job, QueueCall, created, update_job}
use audio_book.Jobs.Dispatch.{Broker, mark_queued}
use audio_book.Books.Model.{
  Book, BookStore, BookUser, BookError, UploadSession, file_too_large, upload_incomplete,
  checksum_mismatch, unsupported_file_format, duplicate_content_hash, upload_session_expired,
  find_book, require_owned_book, update_book_row,
}
use audio_book.Books.Library.{
  has_jobs, holds_deletion, delete_book, delete_found, marked_deleted, insert_job, new_job,
}
use audio_book.Books.Uploads.{
  UploadIds, Uploaded, CompleteBody, parse_book_envelope, parse_book_job, begin_parse,
  admitted_file, finish_upload, admit_upload, check_upload, complete_upload_session,
  require_owned_session, is_admitted, is_duplicate, same_kind, reject_session, max_upload_bytes,
}
use audio_book.Books.Purge.{Takes, dispatch-insert_job}
use audio_book.Books.Rows.{find_book-update, find_book-id}

-- Whether jobs hold the deletion is not changed by a job that is only queued.
has_jobs-mark_queued :
    (i k now : ℕ) (jobs : List Job)
    → has_jobs holds_deletion i (update_job k (mark_queued now) jobs)
      ≡ has_jobs holds_deletion i jobs
unfolding has_jobs update_job mark_queued
has_jobs-mark_queued i k now [] = refl
has_jobs-mark_queued i k now (j ∷ jobs) = elim (Bool-cases (j.id == k)) [
  | inl e ↦ rw (e, has_jobs-mark_queued i k now jobs) refl
  | inr e ↦ rw (e, has_jobs-mark_queued i k now jobs) refl
]

has_jobs-append :
    (i : ℕ) (jobs : List Job) (j : Job)
    → j.status ≡ created
    → has_jobs holds_deletion i (jobs ++ j ∷ []) ≡ has_jobs holds_deletion i jobs
unfolding has_jobs holds_deletion
has_jobs-append i [] j e = elim (Option-cases j.book_id) [
  | inl n ↦ rw n refl
  | inr (b, n) ↦ elim (Bool-cases (b == i)) [ inl h ↦ rw (n, h, e) refl | inr h ↦ rw (n, h) refl ]
]
has_jobs-append i (k ∷ jobs) j e = rw (has_jobs-append i jobs j e) refl

delete_book_ok :
    (now : ℕ) (user : BookUser) (i : ℕ) (w : BookStore) (book : Book)
    → find_book user.tenant_id i w.books ≡ some book
    → is_some book.deleted_at ≡ false
    → has_jobs holds_deletion i w.world.jobs ≡ false
    → delete_book now user i w
      ≡ ok (record w { books = update_book_row i (marked_deleted now) w.books })
unfolding delete_book delete_found require_owned_book
delete_book_ok now user i w book found live idle =
    let own = find_book-id user.tenant_id i w.books book found in
    rw (delete_book, require_owned_book, found, delete_found, live, own, idle) refl

parse_book_job-status :
    (now : ℕ) (ids : UploadIds) (user : BookUser) (book : ℕ) (fingerprint : String)
    → (parse_book_job now ids user book "NORMAL" fingerprint false).status ≡ created
unfolding parse_book_job new_job
parse_book_job-status now ids user book fingerprint = refl

-- A test that refuses, where the whole has not refused.
passed :
    (b : Bool) (refusal rest : BookStore × Result BookError ℕ) (e : BookError) (n : ℕ)
    → refusal.1 ≡ err e
    → (if b then refusal else rest).1 ≡ ok n
    → (if b then refusal else rest) ≡ rest
passed true refusal rest e n r h =
    let clash : ◌≡◌ {A = Result BookError ℕ} (err e) (ok n) = sym r ∙ h in cc
passed false refusal rest e n r h = refl

module _ (broker : Broker) (now : ℕ) (ids : UploadIds) (user : BookUser) (book : ℕ)
    (object : Uploaded) (w : BookStore) where
  check_upload_passed :
      (s : UploadSession) (body : CompleteBody) (n : ℕ)
      → (check_upload broker now ids user book s object body w).1 ≡ ok n
      → check_upload broker now ids user book s object body w
        ≡ admit_upload broker now ids user book s object w
  unfolding check_upload
  check_upload_passed s body n h =
      let admission = admit_upload broker now ids user book s object w in
      let fifth : BookStore × Result BookError ℕ =
        if any (is_duplicate user.tenant_id object.content_hash) w.files && not body.allow_duplicate
        then (w, err duplicate_content_hash)
        else admission in
      let fourth : BookStore × Result BookError ℕ =
        if not (same_kind object.detected_kind s.source_kind)
        then (reject_session "UNSUPPORTED_FILE_FORMAT" s w, err unsupported_file_format)
        else fifth in
      let third : BookStore × Result BookError ℕ =
        if not (str_eq object.content_hash s.declared_content_hash)
        then (reject_session "CHECKSUM_MISMATCH" s w, err checksum_mismatch)
        else fourth in
      let second : BookStore × Result BookError ℕ =
        if not (object.size_bytes == body.observed_size_bytes)
        then (reject_session "UPLOAD_INCOMPLETE" s w, err upload_incomplete)
        else third in
      let e1 =
        passed (ltb max_upload_bytes object.size_bytes) (w, err file_too_large) second
          file_too_large n refl h in
      let e2 =
        passed (not (object.size_bytes == body.observed_size_bytes))
          (reject_session "UPLOAD_INCOMPLETE" s w, err upload_incomplete) third upload_incomplete n
          refl (ap (λ x. x.1) (sym e1) ∙ h) in
      let e3 =
        passed (not (str_eq object.content_hash s.declared_content_hash))
          (reject_session "CHECKSUM_MISMATCH" s w, err checksum_mismatch) fourth checksum_mismatch n
          refl (ap (λ x. x.1) (sym (e1 ∙ e2)) ∙ h) in
      let e4 =
        passed (not (same_kind object.detected_kind s.source_kind))
          (reject_session "UNSUPPORTED_FILE_FORMAT" s w, err unsupported_file_format) fifth
          unsupported_file_format n refl (ap (λ x. x.1) (sym (e1 ∙ e2 ∙ e3)) ∙ h) in
      let e5 =
        passed
          (any (is_duplicate user.tenant_id object.content_hash) w.files
            && not body.allow_duplicate)
          (w, err duplicate_content_hash) admission duplicate_content_hash n refl
          (ap (λ x. x.1) (sym (e1 ∙ e2 ∙ e3 ∙ e4)) ∙ h) in
      e1 ∙ e2 ∙ e3 ∙ e4 ∙ e5

  complete_upload_session_passed :
      (session : ℕ) (body : CompleteBody) (n : ℕ)
      → (complete_upload_session broker now ids user book session object body w).1 ≡ ok n
      → (s : UploadSession) × (complete_upload_session broker now ids user book session object body
            w
          ≡ admit_upload broker now ids user book s object w)
  unfolding complete_upload_session
  complete_upload_session_passed session body n h =
      elim (Result-cases (require_owned_session user book session w)) [
        | inl (e, f) ↦
            let clash : ◌≡◌ {A = Result BookError ℕ} (err e) (ok n) =
              sym (rw (complete_upload_session, f) refl) ∙ h in
            cc
        | inr (s, f) ↦ elim (Bool-cases (is_admitted s)) [
          | inl a ↦
              let clash : ◌≡◌ {A = Result BookError ℕ} (err upload_session_expired) (ok n) =
                sym (rw (complete_upload_session, f, a) refl) ∙ h in
              cc
          | inr a ↦ (
            s,
            rw (complete_upload_session, f, a)
                (check_upload_passed s body n (sym (rw (complete_upload_session, f, a) refl) ∙ h)),
          )
        ]
      ]

  admit_upload-books :
      (s : UploadSession)
      → Takes broker (parse_book_envelope ids user.tenant_id)
      → let after = (admit_upload broker now ids user book s object w).0 in
        (after.books
          ≡ update_book_row book
              (λ b. record b { status = "UPLOADED"; status_changed_at = now })
              w.books)
        × (after.world.jobs
            ≡ update_job ids.job_id (mark_queued now) (
                w.world.jobs
                ++ parse_book_job now ids user book "NORMAL" object.content_hash false ∷ []))
        × (after.world.calls
            ≡ w.world.calls
              ++ QueueCall.add "parse" (parse_book_envelope ids user.tenant_id) "parse_book" 3 ∷ [])
  unfolding admit_upload begin_parse finish_upload parse_book_job new_job
  admit_upload-books s takes =
      let j = parse_book_job now ids user book "NORMAL" object.content_hash false in
      let base : BookStore = record w {
        files = w.files ++ admitted_file ids user book s object ∷ [];
        books =
            update_book_row book (λ b. record b { status = "UPLOADED"; status_changed_at = now })
              w.books;
        events =
            w.events
            ++ record {
              event_type = "book.uploaded";
              tenant_id = user.tenant_id;
              book_id = book;
              job_id = ids.job_id;
              correlation_id = ids.correlation_id;
              book_file_id = ids.book_file_id;
            }
              ∷ [];
      } in
      let sent =
        dispatch-insert_job broker now j "parse" (parse_book_envelope ids user.tenant_id)
          "parse_book" base takes in
      let whole = ap (finish_upload ids user s object (insert_job j base)) sent in
      (ap (λ x. x.0.books) whole, ap (λ x. x.0.world.jobs) whole, ap (λ x. x.0.world.calls) whole)

-- A book can be deleted as soon as its upload is completed, if no other job of it is queued, runs or
-- retries: the call that puts the parsing on its queue has been made, but its job is CREATED.
pub delete_book_uploaded :
    (broker : Broker) (now later : ℕ) (ids : UploadIds) (user : BookUser) (i session : ℕ)
    (object : Uploaded) (body : CompleteBody) (w : BookStore) (book : Book) (job : ℕ)
    → (complete_upload_session broker now ids user i session object body w).1 ≡ ok job
    → Takes broker (parse_book_envelope ids user.tenant_id)
    → find_book user.tenant_id i w.books ≡ some book
    → is_some book.deleted_at ≡ false
    → has_jobs holds_deletion i w.world.jobs ≡ false
    → (after : BookStore) × (delete_book later user i
          (complete_upload_session broker now ids user i session object body w).0
        ≡ ok after)
      × Memᴰ
          (QueueCall.add "parse" (parse_book_envelope ids user.tenant_id) "parse_book" 3)
          after.world.calls
delete_book_uploaded broker now later ids user i session object body w book job done takes found
      live idle =
    let (s, same) =
      complete_upload_session_passed broker now ids user i object w session body job done in
    let uploaded = (admit_upload broker now ids user i s object w).0 in
    let (books, jobs, calls) = admit_upload-books broker now ids user i object w s takes in
    let j = parse_book_job now ids user i "NORMAL" object.content_hash false in
    let mark : Book → Book = λ b. record b { status = "UPLOADED"; status_changed_at = now } in
    let found2 : find_book user.tenant_id i uploaded.books ≡ some (mark book) =
      ap (find_book user.tenant_id i) books
      ∙ find_book-update user.tenant_id i mark (λ b. (refl, refl)) w.books book found in
    let idle2 : has_jobs holds_deletion i uploaded.world.jobs ≡ false =
      ap (has_jobs holds_deletion i) jobs
      ∙ has_jobs-mark_queued i ids.job_id now (w.world.jobs ++ j ∷ [])
      ∙ has_jobs-append i w.world.jobs j (parse_book_job-status now ids user i object.content_hash)
      ∙ idle in
    let call = QueueCall.add "parse" (parse_book_envelope ids user.tenant_id) "parse_book" 3 in
    (
      record uploaded { books = update_book_row i (marked_deleted later) uploaded.books },
      ap (λ x. delete_book later user i x.0) same
          ∙ delete_book_ok later user i uploaded (mark book) found2 live idle2,
      subst (Memᴰ call) (sym calls) (Memᴰ-append_right w.world.calls (call ∷ []) (Memᴰ.head refl)),
    )
