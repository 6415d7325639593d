-- ===== src/Books/Tests.antt =====
-- A book of one owner, its upload, deletion and purge, for apps/api/src/books/books.service.ts.
use mathlib.Core.List.{Memᴰ}
use audio_book.Base.{
  ℕ, List, String, select, arith, true, false, none, some, [], ◌∷◌, ok, err, ◌≡◌, refl, ◌==◌,
  if◌then◌else◌,
}
use audio_book.Base.Text.{includes, split_on, trim, is_space}
use audio_book.Jobs.Model.{World, QueueCall}
use audio_book.Jobs.Dispatch.{Broker, enqueue, enqueue_processing_job, mark_queued}
use audio_book.Books.Model.{
  Book, BookStore, BookUser, UploadSession, awaiting_upload, pdf, version_conflict, find_book,
  require_owned_book, update_book_row, find_quota, can_create_book, can_start_generation,
  record_usage,
}
use audio_book.Books.Library.{
  UpdateBookBody, keep, set, Etag, candidates, update_book, delete_book, purge_book,
  purge_book_envelope, restore_book, marked_deleted, marked_restored, run_purge_book, has_jobs,
  holds_deletion, is_active_status, create_book, matches_etag, changes_language, apply_patch,
  update_found, delete_found, new_job, dispatch, insert_job, purge_job, may_purge,
}
use audio_book.Books.Uploads.{
  UploadIds, Uploaded, CompleteBody, complete_upload_session, parse_book_envelope, expected_mime,
  create_upload_session, find_upload, require_owned_session, drop_session, abort_upload_session,
  store_session, reject_session, is_duplicate, parse_book_job, begin_parse, admitted_file,
  finish_upload, admit_upload, check_upload, find_file, is_parsing, request_ingestion,
  derive_ingestion_state,
}
use audio_book.Books.Purge.{attempts, files_of, purge_book_restored}
use audio_book.Books.Versions.{update_book_once}
use audio_book.Books.Deletion.{delete_book_uploaded}
use audio_book.Books.Listing.{
  ListBooksQuery, BookWhere, parse_statuses, build_book_where, book_matches, list_books,
}
use audio_book.Books.Pages.{list_books_walk}
use audio_book.Paging.{Numeric, parse_limit}
use audio_book.Paging.Keyset.{follow}
use audio_book.Paging.Tally.{tallies}

abbrev owner : BookUser
owner = record { sub = 1; tenant_id = 1; roles = "TENANT_OWNER" ∷ [] }

abbrev her_book : Book
her_book = record {
  id = 5;
  tenant_id = 1;
  title = "T";
  author = none;
  language = "en";
  description = none;
  metadata = record {
    series = none;
    series_index = none;
    publication_year = none;
    publisher = none;
  };
  status = "CREATED";
  status_changed_at = 1;
  pipeline_version = "v";
  created_by_user_id = 1;
  current_book_version_id = none;
  row_version = 0;
  created_at = 1;
  deleted_at = none;
}

abbrev her_session : UploadSession
her_session = record {
  id = 8;
  tenant_id = 1;
  book_id = 5;
  status = awaiting_upload;
  source_kind = pdf;
  file_name = "t.pdf";
  declared_mime_type = "application/pdf";
  declared_size_bytes = 10;
  declared_content_hash = "h";
  storage_key = "k";
  rejection_reason_code = none;
  book_file_id = none;
  created_at = 1;
  expires_at = 900001;
}

abbrev idle_world : World
idle_world = record { jobs = []; outbox = []; audit = []; flags = []; calls = [] }

abbrev one_book : BookStore
one_book = record {
  books = her_book ∷ [];
  files = [];
  sessions = her_session ∷ [];
  quotas = [];
  storage_usage = [];
  events = [];
  world = idle_world;
}

abbrev deleted_book : BookStore
deleted_book = record one_book { books = marked_deleted 3 her_book ∷ [] }

abbrev open_broker : Broker
open_broker = record { size_bytes = λ e. 10; accepts = λ e. true }

abbrev plain_etag : Etag
plain_etag i v = if v == 0 then "a" else "b"

abbrev renamed : UpdateBookBody
renamed = record {
  title = set "U";
  author = keep;
  language = keep;
  description = keep;
  series = keep;
  series_index = keep;
  publication_year = keep;
  publisher = keep;
}

abbrev ids : UploadIds
ids = record { book_file_id = 20; job_id = 21; correlation_id = 22; idempotency_key = "parse" }

abbrev object : Uploaded
object = record {
  size_bytes = 10;
  content_hash = "h";
  detected_kind = some pdf;
  sniffed_mime_type = "application/pdf";
  declared_vs_sniffed_match = true;
}

abbrev body : CompleteBody
body = record { observed_size_bytes = 10; allow_duplicate = false }

purge_book_restored_example :
    (after restored : BookStore) × (purge_book open_broker 4 30 31 "purge" "f" owner 5 5
        deleted_book
      ≡ (after, ok 30))
    × (restore_book owner 5 after ≡ ok restored)
    × (let run = run_purge_book 8 30 5 (attempts (6 ∷ 7 ∷ []) 30 5 restored) in
        (run.1 ≡ false)
        × (find_book 1 5 run.0.books ≡ some (marked_restored (marked_deleted 3 her_book)))
        × (files_of 5 run.0 ≡ []))
unfolding includes find_book has_jobs
purge_book_restored_example =
    purge_book_restored open_broker 4 30 31 "purge" "f" owner 5 deleted_book
      (marked_deleted 3 her_book) (6 ∷ 7 ∷ []) 8 refl refl refl refl tt (refl, refl)

abbrev renamed_book : BookStore
renamed_book = record one_book { books = record her_book { title = "U"; row_version = 1 } ∷ [] }

update_book_once_example :
    update_book plain_etag owner 5 renamed (some "a") renamed_book ≡ err version_conflict
unfolding includes split_on trim is_space find_book require_owned_book update_book_row find_quota
    can_create_book can_start_generation record_usage create_book candidates matches_etag
    changes_language apply_patch update_found update_book has_jobs holds_deletion is_active_status
    delete_found delete_book restore_book purge_book_envelope new_job dispatch insert_job purge_job
    may_purge purge_book run_purge_book expected_mime create_upload_session find_upload
    require_owned_session drop_session abort_upload_session store_session reject_session
    is_duplicate parse_book_envelope parse_book_job begin_parse admitted_file finish_upload
    admit_upload check_upload complete_upload_session find_file is_parsing request_ingestion
    derive_ingestion_state enqueue enqueue_processing_job mark_queued
update_book_once_example =
    update_book_once plain_etag owner 5 renamed renamed "a" one_book renamed_book "b" her_book refl
      refl refl refl

delete_book_uploaded_example :
    (after : BookStore) × (delete_book 9 owner 5
        (complete_upload_session open_broker 4 ids owner 5 8 object body one_book).0
      ≡ ok after)
    × Memᴰ (QueueCall.add "parse" (parse_book_envelope ids 1) "parse_book" 3) after.world.calls
unfolding includes split_on trim is_space find_book require_owned_book update_book_row find_quota
    can_create_book can_start_generation record_usage create_book candidates matches_etag
    changes_language apply_patch update_found update_book has_jobs holds_deletion is_active_status
    delete_found delete_book restore_book purge_book_envelope new_job dispatch insert_job purge_job
    may_purge purge_book run_purge_book expected_mime create_upload_session find_upload
    require_owned_session drop_session abort_upload_session store_session reject_session
    is_duplicate parse_book_envelope parse_book_job begin_parse admitted_file finish_upload
    admit_upload check_upload complete_upload_session find_file is_parsing request_ingestion
    derive_ingestion_state enqueue enqueue_processing_job mark_queued
delete_book_uploaded_example =
    delete_book_uploaded open_broker 4 9 ids owner 5 8 object body one_book her_book 21 refl
      (refl, refl) refl refl refl

abbrev book_at : ℕ → ℕ → String → Book
book_at id time status = record her_book { id = id; created_at = time; status = status }

abbrev shelf : List Book
shelf =
    book_at 7 20 "CREATED"
    ∷ book_at 6 20 "PARSED"
    ∷ book_at 5 20 "FAILED"
    ∷ book_at 4 10 "PARSED"
    ∷ []

abbrev parsed_books : ListBooksQuery
parsed_books = record {
  cursor = none;
  limit = some (Numeric.integer 1);
  status = some "PARSED, CREATED";
  include_deleted = none;
}

abbrev parsed_where : BookWhere
parsed_where = record { tenant_id = 1; with_deleted = false; statuses = "PARSED" ∷ "CREATED" ∷ [] }

list_books_walk_example :
    follow (λ c. list_books tallies shelf owner (record parsed_books { cursor = c })) 4 none
    ≡ ok (select (book_matches parsed_where) shelf)
unfolding parse_limit parse_statuses build_book_where book_matches split_on trim is_space includes
list_books_walk_example =
    list_books_walk tallies shelf owner parsed_books 1 4 parsed_where refl refl (ground arith)
      (omega arith)
