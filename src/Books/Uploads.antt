-- ===== src/Books/Uploads.antt =====
-- The upload sessions and `requestIngestion` of apps/api/src/books/books.service.ts. The storage
-- answers with the bytes of an object or fails; what `checksumBuffer` and `detectFormat` make of the
-- bytes are arguments.
use audio_book.Base.{
  ℕ, ◌+◌, Bool, true, false, ◌&&◌, ◌||◌, not, Option, none, some, String, List, [], ◌∷◌, ◌++◌, ◌==◌,
  str_eq, ltb, any, map, is_some, if◌then◌else◌, Result, ok, err, ◌>>=◌, ◌>>◌, guard,
}
use audio_book.Jobs.Model.{Job, Envelope}
use audio_book.Jobs.Dispatch.{Broker}
use audio_book.Books.Model.{
  BookFile, UploadKind, pdf, epub, UploadSession, awaiting_upload, admitted, rejected, BookStore,
  BookUser, BookError, file_too_large, unsupported_file_format, upload_session_not_found,
  upload_session_expired, upload_incomplete, checksum_mismatch, duplicate_content_hash,
  book_file_not_found, book_file_not_admitted, ingestion_already_running, invalid_state_transition,
  require_owned_book, update_book_row, record_usage,
}
use audio_book.Books.Library.{new_job, insert_job, dispatch, is_active_status}

pub record CreateUploadSessionBody : Type 0 where
  pub file_name : String
  pub declared_mime_type : String
  pub declared_size_bytes : ℕ
  pub declared_content_hash : String
  pub source_kind : UploadKind

abbrev upload_url_ttl_ms : ℕ
upload_url_ttl_ms = 900000

-- `maxFileSizeBytes` of the default configuration.
abbrev pub max_upload_bytes : ℕ
max_upload_bytes = 209715200

unfoldable pub expected_mime : UploadKind → String
expected_mime pdf = "application/pdf"
expected_mime epub = "application/epub+zip"

unfoldable pub create_upload_session :
    ℕ
    → ℕ
    → String
    → BookUser
    → ℕ
    → CreateUploadSessionBody
    → BookStore
    → Result BookError (BookStore × UploadSession)
create_upload_session now session storage_key user i body w = do
  book ← require_owned_book user i w
  guard (not (ltb max_upload_bytes body.declared_size_bytes)) file_too_large
  guard (str_eq body.declared_mime_type (expected_mime body.source_kind)) unsupported_file_format
  let row : UploadSession = record {
    id = session;
    tenant_id = user.tenant_id;
    book_id = book.id;
    status = awaiting_upload;
    source_kind = body.source_kind;
    file_name = body.file_name;
    declared_mime_type = body.declared_mime_type;
    declared_size_bytes = body.declared_size_bytes;
    declared_content_hash = body.declared_content_hash;
    storage_key = storage_key;
    rejection_reason_code = none;
    book_file_id = none;
    created_at = now;
    expires_at = now + upload_url_ttl_ms;
  }
  ok (record w { sessions = row ∷ w.sessions }, row)

unfoldable pub find_upload : ℕ → ℕ → List UploadSession → Option UploadSession
find_upload tenant i [] = none
find_upload tenant i (s ∷ ss) =
    if s.tenant_id == tenant && s.id == i then some s else find_upload tenant i ss

unfoldable pub require_owned_session : BookUser → ℕ → ℕ → BookStore → Result BookError UploadSession
require_owned_session user book i w = elim (find_upload user.tenant_id i w.sessions) [
  | none ↦ err upload_session_not_found
  | some s ↦ if s.book_id == book then ok s else err upload_session_not_found
]

abbrev pub is_admitted : UploadSession → Bool
is_admitted s = elim s.status [ admitted ↦ true | _ ↦ false ]

abbrev is_session : UploadSession → UploadSession → Bool
is_session s t = t.tenant_id == s.tenant_id && t.id == s.id

unfoldable pub drop_session : UploadSession → List UploadSession → List UploadSession
drop_session s [] = []
drop_session s (t ∷ ts) = let rest = drop_session s ts in if is_session s t then rest else t ∷ rest

unfoldable pub abort_upload_session : BookUser → ℕ → ℕ → BookStore → Result BookError BookStore
abort_upload_session user book i w = do
  session ← require_owned_session user book i w
  guard (not (is_admitted session)) invalid_state_transition
  ok (record w { sessions = drop_session session w.sessions })

-- `uploadSessions.update`
unfoldable pub store_session : UploadSession → List UploadSession → List UploadSession
store_session s sessions = map (λ t. if is_session s t then s else t) sessions

unfoldable pub reject_session : String → UploadSession → BookStore → BookStore
reject_session reason s w = record w {
  sessions =
      store_session (record s { status = rejected; rejection_reason_code = some reason })
        w.sessions;
}

-- The bytes of the object, and what the libraries make of them.
pub record Uploaded : Type 0 where
  pub size_bytes : ℕ
  pub content_hash : String
  pub detected_kind : Option UploadKind
  pub sniffed_mime_type : String
  pub declared_vs_sniffed_match : Bool

pub record CompleteBody : Type 0 where
  pub observed_size_bytes : ℕ
  pub allow_duplicate : Bool

-- What `generateId` returns in one request.
pub record UploadIds : Type 0 where
  pub book_file_id : ℕ
  pub job_id : ℕ
  pub correlation_id : ℕ
  pub idempotency_key : String

abbrev pub same_kind : Option UploadKind → UploadKind → Bool
same_kind (some pdf) pdf = true
same_kind (some epub) epub = true
same_kind _ _ = false

-- `findFirst` of an admitted file of the tenant with the same content that is no copy itself.
unfoldable pub is_duplicate : ℕ → String → BookFile → Bool
is_duplicate tenant hash f =
    f.tenant_id == tenant
    && str_eq f.content_hash hash
    && str_eq f.status "ADMITTED"
    && not (is_some f.deduplicated_from_book_file_id)

unfoldable pub parse_book_envelope : UploadIds → ℕ → Envelope
parse_book_envelope ids tenant = record {
  job_id = ids.job_id;
  entity_id = some ids.job_id;
  version_id = none;
  correlation_id = ids.correlation_id;
  causation_id = none;
  tenant_id = tenant;
  payload = "parse_book";
}

unfoldable pub parse_book_job : ℕ → UploadIds → BookUser → ℕ → String → String → Bool → Job
parse_book_job now ids user book priority fingerprint forced =
    new_job now ids.job_id user.tenant_id book "parse_book" "parse" priority "book_file"
      ids.book_file_id ids.idempotency_key fingerprint forced
      (parse_book_envelope ids user.tenant_id)

-- The transactions of `completeUploadSession` and `requestIngestion` after their file is known.
unfoldable pub begin_parse :
    ℕ → UploadIds → BookUser → ℕ → String → String → Job → BookStore → BookStore
begin_parse now ids user book status event j w = insert_job j (record w {
  books = update_book_row book (λ b. record b { status = status; status_changed_at = now }) w.books;
  events =
      w.events
      ++ record {
        event_type = event;
        tenant_id = user.tenant_id;
        book_id = book;
        job_id = ids.job_id;
        correlation_id = ids.correlation_id;
        book_file_id = ids.book_file_id;
      }
        ∷ [];
})

unfoldable pub admitted_file : UploadIds → BookUser → ℕ → UploadSession → Uploaded → BookFile
admitted_file ids user book s object = record {
  id = ids.book_file_id;
  tenant_id = user.tenant_id;
  book_id = book;
  source_kind = s.source_kind;
  original_file_name = s.file_name;
  mime_type = s.declared_mime_type;
  sniffed_mime_type = object.sniffed_mime_type;
  size_bytes = object.size_bytes;
  content_hash = object.content_hash;
  status = "ADMITTED";
  declared_vs_sniffed_mime = object.declared_vs_sniffed_match;
  deduplicated_from_book_file_id = none;
  storage_key = s.storage_key;
}

-- What follows the dispatch; if that throws, the request ends after its transaction has committed.
unfoldable pub finish_upload :
    UploadIds
    → BookUser
    → UploadSession
    → Uploaded
    → BookStore
    → Result BookError BookStore
    → BookStore × Result BookError ℕ
finish_upload ids user s object committed (err e) = (committed, err e)
finish_upload ids user s object committed (ok sent) = (
  record sent {
    storage_usage = record_usage user.tenant_id object.size_bytes sent.storage_usage;
    sessions =
        store_session (record s { status = admitted; book_file_id = some ids.book_file_id })
          sent.sessions;
  },
  ok ids.job_id,
)

-- The admission of a valid upload, from its transaction on.
unfoldable pub admit_upload :
    Broker
    → ℕ
    → UploadIds
    → BookUser
    → ℕ
    → UploadSession
    → Uploaded
    → BookStore
    → BookStore × Result BookError ℕ
admit_upload broker now ids user book s object w =
    let committed =
      begin_parse now ids user book "UPLOADED" "book.uploaded"
        (parse_book_job now ids user book "NORMAL" object.content_hash false)
        (record w { files = w.files ++ admitted_file ids user book s object ∷ [] }) in
    finish_upload ids user s object committed (
      dispatch broker now ids.job_id "parse" (parse_book_envelope ids user.tenant_id) "parse_book"
        committed)

-- The checks of the uploaded object, in order, each with its rejection.
unfoldable pub check_upload :
    Broker
    → ℕ
    → UploadIds
    → BookUser
    → ℕ
    → UploadSession
    → Uploaded
    → CompleteBody
    → BookStore
    → BookStore × Result BookError ℕ
check_upload broker now ids user book s object body w =
    let admission = admit_upload broker now ids user book s object w in
    if ltb max_upload_bytes object.size_bytes
    then (w, err file_too_large)
    else if not (object.size_bytes == body.observed_size_bytes)
    then (reject_session "UPLOAD_INCOMPLETE" s w, err upload_incomplete)
    else if not (str_eq object.content_hash s.declared_content_hash)
    then (reject_session "CHECKSUM_MISMATCH" s w, err checksum_mismatch)
    else if not (same_kind object.detected_kind s.source_kind)
    then (reject_session "UNSUPPORTED_FILE_FORMAT" s w, err unsupported_file_format)
    else if any (is_duplicate user.tenant_id object.content_hash) w.files
        && not body.allow_duplicate
    then (w, err duplicate_content_hash)
    else admission

unfoldable pub complete_upload_session :
    Broker
    → ℕ
    → UploadIds
    → BookUser
    → ℕ
    → ℕ
    → Uploaded
    → CompleteBody
    → BookStore
    → BookStore × Result BookError ℕ
complete_upload_session broker now ids user book session object body w =
    elim (require_owned_session user book session w) [
      | err e ↦ (w, err e)
      | ok s ↦
          if is_admitted s
          then (w, err upload_session_expired)
          else check_upload broker now ids user book s object body w
    ]

unfoldable pub find_file : ℕ → ℕ → ℕ → List BookFile → Option BookFile
find_file tenant book i [] = none
find_file tenant book i (f ∷ fs) =
    if f.id == i && f.book_id == book && f.tenant_id == tenant
    then some f
    else find_file tenant book i fs

-- A job on the file in one of `ACTIVE_JOB_STATUSES`.
unfoldable pub is_parsing : ℕ → Job → Bool
is_parsing file j =
    str_eq j.related_resource_type "book_file"
    && j.related_resource_id == file
    && is_active_status j.status

-- `requestIngestion`; `ids.book_file_id` is the file of the body.
unfoldable pub request_ingestion :
    Broker
    → ℕ
    → UploadIds
    → BookUser
    → ℕ
    → String
    → Bool
    → BookStore
    → BookStore × Result BookError ℕ
request_ingestion broker now ids user book priority force w =
    elim (require_owned_book user book w) [
      | err e ↦ (w, err e)
      | ok b ↦ elim (find_file user.tenant_id book ids.book_file_id w.files) [
        | none ↦ (w, err book_file_not_found)
        | some f ↦
            let committed =
              begin_parse now ids user book "PARSING" "book.parse_started"
                (parse_book_job now ids user book priority f.content_hash force) w in
            let sent =
              dispatch broker now ids.job_id "parse" (parse_book_envelope ids user.tenant_id)
                "parse_book" committed in
            if not (str_eq f.status "ADMITTED")
            then (w, err book_file_not_admitted)
            else if any (is_parsing f.id) w.world.jobs && not force
            then (w, err ingestion_already_running)
            else elim sent [ err e ↦ (committed, err e) | ok after ↦ (after, ok ids.job_id) ]
      ]
    ]

abbrev is_text : Option String → String → Bool
is_text none s = false
is_text (some t) s = str_eq t s

-- `deriveIngestionState`
unfoldable pub derive_ingestion_state : String → Option String → Option String → String
derive_ingestion_state book version job =
    if is_text version "READY"
    then "COMPLETED"
    else if is_text version "PARTIAL_OCR"
    then "PARTIAL_OCR"
    else if is_text version "NEEDS_REVIEW" || str_eq book "NEEDS_REVIEW"
    then "NEEDS_REVIEW"
    else if str_eq book "FAILED" || is_text job "FAILED"
    then "FAILED"
    else if is_text job "CANCELLED"
    then "CANCELLED"
    else if str_eq book "PARSING" || is_text job "RUNNING"
    then "PARSING"
    else if is_text job "QUEUED" || is_text job "CREATED"
    then "QUEUED"
    else "NOT_STARTED"
