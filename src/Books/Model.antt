-- ===== src/Books/Model.antt =====
-- The rows and errors of apps/api/src/books/books.service.ts and upload-session.store.ts, and the
-- checks of apps/api/src/common/tenant.ts and quota.service.ts.
use audio_book.Base.{
  ℕ, ◌+◌, Bool, true, ◌&&◌, not, Option, none, some, String, List, [], ◌∷◌, ◌==◌, leb, is_some, map,
  select, length, if◌then◌else◌, Result, ok, err, guard,
}
use audio_book.Base.Text.{includes}
use audio_book.Jobs.Model.{World}

pub record BookMetadata : Type 0 where
  pub series : Option String
  pub series_index : Option ℕ
  pub publication_year : Option ℕ
  pub publisher : Option String

pub record Book : Type 0 where
  pub id : ℕ
  pub tenant_id : ℕ
  pub title : String
  pub author : Option String
  pub language : String
  pub description : Option String
  pub metadata : BookMetadata
  pub status : String
  pub status_changed_at : ℕ
  pub pipeline_version : String
  pub created_by_user_id : ℕ
  pub current_book_version_id : Option ℕ
  pub row_version : ℕ
  pub created_at : ℕ
  pub deleted_at : Option ℕ

pub data UploadKind : Type 0 where
  pdf epub : UploadKind

pub record BookFile : Type 0 where
  pub id : ℕ
  pub tenant_id : ℕ
  pub book_id : ℕ
  pub source_kind : UploadKind
  pub original_file_name : String
  pub mime_type : String
  pub sniffed_mime_type : String
  pub size_bytes : ℕ
  pub content_hash : String
  pub status : String
  pub declared_vs_sniffed_mime : Bool
  pub deduplicated_from_book_file_id : Option ℕ
  pub storage_key : String

pub data UploadSessionStatus : Type 0 where
  awaiting_upload uploading validating admitted rejected expired : UploadSessionStatus

pub record UploadSession : Type 0 where
  pub id : ℕ
  pub tenant_id : ℕ
  pub book_id : ℕ
  pub status : UploadSessionStatus
  pub source_kind : UploadKind
  pub file_name : String
  pub declared_mime_type : String
  pub declared_size_bytes : ℕ
  pub declared_content_hash : String
  pub storage_key : String
  pub rejection_reason_code : Option String
  pub book_file_id : Option ℕ
  pub created_at : ℕ
  pub expires_at : ℕ

pub record TenantQuota : Type 0 where
  pub tenant_id : ℕ
  pub concurrent_books_limit : ℕ
  pub books_total_limit : ℕ

-- An event `book.…` of the outbox: the fields that its writers vary.
pub record BookEvent : Type 0 where
  pub event_type : String
  pub tenant_id : ℕ
  pub book_id : ℕ
  pub job_id : ℕ
  pub correlation_id : ℕ
  pub book_file_id : ℕ

-- The tables, the upload sessions in Redis, the counted bytes of each tenant, and the jobs.
pub record BookStore : Type 0 where
  pub books : List Book
  pub files : List BookFile
  pub sessions : List UploadSession
  pub quotas : List TenantQuota
  pub storage_usage : List (ℕ × ℕ)
  pub events : List BookEvent
  pub world : World

pub record BookUser : Type 0 where
  pub sub : ℕ
  pub tenant_id : ℕ
  pub roles : List String

pub data BookError : Type 0 where
  book_not_found role_required quota_exceeded invalid_state_transition version_conflict : BookError
  book_has_active_jobs confirmation_mismatch file_too_large unsupported_file_format : BookError
  upload_session_not_found upload_session_expired upload_incomplete checksum_mismatch : BookError
  duplicate_content_hash book_file_not_found book_file_not_admitted : BookError
  ingestion_already_running dispatch_failed : BookError

-- `findFirst({ where: { id, tenantId } })` and `assertTenantOwnership`
unfoldable pub find_book : ℕ → ℕ → List Book → Option Book
find_book tenant i [] = none
find_book tenant i (b ∷ bs) =
    if b.id == i && b.tenant_id == tenant then some b else find_book tenant i bs

unfoldable pub require_owned_book : BookUser → ℕ → BookStore → Result BookError Book
require_owned_book user i w = elim (find_book user.tenant_id i w.books) [
  | none ↦ err book_not_found
  | some b ↦ ok b
]

-- `update({ where: { id }, data })`
unfoldable pub update_book_row : ℕ → (Book → Book) → List Book → List Book
update_book_row i f books = map (λ b. if b.id == i then f b else b) books

-- `requireRole`
abbrev pub require_role : BookUser → String → Result BookError (Unit {0})
require_role user role = guard (includes user.roles role) role_required

unfoldable pub find_quota : ℕ → List TenantQuota → Option TenantQuota
find_quota tenant [] = none
find_quota tenant (q ∷ qs) = if q.tenant_id == tenant then some q else find_quota tenant qs

-- `assertCanCreateBook`; a tenant without a row is unlimited.
unfoldable pub can_create_book : BookUser → BookStore → Bool
can_create_book user w = elim (find_quota user.tenant_id w.quotas) [
  | none ↦ true
  | some q ↦ not (
      leb q.books_total_limit (
        length (select (λ b. b.tenant_id == user.tenant_id && not (is_some b.deleted_at)) w.books)))
]

-- The active statuses of quota.service.ts.
abbrev pub active_book_statuses : List String
active_book_statuses =
    "PARSING" ∷ "ANALYZING" ∷ "CASTING" ∷ "SCRIPTING" ∷ "GENERATING" ∷ "ASSEMBLING" ∷ []

-- `assertCanStartGeneration`
unfoldable pub can_start_generation : BookUser → ℕ → BookStore → Bool
can_start_generation user i w = elim (find_quota user.tenant_id w.quotas) [
  | none ↦ true
  | some q ↦ not (
      leb q.concurrent_books_limit (
        length (
          select
            (λ b.
              b.tenant_id == user.tenant_id
              && not (is_some b.deleted_at)
              && includes active_book_statuses b.status
              && not (b.id == i))
            w.books)))
]

-- `recordUsage` with the month left out: the counter grows by the delta.
unfoldable pub record_usage : ℕ → ℕ → List (ℕ × ℕ) → List (ℕ × ℕ)
record_usage tenant delta [] = (tenant, delta) ∷ []
record_usage tenant delta ((t, used) ∷ rest) =
    let later = record_usage tenant delta rest in
    if t == tenant then (t, used + delta) ∷ rest else (t, used) ∷ later
