-- ===== src/Books/Library.antt =====
-- `createBook`, `getBook`, `updateBook`, `deleteBook`, `restoreBook` and `purgeBook` of
-- apps/api/src/books/books.service.ts, and `runPurgeBook` of
-- apps/worker-cpu/src/processors/maintenance.ts.
use audio_book.Base.{
  ℕ, suc, Bool, true, false, ◌&&◌, ◌||◌, not, Option, none, some, String, List, [], ◌∷◌, ◌++◌, ◌==◌,
  str_eq, map, select, is_some, if◌then◌else◌, Result, ok, err, ◌>>=◌, ◌>>◌, guard,
}
use audio_book.Base.Text.{split_on, trim, includes}
use audio_book.Jobs.Model.{
  Job, JobStatus, created, queued, running, retrying, blocked, succeeded, failed, Envelope, given,
  find_job, update_job,
}
use audio_book.Jobs.Dispatch.{Broker, enqueue_processing_job}
use audio_book.Jobs.Dispatch.Replay.{fresh_report}
use audio_book.Books.Model.{
  Book, BookMetadata, BookStore, BookUser, BookError, quota_exceeded, invalid_state_transition,
  version_conflict, book_has_active_jobs, confirmation_mismatch, dispatch_failed,
  require_owned_book, update_book_row, require_role, can_create_book,
}

pub record CreateBookBody : Type 0 where
  pub title : String
  pub author : Option String
  pub language : String
  pub description : Option String
  pub metadata : BookMetadata

unfoldable pub create_book :
    String → ℕ → ℕ → BookUser → CreateBookBody → BookStore → Result BookError (BookStore × Book)
create_book pipeline_version now i user body w =
    let book : Book = record {
      id = i;
      tenant_id = user.tenant_id;
      title = body.title;
      author = body.author;
      language = body.language;
      description = body.description;
      metadata = body.metadata;
      status = "CREATED";
      status_changed_at = now;
      pipeline_version = pipeline_version;
      created_by_user_id = user.sub;
      current_book_version_id = none;
      row_version = 0;
      created_at = now;
      deleted_at = none;
    } in
    if can_create_book user w
    then ok (record w { books = w.books ++ book ∷ [] }, book)
    else err quota_exceeded

-- A patch: left as it is, or set, where the column can be NULL to nothing.
pub data Patch (A : Type 0) : Type 0 where
  keep : Patch A
  set : A → Patch A

abbrev pub patched : {A : Type 0} → Patch A → A → A
patched keep a = a
patched (set b) a = b

pub record UpdateBookBody : Type 0 where
  pub title : Patch String
  pub author : Patch (Option String)
  pub language : Patch String
  pub description : Patch (Option String)
  pub series : Patch (Option String)
  pub series_index : Patch (Option ℕ)
  pub publication_year : Patch (Option ℕ)
  pub publisher : Patch (Option String)

-- `bookEtag`, as a function of the id and the version of the row.
abbrev pub Etag : Type 0
Etag = ℕ → ℕ → String

unfoldable pub candidates : String → List String
candidates header = map trim (split_on 44 header)

-- `assertIfMatch`
unfoldable pub matches_etag : Option String → String → Bool
matches_etag none current = true
matches_etag (some header) current =
    includes (candidates header) "*" || includes (candidates header) current

unfoldable pub changes_language : Patch String → Book → Bool
changes_language keep b = false
changes_language (set language) b = not (str_eq language b.language)

unfoldable pub apply_patch : UpdateBookBody → Book → Book
apply_patch body b = record b {
  title = patched body.title b.title;
  author = patched body.author b.author;
  language = patched body.language b.language;
  description = patched body.description b.description;
  metadata = record {
    series = patched body.series b.metadata.series;
    series_index = patched body.series_index b.metadata.series_index;
    publication_year = patched body.publication_year b.metadata.publication_year;
    publisher = patched body.publisher b.metadata.publisher;
  };
  row_version = suc b.row_version;
}

-- `updateBook` from the row that was found.
unfoldable pub update_found :
    Etag → UpdateBookBody → Option String → Book → BookStore → Result BookError (BookStore × String)
update_found etag body if_match book w = do
  guard (not (is_some book.deleted_at)) invalid_state_transition
  guard (matches_etag if_match (etag book.id book.row_version)) version_conflict
  guard (not (changes_language body.language book && is_some book.current_book_version_id))
      invalid_state_transition
  ok (
    record w { books = update_book_row book.id (apply_patch body) w.books },
    etag book.id (suc book.row_version),
  )

unfoldable pub update_book :
    Etag
    → BookUser
    → ℕ
    → UpdateBookBody
    → Option String
    → BookStore
    → Result BookError (BookStore × String)
update_book etag user i body if_match w = do
  book ← require_owned_book user i w
  update_found etag body if_match book w

-- `count({ where: { bookId, status: { in } } }) > 0`
unfoldable pub has_jobs : (JobStatus → Bool) → ℕ → List Job → Bool
has_jobs among i [] = false
has_jobs among i (j ∷ jobs) =
    (elim j.book_id [ none ↦ false | some b ↦ b == i ] && among j.status) || has_jobs among i jobs

-- The statuses that keep a book from being deleted, and `ACTIVE_JOB_STATUSES`.
unfoldable pub holds_deletion : JobStatus → Bool
holds_deletion queued = true
holds_deletion running = true
holds_deletion retrying = true
holds_deletion _ = false

unfoldable pub is_active_status : JobStatus → Bool
is_active_status created = true
is_active_status queued = true
is_active_status running = true
is_active_status retrying = true
is_active_status blocked = true
is_active_status _ = false

abbrev pub marked_deleted : ℕ → Book → Book
marked_deleted now b = record b { deleted_at = some now; row_version = suc b.row_version }

abbrev pub marked_restored : Book → Book
marked_restored b = record b { deleted_at = none; row_version = suc b.row_version }

unfoldable pub delete_found : ℕ → Book → BookStore → Result BookError BookStore
delete_found now book w =
    if is_some book.deleted_at
    then ok w
    else if has_jobs holds_deletion book.id w.world.jobs
    then err book_has_active_jobs
    else ok (record w { books = update_book_row book.id (marked_deleted now) w.books })

unfoldable pub delete_book : ℕ → BookUser → ℕ → BookStore → Result BookError BookStore
delete_book now user i w = do book ← require_owned_book user i w; delete_found now book w

unfoldable pub restore_book : BookUser → ℕ → BookStore → Result BookError BookStore
restore_book user i w = do
  require_role user "TENANT_OWNER"
  book ← require_owned_book user i w
  guard (is_some book.deleted_at) invalid_state_transition
  ok (record w { books = update_book_row i marked_restored w.books })

-- `purgeBookEnvelope`
unfoldable pub purge_book_envelope : ℕ → ℕ → ℕ → Envelope
purge_book_envelope job tenant correlation = record {
  job_id = job;
  entity_id = some job;
  version_id = none;
  correlation_id = correlation;
  causation_id = none;
  tenant_id = tenant;
  payload = "purge_book";
}

-- The columns of a new job that `books.service.ts` sets, with the defaults of the others.
unfoldable pub new_job :
    ℕ → ℕ → ℕ → ℕ → String → String → String → String → ℕ → String → String → Bool → Envelope → Job
new_job now i tenant book job_type queue priority resource_type resource key fingerprint forced
      envelope =
    record {
      id = i;
      tenant_id = tenant;
      book_id = some book;
      job_type = job_type;
      status = created;
      status_changed_at = now;
      queue = queue;
      priority = priority;
      related_resource_type = resource_type;
      related_resource_id = resource;
      scope = none;
      dispatch_envelope = some envelope;
      parent_job_id = none;
      max_attempts = 3;
      idempotency_key = given key;
      idempotency_fingerprint = fingerprint;
      correlation_id = envelope.correlation_id;
      causation_id = none;
      forced = forced;
      forced_by_user_id = none;
      created_by_user_id = none;
      created_at = now;
      queued_at = none;
      completed_at = none;
      cancellation_requested = false;
      cancellation_requested_at = none;
      cancellation_requested_by = none;
      cancellation_effective_at = none;
      report = fresh_report;
    }

-- `enqueueProcessingJob` on the world of a store.
unfoldable pub dispatch :
    Broker → ℕ → ℕ → String → Envelope → String → BookStore → Result BookError BookStore
dispatch broker now job queue envelope name w =
    elim (enqueue_processing_job broker now job queue envelope name 3 w.world) [
      | none ↦ err dispatch_failed
      | some world ↦ ok (record w { world = world })
    ]

unfoldable pub insert_job : Job → BookStore → BookStore
insert_job j w = record w { world = record w.world { jobs = w.world.jobs ++ j ∷ [] } }

-- The key and the fingerprint are texts made of the book's id.
unfoldable pub purge_job : ℕ → ℕ → ℕ → ℕ → BookUser → String → String → Job
purge_job now job correlation i user key fingerprint =
    new_job now job user.tenant_id i "cleanup_artifacts" "maintenance" "BULK" "book" i key
      fingerprint false (purge_book_envelope job user.tenant_id correlation)

-- The conditions of `purgeBook`; `confirmed` is the id in the body.
unfoldable pub may_purge : BookUser → ℕ → ℕ → BookStore → Result BookError Book
may_purge user i confirmed w = do
  require_role user "TENANT_OWNER"
  guard (confirmed == i) confirmation_mismatch
  book ← require_owned_book user i w
  guard (is_some book.deleted_at) invalid_state_transition
  guard (not (has_jobs is_active_status i w.world.jobs)) book_has_active_jobs
  ok book

-- `purgeBook`: the row of the job stays if its dispatch throws.
unfoldable pub purge_book :
    Broker
    → ℕ
    → ℕ
    → ℕ
    → String
    → String
    → BookUser
    → ℕ
    → ℕ
    → BookStore
    → BookStore × Result BookError ℕ
purge_book broker now job correlation key fingerprint user i confirmed w =
    let inserted = insert_job (purge_job now job correlation i user key fingerprint) w in
    let sent =
      dispatch broker now job "maintenance" (purge_book_envelope job user.tenant_id correlation)
        "cleanup_artifacts" inserted in
    elim (may_purge user i confirmed w) [
      | err e ↦ (w, err e)
      | ok book ↦ elim sent [ err e ↦ (inserted, err e) | ok after ↦ (after, ok job) ]
    ]

abbrev belongs_to : ℕ → Option ℕ → Bool
belongs_to i none = false
belongs_to i (some b) = b == i

-- `purgeJobsAndAttempts`: the jobs of the book but the purge's own.
unfoldable pub purge_jobs : ℕ → ℕ → List Job → List Job
purge_jobs i job jobs = select (λ j. not (belongs_to i j.book_id) || j.id == job) jobs

-- `processing_job_book_id_fkey` is ON DELETE RESTRICT: a row that names the book keeps it.
unfoldable pub is_referenced : ℕ → List Job → Bool
is_referenced i [] = false
is_referenced i (j ∷ jobs) = belongs_to i j.book_id || is_referenced i jobs

-- The last update of the purge's own row.
unfoldable pub end_purge : ℕ → JobStatus → Job → Job
end_purge now status j = record j { status = status; status_changed_at = now }

abbrev pub is_succeeded : JobStatus → Bool
is_succeeded succeeded = true
is_succeeded _ = false

-- `runPurgeBook`, as far as the rows of files, jobs and books; the other tables and the audit
-- row are left out: nothing without the job, or if it has succeeded. It answers whether it returns;
-- otherwise it throws.
unfoldable pub run_purge_book : ℕ → ℕ → ℕ → BookStore → BookStore × Bool
run_purge_book now job i w = elim (find_job job w.world.jobs) [
  | none ↦ (w, true)
  | some j ↦
      if is_succeeded j.status
      then (w, true)
      else let jobs = purge_jobs i job w.world.jobs in
        let purged = record w { files = select (λ f. not (f.book_id == i)) w.files } in
        if is_referenced i jobs
        then (
          record purged {
            world = record w.world { jobs = update_job job (end_purge now failed) jobs };
          },
          false,
        )
        else (
          record purged {
            books = select (λ b. not (b.id == i)) w.books;
            world = record w.world { jobs = update_job job (end_purge now succeeded) jobs };
          },
          true,
        )
]
