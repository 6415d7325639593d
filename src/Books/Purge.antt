-- ===== src/Books/Purge.antt =====
-- A purge of apps/api/src/books/books.service.ts that is admitted and a restoration before it runs:
-- `runPurgeBook` of apps/worker-cpu/src/processors/maintenance.ts does not look at the book again, and
-- its own row keeps the book.
use audio_book.Base.{
  Bool, subst, List, false, sym, some_inj, inl, inr, Bool-cases, arith, if◌then◌else◌, ℕ, true,
  false, not, some, String, [], ◌∷◌, ◌++◌, ◌==◌, ==_self, is_some, ltb, select, ◌≡◌, ◌≢◌, refl, ap,
  ◌∙◌, All, ok,
}
use audio_book.Base.Text.{includes}
use audio_book.Jobs.Model.{Job, Envelope, QueueCall, failed, find_job, update_job}
use audio_book.Jobs.Cancel.Outcome.{find_job-map, find_job-id}
use audio_book.Jobs.Dispatch.{
  Broker, enqueue, enqueue_processing_job, mark_queued, queue_payload_ceiling_bytes,
}
use audio_book.Books.Model.{
  Book, BookFile, BookStore, BookUser, find_book, require_owned_book, update_book_row,
}
use audio_book.Books.Library.{
  has_jobs, is_active_status, restore_book, marked_restored, purge_book, purge_job,
  purge_book_envelope, new_job, may_purge, insert_job, dispatch, run_purge_book, purge_jobs,
  is_referenced, end_purge, is_succeeded,
}
use audio_book.Books.Rows.{find_book-update, find_job-appended}

-- The broker takes the envelope.
abbrev pub Takes : Broker → Envelope → Type 0
Takes broker e =
    (ltb queue_payload_ceiling_bytes (broker.size_bytes e) ≡ false) × (broker.accepts e ≡ true)

-- The store after a job was inserted and dispatched.
abbrev pub dispatched : ℕ → Job → String → Envelope → String → BookStore → BookStore
dispatched now j queue envelope name w = record w {
  world = record w.world {
    jobs = update_job j.id (mark_queued now) (w.world.jobs ++ j ∷ []);
    calls = w.world.calls ++ QueueCall.add queue envelope name 3 ∷ [];
  };
}

pub dispatch-insert_job :
    (broker : Broker) (now : ℕ) (j : Job) (queue : String) (envelope : Envelope) (name : String)
    (w : BookStore)
    → Takes broker envelope
    → dispatch broker now j.id queue envelope name (insert_job j w)
      ≡ ok (dispatched now j queue envelope name w)
unfolding dispatch enqueue_processing_job enqueue insert_job
dispatch-insert_job broker now j queue envelope name w (small, taken) =
    rw (dispatch, enqueue_processing_job, enqueue, small, taken) refl

may_purge_ok :
    (user : BookUser) (i : ℕ) (w : BookStore) (book : Book)
    → includes user.roles "TENANT_OWNER" ≡ true
    → find_book user.tenant_id i w.books ≡ some book
    → is_some book.deleted_at ≡ true
    → has_jobs is_active_status i w.world.jobs ≡ false
    → may_purge user i i w ≡ ok book
unfolding may_purge require_owned_book
may_purge_ok user i w book owner found deleted idle =
    rw (may_purge, owner, ==_self i, require_owned_book, found, deleted, idle) refl

purge_book_ok :
    (broker : Broker) (now job correlation : ℕ) (key fingerprint : String) (user : BookUser) (i : ℕ)
    (w : BookStore) (book : Book)
    → may_purge user i i w ≡ ok book
    → Takes broker (purge_book_envelope job user.tenant_id correlation)
    → purge_book broker now job correlation key fingerprint user i i w ≡ (
      dispatched now
          (purge_job now job correlation i user key fingerprint)
          "maintenance"
          (purge_book_envelope job user.tenant_id correlation)
          "cleanup_artifacts"
          w,
      ok job,
    )
unfolding purge_book purge_job new_job
purge_book_ok broker now job correlation key fingerprint user i w book may takes =
    let sent =
      dispatch-insert_job broker now (purge_job now job correlation i user key fingerprint)
        "maintenance" (purge_book_envelope job user.tenant_id correlation) "cleanup_artifacts" w
        takes in
    rw (purge_book, may, sent) refl

restore_book_ok :
    (user : BookUser) (i : ℕ) (w : BookStore) (book : Book)
    → includes user.roles "TENANT_OWNER" ≡ true
    → find_book user.tenant_id i w.books ≡ some book
    → is_some book.deleted_at ≡ true
    → restore_book user i w ≡ ok (record w { books = update_book_row i marked_restored w.books })
unfolding restore_book require_owned_book
restore_book_ok user i w book owner found deleted =
    rw (restore_book, owner, require_owned_book, found, deleted) refl

find_job-purge_jobs :
    (i job : ℕ) (jobs : List Job) (j : Job)
    → find_job job jobs ≡ some j
    → find_job job (purge_jobs i job jobs) ≡ some j
unfolding find_job purge_jobs
find_job-purge_jobs i job [] j e = cc
find_job-purge_jobs i job (k ∷ jobs) j e =
    let rest = find_job-purge_jobs i job jobs j in ground (arith, rest)

is_referenced_found :
    (i job : ℕ) (jobs : List Job) (j : Job)
    → find_job job jobs ≡ some j
    → j.book_id ≡ some i
    → is_referenced i jobs ≡ true
unfolding find_job is_referenced
is_referenced_found i job [] j e b = cc
is_referenced_found i job (k ∷ jobs) j e b = elim (Bool-cases (k.id == job)) [
  | inl own ↦
      let same : k ≡ j = some_inj (sym (rw own refl) ∙ e) in
      rw (ap (λ x. x.book_id) same ∙ b, ==_self i) refl
  | inr other ↦
      let rest = is_referenced_found i job jobs j (sym (rw other refl) ∙ e) b in
      ground (arith, rest)
]

-- The rows of the book's files.
abbrev pub files_of : ℕ → BookStore → List BookFile
files_of i w = select (λ f. f.book_id == i) w.files

select-not :
    (i : ℕ) (fs : List BookFile)
    → select (λ f. f.book_id == i) (select (λ f. not (f.book_id == i)) fs) ≡ []
select-not i [] = refl
select-not i (f ∷ fs) = elim (Bool-cases (f.book_id == i)) [
  | inl e ↦ rw e (select-not i fs)
  | inr e ↦ rw (e, e) (select-not i fs)
]

-- The job of a purge of this book that has not succeeded.
abbrev IsPurging : ℕ → ℕ → BookStore → Type 0
IsPurging job i w =
    (j : Job) × (find_job job w.world.jobs ≡ some j)
    × (j.book_id ≡ some i)
    × (is_succeeded j.status ≡ false)

find_job-own :
    (job : ℕ) (jobs : List Job) (j : Job) → find_job job jobs ≡ some j → (j.id == job) ≡ true
find_job-own job jobs j e = rw (find_job-id job jobs j e) (==_self job)

-- What an attempt that throws leaves.
abbrev attempted : ℕ → ℕ → ℕ → BookStore → BookStore
attempted now job i w = record w {
  files = select (λ f. not (f.book_id == i)) w.files;
  world = record w.world {
    jobs = update_job job (end_purge now failed) (purge_jobs i job w.world.jobs);
  };
}

run_purge_book-attempted :
    (now job i : ℕ) (w : BookStore)
    → IsPurging job i w
    → run_purge_book now job i w ≡ (attempted now job i w, false)
unfolding run_purge_book update_job
run_purge_book-attempted now job i w (j, found, book, waiting) =
    let kept = find_job-purge_jobs i job w.world.jobs j found in
    let held = is_referenced_found i job (purge_jobs i job w.world.jobs) j kept book in
    rw (run_purge_book, found, waiting, held) refl

attempted-IsPurging :
    (now job i : ℕ) (w : BookStore) → IsPurging job i w → IsPurging job i (attempted now job i w)
unfolding update_job end_purge
attempted-IsPurging now job i w (j, found, book, waiting) =
    let kept = find_job-purge_jobs i job w.world.jobs j found in
    let own : (j.id == job) ≡ true = find_job-own job (purge_jobs i job w.world.jobs) j kept in
    (
      end_purge now failed j,
      find_job-map (λ k. if k.id == job then end_purge now failed k else k) job
            (purge_jobs i job w.world.jobs) j (λ k. ground arith) kept
          ∙ ap some (rw own refl),
      book,
      refl,
    )

-- One attempt throws: it erases the files, leaves the books, and can be run again.
run_purge_book_throws :
    (now job i : ℕ) (w : BookStore)
    → IsPurging job i w
    → let run = run_purge_book now job i w in
      (run.1 ≡ false) × (run.0.books ≡ w.books) × (files_of i run.0 ≡ []) × IsPurging job i run.0
run_purge_book_throws now job i w purging =
    subst
      (λ (run : BookStore × Bool).
        (run.1 ≡ false) × (run.0.books ≡ w.books) × (files_of i run.0 ≡ []) × IsPurging job i run.0)
      (sym (run_purge_book-attempted now job i w purging))
      (refl, refl, select-not i w.files, attempted-IsPurging now job i w purging)

-- The attempts of a purge job, one at each of these times.
unfoldable pub attempts : List ℕ → ℕ → ℕ → BookStore → BookStore
attempts [] job i w = w
attempts (now ∷ times) job i w = attempts times job i (run_purge_book now job i w).0

attempts-books :
    (times : List ℕ) (job i : ℕ) (w : BookStore)
    → IsPurging job i w
    → ((attempts times job i w).books ≡ w.books) × IsPurging job i (attempts times job i w)
unfolding attempts
attempts-books [] job i w p = (refl, p)
attempts-books (now ∷ times) job i w p =
    let (_, books, _, again) = run_purge_book_throws now job i w p in
    let (same, last) = attempts-books times job i (run_purge_book now job i w).0 again in
    (same ∙ books, last)

-- A deleted book of an owner, without active jobs, can be purged, and its restoration is admitted
-- after that. The purge removes neither: however often its job is attempted, each attempt throws and
-- the row of the restored book stays, since the job's own row names the book; but each attempt
-- leaves the book without files.
pub purge_book_restored :
    (broker : Broker) (now job correlation : ℕ) (key fingerprint : String) (user : BookUser) (i : ℕ)
    (w : BookStore) (book : Book) (times : List ℕ) (last : ℕ)
    → includes user.roles "TENANT_OWNER" ≡ true
    → find_book user.tenant_id i w.books ≡ some book
    → is_some book.deleted_at ≡ true
    → has_jobs is_active_status i w.world.jobs ≡ false
    → All (λ j. j.id ≢ job) w.world.jobs
    → Takes broker (purge_book_envelope job user.tenant_id correlation)
    → (after restored : BookStore) × (purge_book broker now job correlation key fingerprint user i i
          w
        ≡ (after, ok job))
      × (restore_book user i after ≡ ok restored)
      × (let run = run_purge_book last job i (attempts times job i restored) in
          (run.1 ≡ false)
          × (find_book user.tenant_id i run.0.books ≡ some (marked_restored book))
          × (files_of i run.0 ≡ []))
unfolding purge_job new_job mark_queued
purge_book_restored broker now job correlation key fingerprint user i w book times last owner found
      deleted idle fresh takes =
    let j = purge_job now job correlation i user key fingerprint in
    let after =
      dispatched now j "maintenance" (purge_book_envelope job user.tenant_id correlation)
        "cleanup_artifacts" w in
    let restored = record after { books = update_book_row i marked_restored after.books } in
    let waiting = find_job-appended j (mark_queued now) w.world.jobs fresh refl in
    let (same, again) =
      attempts-books times job i restored (mark_queued now j, waiting, refl, refl) in
    let (throws, books, erased, _) =
      run_purge_book_throws last job i (attempts times job i restored) again in
    (
      after,
      restored,
      purge_book_ok broker now job correlation key fingerprint user i w book
          (may_purge_ok user i w book owner found deleted idle) takes,
      restore_book_ok user i after book owner found deleted,
      (
        throws,
        ap (find_book user.tenant_id i) (books ∙ same)
            ∙ find_book-update user.tenant_id i marked_restored (λ b. (refl, refl)) w.books book
                found,
        erased,
      ),
    )
