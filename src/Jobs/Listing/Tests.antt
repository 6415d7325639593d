-- ===== src/Jobs/Listing/Tests.antt =====
-- Tests of the job listing, and its theorems at a small table.
use audio_book.Base.{
  not, ℕ, Option, none, some, String, List, [], ◌∷◌, ◌≡◌, refl, map, select, ok, ◌<◌, false, All,
  arith,
}
use audio_book.Base.Text.{split_on, trim, includes}
use audio_book.Paging.{Numeric, parse_limit}
use audio_book.Paging.Keyset.{follow}
use audio_book.Paging.Tally.{tallies}
use audio_book.Jobs.Model.{Job, running, IdempotencyKey, Principal}
use audio_book.Jobs.Dispatch.Replay.{fresh_report}
use audio_book.Jobs.Dto.{to_job_dto}
use audio_book.Jobs.Listing.{
  ListJobsQuery, JobWhere, SortField, Direction, desc, created_at, completed_at, parse_sort,
  build_job_where, matches, job_key, to_iso, list_jobs, multi_values, status_name,
}
use audio_book.Jobs.Listing.Milliseconds.{is_within_millisecond, list_jobs_millisecond_lost}
use audio_book.Jobs.Listing.Pages.{list_jobs_walk, list_jobs_completed_lost}

abbrev job_at : ℕ → ℕ → Option ℕ → Job
job_at i time done = record {
  id = i;
  tenant_id = 1;
  book_id = none;
  job_type = "parse_book";
  status = running;
  status_changed_at = 0;
  queue = "parse";
  priority = "NORMAL";
  related_resource_type = "book";
  related_resource_id = 4;
  scope = none;
  dispatch_envelope = none;
  parent_job_id = none;
  max_attempts = 3;
  idempotency_key = IdempotencyKey.given "k";
  idempotency_fingerprint = "f";
  correlation_id = 1;
  causation_id = none;
  forced = false;
  forced_by_user_id = none;
  created_by_user_id = none;
  created_at = time;
  queued_at = none;
  completed_at = done;
  cancellation_requested = false;
  cancellation_requested_at = none;
  cancellation_requested_by = none;
  cancellation_effective_at = none;
  report = fresh_report;
}

-- Newest first; two jobs of one instant are told apart by their ids.
abbrev table : SortField → Direction → List Job
table field dir = job_at 5 20000 none ∷ job_at 4 20000 (some 33) ∷ job_at 9 18000 (some 25) ∷ []

abbrev caller : Principal
caller = record { sub = 30; tenant_id = 1 }

abbrev query : Option String → ListJobsQuery
query sort = record {
  book_id = none;
  job_type = none;
  status = some "RUNNING, QUEUED";
  related_resource_id = none;
  created_after = none;
  created_before = none;
  sort = sort;
  cursor = none;
  limit = some (Numeric.integer 2);
}

abbrev no_dates : String → Option ℕ
no_dates s = none

abbrev condition : JobWhere
condition = record {
  tenant_id = some 1;
  book_id = none;
  related_resource_id = none;
  statuses = "RUNNING" ∷ "QUEUED" ∷ [];
  types = [];
  created_gt = none;
  created_lt = none;
}

multi_values_runs : multi_values (some " RUNNING,, QUEUED ") ≡ "RUNNING" ∷ "QUEUED" ∷ []
unfolding multi_values split_on trim
multi_values_runs = refl

list_jobs_walk_example :
    follow
      (λ c. list_jobs tallies no_dates table caller (record (query none) { cursor = c }))
      9
      none
    ≡ ok (map to_job_dto (select (matches condition) (table created_at desc)))
unfolding parse_limit parse_sort build_job_where multi_values split_on trim includes matches
    status_name to_iso
list_jobs_walk_example =
    list_jobs_walk tallies no_dates table caller (query none) 2 9 desc condition refl refl refl
      (ground arith) (refl, (refl, (refl, tt))) (omega arith)

list_jobs_completed_lost_example :
    list_jobs tallies no_dates table caller (record (query (some "completed_at:desc")) {
      cursor = some (tallies.encode (job_key completed_at (job_at 5 20000 none)));
    })
    ≡ ok (record { items = []; limit = 2; has_more = false; next_cursor = none })
unfolding parse_limit parse_sort build_job_where multi_values split_on trim includes
list_jobs_completed_lost_example =
    list_jobs_completed_lost tallies no_dates table caller (query (some "completed_at:desc")) 2
      condition (job_at 5 20000 none) refl refl refl dated refl
  where
    dated : All (λ j. (t : ℕ) → j.completed_at ≡ some t → 0 < t) (table completed_at desc)
    dated = (λ t e. cc, (λ t e. ground arith, (λ t e. ground arith, tt)))

-- Two jobs of one millisecond: the second is behind the cursor of the first, and lost.
abbrev burst : SortField → Direction → List Job
burst field dir = job_at 7 20800 none ∷ job_at 6 20300 none ∷ job_at 4 18000 none ∷ []

list_jobs_millisecond_lost_example :
    list_jobs tallies no_dates burst caller (record (query none) {
      cursor = some (tallies.encode (job_key created_at (job_at 7 20800 none)));
    })
    ≡ list_jobs tallies no_dates
        (λ field dir.
          select (λ j. not (is_within_millisecond (job_at 7 20800 none) j)) (burst field dir))
        caller
        (record (query none) {
          cursor = some (tallies.encode (job_key created_at (job_at 7 20800 none)));
        })
unfolding parse_limit parse_sort build_job_where multi_values split_on trim includes
list_jobs_millisecond_lost_example =
    list_jobs_millisecond_lost tallies no_dates burst caller (query none) 2 condition
      (job_at 7 20800 none) refl refl refl

burst_lost :
    select (λ j. not (is_within_millisecond (job_at 7 20800 none) j)) (burst created_at desc)
    ≡ job_at 4 18000 none ∷ []
unfolding to_iso
burst_lost = refl
