-- ===== src/Jobs/Listing.antt =====
-- The job listing of apps/api/src/jobs/jobs.service.ts: query parsing, the filter, the keyset
-- boundary, and the page. `Date` parsing is a parameter.
pub mod Pages
pub mod Milliseconds
mod Tests
use Prim.Native.String
use audio_book.Base.{
  ℕ, suc, ◌*◌, ◌/◌, Bool, true, false, ◌&&◌, ◌||◌, not, Option, none, some, String, List, [], ◌∷◌,
  ◌==◌, ltb, str_eq, map, select, all, any, length, take, last?, is_some, if◌then◌else◌, Result, ok,
  err, ◌>>=◌, ◌>>◌, guard,
}
use audio_book.Base.Text.{split_on, trim, includes}
use audio_book.Errors.{AppError, ErrorCategory, app_error}
use audio_book.Paging.{
  CursorPayload, Codec, CursorPage, Numeric, decode_cursor, parse_limit, next_of,
}
use audio_book.Jobs.Model.{Job, JobStatus, Principal}
use audio_book.Jobs.Dto.{JobDto, to_job_dto}

-- A status as the database and the query string spell it.
unfoldable pub status_name : JobStatus → String
status_name JobStatus.created = "CREATED"
status_name JobStatus.queued = "QUEUED"
status_name JobStatus.running = "RUNNING"
status_name JobStatus.retrying = "RETRYING"
status_name JobStatus.blocked = "BLOCKED"
status_name JobStatus.succeeded = "SUCCEEDED"
status_name JobStatus.failed = "FAILED"
status_name JobStatus.cancelled = "CANCELLED"
status_name JobStatus.dead_lettered = "DEAD_LETTERED"

abbrev pub job_statuses : List String
job_statuses =
    "CREATED" ∷ "QUEUED" ∷ "RUNNING" ∷ "RETRYING" ∷ "BLOCKED" ∷ "SUCCEEDED" ∷ "FAILED" ∷ "CANCELLED"
    ∷ "DEAD_LETTERED" ∷ []

abbrev pub job_types : List String
job_types =
    "parse_book" ∷ "ocr_page" ∷ "normalize_text" ∷ "analyze_structure" ∷ "analyze_scene"
    ∷ "build_story_bible_delta" ∷ "generate_director_ir" ∷ "revise_director_ir"
    ∷ "generate_voice_preview" ∷ "generate_tts_chunk" ∷ "validate_audio" ∷ "process_audio"
    ∷ "verify_transcript" ∷ "assemble_chapter" ∷ "assemble_audiobook" ∷ "encode_delivery_format"
    ∷ "cleanup_artifacts" ∷ []

-- `new ValidationError({ details: [{ field, issue }] })`
unfoldable pub invalid : String → String → AppError
unfolding app_error
invalid field issue = app_error (record {
  code = "VALIDATION_FAILED";
  category = ErrorCategory.validation;
  details = record { field = some field; issue = issue } ∷ [];
  retryable = none;
})

-- `parseMulti`: an absent or empty parameter is no filter.
unfoldable pub multi_values : Option String → List String
multi_values none = []
multi_values (some raw) =
    if str_eq raw "" then [] else select (λ v. not (str_eq v "")) (map trim (split_on b',' raw))

unfoldable pub parse_multi : Option String → List String → String → Result AppError (List String)
unfolding multi_values
parse_multi raw allowed field =
    let values = multi_values raw in
    let bad = select (λ v. not (includes allowed v)) values in
    elim bad [ [] ↦ ok values | x ∷ xs ↦ err (invalid field "invalid_enum") ]

pub data SortField : Type 0 where
  created_at completed_at : SortField

pub data Direction : Type 0 where
  asc desc : Direction

sort_field : String → Option SortField
sort_field f =
    if str_eq f "created_at"
    then some created_at
    else if str_eq f "completed_at"
    then some completed_at
    else none

direction_of : String → Option Direction
direction_of d = if str_eq d "asc" then some asc else if str_eq d "desc" then some desc else none

sort_parts : List String → Result AppError (SortField × Direction)
unfolding sort_field direction_of
sort_parts [] = err (invalid "sort" "invalid_enum")
sort_parts (f ∷ []) = elim (sort_field f) [
  | none ↦ err (invalid "sort" "invalid_enum")
  | some field ↦ ok (field, desc)
]
sort_parts (f ∷ d ∷ more) = elim (sort_field f) [
  | none ↦ err (invalid "sort" "invalid_enum")
  | some field ↦ elim (direction_of d) [
    | none ↦ err (invalid "sort" "invalid_enum")
    | some dir ↦ ok (field, dir)
  ]
]

-- `parseSort`: `field:direction`, the direction `desc` if it is left out.
unfoldable pub parse_sort : Option String → Result AppError (SortField × Direction)
unfolding sort_parts
parse_sort none = ok (created_at, desc)
parse_sort (some raw) =
    if str_eq raw "" then ok (created_at, desc) else sort_parts (split_on b':' raw)

pub record ListJobsQuery : Type 0 where
  pub book_id : Option ℕ
  pub job_type : Option String
  pub status : Option String
  pub related_resource_id : Option ℕ
  pub created_after : Option String
  pub created_before : Option String
  pub sort : Option String
  pub cursor : Option String
  pub limit : Option Numeric

-- The `where` object that `buildJobWhere` makes, with the tenant of the caller.
pub record JobWhere : Type 0 where
  pub tenant_id : Option ℕ
  pub book_id : Option ℕ
  pub related_resource_id : Option ℕ
  pub statuses : List String
  pub types : List String
  pub created_gt : Option ℕ
  pub created_lt : Option ℕ

-- `parseTimestamp`; `parse_date` is `new Date(raw)`, nothing for an invalid date.
unfoldable pub parse_timestamp :
    (String → Option ℕ) → Option String → String → Result AppError (Option ℕ)
parse_timestamp parse_date none field = ok none
parse_timestamp parse_date (some raw) field =
    if str_eq raw "" then ok none else elim (parse_date raw) [
      | none ↦ err (invalid field "invalid_format")
      | some t ↦ ok (some t)
    ]

unfoldable pub build_job_where :
    (String → Option ℕ) → Option ℕ → ListJobsQuery → Result AppError JobWhere
unfolding parse_multi parse_timestamp
build_job_where parse_date tenant q = do
  statuses ← parse_multi q.status job_statuses "status"
  types ← parse_multi q.job_type job_types "type"
  after ← parse_timestamp parse_date q.created_after "created_after"
  before ← parse_timestamp parse_date q.created_before "created_before"
  ok (record {
    tenant_id = tenant;
    book_id = q.book_id;
    related_resource_id = q.related_resource_id;
    statuses = statuses;
    types = types;
    created_gt = after;
    created_lt = before;
  })

-- The database's reading of `where`: an absent condition holds.
abbrev is_eq : Option ℕ → ℕ → Bool
is_eq none x = true
is_eq (some k) x = x == k

abbrev is_eq_nullable : Option ℕ → Option ℕ → Bool
is_eq_nullable none x = true
is_eq_nullable (some k) none = false
is_eq_nullable (some k) (some x) = x == k

abbrev is_in : List String → String → Bool
is_in [] s = true
is_in (w ∷ ws) s = includes (w ∷ ws) s

abbrev is_gt : Option ℕ → ℕ → Bool
is_gt none x = true
is_gt (some k) x = ltb k x

abbrev is_lt : Option ℕ → ℕ → Bool
is_lt none x = true
is_lt (some k) x = ltb x k

unfoldable pub matches : JobWhere → Job → Bool
matches w j =
    is_eq w.tenant_id j.tenant_id
    && is_eq_nullable w.book_id j.book_id
    && is_eq w.related_resource_id j.related_resource_id
    && is_in w.statuses (status_name j.status)
    && is_in w.types j.job_type
    && is_gt w.created_gt j.created_at
    && is_lt w.created_lt j.created_at

-- `SORT_FIELDS[field]` of a row.
unfoldable pub column : SortField → Job → Option ℕ
column created_at j = some j.created_at
column completed_at j = j.completed_at

abbrev pub strictly : Direction → ℕ → ℕ → Bool
strictly desc x y = ltb x y
strictly asc x y = ltb y x

-- `cursorBoundary`: a NULL column compares as neither smaller nor greater.
unfoldable pub cursor_boundary : SortField → Direction → CursorPayload → Job → Bool
unfolding column
cursor_boundary field dir c j = elim (column field j) [
  | none ↦ false
  | some t ↦ strictly dir t c.v || (t == c.v && strictly dir j.id c.id)
]

abbrev date_or_epoch : Option ℕ → ℕ
date_or_epoch none = 0
date_or_epoch (some t) = t

-- What `toISOString` spells of a date, and `new Date` reads again: whole milliseconds. The columns
-- keep microseconds.
unfoldable pub to_iso : ℕ → ℕ
to_iso t = t / 1000 * 1000

-- The cursor of a page's last row: `(last[SORT_FIELDS[field]] ?? new Date(0)).toISOString()`.
unfoldable pub job_key : SortField → Job → CursorPayload
unfolding column
job_key field j = record { v = to_iso (date_or_epoch (column field j)); id = j.id }

unfoldable pub page_of_jobs : (Job → String) → List Job → ℕ → CursorPage JobDto
page_of_jobs token rows limit =
    let more = ltb limit (length rows) in
    let page = if more then take limit rows else rows in
    record {
      items = map to_job_dto page;
      limit = limit;
      has_more = more;
      next_cursor = next_of token more (last? page);
    }

abbrev pub after_cursor : SortField → Direction → Option CursorPayload → Job → Bool
after_cursor field dir none j = true
after_cursor field dir (some c) j = cursor_boundary field dir c j

-- `findMany({ where, orderBy, take })`, where `table` is `processing_job` in the order asked for.
unfoldable pub find_many : (Job → Bool) → ℕ → List Job → List Job
find_many cond n table = take n (select cond table)

-- `listJobs`; `table field dir` is the table in the order of `orderBy`.
unfoldable pub list_jobs :
    Codec
    → (String → Option ℕ)
    → (SortField → Direction → List Job)
    → Principal
    → ListJobsQuery
    → Result AppError (CursorPage JobDto)
unfolding build_job_where page_of_jobs find_many
list_jobs codec parse_date table p q = do
  limit ← parse_limit q.limit
  order ← parse_sort q.sort
  w ← build_job_where parse_date (some p.tenant_id) q
  cursor ← decode_cursor codec.decode q.cursor
  let rows =
      find_many (λ j. matches w j && after_cursor order.0 order.1 cursor j) (suc limit)
        (table order.0 order.1)
  ok (page_of_jobs (λ j. codec.encode (job_key order.0 j)) rows limit)
