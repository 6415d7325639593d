-- ===== src/Jobs/Listing/Pages.antt =====
-- The pages of listJobs, from the first request to the last.
use mathlib.Core.Path.{fun_ext}
use audio_book.Base.{
  ℕ, suc, ◌<◌, Bool, true, false, ◌&&◌, ◌||◌, Option, none, some, String, List, [], ◌∷◌, ◌≡◌, ◌⊎◌,
  refl, ap, ◌∙◌, map, length, select, select-select, select-true, take, All, All-select, arith, ltb,
  inl, inr, Bool-cases, Result, Result-cases, Option-cases, ◌==◌, leb→ltb_false, ok,
}
use audio_book.Errors.{AppError}
use audio_book.Paging.{
  CursorPayload, Codec, CursorPage, decode_cursor, paginate, parse_limit, Numeric,
}
use audio_book.Paging.Keyset.{
  IsOrdered, list_page, rows_after, follow, follow-map_page, decode_cursor-some, map_page, map_ok,
  walk_all,
}
use audio_book.Jobs.Model.{Job, Principal}
use audio_book.Jobs.Dto.{JobDto, to_job_dto}
use audio_book.Jobs.Listing.{
  ListJobsQuery, JobWhere, SortField, Direction, asc, desc, created_at, completed_at, parse_sort,
  build_job_where, matches, cursor_boundary, after_cursor, job_key, to_iso, page_of_jobs, find_many,
  list_jobs,
}

-- The order of `orderBy: [{ createdAt: direction }, { id: direction }]`, strict since ids differ.
abbrev pub Before : Direction → Job → Job → Type 0
Before desc x y = (y.created_at < x.created_at) ⊎ ((y.created_at ≡ x.created_at) × (y.id < x.id))
Before asc x y = (x.created_at < y.created_at) ⊎ ((x.created_at ≡ y.created_at) × (x.id < y.id))

abbrev pub IsSortedBy : Direction → List Job → Type 0
IsSortedBy dir [] = Unit
IsSortedBy dir (x ∷ xs) = All (Before dir x) xs × IsSortedBy dir xs

IsSortedBy-select :
    (dir : Direction) (q : Job → Bool) (js : List Job)
    → IsSortedBy dir js
    → IsSortedBy dir (select q js)
IsSortedBy-select dir q [] h = tt
IsSortedBy-select dir q (j ∷ js) (later, h) = elim (Bool-cases (q j)) [
  | inl e ↦ rw e (All-select _ q js later, IsSortedBy-select dir q js h)
  | inr e ↦ rw e (IsSortedBy-select dir q js h)
]

-- A job that was created at a whole millisecond.
abbrev pub IsWhole : Job → Type 0
IsWhole j = to_iso j.created_at ≡ j.created_at

boundary_self :
    (dir : Direction) (x : Job)
    → IsWhole x
    → cursor_boundary created_at dir (job_key created_at x) x ≡ false
unfolding cursor_boundary job_key
boundary_self desc x whole = rw whole (ground arith)
boundary_self asc x whole = rw whole (ground arith)

boundary_of_Before :
    (dir : Direction) (x y : Job)
    → Before dir x y
    → IsWhole x
    → IsWhole y
    → (cursor_boundary created_at dir (job_key created_at x) y ≡ true)
      × (cursor_boundary created_at dir (job_key created_at y) x ≡ false)
unfolding cursor_boundary job_key
boundary_of_Before desc x y h wx wy = rw (wx, wy) (ground arith)
boundary_of_Before asc x y h wx wy = rw (wx, wy) (ground arith)

boundary_All :
    (dir : Direction) (x : Job) (ys : List Job)
    → All (Before dir x) ys
    → IsWhole x
    → All IsWhole ys
    → All
        (λ y.
          (cursor_boundary created_at dir (job_key created_at x) y ≡ true)
          × (cursor_boundary created_at dir (job_key created_at y) x ≡ false))
        ys
boundary_All dir x [] h wx ws = tt
boundary_All dir x (y ∷ ys) (p, h) wx (wy, ws) =
    (boundary_of_Before dir x y p wx wy, boundary_All dir x ys h wx ws)

IsOrdered-of_sorted :
    (dir : Direction) (js : List Job)
    → IsSortedBy dir js
    → All IsWhole js
    → IsOrdered (job_key created_at) (cursor_boundary created_at dir) js
IsOrdered-of_sorted dir [] h ws = tt
IsOrdered-of_sorted dir (j ∷ js) (later, h) (wj, ws) =
    (boundary_self dir j wj, boundary_All dir j js later wj ws, IsOrdered-of_sorted dir js h ws)

page_of_jobs-paginate :
    (token : Job → String) (rows : List Job) (limit : ℕ)
    → ◌≡◌ {A = Result AppError (CursorPage JobDto)}
        (ok (page_of_jobs token rows limit))
        (map_page to_job_dto (ok (paginate rows limit token)))
unfolding page_of_jobs paginate
page_of_jobs-paginate token rows limit = refl

find_many-rows_after :
    (codec : Codec) (field : SortField) (dir : Direction) (w : JobWhere) (limit : ℕ)
    (table : List Job) (c : Option CursorPayload)
    → find_many (λ j. matches w j && after_cursor field dir c j) (suc limit) table
      ≡ take (suc limit) (
          rows_after codec
            (job_key field)
            (cursor_boundary field dir)
            (select (matches w) table)
            limit
            c)
unfolding find_many
find_many-rows_after codec field dir w limit table none =
    ap (take (suc limit))
      (select-select (matches w) (λ _. true) table ∙ select-true (select (matches w) table))
find_many-rows_after codec field dir w limit table (some c) =
    ap (take (suc limit)) (select-select (matches w) (cursor_boundary field dir c) table)

module _ (codec : Codec) (parse_date : String → Option ℕ) (table : SortField → Direction → List Job)
    (p : Principal) (q : ListJobsQuery) (limit : ℕ) (field : SortField) (dir : Direction)
    (w : JobWhere) (limit_ok : parse_limit q.limit ≡ ok limit)
    (sort_ok : parse_sort q.sort ≡ ok (field, dir))
    (where_ok : build_job_where parse_date (some p.tenant_id) q ≡ ok w) where
  -- The request with a cursor is the generic list endpoint over the matching rows.
  list_jobs-list_page :
      (cursor : Option String)
      → list_jobs codec parse_date table p (record q { cursor = cursor })
        ≡ map_page to_job_dto (
            list_page codec
              (job_key field)
              (cursor_boundary field dir)
              (select (matches w) (table field dir))
              limit
              cursor)
  unfolding list_jobs list_page
  list_jobs-list_page cursor = elim (Result-cases (decode_cursor codec.decode cursor)) [
    | inl (e, failed) ↦ rw limit_ok (rw sort_ok (rw where_ok (rw failed)))
    | inr (c, got) ↦ rw limit_ok (
        rw sort_ok (
          rw where_ok (
            rw got (
              ap (λ rows. ok (page_of_jobs (λ j. codec.encode (job_key field j)) rows limit))
                (find_many-rows_after codec field dir w limit (table field dir) c)
              ∙ page_of_jobs-paginate (λ j. codec.encode (job_key field j)) _ limit))))
  ]

limit_pos : (raw : Option Numeric) (limit : ℕ) → parse_limit raw ≡ ok limit → 0 < limit
unfolding parse_limit
limit_pos raw limit h = ground arith

-- Following the cursors of the job listing sorted by `created_at`, in either direction, returns
-- every job of the caller's tenant that matches the query, once and in order, and no other job. The
-- table is in the order asked for, every job was created at a whole millisecond, the query parses, and
-- the client has fuel for every match.
pub list_jobs_walk :
    (codec : Codec) (parse_date : String → Option ℕ) (table : SortField → Direction → List Job)
    (p : Principal) (q : ListJobsQuery) (limit fuel : ℕ) (dir : Direction) (w : JobWhere)
    → parse_limit q.limit ≡ ok limit
    → parse_sort q.sort ≡ ok (created_at, dir)
    → build_job_where parse_date (some p.tenant_id) q ≡ ok w
    → IsSortedBy dir (table created_at dir)
    → All IsWhole (table created_at dir)
    → length (select (matches w) (table created_at dir)) < fuel
    → follow (λ c. list_jobs codec parse_date table p (record q { cursor = c })) fuel none
      ≡ ok (map to_job_dto (select (matches w) (table created_at dir)))
list_jobs_walk codec parse_date table p q limit fuel dir w lok sok wok sorted whole h =
    let rows = select (matches w) (table created_at dir) in
    let key = job_key created_at in
    let beyond = cursor_boundary created_at dir in
    ap (λ request. follow request fuel none)
      (fun_ext (list_jobs-list_page codec parse_date table p q limit created_at dir w lok sok wok))
    ∙ follow-map_page to_job_dto (list_page codec key beyond rows limit) fuel none
    ∙ ap (map_ok to_job_dto) (
        walk_all codec key beyond rows limit fuel (limit_pos q.limit limit lok)
          (IsOrdered-of_sorted dir rows
            (IsSortedBy-select dir (matches w) (table created_at dir) sorted)
            (All-select IsWhole (matches w) (table created_at dir) whole))
          h)

completed_boundary :
    (last j : Job)
    → last.completed_at ≡ none
    → ((t : ℕ) → j.completed_at ≡ some t → 0 < t)
    → cursor_boundary completed_at desc (job_key completed_at last) j ≡ false
unfolding cursor_boundary job_key to_iso
completed_boundary last j e p = elim (Option-cases j.completed_at) [
  | inl pending ↦ rw pending
  | inr (t, done) ↦ rw done (rw e (positive t (p t done)))
]
  where
    positive : (t : ℕ) → 0 < t → (ltb t 0 || (t == 0 && ltb j.id last.id)) ≡ false
    positive t h = ground arith

completed_boundary-empty :
    (last : Job) (rows : List Job)
    → last.completed_at ≡ none
    → All (λ j. (t : ℕ) → j.completed_at ≡ some t → 0 < t) rows
    → select (cursor_boundary completed_at desc (job_key completed_at last)) rows ≡ []
completed_boundary-empty last [] e h = refl
completed_boundary-empty last (j ∷ js) e (p, h) =
    rw (completed_boundary last j e p) (completed_boundary-empty last js e h)

-- Sorted by `completed_at`, newest first: the cursor of a page that ends in an uncompleted job
-- names the epoch, and the request with it answers an empty last page, whatever completed jobs the
-- table still holds. Every completion date is after the epoch, and the query parses.
pub list_jobs_completed_lost :
    (codec : Codec) (parse_date : String → Option ℕ) (table : SortField → Direction → List Job)
    (p : Principal) (q : ListJobsQuery) (limit : ℕ) (w : JobWhere) (last : Job)
    → parse_limit q.limit ≡ ok limit
    → parse_sort q.sort ≡ ok (completed_at, desc)
    → build_job_where parse_date (some p.tenant_id) q ≡ ok w
    → All (λ j. (t : ℕ) → j.completed_at ≡ some t → 0 < t) (table completed_at desc)
    → last.completed_at ≡ none
    → list_jobs codec parse_date table p
        (record q { cursor = some (codec.encode (job_key completed_at last)) })
      ≡ ok (record { items = []; limit = limit; has_more = false; next_cursor = none })
unfolding list_page paginate
list_jobs_completed_lost codec parse_date table p q limit w last lok sok wok dated pending =
    let c = job_key completed_at last in
    let rows = select (matches w) (table completed_at desc) in
    let beyond = cursor_boundary completed_at desc in
    list_jobs-list_page codec parse_date table p q limit completed_at desc w lok sok wok
      (some (codec.encode c))
    ∙ rw
        (decode_cursor-some codec.decode (codec.encode c) c (codec.encode-ne c)
          (codec.decode-encode c))
        (rw
          (completed_boundary-empty last rows pending
            (All-select _ (matches w) (table completed_at desc) dated))
          (rw (leb→ltb_false 0 limit (omega arith))))
