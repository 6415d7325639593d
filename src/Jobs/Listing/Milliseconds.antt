-- ===== src/Jobs/Listing/Milliseconds.antt =====
-- The cursor of listJobs in apps/api/src/jobs/jobs.service.ts names a date by whole milliseconds, while
-- the column that it is compared with keeps microseconds.
use audio_book.Base.{
  not, sym, ℕ, suc, Bool, true, false, ◌&&◌, Option, some, String, List, [], ◌∷◌, ◌≡◌, refl, ap,
  select, take, arith, ltb, inl, inr, Bool-cases, ◌==◌, ok,
}
use audio_book.Paging.{Codec, parse_limit}
use audio_book.Paging.Keyset.{decode_cursor-some}
use audio_book.Jobs.Model.{Job, Principal}
use audio_book.Jobs.Listing.{
  ListJobsQuery, JobWhere, SortField, Direction, desc, created_at, parse_sort, build_job_where,
  matches, cursor_boundary, job_key, to_iso, page_of_jobs, find_many, list_jobs,
}

-- A job created in the millisecond of another, but not at its start.
abbrev pub is_within_millisecond : Job → Job → Bool
is_within_millisecond last j =
    (to_iso j.created_at == to_iso last.created_at) && ltb (to_iso j.created_at) j.created_at

select_dropped :
    (keep drop : Job → Bool) (rows : List Job)
    → ((j : Job) → drop j ≡ true → keep j ≡ false)
    → select keep (select (λ j. not (drop j)) rows) ≡ select keep rows
select_dropped keep drop [] h = refl
select_dropped keep drop (j ∷ js) h = elim (Bool-cases (drop j)) [
  | inl d ↦ rw (d, h j d) (select_dropped keep drop js h)
  | inr d ↦ elim (Bool-cases (keep j)) [
    | inl k ↦ rw (d, k) (ap (◌∷◌ j) (select_dropped keep drop js h))
    | inr k ↦ rw (d, k) (select_dropped keep drop js h)
  ]
]

millisecond_boundary :
    (last j : Job)
    → is_within_millisecond last j ≡ true
    → cursor_boundary created_at desc (job_key created_at last) j ≡ false
unfolding cursor_boundary job_key
millisecond_boundary last j within = ground arith

-- Sorted by `created_at`, newest first: the request with the cursor of a page that ends in a job
-- answers as if no job had been created within the millisecond of that job, its start excepted. Such
-- jobs are left out, also those that stand behind the job. The query parses.
pub list_jobs_millisecond_lost :
    (codec : Codec) (parse_date : String → Option ℕ) (table : SortField → Direction → List Job)
    (p : Principal) (q : ListJobsQuery) (limit : ℕ) (w : JobWhere) (last : Job)
    → parse_limit q.limit ≡ ok limit
    → parse_sort q.sort ≡ ok (created_at, desc)
    → build_job_where parse_date (some p.tenant_id) q ≡ ok w
    → let next = record q { cursor = some (codec.encode (job_key created_at last)) } in
      list_jobs codec parse_date table p next
      ≡ list_jobs codec parse_date
          (λ field dir. select (λ j. not (is_within_millisecond last j)) (table field dir))
          p
          next
unfolding list_jobs find_many
list_jobs_millisecond_lost codec parse_date table p q limit w last lok sok wok =
    let c = job_key created_at last in
    rw lok (
      rw sok (
        rw wok (
          rw
            (decode_cursor-some codec.decode (codec.encode c) c (codec.encode-ne c)
              (codec.decode-encode c))
            (ap
              (λ rows. ok (
                page_of_jobs (λ j. codec.encode (job_key created_at j)) (take (suc limit) rows)
                  limit))
              (sym (
                select_dropped (λ j. matches w j && cursor_boundary created_at desc c j)
                  (is_within_millisecond last) (table created_at desc)
                  (λ j within. no_match (matches w j) (millisecond_boundary last j within))))))))
  where
    no_match : (a : Bool) {b : Bool} → b ≡ false → (a && b) ≡ false
    no_match true e = e
    no_match false e = refl
