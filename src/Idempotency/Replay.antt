-- ===== src/Idempotency/Replay.antt =====
-- What the registry of apps/api/src/common/idempotency.service.ts promises about a repeated request.
use audio_book.Base.{
  ℕ, Bool, true, false, none, some, String, List, [], ◌∷◌, map, if◌then◌else◌, Result, ok, err, ◌≡◌,
  inl, inr, refl, sym, ap, ◌∙◌, subst, Bool-cases, Result-cases,
}
use audio_book.Idempotency.Rows.{
  str_eq_self, find_unique-update_by_id, claim, find_unique-upsert-none, find_unique-upsert-some,
}
use audio_book.Idempotency.{
  RequestKey, IdempotentResponse, in_progress, completed, failed, IdempotencyRow, RunError,
  request_in_progress, thrown, Updates, find_unique, update_by_id, created_row, upsert, complete,
  fail, stored_response, execute, run,
}

-- What a run that ended leaves under its key: the response, or the mark of its failure, or, when
-- the mark could not be written, the claim.
abbrev pub Left :
    {E : Type 0}
    → Bool
    → RequestKey
    → String
    → Result (RunError E) IdempotentResponse
    → List IdempotencyRow
    → Type 0
Left marks k hash (ok result) rows =
    (row : IdempotencyRow) × (find_unique k rows ≡ some row)
    × (row.request_body_hash ≡ hash)
    × (row.status ≡ completed)
    × (stored_response row ≡ result)
Left marks k hash (err _) rows =
    (row : IdempotencyRow) × (find_unique k rows ≡ some row)
    × (row.request_body_hash ≡ hash)
    × (row.status ≡ (if marks then failed else in_progress))

failed-Left :
    {E : Type 0} (marks : Bool) (id : ℕ) (k : RequestKey) (hash : String)
    (rows : List IdempotencyRow) (row : IdempotencyRow) (error : RunError E)
    → find_unique k rows ≡ some row
    → row.id ≡ id
    → row.request_body_hash ≡ hash
    → row.status ≡ in_progress
    → Left marks k hash (err error) (if marks then update_by_id id fail rows else rows)
unfolding fail
failed-Left true id k hash rows row error e same h p =
    (fail row, find_unique-update_by_id k id fail (λ r. refl) rows row e same, h, refl)
failed-Left false id k hash rows row error e same h p = (row, e, h, p)

completed-Left :
    (E : Type 0) (marks : Bool) (now id : ℕ) (k : RequestKey) (hash : String)
    (rows : List IdempotencyRow) (row : IdempotencyRow) (result : IdempotentResponse)
    → find_unique k rows ≡ some row
    → row.id ≡ id
    → row.request_body_hash ≡ hash
    → Left {E = E} marks k hash (ok result) (update_by_id id (complete now result) rows)
unfolding complete stored_response
completed-Left E marks now id k hash rows row result e same h = (
  complete now result row,
  find_unique-update_by_id k id (complete now result) (λ r. refl) rows row e same,
  h,
  refl,
  refl,
)

created_row-fields :
    (now id : ℕ) (k : RequestKey) (hash : String)
    → ((created_row now id k hash).id ≡ id)
      × ((created_row now id k hash).request_body_hash ≡ hash)
      × ((created_row now id k hash).status ≡ in_progress)
unfolding created_row
created_row-fields now id k hash = (refl, refl, refl)

-- A request under one key with one body.
abbrev pub Attempt : Type 0 → Type 0 → Type 0
Attempt S E = Updates E × ℕ × ℕ × (S → S × Result E IdempotentResponse)

if_true {ℓ} : {A : Type ℓ} (x y : A) (b : Bool) → b ≡ true → (if b then x else y) ≡ x
if_true x y b e = rw e refl

if_false {ℓ} : {A : Type ℓ} (x y : A) (b : Bool) → b ≡ false → (if b then x else y) ≡ y
if_false x y b e = rw e refl

module _ {S E : Type 0} where
  abbrev Ends :
      Bool
      → RequestKey
      → String
      → List IdempotencyRow × S × Result (RunError E) IdempotentResponse
      → Type 0
  Ends marks k hash out = Left marks k hash out.2 out.0

  module _ (updates : Updates E) (now id : ℕ) (k : RequestKey) (hash : String)
      (handler : S → S × Result E IdempotentResponse) (rows : List IdempotencyRow) (s : S) where
    abbrev unmarked : List IdempotencyRow
    unmarked = if updates.marks_failed then update_by_id id fail rows else rows

    execute_thrown :
        (error : E)
        → (handler s).1 ≡ err error
        → execute updates now id handler rows s ≡ (unmarked, (handler s).0, err (thrown error))
    unfolding execute
    execute_thrown error r = rw (execute, r) refl

    execute_done :
        (result : IdempotentResponse)
        → (handler s).1 ≡ ok result
        → updates.completes ≡ true
        → execute updates now id handler rows s
          ≡ (update_by_id id (complete now result) rows, (handler s).0, ok result)
    unfolding execute
    execute_done result r c = rw (execute, r, c) refl

    execute_unsaved :
        (result : IdempotentResponse)
        → (handler s).1 ≡ ok result
        → updates.completes ≡ false
        → execute updates now id handler rows s
          ≡ (unmarked, (handler s).0, err (thrown updates.update_error))
    unfolding execute
    execute_unsaved result r c = rw (execute, r, c) refl

    execute-Ends :
        (row : IdempotencyRow)
        → find_unique k rows ≡ some row
        → row.id ≡ id
        → row.request_body_hash ≡ hash
        → row.status ≡ in_progress
        → Ends updates.marks_failed k hash (execute updates now id handler rows s)
    execute-Ends row e same h p = elim (Result-cases (handler s).1) [
      | inl (error, r) ↦
          subst (Ends updates.marks_failed k hash) (sym (execute_thrown error r))
            (failed-Left updates.marks_failed id k hash rows row (thrown error) e same h p)
      | inr (result, r) ↦ elim (Bool-cases updates.completes) [
        | inl c ↦
            subst (Ends updates.marks_failed k hash) (sym (execute_done result r c))
              (completed-Left E updates.marks_failed now id k hash rows row result e same h)
        | inr c ↦ subst (Ends updates.marks_failed k hash) (sym (execute_unsaved result r c)) (
            failed-Left updates.marks_failed id k hash rows row (thrown updates.update_error) e same
              h p)
      ]
    ]

  module _ (updates : Updates E) (now fresh : ℕ) (k : RequestKey) (hash : String)
      (handler : S → S × Result E IdempotentResponse) (rows : List IdempotencyRow) (s : S) where
    run_first :
        find_unique k rows ≡ none
        → run updates now fresh k hash handler rows s
          ≡ execute updates now fresh handler (upsert now fresh k hash rows) s
    unfolding run
    run_first e = rw (run, e) refl

    run_again :
        (row : IdempotencyRow)
        → find_unique k rows ≡ some row
        → row.request_body_hash ≡ hash
        → row.status ≡ failed
        → run updates now fresh k hash handler rows s
          ≡ execute updates now row.id handler (upsert now row.id k hash rows) s
    unfolding run
    run_again row e h f = rw (run, e, h, str_eq_self hash, f) refl

    pub run_first-Ends :
        find_unique k rows ≡ none
        → Ends updates.marks_failed k hash (run updates now fresh k hash handler rows s)
    run_first-Ends e =
        let (own, hashed, status) = created_row-fields now fresh k hash in
        subst (Ends updates.marks_failed k hash) (sym (run_first e)) (
          execute-Ends updates now fresh k hash handler (upsert now fresh k hash rows) s
            (created_row now fresh k hash) (find_unique-upsert-none now fresh k hash rows e) own
            hashed status)

    pub run_again-Ends :
        (row : IdempotencyRow)
        → find_unique k rows ≡ some row
        → row.request_body_hash ≡ hash
        → row.status ≡ failed
        → Ends updates.marks_failed k hash (run updates now fresh k hash handler rows s)
    run_again-Ends row e h f =
        subst (Ends updates.marks_failed k hash) (sym (run_again row e h f)) (
          execute-Ends updates now row.id k hash handler (upsert now row.id k hash rows) s
            (claim hash row) (find_unique-upsert-some now row.id k hash rows row e) refl refl refl)

  pub run_stored :
      (updates : Updates E) (now fresh : ℕ) (k : RequestKey) (hash : String)
      (handler : S → S × Result E IdempotentResponse) (rows : List IdempotencyRow) (s : S)
      (row : IdempotencyRow)
      → find_unique k rows ≡ some row
      → row.request_body_hash ≡ hash
      → row.status ≡ completed
      → run updates now fresh k hash handler rows s ≡ (rows, s, ok (stored_response row))
  unfolding run stored_response
  run_stored updates now fresh k hash handler rows s row e h c =
      rw (run, e, h, str_eq_self hash, c) refl

  pub run_busy :
      (updates : Updates E) (now fresh : ℕ) (k : RequestKey) (hash : String)
      (handler : S → S × Result E IdempotentResponse) (rows : List IdempotencyRow) (s : S)
      (row : IdempotencyRow)
      → find_unique k rows ≡ some row
      → row.request_body_hash ≡ hash
      → row.status ≡ in_progress
      → run updates now fresh k hash handler rows s ≡ (rows, s, err request_in_progress)
  unfolding run
  run_busy updates now fresh k hash handler rows s row e h c =
      rw (run, e, h, str_eq_self hash, c) refl

  abbrev pub run_all :
      RequestKey
      → String
      → List (Attempt S E)
      → List IdempotencyRow
      → S
      → List IdempotencyRow × S × List (Result (RunError E) IdempotentResponse)
  run_all k hash [] rows s = (rows, s, [])
  run_all k hash ((updates, now, fresh, handler) ∷ more) rows s =
      let (rows1, s1, answer) = run updates now fresh k hash handler rows s in
      let (rows2, s2, answers) = run_all k hash more rows1 s1 in (rows2, s2, answer ∷ answers)

  run_all_stored :
      (k : RequestKey) (hash : String) (rows : List IdempotencyRow) (s : S) (row : IdempotencyRow)
      → find_unique k rows ≡ some row
      → row.request_body_hash ≡ hash
      → row.status ≡ completed
      → (more : List (Attempt S E))
      → run_all k hash more rows s ≡ (rows, s, map (λ _. ok (stored_response row)) more)
  run_all_stored k hash rows s row e h c [] = refl
  run_all_stored k hash rows s row e h c ((updates, now, fresh, handler) ∷ more) =
      rw
        (
          run_stored updates now fresh k hash handler rows s row e h c,
          run_all_stored k hash rows s row e h c more,
        )
        refl

  -- Once a first request with a key has been answered, every later request with that key and body,
  -- however many and whatever their handlers, gets the same response, and neither the state of the
  -- application nor the registry changes again: the handler takes effect once.
  pub run_all_replayed :
      (updates : Updates E) (now fresh : ℕ) (k : RequestKey) (hash : String)
      (handler : S → S × Result E IdempotentResponse) (rows : List IdempotencyRow) (s : S)
      (result : IdempotentResponse) (more : List (Attempt S E))
      → find_unique k rows ≡ none
      → (run updates now fresh k hash handler rows s).2 ≡ ok result
      → run_all k hash more
          (run updates now fresh k hash handler rows s).0
          (run updates now fresh k hash handler rows s).1
        ≡ (
          (run updates now fresh k hash handler rows s).0,
          (run updates now fresh k hash handler rows s).1,
          map (λ _. ok result) more,
        )
  run_all_replayed updates now fresh k hash handler rows s result more e answered =
      let out = run updates now fresh k hash handler rows s in
      let (row, found, h, c, same) =
        subst (λ r. Left updates.marks_failed k hash r out.0) answered
          (run_first-Ends updates now fresh k hash handler rows s e) in
      run_all_stored k hash out.0 out.1 row found h c more
      ∙ ap (λ r. (out.0, out.1, map (λ _. ok r) more)) same

  -- A first request that failed, and whose failure could be recorded, is claimed again by the next
  -- one, which runs its handler; when the failure could not be recorded, every later request with
  -- that key is refused as in progress, whatever the time, and no handler runs.
  pub run_failed :
      (updates next : Updates E) (now later fresh fresh' : ℕ) (k : RequestKey) (hash : String)
      (handler retry : S → S × Result E IdempotentResponse) (rows : List IdempotencyRow) (s s' : S)
      (error : RunError E)
      → find_unique k rows ≡ none
      → (run updates now fresh k hash handler rows s).2 ≡ err error
      → (id : ℕ) × (run next later fresh' k hash retry
            (run updates now fresh k hash handler rows s).0
            s'
          ≡ (if updates.marks_failed
              then execute next later id retry
                  (upsert later id k hash (run updates now fresh k hash handler rows s).0)
                  s'
              else ((run updates now fresh k hash handler rows s).0, s', err request_in_progress)))
  run_failed updates next now later fresh fresh' k hash handler retry rows s s' error e
        thrown_error =
      let left = run updates now fresh k hash handler rows s in
      let (row, found, h, c) =
        subst (λ r. Left updates.marks_failed k hash r left.0) thrown_error
          (run_first-Ends updates now fresh k hash handler rows s e) in
      (
        row.id,
        elim (Bool-cases updates.marks_failed) [
          | inl m ↦
              run_again next later fresh' k hash retry left.0 s' row found h
                (c ∙ if_true _ _ updates.marks_failed m)
              ∙ sym (if_true _ _ updates.marks_failed m)
          | inr m ↦
              run_busy next later fresh' k hash retry left.0 s' row found h
                (c ∙ if_false _ _ updates.marks_failed m)
              ∙ sym (if_false _ _ updates.marks_failed m)
        ],
      )
