-- ===== src/Idempotency.antt =====
-- The registry of idempotent requests, apps/api/src/common/idempotency.service.ts. The digest of a
-- request body, the handler and whether the two updates of the row succeed are parameters.
mod Rows
pub mod Replay
mod Tests
use audio_book.Base.{
  ℕ, ◌+◌, Bool, true, false, ◌&&◌, Option, none, some, String, List, [], ◌∷◌, ◌==◌, str_eq, map,
  if◌then◌else◌, Result, ok, err,
}

-- The unique key `tenantId_principalId_method_pathTemplate_key`.
pub record RequestKey : Type 0 where
  pub tenant_id : ℕ
  pub principal_id : ℕ
  pub method : String
  pub path_template : String
  pub key : String

unfoldable pub same_key : RequestKey → RequestKey → Bool
same_key a b =
    a.tenant_id == b.tenant_id
    && (a.principal_id == b.principal_id
        && (str_eq a.method b.method
            && (str_eq a.path_template b.path_template && str_eq a.key b.key)))

-- `IdempotentResponse`; a body is JSON text.
pub record IdempotentResponse : Type 0 where
  pub status : ℕ
  pub body : String
  pub location : Option String

pub data RequestStatus : Type 0 where
  in_progress completed failed : RequestStatus

-- A row of `idempotency_key`. `response_body` is what `body as object` reads back.
pub record IdempotencyRow : Type 0 where
  pub id : ℕ
  pub request : RequestKey
  pub request_body_hash : String
  pub status : RequestStatus
  pub response_status_code : Option ℕ
  pub response_body : String
  pub response_location : Option String
  pub expires_at : ℕ
  pub completed_at : Option ℕ

pub data RunError (E : Type 0) : Type 0 where
  idempotency_key_conflict : RunError E
  request_in_progress : RunError E
  thrown : E → RunError E

-- Whether the update to COMPLETED and the update to FAILED succeed, and the error of the first.
pub record Updates (E : Type 0) : Type 0 where
  pub completes : Bool
  pub marks_failed : Bool
  pub update_error : E

abbrev pub idempotency_ttl_ms : ℕ
idempotency_ttl_ms = 86400000

unfoldable pub find_unique : RequestKey → List IdempotencyRow → Option IdempotencyRow
find_unique k [] = none
find_unique k (row ∷ rows) = if same_key row.request k then some row else find_unique k rows

unfoldable pub update_by_id :
    ℕ → (IdempotencyRow → IdempotencyRow) → List IdempotencyRow → List IdempotencyRow
update_by_id i f rows = map (λ row. if row.id == i then f row else row) rows

-- The `create` branch of the upsert.
unfoldable pub created_row : ℕ → ℕ → RequestKey → String → IdempotencyRow
created_row now id k hash = record {
  id = id;
  request = k;
  request_body_hash = hash;
  status = in_progress;
  response_status_code = none;
  response_body = "null";
  response_location = none;
  expires_at = now + idempotency_ttl_ms;
  completed_at = none;
}

unfoldable pub upsert : ℕ → ℕ → RequestKey → String → List IdempotencyRow → List IdempotencyRow
upsert now id k hash rows = elim (find_unique k rows) [
  | none ↦ created_row now id k hash ∷ rows
  | some _ ↦
      map
        (λ row.
          if same_key row.request k
          then record row { status = in_progress; request_body_hash = hash }
          else row)
        rows
]

unfoldable pub complete : ℕ → IdempotentResponse → IdempotencyRow → IdempotencyRow
complete now result row = record row {
  status = completed;
  response_status_code = some result.status;
  response_body = result.body;
  response_location = result.location;
  completed_at = some now;
}

unfoldable pub fail : IdempotencyRow → IdempotencyRow
fail row = record row { status = failed }

abbrev pub or_ok : Option ℕ → ℕ
or_ok none = 200
or_ok (some status) = status

-- The response that a completed row replays.
unfoldable pub stored_response : IdempotencyRow → IdempotentResponse
stored_response row = record {
  status = or_ok row.response_status_code;
  body = row.response_body;
  location = row.response_location;
}

module _ {S E : Type 0} where
  -- The `try` and `catch` around the handler, for the row of the given id.
  unfoldable pub execute :
      Updates E
      → ℕ
      → ℕ
      → (S → S × Result E IdempotentResponse)
      → List IdempotencyRow
      → S
      → List IdempotencyRow × S × Result (RunError E) IdempotentResponse
  execute updates now id handler rows s =
      let after = handler s in
      let failed_rows = if updates.marks_failed then update_by_id id fail rows else rows in
      elim after.1 [
        | ok result ↦
            if updates.completes
            then (update_by_id id (complete now result) rows, after.0, ok result)
            else (failed_rows, after.0, err (thrown updates.update_error))
        | err e ↦ (failed_rows, after.0, err (thrown e))
      ]

  -- `run`, where `hash` is the digest of the body and `fresh` the identifier that `generateId`
  -- returns.
  unfoldable pub run :
      Updates E
      → ℕ
      → ℕ
      → RequestKey
      → String
      → (S → S × Result E IdempotentResponse)
      → List IdempotencyRow
      → S
      → List IdempotencyRow × S × Result (RunError E) IdempotentResponse
  run updates now fresh k hash handler rows s = elim (find_unique k rows) [
    | none ↦ execute updates now fresh handler (upsert now fresh k hash rows) s
    | some existing ↦
        if str_eq existing.request_body_hash hash
        then elim existing.status [
          | completed ↦ (rows, s, ok (stored_response existing))
          | in_progress ↦ (rows, s, err request_in_progress)
          | failed ↦ execute updates now existing.id handler (upsert now existing.id k hash rows) s
        ]
        else (rows, s, err idempotency_key_conflict)
  ]
