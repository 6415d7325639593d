-- ===== src/Paging.antt =====
-- apps/api/src/common/pagination.ts: limits, opaque cursors, and the slicing of `limit + 1` fetched
-- rows into a page. `Codec` stands for `Buffer` and `JSON`, which are not part of the program.
pub mod Keyset
pub mod Tally
use Prim.Native.String
use audio_book.Base.{
  ℕ, Bool, true, false, ◌&&◌, Option, none, some, String, List, [], ◌∷◌, ◌≡◌, ◌≢◌, length, take,
  last?, ltb, leb, if◌then◌else◌, Result, ok, err,
}
use audio_book.Errors.{AppError, ErrorCategory, app_error}

-- `CursorPayload`: a row's sort value and id.
pub record CursorPayload : Type 0 where
  pub v : ℕ
  pub id : ℕ

-- `Buffer.from(JSON.stringify(payload)).toString('base64url')` and back: a token is not the empty
-- text, and decodes to the payload that was encoded.
pub record Codec : Type 0 where
  pub encode : CursorPayload → String
  pub decode : String → Option CursorPayload
  pub encode-ne : (c : CursorPayload) → encode c ≢ ""
  pub decode-encode : (c : CursorPayload) → decode (encode c) ≡ some c

abbrev pub invalid_cursor : AppError
invalid_cursor = app_error (record {
  code = "INVALID_CURSOR";
  category = ErrorCategory.validation;
  details = record { field = some "cursor"; issue = "invalid" } ∷ [];
  retryable = none;
})

abbrev pub limit_error : AppError
limit_error = app_error (record {
  code = "VALIDATION_FAILED";
  category = ErrorCategory.validation;
  details = record { field = some "limit"; issue = "out_of_range" } ∷ [];
  retryable = none;
})

-- `decodeCursor`: an absent or empty parameter is no cursor.
unfoldable pub decode_cursor :
    (String → Option CursorPayload) → Option String → Result AppError (Option CursorPayload)
decode_cursor decode none = ok none
decode_cursor decode (some String.[]) = ok none
decode_cursor decode (some (String.◌∷◌ c s)) = elim (decode (String.◌∷◌ c s)) [
  | none ↦ err invalid_cursor
  | some payload ↦ ok (some payload)
]

abbrev pub default_page_limit : ℕ
default_page_limit = 25

abbrev pub max_page_limit : ℕ
max_page_limit = 100

-- What `Number(raw)` is: a non-negative integer, or any other value (NaN, a fraction, a negative).
pub data Numeric : Type 0 where
  integer : ℕ → Numeric
  other : Numeric

-- `parseLimit`
unfoldable pub parse_limit : Option Numeric → Result AppError ℕ
parse_limit none = ok default_page_limit
parse_limit (some other) = err limit_error
parse_limit (some (integer n)) =
    if ltb n 1 then err limit_error else if ltb max_page_limit n then err limit_error else ok n

pub record CursorPage {ℓ} (T : Type ℓ) : Type ℓ where
  pub items : List T
  pub limit : ℕ
  pub has_more : Bool
  pub next_cursor : Option String

-- `hasMore && last ? encodeCursor(…) : null`
abbrev pub next_of {ℓ} : {T : Type ℓ} → (T → String) → Bool → Option T → Option String
next_of token true (some row) = some (token row)
next_of token true none = none
next_of token false last = none

-- `paginate`; `token` is `encodeCursor(sortValueOf(row), idOf(row))`.
unfoldable pub paginate {ℓ} : {T : Type ℓ} → List T → ℕ → (T → String) → CursorPage T
paginate rows limit token =
    let more = ltb limit (length rows) in
    let page = if more then take limit rows else rows in
    record {
      items = page;
      limit = limit;
      has_more = more;
      next_cursor = next_of token more (last? page);
    }
