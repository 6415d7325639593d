-- ===== src/Books/Listing.antt =====
-- `listBooks` of apps/api/src/books/books.service.ts. The table is `book` in the order of `orderBy`,
-- newest first.
use audio_book.Base.{
  ℕ, suc, Bool, true, false, ◌&&◌, ◌||◌, not, Option, none, some, String, List, [], ◌∷◌, ◌==◌, ltb,
  str_eq, map, select, all, length, take, last?, is_some, if◌then◌else◌, Result, ok, err, ◌>>=◌,
}
use audio_book.Base.Text.{split_on, trim, includes}
use audio_book.Errors.{AppError}
use audio_book.Paging.{
  CursorPayload, Codec, CursorPage, Numeric, decode_cursor, parse_limit, next_of,
}
use audio_book.Jobs.Listing.{invalid}
use audio_book.Books.Model.{Book, BookUser}

pub record ListBooksQuery : Type 0 where
  pub cursor : Option String
  pub limit : Option Numeric
  pub status : Option String
  pub include_deleted : Option String

abbrev pub book_statuses : List String
book_statuses =
    "CREATED" ∷ "UPLOADED" ∷ "PARSING" ∷ "PARSED" ∷ "STRUCTURED" ∷ "ANALYZING" ∷ "ANALYZED"
    ∷ "CASTING" ∷ "SCRIPTING" ∷ "SCRIPTED" ∷ "GENERATING" ∷ "ASSEMBLING" ∷ "COMPLETED" ∷ "FAILED"
    ∷ "CANCELLED" ∷ "NEEDS_REVIEW" ∷ []

-- The `where` object before the cursor; no statuses is no condition.
pub record BookWhere : Type 0 where
  pub tenant_id : ℕ
  pub with_deleted : Bool
  pub statuses : List String

abbrev includes_deleted : Option String → Bool
includes_deleted none = false
includes_deleted (some s) = str_eq s "true"

unfoldable pub parse_statuses : Option String → Result AppError (List String)
parse_statuses none = ok []
parse_statuses (some raw) =
    let statuses = select (λ s. not (str_eq s "")) (map trim (split_on 44 raw)) in
    if str_eq raw ""
    then ok []
    else if all (includes book_statuses) statuses
    then ok statuses
    else err (invalid "status" "invalid_enum")

unfoldable pub build_book_where : BookUser → ListBooksQuery → Result AppError BookWhere
build_book_where user q = do
  statuses ← parse_statuses q.status
  ok (record {
    tenant_id = user.tenant_id;
    with_deleted = includes_deleted q.include_deleted;
    statuses = statuses;
  })

abbrev has_status : List String → String → Bool
has_status [] s = true
has_status (t ∷ ts) s = includes (t ∷ ts) s

unfoldable pub book_matches : BookWhere → Book → Bool
book_matches w b =
    b.tenant_id == w.tenant_id
    && (w.with_deleted || not (is_some b.deleted_at))
    && has_status w.statuses b.status

unfoldable pub book_boundary : CursorPayload → Book → Bool
book_boundary c b = ltb b.created_at c.v || (b.created_at == c.v && ltb b.id c.id)

unfoldable pub book_key : Book → CursorPayload
book_key b = record { v = b.created_at; id = b.id }

abbrev pub behind : Option CursorPayload → Book → Bool
behind none b = true
behind (some c) b = book_boundary c b

unfoldable pub page_of_books : (Book → String) → List Book → ℕ → CursorPage Book
page_of_books token rows limit =
    let more = ltb limit (length rows) in
    let page = if more then take limit rows else rows in
    record {
      items = page;
      limit = limit;
      has_more = more;
      next_cursor = next_of token more (last? page);
    }

-- `listBooks`
unfoldable pub list_books :
    Codec → List Book → BookUser → ListBooksQuery → Result AppError (CursorPage Book)
list_books codec table user q = do
  limit ← parse_limit q.limit
  cursor ← decode_cursor codec.decode q.cursor
  w ← build_book_where user q
  let rows = take (suc limit) (select (λ b. book_matches w b && behind cursor b) table)
  ok (page_of_books (λ b. codec.encode (book_key b)) rows limit)
