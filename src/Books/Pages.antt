-- ===== src/Books/Pages.antt =====
-- The pages of `listBooks` in apps/api/src/books/books.service.ts, from the first to the last.
use mathlib.Core.Path.{fun_ext}
use audio_book.Base.{
  ℕ, suc, ◌<◌, Bool, true, false, ◌&&◌, Option, none, some, String, List, [], ◌∷◌, ◌≡◌, ◌⊎◌, refl,
  ap, ◌∙◌, length, select, select-select, select-true, take, All, All-select, arith, inl, inr,
  Bool-cases, Result-cases, ok,
}
use audio_book.Paging.{CursorPayload, Codec, decode_cursor, paginate, parse_limit, Numeric}
use audio_book.Paging.Keyset.{IsOrdered, list_page, rows_after, follow, walk_all}
use audio_book.Books.Model.{Book, BookUser}
use audio_book.Books.Listing.{
  ListBooksQuery, BookWhere, build_book_where, book_matches, book_boundary, book_key, behind,
  page_of_books, list_books,
}

-- `orderBy: [{ createdAt: 'desc' }, { id: 'desc' }]`, strict since ids differ.
abbrev pub Newer : Book → Book → Type 0
Newer x y = (y.created_at < x.created_at) ⊎ ((y.created_at ≡ x.created_at) × (y.id < x.id))

abbrev pub IsNewestFirst : List Book → Type 0
IsNewestFirst [] = Unit
IsNewestFirst (b ∷ bs) = All (Newer b) bs × IsNewestFirst bs

IsNewestFirst-select :
    (q : Book → Bool) (bs : List Book) → IsNewestFirst bs → IsNewestFirst (select q bs)
IsNewestFirst-select q [] h = tt
IsNewestFirst-select q (b ∷ bs) (later, h) = elim (Bool-cases (q b)) [
  | inl e ↦ rw e (All-select (Newer b) q bs later, IsNewestFirst-select q bs h)
  | inr e ↦ rw e (IsNewestFirst-select q bs h)
]

book_boundary_self : (b : Book) → book_boundary (book_key b) b ≡ false
unfolding book_boundary book_key
book_boundary_self b = ground arith

book_boundary-Newer :
    (x y : Book)
    → Newer x y
    → (book_boundary (book_key x) y ≡ true) × (book_boundary (book_key y) x ≡ false)
unfolding book_boundary book_key
book_boundary-Newer x y h = ground arith

book_boundary-All :
    (x : Book) (ys : List Book)
    → All (Newer x) ys
    → All (λ y. (book_boundary (book_key x) y ≡ true) × (book_boundary (book_key y) x ≡ false)) ys
book_boundary-All x [] h = tt
book_boundary-All x (y ∷ ys) (p, h) = (book_boundary-Newer x y p, book_boundary-All x ys h)

IsNewestFirst-IsOrdered : (bs : List Book) → IsNewestFirst bs → IsOrdered book_key book_boundary bs
IsNewestFirst-IsOrdered [] h = tt
IsNewestFirst-IsOrdered (b ∷ bs) (later, h) =
    (book_boundary_self b, book_boundary-All b bs later, IsNewestFirst-IsOrdered bs h)

page_of_books-paginate :
    (token : Book → String) (rows : List Book) (limit : ℕ)
    → page_of_books token rows limit ≡ paginate rows limit token
unfolding page_of_books paginate
page_of_books-paginate token rows limit = refl

rows_behind :
    (codec : Codec) (w : BookWhere) (limit : ℕ) (table : List Book) (c : Option CursorPayload)
    → take (suc limit) (select (λ b. book_matches w b && behind c b) table)
      ≡ take
          (suc limit)
          (rows_after codec book_key book_boundary (select (book_matches w) table) limit c)
rows_behind codec w limit table none =
    ap (take (suc limit)) (
      select-select (book_matches w) (λ _. true) table
      ∙ select-true (select (book_matches w) table))
rows_behind codec w limit table (some c) =
    ap (take (suc limit)) (select-select (book_matches w) (book_boundary c) table)

limit_pos : (raw : Option Numeric) (limit : ℕ) → parse_limit raw ≡ ok limit → 0 < limit
unfolding parse_limit
limit_pos raw limit h = ground arith

list_books-list_page :
    (codec : Codec) (table : List Book) (user : BookUser) (q : ListBooksQuery) (limit : ℕ)
    (w : BookWhere)
    → parse_limit q.limit ≡ ok limit
    → build_book_where user q ≡ ok w
    → (cursor : Option String)
    → list_books codec table user (record q { cursor = cursor })
      ≡ list_page codec book_key book_boundary (select (book_matches w) table) limit cursor
unfolding list_books list_page build_book_where
list_books-list_page codec table user q limit w lok wok cursor =
    elim (Result-cases (decode_cursor codec.decode cursor)) [
      | inl (e, failed) ↦ rw lok (rw failed refl)
      | inr (c, got) ↦ rw lok (
          rw got (
            rw wok (
              ap (λ rows. ok (page_of_books (λ b. codec.encode (book_key b)) rows limit))
                (rows_behind codec w limit table c)
              ∙ ap ok (
                  page_of_books-paginate (λ b. codec.encode (book_key b))
                    (take (suc limit) (
                      rows_after codec book_key book_boundary (select (book_matches w) table) limit
                        c))
                    limit))))
    ]

-- The paged listing of books implements the listing without pages: a client that follows its cursors
-- gets every book of its tenant that the query admits, newest first, once, and comes to an end within
-- as many requests as there are such books and one more. The table is in the order asked for, and the
-- query parses.
pub list_books_walk :
    (codec : Codec) (table : List Book) (user : BookUser) (q : ListBooksQuery) (limit fuel : ℕ)
    (w : BookWhere)
    → parse_limit q.limit ≡ ok limit
    → build_book_where user q ≡ ok w
    → IsNewestFirst table
    → length (select (book_matches w) table) < fuel
    → follow (λ c. list_books codec table user (record q { cursor = c })) fuel none
      ≡ ok (select (book_matches w) table)
list_books_walk codec table user q limit fuel w lok wok sorted h =
    let rows = select (book_matches w) table in
    ap (λ request. follow request fuel none)
      (fun_ext (list_books-list_page codec table user q limit w lok wok))
    ∙ walk_all codec book_key book_boundary rows limit fuel (limit_pos q.limit limit lok)
        (IsNewestFirst-IsOrdered rows (IsNewestFirst-select (book_matches w) table sorted)) h
