-- ===== src/Books/Versions.antt =====
-- The `If-Match` of `updateBook` in apps/api/src/books/books.service.ts.
use audio_book.Base.{
  ℕ, suc, true, false, ◌&&◌, not, Option, some, String, is_some, ◌≡◌, refl, sym, ap, ◌∙◌, ok, err,
  ◌>>=◌, guard, guard-ok, ok_injective,
}
use audio_book.Base.Text.{includes}
use audio_book.Books.Model.{
  Book, BookStore, BookUser, version_conflict, invalid_state_transition, find_book,
  require_owned_book, update_book_row,
}
use audio_book.Books.Library.{
  UpdateBookBody, Etag, candidates, matches_etag, changes_language, apply_patch, update_book,
  update_found,
}
use audio_book.Books.Rows.{find_book-update, find_book-id}

update_book_found :
    (etag : Etag) (user : BookUser) (i : ℕ) (body : UpdateBookBody) (if_match : Option String)
    (w : BookStore) (book : Book)
    → find_book user.tenant_id i w.books ≡ some book
    → update_book etag user i body if_match w ≡ update_found etag body if_match book w
unfolding update_book require_owned_book
update_book_found etag user i body if_match w book found =
    rw (update_book, require_owned_book, found) refl

update_found_ok :
    (etag : Etag) (body : UpdateBookBody) (if_match : Option String) (w after : BookStore)
    (tag : String) (book : Book)
    → update_found etag body if_match book w ≡ ok (after, tag)
    → (not (is_some book.deleted_at) ≡ true)
      × (record w { books = update_book_row book.id (apply_patch body) w.books } ≡ after)
unfolding update_found
update_found_ok etag body if_match w after tag book e =
    let result : BookStore × String = (
      record w { books = update_book_row book.id (apply_patch body) w.books },
      etag book.id (suc book.row_version),
    ) in
    let language =
      not (changes_language body.language book && is_some book.current_book_version_id) in
    let (live, e1) =
      guard-ok (not (is_some book.deleted_at)) invalid_state_transition
        (guard (matches_etag if_match (etag book.id book.row_version)) version_conflict >>= λ _.
          (guard language invalid_state_transition >>= λ _. ok result))
        (after, tag) e in
    let (_, e2) =
      guard-ok (matches_etag if_match (etag book.id book.row_version)) version_conflict
        (guard language invalid_state_transition >>= λ _. ok result) (after, tag) e1 in
    let (_, e3) = guard-ok language invalid_state_transition (ok result) (after, tag) e2 in
    (live, ap (λ x. x.0) (ok_injective e3))

update_found_stale :
    (etag : Etag) (body : UpdateBookBody) (if_match : Option String) (w : BookStore) (book : Book)
    → not (is_some book.deleted_at) ≡ true
    → matches_etag if_match (etag book.id book.row_version) ≡ false
    → update_found etag body if_match book w ≡ err version_conflict
unfolding update_found
update_found_stale etag body if_match w book live stale = rw (update_found, live, stale) refl

-- Of two updates with one If-Match that names a single version and no wildcard, only one succeeds: once
-- it has, the other is refused as a version conflict and changes nothing, whatever it asks for.
pub update_book_once :
    (etag : Etag) (user : BookUser) (i : ℕ) (body other : UpdateBookBody) (header : String)
    (w after : BookStore) (tag : String) (book : Book)
    → find_book user.tenant_id i w.books ≡ some book
    → includes (candidates header) "*" ≡ false
    → includes (candidates header) (etag book.id (suc book.row_version)) ≡ false
    → update_book etag user i body (some header) w ≡ ok (after, tag)
    → update_book etag user i other (some header) after ≡ err version_conflict
unfolding matches_etag apply_patch
update_book_once etag user i body other header w after tag book found plain stale e =
    let (live, written) =
      update_found_ok etag body (some header) w after tag book
        (sym (update_book_found etag user i body (some header) w book found) ∙ e) in
    let own = find_book-id user.tenant_id i w.books book found in
    let found2 : find_book user.tenant_id i after.books ≡ some (apply_patch body book) =
      ap (λ x. find_book user.tenant_id i x.books) (sym written)
      ∙ ap (λ k. find_book user.tenant_id i (update_book_row k (apply_patch body) w.books)) own
      ∙ find_book-update user.tenant_id i (apply_patch body) (λ b. (refl, refl)) w.books book
          found in
    update_book_found etag user i other (some header) after (apply_patch body book) found2
    ∙ update_found_stale etag other (some header) after (apply_patch body book) live
        (rw (matches_etag, plain) stale)
