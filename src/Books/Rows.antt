-- ===== src/Books/Rows.antt =====
-- The lookups of apps/api/src/books/books.service.ts in rows that were updated or removed.
use audio_book.Base.{
  ℕ, true, false, ◌&&◌, not, none, some, some_inj, List, [], ◌∷◌, ◌++◌, ◌==◌, ==_self, select, ◌≡◌,
  ◌≢◌, refl, sym, ap, ap₂, ◌∙◌, inl, inr, Bool-cases, All, arith,
}
use audio_book.Jobs.Model.{Job, find_job, update_job}
use audio_book.Books.Model.{Book, find_book, update_book_row}

-- An update that leaves the id and the tenant.
abbrev pub Keeps : (Book → Book) → Type 0
Keeps f = (b : Book) → ((f b).id ≡ b.id) × ((f b).tenant_id ≡ b.tenant_id)

pub find_book-update :
    (tenant i : ℕ) (f : Book → Book)
    → Keeps f
    → (bs : List Book) (book : Book) → find_book tenant i bs ≡ some book
    → find_book tenant i (update_book_row i f bs) ≡ some (f book)
unfolding find_book update_book_row
find_book-update tenant i f keeps [] book e = cc
find_book-update tenant i f keeps (b ∷ bs) book e =
    let (same, owner) = keeps b in
    let alike : ((f b).id == i && (f b).tenant_id == tenant)
        ≡ (b.id == i && b.tenant_id == tenant) =
      ap₂ (λ x y. x == i && y == tenant) same owner in
    elim (Bool-cases (b.id == i)) [
      | inr h ↦
          let there = find_book-update tenant i f keeps bs book (sym (rw h refl) ∙ e) in
          rw (h, h) there
      | inl h ↦ elim (Bool-cases (b.tenant_id == tenant)) [
        | inl t ↦
            let hit : ((f b).id == i && (f b).tenant_id == tenant) ≡ true =
              alike ∙ rw (h, t) refl in
            rw (h, hit) (ap (λ x. some (f x)) (some_inj (sym (rw (h, t) refl) ∙ e)))
        | inr t ↦
            let miss : ((f b).id == i && (f b).tenant_id == tenant) ≡ false =
              alike ∙ rw (h, t) refl in
            rw (h, miss) (find_book-update tenant i f keeps bs book (sym (rw (h, t) refl) ∙ e))
      ]
    ]

pub find_book-id :
    (tenant i : ℕ) (bs : List Book) (book : Book) → find_book tenant i bs ≡ some book → book.id ≡ i
unfolding find_book
find_book-id tenant i [] book e = cc
find_book-id tenant i (b ∷ bs) book e = elim (Bool-cases (b.id == i && b.tenant_id == tenant)) [
  | inl h ↦
      let same : b ≡ book = some_inj (sym (rw h refl) ∙ e) in
      let mine : b.id ≡ i = ground arith in sym (ap (λ x. x.id) same) ∙ mine
  | inr h ↦ find_book-id tenant i bs book (sym (rw h refl) ∙ e)
]

pub find_book-removed :
    (tenant i : ℕ) (bs : List Book) → find_book tenant i (select (λ b. not (b.id == i)) bs) ≡ none
unfolding find_book
find_book-removed tenant i [] = refl
find_book-removed tenant i (b ∷ bs) = elim (Bool-cases (b.id == i)) [
  | inl h ↦ rw h (find_book-removed tenant i bs)
  | inr h ↦ rw (h, h) (find_book-removed tenant i bs)
]

pub find_job-appended :
    (j : Job) (f : Job → Job) (jobs : List Job)
    → All (λ k. k.id ≢ j.id) jobs
    → ((f j).id ≡ j.id)
    → find_job j.id (update_job j.id f (jobs ++ j ∷ [])) ≡ some (f j)
unfolding find_job update_job
find_job-appended j f [] h e = rw (==_self j.id) (rw (e, ==_self j.id) refl)
find_job-appended j f (k ∷ jobs) (ne, h) e =
    let other : (k.id == j.id) ≡ false = ground arith in
    rw (other, other) (find_job-appended j f jobs h e)
