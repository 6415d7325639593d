-- ===== src/Idempotency/Rows.antt =====
-- The rows of the registry, apps/api/src/common/idempotency.service.ts: what a lookup by key finds
-- after an update by identifier and after the upsert.
use text.Mathlib.TextEquality.{eq_iff}
use audio_book.Base.{
  ℕ, Bool, true, false, none, some, some_inj, String, List, [], ◌∷◌, ◌==◌, ==_self, str_eq, map,
  if◌then◌else◌, ◌≡◌, inl, inr, refl, sym, ap, ◌∙◌, subst, Bool-cases,
}
use audio_book.Idempotency.{
  RequestKey, same_key, in_progress, IdempotencyRow, find_unique, update_by_id, created_row, upsert,
}

pub str_eq_self : (s : String) → str_eq s s ≡ true
str_eq_self s = (eq_iff s s).1 refl

pub same_key_self : (k : RequestKey) → same_key k k ≡ true
unfolding same_key
same_key_self k =
    rw
      (
        ==_self k.tenant_id,
        ==_self k.principal_id,
        str_eq_self k.method,
        str_eq_self k.path_template,
      )
      (str_eq_self k.key)

-- The row that a lookup by key finds, and what an update of the rows makes of it.
pub find_unique-map :
    (k : RequestKey) (f : IdempotencyRow → IdempotencyRow)
    → ((r : IdempotencyRow) → (f r).request ≡ r.request)
    → (rows : List IdempotencyRow) (row : IdempotencyRow) → find_unique k rows ≡ some row
    → find_unique k (map f rows) ≡ some (f row)
unfolding find_unique
find_unique-map k f keeps [] row e = cc
find_unique-map k f keeps (r ∷ rs) row e = elim (Bool-cases (same_key r.request k)) [
  | inl m ↦
      rw (ap (λ q. same_key q k) (keeps r) ∙ m)
        (ap (λ x. some (f x)) (some_inj (sym (rw m refl) ∙ e)))
  | inr m ↦
      rw (ap (λ q. same_key q k) (keeps r) ∙ m)
        (find_unique-map k f keeps rs row (sym (rw m refl) ∙ e))
]

pub request_kept :
    (b : Bool) (f : IdempotencyRow → IdempotencyRow)
    → ((r : IdempotencyRow) → (f r).request ≡ r.request)
    → (r : IdempotencyRow) → (if b then f r else r).request ≡ r.request
request_kept true f keeps r = keeps r
request_kept false f keeps r = refl

pub find_unique-update_by_id :
    (k : RequestKey) (i : ℕ) (f : IdempotencyRow → IdempotencyRow)
    → ((r : IdempotencyRow) → (f r).request ≡ r.request)
    → (rows : List IdempotencyRow) (row : IdempotencyRow) → find_unique k rows ≡ some row
    → row.id ≡ i
    → find_unique k (update_by_id i f rows) ≡ some (f row)
unfolding update_by_id
find_unique-update_by_id k i f keeps rows row e same =
    find_unique-map k (λ r. if r.id == i then f r else r) (λ r. request_kept (r.id == i) f keeps r)
      rows row e
    ∙ rw (subst (λ x. (x == i) ≡ true) (sym same) (==_self i)) refl

pub find_unique-same_key :
    (k : RequestKey) (rows : List IdempotencyRow) (row : IdempotencyRow)
    → find_unique k rows ≡ some row
    → same_key row.request k ≡ true
unfolding find_unique
find_unique-same_key k [] row e = cc
find_unique-same_key k (r ∷ rs) row e = elim (Bool-cases (same_key r.request k)) [
  | inl m ↦
      let here : r ≡ row = some_inj (sym (rw m refl) ∙ e) in
      subst (λ x. same_key x.request k ≡ true) here m
  | inr m ↦ find_unique-same_key k rs row (sym (rw m refl) ∙ e)
]

abbrev pub claim : String → IdempotencyRow → IdempotencyRow
claim hash row = record row { status = in_progress; request_body_hash = hash }

pub upsert-none :
    (now id : ℕ) (k : RequestKey) (hash : String) (rows : List IdempotencyRow)
    → find_unique k rows ≡ none
    → upsert now id k hash rows ≡ created_row now id k hash ∷ rows
unfolding upsert
upsert-none now id k hash rows e = rw (upsert, e) refl

pub upsert-some :
    (now id : ℕ) (k : RequestKey) (hash : String) (rows : List IdempotencyRow)
    (row : IdempotencyRow)
    → find_unique k rows ≡ some row
    → upsert now id k hash rows ≡ map (λ r. if same_key r.request k then claim hash r else r) rows
unfolding upsert
upsert-some now id k hash rows row e = rw (upsert, e) refl

pub find_unique-created :
    (now id : ℕ) (k : RequestKey) (hash : String) (rows : List IdempotencyRow)
    → find_unique k (created_row now id k hash ∷ rows) ≡ some (created_row now id k hash)
unfolding find_unique created_row
find_unique-created now id k hash rows = rw (same_key_self k) refl

pub find_unique-upsert-none :
    (now id : ℕ) (k : RequestKey) (hash : String) (rows : List IdempotencyRow)
    → find_unique k rows ≡ none
    → find_unique k (upsert now id k hash rows) ≡ some (created_row now id k hash)
find_unique-upsert-none now id k hash rows e =
    ap (find_unique k) (upsert-none now id k hash rows e) ∙ find_unique-created now id k hash rows

pub find_unique-upsert-some :
    (now id : ℕ) (k : RequestKey) (hash : String) (rows : List IdempotencyRow)
    (row : IdempotencyRow)
    → find_unique k rows ≡ some row
    → find_unique k (upsert now id k hash rows) ≡ some (claim hash row)
find_unique-upsert-some now id k hash rows row e =
    ap (find_unique k) (upsert-some now id k hash rows row e)
    ∙ find_unique-map k (λ r. if same_key r.request k then claim hash r else r)
        (λ r. request_kept (same_key r.request k) (claim hash) (λ x. refl) r) rows row e
    ∙ rw (find_unique-same_key k rows row e) refl
