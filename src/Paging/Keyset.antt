-- ===== src/Paging/Keyset.antt =====
-- Walking a list endpoint from page to page by its cursors. An endpoint filters the rows, which the
-- database returns in its sort order, by the boundary of the cursor, fetches `limit + 1` of them
-- and calls `paginate`.
use mathlib.Core.List.{Memᴰ, map-append}
use audio_book.Base.{
  ℕ, zero, suc, ◌<◌, ◌≤◌, Bool, true, false, Option, none, some, String, List, [], ◌∷◌, ◌++◌, map,
  ◌≡◌, ◌≢◌, refl, sym, ap, ◌∙◌, length, take, drop, last?, select, All, All-Memᴰ, All-weaken,
  Memᴰ-append_left, subst, some_inj, leb→ltb_false, take_all, take-take-suc, length-take,
  length-drop, arith, ltb, lt→ltb, ltb→lt, append_assoc, inl, inr, Bool-cases, Result, ok, err,
  ◌>>=◌, Result-cases, Option-cases, take-append-drop,
}
use audio_book.Errors.{AppError}
use audio_book.Paging.{CursorPayload, Codec, CursorPage, decode_cursor, paginate}

pub decode_cursor-some :
    (decode : String → Option CursorPayload) (s : String) (c : CursorPayload)
    → s ≢ ""
    → decode s ≡ some c
    → decode_cursor decode (some s) ≡ ok (some c)
unfolding decode_cursor
decode_cursor-some decode String.[] c h e = absurd (h refl)
decode_cursor-some decode (String.◌∷◌ a s) c h e = rw (e, decode_cursor)

-- The rows stand in the order of the boundary: the boundary of a row admits just the rows behind.
abbrev pub IsOrdered {ℓ} :
    {T : Type ℓ} → (T → CursorPayload) → (CursorPayload → T → Bool) → List T → Type ℓ
IsOrdered key beyond [] = Unit
IsOrdered key beyond (x ∷ xs) =
    (beyond (key x) x ≡ false)
    × All (λ y. (beyond (key x) y ≡ true) × (beyond (key y) x ≡ false)) xs
    × IsOrdered key beyond xs

-- A client that follows `next_cursor`, for at most as many requests as the fuel.
unfoldable pub follow {ℓ} :
    {T : Type ℓ}
    → (Option String → Result AppError (CursorPage T))
    → ℕ
    → Option String
    → Result AppError (List T)
follow request zero cursor = ok []
follow request (suc fuel) cursor = elim (request cursor) [
  | err e ↦ err e
  | ok page ↦ elim page.next_cursor [
    | none ↦ ok page.items
    | some t ↦ elim (follow request fuel (some t)) [
      | err e ↦ err e
      | ok rest ↦ ok (page.items ++ rest)
    ]
  ]
]

module _ {ℓ} {T : Type ℓ} (codec : Codec) (key : T → CursorPayload)
    (beyond : CursorPayload → T → Bool) (rows : List T) (limit : ℕ) where
  abbrev pub rows_after : Option CursorPayload → List T
  rows_after none = rows
  rows_after (some c) = select (beyond c) rows

  -- One request.
  unfoldable pub list_page : Option String → Result AppError (CursorPage T)
  list_page cursor = do
    c ← decode_cursor codec.decode cursor
    ok (paginate (take (suc limit) (rows_after c)) limit (λ r. codec.encode (key r)))

module _ {ℓ} {T : Type ℓ} where
  last?-Memᴰ : (xs : List T) (r : T) → last? xs ≡ some r → Memᴰ r xs
  last?-Memᴰ [] r e = cc
  last?-Memᴰ (x ∷ []) r e = Memᴰ.head (cc)
  last?-Memᴰ (x ∷ y ∷ xs) r e = Memᴰ.tail (last?-Memᴰ (y ∷ xs) r e)

  last?-some : (x : T) (xs : List T) → (r : T) × (last? (x ∷ xs) ≡ some r)
  last?-some x [] = (x, refl)
  last?-some x (y ∷ xs) = last?-some y xs

  All-append_right {κ} : (P : T → Type κ) (xs ys : List T) → All P (xs ++ ys) → All P ys
  All-append_right P [] ys h = h
  All-append_right P (x ∷ xs) ys (p, h) = All-append_right P xs ys h

  select-All : (q : T → Bool) (xs : List T) → All (λ x. q x ≡ true) xs → select q xs ≡ xs
  select-All q [] h = refl
  select-All q (x ∷ xs) (e, h) = rw (e, select-All q xs h)

  -- The boundary of the last row of a prefix admits just what follows the prefix.
  select_after :
      (key : T → CursorPayload) (beyond : CursorPayload → T → Bool) (xs ys : List T) (r : T)
      → IsOrdered key beyond (xs ++ ys)
      → last? xs ≡ some r
      → select (beyond (key r)) (xs ++ ys) ≡ ys
  select_after key beyond [] ys r h e = cc
  select_after key beyond (x ∷ []) ys r (self, later, h) e =
      let same : x ≡ r = some_inj e in
      subst (λ z. select (beyond (key z)) (x ∷ ys) ≡ ys) same
        (rw self (select-All (beyond (key x)) ys (All-weaken ys (λ y p. p.0) later)))
  select_after key beyond (x ∷ y ∷ xs) ys r (self, later, h) e =
      rw
        (All-Memᴰ _ ((y ∷ xs) ++ ys) later
          (Memᴰ-append_left (y ∷ xs) ys (last?-Memᴰ (y ∷ xs) r e))).1
        (select_after key beyond (y ∷ xs) ys r h e)

  IsOrdered-append_right :
      (key : T → CursorPayload) (beyond : CursorPayload → T → Bool) (xs ys : List T)
      → IsOrdered key beyond (xs ++ ys)
      → IsOrdered key beyond ys
  IsOrdered-append_right key beyond [] ys h = h
  IsOrdered-append_right key beyond (x ∷ xs) ys (self, later, h) =
      IsOrdered-append_right key beyond xs ys h

  last?-append : (xs ys : List T) (r : T) → last? ys ≡ some r → last? (xs ++ ys) ≡ some r
  last?-append [] ys r e = e
  last?-append (x ∷ []) [] r e = cc
  last?-append (x ∷ []) (y ∷ ys) r e = e
  last?-append (x ∷ z ∷ xs) ys r e = last?-append (z ∷ xs) ys r e

  last?-take :
      (n : ℕ) (xs : List T) → 0 < n → n < length xs → (r : T) × (last? (take n xs) ≡ some r)
  last?-take zero xs p h = absurd (omega arith)
  last?-take (suc n) [] p h = absurd (omega arith)
  last?-take (suc n) (x ∷ xs) p h = last?-some x (take n xs)

  -- What `paginate` makes of the rows fetched for a remainder `rest` of the listing.
  paginate_last :
      (rest : List T) (limit : ℕ) (token : T → String)
      → length rest ≤ limit
      → paginate (take (suc limit) rest) limit token
        ≡ record { items = rest; limit = limit; has_more = false; next_cursor = none }
  unfolding paginate
  paginate_last rest limit token h =
      rw (take_all (suc limit) rest (omega arith)) (rw (leb→ltb_false (length rest) limit h))

  paginate_more :
      (rest : List T) (limit : ℕ) (token : T → String) (r : T)
      → limit < length rest
      → last? (take limit rest) ≡ some r
      → paginate (take (suc limit) rest) limit token ≡ record {
        items = take limit rest;
        limit = limit;
        has_more = true;
        next_cursor = some (token r);
      }
  unfolding paginate
  paginate_more rest limit token r h e =
      let longer : ltb limit (length (take (suc limit) rest)) ≡ true =
        lt→ltb _ _ (omega (arith, length-take (suc limit) rest)) in
      rw longer (rw (take-take-suc limit rest) (rw e))

module _ {ℓ} {T : Type ℓ} (codec : Codec) (key : T → CursorPayload)
    (beyond : CursorPayload → T → Bool) (rows : List T) (limit : ℕ) (pos : 0 < limit)
    (ordered : IsOrdered key beyond rows) where
  abbrev token : T → String
  token r = codec.encode (key r)

  pub list_page-rest :
      (cursor : Option String) (c : Option CursorPayload) (rest : List T)
      → decode_cursor codec.decode cursor ≡ ok c
      → rows_after codec key beyond rows limit c ≡ rest
      → list_page codec key beyond rows limit cursor
        ≡ ok (paginate (take (suc limit) rest) limit token)
  unfolding list_page
  list_page-rest cursor c rest dec after = rw dec (rw after)

  regroup :
      (done rest : List T)
      → rows ≡ done ++ rest
      → rows ≡ (done ++ take limit rest) ++ drop limit rest
  regroup done rest split =
      split
      ∙ ap (λ l. done ++ l) (sym (take-append-drop limit rest))
      ∙ sym (append_assoc done (take limit rest) (drop limit rest))

  next_rows :
      (done rest : List T) (r : T)
      → rows ≡ done ++ rest
      → last? (take limit rest) ≡ some r
      → rows_after codec key beyond rows limit (some (key r)) ≡ drop limit rest
  next_rows done rest r split last =
      subst (λ l. select (beyond (key r)) l ≡ drop limit rest) (sym (regroup done rest split))
        (select_after key beyond (done ++ take limit rest) (drop limit rest) r
          (subst (IsOrdered key beyond) (regroup done rest split) ordered)
          (last?-append done (take limit rest) r last))

  walk_last :
      (fuel : ℕ) (cursor : Option String) (rest : List T)
      → list_page codec key beyond rows limit cursor
        ≡ ok (record { items = rest; limit = limit; has_more = false; next_cursor = none })
      → follow (list_page codec key beyond rows limit) (suc fuel) cursor ≡ ok rest
  unfolding follow
  walk_last fuel cursor rest e = rw (e, follow)

  walk_more :
      (fuel : ℕ) (cursor : Option String) (page rest : List T) (t : String)
      → list_page codec key beyond rows limit cursor
        ≡ ok (record { items = page; limit = limit; has_more = true; next_cursor = some t })
      → follow (list_page codec key beyond rows limit) fuel (some t) ≡ ok rest
      → follow (list_page codec key beyond rows limit) (suc fuel) cursor ≡ ok (page ++ rest)
  unfolding follow
  walk_more fuel cursor page rest t e h = rw (e, follow) (rw h)

  -- From any point of the listing: `rest` is what the cursor admits.
  walk_from :
      (fuel : ℕ) (cursor : Option String) (c : Option CursorPayload) (done rest : List T)
      → length rest < fuel
      → rows ≡ done ++ rest
      → decode_cursor codec.decode cursor ≡ ok c
      → rows_after codec key beyond rows limit c ≡ rest
      → follow (list_page codec key beyond rows limit) fuel cursor ≡ ok rest
  unfolding list_page
  walk_from zero cursor c done rest h split dec after = absurd (omega arith)
  walk_from (suc fuel) cursor c done rest h split dec after =
      elim (Bool-cases (ltb limit (length rest))) [
        | inl longer ↦
            let (r, last) = last?-take limit rest pos (ltb→lt _ _ longer) in
            walk_more fuel cursor (take limit rest) (drop limit rest) (token r)
              (list_page-rest cursor c rest dec after
                ∙ ap ok (paginate_more rest limit token r (ltb→lt _ _ longer) last))
              (walk_from fuel (some (token r)) (some (key r)) (done ++ take limit rest)
                (drop limit rest) (omega (arith, length-drop limit rest, ltb→lt _ _ longer))
                (regroup done rest split)
                (decode_cursor-some codec.decode (token r) (key r) (codec.encode-ne (key r))
                  (codec.decode-encode (key r)))
                (next_rows done rest r split last))
            ∙ ap ok (take-append-drop limit rest)
        | inr last ↦ walk_last fuel cursor rest (
            list_page-rest cursor c rest dec after
            ∙ ap ok (paginate_last rest limit token (ground arith)))
      ]

-- A client that follows the cursors of a listing in key order from the first page gets every row
-- once and in order, and stops: with more fuel than rows the walk returns exactly the rows.
pub walk_all {ℓ} :
    {T : Type ℓ} (codec : Codec) (key : T → CursorPayload) (beyond : CursorPayload → T → Bool)
    (rows : List T) (limit fuel : ℕ)
    → 0 < limit
    → IsOrdered key beyond rows
    → length rows < fuel
    → follow (list_page codec key beyond rows limit) fuel none ≡ ok rows
unfolding decode_cursor
walk_all codec key beyond rows limit fuel pos ordered h =
    walk_from codec key beyond rows limit pos ordered fuel none none [] rows h refl refl refl

-- The same page with other items.
abbrev pub map_page {ℓ κ} :
    {T : Type ℓ} {U : Type κ}
    → (T → U)
    → Result AppError (CursorPage T)
    → Result AppError (CursorPage U)
map_page f (err e) = err e
map_page f (ok page) = ok (record {
  items = map f page.items;
  limit = page.limit;
  has_more = page.has_more;
  next_cursor = page.next_cursor;
})

abbrev pub map_ok {ℓ κ} :
    {T : Type ℓ} {U : Type κ} → (T → U) → Result AppError (List T) → Result AppError (List U)
map_ok f (err e) = err e
map_ok f (ok xs) = ok (map f xs)

module _ {ℓ κ} {T : Type ℓ} {U : Type κ} (f : T → U) where
  -- An endpoint that reports each row in another form is followed in the same way.
  pub follow-map_page :
      (request : Option String → Result AppError (CursorPage T)) (fuel : ℕ) (cursor : Option String)
      → follow (λ c. map_page f (request c)) fuel cursor ≡ map_ok f (follow request fuel cursor)
  unfolding follow
  follow-map_page request zero cursor = refl
  follow-map_page request (suc fuel) cursor = elim (Result-cases (request cursor)) [
    | inl (e, failed) ↦ rw (failed, follow)
    | inr (page, got) ↦ elim (Option-cases page.next_cursor) [
      | inl last ↦ rw (got, follow) (rw last)
      | inr (t, more) ↦ elim (Result-cases (follow request fuel (some t))) [
        | inl (e, failed) ↦
            rw (got, follow) (rw more (rw (follow-map_page request fuel (some t)) (rw failed)))
        | inr (rest, walked) ↦
            rw (got, follow)
              (rw more (
                rw (follow-map_page request fuel (some t))
                  (rw walked (ap ok (sym (map-append f page.items rest))))))
      ]
    ]
  ]
