-- ===== src/Auth/Families.antt =====
-- How many refresh tokens of one family are live, and what each update of the rows of
-- apps/api/src/auth/auth.service.ts makes of that number.
use mathlib.Core.List.{Memᴰ}
use audio_book.Base.{
  ℕ, suc, ◌+◌, ◌≤◌, true, false, ◌&&◌, some, String, List, [], ◌∷◌, ◌++◌, ◌==◌, ==_self, map,
  str_eq, ◌≡◌, ◌≢◌, refl, sym, ap, ◌∙◌, subst, inl, inr, Bool-cases, All, arith, some_inj,
  if◌then◌else◌,
}
use audio_book.Auth.Model.{RefreshToken, is_live, find_token}
use audio_book.Auth.Sessions.{revoke_token, revoke_of_session, rotate}
use audio_book.Auth.Accounts.{end_token}

-- The tokens of a family that are neither used nor revoked.
abbrev pub live_count : ℕ → List RefreshToken → ℕ
live_count f [] = 0
live_count f (t ∷ ts) = (if t.family_id == f && is_live t then 1 else 0) + live_count f ts

-- An update that brings no token back to life.
abbrev pub Kills : (RefreshToken → RefreshToken) → Type 0
Kills g =
    (t : RefreshToken) → ((g t).family_id ≡ t.family_id) × (is_live (g t) ≡ true → is_live t ≡ true)

pub live_count-map :
    (f : ℕ) (g : RefreshToken → RefreshToken)
    → Kills g
    → (ts : List RefreshToken) → live_count f (map g ts) ≤ live_count f ts
live_count-map f g kills [] = omega arith
live_count-map f g kills (t ∷ ts) =
    let (same, dead) = kills t in
    let rest = live_count-map f g kills ts in
    elim (Bool-cases (is_live (g t))) [
      | inl e ↦ rw (e, same, dead e) (omega arith)
      | inr e ↦ rw e (ground arith)
    ]

pub live_count-append :
    (f : ℕ) (xs ys : List RefreshToken)
    → live_count f (xs ++ ys) ≡ live_count f xs + live_count f ys
live_count-append f [] ys = omega arith
live_count-append f (t ∷ xs) ys = omega (arith, live_count-append f xs ys)

-- A family that no token has.
pub live_count_fresh :
    (f : ℕ) (ts : List RefreshToken) → All (λ t. t.family_id ≢ f) ts → live_count f ts ≡ 0
live_count_fresh f [] h = refl
live_count_fresh f (t ∷ ts) (ne, h) =
    let other : (t.family_id == f) ≡ false = ground arith in
    let rest = live_count_fresh f ts h in rw other (omega arith)

pub revoke_token-Kills : (now f : ℕ) → Kills (revoke_token now f)
unfolding revoke_token
revoke_token-Kills now f t = (ground arith, ground arith)

pub revoke_of_session-Kills : (now s : ℕ) → Kills (revoke_of_session now s)
unfolding revoke_of_session
revoke_of_session-Kills now s t = (ground arith, ground arith)

pub end_token-Kills : (now u : ℕ) → Kills (end_token now u)
unfolding end_token
end_token-Kills now u t = (ground arith, ground arith)

pub rotate-Kills : (now i new : ℕ) → Kills (rotate now i new)
unfolding rotate
rotate-Kills now i new t = (ground arith, ground arith)

rotate_dead : (now i new : ℕ) (t : RefreshToken) → t.id ≡ i → is_live (rotate now i new t) ≡ false
unfolding rotate
rotate_dead now i new t e = ground arith

-- Rotating a live token of a family leaves one live token less in it.
pub live_count-rotate :
    (now new : ℕ) (row : RefreshToken) (ts : List RefreshToken)
    → Memᴰ row ts
    → is_live row ≡ true
    → suc (live_count row.family_id (map (rotate now row.id new) ts)) ≤ live_count row.family_id ts
live_count-rotate now new row [] m live = elim m [ ]
live_count-rotate now new row (t ∷ ts) (Memᴰ.head e) live =
    let dead = rotate_dead now row.id new t (ap (λ x. x.id) (sym e)) in
    let rest =
      live_count-map row.family_id (rotate now row.id new) (rotate-Kills now row.id new) ts in
    let alive : is_live t ≡ true = subst (λ x. is_live x ≡ true) e live in
    let own : (t.family_id == row.family_id) ≡ true =
      subst (λ x. (x.family_id == row.family_id) ≡ true) e (==_self row.family_id) in
    rw (dead, own, alive) (ground arith)
live_count-rotate now new row (t ∷ ts) (Memᴰ.tail m) live =
    let rest = live_count-rotate now new row ts m live in
    let (same, dead) = rotate-Kills now row.id new t in
    elim (Bool-cases (is_live (rotate now row.id new t))) [
      | inl e ↦ rw (e, same, dead e) (omega arith)
      | inr e ↦ rw e (ground arith)
    ]

-- The row that the lookup by digest finds is a row of the table.
pub find_token-Memᴰ :
    (digest : String) (ts : List RefreshToken) (row : RefreshToken)
    → find_token digest ts ≡ some row
    → Memᴰ row ts
unfolding find_token
find_token-Memᴰ digest [] row e = cc
find_token-Memᴰ digest (t ∷ ts) row e = elim (Bool-cases (str_eq t.token_hash digest)) [
  | inl h ↦ Memᴰ.head (some_inj (sym e ∙ rw h refl))
  | inr h ↦ Memᴰ.tail (find_token-Memᴰ digest ts row (sym (rw h refl) ∙ e))
]
