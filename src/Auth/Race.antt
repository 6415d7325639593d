-- ===== src/Auth/Race.antt =====
-- Two refreshes of apps/api/src/auth/auth.service.ts that overlap: the transaction of `refresh` does
-- not look again at the row that was read before it.
use mathlib.Core.List.{map-append}
use audio_book.Base.{ℕ, ◌≤◌, false, String, [], ◌∷◌, ◌++◌, map, ◌≡◌, ◌≢◌, ap, arith, ==_self, ◌==◌}
use audio_book.Auth.Model.{AuthStore, AuthPolicy, Crypto, Fresh, RefreshToken}
use audio_book.Auth.Sessions.{commit_rotation, new_token, rotate}
use audio_book.Auth.Families.{live_count, live_count-append}

new_token_live :
    (now : ℕ) (policy : AuthPolicy) (digest : String) (fresh : Fresh) (row : RefreshToken)
    → live_count row.family_id (
        new_token now policy.refresh_token_ttl_seconds digest fresh row.session_id row.user_id
          row.family_id
        ∷ [])
      ≡ 1
unfolding new_token
new_token_live now policy digest fresh row = rw (==_self row.family_id) (omega arith)

still_live :
    (now : ℕ) (policy : AuthPolicy) (digest : String) (fresh : Fresh) (row : RefreshToken) (new : ℕ)
    → fresh.token_id ≢ row.id
    → live_count row.family_id (
        rotate now row.id new (
          new_token now policy.refresh_token_ttl_seconds digest fresh row.session_id row.user_id
            row.family_id)
        ∷ [])
      ≡ 1
unfolding new_token rotate
still_live now policy digest fresh row new ne =
    let other : (fresh.token_id == row.id) ≡ false = ground arith in
    rw (other, ==_self row.family_id) (omega arith)

-- Two requests with the same token that both read its row before either writes: both commit, and
-- both of the new tokens are live, in one family.
pub commit_rotation_twice :
    (crypto : Crypto) (policy : AuthPolicy) (now : ℕ) (fresh other : Fresh) (row : RefreshToken)
    (w : AuthStore)
    → fresh.token_id ≢ row.id
    → 2
      ≤ live_count row.family_id
          (commit_rotation crypto policy now other row
            (commit_rotation crypto policy now fresh row w).0).0.tokens
unfolding commit_rotation
commit_rotation_twice crypto policy now fresh other row w ne =
    let first =
      new_token now policy.refresh_token_ttl_seconds (crypto.sha256 fresh.plain) fresh
        row.session_id row.user_id row.family_id in
    let second =
      new_token now policy.refresh_token_ttl_seconds (crypto.sha256 other.plain) other
        row.session_id row.user_id row.family_id in
    let again = rotate now row.id other.token_id in
    let old = map (rotate now row.id fresh.token_id) w.tokens in
    let outer = live_count-append row.family_id (map again (old ++ first ∷ [])) (second ∷ []) in
    let moved = ap (live_count row.family_id) (map-append again old (first ∷ [])) in
    let inner = live_count-append row.family_id (map again old) (again first ∷ []) in
    let one = still_live now policy (crypto.sha256 fresh.plain) fresh row other.token_id ne in
    let two = new_token_live now policy (crypto.sha256 other.plain) other row in omega arith
