-- ===== src/Auth/Reuse.antt =====
-- What follows a token of apps/api/src/auth/auth.service.ts that is presented again.
use audio_book.Base.{
  ℕ, ◌≤◌, true, false, some, String, map, ◌≡◌, refl, ap, ◌∙◌, ok, err, arith, is_some, ltb,
  leb→ltb_false,
}
use audio_book.Auth.Model.{
  AuthStore, AuthPolicy, Crypto, Fresh, RefreshToken, refresh_token_reused, token_revoked,
  find_token,
}
use audio_book.Auth.Reach.{
  Request, registers, signs_in, exchanges, refreshes, logs_out, asks_reset, resets, serve, Reach,
  here, next,
}
use audio_book.Auth.Accounts.{register, request_password_reset}
use audio_book.Auth.Single.{register-tokens, request_password_reset-tokens}
use audio_book.Auth.Refused.{
  IsRefused, find_token-map, refresh-IsRefused, login-IsRefused, exchange_mfa-IsRefused,
  logout-IsRefused, confirm_password_reset-IsRefused,
}
use audio_book.Auth.Sessions.{
  refresh, check_row, session_revoked, refuse_reuse, revoke_family, revoke_token,
}

revoke_token-hash :
    (now f : ℕ) (t : RefreshToken) → (revoke_token now f t).token_hash ≡ t.token_hash
unfolding revoke_token
revoke_token-hash now f t = ground arith

revoke_token-revoked :
    (now f : ℕ) (t : RefreshToken)
    → t.family_id ≡ f
    → is_some (revoke_token now f t).revoked_at ≡ true
unfolding revoke_token
revoke_token-revoked now f t e = ground arith

refresh_of_revoked :
    (crypto : Crypto) (policy : AuthPolicy) (now : ℕ) (fresh : Fresh) (plain : String)
    (w : AuthStore) (row : RefreshToken)
    → find_token (crypto.sha256 plain) w.tokens ≡ some row
    → is_some row.revoked_at ≡ true
    → refresh crypto policy now fresh plain w ≡ (w, err token_revoked)
unfolding refresh check_row
refresh_of_revoked crypto policy now fresh plain w row e r = rw (refresh, e, check_row, r) refl

refresh_of_used :
    (crypto : Crypto) (policy : AuthPolicy) (now : ℕ) (fresh : Fresh) (plain : String)
    (w : AuthStore) (row : RefreshToken)
    → find_token (crypto.sha256 plain) w.tokens ≡ some row
    → check_row now row w ≡ ok true
    → refresh crypto policy now fresh plain w ≡ (refuse_reuse now row w, err refresh_token_reused)
unfolding refresh
refresh_of_used crypto policy now fresh plain w row e c = rw (refresh, e, c) refl

refuse_reuse-tokens :
    (now : ℕ) (row : RefreshToken) (w : AuthStore)
    → (refuse_reuse now row w).tokens ≡ map (revoke_token now row.family_id) w.tokens
unfolding refuse_reuse revoke_family
refuse_reuse-tokens now row w = refl

check_row-used :
    (now : ℕ) (row : RefreshToken) (w : AuthStore)
    → is_some row.rotated_at ≡ true
    → is_some row.revoked_at ≡ false
    → session_revoked row.session_id w.sessions ≡ false
    → now ≤ row.expires_at
    → check_row now row w ≡ ok true
unfolding check_row
check_row-used now row w used live unended fresh =
    let soon : ltb row.expires_at now ≡ false = leb→ltb_false now row.expires_at fresh in
    rw (check_row, live, unended, soon) (ap ok used)

module _ (crypto : Crypto) (policy : AuthPolicy) (digest : String) where
  same_row : (v w : AuthStore) → v.tokens ≡ w.tokens → IsRefused digest w → IsRefused digest v
  same_row v w e (row, found, revoked) = (row, ap (find_token digest) e ∙ found, revoked)

  serve-IsRefused :
      (r : Request) (w : AuthStore)
      → IsRefused digest w
      → IsRefused digest (serve crypto policy r w)
  unfolding serve
  serve-IsRefused (registers user tenant raced body) w h =
      same_row (register crypto policy user tenant raced body w).0 w
        (register-tokens crypto policy user tenant raced body w) h
  serve-IsRefused (signs_in now fresh email password) w h =
      login-IsRefused crypto policy digest now fresh email password w h
  serve-IsRefused (exchanges now fresh token code) w h =
      exchange_mfa-IsRefused crypto policy digest now fresh token code w h
  serve-IsRefused (refreshes now fresh plain) w h =
      refresh-IsRefused crypto policy digest now fresh plain w h
  serve-IsRefused (logs_out now user session) w h =
      logout-IsRefused crypto policy digest now user session w h
  serve-IsRefused (asks_reset now plain email) w h =
      same_row (request_password_reset crypto now plain email w) w
        (request_password_reset-tokens crypto policy now plain email w) h
  serve-IsRefused (resets now token password size) w h =
      confirm_password_reset-IsRefused crypto policy digest now token password size w h

  Reach-IsRefused :
      {start w : AuthStore}
      → IsRefused digest start
      → Reach crypto policy start w
      → IsRefused digest w
  Reach-IsRefused h here = h
  Reach-IsRefused h (next r new before) = serve-IsRefused r _ (Reach-IsRefused h before)

-- A token that was rotated, has not expired, and is neither revoked nor of a revoked session, is
-- refused as reused when it is presented again. From then on, whatever requests are served in
-- between, every token that its family had is refused as revoked, without effect, whenever it comes:
-- the one that replaced it too.
pub refresh_reused :
    (crypto : Crypto) (policy : AuthPolicy) (now later : ℕ) (fresh other : Fresh)
    (plain stolen : String) (w after : AuthStore) (row sibling : RefreshToken)
    → find_token (crypto.sha256 plain) w.tokens ≡ some row
    → is_some row.rotated_at ≡ true
    → is_some row.revoked_at ≡ false
    → session_revoked row.session_id w.sessions ≡ false
    → now ≤ row.expires_at
    → find_token (crypto.sha256 stolen) w.tokens ≡ some sibling
    → sibling.family_id ≡ row.family_id
    → Reach crypto policy (refresh crypto policy now fresh plain w).0 after
    → ((refresh crypto policy now fresh plain w).1 ≡ err refresh_token_reused)
      × (refresh crypto policy later other stolen after ≡ (after, err token_revoked))
refresh_reused crypto policy now later fresh other plain stolen w after row sibling e used live
      unended soon s kin reach =
    let first =
      refresh_of_used crypto policy now fresh plain w row e
        (check_row-used now row w used live unended soon) in
    let dead : IsRefused (crypto.sha256 stolen) (refresh crypto policy now fresh plain w).0 =
      same_row crypto policy (crypto.sha256 stolen) (refresh crypto policy now fresh plain w).0
        (refuse_reuse now row w) (ap (λ x. x.0.tokens) first)
        (
          revoke_token now row.family_id sibling,
          ap (find_token (crypto.sha256 stolen)) (refuse_reuse-tokens now row w)
              ∙ find_token-map (crypto.sha256 stolen) (revoke_token now row.family_id)
                  (revoke_token-hash now row.family_id) w.tokens sibling s,
          revoke_token-revoked now row.family_id sibling kin,
        ) in
    let (last, found, revoked) = Reach-IsRefused crypto policy (crypto.sha256 stolen) dead reach in
    (
      ap (λ x. x.1) first,
      refresh_of_revoked crypto policy later other stolen after last found revoked,
    )
