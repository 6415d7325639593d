-- ===== src/Auth/Single.antt =====
-- No request of apps/api/src/auth/auth.service.ts gives a family of refresh tokens a second token
-- that is neither used nor revoked, if it runs to its end before another starts.
use mathlib.Core.List.{Memᴰ}
use audio_book.Base.{
  ℕ, suc, ◌≤◌, Bool, true, false, ◌&&◌, Option, none, some, String, [], ◌∷◌, map, ◌≡◌, ◌≢◌, refl,
  sym, subst, inl, inr, Bool-cases, Option-cases, Result-cases, ok, All, arith, is_some,
  if◌then◌else◌, ltb, ◌==◌,
}
use audio_book.Auth.Model.{
  AuthStore, AuthPolicy, Crypto, Fresh, RefreshToken, Credential, User, is_live, find_token,
  find_session, get_ticket, find_user,
}
use audio_book.Auth.Sessions.{
  issue_session, refresh, check_row, commit_rotation, new_token, refuse_reuse, revoke_family,
  revoke_token, revoke_of_session, rotate, logout,
}
use audio_book.Auth.Login.{
  login, login_user, sign_in, verdict, locked, wrong, right, exchange_mfa, find_by_email,
  normalize_email, totp_passes,
}
use audio_book.Auth.Accounts.{
  RegisterBody, register, request_password_reset, confirm_password_reset, end_token,
}
use audio_book.Auth.Families.{
  live_count, Kills, live_count-map, live_count-append, live_count_fresh, live_count-rotate,
  find_token-Memᴰ, revoke_token-Kills, revoke_of_session-Kills, end_token-Kills, rotate-Kills,
}

-- What `generateId` gives a new session: a family that no token has.
abbrev pub HasNoFamily : Fresh → AuthStore → Type 0
HasNoFamily fresh w = All (λ t. t.family_id ≢ fresh.family_id) w.tokens

-- No family has two live tokens.
abbrev pub IsSingle : AuthStore → Type 0
IsSingle w = (f : ℕ) → live_count f w.tokens ≤ 1

-- Two stores with the same tokens.
pub same_tokens : (v w : AuthStore) → v.tokens ≡ w.tokens → IsSingle w → IsSingle v
same_tokens v w e h f = rw e (h f)

killed :
    (w : AuthStore) (g : RefreshToken → RefreshToken)
    → Kills g
    → IsSingle w
    → (f : ℕ) → live_count f (map g w.tokens) ≤ 1
killed w g kills h f = let less = live_count-map f g kills w.tokens in let b = h f in omega arith

module _ (crypto : Crypto) (policy : AuthPolicy) where
  pub issue_session-IsSingle :
      (now : ℕ) (fresh : Fresh) (user tenant : ℕ) (w : AuthStore)
      → HasNoFamily fresh w
      → IsSingle w
      → IsSingle (issue_session crypto policy now fresh user tenant w).0
  unfolding issue_session new_token
  issue_session-IsSingle now fresh user tenant w new h f =
      let old = h f in
      let split = live_count-append f w.tokens (
        new_token now policy.refresh_token_ttl_seconds (crypto.sha256 fresh.plain) fresh
          fresh.session_id user fresh.family_id
        ∷ []) in
      elim (Bool-cases (fresh.family_id == f)) [
        | inl e ↦
            let none_yet =
              live_count_fresh f w.tokens
                (subst (λ x. All (λ t. t.family_id ≢ x) w.tokens) (ground arith) new) in
            rw (split, e) (omega arith)
        | inr e ↦ rw (split, e) (omega arith)
      ]

  commit_rotation-IsSingle :
      (now : ℕ) (fresh : Fresh) (row : RefreshToken) (w : AuthStore)
      → Memᴰ row w.tokens
      → is_live row ≡ true
      → IsSingle w
      → IsSingle (commit_rotation crypto policy now fresh row w).0
  unfolding commit_rotation new_token
  commit_rotation-IsSingle now fresh row w m live h f =
      let old = h f in
      let split = live_count-append f (map (rotate now row.id fresh.token_id) w.tokens) (
        new_token now policy.refresh_token_ttl_seconds (crypto.sha256 fresh.plain) fresh
          row.session_id row.user_id row.family_id
        ∷ []) in
      let less =
        live_count-map f (rotate now row.id fresh.token_id) (rotate-Kills now row.id fresh.token_id)
          w.tokens in
      elim (Bool-cases (row.family_id == f)) [
        | inl e ↦
            let one_less : suc (live_count f (map (rotate now row.id fresh.token_id) w.tokens))
                ≤ live_count f w.tokens =
              subst
                (λ x.
                  suc (live_count x (map (rotate now row.id fresh.token_id) w.tokens))
                  ≤ live_count x w.tokens)
                (ground arith) (live_count-rotate now fresh.token_id row w.tokens m live) in
            rw (split, e) (omega arith)
        | inr e ↦ rw (split, e) (omega arith)
      ]

  refuse_reuse-IsSingle :
      (now : ℕ) (row : RefreshToken) (w : AuthStore)
      → IsSingle w
      → IsSingle (refuse_reuse now row w)
  unfolding refuse_reuse revoke_family
  refuse_reuse-IsSingle now row w h =
      killed w (revoke_token now row.family_id) (revoke_token-Kills now row.family_id) h

  check_row_live :
      (now : ℕ) (row : RefreshToken) (w : AuthStore)
      → check_row now row w ≡ ok false
      → is_live row ≡ true
  unfolding check_row
  check_row_live now row w e = ground arith

  pub refresh-IsSingle :
      (now : ℕ) (fresh : Fresh) (plain : String) (w : AuthStore)
      → IsSingle w
      → IsSingle (refresh crypto policy now fresh plain w).0
  unfolding refresh
  refresh-IsSingle now fresh plain w h =
      elim (Option-cases (find_token (crypto.sha256 plain) w.tokens)) [
        | inl e ↦ rw (refresh, e) h
        | inr (row, e) ↦ elim (Result-cases (check_row now row w)) [
          | inl (error, c) ↦ rw (refresh, e, c) h
          | inr (true, c) ↦ rw (refresh, e, c) (refuse_reuse-IsSingle now row w h)
          | inr (false, c) ↦
              rw (refresh, e, c)
                (commit_rotation-IsSingle now fresh row w
                  (find_token-Memᴰ (crypto.sha256 plain) w.tokens row e)
                  (check_row_live now row w c) h)
        ]
      ]

  sign_in-IsSingle :
      (now : ℕ) (fresh : Fresh) (user : User) (c : Credential) (w : AuthStore)
      → HasNoFamily fresh w
      → IsSingle w
      → IsSingle (sign_in crypto policy now fresh user c w).0
  unfolding sign_in
  sign_in-IsSingle now fresh user c w new h = elim (Bool-cases c.mfa_enrolled) [
    | inl e ↦ rw e h
    | inr e ↦ rw e (issue_session-IsSingle now fresh user.id user.tenant_id _ new h)
  ]

  login_user-IsSingle :
      (now : ℕ) (fresh : Fresh) (password : String) (user : User) (c : Credential) (w : AuthStore)
      → HasNoFamily fresh w
      → IsSingle w
      → IsSingle (login_user crypto policy now fresh password user c w).0
  unfolding login_user
  login_user-IsSingle now fresh password user c w new h =
      elim (verdict crypto now password c)
          as (λ v.
            v ≡ verdict crypto now password c
            → IsSingle (login_user crypto policy now fresh password user c w).0) [
              | locked ↦ λ e. rw (login_user, sym e) h
              | wrong ↦ λ e. rw (login_user, sym e) h
              | right ↦ λ e. rw (login_user, sym e) (sign_in-IsSingle now fresh user c w new h)
            ]
        refl

  pub login-IsSingle :
      (now : ℕ) (fresh : Fresh) (email password : String) (w : AuthStore)
      → HasNoFamily fresh w
      → IsSingle w
      → IsSingle (login crypto policy now fresh email password w).0
  unfolding login login_user sign_in
  login-IsSingle now fresh email password w new h =
      elim (Option-cases (find_by_email (normalize_email crypto email) w.users)) [
        | inl e ↦ rw (login, e) h
        | inr (user, e) ↦ elim (Option-cases user.credential) [
          | inl n ↦ rw (login, e, n) h
          | inr (c, n) ↦ elim (Bool-cases user.is_active) [
            | inl a ↦ rw (login, e, n, a) (login_user-IsSingle now fresh password user c w new h)
            | inr a ↦ rw (login, e, n, a) h
          ]
        ]
      ]

  pub exchange_mfa-IsSingle :
      (now : ℕ) (fresh : Fresh) (token code : String) (w : AuthStore)
      → HasNoFamily fresh w
      → IsSingle w
      → IsSingle (exchange_mfa crypto policy now fresh token code w).0
  unfolding exchange_mfa
  exchange_mfa-IsSingle now fresh token code w new h =
      elim (Option-cases (get_ticket now (crypto.sha256 token) w.mfa_tickets)) [
        | inl e ↦ rw (exchange_mfa, e) h
        | inr (id, e) ↦ elim (Option-cases (find_user id w.users)) [
          | inl u ↦ rw (exchange_mfa, e, u) h
          | inr (user, u) ↦ elim (Bool-cases (totp_passes crypto code user)) [
            | inl t ↦
                rw (exchange_mfa, e, u, t)
                  (issue_session-IsSingle now fresh user.id user.tenant_id _ new h)
            | inr t ↦ rw (exchange_mfa, e, u, t) h
          ]
        ]
      ]

  pub logout-IsSingle :
      (now user : ℕ) (session : Option ℕ) (w : AuthStore)
      → IsSingle w
      → IsSingle (logout now user session w)
  unfolding logout
  logout-IsSingle now user none w h = h
  logout-IsSingle now user (some session) w h =
      elim (Option-cases (find_session session w.sessions)) [
        | inl e ↦ rw (logout, e) h
        | inr (s, e) ↦
            elim (Bool-cases
              ((s.user_id == user) && (if is_some s.revoked_at then false else true))) [
                | inl b ↦
                    rw (logout, e, b)
                      (killed w (revoke_of_session now session)
                        (revoke_of_session-Kills now session) h)
                | inr b ↦ rw (logout, e, b) h
              ]
      ]

  pub confirm_password_reset-IsSingle :
      (now : ℕ) (token password : String) (size : ℕ) (w : AuthStore)
      → IsSingle w
      → IsSingle (confirm_password_reset crypto policy now token password size w).0
  unfolding confirm_password_reset
  confirm_password_reset-IsSingle now token password size w h =
      elim (Bool-cases (ltb size policy.password_min_length)) [
        | inl short ↦ rw (confirm_password_reset, short) h
        | inr long ↦ elim (Option-cases (get_ticket now (crypto.sha256 token) w.reset_tickets)) [
          | inl e ↦ rw (confirm_password_reset, long, e) h
          | inr (user, e) ↦
              rw (confirm_password_reset, long, e)
                (killed w (end_token now user) (end_token-Kills now user) h)
        ]
      ]

  pub register-tokens :
      (user tenant : ℕ) (raced : Bool) (body : RegisterBody) (w : AuthStore)
      → (register crypto policy user tenant raced body w).0.tokens ≡ w.tokens
  unfolding register
  register-tokens user tenant raced body w = ground arith

  pub request_password_reset-tokens :
      (now : ℕ) (plain email : String) (w : AuthStore)
      → (request_password_reset crypto now plain email w).tokens ≡ w.tokens
  unfolding request_password_reset
  request_password_reset-tokens now plain email w = ground arith
