-- ===== src/Auth/Refused.antt =====
-- A token whose row is revoked: no request of apps/api/src/auth/auth.service.ts takes the row away or
-- brings the token back.
use audio_book.Base.{
  ℕ, true, false, ◌&&◌, Option, none, some, some_inj, String, List, [], ◌∷◌, ◌++◌, map, str_eq, ◌≡◌,
  refl, sym, ap, ◌∙◌, inl, inr, Bool-cases, Option-cases, Result-cases, arith, is_some,
  if◌then◌else◌, ltb, ◌==◌,
}
use audio_book.Auth.Model.{
  AuthStore, AuthPolicy, Crypto, Fresh, RefreshToken, Credential, User, find_token, find_session,
  get_ticket, find_user,
}
use audio_book.Auth.Sessions.{
  issue_session, refresh, check_row, commit_rotation, refuse_reuse, revoke_family, revoke_token,
  revoke_of_session, rotate, logout,
}
use audio_book.Auth.Login.{
  login, login_user, sign_in, verdict, locked, wrong, right, exchange_mfa, find_by_email,
  normalize_email, totp_passes,
}
use audio_book.Auth.Accounts.{confirm_password_reset, end_token}

-- The lookup by this digest finds a revoked row.
abbrev pub IsRefused : String → AuthStore → Type 0
IsRefused digest w =
    (row : RefreshToken) × (find_token digest w.tokens ≡ some row) × (is_some row.revoked_at ≡ true)

-- An update that keeps the digest of a token, and its revocation.
abbrev pub Ends : (RefreshToken → RefreshToken) → Type 0
Ends g =
    (t : RefreshToken)
    → ((g t).token_hash ≡ t.token_hash)
      × (is_some t.revoked_at ≡ true → is_some (g t).revoked_at ≡ true)

revoke_token-Ends : (now f : ℕ) → Ends (revoke_token now f)
unfolding revoke_token
revoke_token-Ends now f t = (ground arith, ground arith)

revoke_of_session-Ends : (now s : ℕ) → Ends (revoke_of_session now s)
unfolding revoke_of_session
revoke_of_session-Ends now s t = (ground arith, ground arith)

end_token-Ends : (now u : ℕ) → Ends (end_token now u)
unfolding end_token
end_token-Ends now u t = (ground arith, ground arith)

rotate-Ends : (now i new : ℕ) → Ends (rotate now i new)
unfolding rotate
rotate-Ends now i new t = (ground arith, ground arith)

-- The row that a lookup finds, after an update that keeps the digests.
pub find_token-map :
    (digest : String) (g : RefreshToken → RefreshToken)
    → ((t : RefreshToken) → (g t).token_hash ≡ t.token_hash)
    → (ts : List RefreshToken) (row : RefreshToken) → find_token digest ts ≡ some row
    → find_token digest (map g ts) ≡ some (g row)
unfolding find_token
find_token-map digest g keeps [] row e = cc
find_token-map digest g keeps (t ∷ ts) row e = elim (Bool-cases (str_eq t.token_hash digest)) [
  | inl m ↦
      rw (ap (λ h. str_eq h digest) (keeps t) ∙ m)
        (ap (λ x. some (g x)) (some_inj (sym (rw m refl) ∙ e)))
  | inr m ↦
      rw (ap (λ h. str_eq h digest) (keeps t) ∙ m)
        (find_token-map digest g keeps ts row (sym (rw m refl) ∙ e))
]

find_token-append :
    (digest : String) (ts new : List RefreshToken) (row : RefreshToken)
    → find_token digest ts ≡ some row
    → find_token digest (ts ++ new) ≡ some row
unfolding find_token
find_token-append digest [] new row e = cc
find_token-append digest (t ∷ ts) new row e = elim (Bool-cases (str_eq t.token_hash digest)) [
  | inl m ↦ rw m (sym (rw m refl) ∙ e)
  | inr m ↦ rw m (find_token-append digest ts new row (sym (rw m refl) ∙ e))
]

-- The tokens of a store after an update.
abbrev updated : AuthStore → (RefreshToken → RefreshToken) → List RefreshToken
updated w g = map g w.tokens

refused_map :
    (digest : String) (w : AuthStore) (g : RefreshToken → RefreshToken)
    → Ends g
    → IsRefused digest w
    → (row : RefreshToken) × (find_token digest (updated w g) ≡ some row)
      × (is_some row.revoked_at ≡ true)
refused_map digest w g ends (row, found, revoked) =
    (g row, find_token-map digest g (λ t. (ends t).0) w.tokens row found, (ends row).1 revoked)

module _ (crypto : Crypto) (policy : AuthPolicy) (digest : String) where
  issue_session-IsRefused :
      (now : ℕ) (fresh : Fresh) (user tenant : ℕ) (w : AuthStore)
      → IsRefused digest w
      → IsRefused digest (issue_session crypto policy now fresh user tenant w).0
  unfolding issue_session
  issue_session-IsRefused now fresh user tenant w (row, found, revoked) =
      (row, find_token-append digest w.tokens _ row found, revoked)

  commit_rotation-IsRefused :
      (now : ℕ) (fresh : Fresh) (row : RefreshToken) (w : AuthStore)
      → IsRefused digest w
      → IsRefused digest (commit_rotation crypto policy now fresh row w).0
  unfolding commit_rotation
  commit_rotation-IsRefused now fresh row w h =
      let (r, found, revoked) =
        refused_map digest w (rotate now row.id fresh.token_id)
          (rotate-Ends now row.id fresh.token_id) h in
      (
        r,
        find_token-append digest (map (rotate now row.id fresh.token_id) w.tokens) _ r found,
        revoked,
      )

  refuse_reuse-IsRefused :
      (now : ℕ) (row : RefreshToken) (w : AuthStore)
      → IsRefused digest w
      → IsRefused digest (refuse_reuse now row w)
  unfolding refuse_reuse revoke_family
  refuse_reuse-IsRefused now row w h =
      refused_map digest w (revoke_token now row.family_id) (revoke_token-Ends now row.family_id) h

  pub refresh-IsRefused :
      (now : ℕ) (fresh : Fresh) (plain : String) (w : AuthStore)
      → IsRefused digest w
      → IsRefused digest (refresh crypto policy now fresh plain w).0
  unfolding refresh
  refresh-IsRefused now fresh plain w h =
      elim (Option-cases (find_token (crypto.sha256 plain) w.tokens)) [
        | inl e ↦ rw (refresh, e) h
        | inr (row, e) ↦ elim (Result-cases (check_row now row w)) [
          | inl (error, c) ↦ rw (refresh, e, c) h
          | inr (true, c) ↦ rw (refresh, e, c) (refuse_reuse-IsRefused now row w h)
          | inr (false, c) ↦ rw (refresh, e, c) (commit_rotation-IsRefused now fresh row w h)
        ]
      ]

  sign_in-IsRefused :
      (now : ℕ) (fresh : Fresh) (user : User) (c : Credential) (w : AuthStore)
      → IsRefused digest w
      → IsRefused digest (sign_in crypto policy now fresh user c w).0
  unfolding sign_in
  sign_in-IsRefused now fresh user c w h = elim (Bool-cases c.mfa_enrolled) [
    | inl e ↦ rw e h
    | inr e ↦ rw e (issue_session-IsRefused now fresh user.id user.tenant_id _ h)
  ]

  login_user-IsRefused :
      (now : ℕ) (fresh : Fresh) (password : String) (user : User) (c : Credential) (w : AuthStore)
      → IsRefused digest w
      → IsRefused digest (login_user crypto policy now fresh password user c w).0
  unfolding login_user
  login_user-IsRefused now fresh password user c w h =
      elim (verdict crypto now password c)
          as (λ v.
            v ≡ verdict crypto now password c
            → IsRefused digest (login_user crypto policy now fresh password user c w).0) [
              | locked ↦ λ e. rw (login_user, sym e) h
              | wrong ↦ λ e. rw (login_user, sym e) h
              | right ↦ λ e. rw (login_user, sym e) (sign_in-IsRefused now fresh user c w h)
            ]
        refl

  pub login-IsRefused :
      (now : ℕ) (fresh : Fresh) (email password : String) (w : AuthStore)
      → IsRefused digest w
      → IsRefused digest (login crypto policy now fresh email password w).0
  unfolding login login_user sign_in
  login-IsRefused now fresh email password w h =
      elim (Option-cases (find_by_email (normalize_email crypto email) w.users)) [
        | inl e ↦ rw (login, e) h
        | inr (user, e) ↦ elim (Option-cases user.credential) [
          | inl n ↦ rw (login, e, n) h
          | inr (c, n) ↦ elim (Bool-cases user.is_active) [
            | inl a ↦ rw (login, e, n, a) (login_user-IsRefused now fresh password user c w h)
            | inr a ↦ rw (login, e, n, a) h
          ]
        ]
      ]

  pub exchange_mfa-IsRefused :
      (now : ℕ) (fresh : Fresh) (token code : String) (w : AuthStore)
      → IsRefused digest w
      → IsRefused digest (exchange_mfa crypto policy now fresh token code w).0
  unfolding exchange_mfa
  exchange_mfa-IsRefused now fresh token code w h =
      elim (Option-cases (get_ticket now (crypto.sha256 token) w.mfa_tickets)) [
        | inl e ↦ rw (exchange_mfa, e) h
        | inr (id, e) ↦ elim (Option-cases (find_user id w.users)) [
          | inl u ↦ rw (exchange_mfa, e, u) h
          | inr (user, u) ↦ elim (Bool-cases (totp_passes crypto code user)) [
            | inl t ↦
                rw (exchange_mfa, e, u, t)
                  (issue_session-IsRefused now fresh user.id user.tenant_id _ h)
            | inr t ↦ rw (exchange_mfa, e, u, t) h
          ]
        ]
      ]

  pub logout-IsRefused :
      (now user : ℕ) (session : Option ℕ) (w : AuthStore)
      → IsRefused digest w
      → IsRefused digest (logout now user session w)
  unfolding logout
  logout-IsRefused now user none w h = h
  logout-IsRefused now user (some session) w h =
      elim (Option-cases (find_session session w.sessions)) [
        | inl e ↦ rw (logout, e) h
        | inr (s, e) ↦
            elim (Bool-cases
              ((s.user_id == user) && (if is_some s.revoked_at then false else true))) [
                | inl b ↦
                    rw (logout, e, b)
                      (refused_map digest w (revoke_of_session now session)
                        (revoke_of_session-Ends now session) h)
                | inr b ↦ rw (logout, e, b) h
              ]
      ]

  pub confirm_password_reset-IsRefused :
      (now : ℕ) (token password : String) (size : ℕ) (w : AuthStore)
      → IsRefused digest w
      → IsRefused digest (confirm_password_reset crypto policy now token password size w).0
  unfolding confirm_password_reset
  confirm_password_reset-IsRefused now token password size w h =
      elim (Bool-cases (ltb size policy.password_min_length)) [
        | inl short ↦ rw (confirm_password_reset, short) h
        | inr long ↦ elim (Option-cases (get_ticket now (crypto.sha256 token) w.reset_tickets)) [
          | inl e ↦ rw (confirm_password_reset, long, e) h
          | inr (user, e) ↦
              rw (confirm_password_reset, long, e)
                (refused_map digest w (end_token now user) (end_token-Ends now user) h)
        ]
      ]
