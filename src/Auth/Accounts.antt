-- ===== src/Auth/Accounts.antt =====
-- `register`, `requestPasswordReset` and `confirmPasswordReset` of apps/api/src/auth/auth.service.ts.
-- The transaction of a registration commits, or fails by the unique email of a concurrent one.
use audio_book.Base.{
  ℕ, ◌+◌, Bool, true, false, ◌&&◌, Option, none, some, String, [], ◌∷◌, ◌++◌, ◌==◌, str_eq, ltb,
  map, is_some, if◌then◌else◌, Result, ok, err, any,
}
use audio_book.Base.Text.{trim}
use audio_book.Auth.Model.{
  AuthStore, AuthPolicy, AuthError, password_too_short, email_already_registered,
  reset_token_expired, Crypto, User, Session, RefreshToken, get_ticket, del_ticket, find_user,
  update_user, password_reset_token_ttl_ms,
}
use audio_book.Auth.Sessions.{revoke_session}
use audio_book.Auth.Login.{normalize_email, find_by_email, with_credential}

pub data Registration : Type 0 where
  pending : Registration
  created : User → Registration

pub record RegisterBody : Type 0 where
  pub email : String
  pub password : String
  pub password_length : ℕ
  pub display_name : Option String

-- `body.display_name?.trim() || email`
unfoldable pub display_name_of : Option String → String → String
display_name_of none email = email
display_name_of (some name) email = if str_eq (trim name) "" then email else trim name

unfoldable pub new_user : Crypto → ℕ → ℕ → String → RegisterBody → User
new_user crypto user_id tenant_id email body = record {
  id = user_id;
  tenant_id = tenant_id;
  email = email;
  display_name = display_name_of body.display_name email;
  is_active = true;
  roles = "TENANT_OWNER" ∷ [];
  deleted_at = none;
  last_login_at = none;
  credential = some (record {
    password_hash = crypto.argon2_hash body.password;
    mfa_enrolled = false;
    mfa_secret_ref = none;
    failed_attempt_count = 0;
    locked_until = none;
  });
}

abbrev pub taken : AuthPolicy → Result AuthError Registration
taken policy = if policy.enumeration_protection then ok pending else err email_already_registered

-- `raced` says that the insert of the user violates the unique email.
unfoldable pub register :
    Crypto
    → AuthPolicy
    → ℕ
    → ℕ
    → Bool
    → RegisterBody
    → AuthStore
    → AuthStore × Result AuthError Registration
register crypto policy user_id tenant_id raced body w =
    let email = normalize_email crypto body.email in
    let user = new_user crypto user_id tenant_id email body in
    if ltb body.password_length policy.password_min_length
    then (w, err password_too_short)
    else if any (λ u. str_eq u.email email) w.users
    then (w, taken policy)
    else if raced
    then (w, taken policy)
    else (
      record w {
        tenants = w.tenants ++ tenant_id ∷ [];
        users = w.users ++ user ∷ [];
        outbox =
            w.outbox
            ++ record { action = "user.registered"; user_id = user_id; is_failure = false } ∷ [];
        audits =
            w.audits
            ++ record { action = "USER_REGISTERED"; user_id = user_id; is_failure = false } ∷ [];
      },
      ok (created user),
    )

unfoldable pub request_password_reset : Crypto → ℕ → String → String → AuthStore → AuthStore
request_password_reset crypto now plain email w =
    elim (find_by_email (normalize_email crypto email) w.users) [
      | none ↦ w
      | some user ↦ record w {
        reset_tickets =
            record {
              digest = crypto.sha256 plain;
              user_id = user.id;
              gone_at = now + password_reset_token_ttl_ms;
            }
            ∷ w.reset_tickets;
        outbox =
            w.outbox
            ++ record {
              action = "auth.password_reset_requested";
              user_id = user.id;
              is_failure = false;
            }
              ∷ [];
      }
    ]

-- The two `updateMany` of `confirmPasswordReset`.
unfoldable pub end_session : ℕ → ℕ → Session → Session
end_session now user_id s =
    if s.user_id == user_id then revoke_session now "PASSWORD_RESET" s else s

unfoldable pub end_token : ℕ → ℕ → RefreshToken → RefreshToken
end_token now user_id t =
    if t.user_id == user_id && (if is_some t.revoked_at then false else true)
    then record t { revoked_at = some now }
    else t

unfoldable pub confirm_password_reset :
    Crypto
    → AuthPolicy
    → ℕ
    → String
    → String
    → ℕ
    → AuthStore
    → AuthStore × Result AuthError (Unit {0})
confirm_password_reset crypto policy now reset_token new_password new_length w =
    if ltb new_length policy.password_min_length
    then (w, err password_too_short)
    else elim (get_ticket now (crypto.sha256 reset_token) w.reset_tickets) [
      | none ↦ (w, err reset_token_expired)
      | some user_id ↦ (
        record w {
          users =
              update_user user_id
                (with_credential λ c. record c {
                  password_hash = crypto.argon2_hash new_password;
                  failed_attempt_count = 0;
                  locked_until = none;
                })
                w.users;
          sessions = map (end_session now user_id) w.sessions;
          tokens = map (end_token now user_id) w.tokens;
          reset_tickets = del_ticket (crypto.sha256 reset_token) w.reset_tickets;
          audits =
              if is_some (find_user user_id w.users)
              then w.audits
                ++ record { action = "SESSION_REVOKED"; user_id = user_id; is_failure = false } ∷ []
              else w.audits;
        },
        ok tt,
      )
    ]
