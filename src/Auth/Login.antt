-- ===== src/Auth/Login.antt =====
-- `login`, `recordFailedAttempt` and `exchangeMfa` of apps/api/src/auth/auth.service.ts.
use audio_book.Base.{
  ℕ, suc, ◌+◌, ◌*◌, Bool, false, ◌&&◌, not, Option, none, some, String, List, [], ◌∷◌, str_eq, leb,
  ltb, is_some, if◌then◌else◌, Result, ok, err,
}
use audio_book.Base.Text.{trim}
use audio_book.Auth.Model.{
  AuthStore, AuthPolicy, AuthError, invalid_credentials, account_locked, mfa_failed, LoginResult,
  authenticated, mfa_required, Authenticated, Crypto, Fresh, User, Credential, get_ticket,
  del_ticket, find_user, update_user, mfa_token_ttl_ms,
}
use audio_book.Auth.Sessions.{issue_session}

unfoldable pub normalize_email : Crypto → String → String
normalize_email crypto email = crypto.to_lower_case (trim email)

-- `user.findFirst({ where: { email, deletedAt: null } })`
unfoldable pub find_by_email : String → List User → Option User
find_by_email email [] = none
find_by_email email (u ∷ us) =
    if str_eq u.email email && not (is_some u.deleted_at) then some u else find_by_email email us

-- `lockedUntil && lockedUntil.getTime() > Date.now()`
unfoldable pub is_locked : ℕ → Credential → Bool
is_locked now c = elim c.locked_until [ none ↦ false | some t ↦ ltb now t ]

-- The update of `recordFailedAttempt`, from the count that the request has read.
unfoldable pub failed_attempt : AuthPolicy → ℕ → ℕ → Credential → Credential
failed_attempt policy now current_count c =
    if leb policy.login_max_failed_attempts (suc current_count)
    then record c {
      failed_attempt_count = 0;
      locked_until = some (now + policy.login_lockout_seconds * 1000);
    }
    else record c { failed_attempt_count = suc current_count }

abbrev pub clear_attempts : Credential → Credential
clear_attempts c = record c { failed_attempt_count = 0; locked_until = none }

-- What the request finds out before it writes.
pub data Verdict : Type 0 where
  locked wrong right : Verdict

unfoldable pub verdict : Crypto → ℕ → String → Credential → Verdict
verdict crypto now password c =
    if is_locked now c
    then locked
    else if crypto.argon2_verify c.password_hash password
    then right
    else wrong

abbrev pub with_credential : (Credential → Credential) → User → User
with_credential f u = elim u.credential [ none ↦ u | some c ↦ record u { credential = some (f c) } ]

-- The sign-in of a user whose password is right.
unfoldable pub sign_in :
    Crypto → AuthPolicy → ℕ → Fresh → User → Credential → AuthStore → AuthStore × LoginResult
sign_in crypto policy now fresh user c w =
    let seen = record w {
      users =
          update_user user.id
            (λ u. record (with_credential clear_attempts u) { last_login_at = some now }) w.users;
    } in
    let (issued, result) = issue_session crypto policy now fresh user.id user.tenant_id seen in
    if c.mfa_enrolled
    then (
      record seen {
        mfa_tickets =
            record {
              digest = crypto.sha256 fresh.plain;
              user_id = user.id;
              gone_at = now + mfa_token_ttl_ms;
            }
            ∷ seen.mfa_tickets;
      },
      mfa_required fresh.plain,
    )
    else (issued, authenticated result)

-- `login` for the user that was found and its credential.
unfoldable pub login_user :
    Crypto
    → AuthPolicy
    → ℕ
    → Fresh
    → String
    → User
    → Credential
    → AuthStore
    → AuthStore × Result AuthError LoginResult
login_user crypto policy now fresh password user c w = elim (verdict crypto now password c) [
  | locked ↦ (w, err account_locked)
  | wrong ↦ (
    record w {
      users =
          update_user user.id (with_credential (failed_attempt policy now c.failed_attempt_count))
            w.users;
    },
    err invalid_credentials,
  )
  | right ↦ let (after, result) = sign_in crypto policy now fresh user c w in (after, ok result)
]

unfoldable pub login :
    Crypto
    → AuthPolicy
    → ℕ
    → Fresh
    → String
    → String
    → AuthStore
    → AuthStore × Result AuthError LoginResult
login crypto policy now fresh email password w =
    elim (find_by_email (normalize_email crypto email) w.users) [
      | none ↦ (w, err invalid_credentials)
      | some user ↦ elim user.credential [
        | none ↦ (w, err invalid_credentials)
        | some c ↦
            if user.is_active
            then login_user crypto policy now fresh password user c w
            else (w, err invalid_credentials)
      ]
    ]

-- `user?.credential?.mfaSecretRef`, of a user that is not deleted, and the check of the code.
unfoldable pub totp_passes : Crypto → String → User → Bool
totp_passes crypto code user = elim user.credential [
  | none ↦ false
  | some c ↦ elim c.mfa_secret_ref [
    | none ↦ false
    | some secret ↦ not (is_some user.deleted_at) && crypto.verify_totp secret code
  ]
]

unfoldable pub exchange_mfa :
    Crypto
    → AuthPolicy
    → ℕ
    → Fresh
    → String
    → String
    → AuthStore
    → AuthStore × Result AuthError Authenticated
exchange_mfa crypto policy now fresh mfa_token code w =
    elim (get_ticket now (crypto.sha256 mfa_token) w.mfa_tickets) [
      | none ↦ (w, err mfa_failed)
      | some user_id ↦ elim (find_user user_id w.users) [
        | none ↦ (w, err mfa_failed)
        | some user ↦
            let used = record w {
              mfa_tickets = del_ticket (crypto.sha256 mfa_token) w.mfa_tickets;
            } in
            let (after, result) =
              issue_session crypto policy now fresh user.id user.tenant_id used in
            if totp_passes crypto code user then (after, ok result) else (w, err mfa_failed)
      ]
    ]
