-- ===== src/Auth/Model.antt =====
-- The rows, the store, the errors and the parameters of apps/api/src/auth/auth.service.ts.
use audio_book.Base.{
  ℕ, Bool, true, false, ◌&&◌, Option, none, some, String, List, [], ◌∷◌, ◌==◌, str_eq, ltb, map,
  if◌then◌else◌,
}

-- `user_credential`
pub record Credential : Type 0 where
  pub password_hash : String
  pub mfa_enrolled : Bool
  pub mfa_secret_ref : Option String
  pub failed_attempt_count : ℕ
  pub locked_until : Option ℕ

pub record User : Type 0 where
  pub id : ℕ
  pub tenant_id : ℕ
  pub email : String
  pub display_name : String
  pub is_active : Bool
  pub roles : List String
  pub deleted_at : Option ℕ
  pub last_login_at : Option ℕ
  pub credential : Option Credential

pub record Session : Type 0 where
  pub id : ℕ
  pub user_id : ℕ
  pub tenant_id : ℕ
  pub expires_at : ℕ
  pub last_seen_at : Option ℕ
  pub revoked_at : Option ℕ
  pub revocation_reason : Option String

pub record RefreshToken : Type 0 where
  pub id : ℕ
  pub session_id : ℕ
  pub user_id : ℕ
  pub family_id : ℕ
  pub token_hash : String
  pub issued_at : ℕ
  pub expires_at : ℕ
  pub rotated_at : Option ℕ
  pub rotated_to_id : Option ℕ
  pub revoked_at : Option ℕ
  pub reuse_detected_at : Option ℕ

-- A Redis entry `mfa:…` or `pwreset:…`: the digest in its key, the user, and when it goes.
pub record Ticket : Type 0 where
  pub digest : String
  pub user_id : ℕ
  pub gone_at : ℕ

-- What `audit.record` keeps of an action, and the events of the outbox.
pub record Trace : Type 0 where
  pub action : String
  pub user_id : ℕ
  pub is_failure : Bool

pub record AuthStore : Type 0 where
  pub tenants : List ℕ
  pub users : List User
  pub sessions : List Session
  pub tokens : List RefreshToken
  pub mfa_tickets : List Ticket
  pub reset_tickets : List Ticket
  pub outbox : List Trace
  pub audits : List Trace

pub record AuthPolicy : Type 0 where
  pub password_min_length : ℕ
  pub enumeration_protection : Bool
  pub refresh_token_ttl_seconds : ℕ
  pub login_max_failed_attempts : ℕ
  pub login_lockout_seconds : ℕ

-- Code that is not the repository's: digests, Argon2 and TOTP, and the lower case of a text.
pub record Crypto : Type 0 where
  pub sha256 : String → String
  pub argon2_hash : String → String
  pub argon2_verify : String → String → Bool
  pub verify_totp : String → String → Bool
  pub to_lower_case : String → String

pub data AuthError : Type 0 where
  invalid_credentials account_locked mfa_failed token_revoked token_expired : AuthError
  refresh_token_reused reset_token_expired password_too_short email_already_registered : AuthError

-- `AuthenticatedResult`, without the access token, which is signed from the same fields.
pub record Authenticated : Type 0 where
  pub refresh_token : String
  pub session_id : ℕ

pub data LoginResult : Type 0 where
  authenticated : Authenticated → LoginResult
  mfa_required : String → LoginResult

-- What `generateId` and `randomBytes` return within one request.
pub record Fresh : Type 0 where
  pub session_id : ℕ
  pub token_id : ℕ
  pub family_id : ℕ
  pub plain : String

abbrev pub mfa_token_ttl_ms : ℕ
mfa_token_ttl_ms = 300000

abbrev pub password_reset_token_ttl_ms : ℕ
password_reset_token_ttl_ms = 1800000

abbrev pub is_live : RefreshToken → Bool
is_live t = elim t.rotated_at [
  | some _ ↦ false
  | none ↦ elim t.revoked_at [ some _ ↦ false | none ↦ true ]
]

-- `redis.get`: an entry is there until its time.
unfoldable pub get_ticket : ℕ → String → List Ticket → Option ℕ
get_ticket now digest [] = none
get_ticket now digest (t ∷ ts) =
    if str_eq t.digest digest && ltb now t.gone_at then some t.user_id else get_ticket now digest ts

-- `redis.del`
unfoldable pub del_ticket : String → List Ticket → List Ticket
del_ticket digest [] = []
del_ticket digest (t ∷ ts) =
    let rest = del_ticket digest ts in if str_eq t.digest digest then rest else t ∷ rest

-- `refreshToken.findUnique({ where: { tokenHash } })`
unfoldable pub find_token : String → List RefreshToken → Option RefreshToken
find_token digest [] = none
find_token digest (t ∷ ts) = if str_eq t.token_hash digest then some t else find_token digest ts

unfoldable pub find_session : ℕ → List Session → Option Session
find_session i [] = none
find_session i (s ∷ ss) = if s.id == i then some s else find_session i ss

unfoldable pub find_user : ℕ → List User → Option User
find_user i [] = none
find_user i (u ∷ us) = if u.id == i then some u else find_user i us

unfoldable pub update_user : ℕ → (User → User) → List User → List User
update_user i f users = map (λ u. if u.id == i then f u else u) users
