-- ===== src/Auth/Sessions.antt =====
-- Sessions and refresh tokens of apps/api/src/auth/auth.service.ts: `issueSession`, `refresh`,
-- `revokeFamily` and `logout`. The read of `refresh` and its transaction are functions of their own,
-- since other requests may run between them.
use audio_book.Base.{
  ℕ, ◌+◌, ◌*◌, Bool, true, false, ◌&&◌, ◌||◌, Option, none, some, String, List, [], ◌∷◌, ◌++◌, ◌==◌,
  any, ltb, map, is_some, if◌then◌else◌, Result, ok, err,
}
use audio_book.Auth.Model.{
  AuthStore, AuthPolicy, AuthError, token_revoked, token_expired, refresh_token_reused,
  Authenticated, Crypto, Fresh, Session, RefreshToken, find_token, find_session,
}

unfoldable pub revoke_session : ℕ → String → Session → Session
revoke_session now reason s =
    if is_some s.revoked_at
    then s
    else record s { revoked_at = some now; revocation_reason = some reason }

unfoldable pub new_token : ℕ → ℕ → String → Fresh → ℕ → ℕ → ℕ → RefreshToken
new_token now ttl_seconds digest fresh session_id user_id family_id = record {
  id = fresh.token_id;
  session_id = session_id;
  user_id = user_id;
  family_id = family_id;
  token_hash = digest;
  issued_at = now;
  expires_at = now + ttl_seconds * 1000;
  rotated_at = none;
  rotated_to_id = none;
  revoked_at = none;
  reuse_detected_at = none;
}

-- `issueSession`
unfoldable pub issue_session :
    Crypto → AuthPolicy → ℕ → Fresh → ℕ → ℕ → AuthStore → AuthStore × Authenticated
issue_session crypto policy now fresh user_id tenant_id w = (
  record w {
    sessions =
        w.sessions
        ++ record {
          id = fresh.session_id;
          user_id = user_id;
          tenant_id = tenant_id;
          expires_at = now + policy.refresh_token_ttl_seconds * 1000;
          last_seen_at = none;
          revoked_at = none;
          revocation_reason = none;
        }
          ∷ [];
    tokens =
        w.tokens
        ++ new_token now policy.refresh_token_ttl_seconds (crypto.sha256 fresh.plain) fresh
            fresh.session_id user_id fresh.family_id
          ∷ [];
    audits =
        w.audits
        ++ record { action = "LOGIN_SUCCEEDED"; user_id = user_id; is_failure = false } ∷ [];
  },
  record { refresh_token = fresh.plain; session_id = fresh.session_id },
)

-- The two `updateMany` of `revokeFamily`.
unfoldable pub revoke_token : ℕ → ℕ → RefreshToken → RefreshToken
revoke_token now family_id t =
    if t.family_id == family_id && (if is_some t.revoked_at then false else true)
    then record t { revoked_at = some now; reuse_detected_at = some now }
    else t

-- `tokens.map((t) => t.sessionId)` of the family's rows, as a test.
unfoldable pub in_family : ℕ → List RefreshToken → Session → Bool
in_family family_id tokens s = any (λ t. t.family_id == family_id && t.session_id == s.id) tokens

unfoldable pub revoke_family : ℕ → ℕ → String → AuthStore → AuthStore
revoke_family now family_id reason w = record w {
  tokens = map (revoke_token now family_id) w.tokens;
  sessions =
      map (λ s. if in_family family_id w.tokens s then revoke_session now reason s else s)
        w.sessions;
}

-- The update that marks the presented token as used.
unfoldable pub rotate : ℕ → ℕ → ℕ → RefreshToken → RefreshToken
rotate now row_id new_id t =
    if t.id == row_id then record t { rotated_at = some now; rotated_to_id = some new_id } else t

-- The transaction of `refresh` for the row that it read.
unfoldable pub commit_rotation :
    Crypto → AuthPolicy → ℕ → Fresh → RefreshToken → AuthStore → AuthStore × Authenticated
commit_rotation crypto policy now fresh row w = (
  record w {
    tokens =
        map (rotate now row.id fresh.token_id) w.tokens
        ++ new_token now policy.refresh_token_ttl_seconds (crypto.sha256 fresh.plain) fresh
            row.session_id row.user_id row.family_id
          ∷ [];
    sessions =
        map (λ s. if s.id == row.session_id then record s { last_seen_at = some now } else s)
          w.sessions;
  },
  record { refresh_token = fresh.plain; session_id = row.session_id },
)

-- `row.session.revokedAt`, by the foreign key.
unfoldable pub session_revoked : ℕ → List Session → Bool
session_revoked i sessions = elim (find_session i sessions) [
  | none ↦ false
  | some s ↦ is_some s.revoked_at
]

-- `refresh` from the row that was found, up to its transaction.
unfoldable pub check_row : ℕ → RefreshToken → AuthStore → Result AuthError Bool
check_row now row w =
    if is_some row.revoked_at || session_revoked row.session_id w.sessions
    then err token_revoked
    else if ltb row.expires_at now
    then err token_expired
    else ok (is_some row.rotated_at)

unfoldable pub refuse_reuse : ℕ → RefreshToken → AuthStore → AuthStore
refuse_reuse now row w =
    let revoked = revoke_family now row.family_id "REFRESH_TOKEN_REUSE_DETECTED" w in
    record revoked {
      audits =
          revoked.audits
          ++ record {
            action = "REFRESH_TOKEN_REUSE_DETECTED";
            user_id = row.user_id;
            is_failure = true;
          }
            ∷ [];
    }

unfoldable pub refresh :
    Crypto
    → AuthPolicy
    → ℕ
    → Fresh
    → String
    → AuthStore
    → AuthStore × Result AuthError Authenticated
refresh crypto policy now fresh plain w = elim (find_token (crypto.sha256 plain) w.tokens) [
  | none ↦ (w, err token_revoked)
  | some row ↦ elim (check_row now row w) [
    | err e ↦ (w, err e)
    | ok true ↦ (refuse_reuse now row w, err refresh_token_reused)
    | ok false ↦
        let (after, result) = commit_rotation crypto policy now fresh row w in (after, ok result)
  ]
]

unfoldable pub revoke_of_session : ℕ → ℕ → RefreshToken → RefreshToken
revoke_of_session now session_id t =
    if t.session_id == session_id && (if is_some t.revoked_at then false else true)
    then record t { revoked_at = some now }
    else t

-- `logout`; nothing happens without a session of this user that is not yet revoked.
unfoldable pub logout : ℕ → ℕ → Option ℕ → AuthStore → AuthStore
logout now user_id none w = w
logout now user_id (some session_id) w = elim (find_session session_id w.sessions) [
  | none ↦ w
  | some s ↦
      if (s.user_id == user_id) && (if is_some s.revoked_at then false else true)
      then record w {
        sessions =
            map
              (λ x.
                if x.id == session_id
                then record x { revoked_at = some now; revocation_reason = some "LOGOUT" }
                else x)
              w.sessions;
        tokens = map (revoke_of_session now session_id) w.tokens;
        audits =
            w.audits
            ++ record { action = "SESSION_REVOKED"; user_id = user_id; is_failure = false } ∷ [];
      }
      else w
]
