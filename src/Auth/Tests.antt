-- ===== src/Auth/Tests.antt =====
-- A store of one user, and sign-ins, refreshes and guesses on it, for apps/api/src/auth/auth.service.ts.
use audio_book.Base.{
  ℕ, ◌≤◌, true, false, none, some, String, List, [], ◌∷◌, str_eq, err, ◌≡◌, refl, arith,
}
use audio_book.Auth.Model.{
  AuthStore, AuthPolicy, Crypto, Fresh, RefreshToken, Session, User, Credential,
  refresh_token_reused, token_revoked, find_token, find_session,
}
use audio_book.Auth.Sessions.{
  check_row, refuse_reuse, revoke_family, revoke_token, refresh, commit_rotation, session_revoked,
}
use audio_book.Auth.Login.{find_by_email, normalize_email}
use audio_book.Base.Text.{trim}
use audio_book.Auth.Families.{live_count}
use audio_book.Auth.Single.{IsSingle}
use audio_book.Auth.Reach.{signs_in, refreshes, serve, here, next, Reach-IsSingle}
use audio_book.Auth.Race.{commit_rotation_twice}
use audio_book.Auth.Reuse.{refresh_reused}
use audio_book.Auth.Lockout.{Attempt, guesses, guesses_le}

abbrev plain_crypto : Crypto
plain_crypto = record {
  sha256 = λ s. s;
  argon2_hash = λ s. s;
  argon2_verify = str_eq;
  verify_totp = str_eq;
  to_lower_case = λ s. s;
}

abbrev policy : AuthPolicy
policy = record {
  password_min_length = 12;
  enumeration_protection = true;
  refresh_token_ttl_seconds = 100;
  login_max_failed_attempts = 2;
  login_lockout_seconds = 900;
}

abbrev her_credential : Credential
her_credential = record {
  password_hash = "secret";
  mfa_enrolled = false;
  mfa_secret_ref = none;
  failed_attempt_count = 0;
  locked_until = none;
}

abbrev her_user : User
her_user = record {
  id = 1;
  tenant_id = 1;
  email = "a@b.c";
  display_name = "A";
  is_active = true;
  roles = [];
  deleted_at = none;
  last_login_at = none;
  credential = some her_credential;
}

abbrev no_sessions : AuthStore
no_sessions = record {
  tenants = 1 ∷ [];
  users = her_user ∷ [];
  sessions = [];
  tokens = [];
  mfa_tickets = [];
  reset_tickets = [];
  outbox = [];
  audits = [];
}

abbrev fresh_of : ℕ → String → Fresh
fresh_of n plain = record { session_id = n; token_id = n; family_id = n; plain = plain }

abbrev token_of : ℕ → String → RefreshToken
token_of n digest = record {
  id = n;
  session_id = 4;
  user_id = 1;
  family_id = 7;
  token_hash = digest;
  issued_at = 10;
  expires_at = 100010;
  rotated_at = none;
  rotated_to_id = none;
  revoked_at = none;
  reuse_detected_at = none;
}

abbrev used_token : RefreshToken
used_token = record (token_of 5 "one") { rotated_at = some 20; rotated_to_id = some 6 }

abbrev her_session : Session
her_session = record {
  id = 4;
  user_id = 1;
  tenant_id = 1;
  expires_at = 100010;
  last_seen_at = none;
  revoked_at = none;
  revocation_reason = none;
}

abbrev rotated_once : AuthStore
rotated_once = record no_sessions {
  sessions = her_session ∷ [];
  tokens = used_token ∷ token_of 6 "two" ∷ [];
}

-- She signs in, refreshes, and the first token is presented again.
abbrev three_requests : AuthStore
three_requests = serve plain_crypto policy (refreshes 30 (fresh_of 9 "three") "one") (
    serve plain_crypto policy (refreshes 20 (fresh_of 8 "two") "one")
      (serve plain_crypto policy (signs_in 10 (fresh_of 7 "one") "a@b.c" "secret") no_sessions))

Reach-IsSingle_example : IsSingle three_requests
Reach-IsSingle_example =
    Reach-IsSingle plain_crypto policy {start = no_sessions} {w = three_requests} (λ f. omega arith)
      (next (refreshes 30 (fresh_of 9 "three") "one") tt (
        next (refreshes 20 (fresh_of 8 "two") "one") tt
          (next (signs_in 10 (fresh_of 7 "one") "a@b.c" "secret") tt here)))

commit_rotation_twice_example :
    2
    ≤ live_count 7
        (commit_rotation plain_crypto policy 30
          (fresh_of 9 "four")
          (token_of 6 "two")
          (commit_rotation plain_crypto policy 30
            (fresh_of 8 "three")
            (token_of 6 "two")
            rotated_once).0).0.tokens
commit_rotation_twice_example =
    commit_rotation_twice plain_crypto policy 30 (fresh_of 8 "three") (fresh_of 9 "four")
      (token_of 6 "two") rotated_once (omega arith)

-- The first token is presented again, its owner signs in anew, and the second token comes.
abbrev signed_in_again : AuthStore
signed_in_again =
    serve plain_crypto policy (signs_in 35 (fresh_of 11 "new") "a@b.c" "secret")
      (refresh plain_crypto policy 30 (fresh_of 8 "x") "one" rotated_once).0

refresh_reused_example :
    ((refresh plain_crypto policy 30 (fresh_of 8 "x") "one" rotated_once).1
      ≡ err refresh_token_reused)
    × (refresh plain_crypto policy 40 (fresh_of 9 "y") "two" signed_in_again
        ≡ (signed_in_again, err token_revoked))
unfolding find_token session_revoked find_session refresh check_row refuse_reuse revoke_family
    revoke_token
refresh_reused_example =
    refresh_reused plain_crypto policy 30 40 (fresh_of 8 "x") (fresh_of 9 "y") "one" "two"
      rotated_once signed_in_again used_token (token_of 6 "two") refl refl refl refl (omega arith)
      refl refl (next (signs_in 35 (fresh_of 11 "new") "a@b.c" "secret") (ground arith) here)

abbrev guess_at : ℕ → Attempt
guess_at now = record { at = now; fresh = fresh_of 9 "x"; password = "guess" }

abbrev three_guesses : List Attempt
three_guesses = guess_at 10 ∷ guess_at 20 ∷ guess_at 30 ∷ []

guesses_le_example : guesses plain_crypto policy "a@b.c" three_guesses no_sessions ≤ 2
unfolding find_by_email normalize_email trim
guesses_le_example =
    guesses_le plain_crypto policy "a@b.c" 0 her_credential three_guesses no_sessions
      (her_user, refl, refl, refl) (omega arith, (omega arith, (omega arith, tt)))
      ((refl, omega arith), ((refl, omega arith), ((refl, omega arith), tt)))
