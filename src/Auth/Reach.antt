-- ===== src/Auth/Reach.antt =====
-- The requests of apps/api/src/auth/auth.service.ts as steps on the store, each run to its end before
-- the next one starts, and what every state that they reach keeps.
use audio_book.Base.{ℕ, Bool, Option, String}
use audio_book.Auth.Model.{AuthStore, AuthPolicy, Crypto, Fresh}
use audio_book.Auth.Sessions.{refresh, logout}
use audio_book.Auth.Login.{login, exchange_mfa}
use audio_book.Auth.Accounts.{
  RegisterBody, register, request_password_reset, confirm_password_reset,
}
use audio_book.Auth.Single.{
  IsSingle, HasNoFamily, refresh-IsSingle, login-IsSingle, exchange_mfa-IsSingle, logout-IsSingle,
  confirm_password_reset-IsSingle, register-tokens, request_password_reset-tokens, same_tokens,
}

pub data Request : Type 0 where
  registers : ℕ → ℕ → Bool → RegisterBody → Request
  signs_in : ℕ → Fresh → String → String → Request
  exchanges : ℕ → Fresh → String → String → Request
  refreshes : ℕ → Fresh → String → Request
  logs_out : ℕ → ℕ → Option ℕ → Request
  asks_reset : ℕ → String → String → Request
  resets : ℕ → String → String → ℕ → Request

unfoldable pub serve : Crypto → AuthPolicy → Request → AuthStore → AuthStore
serve crypto policy (registers user tenant raced body) w =
    (register crypto policy user tenant raced body w).0
serve crypto policy (signs_in now fresh email password) w =
    (login crypto policy now fresh email password w).0
serve crypto policy (exchanges now fresh token code) w =
    (exchange_mfa crypto policy now fresh token code w).0
serve crypto policy (refreshes now fresh plain) w = (refresh crypto policy now fresh plain w).0
serve crypto policy (logs_out now user session) w = logout now user session w
serve crypto policy (asks_reset now plain email) w = request_password_reset crypto now plain email w
serve crypto policy (resets now token password length) w =
    (confirm_password_reset crypto policy now token password length w).0

abbrev pub IsFresh : Request → AuthStore → Type 0
IsFresh (signs_in now fresh email password) w = HasNoFamily fresh w
IsFresh (exchanges now fresh token code) w = HasNoFamily fresh w
IsFresh _ w = Unit

pub data Reach (crypto : Crypto) (policy : AuthPolicy) (start : AuthStore)
    : AuthStore → Type 0 where
  here : Reach crypto policy start start
  next :
      {w : AuthStore} (r : Request)
      → IsFresh r w
      → Reach crypto policy start w
      → Reach crypto policy start (serve crypto policy r w)

module _ (crypto : Crypto) (policy : AuthPolicy) where
  serve-IsSingle :
      (r : Request) (w : AuthStore) → IsFresh r w → IsSingle w → IsSingle (serve crypto policy r w)
  unfolding serve
  serve-IsSingle (registers user tenant raced body) w _ h =
      same_tokens (register crypto policy user tenant raced body w).0 w
        (register-tokens crypto policy user tenant raced body w) h
  serve-IsSingle (signs_in now fresh email password) w new h =
      login-IsSingle crypto policy now fresh email password w new h
  serve-IsSingle (exchanges now fresh token code) w new h =
      exchange_mfa-IsSingle crypto policy now fresh token code w new h
  serve-IsSingle (refreshes now fresh plain) w _ h =
      refresh-IsSingle crypto policy now fresh plain w h
  serve-IsSingle (logs_out now user session) w _ h =
      logout-IsSingle crypto policy now user session w h
  serve-IsSingle (asks_reset now plain email) w _ h =
      same_tokens (request_password_reset crypto now plain email w) w
        (request_password_reset-tokens crypto policy now plain email w) h
  serve-IsSingle (resets now token password size) w _ h =
      confirm_password_reset-IsSingle crypto policy now token password size w h

-- Whatever requests are served one after the other, from a store where it holds, no family of
-- refresh tokens ever has two tokens that are neither used nor revoked.
pub Reach-IsSingle :
    (crypto : Crypto) (policy : AuthPolicy) {start w : AuthStore}
    → IsSingle start
    → Reach crypto policy start w
    → IsSingle w
Reach-IsSingle crypto policy h here = h
Reach-IsSingle crypto policy h (next r new before) =
    serve-IsSingle crypto policy r _ new (Reach-IsSingle crypto policy h before)
