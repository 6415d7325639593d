-- ===== src/Auth.antt =====
-- Sign-in and sessions: apps/api/src/auth/auth.service.ts. A token as the client holds it is a text,
-- and the rows keep its digest. Argon2, SHA-256, TOTP and the signing of access tokens are the
-- library code of `Crypto`; Redis answers, and keeps an entry for as long as its `EX` says.
pub mod Model
pub mod Sessions
pub mod Login
pub mod Accounts
pub mod Families
pub mod Single
pub mod Reach
pub mod Race
pub mod Refused
pub mod Reuse
pub mod Lockout
mod Tests
