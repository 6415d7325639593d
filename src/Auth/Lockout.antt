-- ===== src/Auth/Lockout.antt =====
-- The lockout of `login` in apps/api/src/auth/auth.service.ts against guesses of one password, as
-- long as each request ends before the next one starts.
use audio_book.Base.{
  ℕ, suc, ◌+◌, ◌-◌, ◌*◌, ◌≤◌, ◌<◌, Bool, true, false, ◌&&◌, not, some, some_inj, String, List, [],
  ◌∷◌, str_eq, ◌==◌, ==_self, map, leb, lt→ltb, is_some, if◌then◌else◌, Result, ok, err, All, arith,
  ◌≡◌, refl, sym, ap, ap₂, ◌∙◌, subst, inl, inr, Bool-cases, Option-cases,
}
use audio_book.Auth.Model.{
  AuthStore, AuthPolicy, AuthError, invalid_credentials, account_locked, Crypto, Fresh, User,
  Credential, LoginResult, update_user,
}
use audio_book.Auth.Login.{
  login, login_user, verdict, is_locked, failed_attempt, with_credential, find_by_email,
  normalize_email,
}

-- A sign-in with one email: when it comes, what is fresh in it, and the password.
pub record Attempt : Type 0 where
  pub at : ℕ
  pub fresh : Fresh
  pub password : String

-- Whether `login` refused to look at the password.
unfoldable pub is_refused : Result AuthError LoginResult → Bool
is_refused (ok r) = false
is_refused (err account_locked) = true
is_refused (err e) = false

-- How many of the attempts had their password looked at.
unfoldable pub guesses : Crypto → AuthPolicy → String → List Attempt → AuthStore → ℕ
guesses crypto policy email [] w = 0
guesses crypto policy email (a ∷ attempts) w =
    let (after, result) = login crypto policy a.at a.fresh email a.password w in
    let rest = guesses crypto policy email attempts after in
    (if is_refused result then 0 else 1) + rest

-- The email belongs to an active user with this credential.
abbrev pub Owns : Crypto → String → Credential → AuthStore → Type 0
Owns crypto email c w =
    (user : User) × (find_by_email (normalize_email crypto email) w.users ≡ some user)
    × (user.credential ≡ some c)
    × (user.is_active ≡ true)

find_by_email-map :
    (email : String) (g : User → User)
    → ((u : User) → ((g u).email ≡ u.email) × ((g u).deleted_at ≡ u.deleted_at))
    → (us : List User) (user : User) → find_by_email email us ≡ some user
    → find_by_email email (map g us) ≡ some (g user)
unfolding find_by_email
find_by_email-map email g keeps [] user e = cc
find_by_email-map email g keeps (u ∷ us) user e =
    let (same, alive) = keeps u in
    let alike : (str_eq (g u).email email && not (is_some (g u).deleted_at))
        ≡ (str_eq u.email email && not (is_some u.deleted_at)) =
      ap₂ (λ x y. str_eq x email && not (is_some y)) same alive in
    elim (Bool-cases (str_eq u.email email && not (is_some u.deleted_at))) [
      | inl m ↦ rw (alike ∙ m) (ap (λ x. some (g x)) (some_inj (sym (rw m refl) ∙ e)))
      | inr m ↦ rw (alike ∙ m) (find_by_email-map email g keeps us user (sym (rw m refl) ∙ e))
    ]

with_credential-keeps :
    (f : Credential → Credential) (u : User)
    → ((with_credential f u).email ≡ u.email)
      × ((with_credential f u).deleted_at ≡ u.deleted_at)
      × ((with_credential f u).is_active ≡ u.is_active)
with_credential-keeps f u = elim (Option-cases u.credential) [
  | inl e ↦ rw e (refl, refl, refl)
  | inr (c, e) ↦ rw e (refl, refl, refl)
]

update-keeps :
    (i : ℕ) (f : Credential → Credential) (u : User)
    → let after = if u.id == i then with_credential f u else u in
      (after.email ≡ u.email) × (after.deleted_at ≡ u.deleted_at)
update-keeps i f u =
    let (same, alive, _) = with_credential-keeps f u in
    elim (Bool-cases (u.id == i)) [ inl e ↦ rw e (same, alive) | inr e ↦ rw e (refl, refl) ]

-- The credential of a user after an update of its row.
Owns-update :
    (crypto : Crypto) (email : String) (c : Credential) (f : Credential → Credential)
    (w : AuthStore) (owner : Owns crypto email c w)
    → Owns crypto email
        (f c)
        (record w { users = update_user owner.0.id (with_credential f) w.users })
unfolding update_user
Owns-update crypto email c f w (user, found, e, active) =
    let g : User → User = λ u. if u.id == user.id then with_credential f u else u in
    let mine : g user ≡ with_credential f user = rw (==_self user.id) refl in
    let moved =
      find_by_email-map (normalize_email crypto email) g (λ u. update-keeps user.id f u) w.users
        user found in
    (
      with_credential f user,
      moved ∙ ap (λ x. some x) mine,
      rw e refl,
      (with_credential-keeps f user).2 ∙ active,
    )

login_locked :
    (crypto : Crypto) (policy : AuthPolicy) (now : ℕ) (fresh : Fresh) (email password : String)
    (c : Credential) (w : AuthStore)
    → Owns crypto email c w
    → is_locked now c ≡ true
    → login crypto policy now fresh email password w ≡ (w, err account_locked)
unfolding login login_user verdict
login_locked crypto policy now fresh email password c w (user, found, e, active) shut =
    rw (login, found, e, active, login_user, verdict, shut) refl

login_wrong :
    (crypto : Crypto) (policy : AuthPolicy) (now : ℕ) (fresh : Fresh) (email password : String)
    (c : Credential) (w : AuthStore) (owner : Owns crypto email c w)
    → is_locked now c ≡ false
    → crypto.argon2_verify c.password_hash password ≡ false
    → login crypto policy now fresh email password w ≡ (
      record w {
        users =
            update_user owner.0.id
              (with_credential (failed_attempt policy now c.failed_attempt_count))
              w.users;
      },
      err invalid_credentials,
    )
unfolding login login_user verdict
login_wrong crypto policy now fresh email password c w (user, found, e, active) unshut bad =
    rw (login, found, e, active, login_user, verdict, unshut, bad) refl

module _ (policy : AuthPolicy) (now : ℕ) (c : Credential) where
  failed_attempt-locked_until :
      leb policy.login_max_failed_attempts (suc c.failed_attempt_count) ≡ true
      → (failed_attempt policy now c.failed_attempt_count c).locked_until
        ≡ some (now + policy.login_lockout_seconds * 1000)
  unfolding failed_attempt
  failed_attempt-locked_until e = rw (failed_attempt, e) refl

  failed_attempt-count :
      leb policy.login_max_failed_attempts (suc c.failed_attempt_count) ≡ false
      → (failed_attempt policy now c.failed_attempt_count c).failed_attempt_count
        ≡ suc c.failed_attempt_count
  unfolding failed_attempt
  failed_attempt-count e = rw (failed_attempt, e) refl

  failed_attempt-password_hash :
      (failed_attempt policy now c.failed_attempt_count c).password_hash ≡ c.password_hash
  unfolding failed_attempt
  failed_attempt-password_hash = ground arith

-- The password is wrong for this hash, and the attempt comes before the time.
abbrev pub WrongBefore : Crypto → String → ℕ → Attempt → Type 0
WrongBefore crypto hash end a = (crypto.argon2_verify hash a.password ≡ false) × (a.at < end)

guesses_locked :
    (crypto : Crypto) (policy : AuthPolicy) (email : String) (end u : ℕ) (c : Credential)
    (attempts : List Attempt) (w : AuthStore)
    → Owns crypto email c w
    → c.locked_until ≡ some u
    → end ≤ u
    → All (WrongBefore crypto c.password_hash end) attempts
    → guesses crypto policy email attempts w ≡ 0
unfolding guesses is_locked is_refused
guesses_locked crypto policy email end u c [] w owner lock late bad = refl
guesses_locked crypto policy email end u c (a ∷ attempts) w owner lock late ((failing, soon), bad) =
    let shut : is_locked a.at c ≡ true = rw lock (lt→ltb a.at u (omega arith)) in
    rw (login_locked crypto policy a.at a.fresh email a.password c w owner shut)
      (omega (arith, guesses_locked crypto policy email end u c attempts w owner lock late bad))

-- Of wrong passwords for one account that come one after another within one lockout period, `login`
-- looks at no more than the threshold allows from the count that the credential has: it refuses all
-- the others as locked.
pub guesses_le :
    (crypto : Crypto) (policy : AuthPolicy) (email : String) (start : ℕ) (c : Credential)
    (attempts : List Attempt) (w : AuthStore)
    → Owns crypto email c w
    → All (λ a. start ≤ a.at) attempts
    → All
        (WrongBefore crypto c.password_hash (start + policy.login_lockout_seconds * 1000))
        attempts
    → guesses crypto policy email attempts w
      ≤ suc (policy.login_max_failed_attempts - suc c.failed_attempt_count)
unfolding guesses is_refused
guesses_le crypto policy email start c [] w owner after bad = omega arith
guesses_le crypto policy email start c (a ∷ attempts) w owner (since, after)
      ((failing, soon), bad) =
    elim (Bool-cases (is_locked a.at c)) [
      | inl shut ↦
          rw (login_locked crypto policy a.at a.fresh email a.password c w owner shut)
            (omega (arith, guesses_le crypto policy email start c attempts w owner after bad))
      | inr unshut ↦
          let next = failed_attempt policy a.at c.failed_attempt_count in
          let owner2 = Owns-update crypto email c next w owner in
          let end = start + policy.login_lockout_seconds * 1000 in
          let bad2 : All (WrongBefore crypto (next c).password_hash end) attempts =
            subst (λ h. All (WrongBefore crypto h end) attempts)
              (sym (failed_attempt-password_hash policy a.at c)) bad in
          let written = record w {
            users = update_user owner.0.id (with_credential next) w.users;
          } in
          rw (login_wrong crypto policy a.at a.fresh email a.password c w owner unshut failing)
            elim (Bool-cases (leb policy.login_max_failed_attempts (suc c.failed_attempt_count))) [
              | inl e ↦
                  let none_left =
                    guesses_locked crypto policy email end
                      (a.at + policy.login_lockout_seconds * 1000) (next c) attempts written owner2
                      (failed_attempt-locked_until policy a.at c e) (omega arith) bad2 in
                  omega (arith, none_left)
              | inr e ↦
                  let others =
                    guesses_le crypto policy email start (next c) attempts written owner2 after
                      bad2 in
                  let counted = failed_attempt-count policy a.at c e in
                  ground (arith, others, counted)
            ]
    ]
