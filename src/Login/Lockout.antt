-- ===== src/Login/Lockout.antt =====
-- A failed sign-in through `runBeforeAuthHook`: the counter and the cooldown.
use docker_zerotier_planet.Common.{
  ℕ, ◌≤◌, String, ◌≡◌, refl, ap, ◌∙◌, ◌≢◌, ◌⊎◌, inl, inr, Bool, true, false, Option, some, arith,
  str_eq, eq_iff, if◌then◌else◌, truthy, utf16_length, codes, find-map-some, update_keeps,
}
use docker_zerotier_planet.Login.{
  Services, Settings, Request, User, Db, find_user, is_wrong, update_user, code_of, record_failure,
  clear_failures, unlocked, locked, elapsed, lock_of, run_before_auth_hook, sign_in,
  try_credentials, second_factor, check_code, backfill_account, throw, too_many_requests,
  sign_in_email, Bool, String, max_failed_attempts, Lock,
}

-- An update by id that leaves e-mail addresses alone shows in the user that is found.
find_user-update :
    (email : String) (f : User → User)
    → ((u : User) → (f u).email ≡ u.email)
    → (db : Db) (u : User) (id : String) → find_user email db ≡ some u
    → u.id ≡ id
    → find_user email (update_user id f db) ≡ some (f u)
unfolding find_user update_user
find_user-update email f keeps db u id h same =
    find-map-some (λ v. str_eq v.email email) (λ v. if str_eq v.id id then f v else v)
      (update_keeps (λ v. str_eq v.email email) (λ v. str_eq v.id id) f
        (λ v. ap (λ (e : String). str_eq e email) (keeps v)))
      db.users u h
    ∙ ground (arith, eq_iff u.id id)

find_user-backfill :
    (email : String) (v : User) (db : Db)
    → find_user email (backfill_account v db) ≡ find_user email db
unfolding find_user backfill_account
find_user-backfill email v db = ground arith

-- A limit is never zero, so an account is never locked without a failure.
pub max_failed_attempts_pos : (raw : Option String) → 1 ≤ max_failed_attempts raw
unfolding max_failed_attempts
max_failed_attempts_pos raw = ground arith

module _ (services : Services) (settings : Settings) (email : String) where
  -- A second-factor code that is refused, for a user whose secret decrypts.
  pub record RefusedCode (enabled : Bool) (stored : Option String) (req : Request) : Type 0 where
    pub secret : String
    pub is_enabled : enabled ≡ true
    pub given : truthy req.totp_code ≡ true
    pub is_stored : truthy stored ≡ true
    pub has_secret : settings.has_secret ≡ true
    pub decrypted : services.decrypt (code_of stored) ≡ some secret
    pub sized : utf16_length (codes secret) ≡ 32
    pub refused : services.check_totp (code_of req.totp_code) secret ≡ false

  -- A sign-in for the account that cannot succeed: the password is wrong, or it is not refused and the
  -- code is. It depends on the user's credentials, and not on the counter.
  pub record Fails (hash : Option String) (enabled : Bool) (stored : Option String) (req : Request)
      : Type 0 where
    pub raw_email : String
    pub path : req.path ≡ sign_in_email
    pub addressed : req.email ≡ some raw_email
    pub normalized : services.normalize_email raw_email ≡ email
    pub fails :
        (is_wrong services req.password hash ≡ true)
        ⊎ ((is_wrong services req.password hash ≡ false) × RefusedCode enabled stored req)

  abbrev pub IsGuess : User → Request → Type 0
  IsGuess u req = Fails u.hash u.two_factor_enabled u.two_factor_secret req

  try_guess :
      (now : ℕ) (u : User) (req : Request) (db : Db) (start : User)
      → IsGuess u req
      → find_user email db ≡ some start
      → start.id ≡ u.id
      → let (db', verdict) = try_credentials services settings now u req db in
        (find_user email db' ≡ some (record_failure now start))
        × (verdict ≢ throw too_many_requests)
  unfolding try_credentials second_factor check_code
  try_guess now u req db start g found same = elim g.fails [
    | inl wrong ↦ (
      rw wrong (find_user-update email (record_failure now) (λ v. refl) db start u.id found same),
      ground arith,
    )
    | inr (right, code) ↦
        let made = find_user-backfill email u db ∙ found in
        (
          ground (
            arith,
            find_user-update email (record_failure now) (λ v. refl) (backfill_account u db) start
                u.id made same,
          ),
          ground arith,
        )
  ]

  -- What a failed sign-in does to the counter, as the lock stands.
  abbrev pub after : Lock → ℕ → User → User
  after elapsed now u = record_failure now (clear_failures u)
  after _ now u = record_failure now u

  pub sign_in_guess :
      (now : ℕ) (u : User) (req : Request) (db : Db)
      → IsGuess u req
      → find_user email db ≡ some u
      → (lock_of settings now u ≢ locked)
      → let (db', verdict) = sign_in services settings now u req db in
        (find_user email db' ≡ some (after (lock_of settings now u) now u))
        × (verdict ≢ throw too_many_requests)
  unfolding sign_in
  sign_in_guess now u req db g found not_locked = go (lock_of settings now u) refl
    where
      go :
          (l : Lock)
          → lock_of settings now u ≡ l
          → let (db', verdict) = sign_in services settings now u req db in
            (find_user email db' ≡ some (after (lock_of settings now u) now u))
            × (verdict ≢ throw too_many_requests)
      go locked e = absurd (not_locked e)
      go unlocked e = rw (e, sign_in) (try_guess now u req db u g found refl)
      go elapsed e =
          rw (e, sign_in)
            (try_guess now u req _ (clear_failures u) g
              (find_user-update email clear_failures (λ v. refl) db u u.id found refl) refl)

  pub hook_sign_in :
      (now : ℕ) (u : User) (req : Request) (db : Db)
      → settings.oauth_exclusive ≡ false
      → email ≢ ""
      → IsGuess u req
      → find_user email db ≡ some u
      → run_before_auth_hook services settings now req db ≡ sign_in services settings now u req db
  unfolding run_before_auth_hook
  hook_sign_in now u req db exclusive given g found =
      ground (arith, eq_iff email "", g.path, g.addressed, g.normalized)

  pub sign_in_locked :
      (now : ℕ) (u : User) (req : Request) (db : Db)
      → lock_of settings now u ≡ locked
      → sign_in services settings now u req db ≡ (db, throw too_many_requests)
  unfolding sign_in
  sign_in_locked now u req db e = rw (e, sign_in)
