-- ===== src/Login.antt =====
-- services/ztnet/src/lib/auth.ts: the hooks round a credential sign-in, `runBeforeAuthHook` here,
-- the session and user hooks in Login/Session.antt. The password hash, the second factor, the cipher
-- and the lower-casing of e-mail addresses are parameters.
pub mod Session
pub mod Lockout
pub mod Guessing
mod Tests
use docker_zerotier_planet.Common.{
  ℕ, ◌+◌, ◌*◌, min, max, Bool, true, false, ◌&&◌, ◌||◌, not, Option, none, some, List, [], ◌∷◌, map,
  String, str_eq, if◌then◌else◌, leb, ltb, ◌==◌, find, truthy, codes, utf16_length, Parsed, nan,
  plus, minus, parse_int,
}

-- `Math.min(hi, Math.max(lo, parseInt(…) || fallback))`.
abbrev pub bounded : ℕ → ℕ → ℕ → Parsed → ℕ
bounded fallback lo hi nan = min hi (max lo fallback)
bounded fallback lo hi (plus n) = min hi (max lo (if n == 0 then fallback else n))
bounded fallback lo hi (minus n) = min hi (max lo (if n == 0 then fallback else 0))

-- `process.env.X || fallback`.
abbrev env_or : String → Option String → String
env_or fallback none = fallback
env_or fallback (some raw) = if str_eq raw "" then fallback else raw

-- `MAX_FAILED_ATTEMPTS` and `COOLDOWN_PERIOD`, from the two environment variables.
pub max_failed_attempts : Option String → ℕ
max_failed_attempts raw = bounded 5 1 20 (parse_int (codes (env_or "5" raw)))

pub cooldown_period : Option String → ℕ
cooldown_period raw = bounded 900 60 86400 (parse_int (codes (env_or "900" raw))) * 1000

-- The columns of `User` that the hooks read or write.
pub record User : Type 0 where
  pub id : String
  pub email : String
  pub hash : Option String
  pub failed_login_attempts : ℕ
  pub last_failed_login_attempt : Option ℕ
  pub two_factor_enabled : Bool
  pub two_factor_secret : Option String

-- A row of `Account`.
pub record Account : Type 0 where
  pub user_id : String
  pub account_id : String
  pub provider_id : String
  pub password : Option String

pub record Db : Type 0 where
  pub users : List User
  pub accounts : List Account

pub data Endpoint : Type 0 where
  sign_in_email sign_up_email elsewhere : Endpoint

-- A request to the auth endpoints; a body field that is no text counts as missing.
pub record Request : Type 0 where
  pub path : Endpoint
  pub email : Option String
  pub password : Option String
  pub totp_code : Option String

pub data AuthError : Type 0 where
  credentials_disabled use_registration_page too_many_requests second_factor_required : AuthError
  internal_server_error decryption_failed incorrect_two_factor_code : AuthError

-- The hook lets the request pass, or throws.
pub data Verdict : Type 0 where
  pass : Verdict
  throw : AuthError → Verdict

pub record Settings : Type 0 where
  pub max_attempts : ℕ
  pub cooldown : ℕ
  pub oauth_exclusive : Bool
  pub has_secret : Bool

-- What the hook uses of other packages, and of the language's Unicode tables.
pub record Services : Type 0 where
  pub normalize_email : String → String
  pub compare : String → String → Bool
  pub decrypt : String → Option String
  pub check_totp : String → String → Bool

-- `prisma.user.update` by id.
pub update_user : String → (User → User) → Db → Db
update_user id f db = record db { users = map (λ u. if str_eq u.id id then f u else u) db.users }

abbrev pub record_failure : ℕ → User → User
record_failure now u = record u {
  failed_login_attempts = u.failed_login_attempts + 1;
  last_failed_login_attempt = some now;
}

abbrev pub clear_failures : User → User
clear_failures u = record u { failed_login_attempts = 0; last_failed_login_attempt = none }

-- Where the counter stands: below the limit, in the cooldown, or past it.
pub data Lock : Type 0 where
  unlocked locked elapsed : Lock

abbrev pub lock_since : Settings → ℕ → ℕ → Option ℕ → Lock
lock_since settings now attempts none = unlocked
lock_since settings now attempts (some last) =
    if leb settings.max_attempts attempts
    then (if ltb now (last + settings.cooldown) then locked else elapsed)
    else unlocked

pub lock_of : Settings → ℕ → User → Lock
lock_of settings now u = lock_since settings now u.failed_login_attempts u.last_failed_login_attempt

abbrev has_account : String → List Account → Bool
has_account user_id [] = false
has_account user_id (a ∷ accounts) =
    (str_eq a.user_id user_id && str_eq a.provider_id "credential") || has_account user_id accounts

abbrev is_key : String → Account → Bool
is_key user_id a = str_eq a.provider_id "credential" && str_eq a.account_id user_id

-- `prisma.account.upsert` on the provider and the account id.
abbrev upsert_account : String → String → List Account → List Account
upsert_account user_id hash [] =
    record {
      user_id = user_id;
      account_id = user_id;
      provider_id = "credential";
      password = some hash;
    }
    ∷ []
upsert_account user_id hash (a ∷ accounts) =
    if is_key user_id a
    then record a { password = some hash } ∷ accounts
    else a ∷ upsert_account user_id hash accounts

-- Step 3: the credential account is made for a user that has a hash and no account.
pub backfill_account : User → Db → Db
backfill_account u db = elim u.hash [
  | none ↦ db
  | some hash ↦
      if not (has_account u.id db.accounts) && not (str_eq hash "")
      then record db { accounts = upsert_account u.id hash db.accounts }
      else db
]

-- A password is compared only where one is given and the user has a hash.
pub is_wrong : Services → Option String → Option String → Bool
is_wrong services none hash = false
is_wrong services (some password) none = false
is_wrong services (some password) (some hash) =
    not (str_eq hash "") && not (services.compare password hash)

abbrev pub code_of : Option String → String
code_of none = ""
code_of (some s) = s

pub find_user : String → Db → Option User
find_user email db = find (λ u. str_eq u.email email) db.users

module _ (services : Services) (settings : Settings) (now : ℕ) where
  -- The second factor, once its secret is decrypted.
  pub check_code : User → String → Option String → Db → Db × Verdict
  check_code u totp_code none db = (db, throw decryption_failed)
  check_code u totp_code (some secret) db =
      if utf16_length (codes secret) == 32
      then (if services.check_totp totp_code secret
          then (db, pass)
          else (update_user u.id (record_failure now) db, throw incorrect_two_factor_code))
      else (db, throw internal_server_error)

  -- Step 4.
  pub second_factor : User → Option String → Db → Db × Verdict
  unfolding check_code
  second_factor u totp_code db =
      if u.two_factor_enabled
      then (if not (truthy totp_code)
          then (db, throw second_factor_required)
          else if not (truthy u.two_factor_secret) || not settings.has_secret
          then (db, throw internal_server_error)
          else check_code u (code_of totp_code) (services.decrypt (code_of u.two_factor_secret)) db)
      else (db, pass)

  -- Steps 2 to 4, after the cooldown check.
  pub try_credentials : User → Request → Db → Db × Verdict
  unfolding is_wrong backfill_account second_factor
  try_credentials u req db =
      if is_wrong services req.password u.hash
      then (update_user u.id (record_failure now) db, pass)
      else second_factor u req.totp_code (backfill_account u db)

  -- Step 1 and what follows, for the user that was found.
  pub sign_in : User → Request → Db → Db × Verdict
  sign_in u req db = elim (lock_of settings now u) [
    | locked ↦ (db, throw too_many_requests)
    | elapsed ↦ try_credentials u req (update_user u.id clear_failures db)
    | unlocked ↦ try_credentials u req db
  ]

  pub sign_in_by_email : Request → Db → Option String → Db × Verdict
  sign_in_by_email req db none = (db, pass)
  sign_in_by_email req db (some raw_email) =
      let email = services.normalize_email raw_email in
      if str_eq email ""
      then (db, pass)
      else elim (find_user email db) [ none ↦ (db, pass) | some u ↦ sign_in u req db ]

  abbrev is_credentials : Endpoint → Bool
  is_credentials elsewhere = false
  is_credentials _ = true

  -- `runBeforeAuthHook`, with no other request between its reading of the user and its writing.
  pub run_before_auth_hook : Request → Db → Db × Verdict
  unfolding sign_in_by_email
  run_before_auth_hook req db =
      if settings.oauth_exclusive && is_credentials req.path
      then (db, throw credentials_disabled)
      else elim req.path [
        | sign_up_email ↦ (db, throw use_registration_page)
        | elsewhere ↦ (db, pass)
        | sign_in_email ↦ sign_in_by_email req db req.email
      ]
