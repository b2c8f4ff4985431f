-- ===== src/Password/Reset.antt =====
-- services/ztnet/src/server/api/routers/authRouter.ts: `validateResetPasswordToken`, `passwordResetLink` and
-- `changePasswordFromJwt`, and the runs of these with `register` and `update`. The request limits and the
-- mails are not here; a mail that fails leaves the row of its link.
use docker_zerotier_planet.Common.{
  ℕ, ◌+◌, ◌*◌, String, ◌≡◌, Bool, false, not, ◌&&◌, Option, none, some, List, [], ◌∷◌, ◌++◌, str_eq,
  ltb, ◌==◌, if◌then◌else◌, any, Result, filter, codes, utf16_length, ok, find, err, count,
}
use docker_zerotier_planet.Account.{User, upsert_credential_account, update_user}
use docker_zerotier_planet.Registration
use docker_zerotier_planet.Registration.{Passed}
use docker_zerotier_planet.Registration.Commit.{commit}
use docker_zerotier_planet.Password.{
  Db, Services, Refusal, Claims, Verification, notify, find_user, update, Update, token_not_valid,
  token_required, not_repeated, constraint_failed, weak_password, password_meets_policy,
}

module _ (services : Services) where
  -- `resetTokenRecord`, on a row.
  abbrev pub is_record : ℕ → String → String → Verification → Bool
  is_record now token user_id r =
      str_eq r.user_id user_id && str_eq r.value (services.digest token) && ltb now r.expires_at

  -- The user of a token, if the email in it is still theirs.
  unfoldable pub bound_user : Db → Option Claims → Option User
  bound_user db none = none
  bound_user db (some claims) = elim (find_user claims.id db.base.users) [
    | none ↦ none
    | some u ↦
        if str_eq (services.normalize_email u.email) (services.normalize_email claims.email)
        then some u
        else none
  ]

  -- `validateResetPasswordToken`: the email for the form, or that the token is invalid.
  unfoldable pub validate_reset_password_token : ℕ → String → Db → Option String
  validate_reset_password_token now token db = elim (bound_user db (services.verify now token)) [
    | none ↦ none
    | some u ↦
        if not (str_eq token "") && any (is_record now token u.id) db.verifications
        then some u.email
        else none
  ]

  -- `passwordResetLink`: a row for 15 minutes, unless that row is there, where the token has a random id.
  unfoldable pub password_reset_link : ℕ → String → String → Db → Result Refusal Db
  password_reset_link now uuid email db = elim (find (λ u. str_eq u.email email) db.base.users) [
    | none ↦ ok db
    | some u ↦
        (let value =
            services.digest (services.sign (record { id = u.id; email = u.email }) now uuid) in
          if any (λ r. str_eq r.user_id u.id && str_eq r.value value) db.verifications
          then err constraint_failed
          else ok (record db {
            verifications =
                db.verifications
                ++ record { user_id = u.id; value = value; expires_at = now + 15 * 60 * 1000 } ∷ [];
          }))
  ]

  -- The writes of `changePasswordFromJwt`, once the link's row is deleted.
  abbrev pub reset_password : ℕ → String → String → String → User → Db → Db
  reset_password now token password key u db =
      let hash = services.hash_password password in
      record db {
        base = record db.base {
          users =
              update_user u.id
                (λ v. record v {
                  hash = some hash;
                  request_change_password = false;
                  failed_login_attempts = 0;
                  last_failed_login_attempt = none;
                })
                db.base.users;
          accounts = upsert_credential_account u.id hash db.base.accounts;
        };
        verifications = filter (λ r. not (is_record now token u.id r)) db.verifications;
        sessions = filter (λ x. not (str_eq x.user_id u.id)) db.sessions;
        outbox = notify services services.notify_reset u key db.outbox;
      }

  -- The transaction: it stands only if exactly one row of the link was deleted.
  unfoldable pub consume_link : ℕ → String → String → String → Option User → Db → Result Refusal Db
  consume_link now token password key none db = err token_not_valid
  consume_link now token password key (some u) db =
      if count (is_record now token u.id) db.verifications == 1
      then ok (reset_password now token password key u db)
      else err token_not_valid

  -- `passwordSchema`: the policy bounds the length as well.
  abbrev pub is_password : String → Bool
  is_password password =
      not (ltb 128 (utf16_length (codes password)))
      && password_meets_policy (codes password) services.policy

  -- `changePasswordFromJwt`: the input is validated first.
  unfoldable pub change_password_from_jwt :
      ℕ → String → String → String → String → Db → Result Refusal Db
  change_password_from_jwt now token password new_password key db =
      if not (is_password password && is_password new_password)
      then err weak_password
      else if str_eq token ""
      then err token_required
      else if not (str_eq password new_password)
      then err not_repeated
      else consume_link now token password key (bound_user db (services.verify now token)) db

-- What a request does to the passwords and the links.
pub data Event : Type 0 where
  other : Event
  issued reset : String → String → Event

-- The requests in any order, each of them at once: a registration that is committed, an update of a
-- profile, a link, and a reset by a link. `issued` and `reset` tell the user and the digest of the token.
pub data Step (rs : Registration.Services) (services : Services) (db : Db)
    : Event → Db → Type 0 where
  registered :
      {base : Registration.Db} (now : ℕ) (fresh_id : String) (p : Passed)
      → commit rs now fresh_id db.base p ≡ ok base
      → Step rs services db other (record db { base = base })
  updated :
      {db' : Db} (session_user : String) (input : Update) (key : String)
      → update services session_user input key db ≡ ok db'
      → Step rs services db other db'
  linked :
      {db' : Db} (now : ℕ) (uuid email : String) (u : User)
      → find (λ v. str_eq v.email email) db.base.users ≡ some u
      → password_reset_link services now uuid email db ≡ ok db'
      → Step rs services db
          (issued u.id
            (services.digest (services.sign (record { id = u.id; email = u.email }) now uuid)))
          db'
  changed :
      {db' : Db} (now : ℕ) (token password new_password key : String) (u : User)
      → bound_user services db (services.verify now token) ≡ some u
      → change_password_from_jwt services now token password new_password key db ≡ ok db'
      → Step rs services db (reset u.id (services.digest token)) db'

-- A run, with its events, the last one first.
pub data Runs (rs : Registration.Services) (services : Services) (db : Db)
    : List Event → Db → Type 0 where
  idle : Runs rs services db [] db
  next :
      {events : List Event} {e : Event} {db' db'' : Db}
      → Runs rs services db events db'
      → Step rs services db' e db''
      → Runs rs services db (e ∷ events) db''
