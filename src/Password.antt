-- ===== src/Password.antt =====
-- services/ztnet/src/server/api/routers/authRouter.ts: the rows that the operations on a password write,
-- and `update` from the profile. The operations by a link are in Reset. The request limits are not here.
pub mod Reset
pub mod Checks
pub mod Mirror
pub mod Once
pub mod Laws
mod Tests
use docker_zerotier_planet.Common.{
  ℕ, zero, suc, ◌+◌, ◌-◌, ◌*◌, ◌≤◌, ◌<◌, String, ◌≡◌, refl, sym, ap, ◌∙◌, subst, ◌≢◌, ◌↔◌, ◌⊎◌, inl,
  inr, Bool, true, false, not, ◌&&◌, ◌||◌, Option, none, some, List, [], ◌∷◌, ◌++◌, map, arith,
  str_eq, eq_iff, ltb, leb, ◌==◌, if◌then◌else◌, Bool-cases, Option-cases, find, Result, truthy,
  err, codes, ◌>>=◌, ok, any, filter, count,
}
use docker_zerotier_planet.Account.{User, CredentialAccount, upsert_credential_account, update_user}
use docker_zerotier_planet.Limits.{PasswordPolicy, password_meets_policy}
use docker_zerotier_planet.Outbox.{Outbox, Delivery, Options, enqueue_notification}
use docker_zerotier_planet.Registration
use docker_zerotier_planet.Registration.{Passed}
use docker_zerotier_planet.Registration.Commit.{commit}

-- A row of `Verification` under the prefix of the password links, which is left out of its identifier.
pub record Verification : Type 0 where
  pub user_id : String
  pub value : String
  pub expires_at : ℕ

-- A row of `Session`.
pub record Session : Type 0 where
  pub id : String
  pub user_id : String

-- `base` holds the users and their password rows.
pub record Db : Type 0 where
  pub base : Registration.Db
  pub verifications : List Verification
  pub sessions : List Session
  pub outbox : Outbox

pub record Claims : Type 0 where
  pub id : String
  pub email : String

-- `verify` is `jwt.verify` at a time, on a payload with two texts; `sign` takes the time and a random id.
pub record Services : Type 0 where
  pub normalize_email : String → String
  pub hash_password : String → String
  pub compare : String → String → Bool
  pub verify : ℕ → String → Option Claims
  pub sign : Claims → ℕ → String → String
  pub digest : String → String
  pub policy : PasswordPolicy
  pub notifications : Option Options
  pub notify_changed : Bool
  pub notify_reset : Bool
  pub message : User → String → Delivery

pub data Refusal : Type 0 where
  user_not_found missing_fields weak_password wrong_password not_repeated : Refusal
  token_required token_not_valid constraint_failed : Refusal

abbrev pub find_user : String → List User → Option User
find_user id users = find (λ u. str_eq u.id id) users

-- `accountNotification` in the transaction, whose row is rendered under a fresh key.
abbrev pub notify : Services → Bool → User → String → Outbox → Outbox
notify services template_enabled u key outbox =
    enqueue_notification services.notifications template_enabled (services.message u key) outbox

pub record Update : Type 0 where
  pub email : Option String
  pub password : Option String
  pub new_password : Option String
  pub repeat_new_password : Option String
  pub name : Option String

abbrev pub or_else : Option String → String → String
or_else none old = old
or_else (some s) old = if str_eq s "" then old else s

abbrev pub text_of : Option String → String
text_of none = ""
text_of (some s) = s

module _ (services : Services) where
  -- The old password of a user that has one, and an empty hash is none.
  abbrev pub is_old_password : Option String → Option String → Bool
  is_old_password password none = true
  is_old_password password (some hash) = str_eq hash "" || services.compare (text_of password) hash

  -- The conditions of `update` on a new password.
  unfoldable pub check_update : User → Update → Result Refusal (Unit {0})
  check_update u input =
      if truthy input.new_password || truthy input.repeat_new_password || truthy input.password
      then (if not (truthy input.new_password)
            || not (truthy input.repeat_new_password)
            || (not (truthy input.password) && truthy u.hash)
          then err missing_fields
          else if not (password_meets_policy (codes (text_of input.new_password)) services.policy)
          then err weak_password
          else if not (is_old_password input.password u.hash)
          then err wrong_password
          else if not (str_eq (text_of input.new_password) (text_of input.repeat_new_password))
          then err not_repeated
          else ok tt)
      else ok tt

  abbrev pub profile : User → Update → User → User
  profile old input u = record u {
    email = or_else input.email old.email;
    name = or_else input.name old.name;
  }

  -- The transaction of `update`: without a new password the hash that was read is written back.
  unfoldable pub apply_update : User → Update → String → Db → Db
  apply_update u input key db =
      if truthy input.new_password
      then (let hash = services.hash_password (text_of input.new_password) in
          record db {
            base = record db.base {
              users =
                  update_user u.id
                    (λ v. record (profile u input v) {
                      hash = some hash;
                      request_change_password = false;
                    })
                    db.base.users;
              accounts = upsert_credential_account u.id hash db.base.accounts;
            };
            outbox = notify services services.notify_changed u key db.outbox;
          })
      else record db {
        base = record db.base {
          users =
              update_user u.id
                (λ v. record (profile u input v) {
                  hash = u.hash;
                  request_change_password = u.request_change_password;
                })
                db.base.users;
        };
      }

  unfoldable pub update_found : Option User → Update → String → Db → Result Refusal Db
  update_found none input key db = err user_not_found
  update_found (some u) input key db = check_update u input >>= λ _.
      if any (λ v. not (str_eq v.id u.id) && str_eq v.email (or_else input.email u.email))
        db.base.users
      then err constraint_failed
      else ok (apply_update u input key db)

  -- `update`, of the session's user, with no other request in between.
  unfoldable pub update : String → Update → String → Db → Result Refusal Db
  update session_user input key db =
      update_found (find_user session_user db.base.users) input key db
