-- ===== src/Account.antt =====
-- The rows of an account: a user, and the password row that sign-in reads, with
-- `upsertCredentialAccount` of services/ztnet/src/server/api/services/credentialAccountService.ts.
pub mod Laws
use docker_zerotier_planet.Common.{
  ℕ, zero, suc, ◌+◌, ◌-◌, ◌*◌, ◌≤◌, ◌<◌, String, ◌≡◌, refl, sym, ap, ◌∙◌, subst, ◌≢◌, ◌↔◌, ◌⊎◌, inl,
  inr, Bool, true, false, not, ◌&&◌, ◌||◌, Option, none, some, List, [], ◌∷◌, ◌++◌, map, arith,
  str_eq, eq_iff, ltb, leb, ◌==◌, if◌then◌else◌, Bool-cases, Option-cases,
}
use docker_zerotier_planet.Access.{Role}

-- The columns of `User` that registration and the password operations write.
pub record User : Type 0 where
  pub id : String
  pub email : String
  pub name : String
  pub role : Role
  pub hash : Option String
  pub expires_at : Option ℕ
  pub last_login : ℕ
  pub user_group_id : Option ℕ
  pub request_change_password : Bool
  pub failed_login_attempts : ℕ
  pub last_failed_login_attempt : Option ℕ

-- A row of `Account` of the provider `credential`, where the account's id is the user's.
pub record CredentialAccount : Type 0 where
  pub user_id : String
  pub password : String

-- `upsertCredentialAccount`: provider and account are unique together.
unfoldable pub upsert_credential_account :
    String → String → List CredentialAccount → List CredentialAccount
upsert_credential_account user_id password_hash [] =
    record { user_id = user_id; password = password_hash } ∷ []
upsert_credential_account user_id password_hash (a ∷ accounts) =
    if str_eq a.user_id user_id
    then record a { password = password_hash } ∷ accounts
    else a ∷ upsert_credential_account user_id password_hash accounts

-- `prisma.user.update` by id.
abbrev pub update_user : String → (User → User) → List User → List User
update_user id f users = map (λ u. if str_eq u.id id then f u else u) users

-- The password that a sign-in with this user's id is compared to.
abbrev pub password_of : String → List CredentialAccount → Option String
password_of user_id [] = none
password_of user_id (a ∷ accounts) =
    if str_eq a.user_id user_id then some a.password else password_of user_id accounts
