-- ===== src/Account/Laws.antt =====
-- The hash of a user and the password that sign-in reads are the same.
use docker_zerotier_planet.Common.{
  String, ◌≡◌, refl, inl, inr, false, some, List, [], ◌∷◌, arith, str_eq, eq_iff, if◌then◌else◌,
  Bool-cases, All,
}
use docker_zerotier_planet.Account.{
  User, CredentialAccount, upsert_credential_account, update_user, password_of,
}

pub password_of-upsert :
    (j id hash : String) (accounts : List CredentialAccount)
    → password_of j (upsert_credential_account id hash accounts)
      ≡ (if str_eq id j then some hash else password_of j accounts)
unfolding upsert_credential_account
password_of-upsert j id hash [] = refl
password_of-upsert j id hash (a ∷ accounts) = ground (
  arith,
  eq_iff a.user_id id,
  eq_iff a.user_id j,
  eq_iff id j,
  password_of-upsert j id hash accounts,
)

-- A user that has a hash signs in with it.
abbrev pub IsMirrored : List CredentialAccount → User → Type 0
IsMirrored accounts u = (h : String) → u.hash ≡ some h → password_of u.id accounts ≡ some h

-- Writing the hash of all users with an id, and their account, keeps all users mirrored.
pub update-IsMirrored :
    (id hash : String) (f : User → User)
    → ((u : User) → (f u).id ≡ u.id)
    → ((u : User) → (f u).hash ≡ some hash)
    → (accounts : List CredentialAccount) (users : List User) → All (IsMirrored accounts) users
    → All (IsMirrored (upsert_credential_account id hash accounts)) (update_user id f users)
update-IsMirrored id hash f keeps writes accounts [] v = v
update-IsMirrored id hash f keeps writes accounts (u ∷ users) (first, rest) = (
  elim (Bool-cases (str_eq u.id id)) [
    | inl same ↦
        rw (same, keeps u, password_of-upsert u.id id hash accounts, writes u)
          (λ h e. ground (arith, eq_iff u.id id, eq_iff id u.id))
    | inr differ ↦
        rw (differ, password_of-upsert u.id id hash accounts)
          (λ h e. ground (arith, eq_iff u.id id, eq_iff id u.id, first h e))
  ],
  update-IsMirrored id hash f keeps writes accounts users rest,
)

-- A new user with the id that its account has joins the mirrored ones.
pub create-IsMirrored :
    (id hash : String) (accounts : List CredentialAccount) (users : List User)
    → All (λ u. str_eq id u.id ≡ false) users
    → All (IsMirrored accounts) users
    → All (IsMirrored (upsert_credential_account id hash accounts)) users
create-IsMirrored id hash accounts [] fresh v = v
create-IsMirrored id hash accounts (u ∷ users) (new, fresh) (first, rest) = (
  rw (password_of-upsert u.id id hash accounts, new) first,
  create-IsMirrored id hash accounts users fresh rest,
)
