-- ===== src/Password/Mirror.antt =====
-- Who signs in with which password: the hash of a user and the row that sign-in reads stay the same.
use docker_zerotier_planet.Common.{
  ℕ, String, ◌≡◌, refl, ◌∙◌, inl, inr, false, ◌||◌, some, List, [], ◌∷◌, arith, str_eq, eq_iff,
  Bool-cases, All, any, ok, truthy, All-append, All-find, eq_refl,
}
use docker_zerotier_planet.Registration
use docker_zerotier_planet.Registration.{Passed}
use docker_zerotier_planet.Registration.Commit.{commit}
use docker_zerotier_planet.Registration.Laws.{commit-Committed}
use docker_zerotier_planet.Account.{User, CredentialAccount, upsert_credential_account, update_user}
use docker_zerotier_planet.Account.Laws.{
  IsMirrored, update-IsMirrored, create-IsMirrored, password_of-upsert,
}
use docker_zerotier_planet.Password.{Db, Services, find_user, Update, apply_update}
use docker_zerotier_planet.Password.Reset.{
  Event, Step, registered, updated, linked, changed, Runs, idle, next,
}
use docker_zerotier_planet.Password.Laws.{update_done, link_done, change_done}

-- Every user that has a hash signs in with it.
abbrev pub HasMirror : Registration.Db → Type 0
HasMirror db = All (IsMirrored db.accounts) db.users

not_used :
    (id email : String) (users : List User)
    → any (λ u. str_eq id u.id || str_eq email u.email) users ≡ false
    → All (λ u. str_eq id u.id ≡ false) users
not_used id email [] h = tt
not_used id email (u ∷ users) h = (ground arith, not_used id email users (ground arith))

-- Writing back the hash that a user of this id has.
written_back :
    (u : User) (f : User → User) (accounts : List CredentialAccount)
    → IsMirrored accounts u
    → ((v : User) → (f v).id ≡ v.id)
    → ((v : User) → (f v).hash ≡ u.hash)
    → (users : List User) → All (IsMirrored accounts) users
    → All (IsMirrored accounts) (update_user u.id f users)
written_back u f accounts m keeps writes [] v = v
written_back u f accounts m keeps writes (w ∷ users) (first, rest) = (
  elim (Bool-cases (str_eq w.id u.id)) [
    | inl same ↦ rw (same, keeps w, writes w, (eq_iff w.id u.id).0 same) m
    | inr differ ↦ rw differ first
  ],
  written_back u f accounts m keeps writes users rest,
)

register-HasMirror :
    (rs : Registration.Services) (now : ℕ) (fresh_id : String) (p : Passed) (db : Registration.Db)
    {db' : Registration.Db}
    → HasMirror db
    → commit rs now fresh_id db p ≡ ok db'
    → HasMirror db'
register-HasMirror rs now fresh_id p db {db'} v h =
    let c = commit-Committed rs now fresh_id db p h in
    let hash = rs.hash_password p.request.password in
    rw (c.users_eq, c.accounts_eq)
      (All-append (IsMirrored (upsert_credential_account fresh_id hash db.accounts)) db.users
        (create-IsMirrored fresh_id hash db.accounts db.users
          (not_used fresh_id p.request.email db.users c.new_id) v)
        (λ k e. password_of-upsert fresh_id fresh_id hash db.accounts ∙ rw (eq_refl fresh_id) e))

module _ (services : Services) where
  update-HasMirror :
      (u : User) (session_user : String) (input : Update) (key : String) (db : Db)
      → find_user session_user db.base.users ≡ some u
      → HasMirror db.base
      → HasMirror (apply_update services u input key db).base
  unfolding apply_update
  update-HasMirror u session_user input key db found v =
      elim (Bool-cases (truthy input.new_password)) [
        | inl given ↦
            rw given
              (update-IsMirrored u.id _ _ (λ w. refl) (λ w. refl) db.base.accounts db.base.users v)
        | inr kept ↦ rw kept (
            written_back u _ db.base.accounts
              (All-find (IsMirrored db.base.accounts) _ db.base.users v found) (λ w. refl)
              (λ w. refl) db.base.users v)
      ]

module _ (rs : Registration.Services) (services : Services) where
  step-HasMirror :
      {db db' : Db} {e : Event} → HasMirror db.base → Step rs services db e db' → HasMirror db'.base
  step-HasMirror v (registered now fresh_id p h) = register-HasMirror rs now fresh_id p _ v h
  step-HasMirror {db} v (updated session_user input key h) =
      let (u, found, checked, done) = update_done services session_user input key db h in
      rw done (update-HasMirror services u session_user input key db found v)
  step-HasMirror {db} v (linked now uuid email u found h) =
      let (same, rows) = link_done services now uuid email db found h in rw same v
  step-HasMirror {db} v (changed now token password new_password key u bound h) =
      let (w, bound', one, done) = change_done services now token password new_password key db h in
      rw done (update-IsMirrored w.id _ _ (λ x. refl) (λ x. refl) db.base.accounts db.base.users v)

  -- In every run of registrations, updates, links and resets, each of them at once, every user that has
  -- a hash signs in with it, if that was so at the start.
  pub sign_in_follows_hash :
      {db : Db} {events : List Event} {db' : Db}
      → HasMirror db.base
      → Runs rs services db events db'
      → HasMirror db'.base
  sign_in_follows_hash v idle = v
  sign_in_follows_hash v (next r s) = step-HasMirror (sign_in_follows_hash v r) s
