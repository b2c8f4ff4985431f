-- ===== src/Password/Laws.antt =====
-- What a request on a password that succeeds has checked and done.
use docker_zerotier_planet.Common.{
  ℕ, ◌+◌, ◌*◌, String, ◌≡◌, refl, sym, ap, false, not, ◌&&◌, Option, none, some, [], ◌∷◌, ◌++◌,
  arith, str_eq, ◌==◌, ok, find, >>=-eq-ok, else_ok, count, ok_inj, then_ok, any,
}
use docker_zerotier_planet.Account.{User}
use docker_zerotier_planet.Password.{
  Db, Services, find_user, Update, check_update, apply_update, update_found, update,
  constraint_failed, token_required, not_repeated, token_not_valid, weak_password,
}
use docker_zerotier_planet.Password.Reset.{
  is_record, bound_user, password_reset_link, consume_link, reset_password,
  change_password_from_jwt,
}

module _ (services : Services) where
  update-found :
      (found : Option User) (input : Update) (key : String) (db : Db) {db' : Db}
      → update_found services found input key db ≡ ok db'
      → (u : User) × (found ≡ some u)
        × (check_update services u input ≡ ok tt)
        × (db' ≡ apply_update services u input key db)
  unfolding update_found
  update-found none input key db h = cc h
  update-found (some u) input key db h =
      let (tt, checked, h0) = >>=-eq-ok h in
      let (free, h1) = else_ok _ _ h0 in (u, refl, checked, sym (ok_inj h1))

  pub update_done :
      (session_user : String) (input : Update) (key : String) (db : Db) {db' : Db}
      → update services session_user input key db ≡ ok db'
      → (u : User) × (find_user session_user db.base.users ≡ some u)
        × (check_update services u input ≡ ok tt)
        × (db' ≡ apply_update services u input key db)
  unfolding update
  update_done session_user input key db h = update-found _ input key db h

  pub link_done :
      (now : ℕ) (uuid email : String) (db : Db) {db' : Db} {u : User}
      → find (λ v. str_eq v.email email) db.base.users ≡ some u
      → password_reset_link services now uuid email db ≡ ok db'
      → (db'.base ≡ db.base)
        × (db'.verifications
            ≡ db.verifications
              ++ record {
                user_id = u.id;
                value =
                    services.digest
                      (services.sign (record { id = u.id; email = u.email }) now uuid);
                expires_at = now + 15 * 60 * 1000;
              }
                ∷ [])
  unfolding password_reset_link
  link_done now uuid email db {u} found h =
      let (fresh, h0) =
        else_ok
          (any
            (λ r.
              str_eq r.user_id u.id
              && str_eq r.value (
                  services.digest (services.sign (record { id = u.id; email = u.email }) now uuid)))
            db.verifications)
          constraint_failed (rw (found, password_reset_link) at h) in
      (
        ap (λ (d : Db). d.base) (sym (ok_inj h0)),
        ap (λ (d : Db). d.verifications) (sym (ok_inj h0)),
      )

  consume-found :
      (now : ℕ) (token password key : String) (found : Option User) (db : Db) {db' : Db}
      → consume_link services now token password key found db ≡ ok db'
      → (u : User) × (found ≡ some u)
        × (count (is_record services now token u.id) db.verifications ≡ 1)
        × (db' ≡ reset_password services now token password key u db)
  unfolding consume_link
  consume-found now token password key none db h = cc h
  consume-found now token password key (some u) db h =
      let (one, h0) =
        then_ok (count (is_record services now token u.id) db.verifications == 1) token_not_valid
          h in
      (u, refl, ground arith, sym (ok_inj h0))

  pub change_done :
      (now : ℕ) (token password new_password key : String) (db : Db) {db' : Db}
      → change_password_from_jwt services now token password new_password key db ≡ ok db'
      → (u : User) × (bound_user services db (services.verify now token) ≡ some u)
        × (count (is_record services now token u.id) db.verifications ≡ 1)
        × (db' ≡ reset_password services now token password key u db)
  unfolding change_password_from_jwt
  change_done now token password new_password key db h =
      let (strong, h') = else_ok _ weak_password h in
      let (given, h0) = else_ok (str_eq token "") token_required h' in
      let (same, h1) = else_ok (not (str_eq password new_password)) not_repeated h0 in
      consume-found now token password key _ db h1

  pub change_token :
      (now : ℕ) (token password new_password key : String) (db : Db) {db' : Db}
      → change_password_from_jwt services now token password new_password key db ≡ ok db'
      → str_eq token "" ≡ false
  unfolding change_password_from_jwt
  change_token now token password new_password key db h =
      let (strong, h') = else_ok _ weak_password h in
      (else_ok (str_eq token "") token_required h').0
