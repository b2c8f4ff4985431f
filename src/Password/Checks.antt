-- ===== src/Password/Checks.antt =====
-- Which requests change a password.
use docker_zerotier_planet.Common.{
  ℕ, ◌≤◌, String, ◌≡◌, refl, sym, ap, ◌∙◌, subst, ◌≢◌, ◌↔◌, inl, inr, true, false, not, ◌&&◌, ◌||◌,
  some, List, arith, str_eq, eq_iff, if◌then◌else◌, Bool-cases, Option-cases, count, any,
  count_mono, ok, any-count, eq_refl, truthy, codes, else_ok, find-map-some, update_keeps,
  find_holds,
}
use docker_zerotier_planet.Account.{User, update_user}
use docker_zerotier_planet.Password.{
  Db, Services, Verification, find_user, Update, check_update, apply_update, update,
  is_old_password, text_of, password_meets_policy, profile, missing_fields, weak_password,
  wrong_password,
}
use docker_zerotier_planet.Password.Reset.{
  is_record, bound_user, validate_reset_password_token, change_password_from_jwt, consume_link,
  reset_password, is_password,
}
use docker_zerotier_planet.Password.Once.{is_link}
use docker_zerotier_planet.Password.Laws.{update_done, change_done, change_token}

module _ (services : Services) (now : ℕ) (token : String) where
  one_record :
      (user_id : String) (rows : List Verification)
      → ((value : String) → count (is_link user_id value) rows ≤ 1)
      → any (is_record services now token user_id) rows ≡ true
      → count (is_record services now token user_id) rows ≡ 1
  one_record user_id rows unique found = ground (
    arith,
    unique (services.digest token),
    count_mono (is_record services now token user_id) (is_link user_id (services.digest token))
        (λ r h. ground arith) rows,
    any-count (is_record services now token user_id) rows,
  )

  validated :
      (db : Db) {e : String}
      → validate_reset_password_token services now token db ≡ some e
      → (u : User) × (bound_user services db (services.verify now token) ≡ some u)
        × (str_eq token "" ≡ false)
        × (any (is_record services now token u.id) db.verifications ≡ true)
  unfolding validate_reset_password_token
  validated db h = elim (Option-cases (bound_user services db (services.verify now token))) [
    | inl gone ↦ (let no = rw (gone, validate_reset_password_token) at h in cc no)
    | inr (u, bound) ↦
        (let yes = rw (bound, validate_reset_password_token) at h in
          (u, bound, ground arith, ground arith))
  ]

  validate_valid :
      (db : Db) (u : User)
      → bound_user services db (services.verify now token) ≡ some u
      → str_eq token "" ≡ false
      → any (is_record services now token u.id) db.verifications ≡ true
      → validate_reset_password_token services now token db ≡ some u.email
  unfolding validate_reset_password_token
  validate_valid db u bound given found =
      rw (bound, validate_reset_password_token, given, found) refl

  -- Where the rows of a link are unique, the form says that a token is valid exactly if a change with it
  -- to a password that meets the policy, given twice alike, goes through at the same time.
  pub validate_iff_change :
      (db : Db) (password key : String)
      → ((user_id value : String) → count (is_link user_id value) db.verifications ≤ 1)
      → is_password services password ≡ true
      → ((e : String) × (validate_reset_password_token services now token db ≡ some e)) ↔ (
          (db' : Db) × (change_password_from_jwt services now token password password key db
            ≡ ok db'))
  unfolding change_password_from_jwt consume_link
  validate_iff_change db password key unique strong = (
    λ (e, h).
        (let (u, bound, given, found) = validated db h in
          (
            reset_password services now token password key u db,
            rw
                (
                  strong,
                  given,
                  eq_refl password,
                  bound,
                  one_record u.id db.verifications (unique u.id) found,
                )
                refl,
          )),
    λ (db', h).
        (let (u, bound, one, done) = change_done services now token password password key db h in
          let given = change_token services now token password password key db h in
          let found : any (is_record services now token u.id) db.verifications ≡ true =
            ground (arith, one, any-count (is_record services now token u.id) db.verifications) in
          (u.email, validate_valid db u bound given found)),
  )

module _ (services : Services) where
  old_password_given :
      (u : User) (input : Update)
      → check_update services u input ≡ ok tt
      → truthy input.new_password ≡ true
      → (is_old_password services input.password u.hash ≡ true)
        × (password_meets_policy (codes (text_of input.new_password)) services.policy ≡ true)
  unfolding check_update
  old_password_given u input h given =
      let (filled, h0) =
        else_ok
          (not (truthy input.repeat_new_password) || (not (truthy input.password) && truthy u.hash))
          missing_fields (rw given at h) in
      let (strong, h1) =
        else_ok (not (password_meets_policy (codes (text_of input.new_password)) services.policy))
          weak_password h0 in
      let (old, h2) =
        else_ok (not (is_old_password services input.password u.hash)) wrong_password h1 in
      (ground arith, ground arith)

  -- What an update makes of its user.
  written : User → Update → User → User
  written w input x =
      if truthy input.new_password
      then record (profile services w input x) {
        hash = some (services.hash_password (text_of input.new_password));
        request_change_password = false;
      }
      else record (profile services w input x) {
        hash = w.hash;
        request_change_password = w.request_change_password;
      }

  apply_update-users :
      (w : User) (input : Update) (key : String) (db : Db)
      → (apply_update services w input key db).base.users
        ≡ update_user w.id (written w input) db.base.users
  unfolding apply_update written
  apply_update-users w input key db = elim (Bool-cases (truthy input.new_password)) [
    | inl given ↦ rw given refl
    | inr kept ↦ rw kept refl
  ]

  written_id : (w : User) (input : Update) (x : User) → (written w input x).id ≡ x.id
  unfolding written
  written_id w input x = ground arith

  written_kept :
      (w : User) (input : Update) (x : User)
      → truthy input.new_password ≡ false
      → (written w input x).hash ≡ w.hash
  unfolding written
  written_kept w input x kept = rw kept refl

  same_found :
      (users : List User) {id : String} {u w : User}
      → u.id ≡ id
      → find_user u.id users ≡ some u
      → find_user id users ≡ some w
      → u ≡ w
  same_found users {u = u} {w = w} ids before found =
      let again : find_user u.id users ≡ some w =
        subst (λ i. find_user i users ≡ some w) (sym ids) found in
      cc (before, again)

  find-update :
      (u : User) (id : String) (f : User → User) (users : List User)
      → ((x : User) → (f x).id ≡ x.id)
      → find_user u.id users ≡ some u
      → find_user u.id (update_user id f users) ≡ some (if str_eq u.id id then f u else u)
  find-update u id f users keeps h =
      find-map-some (λ x. str_eq x.id u.id) (λ x. if str_eq x.id id then f x else x)
        (update_keeps (λ x. str_eq x.id u.id) (λ x. str_eq x.id id) f
          (λ x. ap (λ (e : String). str_eq e u.id) (keeps x)))
        users u h

  -- An update with no other request in between its reading of the user and its writing changes the hash of
  -- no user but the session's, and of that one only if the old password was right, or there was none, and
  -- the new one meets the policy.
  pub hash_change_checked :
      (session_user : String) (input : Update) (key : String) (db : Db) {db' : Db} (u v : User)
      → update services session_user input key db ≡ ok db'
      → find_user u.id db.base.users ≡ some u
      → find_user u.id db'.base.users ≡ some v
      → u.hash ≢ v.hash
      → (u.id ≡ session_user)
        × (is_old_password services input.password u.hash ≡ true)
        × (password_meets_policy (codes (text_of input.new_password)) services.policy ≡ true)
  hash_change_checked session_user input key db {db'} u v h before after changed =
      let (w, found, checked, done) = update_done services session_user input key db h in
      let users_eq : db'.base.users ≡ update_user w.id (written w input) db.base.users =
        ap (λ (d : Db). d.base.users) done ∙ apply_update-users w input key db in
      let v_eq : v ≡ (if str_eq u.id w.id then written w input u else u) = cc (
        after,
        users_eq,
        find-update u w.id (written w input) db.base.users (written_id w input) before,
      ) in
      elim (Bool-cases (str_eq u.id w.id)) [
        | inr other ↦
            (let kept : v ≡ u = v_eq ∙ rw other refl in
              absurd (changed (ap (λ (x : User). x.hash) (sym kept))))
        | inl same ↦
            (let id_eq : u.id ≡ session_user =
                (eq_iff u.id w.id).0 same
                ∙ (eq_iff w.id session_user).0
                    (find_holds (λ x. str_eq x.id session_user) db.base.users w found) in
              let user_eq : u ≡ w = same_found db.base.users id_eq before found in
              elim (Bool-cases (truthy input.new_password)) [
                | inl given ↦
                    (let (old, strong) = old_password_given w input checked given in
                      (
                        id_eq,
                        ap (λ (x : User). is_old_password services input.password x.hash) user_eq
                            ∙ old,
                        strong,
                      ))
                | inr kept ↦
                    (let mine : v ≡ written w input u = v_eq ∙ rw same refl in
                      absurd (
                        changed (
                          ap (λ (x : User). x.hash) user_eq
                          ∙ sym (ap (λ (x : User). x.hash) mine ∙ written_kept w input u kept))))
              ])
      ]
