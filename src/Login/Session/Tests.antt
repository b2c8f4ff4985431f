-- ===== src/Login/Session/Tests.antt =====
-- Sessions on a small database.
use docker_zerotier_planet.Common.{
  String, ◌≡◌, refl, ◌↔◌, Bool, true, false, none, some, List, [], ◌∷◌, arith, str_eq, apart, find,
  any,
}
use docker_zerotier_planet.Login.Session.{
  User, Db, Headers, Effect, created, on_session_created, find_device, callback, is_oauth_flow,
  on_user_create_after,
}
use docker_zerotier_planet.Login.Session.Laws.{
  MaySignIn, device_row, session_created_iff, session_device_row, oauth_leaves_admin,
}

abbrev account : String → Bool → User
account id active = record {
  id = id;
  email = "ann@example.org";
  is_admin = false;
  is_active = active;
  expires_at = some 500;
  group_expires_at = none;
  failed_login_attempts = 3;
  last_failed_login_attempt = some 90;
  last_login = none;
  first_time = false;
}

abbrev sample : Db
sample = record { users = account "ann" true ∷ account "bob" false ∷ []; devices = [] }

abbrev headers : Headers
headers = record {
  x_user_agent = none;
  user_agent = some "agent";
  device_cookie = none;
  forwarded_for = none;
}

abbrev details : String → String
details agent = agent

ann-MaySignIn : MaySignIn 100 (account "ann" true)
ann-MaySignIn = record {
  active = refl;
  not_expired = λ t e. ground arith;
  group_not_expired = λ t e a. cc;
}

session_created_iff_example :
    ((es : List Effect) × ((on_session_created details "d1" 100 "ann" (some headers) sample).1
        ≡ created es))
    ↔ ((u : User) × (find (λ v. str_eq v.id "ann") sample.users ≡ some u) × MaySignIn 100 u)
session_created_iff_example = session_created_iff details "d1" 100 "ann" (some headers) sample

session_device_row_example :
    find_device "d1" (on_session_created details "d1" 100 "ann" (some headers) sample).0.devices
    ≡ some (device_row details "d1" 100 (account "ann" true) headers)
session_device_row_example =
    session_device_row details "d1" 100 "ann" headers sample (account "ann" true) refl ann-MaySignIn
      (apart _ _ refl)

oauth_leaves_admin_example :
    (is_oauth_flow callback ≡ true
      → any (λ u. u.is_admin) (on_user_create_after callback "ann" sample.users) ≡ true)
    × (any (λ u. u.is_admin) sample.users ≡ true
        → on_user_create_after callback "ann" sample.users ≡ sample.users)
    × (is_oauth_flow callback ≡ false
        → on_user_create_after callback "ann" sample.users ≡ sample.users)
oauth_leaves_admin_example = oauth_leaves_admin callback "ann" sample.users refl
