-- ===== src/Login/Session/Laws.antt =====
-- Who gets a session, what it leaves behind, and who becomes an administrator.
use docker_zerotier_planet.Common.{
  ℕ, ◌≤◌, String, ◌≡◌, refl, ap, ◌∙◌, ◌≢◌, ◌↔◌, inl, inr, true, false, Option, none, some, List, [],
  ◌∷◌, arith, str_eq, eq_iff, if◌then◌else◌, Bool-cases, find, eq_refl, find-map-some, update_keeps,
  any,
}
use docker_zerotier_planet.Login.Session.{
  or_text, id_from, cookie_id, ip_from_headers, User, Device, Db, Headers, created, refused,
  may_sign_in, signed_in, update_user, find_device, upsert_device, track_device, admit, on_found,
  on_session_created, AuthPath, is_oauth_flow, on_user_create_after, is_past, Effect, SessionError,
}

-- The rules on an account, as the documentation states them.
pub record MaySignIn (now : ℕ) (u : User) : Type 0 where
  pub active : u.is_active ≡ true
  pub not_expired : (t : ℕ) → u.expires_at ≡ some t → now ≤ t
  pub group_not_expired : (t : ℕ) → u.group_expires_at ≡ some t → u.is_admin ≡ false → now ≤ t

not_past :
    (expiry : Option ℕ) (now : ℕ)
    → ((t : ℕ) → expiry ≡ some t → now ≤ t)
    → is_past expiry now ≡ false
not_past none now h = refl
not_past (some t) now h = ground (arith, h t refl)

may_sign_in_iff : (now : ℕ) (u : User) → (may_sign_in now u ≡ true) ↔ MaySignIn now u
unfolding may_sign_in
may_sign_in_iff now u = (
  λ h. record {
    active = ground arith;
    not_expired = λ t e. ground arith;
    group_not_expired = λ t e a. ground arith;
  },
  λ m. elim (Bool-cases u.is_admin) [
    | inl admin ↦ ground (arith, m.active, not_past u.expires_at now m.not_expired)
    | inr plain ↦ ground (
      arith,
      m.active,
      not_past u.expires_at now m.not_expired,
      not_past u.group_expires_at now (λ t e. m.group_not_expired t e plain),
    )
  ],
)

module _ (parse_ua : String → String) (fresh_id : String) (now : ℕ) where
  on_found_created :
      (found : Option User) (headers : Option Headers) (db : Db) {es : List Effect}
      → (on_found parse_ua fresh_id now found headers db).1 ≡ created es
      → (u : User) × (found ≡ some u) × MaySignIn now u
  unfolding on_found
  on_found_created none headers db h = cc
  on_found_created (some u) headers db h = (u, refl, (may_sign_in_iff now u).0 (ground arith))

  on_found_admits :
      (u : User) (headers : Option Headers) (db : Db)
      → MaySignIn now u
      → on_found parse_ua fresh_id now (some u) headers db
        ≡ admit parse_ua fresh_id now u headers db
  unfolding on_found
  on_found_admits u headers db m = rw ((may_sign_in_iff now u).1 m)

  -- A session is created exactly for a user that exists, is active, has not expired, and, unless they
  -- are an administrator, whose group has not expired.
  pub session_created_iff :
      (user_id : String) (headers : Option Headers) (db : Db)
      → ((es : List Effect) × ((on_session_created parse_ua fresh_id now user_id headers db).1
            ≡ created es))
        ↔ ((u : User) × (find (λ v. str_eq v.id user_id) db.users ≡ some u) × MaySignIn now u)
  unfolding on_session_created admit
  session_created_iff user_id headers db = (
    λ (es, h). on_found_created _ headers db h,
    λ (u, found, m). (
      (track_device parse_ua fresh_id now u headers
          (record db { users = update_user u.id (signed_in now) db.users })).1,
      rw (found, on_found_admits u headers db m) refl,
    ),
  )

  -- A refused session leaves every row as it was.
  pub session_refused_unchanged :
      (user_id : String) (headers : Option Headers) (db : Db) {e : SessionError}
      → (on_session_created parse_ua fresh_id now user_id headers db).1 ≡ refused e
      → (on_session_created parse_ua fresh_id now user_id headers db).0 ≡ db
  unfolding on_session_created on_found admit
  session_refused_unchanged user_id headers db h = ground arith

find-update_user :
    (id : String) (f : User → User) (users : List User) (u : User)
    → ((v : User) → (f v).id ≡ v.id)
    → find (λ v. str_eq v.id id) users ≡ some u
    → find (λ v. str_eq v.id id) (update_user u.id f users) ≡ some (f u)
unfolding update_user
find-update_user id f users u keeps h =
    find-map-some (λ v. str_eq v.id id) (λ v. if str_eq v.id u.id then f v else v)
      (update_keeps (λ v. str_eq v.id id) (λ v. str_eq v.id u.id) f
        (λ v. ap (λ (e : String). str_eq e id) (keeps v)))
      users u h
    ∙ rw (eq_refl u.id) refl

-- What a session makes of the row of its device.
abbrev pub refreshed : Device → Option Device → Device
refreshed fresh none = fresh
refreshed fresh (some d) = record d {
  last_active = fresh.last_active;
  ip_address = fresh.ip_address;
  is_active = true;
}

find_device-upsert :
    (fresh : Device) (devices : List Device)
    → find_device fresh.device_id (upsert_device fresh devices)
      ≡ some (refreshed fresh (find_device fresh.device_id devices))
unfolding upsert_device
find_device-upsert fresh [] = rw (eq_refl fresh.device_id) refl
find_device-upsert fresh (d ∷ devices) = ground (arith, find_device-upsert fresh devices)

module _ (parse_ua : String → String) (fresh_id : String) (now : ℕ) where
  admitted_user :
      (u : User) (headers : Option Headers) (db : Db)
      → (admit parse_ua fresh_id now u headers db).0.users
        ≡ update_user u.id (signed_in now) db.users
  unfolding admit track_device
  admitted_user u headers db = ground arith

  -- The row that a session with a user agent makes for a device that is new.
  abbrev pub device_row : User → Headers → Device
  device_row u headers = record {
    device_id = id_from fresh_id (cookie_id headers.device_cookie);
    user_id = u.id;
    user_agent = or_text headers.x_user_agent headers.user_agent;
    details = parse_ua (or_text headers.x_user_agent headers.user_agent);
    ip_address = ip_from_headers headers.forwarded_for;
    last_active = now;
    is_active = true;
  }

  admitted_devices :
      (u : User) (headers : Headers) (db : Db)
      → or_text headers.x_user_agent headers.user_agent ≢ ""
      → (admit parse_ua fresh_id now u (some headers) db).0.devices
        ≡ upsert_device (device_row u headers) db.devices
  unfolding admit track_device
  admitted_devices u headers db agent =
      ground (arith, eq_iff (or_text headers.x_user_agent headers.user_agent) "")

  -- A created session clears the user's failure counter and its time, records the login, and ends the
  -- user's first time.
  pub session_clears_failures :
      (user_id : String) (headers : Option Headers) (db : Db) (u : User)
      → find (λ v. str_eq v.id user_id) db.users ≡ some u
      → MaySignIn now u
      → find
          (λ v. str_eq v.id user_id)
          (on_session_created parse_ua fresh_id now user_id headers db).0.users
        ≡ some (signed_in now u)
  unfolding on_session_created
  session_clears_failures user_id headers db u found m =
      rw (found, on_found_admits parse_ua fresh_id now u headers db m, admitted_user u headers db)
        (find-update_user user_id (signed_in now) db.users u (λ v. refl) found)

  -- A created session with a user agent leaves a row for its device, found by the cookie's id or the
  -- fresh one: a new row is the user's, and a row that was there is made active at the new address
  -- and keeps the owner that it had.
  pub session_device_row :
      (user_id : String) (headers : Headers) (db : Db) (u : User)
      → find (λ v. str_eq v.id user_id) db.users ≡ some u
      → MaySignIn now u
      → or_text headers.x_user_agent headers.user_agent ≢ ""
      → find_device
          (id_from fresh_id (cookie_id headers.device_cookie))
          (on_session_created parse_ua fresh_id now user_id (some headers) db).0.devices
        ≡ some (
            refreshed
              (device_row u headers)
              (find_device (id_from fresh_id (cookie_id headers.device_cookie)) db.devices))
  unfolding on_session_created
  session_device_row user_id headers db u found m agent =
      rw
        (
          found,
          on_found_admits parse_ua fresh_id now u (some headers) db m,
          admitted_devices u headers db agent,
        )
        (find_device-upsert (device_row u headers) db.devices)

module _ (path : AuthPath) (user_id : String) where
  promote :
      (users : List User)
      → any (λ u. str_eq u.id user_id) users ≡ true
      → any (λ u. u.is_admin) (update_user user_id (λ u. record u { is_admin = true }) users) ≡ true
  unfolding update_user
  promote [] h = cc
  promote (u ∷ users) h = ground (arith, promote users)

  -- For a user in the table: after they are created through OAuth, some user is an administrator; and
  -- with an administrator in the table, or outside OAuth, no row changes.
  pub oauth_leaves_admin :
      (users : List User)
      → any (λ u. str_eq u.id user_id) users ≡ true
      → (is_oauth_flow path ≡ true
          → any (λ u. u.is_admin) (on_user_create_after path user_id users) ≡ true)
        × (any (λ u. u.is_admin) users ≡ true → on_user_create_after path user_id users ≡ users)
        × (is_oauth_flow path ≡ false → on_user_create_after path user_id users ≡ users)
  unfolding on_user_create_after
  oauth_leaves_admin users h =
      (λ p. ground (arith, promote users h), λ p. ground arith, λ p. ground arith)
