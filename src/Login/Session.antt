-- ===== src/Login/Session.antt =====
-- services/ztnet/src/lib/auth.ts, `getIpFromHeaders`, `onSessionCreated`, `onUserCreateBefore` and
-- `onUserCreateAfter`: the hooks on a new session and a new user. Cookies, user agents, random bytes
-- and mail are parameters or effects.
pub mod Laws
mod Tests
use docker_zerotier_planet.Common.{
  ℕ, Bool, true, false, ◌&&◌, ◌||◌, not, Option, none, some, List, [], ◌∷◌, ◌++◌, map, String,
  str_eq, if◌then◌else◌, ltb, ◌==◌, find, any, codes, split_on, trim, mapped_ipv4, truthy, has_text,
}

-- The columns of `User` that these hooks read or write, with its group's expiry.
pub record User : Type 0 where
  pub id : String
  pub email : String
  pub is_admin : Bool
  pub is_active : Bool
  pub expires_at : Option ℕ
  pub group_expires_at : Option ℕ
  pub failed_login_attempts : ℕ
  pub last_failed_login_attempt : Option ℕ
  pub last_login : Option ℕ
  pub first_time : Bool

-- A row of `UserDevice`; `details` are the fields parsed from the user agent.
pub record Device : Type 0 where
  pub device_id : String
  pub user_id : String
  pub user_agent : String
  pub details : String
  pub ip_address : List ℕ
  pub last_active : ℕ
  pub is_active : Bool

pub record Db : Type 0 where
  pub users : List User
  pub devices : List Device

-- The request's headers; `device_cookie` is the device cookie's value, once parsed.
pub record Headers : Type 0 where
  pub x_user_agent : Option String
  pub user_agent : Option String
  pub device_cookie : Option String
  pub forwarded_for : Option (List ℕ)

pub data SessionError : Type 0 where
  user_not_found account_expired : SessionError

pub data Effect : Type 0 where
  set_cookie : String → Effect
  mail_new_device mail_ip_change : String → Effect

pub data Outcome : Type 0 where
  created : List Effect → Outcome
  refused : SessionError → Outcome

abbrev unknown_ip : List ℕ
unknown_ip = codes "Unknown"

abbrev first_part : List (List ℕ) → List ℕ
first_part [] = []
first_part (p ∷ ps) = p

abbrev or_same : List ℕ → Option (List ℕ) → List ℕ
or_same cs none = cs
or_same cs (some inner) = inner

-- `getIpFromHeaders` once the headers are there: the first address of the chain, unwrapped from IPv6.
-- An empty header counts as none.
pub ip_from_headers : Option (List ℕ) → List ℕ
ip_from_headers none = unknown_ip
ip_from_headers (some []) = unknown_ip
ip_from_headers (some (c ∷ cs)) =
    let ip = trim (first_part (split_on b',' (c ∷ cs))) in
    or_same ip (mapped_ipv4 ◌==◌ (codes "::ffff:") ip)

abbrev pub is_past : Option ℕ → ℕ → Bool
is_past none now = false
is_past (some t) now = ltb t now

-- The active and expiry rules.
pub may_sign_in : ℕ → User → Bool
may_sign_in now u =
    u.is_active
    && not (is_past u.expires_at now)
    && (u.is_admin || not (is_past u.group_expires_at now))

abbrev pub signed_in : ℕ → User → User
signed_in now u = record u {
  failed_login_attempts = 0;
  last_failed_login_attempt = none;
  last_login = some now;
  first_time = false;
}

pub update_user : String → (User → User) → List User → List User
update_user id f users = map (λ u. if str_eq u.id id then f u else u) users

abbrev pub find_device : String → List Device → Option Device
find_device device_id devices = find (λ d. str_eq d.device_id device_id) devices

-- `prisma.userDevice.upsert` by device id.
pub upsert_device : Device → List Device → List Device
upsert_device fresh [] = fresh ∷ []
upsert_device fresh (d ∷ devices) =
    if str_eq d.device_id fresh.device_id
    then record d {
      last_active = fresh.last_active;
      ip_address = fresh.ip_address;
      is_active = true;
    }
      ∷ devices
    else d ∷ upsert_device fresh devices

-- `a || b || ""`.
abbrev text_or_empty : Option String → String
text_or_empty none = ""
text_or_empty (some b) = b

abbrev pub or_text : Option String → Option String → String
or_text none b = text_or_empty b
or_text (some a) b = if str_eq a "" then text_or_empty b else a

-- The device's id: from the cookie, or a fresh one.
abbrev pub cookie_id : Option String → Option String
cookie_id none = none
cookie_id (some id) = if str_eq id "" then none else some id

abbrev pub id_from : String → Option String → String
id_from fresh_id none = fresh_id
id_from fresh_id (some id) = id

abbrev cookie_effects : String → Option String → List Effect
cookie_effects fresh_id none = set_cookie fresh_id ∷ []
cookie_effects fresh_id (some id) = []

abbrev same_ip : List ℕ → List ℕ → Bool
same_ip [] [] = true
same_ip (a ∷ as') (b ∷ bs) = a == b && same_ip as' bs
same_ip _ _ = false

-- The mail about a device: none on the first login, else by what was stored before.
abbrev device_mail : Bool → String → List ℕ → Option Device → List Effect
device_mail true email ip old = []
device_mail false email ip none = mail_new_device email ∷ []
device_mail false email ip (some d) =
    if same_ip d.ip_address ip then [] else mail_ip_change email ∷ []

module _ (parse_ua : String → String) (fresh_id : String) (now : ℕ) where
  -- Device tracking, after the login was recorded; with no user agent there is none.
  pub track_device : User → Option Headers → Db → Db × List Effect
  track_device u none db = (db, [])
  track_device u (some headers) db =
      let agent = or_text headers.x_user_agent headers.user_agent in
      let cookie = cookie_id headers.device_cookie in
      let device_id = id_from fresh_id cookie in
      let ip = ip_from_headers headers.forwarded_for in
      if str_eq agent "" then (db, []) else (
        record db {
          devices =
              upsert_device
                (record {
                  device_id = device_id;
                  user_id = u.id;
                  user_agent = agent;
                  details = parse_ua agent;
                  ip_address = ip;
                  last_active = now;
                  is_active = true;
                })
                db.devices;
        },
        cookie_effects fresh_id cookie
            ++ device_mail u.first_time u.email ip (find_device device_id db.devices),
      )

  pub admit : User → Option Headers → Db → Db × Outcome
  unfolding track_device
  admit u headers db =
      let tracked =
        track_device u headers (record db { users = update_user u.id (signed_in now) db.users }) in
      (tracked.0, created tracked.1)

  -- `onSessionCreated` for the user that the query finds.
  pub on_found : Option User → Option Headers → Db → Db × Outcome
  unfolding may_sign_in admit
  on_found none headers db = (db, refused user_not_found)
  on_found (some u) headers db =
      if may_sign_in now u then admit u headers db else (db, refused account_expired)

  pub on_session_created : String → Option Headers → Db → Db × Outcome
  unfolding on_found
  on_session_created user_id headers db =
      on_found (find (λ u. str_eq u.id user_id) db.users) headers db

-- The endpoints that create users.
pub data AuthPath : Type 0 where
  callback oauth2_callback sign_in_oauth2 other_path missing_path : AuthPath

-- `isOAuthFlow`.
abbrev pub is_oauth_flow : AuthPath → Bool
is_oauth_flow callback = true
is_oauth_flow oauth2_callback = true
is_oauth_flow sign_in_oauth2 = true
is_oauth_flow _ = false

pub record Registration : Type 0 where
  pub oauth_allow_new_users : Bool
  pub oauth_exclusive_login : Bool
  pub enable_registration : Option Bool

abbrev is_true : Option Bool → Bool
is_true none = false
is_true (some b) = b

-- `onUserCreateBefore`: `none` is `registration_disabled`, else whether the new row is an admin's.
pub on_user_create_before : Registration → AuthPath → ℕ → Option Bool
on_user_create_before r path user_count =
    if is_oauth_flow path
    then (if not r.oauth_allow_new_users
        then none
        else if not r.oauth_exclusive_login && not (is_true r.enable_registration)
        then none
        else some false)
    else some (user_count == 0)

-- `onUserCreateAfter`: under its lock, an OAuth user is made the admin if there is none.
pub on_user_create_after : AuthPath → String → List User → List User
unfolding update_user
on_user_create_after path user_id users =
    if is_oauth_flow path && not (any (λ u. u.is_admin) users)
    then update_user user_id (λ u. record u { is_admin = true }) users
    else users
