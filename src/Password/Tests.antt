-- ===== src/Password/Tests.antt =====
-- Concrete passwords and links.
use docker_zerotier_planet.Common.{
  ◌+◌, ◌≤◌, String, ◌≡◌, refl, ◌↔◌, true, false, Option, none, some, List, [], ◌∷◌, map, arith,
  str_eq, ◌>>=◌, count, ok, codes, apart,
}
use docker_zerotier_planet.Access.{user}
use docker_zerotier_planet.Account.{password_of, User, upsert_credential_account}
use docker_zerotier_planet.Limits.{password_meets_policy}
use docker_zerotier_planet.Outbox.{empty, pending, enqueue_notification}
use docker_zerotier_planet.Registration
use docker_zerotier_planet.Password.{
  Db, Services, Update, update, update_found, check_update, apply_update, is_old_password,
}
use docker_zerotier_planet.Password.Reset.{
  bound_user, password_reset_link, validate_reset_password_token, change_password_from_jwt,
  consume_link, Event, issued, reset, Runs, idle, next, linked, changed,
}
use docker_zerotier_planet.Password.Once.{is_link, is_issue, is_reset, resets_bounded}
use docker_zerotier_planet.Password.Mirror.{HasMirror, sign_in_follows_hash}
use docker_zerotier_planet.Password.Checks.{validate_iff_change, hash_change_checked}

abbrev services : Services
services = record {
  normalize_email = λ e. e;
  hash_password = λ p. p;
  compare = λ p h. str_eq p h;
  verify = λ now t. some (record { id = "u"; email = "a" });
  sign = λ c now uuid. uuid;
  digest = λ t. t;
  policy = record { min_length = 1; min_classes = 1 };
  notifications = none;
  notify_changed = true;
  notify_reset = true;
  message = λ u key. record {
    id = key;
    event_key = key;
    event_type = "";
    title = "";
    body = "";
    template_version = 1;
    fingerprint = "";
    status = pending;
    attempts = 0;
    created_at = 0;
    updated_at = 0;
    delivered_at = none;
  };
}

abbrev registration : Registration.Services
registration = record {
  normalize_email = λ e. e;
  hash_password = λ p. p;
  verify_jwt = λ t. true;
  decrypt_org_token = λ t. none;
  parse_date = λ s. none;
  policy = record { min_length = 1; min_classes = 1 };
}

abbrev with_hash : String → User
with_hash h = record {
  id = "u";
  email = "a";
  name = "n";
  role = user;
  hash = some h;
  expires_at = none;
  last_login = 0;
  user_group_id = none;
  request_change_password = false;
  failed_login_attempts = 0;
  last_failed_login_attempt = none;
}

abbrev base_with : String → Registration.Db
base_with h = record {
  settings = some false;
  invitations = [];
  org_invitations = [];
  groups = [];
  users = with_hash h ∷ [];
  accounts = record { user_id = "u"; password = h } ∷ [];
  members = [];
  activity = [];
}

abbrev db : Db
db = record {
  base = base_with "p1";
  verifications = [];
  sessions = record { id = "s"; user_id = "u" } ∷ [];
  outbox = empty;
}

abbrev linked_db : Db
linked_db = record db {
  verifications = record { user_id = "u"; value = "t"; expires_at = 900005 } ∷ [];
}

abbrev changed_db : Db
changed_db = record db { base = base_with "p2"; sessions = [] }

abbrev new_password : Update
new_password = record {
  email = none;
  password = some "p1";
  new_password = some "p2";
  repeat_new_password = some "p2";
  name = none;
}

abbrev link_run : List Event
link_run = reset "u" "t" ∷ issued "u" "t" ∷ []

run : Runs registration services db link_run changed_db
unfolding password_reset_link change_password_from_jwt bound_user consume_link
    upsert_credential_account ◌>>=◌ enqueue_notification password_meets_policy
run =
    next (next idle (linked 5 "t" "a" (with_hash "p1") refl refl))
      (changed 6 "t" "p2" "p2" "k" (with_hash "p1") refl refl)

resets_bounded_example :
    count (is_reset "u" "t") link_run + count (is_link "u" "t") changed_db.verifications
    ≤ count (is_issue "u" "t") link_run + count (is_link "u" "t") db.verifications
resets_bounded_example = resets_bounded registration services "u" "t" run

mirror : HasMirror (base_with "p1")
mirror = (λ h e. e, tt)

sign_in_follows_hash_example : HasMirror (base_with "p2")
sign_in_follows_hash_example = sign_in_follows_hash registration services mirror run

unique : (user_id value : String) → count (is_link user_id value) linked_db.verifications ≤ 1
unique user_id value = ground arith

validate_iff_change_example :
    ((e : String) × (validate_reset_password_token services 6 "t" linked_db ≡ some e))
    ↔ ((db' : Db) × (change_password_from_jwt services 6 "t" "p2" "p2" "k" linked_db ≡ ok db'))
validate_iff_change_example =
    validate_iff_change services 6 "t" linked_db "p2" "k" unique
      (unfold password_meets_policy in refl)

updated_ok :
    update services "u" new_password "k" db ≡ ok (record changed_db { sessions = db.sessions })
unfolding update update_found check_update apply_update password_meets_policy
    upsert_credential_account ◌>>=◌ enqueue_notification
updated_ok = refl

passwords_differ : ◌≡◌ {A = Option String} (some "p1") (some "p2") → ⊥
passwords_differ e = (let same : "p1" ≡ "p2" = cc e in apart "p1" "p2" refl same)

hash_change_checked_example :
    ((with_hash "p1").id ≡ "u")
    × (is_old_password services (some "p1") (some "p1") ≡ true)
    × (password_meets_policy (codes "p2") services.policy ≡ true)
hash_change_checked_example =
    hash_change_checked services "u" new_password "k" db (with_hash "p1") (with_hash "p2")
      updated_ok refl refl passwords_differ

abbrev rename : Update
rename = record {
  email = none;
  password = none;
  new_password = none;
  repeat_new_password = none;
  name = some "m";
}

-- A profile update that read the user before a reset writes the old hash back after it: the user then
-- signs in with one password, and the hash is of another.
stale_update :
    (map (λ u. u.hash) (apply_update services (with_hash "p1") rename "k" changed_db).base.users
      ≡ some "p1" ∷ [])
    × (password_of "u" (apply_update services (with_hash "p1") rename "k" changed_db).base.accounts
        ≡ some "p2")
unfolding apply_update
stale_update = (refl, refl)
