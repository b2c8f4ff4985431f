-- ===== src/Registration/Tests.antt =====
-- Concrete registrations.
use docker_zerotier_planet.Common.{
  ◌+◌, ◌≤◌, String, ◌≡◌, refl, ◌⊎◌, true, false, Option, none, some, [], ◌∷◌, here, ◌>>=◌, err,
  count, trim_text,
}
use docker_zerotier_planet.Access.{admin, user, Role}
use docker_zerotier_planet.Account.{upsert_credential_account, User}
use docker_zerotier_planet.Registration.{
  Invitation, Db, Request, Services, Passed, check_request, invalid_invitation,
  registration_disabled, read_expiry, validate_organization_token, check_code, judge_payload,
  judge_invitation, check_credentials,
}
use docker_zerotier_planet.Limits.{password_meets_policy}
use docker_zerotier_planet.Registration.Commit.{
  commit, State, Runs, idle, checked, committed, consume_invitation, create_user, consume_org,
  close_registration,
}
use docker_zerotier_planet.Registration.Budget.{uses_bounded, left_of, uses}
use docker_zerotier_planet.Registration.Bootstrap.{bootstrap_once}
use docker_zerotier_planet.Registration.Once.{org_uses_bounded, org_uses, is_row}

abbrev services : Services
services = record {
  normalize_email = λ e. e;
  hash_password = λ p. p;
  verify_jwt = λ t. true;
  decrypt_org_token = λ t. some (record { role = user; email = some "a"; expires_at = 99 });
  parse_date = λ s. none;
  policy = record { min_length = 1; min_classes = 1 };
}

abbrev plain : String → Request
plain email = record {
  email = email;
  password = "p1";
  name = "n";
  expires_at = none;
  invitation_code = none;
  organization_token = none;
  token = none;
}

abbrev invited : String → Request
invited email = record (plain email) { invitation_code = some " s"; token = some "t " }

abbrev invitation : Invitation
invitation = record {
  id = 1;
  token = "t";
  secret = some "s";
  email = some "";
  expires_at = 50;
  used = false;
  times_used = 0;
  times_can_use = 2;
  role = user;
  user_group_id = none;
  invited_by_id = "root";
}

abbrev db : Db
db = record {
  settings = some true;
  invitations = [];
  org_invitations = [];
  groups = [];
  users = [];
  accounts = [];
  members = [];
  activity = [];
}

abbrev invited_db : Db
invited_db = record db { settings = some false; invitations = invitation ∷ [] }

abbrev org_db : Db
org_db = record db {
  settings = some false;
  invitations = record invitation { token = "o"; email = some "a" } ∷ [];
  org_invitations = record { invitation_id = 1; organization_id = "org" } ∷ [];
}

abbrev joining : Request
joining = record (plain "a") { organization_token = some "o" }

abbrev passed_of : Request → Option Invitation → Passed
passed_of r i = record { request = r; expires_at = none; invitation = i; org = none }

-- Two requests read the invitation before either is committed: the second one is refused.
late_refused :
    commit services 5 "u2"
      (record invited_db { invitations = record invitation { times_used = 1 } ∷ [] })
      (passed_of (invited "b") (some invitation))
    ≡ err invalid_invitation
unfolding commit consume_invitation ◌>>=◌
late_refused = refl

abbrev new_user_of : String → String → Role → User
new_user_of id email role = record {
  id = id;
  email = email;
  name = "n";
  role = role;
  hash = some "p1";
  expires_at = none;
  last_login = 6;
  user_group_id = none;
  request_change_password = false;
  failed_login_attempts = 0;
  last_failed_login_attempt = none;
}

abbrev with_user : User → Db → Db
with_user u d = record d {
  settings = some false;
  users = u ∷ [];
  accounts = record { user_id = u.id; password = "p1" } ∷ [];
}

abbrev start_of : Db → State
start_of d = record { db = d; passed = [] }

abbrev invited_end : State
invited_end = record {
  db = record (with_user (new_user_of "u1" "a" admin) invited_db) {
    invitations = record invitation { times_used = 1 } ∷ [];
  };
  passed = passed_of (invited "a") (some invitation) ∷ [];
}

invited_run :
    Runs services (start_of invited_db) (passed_of (invited "a") (some invitation) ∷ []) invited_end
unfolding check_request read_expiry validate_organization_token check_code judge_invitation
    check_credentials commit create_user consume_invitation consume_org close_registration
    password_meets_policy trim_text upsert_credential_account ◌>>=◌
invited_run = committed 6 "u1" (checked 5 (invited "a") idle refl) (here refl) refl

uses_bounded_example :
    uses 1 (passed_of (invited "a") (some invitation) ∷ []) + left_of 1 invited_end.db.invitations
    ≤ 2
uses_bounded_example = uses_bounded services (λ i. 2) {db = invited_db} 1 (refl, tt) invited_run

abbrev first_end : State
first_end = record {
  db = with_user (new_user_of "u1" "a" admin) db;
  passed = passed_of (plain "a") none ∷ passed_of (plain "b") none ∷ [];
}

first_run : Runs services (start_of db) (passed_of (plain "a") none ∷ []) first_end
unfolding check_request read_expiry validate_organization_token check_code check_credentials commit
    create_user consume_invitation consume_org close_registration password_meets_policy trim_text
    upsert_credential_account ◌>>=◌
first_run =
    committed 6 "u1" (checked 5 (plain "a") (checked 5 (plain "b") idle refl) refl) (here refl) refl

bootstrap_once_example :
    (first_end.db.users ≡ [])
    ⊎ ((first_end.db.settings ≡ some false)
        × (u : User) × (first_end.db.users ≡ u ∷ [])
        × (u.role ≡ admin))
bootstrap_once_example = bootstrap_once services {db = db} refl refl first_run

-- The second of them is refused.
second_refused :
    commit services 7 "u2" first_end.db (passed_of (plain "b") none) ≡ err registration_disabled
unfolding commit ◌>>=◌
second_refused = refl

abbrev joined : Passed
joined = record (passed_of joining none) {
  org = some (record {
    organization_id = "org";
    invitation = record invitation { token = "o"; email = some "a" };
  });
}

abbrev joined_end : State
joined_end = record {
  db = record (with_user (new_user_of "u1" "a" admin) org_db) {
    invitations = [];
    org_invitations = [];
    members = record { organization_id = "org"; user_id = "u1"; role = user } ∷ [];
    activity = record { performed_by_id = "root"; organization_id = "org"; new_user = "n" } ∷ [];
  };
  passed = joined ∷ [];
}

joined_run : Runs services (start_of org_db) (joined ∷ []) joined_end
unfolding check_request read_expiry validate_organization_token judge_payload check_code
    check_credentials commit create_user consume_invitation consume_org close_registration
    password_meets_policy trim_text upsert_credential_account ◌>>=◌
joined_run = committed 6 "u1" (checked 5 joining idle refl) (here refl) refl

org_uses_bounded_example :
    org_uses 1 "o" (joined ∷ []) + count (is_row 1 "o") joined_end.db.invitations
    ≤ count (is_row 1 "o") org_db.invitations
org_uses_bounded_example = org_uses_bounded services {db = org_db} 1 "o" joined_run
