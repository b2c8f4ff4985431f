-- ===== src/Registration/Commit.antt =====
-- `register` of services/ztnet/src/server/api/routers/authRouter.ts: the transaction, with the entry in
-- the activity log that follows it, and the runs of any number of requests. The transaction's writes
-- stand only if none of its parts throws.
use docker_zerotier_planet.Common.{
  ℕ, ◌+◌, String, ◌≡◌, Bool, false, not, ◌&&◌, ◌||◌, Option, none, some, List, [], ◌∷◌, ◌++◌, map,
  str_eq, ltb, leb, ◌==◌, if◌then◌else◌, Result, filter, length, ok, count, err, any, ◌>>=◌, In,
}
use docker_zerotier_planet.Access.{Role, admin, user}
use docker_zerotier_planet.Account.{User, upsert_credential_account}
use docker_zerotier_planet.Registration.{
  Invitation, OrgInvitation, Group, Membership, Activity, Db, Request, Services, Refusal, OrgGrant,
  Passed, trimmed, may_register, check_request, registration_disabled, invalid_invitation,
  constraint_failed,
}

-- The condition of the compare-and-set: the row is as it was when it was read.
abbrev pub fits : Invitation → ℕ → Invitation → Bool
fits snapshot now r =
    r.id == snapshot.id && not r.used && r.times_used == snapshot.times_used && ltb now r.expires_at

abbrev pub use_once : Invitation → Invitation → Invitation
use_once snapshot r = record r {
  used = leb snapshot.times_can_use (snapshot.times_used + 1);
  times_used = r.times_used + 1;
}

unfoldable pub consume_invitation :
    Option Invitation → ℕ → List Invitation → Result Refusal (List Invitation)
consume_invitation none now rows = ok rows
consume_invitation (some snapshot) now rows =
    if count (fits snapshot now) rows == 1
    then ok (map (λ r. if fits snapshot now r then use_once snapshot r else r) rows)
    else err invalid_invitation

abbrev pub is_grant : OrgGrant → String → Invitation → Bool
is_grant grant token r = r.id == grant.invitation.id && str_eq r.token token

-- The invitation of an organization is deleted.
unfoldable pub consume_org :
    Option OrgGrant → String → List Invitation → Result Refusal (List Invitation)
consume_org none token rows = ok rows
consume_org (some grant) token rows =
    if count (is_grant grant token) rows == 1
    then ok (filter (λ r. not (is_grant grant token r)) rows)
    else err invalid_invitation

-- The rows that go with a deleted invitation.
abbrev pub cascade : Option OrgGrant → List OrgInvitation → List OrgInvitation
cascade none rows = rows
cascade (some grant) rows = filter (λ o. not (o.invitation_id == grant.invitation.id)) rows

abbrev default_group : List Group → Option ℕ
default_group [] = none
default_group (g ∷ groups) = if g.is_default then some g.id else default_group groups

abbrev invited_group : Option Invitation → Option ℕ
invited_group none = none
invited_group (some invitation) = invitation.user_group_id

-- The id of a group is truthy unless it is 0.
abbrev group_of : List Group → Option ℕ → Option ℕ
group_of groups none = default_group groups
group_of groups (some g) = if g == 0 then default_group groups else some g

abbrev pub role_of : ℕ → Option Invitation → Role
role_of user_count none = if user_count == 0 then admin else user
role_of user_count (some invitation) = if user_count == 0 then admin else invitation.role

-- The memberships and the entry of the log that an organization's token makes.
abbrev joined : Option OrgGrant → String → List Membership
joined none user_id = []
joined (some grant) user_id =
    record {
      organization_id = grant.organization_id;
      user_id = user_id;
      role = grant.invitation.role;
    }
    ∷ []

abbrev logged : Option OrgGrant → String → List Activity
logged none name = []
logged (some grant) name =
    record {
      performed_by_id = grant.invitation.invited_by_id;
      organization_id = grant.organization_id;
      new_user = name;
    }
    ∷ []

-- The first account closes the registration; the row 1 has to be there to be updated.
unfoldable pub close_registration : ℕ → Option Bool → Result Refusal (Option Bool)
close_registration user_count settings =
    if user_count == 0
    then elim settings [ none ↦ err constraint_failed | some enabled ↦ ok (some false) ]
    else ok settings

module _ (services : Services) (now : ℕ) (fresh_id : String) where
  abbrev pub new_user : Db → Passed → User
  new_user db p = record {
    id = fresh_id;
    email = p.request.email;
    name = p.request.name;
    role = role_of (length db.users) p.invitation;
    hash = some (services.hash_password p.request.password);
    expires_at = p.expires_at;
    last_login = now;
    user_group_id = group_of db.groups (invited_group p.invitation);
    request_change_password = false;
    failed_login_attempts = 0;
    last_failed_login_attempt = none;
  }

  -- `user.create` and what follows it, on the invitations that are left.
  unfoldable pub create_user : Db → Passed → List Invitation → Result Refusal Db
  create_user db p invitations =
      if any (λ u. str_eq fresh_id u.id || str_eq p.request.email u.email) db.users
      then err constraint_failed
      else close_registration (length db.users) db.settings >>= λ settings. ok (record db {
        settings = settings;
        invitations = invitations;
        org_invitations = cascade p.org db.org_invitations;
        users = db.users ++ new_user db p ∷ [];
        accounts =
            upsert_credential_account fresh_id (services.hash_password p.request.password)
              db.accounts;
        members = db.members ++ joined p.org fresh_id;
        activity = db.activity ++ logged p.org p.request.name;
      })

  -- `register` from the transaction on.
  unfoldable pub commit : Db → Passed → Result Refusal Db
  commit db p =
      if may_register services now db.settings p.invitation p.org
      then (consume_invitation p.invitation now db.invitations >>= λ rows.
          consume_org p.org (trimmed p.request.organization_token) rows >>= λ invitations.
          create_user db p invitations)
      else err registration_disabled

-- The database, and the requests whose checks have passed.
pub record State : Type 0 where
  pub db : Db
  pub passed : List Passed

-- The runs of any requests, with the ones that got an account, the last one first. A request stays among
-- those whose checks have passed, so that a run may try its transaction more than once.
pub data Runs (services : Services) (s : State) : List Passed → State → Type 0 where
  idle : Runs services s [] s
  checked :
      {done : List Passed} {t : State} {p : Passed} (now : ℕ) (request : Request)
      → Runs services s done t
      → check_request services now t.db request ≡ ok p
      → Runs services s done (record t { passed = p ∷ t.passed })
  committed :
      {done : List Passed} {t : State} {p : Passed} {db : Db} (now : ℕ) (fresh_id : String)
      → Runs services s done t
      → In p t.passed
      → commit services now fresh_id t.db p ≡ ok db
      → Runs services s (p ∷ done) (record t { db = db })
