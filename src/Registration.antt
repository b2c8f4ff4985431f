-- ===== src/Registration.antt =====
-- services/ztnet/src/server/api/routers/authRouter.ts, `register`, with `validateOrganizationToken` of
-- server/api/services/organizationAuthService.ts. A request runs in two steps, the checks and then the
-- transaction under the advisory lock, and other requests may come in between. Not here: the request
-- limit, the options row (constants), the mails to the administrators.
pub mod Commit
pub mod Budget
pub mod Bootstrap
pub mod Once
pub mod Laws
mod Tests
use docker_zerotier_planet.Common.{
  ℕ, zero, suc, ◌+◌, ◌-◌, ◌*◌, ◌≤◌, ◌<◌, String, ◌≡◌, refl, sym, ap, ◌∙◌, subst, ◌≢◌, ◌↔◌, ◌⊎◌, inl,
  inr, Bool, true, false, not, ◌&&◌, ◌||◌, Option, none, some, List, [], ◌∷◌, ◌++◌, map, arith,
  str_eq, eq_iff, ltb, leb, ◌==◌, if◌then◌else◌, Bool-cases, Option-cases, trim_text, Result,
  truthy, find, ok, err, ◌>>=◌, any, codes,
}
use docker_zerotier_planet.Access.{Role, admin, rank}
use docker_zerotier_planet.Account.{User, CredentialAccount, upsert_credential_account}
use docker_zerotier_planet.Limits.{PasswordPolicy, password_meets_policy}

-- A row of `Invitation`, of a code or of an organization.
pub record Invitation : Type 0 where
  pub id : ℕ
  pub token : String
  pub secret : Option String
  pub email : Option String
  pub expires_at : ℕ
  pub used : Bool
  pub times_used : ℕ
  pub times_can_use : ℕ
  pub role : Role
  pub user_group_id : Option ℕ
  pub invited_by_id : String

-- A row of `OrganizationInvitation`, which goes with its invitation (onDelete: Cascade).
pub record OrgInvitation : Type 0 where
  pub invitation_id : ℕ
  pub organization_id : String

pub record Group : Type 0 where
  pub id : ℕ
  pub is_default : Bool

-- A row of `UserOrganizationRole`; its user is also connected to the organization.
pub record Membership : Type 0 where
  pub organization_id : String
  pub user_id : String
  pub role : Role

pub record Activity : Type 0 where
  pub performed_by_id : String
  pub organization_id : String
  pub new_user : String

-- `settings` is `enableRegistration` of the row 1 of `GlobalOptions`, if that is there.
pub record Db : Type 0 where
  pub settings : Option Bool
  pub invitations : List Invitation
  pub org_invitations : List OrgInvitation
  pub groups : List Group
  pub users : List User
  pub accounts : List CredentialAccount
  pub members : List Membership
  pub activity : List Activity

pub record Request : Type 0 where
  pub email : String
  pub password : String
  pub name : String
  pub expires_at : Option String
  pub invitation_code : Option String
  pub organization_token : Option String
  pub token : Option String

-- What an organization's token decrypts to.
pub record OrgPayload : Type 0 where
  pub role : Role
  pub email : Option String
  pub expires_at : ℕ

pub record Services : Type 0 where
  pub normalize_email : String → String
  pub hash_password : String → String
  pub verify_jwt : String → Bool
  pub decrypt_org_token : String → Option OrgPayload
  pub parse_date : String → Option ℕ
  pub policy : PasswordPolicy

pub data Refusal : Type 0 where
  invalid_date no_code invalid_invitation code_used invalid_token_data : Refusal
  registration_disabled email_required email_taken weak_password constraint_failed : Refusal

-- The organization that a token invites to, and the row of its invitation.
pub record OrgGrant : Type 0 where
  pub organization_id : String
  pub invitation : Invitation

-- What the checks hand on to the transaction.
pub record Passed : Type 0 where
  pub request : Request
  pub expires_at : Option ℕ
  pub invitation : Option Invitation
  pub org : Option OrgGrant

-- `x?.trim()`, where a missing text is as an empty one.
abbrev pub trimmed : Option String → String
trimmed none = ""
trimmed (some s) = trim_text s

abbrev pub is_some {ℓ} : {A : Type ℓ} → Option A → Bool
is_some none = false
is_some (some a) = true

abbrev pub or_empty : Option String → String
or_empty none = ""
or_empty (some s) = s

abbrev is_text : String → Option String → Bool
is_text s none = false
is_text s (some t) = str_eq t s

module _ (services : Services) (now : ℕ) where
  -- `expiresAtInput`.
  unfoldable pub read_expiry : Option String → Result Refusal (Option ℕ)
  read_expiry raw =
      if str_eq (trimmed raw) "" then ok none else elim (services.parse_date (trimmed raw)) [
        | none ↦ err invalid_date
        | some t ↦ ok (some t)
      ]

  -- The condition on the row that was found.
  abbrev pub is_spent : String → Invitation → Bool
  is_spent email invitation =
      leb invitation.expires_at now
      || (truthy invitation.email
          && not (str_eq (services.normalize_email (or_empty invitation.email)) email))
      || invitation.used
      || leb invitation.times_can_use invitation.times_used

  unfoldable pub judge_invitation : Request → Option Invitation → Result Refusal (Option Invitation)
  judge_invitation request none = err invalid_invitation
  judge_invitation request (some invitation) =
      if is_spent request.email invitation
      then err code_used
      else if services.verify_jwt (trimmed request.token)
      then ok (some invitation)
      else err invalid_invitation

  -- `prisma.invitation.findUnique` by token and secret.
  abbrev pub find_invitation : String → String → List Invitation → Option Invitation
  find_invitation token secret rows =
      find (λ r. str_eq r.token token && is_text secret r.secret) rows

  -- `hasValidCode`, with the invitation that makes it so.
  unfoldable pub check_code : Db → Request → Result Refusal (Option Invitation)
  check_code db request =
      let code = trimmed request.invitation_code in
      let token = trimmed request.token in
      if str_eq code "" && str_eq token ""
      then ok none
      else if str_eq code "" || str_eq token ""
      then err no_code
      else judge_invitation request (find_invitation token code db.invitations)

  abbrev is_role : Role → Role → Bool
  is_role r s = rank r == rank s

  -- The organization invitation of this token, role and email, with its invitation.
  abbrev pub find_org :
      OrgPayload → String → String → List Invitation → List OrgInvitation → Option OrgGrant
  find_org payload email token invitations [] = none
  find_org payload email token invitations (o ∷ rest) =
      let later = find_org payload email token invitations rest in
      elim (find
        (λ i.
          i.id == o.invitation_id
          && is_role payload.role i.role
          && str_eq i.token token
          && is_text email i.email)
        invitations) [
          | none ↦ later
          | some i ↦ some (record { organization_id = o.organization_id; invitation = i })
        ]

  -- The body once the token is decrypted: every throw in it becomes the same refusal.
  unfoldable pub judge_payload :
      Db → String → String → Option OrgPayload → Result Refusal (Option OrgGrant)
  judge_payload db token input_email none = err invalid_token_data
  judge_payload db token input_email (some payload) = elim payload.email [
    | none ↦ err invalid_token_data
    | some email ↦
        if ltb payload.expires_at now
        then err invalid_token_data
        else elim (find_org payload email token db.invitations db.org_invitations) [
          | none ↦ err invalid_token_data
          | some grant ↦
              if str_eq (services.normalize_email input_email) (services.normalize_email email)
              then ok (some grant)
              else err invalid_token_data
        ]
  ]

  -- `validateOrganizationToken`.
  unfoldable pub validate_organization_token :
      Db → Option String → String → Result Refusal (Option OrgGrant)
  validate_organization_token db organization_token input_email =
      let token = trimmed organization_token in
      if str_eq token ""
      then ok none
      else judge_payload db token input_email (services.decrypt_org_token token)

  -- `settings?.enableRegistration`, or something that allows the registration without it.
  abbrev pub may_register : Option Bool → Option Invitation → Option OrgGrant → Bool
  may_register none invitation org = is_some invitation || is_some org
  may_register (some enabled) invitation org = enabled || is_some invitation || is_some org

  -- The checks on the email and the password.
  unfoldable pub check_credentials : Db → Request → Result Refusal (Unit {0})
  check_credentials db request =
      if str_eq request.email ""
      then err email_required
      else if any (λ u. str_eq u.email request.email) db.users
      then err email_taken
      else if not (str_eq request.password "")
          && not (password_meets_policy (codes request.password) services.policy)
      then err weak_password
      else ok tt

  -- `register` up to the transaction.
  unfoldable pub check_request : Db → Request → Result Refusal Passed
  check_request db request = read_expiry request.expires_at >>= λ expires_at.
      validate_organization_token db request.organization_token request.email >>= λ org.
      check_code db request >>= λ invitation.
      if may_register db.settings invitation org
      then (check_credentials db request >>= λ _. ok (record {
        request = request;
        expires_at = expires_at;
        invitation = invitation;
        org = org;
      }))
      else err registration_disabled
