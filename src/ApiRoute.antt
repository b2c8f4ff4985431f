-- ===== src/ApiRoute.antt =====
-- services/ztnet/src/utils/apiRouteAuth.ts and `handleApiErrors` of errors.tsx: the two wrappers of
-- the REST routes. The handler, key decoding and tRPC's table of status codes are parameters.
pub mod Laws
pub mod Refusals
mod Tests
use docker_zerotier_planet.Common.{
  ℕ, Bool, true, false, ◌&&◌, ◌||◌, not, Option, none, some, List, String, str_eq, if◌then◌else◌,
  find, Result, ok, err, truthy,
}
use docker_zerotier_planet.Access
use docker_zerotier_planet.Access.{
  Network, not_member, insufficient_role, network_not_found, no_access, is_author, Role,
  AccessError, OrgRole, check_user_organization_role, Network,
}
use docker_zerotier_planet.Token
use docker_zerotier_planet.Token.{
  key_missing, type_error, invalid_authorization_type, query_failed, token_expired, unauthorized,
  invalid_or_expired, Decoded, TokenError, AuthorizationType, personal, organization, invalid_token,
  decrypt_and_verify_token,
}

-- A header or a query value as Next.js hands it on.
pub data Field : Type 0 where
  absent many : Field
  one : String → Field

pub record Request (B : Type 0) : Type 0 where
  pub api_key : Field
  pub orgid : Field
  pub nwid : Field
  pub member_id : Field
  pub id : Field
  pub body : B

-- What a route may throw: a validation error, a tRPC error with its code, an error with its message.
pub data Cause : Type 0 where
  zod : Cause
  trpc : String → Cause
  token : TokenError → Cause
  access : AccessError → Cause
  other : Cause

-- What the client sees: a status that the wrapper sets, or the handler's own response.
pub data Reply (R : Type 0) : Type 0 where
  status : ℕ → Reply R
  served : R → Reply R

-- The class of what is thrown, as `instanceof` tells it. A `TRPCClientError` is an `Error`.
pub data Thrown : Type 0 where
  zod_error other_value : Thrown
  trpc_error trpc_client_error plain_error : String → Thrown

-- What the key's check throws, always a plain error with its message. A `TypeError` and a failed query have
-- a message of the engine's or the database's, which stands for itself here.
abbrev token_message : TokenError → String
token_message key_missing = "API key missing"
token_message invalid_token = "Invalid token"
token_message type_error = "Cannot read properties"
token_message invalid_authorization_type = "Invalid Authorization Type"
token_message query_failed = "Query failed"
token_message token_expired = "Token expired"
token_message unauthorized = "Unauthorized"
token_message invalid_or_expired = "Invalid or expired token"

-- What the role check throws: a client error for a user who is no member, a plain one for a low role, each
-- with the first sentence of its message. The other two are thrown by `checkNetworkAccess`.
abbrev role_thrown : AccessError → Thrown
role_thrown not_member = trpc_client_error "You are not a member of this organization."
role_thrown insufficient_role =
    plain_error "You don't have required permission to perform this action."
role_thrown network_not_found = trpc_error "NOT_FOUND"
role_thrown no_access = trpc_error "BAD_REQUEST"

abbrev pub thrown_of : Cause → Thrown
thrown_of zod = zod_error
thrown_of (trpc error_code) = trpc_error error_code
thrown_of (token e) = plain_error (token_message e)
thrown_of (access e) = role_thrown e
thrown_of other = other_value

-- `handleApiErrors`, by the class of the error and its message.
pub handle_thrown : {R : Type 0} → (String → ℕ) → Thrown → Reply R
handle_thrown http_code zod_error = status 400
handle_thrown http_code (trpc_error error_code) = status (http_code error_code)
handle_thrown http_code (trpc_client_error message) =
    if str_eq message "Invalid token" then status 401 else status 500
handle_thrown http_code (plain_error message) =
    if str_eq message "Invalid token" then status 401 else status 500
handle_thrown http_code other_value = status 500

pub handle_api_errors : {R : Type 0} → (String → ℕ) → Cause → Reply R
unfolding handle_thrown
handle_api_errors http_code cause = handle_thrown http_code (thrown_of cause)

-- A validated request: `z.string().optional()` takes a text or nothing.
pub record Parsed : Type 0 where
  pub api_key : Option String
  pub orgid : Option String
  pub nwid : Option String
  pub member_id : Option String
  pub id : Option String

abbrev pub is_many : Field → Bool
is_many many = true
is_many _ = false

abbrev pub value : Field → Option String
value absent = none
value many = none
value (one s) = some s

-- `ApiRequestSchema.parse`.
pub parse_request : {B : Type 0} → Request B → Option Parsed
parse_request req =
    if is_many req.api_key
      || is_many req.orgid
      || is_many req.nwid
      || is_many req.member_id
      || is_many req.id
    then none
    else some (record {
      api_key = value req.api_key;
      orgid = value req.orgid;
      nwid = value req.nwid;
      member_id = value req.member_id;
      id = value req.id;
    })

abbrev pub text_of : Option String → String
text_of none = ""
text_of (some s) = s

-- A default that the options override.
abbrev pub or_default : Bool → Option Bool → Bool
or_default d none = d
or_default d (some b) = b

pub record OrgOptions : Type 0 where
  pub required_role : Role
  pub require_network_id : Option Bool
  pub require_org_id : Option Bool

pub record UserOptions : Type 0 where
  pub require_network_id : Option Bool
  pub require_member_id : Option Bool
  pub require_admin : Option Bool

-- What the handler is called with, beside the request's body.
pub record Call : Type 0 where
  pub user_id : String
  pub org_id : Option String
  pub network_id : Option String
  pub member_id : Option String

abbrev pub org_call : Parsed → String → Call
org_call p user_id = record {
  user_id = user_id;
  org_id = p.orgid;
  network_id = p.nwid;
  member_id = p.member_id;
}

abbrev pub user_call : Parsed → String → Call
user_call p user_id = record {
  user_id = user_id;
  org_id = none;
  network_id = p.id;
  member_id = p.member_id;
}

pub record Db : Type 0 where
  pub access : Access.Db
  pub tokens : Token.Db

-- The owner check: `findUnique` by network and author, then the author once more.
pub owns : Db → Parsed → String → Bool
owns db p user_id =
    elim (find (λ row. str_eq row.nwid (text_of p.id) && is_author row.author_id user_id)
      db.access.networks) [ none ↦ false | some row ↦ is_author row.author_id user_id ]

-- The handler takes the body and the call, and gives its response or what it throws.
module _ {B R : Type 0} (decode : String → Decoded) (http_code : String → ℕ)
    (handler : B → Call → Result Cause R) where
  -- The handler runs inside the wrapper's `try`.
  pub run : B → Call → Reply R
  run body call = elim (handler body call) [
    | ok r ↦ served r
    | err cause ↦ handle_api_errors http_code cause
  ]

  -- The wrapper after the key was accepted for a user: the role in the organization that is named.
  pub org_authorized : OrgOptions → Db → B → Parsed → String → Reply R
  unfolding run
  org_authorized options db body p user_id =
      let call = org_call p user_id in
      if truthy p.orgid
      then elim (check_user_organization_role db.access user_id (text_of p.orgid)
          options.required_role) [
            | ok _ ↦ run body call
            | err e ↦ handle_api_errors http_code (access e)
          ]
      else run body call

  -- The wrapper after the request was parsed.
  pub org_parsed : OrgOptions → Db → ℕ → B → Parsed → Reply R
  unfolding org_authorized
  org_parsed options db now body p =
      if not (truthy p.api_key)
      then status 401
      else if or_default true options.require_org_id && not (truthy p.orgid)
      then status 400
      else if or_default false options.require_network_id && not (truthy p.nwid)
      then status 400
      else elim (decrypt_and_verify_token decode db.tokens now (text_of p.api_key) organization
          false) [
            | ok user_id ↦ org_authorized options db body p user_id
            | err e ↦ handle_api_errors http_code (token e)
          ]

  -- `SecuredOrganizationApiRoute`.
  pub secured_organization_api_route : OrgOptions → Db → ℕ → Request B → Reply R
  unfolding org_parsed parse_request
  secured_organization_api_route options db now req = elim (parse_request req) [
    | none ↦ handle_api_errors http_code zod
    | some p ↦ org_parsed options db now req.body p
  ]

  pub user_parsed : UserOptions → Db → ℕ → B → Parsed → Reply R
  unfolding run
  user_parsed options db now body p =
      if not (truthy p.api_key)
      then status 401
      else if or_default true options.require_network_id && not (truthy p.id)
      then status 400
      else if or_default false options.require_member_id && not (truthy p.member_id)
      then status 400
      else elim (decrypt_and_verify_token decode db.tokens now (text_of p.api_key) personal
          (or_default false options.require_admin)) [
            | ok user_id ↦
                if or_default true options.require_network_id && not (owns db p user_id)
                then status 401
                else run body (user_call p user_id)
            | err e ↦ handle_api_errors http_code (token e)
          ]

  -- `SecuredPrivateApiRoute`.
  pub secured_private_api_route : UserOptions → Db → ℕ → Request B → Reply R
  unfolding user_parsed parse_request
  secured_private_api_route options db now req = elim (parse_request req) [
    | none ↦ handle_api_errors http_code zod
    | some p ↦ user_parsed options db now req.body p
  ]
