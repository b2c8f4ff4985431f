-- ===== src/ApiRoute/Tests.antt =====
-- Requests to the REST routes on a small database.
use docker_zerotier_planet.Common.{
  subst, sym, ◌∙◌, err, ℕ, String, ◌≡◌, refl, ◌↔◌, false, none, some, [], ◌∷◌, str_eq,
  if◌then◌else◌, ok, ◌>>=◌, Result,
}
use docker_zerotier_planet.Access.{
  user, read_only, check_user_organization_role, find_org_role, insufficient_role,
}
use docker_zerotier_planet.Token
use docker_zerotier_planet.Token.{
  Decoded, payload, failed, text, array, parse, user_id_of, find_token, not_expired, check_user,
  decrypt_and_verify_token,
}
use docker_zerotier_planet.ApiRoute.{
  Db, Request, absent, one, Call, Cause, served, OrgOptions, UserOptions, org_call, user_call,
  Parsed, parse_request, run, user_parsed, owns, secured_organization_api_route,
  secured_private_api_route, Result, status,
}
use docker_zerotier_planet.ApiRoute.Refusals.{Refusal, org_route_refused}
use docker_zerotier_planet.ApiRoute.Laws.{
  OrgAdmits, UserAdmits, org_route_served_iff, user_route_served_iff,
}

abbrev decode : String → Decoded
decode key =
    if str_eq key "key1"
    then payload (record {
      user_id = text "ann";
      token_id = text "t1";
      api_authorization_type = array (some "PERSONAL" ∷ some "ORGANIZATION" ∷ []);
    })
    else failed

abbrev code_of : String → ℕ
code_of name = if str_eq name "NOT_FOUND" then 404 else 500

abbrev handler : Unit {0} → Call → Result Cause String
handler body call = ok call.user_id

abbrev sample : Db
sample = record {
  access = record {
    org_roles = record { organization_id = "org1"; user_id = "ann"; role = read_only } ∷ [];
    networks = record { nwid = "net1"; author_id = some "ann"; organization_id = none } ∷ [];
  };
  tokens = record {
    tokens = record { id = "t1"; token = "key1"; user_id = "ann"; expires_at = none } ∷ [];
    users = record { id = "ann"; is_admin = false } ∷ [];
  };
}

abbrev org_options : OrgOptions
org_options = record { required_role = user; require_network_id = none; require_org_id = none }

abbrev user_options : UserOptions
user_options = record { require_network_id = none; require_member_id = none; require_admin = none }

abbrev org_request : Request (Unit {0})
org_request = record {
  api_key = one "key1";
  orgid = one "org1";
  nwid = absent;
  member_id = absent;
  id = absent;
  body = tt;
}

abbrev user_request : Request (Unit {0})
user_request = record {
  api_key = one "key1";
  orgid = absent;
  nwid = absent;
  member_id = absent;
  id = one "net1";
  body = tt;
}

abbrev org_request_parsed : Parsed
org_request_parsed = record {
  api_key = some "key1";
  orgid = some "org1";
  nwid = none;
  member_id = none;
  id = none;
}

owner_served :
    secured_private_api_route decode code_of handler user_options sample 10 user_request
    ≡ served "ann"
unfolding secured_private_api_route user_parsed parse_request run owns decrypt_and_verify_token
    parse user_id_of find_token not_expired check_user ◌>>=◌
owner_served = refl

accepted :
    decrypt_and_verify_token decode sample.tokens 10 "key1" Token.organization false ≡ ok "ann"
unfolding decrypt_and_verify_token parse user_id_of find_token not_expired check_user ◌>>=◌
accepted = refl

org_route_served_iff_example :
    (secured_organization_api_route decode code_of handler org_options sample 10 org_request
      ≡ served "ann")
    ↔ ((p : Parsed) × (user_id : String) × (parse_request org_request ≡ some p)
        × OrgAdmits decode code_of handler org_options sample 10 p user_id
        × (handler tt (org_call p user_id) ≡ ok "ann"))
org_route_served_iff_example =
    org_route_served_iff decode code_of handler org_options sample 10 org_request "ann"

user_route_served_iff_example :
    (secured_private_api_route decode code_of handler user_options sample 10 user_request
      ≡ served "ann")
    ↔ ((p : Parsed) × (user_id : String) × (parse_request user_request ≡ some p)
        × UserAdmits decode code_of handler user_options sample 10 p user_id
        × (handler tt (user_call p user_id) ≡ ok "ann"))
user_route_served_iff_example =
    user_route_served_iff decode code_of handler user_options sample 10 user_request "ann"

denied : check_user_organization_role sample.access "ann" "org1" user ≡ err insufficient_role
unfolding check_user_organization_role find_org_role
denied = refl

none_admitted :
    (user_id : String)
    → OrgAdmits decode code_of handler org_options sample 10 org_request_parsed user_id
    → ⊥
none_admitted u a =
    let same : ok u ≡ ok "ann" = sym a.accepted ∙ accepted in
    let who : u ≡ "ann" = cc same in
    let let_in : check_user_organization_role sample.access "ann" "org1" user ≡ ok tt =
      subst (λ (i : String). check_user_organization_role sample.access i "org1" user ≡ ok tt) who
        (a.permitted refl) in
    cc (let_in, denied)

org_route_refused_example :
    (s : ℕ) × (secured_organization_api_route decode code_of handler org_options sample 10
        org_request
      ≡ status s)
    × Refusal decode code_of handler org_options sample 10 org_request_parsed s
org_route_refused_example =
    org_route_refused decode code_of handler org_options sample 10 org_request org_request_parsed
      (unfold parse_request in refl) none_admitted
