-- ===== src/ApiRoute/Refusals.antt =====
-- The status of the requests that `SecuredOrganizationApiRoute` (services/ztnet/src/utils/apiRouteAuth.ts)
-- keeps from its handler.
use docker_zerotier_planet.Common.{
  ℕ, String, Result, ◌≡◌, ◌↔◌, ◌⊎◌, inl, inr, true, false, not, ◌&&◌, Option, some, none, truthy,
  arith, ok, err, Result-cases, Bool-cases, refl, ◌∙◌, ap, sym,
}
use docker_zerotier_planet.Access.{
  check_user_organization_role, AccessError, find_org_role, decide_role, not_member,
  insufficient_role, network_not_found, no_access, OrgRole, Role,
}
use docker_zerotier_planet.Token.{
  Decoded, organization, TokenError, invalid_token, decrypt_and_verify_token, key_missing,
  type_error, invalid_authorization_type, query_failed, token_expired, unauthorized,
  invalid_or_expired,
}
use docker_zerotier_planet.ApiRoute.{
  Request, Parsed, Cause, status, parse_request, text_of, or_default, OrgOptions, Call, Db,
  org_authorized, org_parsed, secured_organization_api_route, handle_api_errors, handle_thrown,
  token, access,
}
use docker_zerotier_planet.ApiRoute.Laws.{OrgAdmits}

-- The request names what the options require.
abbrev pub HasIds : OrgOptions → Parsed → Type 0
HasIds options p =
    (or_default true options.require_org_id ≡ true → truthy p.orgid ≡ true)
    × (or_default false options.require_network_id ≡ true → truthy p.nwid ≡ true)

module _ (http_code : String → ℕ) {R : Type 0} where
  -- An error of the key's check is answered by 401 if it is an invalid token, and otherwise by 500.
  token_status :
      (e : TokenError)
      → ((e ≡ invalid_token) × (handle_api_errors {R = R} http_code (token e) ≡ status 401))
        ⊎ ((e ≡ invalid_token → ⊥) × (handle_api_errors {R = R} http_code (token e) ≡ status 500))
  unfolding handle_api_errors handle_thrown
  token_status invalid_token = inl (refl, refl)
  token_status key_missing = inr (λ e. cc e, refl)
  token_status type_error = inr (λ e. cc e, refl)
  token_status invalid_authorization_type = inr (λ e. cc e, refl)
  token_status query_failed = inr (λ e. cc e, refl)
  token_status token_expired = inr (λ e. cc e, refl)
  token_status unauthorized = inr (λ e. cc e, refl)
  token_status invalid_or_expired = inr (λ e. cc e, refl)

  decided_status :
      (row : Option OrgRole) (minimum : Role) (e : AccessError)
      → decide_role row minimum ≡ err e
      → handle_api_errors {R = R} http_code (access e) ≡ status 500
  unfolding handle_api_errors handle_thrown
  decided_status none minimum not_member h = refl
  decided_status none minimum insufficient_role h = refl
  decided_status none minimum network_not_found h = cc h
  decided_status none minimum no_access h = cc h
  decided_status (some row) minimum not_member h = refl
  decided_status (some row) minimum insufficient_role h = refl
  decided_status (some row) minimum network_not_found h = ground arith
  decided_status (some row) minimum no_access h = ground arith

  role_status :
      (db : Db) (user_id org_id : String) (role : Role) (e : AccessError)
      → check_user_organization_role db.access user_id org_id role ≡ err e
      → handle_api_errors {R = R} http_code (access e) ≡ status 500
  unfolding check_user_organization_role
  role_status db user_id org_id role e h =
      decided_status (find_org_role db.access user_id org_id) role e h

module _ {B R : Type 0} (decode : String → Decoded) (http_code : String → ℕ)
    (handler : B → Call → Result Cause R) where
  -- What the status of a refusal tells of the request.
  pub record Refusal (options : OrgOptions) (db : Db) (now : ℕ) (p : Parsed) (s : ℕ) : Type 0 where
    pub within : (s ≡ 400) ⊎ (s ≡ 401) ⊎ (s ≡ 500)
    pub lacks_id : (s ≡ 400) ↔ ((truthy p.api_key ≡ true) × (HasIds options p → ⊥))
    pub not_known : (s ≡ 401) ↔ (
        (truthy p.api_key ≡ false)
        ⊎ (HasIds options p
            × (decrypt_and_verify_token decode db.tokens now (text_of p.api_key) organization false
                ≡ err invalid_token)))

  ids_cases :
      (options : OrgOptions) (p : Parsed)
      → HasIds options p
        ⊎ ((or_default true options.require_org_id ≡ true) × (truthy p.orgid ≡ false))
        ⊎ ((or_default true options.require_org_id && not (truthy p.orgid) ≡ false)
            × (or_default false options.require_network_id ≡ true)
            × (truthy p.nwid ≡ false))
  ids_cases options p = ground arith

  module _ (options : OrgOptions) (db : Db) (now : ℕ) (body : B) (p : Parsed)
      (none_admitted : (user_id : String)
        → OrgAdmits decode http_code handler options db now p user_id
        → ⊥) where
    role_refused :
        (user_id : String)
        → truthy p.api_key ≡ true
        → HasIds options p
        → decrypt_and_verify_token decode db.tokens now (text_of p.api_key) organization false
          ≡ ok user_id
        → org_authorized decode http_code handler options db body p user_id ≡ status 500
    unfolding org_authorized
    role_refused u key (org, network) accepted =
        elim (Result-cases
          (check_user_organization_role db.access u (text_of p.orgid) options.required_role)) [
            | inl (t, passed) ↦ absurd (
                none_admitted u (record {
                  has_key = key;
                  has_org = org;
                  has_network = network;
                  accepted = accepted;
                  permitted = λ named. passed;
                }))
            | inr (e, failed) ↦ elim (Bool-cases (truthy p.orgid)) [
              | inl named ↦
                  rw (named, org_authorized, failed)
                    (role_status http_code db u (text_of p.orgid) options.required_role e failed)
              | inr unnamed ↦ absurd (
                  none_admitted u (record {
                    has_key = key;
                    has_org = org;
                    has_network = network;
                    accepted = accepted;
                    permitted = λ named. absurd (cc (named, unnamed));
                  }))
            ]
          ]

    org_key_refused :
        truthy p.api_key ≡ true
        → HasIds options p
        → (s : ℕ) × (org_parsed decode http_code handler options db now body p ≡ status s)
          × Refusal options db now p s
    unfolding org_parsed
    org_key_refused key ids =
        elim (Result-cases
          (decrypt_and_verify_token decode db.tokens now (text_of p.api_key) organization false)) [
            | inl (u, accepted) ↦ (
              500,
              ground (arith, accepted, ids.0, ids.1, role_refused u key ids accepted),
              record {
                within = ground arith;
                lacks_id = (λ e. absurd (omega (arith, e)), λ (k, lacks). absurd (lacks ids));
                not_known =
                    (λ e. absurd (omega (arith, e)), λ h. absurd (ground (arith, h, accepted)));
              },
            )
            | inr (e, failed) ↦ elim (token_status http_code {R = R} e) [
              | inl (same, at_401) ↦ (
                401,
                ground (arith, failed, ids.0, ids.1, at_401),
                record {
                  within = ground arith;
                  lacks_id = (λ e. absurd (omega (arith, e)), λ (k, lacks). absurd (lacks ids));
                  not_known = (λ e. inr (ids, failed ∙ ap err same), λ h. refl);
                },
              )
              | inr (other, at_500) ↦ (
                500,
                ground (arith, failed, ids.0, ids.1, at_500),
                record {
                  within = ground arith;
                  lacks_id = (λ e. absurd (omega (arith, e)), λ (k, lacks). absurd (lacks ids));
                  not_known = (
                    λ e. absurd (omega (arith, e)),
                    λ h. elim h [
                      | inl no_key ↦ absurd (cc (no_key, key))
                      | inr (i, invalid) ↦
                          (let eq : err e ≡ err invalid_token = sym failed ∙ invalid in
                            absurd (other (cc eq)))
                    ],
                  );
                },
              )
            ]
          ]

    lacking :
        truthy p.api_key ≡ true
        → (HasIds options p → ⊥)
        → org_parsed decode http_code handler options db now body p ≡ status 400
        → (s : ℕ) × (org_parsed decode http_code handler options db now body p ≡ status s)
          × Refusal options db now p s
    lacking key lacks at_400 = (
      400,
      at_400,
      record {
        within = ground arith;
        lacks_id = (λ e. (key, lacks), λ h. refl);
        not_known = (
          λ e. absurd (omega (arith, e)),
          λ h. elim h [
            | inl no_key ↦ absurd (cc (no_key, key))
            | inr (ids, invalid) ↦ absurd (lacks ids)
          ],
        );
      },
    )

    org_parsed_refused :
        (s : ℕ) × (org_parsed decode http_code handler options db now body p ≡ status s)
        × Refusal options db now p s
    unfolding org_parsed
    org_parsed_refused = elim (Bool-cases (truthy p.api_key)) [
      | inr no_key ↦ (
        401,
        ground arith,
        record {
          within = ground arith;
          lacks_id = (λ e. absurd (omega (arith, e)), λ (k, lacks). absurd (cc (k, no_key)));
          not_known = (λ e. inl no_key, λ h. refl);
        },
      )
      | inl key ↦ elim (ids_cases options p) [
        | inl ids ↦ org_key_refused key ids
        | inr (inl (need, absent)) ↦
            lacking key (λ (org, network). cc (org need, absent)) (ground arith)
        | inr (inr (fine, need, absent)) ↦
            lacking key (λ (org, network). cc (network need, absent)) (ground arith)
      ]
    ]

  -- A request that parses and that no user is admitted for never gets to the handler of an organization
  -- route: it is answered by 400 exactly if it carries a key and lacks an id that the options require, by
  -- 401 exactly if it carries no key or, its ids there, one whose check fails as an invalid token, and by
  -- 500 otherwise, so that a user without the role gets 500.
  pub org_route_refused :
      (options : OrgOptions) (db : Db) (now : ℕ) (req : Request B) (p : Parsed)
      → parse_request req ≡ some p
      → ((user_id : String) → OrgAdmits decode http_code handler options db now p user_id → ⊥)
      → (s : ℕ) × (secured_organization_api_route decode http_code handler options db now req
          ≡ status s)
        × Refusal options db now p s
  unfolding secured_organization_api_route
  org_route_refused options db now req p good none_admitted =
      let (s, at_s, refusal) = org_parsed_refused options db now req.body p none_admitted in
      (s, ground (arith, good, at_s), refusal)
