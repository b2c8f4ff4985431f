-- ===== src/ApiRoute/Laws.antt =====
-- Who reaches a handler through the wrappers, and which status the others get.
use docker_zerotier_planet.Common.{
  ℕ, String, Result, ◌≡◌, truthy, ◌↔◌, arith, true, ok, false, Result-cases, inl, inr, some,
  Option-cases, Option, find, In, eq_iff, find_holds, find-In, In-find, none, Bool, str_eq, ◌&&◌,
}
use docker_zerotier_planet.Access.{check_user_organization_role, Network, is_author}
use docker_zerotier_planet.Token.{Decoded, personal, organization, decrypt_and_verify_token}
use docker_zerotier_planet.ApiRoute.{
  Request, Parsed, Cause, served, handle_api_errors, parse_request, text_of, or_default, OrgOptions,
  UserOptions, Call, org_call, user_call, Db, owns, run, org_authorized, org_parsed,
  secured_organization_api_route, user_parsed, secured_private_api_route, access, token, zod,
  Option, find, Thrown, handle_thrown, thrown_of, zod_error, other_value, trpc_error,
  trpc_client_error, plain_error, Bool, str_eq,
}

-- The network of the request, with that author.
abbrev is_named : Parsed → String → Network → Bool
is_named p user_id row = str_eq row.nwid (text_of p.id) && is_author row.author_id user_id

module _ {B R : Type 0} (decode : String → Decoded) (http_code : String → ℕ)
    (handler : B → Call → Result Cause R) where
  -- What stands between a request and the handler of an organization route.
  pub record OrgAdmits (options : OrgOptions) (db : Db) (now : ℕ) (p : Parsed) (user_id : String)
      : Type 0 where
    pub has_key : truthy p.api_key ≡ true
    pub has_org : or_default true options.require_org_id ≡ true → truthy p.orgid ≡ true
    pub has_network : or_default false options.require_network_id ≡ true → truthy p.nwid ≡ true
    pub accepted :
        decrypt_and_verify_token decode db.tokens now (text_of p.api_key) organization false
        ≡ ok user_id
    pub permitted :
        truthy p.orgid ≡ true
        → check_user_organization_role db.access user_id (text_of p.orgid) options.required_role
          ≡ ok tt

  thrown_status : (t : Thrown) {r : R} → handle_thrown http_code t ≡ served r → ⊥
  unfolding handle_thrown
  thrown_status zod_error h = cc h
  thrown_status other_value h = cc h
  thrown_status (trpc_error error_code) h = cc h
  thrown_status (trpc_client_error message) h = ground arith
  thrown_status (plain_error message) h = ground arith

  errors_status : (cause : Cause) {r : R} → handle_api_errors http_code cause ≡ served r → ⊥
  unfolding handle_api_errors
  errors_status cause h = thrown_status (thrown_of cause) h

  run_served :
      (body : B) (call : Call) (r : R)
      → (run decode http_code handler body call ≡ served r) ↔ (handler body call ≡ ok r)
  unfolding run
  run_served body call r = elim (Result-cases (handler body call)) [
    | inl (answer, done) ↦ ground (arith, done)
    | inr (cause, failed) ↦ ground (arith, failed, errors_status cause {r = r})
  ]

  org_authorized_served :
      (options : OrgOptions) (db : Db) (body : B) (p : Parsed) (user_id : String) (r : R)
      → (org_authorized decode http_code handler options db body p user_id ≡ served r) ↔ (
          (truthy p.orgid ≡ true
            → check_user_organization_role db.access user_id (text_of p.orgid) options.required_role
              ≡ ok tt)
          × (handler body (org_call p user_id) ≡ ok r))
  unfolding org_authorized
  org_authorized_served options db body p user_id r =
      elim (Result-cases
        (check_user_organization_role db.access user_id (text_of p.orgid) options.required_role)) [
          | inl (t, passed) ↦ ground (arith, run_served body (org_call p user_id) r)
          | inr (e, failed) ↦
              ground
                (arith, run_served body (org_call p user_id) r, errors_status (access e) {r = r})
        ]

  org_parsed_served :
      (options : OrgOptions) (db : Db) (now : ℕ) (body : B) (p : Parsed) (r : R)
      → org_parsed decode http_code handler options db now body p ≡ served r
      → (user_id : String) × OrgAdmits options db now p user_id
        × (handler body (org_call p user_id) ≡ ok r)
  unfolding org_parsed
  org_parsed_served options db now body p r h =
      elim (Result-cases
        (decrypt_and_verify_token decode db.tokens now (text_of p.api_key) organization false)) [
          | inl (u, passed) ↦
              let done = org_authorized_served options db body p u r in
              (
                u,
                record {
                  has_key = ground arith;
                  has_org = λ e. ground arith;
                  has_network = λ e. ground arith;
                  accepted = passed;
                  permitted = ground (arith, done);
                },
                ground (arith, done),
              )
          | inr (e, failed) ↦ absurd (ground (arith, errors_status (token e) {r = r}))
        ]

  org_parsed_admits :
      (options : OrgOptions) (db : Db) (now : ℕ) (body : B) (p : Parsed) (user_id : String) (r : R)
      → OrgAdmits options db now p user_id
      → handler body (org_call p user_id) ≡ ok r
      → org_parsed decode http_code handler options db now body p ≡ served r
  unfolding org_parsed
  org_parsed_admits options db now body p u r a h = ground (
    arith,
    a.accepted,
    a.has_org,
    a.has_network,
    (org_authorized_served options db body p u r).1 (a.permitted, h),
  )

  -- The handler of an organization route answers a request exactly where the request parses, carries
  -- a key that is accepted for some user as an organization key, names the organization and the
  -- network that the options require, and that user holds the required role in the organization
  -- that it names, if it names one; and the answer is the handler's for that user.
  pub org_route_served_iff :
      (options : OrgOptions) (db : Db) (now : ℕ) (req : Request B) (r : R)
      → (secured_organization_api_route decode http_code handler options db now req ≡ served r) ↔ (
          (p : Parsed) × (user_id : String) × (parse_request req ≡ some p)
          × OrgAdmits options db now p user_id
          × (handler req.body (org_call p user_id) ≡ ok r))
  unfolding secured_organization_api_route
  org_route_served_iff options db now req r = (
    λ h. elim (Option-cases (parse_request req)) [
      | inl bad ↦ absurd (ground (arith, errors_status zod {r = r}))
      | inr (p, good) ↦
          let (u, admits, answer) = org_parsed_served options db now req.body p r (ground arith) in
          (p, u, good, admits, answer)
    ],
    λ (p, u, good, admits, answer).
        ground (arith, good, org_parsed_admits options db now req.body p u r admits answer),
  )

  -- The network that the request names is there, and the user is its author.
  pub record Authors (db : Db) (p : Parsed) (user_id : String) : Type 0 where
    pub row : Network
    pub stored : In row db.access.networks
    pub named : row.nwid ≡ text_of p.id
    pub author : row.author_id ≡ some user_id

  is_author_iff :
      (author : Option String) (user_id : String)
      → (is_author author user_id ≡ true) ↔ (author ≡ some user_id)
  is_author_iff none user_id = ground arith
  is_author_iff (some author) user_id = ground (arith, eq_iff author user_id)

  owns_iff :
      (db : Db) (p : Parsed) (user_id : String) → (owns db p user_id ≡ true) ↔ Authors db p user_id
  unfolding owns
  owns_iff db p user_id = (
    λ h. elim (Option-cases (find (is_named p user_id) db.access.networks)) [
      | inl gone ↦ (let no : false ≡ true = rw (gone, owns) at h in cc no)
      | inr (row, found) ↦
          let fits = find_holds (is_named p user_id) db.access.networks row found in
          record {
            row = row;
            stored = find-In (is_named p user_id) db.access.networks row found;
            named = (eq_iff row.nwid (text_of p.id)).0 (ground arith);
            author = (is_author_iff row.author_id user_id).0 (ground arith);
          }
    ],
    λ a.
        let here : is_named p user_id a.row ≡ true = ground (
          arith,
          (eq_iff a.row.nwid (text_of p.id)).1 a.named,
          (is_author_iff a.row.author_id user_id).1 a.author,
        ) in
        let (row, found) = In-find (is_named p user_id) db.access.networks a.stored here in
        let fits = find_holds (is_named p user_id) db.access.networks row found in
        rw (found, owns) (ground (arith, fits)),
  )

  -- What stands between a request and the handler of a user's own route.
  pub record UserAdmits (options : UserOptions) (db : Db) (now : ℕ) (p : Parsed) (user_id : String)
      : Type 0 where
    pub has_key : truthy p.api_key ≡ true
    pub has_network : or_default true options.require_network_id ≡ true → truthy p.id ≡ true
    pub has_member : or_default false options.require_member_id ≡ true → truthy p.member_id ≡ true
    pub accepted :
        decrypt_and_verify_token decode db.tokens now
          (text_of p.api_key)
          personal
          (or_default false options.require_admin)
        ≡ ok user_id
    pub is_owner : or_default true options.require_network_id ≡ true → Authors db p user_id

  user_parsed_served :
      (options : UserOptions) (db : Db) (now : ℕ) (body : B) (p : Parsed) (r : R)
      → user_parsed decode http_code handler options db now body p ≡ served r
      → (user_id : String) × UserAdmits options db now p user_id
        × (handler body (user_call p user_id) ≡ ok r)
  unfolding user_parsed
  user_parsed_served options db now body p r h =
      elim (Result-cases (
        decrypt_and_verify_token decode db.tokens now (text_of p.api_key) personal
          (or_default false options.require_admin))) [
            | inl (u, passed) ↦
                let done = run_served body (user_call p u) r in
                (
                  u,
                  record {
                    has_key = ground arith;
                    has_network = λ e. ground arith;
                    has_member = λ e. ground arith;
                    accepted = passed;
                    is_owner = λ e. (owns_iff db p u).0 (ground arith);
                  },
                  ground (arith, done),
                )
            | inr (e, failed) ↦ absurd (ground (arith, errors_status (token e) {r = r}))
          ]

  user_parsed_admits :
      (options : UserOptions) (db : Db) (now : ℕ) (body : B) (p : Parsed) (user_id : String) (r : R)
      → UserAdmits options db now p user_id
      → handler body (user_call p user_id) ≡ ok r
      → user_parsed decode http_code handler options db now body p ≡ served r
  unfolding user_parsed
  user_parsed_admits options db now body p u r a h =
      let authored : or_default true options.require_network_id ≡ true → owns db p u ≡ true =
        λ e. (owns_iff db p u).1 (a.is_owner e) in
      ground (
        arith,
        a.accepted,
        a.has_member,
        a.has_network,
        authored,
        run_served body (user_call p u) r,
      )

  -- The handler of a user's own route answers a request exactly where the request parses, carries a
  -- key that is accepted for some user as a personal key (an administrator's if the options say so),
  -- names the network and the member that the options require, and that network is stored with that user
  -- as its author, unless the options waive the network; and the answer is the handler's for that user.
  pub user_route_served_iff :
      (options : UserOptions) (db : Db) (now : ℕ) (req : Request B) (r : R)
      → (secured_private_api_route decode http_code handler options db now req ≡ served r) ↔ (
          (p : Parsed) × (user_id : String) × (parse_request req ≡ some p)
          × UserAdmits options db now p user_id
          × (handler req.body (user_call p user_id) ≡ ok r))
  unfolding secured_private_api_route
  user_route_served_iff options db now req r = (
    λ h. elim (Option-cases (parse_request req)) [
      | inl bad ↦ absurd (ground (arith, errors_status zod {r = r}))
      | inr (p, good) ↦
          let (u, admits, answer) = user_parsed_served options db now req.body p r (ground arith) in
          (p, u, good, admits, answer)
    ],
    λ (p, u, good, admits, answer).
        ground (arith, good, user_parsed_admits options db now req.body p u r admits answer),
  )
