-- ===== src/Token/Laws.antt =====
-- Which keys are accepted.
use docker_zerotier_planet.Common.{
  none, some, >>=-eq-ok, ℕ, ◌≡◌, ◌≤◌, ◌≢◌, refl, Bool, true, ◌&&◌, some, String, str_eq, ok, find,
  any, ◌>>=◌, Option, arith, eq_iff, subst, not, Option-cases, inl, inr, ◌∙◌, ◌↔◌,
}
use docker_zerotier_planet.Token.{
  text, Payload, Decoded, payload, AuthorizationType, type_name, ApiToken, User, Db, includes,
  user_id_of, find_token, not_expired, check_user, parse, decrypt_and_verify_token, Json,
  TokenError, guard, key_missing, is_truthy, invalid_token, invalid_authorization_type,
}

-- The conditions on a key, each stated on the data that it is about.
pub record IsAccepted (decode : String → Decoded) (db : Db) (now : ℕ) (api_key : String)
    (wanted : AuthorizationType) (require_admin : Bool) (user_id : String) : Type 0 where
  pub fields : Payload
  pub row : ApiToken
  pub token_id : String
  pub user : User
  pub key_given : api_key ≢ ""
  pub user_given : user_id ≢ ""
  pub row_given : token_id ≢ ""
  pub decoded : decode api_key ≡ payload fields
  pub names_user : fields.user_id ≡ text user_id
  pub names_row : fields.token_id ≡ text token_id
  pub authorizes : includes fields.api_authorization_type (type_name wanted) ≡ true
  pub owns_row : find (λ r. str_eq r.id token_id && str_eq r.user_id user_id) db.tokens ≡ some row
  pub live : (t : ℕ) → row.expires_at ≡ some t → now ≤ t
  pub known : find (λ u. str_eq u.id user_id) db.users ≡ some user
  pub holds_key : any (λ r. str_eq r.user_id user.id && str_eq r.token api_key) db.tokens ≡ true
  pub is_admin : require_admin ≡ true → user.is_admin ≡ true

user_id_of_ok : (j : Json) {u : String} → user_id_of j ≡ ok u → (j ≡ text u) × (u ≢ "")
unfolding user_id_of
user_id_of_ok (text s) {u} h = ground (arith, eq_iff s "", eq_iff u "")
user_id_of_ok _ h = cc

find_token_ok :
    (db : Db) (j : Json) (u : String) {row : Option ApiToken}
    → find_token db j u ≡ ok row
    → (id : String) × (j ≡ text id)
      × (find (λ r. str_eq r.id id && str_eq r.user_id u) db.tokens ≡ row)
unfolding find_token
find_token_ok db (text id) u h = (id, refl, cc)
find_token_ok db _ u h = cc

not_expired_ok :
    (now : ℕ) (row : Option ApiToken)
    → not_expired now row ≡ ok tt
    → (r : ApiToken) × (row ≡ some r) × ((t : ℕ) → r.expires_at ≡ some t → now ≤ t)
unfolding not_expired
not_expired_ok now none h = cc
not_expired_ok now (some r) h = (r, refl, λ t e. ground arith)

not_expired_of_live :
    (now : ℕ) (r : ApiToken)
    → ((t : ℕ) → r.expires_at ≡ some t → now ≤ t)
    → not_expired now (some r) ≡ ok tt
unfolding not_expired
not_expired_of_live now r live = elim (Option-cases r.expires_at) [
  | inl never ↦ rw never
  | inr (t, e) ↦ ground (arith, live t e)
]

check_user_ok :
    (db : Db) (api_key : String) (require_admin : Bool) (found : Option User)
    → check_user db api_key require_admin found ≡ ok tt
    → (user : User) × (found ≡ some user)
      × (any (λ r. str_eq r.user_id user.id && str_eq r.token api_key) db.tokens ≡ true)
      × (require_admin ≡ true → user.is_admin ≡ true)
unfolding check_user ◌>>=◌
check_user_ok db api_key require_admin none h = cc
check_user_ok db api_key require_admin (some user) h = (user, refl, ground arith, λ e. ground arith)

module _ (decode : String → Decoded) (db : Db) (now : ℕ) (api_key : String)
    (wanted : AuthorizationType) (require_admin : Bool) where
  parse_ok : {p : Payload} → parse decode api_key ≡ ok p → decode api_key ≡ payload p
  unfolding parse
  parse_ok h = ground arith

  guard_ok : (b : Bool) (e : TokenError) {t : Unit {0}} → guard b e ≡ ok t → b ≡ true
  guard_ok b e h = ground arith

  -- The parts of an accepted key, from the steps that passed.
  collect :
      (p : Payload) (u : String) (row : Option ApiToken)
      → guard (not (str_eq api_key "")) key_missing ≡ ok tt
      → parse decode api_key ≡ ok p
      → user_id_of p.user_id ≡ ok u
      → guard (is_truthy p.token_id) invalid_token ≡ ok tt
      → guard (includes p.api_authorization_type (type_name wanted)) invalid_authorization_type
        ≡ ok tt
      → find_token db p.token_id u ≡ ok row
      → not_expired now row ≡ ok tt
      → check_user db api_key require_admin (find (λ u'. str_eq u'.id u) db.users) ≡ ok tt
      → IsAccepted decode db now api_key wanted require_admin u
  collect p u row key parsed user given type found live checked =
      let (is_user, user_given) = user_id_of_ok p.user_id user in
      let (id, is_row, owned) = find_token_ok db p.token_id u found in
      let (r, row_found, in_time) = not_expired_ok now row live in
      let (who, known, holds, admin) = check_user_ok db api_key require_admin _ checked in
      record {
        fields = p;
        row = r;
        token_id = id;
        user = who;
        key_given = ground (arith, guard_ok _ _ key, eq_iff api_key "");
        user_given = user_given;
        row_given = ground (arith, guard_ok _ _ given, is_row, eq_iff id "");
        decoded = parse_ok parsed;
        names_user = is_user;
        names_row = is_row;
        authorizes = guard_ok _ _ type;
        owns_row = owned ∙ row_found;
        live = in_time;
        known = known;
        holds_key = holds;
        is_admin = admin;
      }

  verify_sound :
      {u : String}
      → decrypt_and_verify_token decode db now api_key wanted require_admin ≡ ok u
      → IsAccepted decode db now api_key wanted require_admin u
  unfolding decrypt_and_verify_token
  verify_sound {u = u'} h =
      let (g0, key, h0) = >>=-eq-ok h in
      let (p, parsed, h1) = >>=-eq-ok h0 in
      let (u, user, h2) = >>=-eq-ok h1 in
      let (g1, given, h3) = >>=-eq-ok h2 in
      let (g2, type, h4) = >>=-eq-ok h3 in
      let (row, found, h5) = >>=-eq-ok h4 in
      let (g3, live, h6) = >>=-eq-ok h5 in
      let (g4, checked, h7) = >>=-eq-ok h6 in
      let same : u ≡ u' = cc h7 in
      subst (IsAccepted decode db now api_key wanted require_admin) same
        (collect p u row key parsed user given type found live checked)

  verify_complete :
      {u : String}
      → IsAccepted decode db now api_key wanted require_admin u
      → decrypt_and_verify_token decode db now api_key wanted require_admin ≡ ok u
  unfolding decrypt_and_verify_token parse user_id_of find_token check_user ◌>>=◌
  verify_complete {u = u} a = ground (
    arith,
    eq_iff api_key "",
    eq_iff u "",
    eq_iff a.token_id "",
    not_expired_of_live now a.row a.live,
  )

-- A key is accepted for a user exactly where the payload names that user and a stored row of theirs,
-- the row has not expired, the user exists and holds this very key, the payload carries the wanted
-- authorization type, and the user is an administrator if the route asks for one.
pub verify_iff :
    (decode : String → Decoded) (db : Db) (now : ℕ) (api_key : String) (wanted : AuthorizationType)
    (require_admin : Bool) (u : String)
    → (decrypt_and_verify_token decode db now api_key wanted require_admin ≡ ok u)
      ↔ IsAccepted decode db now api_key wanted require_admin u
verify_iff decode db now api_key wanted require_admin u = (
  verify_sound decode db now api_key wanted require_admin,
  verify_complete decode db now api_key wanted require_admin,
)
