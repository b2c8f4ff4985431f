-- ===== src/Token/Issue.antt =====
-- services/ztnet/src/server/api/routers/authRouter.ts, `addApiToken` and `deleteApiToken`: the keys that
-- `decryptAndVerifyToken` reads. `JSON.stringify` and encryption are one parameter; so is the calendar.
use docker_zerotier_planet.Common.{
  ℕ, zero, suc, ◌≤◌, String, ◌≡◌, refl, sym, ap, ◌∙◌, subst, ◌≢◌, Bool, true, false, not, ◌&&◌,
  Option, none, some, List, [], ◌∷◌, ◌++◌, map, arith, str_eq, eq_iff, if◌then◌else◌, Parsed,
  Result, In, any, ok, plus, err, filter, here, find, parse_any_int, eq_refl, there, else_ok,
  ok_inj, find_holds, then_ok,
}
use docker_zerotier_planet.Token.{
  Json, text, array, undefined, Payload, Decoded, payload, AuthorizationType, type_name, ApiToken,
  User, Db, decrypt_and_verify_token, includes,
}
use docker_zerotier_planet.Token.Laws.{IsAccepted, verify_iff}

pub data IssueError : Type 0 where
  id_taken no_such_token : IssueError

-- The payload of a key, before and after the row's id is known.
abbrev pub payload_of : String → List AuthorizationType → Json → Payload
payload_of user_id types token_id = record {
  user_id = text user_id;
  token_id = token_id;
  api_authorization_type = array (map (λ t. some (type_name t)) types);
}

-- A key without a positive number of days never expires.
abbrev pub expiry_of : (ℕ → ℕ → ℕ) → ℕ → Parsed → Option ℕ
expiry_of add_days now (plus zero) = none
expiry_of add_days now (plus (suc n)) = some (add_days now (suc n))
expiry_of add_days now _ = none

-- The update of the row's key.
abbrev pub set_key : String → String → ApiToken → ApiToken
set_key id key r = if str_eq r.id id then record r { token = key } else r

set_key-id : (id key : String) (r : ApiToken) → (set_key id key r).id ≡ r.id
set_key-id id key r = ground arith

set_key-user : (id key : String) (r : ApiToken) → (set_key id key r).user_id ≡ r.user_id
set_key-user id key r = ground arith

set_key-expiry : (id key : String) (r : ApiToken) → (set_key id key r).expires_at ≡ r.expires_at
set_key-expiry id key r = ground arith

module _ (encrypt : Payload → String) (add_days : ℕ → ℕ → ℕ) where
  abbrev pub key_of : String → List AuthorizationType → String → String
  key_of user_id types id = encrypt (payload_of user_id types (text id))

  -- `addApiToken`: the row is created with a key that lacks its id, and gets the final one.
  unfoldable pub add_api_token :
      ℕ → String → List AuthorizationType → List ℕ → String → Db → Result IssueError Db
  add_api_token now user_id types days_to_expire fresh_id db =
      if any (λ r. str_eq r.id fresh_id) db.tokens
      then err id_taken
      else ok (record db {
        tokens = map (set_key fresh_id (key_of user_id types fresh_id)) (
            db.tokens
            ++ record {
              id = fresh_id;
              token = encrypt (payload_of user_id types undefined);
              user_id = user_id;
              expires_at = expiry_of add_days now (parse_any_int days_to_expire);
            }
              ∷ []);
      })

-- `deleteApiToken`, of the session's user.
unfoldable pub delete_api_token : String → String → Db → Result IssueError Db
delete_api_token id user_id db =
    if any (λ r. str_eq r.id id && str_eq r.user_id user_id) db.tokens
    then ok (record db {
      tokens = filter (λ r. not (str_eq r.id id && str_eq r.user_id user_id)) db.tokens;
    })
    else err no_such_token

includes_own :
    (wanted : AuthorizationType) (types : List AuthorizationType)
    → In wanted types
    → includes (array (map (λ t. some (type_name t)) types)) (type_name wanted) ≡ true
includes_own wanted [] i = elim i [ ]
includes_own wanted (t ∷ types) (here e) = rw (e, eq_refl (type_name t)) refl
includes_own wanted (t ∷ types) (there i) = ground (arith, includes_own wanted types i)

module _ (id user_id : String) (g : ApiToken → ApiToken) (row : ApiToken) where
  find_issued :
      str_eq row.id id ≡ true
      → str_eq row.user_id user_id ≡ true
      → ((r : ApiToken) → (g r).id ≡ r.id)
      → ((r : ApiToken) → (g r).user_id ≡ r.user_id)
      → (rows : List ApiToken) → any (λ r. str_eq r.id id) rows ≡ false
      → find (λ r. str_eq r.id id && str_eq r.user_id user_id) (map g (rows ++ row ∷ []))
        ≡ some (g row)
  find_issued h k ids users [] fresh = rw (ids row, users row, h, k) refl
  find_issued h k ids users (r ∷ rows) fresh =
      rw (ids r, users r) (ground (arith, find_issued h k ids users rows))

any-last :
    (p : ApiToken → Bool) (row : ApiToken) (g : ApiToken → ApiToken)
    → p (g row) ≡ true
    → (rows : List ApiToken) → any p (map g (rows ++ row ∷ [])) ≡ true
any-last p row g h [] = rw h refl
any-last p row g h (r ∷ rows) = ground (arith, any-last p row g h rows)

own_row :
    (owner : User) (user_id id key draft : String) (expiry : Option ℕ)
    → str_eq owner.id user_id ≡ true
    → (let row : ApiToken =
          set_key id key
            (record { id = id; token = draft; user_id = user_id; expires_at = expiry }) in
        str_eq row.user_id owner.id && str_eq row.token key)
      ≡ true
own_row owner user_id id key draft expiry h =
    rw (eq_refl id, eq_refl key) (ground (arith, eq_iff owner.id user_id, eq_iff user_id owner.id))

module _ (encrypt : Payload → String) (decode : String → Decoded) (add_days : ℕ → ℕ → ℕ)
    (user_id : String) (types : List AuthorizationType) (id : String)
    (decode_encrypt : decode (key_of encrypt add_days user_id types id)
      ≡ payload (payload_of user_id types (text id))) where
  -- A key that has just been made is accepted for its owner, wherever one of its types is asked for and
  -- no administrator is, until it expires. The owner's row is there, neither id is empty, and the key is
  -- not empty and decrypts to what was encrypted.
  pub issued_key_accepted :
      (now later : ℕ) (days : List ℕ) (db : Db) {db' : Db} (wanted : AuthorizationType)
      (owner : User)
      → add_api_token encrypt add_days now user_id types days id db ≡ ok db'
      → user_id ≢ ""
      → id ≢ ""
      → key_of encrypt add_days user_id types id ≢ ""
      → In wanted types
      → find (λ u. str_eq u.id user_id) db.users ≡ some owner
      → ((t : ℕ) → expiry_of add_days now (parse_any_int days) ≡ some t → later ≤ t)
      → decrypt_and_verify_token decode db' later
          (key_of encrypt add_days user_id types id)
          wanted
          false
        ≡ ok user_id
  unfolding add_api_token
  issued_key_accepted now later days db {db'} wanted owner h given id_given key_given i known live =
      let (fresh, h0) = else_ok (any (λ r. str_eq r.id id) db.tokens) id_taken h in
      (verify_iff decode db' later _ wanted false user_id).1 (
        subst
          (λ d.
            IsAccepted decode d later (key_of encrypt add_days user_id types id) wanted false
              user_id)
          (ok_inj h0)
          (record {
            fields = payload_of user_id types (text id);
            row = _;
            token_id = id;
            user = owner;
            key_given = key_given;
            user_given = given;
            row_given = id_given;
            decoded = decode_encrypt;
            names_user = refl;
            names_row = refl;
            authorizes = includes_own wanted types i;
            owns_row =
                find_issued id user_id (set_key id (key_of encrypt add_days user_id types id)) _
                  (eq_refl id) (eq_refl user_id) (λ r. set_key-id id _ r) (λ r. set_key-user id _ r)
                  db.tokens fresh;
            live = λ t e. live t (sym (set_key-expiry id _ _) ∙ e);
            known = known;
            holds_key =
                any-last _ _ (set_key id (key_of encrypt add_days user_id types id))
                  (own_row owner user_id id _ _ _
                    (find_holds (λ u. str_eq u.id user_id) db.users owner known))
                  db.tokens;
            is_admin = λ e. cc e;
          }))

  gone :
      (rows : List ApiToken)
      → find
          (λ r. str_eq r.id id && str_eq r.user_id user_id)
          (filter (λ r. not (str_eq r.id id && str_eq r.user_id user_id)) rows)
        ≡ none
  gone [] = refl
  gone (r ∷ rows) = ground (arith, gone rows)

  -- A key whose row its owner has deleted is refused, whatever is asked for and whenever, if the
  -- key decrypts to what was encrypted.
  pub deleted_key_refused :
      (now : ℕ) (db : Db) {db' : Db} (wanted : AuthorizationType) (require_admin : Bool)
      (u : String)
      → delete_api_token id user_id db ≡ ok db'
      → decrypt_and_verify_token decode db' now
          (key_of encrypt add_days user_id types id)
          wanted
          require_admin
        ≢ ok u
  unfolding delete_api_token
  deleted_key_refused now db {db'} wanted require_admin u h accepted =
      let (there_is, h0) =
        then_ok (any (λ r. str_eq r.id id && str_eq r.user_id user_id) db.tokens) no_such_token h in
      let a = (verify_iff decode db' now _ wanted require_admin u).0 accepted in
      let fields_eq : payload a.fields ≡ payload (payload_of user_id types (text id)) =
        sym a.decoded ∙ decode_encrypt in
      let user_eq : u ≡ user_id = cc (fields_eq, a.names_user) in
      let row_eq : a.token_id ≡ id = cc (fields_eq, a.names_row) in
      let nothing : none ≡ some a.row =
        sym (gone db.tokens)
        ∙ ap (λ (d : Db). find (λ r. str_eq r.id id && str_eq r.user_id user_id) d.tokens)
            (ok_inj h0)
        ∙ (rw (row_eq, user_eq) at a.owns_row) in
      cc nothing
