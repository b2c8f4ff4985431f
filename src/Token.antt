-- ===== src/Token.antt =====
-- services/ztnet/src/utils/encryption.ts, `decryptAndVerifyToken`: the checks on an API key.
-- Decryption and `JSON.parse` are the parameter `decode`.
pub mod Laws
pub mod Issue
mod Tests
use docker_zerotier_planet.Common.{
  ℕ, suc, zero, Bool, true, false, ◌&&◌, ◌||◌, not, Option, none, some, List, [], ◌∷◌, String,
  str_eq, if◌then◌else◌, ltb, Result, ok, err, find, filter, any, ◌>>=◌, ◌>>◌,
}

-- A field of the parsed payload. An array is listed by its texts, `none` for any other element.
pub data Json : Type 0 where
  undefined null object : Json
  bool : Bool → Json
  num : ℕ → Json
  text : String → Json
  array : List (Option String) → Json

pub record Payload : Type 0 where
  pub user_id : Json
  pub token_id : Json
  pub api_authorization_type : Json

-- What decrypting and parsing a key gives. A payload that is no object has no fields, but `null`
-- cannot be asked for one.
pub data Decoded : Type 0 where
  failed null_value : Decoded
  payload : Payload → Decoded

pub data AuthorizationType : Type 0 where
  personal organization : AuthorizationType

abbrev pub type_name : AuthorizationType → String
type_name personal = "PERSONAL"
type_name organization = "ORGANIZATION"

-- A row of `APIToken`.
pub record ApiToken : Type 0 where
  pub id : String
  pub token : String
  pub user_id : String
  pub expires_at : Option ℕ

pub record User : Type 0 where
  pub id : String
  pub is_admin : Bool

pub record Db : Type 0 where
  pub tokens : List ApiToken
  pub users : List User

pub data TokenError : Type 0 where
  key_missing invalid_token type_error invalid_authorization_type query_failed : TokenError
  token_expired unauthorized invalid_or_expired : TokenError

abbrev pub TokenResult : Type 0 → Type 0
TokenResult A = Result TokenError A

abbrev pub guard : Bool → TokenError → TokenResult (Unit {0})
guard true e = ok tt
guard false e = err e

-- JavaScript's truthiness.
abbrev pub is_truthy : Json → Bool
is_truthy undefined = false
is_truthy null = false
is_truthy object = true
is_truthy (bool b) = b
is_truthy (num zero) = false
is_truthy (num (suc n)) = true
is_truthy (text s) = not (str_eq s "")
is_truthy (array xs) = true

abbrev pub is_text : String → Option String → Bool
is_text s none = false
is_text s (some t) = str_eq t s

-- `Array.isArray(value) && value.includes(s)`.
abbrev pub includes : Json → String → Bool
includes (array xs) s = any (is_text s) xs
includes _ s = false

-- `typeof userId === "string"` and not empty; the id is handed on.
unfoldable pub user_id_of : Json → TokenResult String
user_id_of (text s) = if str_eq s "" then err invalid_token else ok s
user_id_of _ = err invalid_token

-- `findUnique` on the token's id, with its owner as a further filter. An id that is no text is
-- refused by the client library.
unfoldable pub find_token : Db → Json → String → TokenResult (Option ApiToken)
find_token db (text id) user_id =
    ok (find (λ row. str_eq row.id id && str_eq row.user_id user_id) db.tokens)
find_token db _ user_id = err query_failed

unfoldable pub not_expired : ℕ → Option ApiToken → TokenResult (Unit {0})
not_expired now none = err invalid_token
not_expired now (some row) = elim row.expires_at [
  | none ↦ ok tt
  | some expires_at ↦ guard (not (ltb expires_at now)) token_expired
]

-- The last three checks: the user is there, one of their rows holds this very key, and an
-- administrator is asked for only where the route says so.
unfoldable pub check_user : Db → String → Bool → Option User → TokenResult (Unit {0})
check_user db api_key require_admin none = err unauthorized
check_user db api_key require_admin (some user) = do
  guard (any (λ row. str_eq row.user_id user.id && str_eq row.token api_key) db.tokens)
      invalid_or_expired
  guard (not (not user.is_admin && require_admin)) unauthorized

-- `decryptAndVerifyToken`; it returns the user's id, which is all that its callers read.
module _ (decode : String → Decoded) where
  unfoldable pub parse : String → TokenResult Payload
  parse api_key = elim (decode api_key) [
    | failed ↦ err invalid_token
    | null_value ↦ err type_error
    | payload p ↦ ok p
  ]

  unfoldable pub decrypt_and_verify_token :
      Db → ℕ → String → AuthorizationType → Bool → TokenResult String
  decrypt_and_verify_token db now api_key wanted require_admin = do
    guard (not (str_eq api_key "")) key_missing
    p ← parse api_key
    user_id ← user_id_of p.user_id
    guard (is_truthy p.token_id) invalid_token
    guard (includes p.api_authorization_type (type_name wanted)) invalid_authorization_type
    row ← find_token db p.token_id user_id
    not_expired now row
    check_user db api_key require_admin (find (λ u. str_eq u.id user_id) db.users)
    ok user_id
