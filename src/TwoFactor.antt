-- ===== src/TwoFactor.antt =====
-- Turning the second factor on and off: services/ztnet/src/pages/api/auth/two-factor/totp/setup.ts,
-- enable.ts and disable.ts, and `mfaResetValidation` of server/api/routers/mfaAuthRouter.ts, by a recovery
-- code. The first three run in two steps, the checks and the update, the last one in three, the checks, the
-- reading in the transaction, and the update, and other requests may come in between. One-time codes, hashes and encryption are parameters.
pub mod Run
pub mod Ledger
mod Tests
use docker_zerotier_planet.Common.{
  ℕ, zero, suc, ◌+◌, ◌-◌, ◌*◌, ◌≤◌, ◌<◌, String, ◌≡◌, refl, sym, ap, ◌∙◌, subst, ◌≢◌, ◌↔◌, ◌⊎◌, inl,
  inr, Bool, true, false, not, ◌&&◌, ◌||◌, Option, none, some, List, [], ◌∷◌, ◌++◌, map, arith,
  str_eq, eq_iff, ltb, leb, ◌==◌, if◌then◌else◌, Bool-cases, Option-cases, Result, any, err, find,
  count, ok, utf16_length, truthy, codes, ◌>>=◌,
}

pub record User : Type 0 where
  pub id : String
  pub email : String
  pub hash : Option String
  pub enabled : Bool
  pub secret : Option String
  pub recovery_codes : List String

pub record Claims : Type 0 where
  pub id : String
  pub email : String

pub record Services : Type 0 where
  pub normalize_email : String → String
  pub compare : String → String → Bool
  pub verify : String → Option Claims
  pub encrypt : String → String
  pub decrypt : String → Option String
  pub check_totp : String → String → Bool

pub data Refusal : Type 0 where
  not_authenticated missing_password already_enabled not_enabled incorrect_password : Refusal
  setup_required second_factor_required incorrect_code server_error unauthorized : Refusal

-- `user.update` by a unique column: of the one row that fits.
abbrev pub update_unique : (User → Bool) → (User → User) → List User → List User
update_unique p f [] = []
update_unique p f (u ∷ users) =
    let rest = update_unique p f users in if p u then f u ∷ users else u ∷ rest

abbrev pub has_email : String → User → Bool
has_email email u = str_eq u.email email

abbrev text_of : Option String → String
text_of none = ""
text_of (some s) = s

-- Equality of lists of codes, as the database compares them.
abbrev pub same_codes : List String → List String → Bool
same_codes [] [] = true
same_codes (c ∷ cs) (d ∷ ds) = str_eq c d && same_codes cs ds
same_codes _ _ = false

-- The update of enable.ts, with the hashes of the codes that it generates.
abbrev pub enable : String → List String → List User → List User
enable email hashed users =
    update_unique (has_email email) (λ v. record v { enabled = true; recovery_codes = hashed })
      users

-- The update of disable.ts.
abbrev pub disable : String → List User → List User
disable email users =
    update_unique (has_email email) (λ v. record v { enabled = false; secret = none }) users

module _ (services : Services) where
  -- setup.ts up to its update, on the row that the session's email finds.
  unfoldable pub check_setup : Option User → String → Result Refusal User
  check_setup none password = err not_authenticated
  check_setup (some u) password = elim u.hash [
    | none ↦ err missing_password
    | some hash ↦
        if str_eq hash ""
        then err missing_password
        else if u.enabled
        then err already_enabled
        else if not (services.compare password hash)
        then err incorrect_password
        else ok u
  ]

  -- The update of setup.ts, with the generated secret.
  abbrev pub setup : String → String → List User → List User
  setup email secret users =
      update_unique (has_email email)
        (λ v. record v { enabled = false; secret = some (services.encrypt secret) }) users

  -- A code that is asked for, and right for the secret.
  unfoldable pub check_code : Option String → String → Result Refusal (Unit {0})
  check_code none totp_code = err server_error
  check_code (some secret) totp_code =
      if not (utf16_length (codes secret) == 32)
      then err server_error
      else if str_eq totp_code ""
      then err second_factor_required
      else if services.check_totp totp_code secret
      then ok tt
      else err incorrect_code

  -- enable.ts up to its update.
  unfoldable pub check_enable : Option User → String → Result Refusal User
  check_enable none totp_code = err not_authenticated
  check_enable (some u) totp_code =
      if u.enabled
      then err already_enabled
      else if not (truthy u.secret)
      then err setup_required
      else (check_code (services.decrypt (text_of u.secret)) totp_code >>= λ _. ok u)

  -- disable.ts up to its update; where it is off already it answers that it is.
  unfoldable pub check_disable : Option User → String → Result Refusal User
  check_disable none totp_code = err not_authenticated
  check_disable (some u) totp_code =
      if not (truthy u.hash)
      then err missing_password
      else if not u.enabled
      then err not_enabled
      else if str_eq totp_code ""
      then err second_factor_required
      else if not (truthy u.secret)
      then err server_error
      else (check_code (services.decrypt (text_of u.secret)) totp_code >>= λ _. ok u)

  -- `verifyRecoveryCode`.
  abbrev pub verify_recovery_code : String → List String → Bool
  verify_recovery_code provided hashed = any (services.compare provided) hashed

  -- The list without the first code that fits.
  abbrev pub splice_code : String → List String → List String
  splice_code provided [] = []
  splice_code provided (c ∷ hashed) =
      if services.compare provided c then hashed else c ∷ splice_code provided hashed

  unfoldable pub check_owner : Option User → String → String → Result Refusal User
  check_owner none password code = err unauthorized
  check_owner (some u) password code =
      if not u.enabled || not (truthy u.hash)
      then err unauthorized
      else if not (services.compare password (text_of u.hash))
      then err unauthorized
      else if not (verify_recovery_code code u.recovery_codes)
      then err unauthorized
      else ok u

  -- `mfaResetValidation` up to the transaction.
  unfoldable pub check_recovery :
      String → String → String → String → List User → Result Refusal User
  check_recovery token email password code users = elim (services.verify token) [
    | none ↦ err unauthorized
    | some claims ↦
        if str_eq (services.normalize_email claims.email) (services.normalize_email email)
        then check_owner (find (λ u. str_eq u.id claims.id) users) password code
        else err unauthorized
  ]

  -- `lockedUser`: the codes that the transaction reads.
  unfoldable pub read_locked : String → String → List User → Result Refusal (List String)
  read_locked user_id code users = elim (find (λ u. str_eq u.id user_id) users) [
    | none ↦ err unauthorized
    | some u ↦
        if not u.enabled
        then err unauthorized
        else if verify_recovery_code code u.recovery_codes
        then ok u.recovery_codes
        else err unauthorized
  ]

  -- The row is as it was when it was read.
  abbrev pub fits : String → List String → User → Bool
  fits user_id locked u = str_eq u.id user_id && u.enabled && same_codes u.recovery_codes locked

  -- The update of the transaction.
  unfoldable pub consume_code :
      String → String → List String → List User → Result Refusal (List User)
  consume_code user_id code locked users =
      if count (fits user_id locked) users == 1
      then ok (
          map
            (λ u.
              if fits user_id locked u
              then record u {
                enabled = false;
                secret = none;
                recovery_codes = splice_code code locked;
              }
              else u)
            users)
      else err unauthorized
