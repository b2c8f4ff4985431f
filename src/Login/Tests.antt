-- ===== src/Login/Tests.antt =====
-- Seven wrong passwords in one cooldown against a limit of five.
use docker_zerotier_planet.Common.{
  ℕ, ◌≤◌, ◌≡◌, refl, inl, true, false, none, some, List, [], ◌∷◌, arith, str_eq, apart, parse_int,
  parse_digits, leading_digits,
}
use docker_zerotier_planet.Login.{
  Settings, Services, Request, User, Db, sign_in_email, find_user, is_wrong, run_before_auth_hook,
  sign_in_by_email, sign_in, try_credentials, update_user, lock_of, max_failed_attempts,
  cooldown_period,
}
use docker_zerotier_planet.Login.Lockout.{Fails}
use docker_zerotier_planet.Login.Guessing.{evaluated, lockout_holds}

abbrev settings : Settings
settings = record {
  max_attempts = 5;
  cooldown = 900000;
  oauth_exclusive = false;
  has_secret = true;
}

abbrev services : Services
services = record {
  normalize_email = λ email. email;
  compare = λ password hash. str_eq password hash;
  decrypt = λ stored. none;
  check_totp = λ code secret. false;
}

abbrev ann : User
ann = record {
  id = "ann";
  email = "ann@example.org";
  hash = some "secret";
  failed_login_attempts = 0;
  last_failed_login_attempt = none;
  two_factor_enabled = false;
  two_factor_secret = none;
}

abbrev sample : Db
sample = record { users = ann ∷ []; accounts = [] }

abbrev wrong : Request
wrong = record {
  path = sign_in_email;
  email = some "ann@example.org";
  password = some "guess";
  totp_code = none;
}

abbrev attempts : List (ℕ × Request)
attempts =
    (1, wrong) ∷ (2, wrong) ∷ (3, wrong) ∷ (4, wrong) ∷ (5, wrong) ∷ (6, wrong) ∷ (7, wrong) ∷ []

-- The bounds hold whatever the environment says, and the defaults are the ones of the source.
defaults :
    (max_failed_attempts none ≡ 5)
    × (max_failed_attempts (some "0") ≡ 5)
    × (max_failed_attempts (some "-3") ≡ 1)
    × (max_failed_attempts (some "99") ≡ 20)
    × (cooldown_period none ≡ 900000)
unfolding max_failed_attempts cooldown_period parse_int parse_digits leading_digits
defaults = (refl, refl, refl, refl, refl)

five_looked_at : evaluated services settings "ann@example.org" attempts sample ≡ 5
unfolding evaluated run_before_auth_hook sign_in_by_email sign_in try_credentials update_user
    lock_of is_wrong find_user
five_looked_at = refl

wrong-Fails : Fails services settings "ann@example.org" (some "secret") false none wrong
wrong-Fails = record {
  raw_email = "ann@example.org";
  path = refl;
  addressed = refl;
  normalized = refl;
  fails = inl (unfold is_wrong in refl);
}

lockout_holds_example : evaluated services settings "ann@example.org" attempts sample ≤ 5
lockout_holds_example =
    lockout_holds services settings "ann@example.org" 0 attempts ann sample refl (omega arith)
      (apart _ _ refl) (unfold find_user in refl)
      (
        omega arith,
        omega arith,
        wrong-Fails,
        (
          omega arith,
          omega arith,
          wrong-Fails,
          (
            omega arith,
            omega arith,
            wrong-Fails,
            (
              omega arith,
              omega arith,
              wrong-Fails,
              (
                omega arith,
                omega arith,
                wrong-Fails,
                (
                  omega arith,
                  omega arith,
                  wrong-Fails,
                  (omega arith, omega arith, wrong-Fails, tt),
                ),
              ),
            ),
          ),
        ),
      )
