-- ===== src/TwoFactor/Tests.antt =====
-- A concrete second factor: two recoveries with one code, of which one goes through.
use docker_zerotier_planet.Common.{
  ◌≤◌, ◌+◌, ◌≡◌, refl, true, false, none, some, List, [], ◌∷◌, str_eq, ◌>>=◌, count, err, here,
}
use docker_zerotier_planet.TwoFactor.{
  User, Services, check_recovery, read_locked, consume_code, check_owner, check_code, check_enable,
  unauthorized,
}
use docker_zerotier_planet.TwoFactor.Run.{
  State, Event, none_changed, turned_on, recovered, enable_checked, to_enable, enabled,
  recovery_checked, recovery_locked, recovery_consumed, Runs, idle, next,
}
use docker_zerotier_planet.TwoFactor.Ledger.{is_on, is_turned_on, is_recovered, two_factor_ledger}

abbrev services : Services
services = record {
  normalize_email = λ e. e;
  compare = λ p h. str_eq p h;
  verify = λ t. some (record { id = "u"; email = "a" });
  encrypt = λ s. s;
  decrypt = λ s. some s;
  check_totp = λ c s. true;
}

abbrev owner : User
owner = record {
  id = "u";
  email = "a";
  hash = some "p";
  enabled = false;
  secret = some "01234567890123456789012345678901";
  recovery_codes = [];
}

abbrev start : State
start = record { users = owner ∷ []; approved = []; checked = []; locked = [] }

abbrev final : State
final = record {
  users = record owner { secret = none; recovery_codes = "d" ∷ [] } ∷ [];
  approved = to_enable "a" ∷ [];
  checked = ("u", "c") ∷ [];
  locked = ("u", "c", "c" ∷ "d" ∷ []) ∷ [];
}

abbrev events : List Event
events = recovered "u" ∷ none_changed ∷ none_changed ∷ turned_on "u" ∷ none_changed ∷ []

run : Runs services start events final
unfolding check_enable check_code check_recovery check_owner read_locked consume_code ◌>>=◌
run =
    next
      (next
        (next
          (next (next idle (enable_checked "a" "1" owner refl))
            (enabled "a" ("c" ∷ "d" ∷ []) owner (here refl) refl))
          (recovery_checked "t" "a" "p" "c" _ refl))
        (recovery_locked "u" "c" ("c" ∷ "d" ∷ []) (here refl) refl))
      (recovery_consumed "u" "c" ("c" ∷ "d" ∷ []) (here refl) refl)

two_factor_ledger_example :
    count (is_on "u") final.users + count (is_recovered "u") events
    ≤ count (is_on "u") start.users + count (is_turned_on "u") events
two_factor_ledger_example = two_factor_ledger services "u" run

-- A second request that read the same codes is refused.
second_refused : consume_code services "u" "c" ("c" ∷ "d" ∷ []) final.users ≡ err unauthorized
unfolding consume_code
second_refused = refl
