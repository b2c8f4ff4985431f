-- ===== src/Limits/Policy.antt =====
-- The settings of services/ztnet/src/utils/passwordPolicy.ts and rateLimit.ts in any environment.
use docker_zerotier_planet.Common.{ℕ, ◌≤◌, ◌≡◌, true, Option, none, some, List, arith, utf16_length}
use docker_zerotier_planet.Limits.{
  PasswordPolicy, bounded_integer, get_password_policy, classes, password_meets_policy,
  api_window_ms, api_max_requests,
}

bounded_integer_within :
    (raw : Option (List ℕ)) (fallback minimum maximum : ℕ)
    → minimum ≤ fallback
    → fallback ≤ maximum
    → (minimum ≤ bounded_integer raw fallback minimum maximum)
      × (bounded_integer raw fallback minimum maximum ≤ maximum)
unfolding bounded_integer
bounded_integer_within none fallback minimum maximum h k = (h, k)
bounded_integer_within (some value) fallback minimum maximum h k = (ground arith, ground arith)

meets_within :
    (password : List ℕ) (policy : PasswordPolicy)
    → 8 ≤ policy.min_length
    → 1 ≤ policy.min_classes
    → password_meets_policy password policy ≡ true
    → (8 ≤ utf16_length password) × (utf16_length password ≤ 128) × (1 ≤ classes password)
unfolding password_meets_policy
meets_within password policy lo lo' m = (ground arith, ground arith, ground arith)

long_meets :
    (password : List ℕ) (policy : PasswordPolicy)
    → policy.min_length ≤ 128
    → policy.min_classes ≤ 3
    → utf16_length password ≡ 128
    → classes password ≡ 3
    → password_meets_policy password policy ≡ true
unfolding password_meets_policy
long_meets password policy hi hi' e f = ground arith

-- Whatever the environment says, a password that meets the policy has 8 to 128 units and a letter or a
-- digit; and every password of 128 units with a small letter, a capital and a digit meets it.
pub policy_bounds :
    (length_raw classes_raw : Option (List ℕ)) (password : List ℕ)
    → let meets = password_meets_policy password (get_password_policy length_raw classes_raw) in
      (meets ≡ true
        → (8 ≤ utf16_length password) × (utf16_length password ≤ 128) × (1 ≤ classes password))
      × (utf16_length password ≡ 128 → classes password ≡ 3 → meets ≡ true)
unfolding get_password_policy
policy_bounds length_raw classes_raw password =
    let (lo, hi) = bounded_integer_within length_raw 14 8 128 (omega arith) (omega arith) in
    let (lo', hi') = bounded_integer_within classes_raw 2 1 3 (omega arith) (omega arith) in
    (meets_within password _ lo lo', long_meets password _ hi hi')

-- Whatever the environment says, the window is between a minute and a day, and the limit between one
-- request and a hundred thousand.
pub limits_bounded :
    (window_raw requests_raw : Option (List ℕ))
    → (60000 ≤ api_window_ms window_raw)
      × (api_window_ms window_raw ≤ 86400000)
      × (1 ≤ api_max_requests requests_raw)
      × (api_max_requests requests_raw ≤ 100000)
unfolding api_window_ms api_max_requests
limits_bounded window_raw requests_raw = (ground arith, ground arith, ground arith, ground arith)
