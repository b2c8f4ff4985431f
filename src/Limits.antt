-- ===== src/Limits.antt =====
-- services/ztnet/src/utils/passwordPolicy.ts, and of utils/rateLimit.ts the configured limits and
-- `getClientRateLimitIdentifier`. The test of an address (`isIP`) is a parameter; whether the
-- proxy is trusted is a flag. The counting itself is in the package `lru-cache`.
pub mod Policy
pub mod Source
mod Tests
use docker_zerotier_planet.Common.{
  ℕ, zero, suc, ◌+◌, ◌-◌, ◌*◌, ◌≤◌, ◌<◌, String, ◌≡◌, refl, sym, ap, ◌∙◌, subst, ◌≢◌, ◌↔◌, ◌⊎◌, inl,
  inr, Bool, true, false, not, ◌&&◌, ◌||◌, Option, none, some, List, [], ◌∷◌, ◌++◌, map, arith,
  str_eq, eq_iff, ltb, leb, ◌==◌, if◌then◌else◌, Bool-cases, Option-cases, Parsed, nan, plus, minus,
  parse_int, leading_digits, is_digit, split_on, trim, mapped_ipv4, codes, utf16_length, every, any,
  min, ◌^◌, max,
}

abbrev is_empty : List ℕ → Bool
is_empty [] = true
is_empty (c ∷ cs) = false

-- `boundedInteger` on the variable's value, if it has one.
pub bounded_integer : Option (List ℕ) → ℕ → ℕ → ℕ → ℕ
bounded_integer none fallback minimum maximum = fallback
bounded_integer (some value) fallback minimum maximum =
    let raw = trim value in
    if is_empty raw || not (every is_digit raw) || not (ltb (leading_digits 0 raw) (2 ^ 53))
    then fallback
    else min maximum (max minimum (leading_digits 0 raw))

pub record PasswordPolicy : Type 0 where
  pub min_length : ℕ
  pub min_classes : ℕ

-- `getPasswordPolicy`, from its two variables.
pub get_password_policy : Option (List ℕ) → Option (List ℕ) → PasswordPolicy
get_password_policy length_raw classes_raw = record {
  min_length = bounded_integer length_raw 14 8 128;
  min_classes = bounded_integer classes_raw 2 1 3;
}

abbrev pub is_lower : ℕ → Bool
is_lower c = leb b'a' c && leb c b'z'

abbrev pub is_upper : ℕ → Bool
is_upper c = leb b'A' c && leb c b'Z'

abbrev pub one_if : Bool → ℕ
one_if b = if b then 1 else 0

abbrev pub classes : List ℕ → ℕ
classes password =
    one_if (any is_lower password) + one_if (any is_upper password) + one_if (any is_digit password)

-- `passwordMeetsPolicy`.
unfoldable pub password_meets_policy : List ℕ → PasswordPolicy → Bool
password_meets_policy password policy =
    not (ltb (utf16_length password) policy.min_length || ltb 128 (utf16_length password))
    && leb policy.min_classes (classes password)

-- The bounds of `getApiWindowMs` and `getApiMaxRequests`.
abbrev clamp : ℕ → ℕ → Parsed → ℕ
clamp fallback hi nan = fallback
clamp fallback hi (plus n) = min hi (max 1 n)
clamp fallback hi (minus n) = 1

abbrev env_or : List ℕ → Option (List ℕ) → List ℕ
env_or fallback none = fallback
env_or fallback (some raw) = if is_empty raw then fallback else raw

pub api_window_ms : Option (List ℕ) → ℕ
api_window_ms raw = clamp 1 1440 (parse_int (env_or (codes "1") raw)) * 60 * 1000

pub api_max_requests : Option (List ℕ) → ℕ
api_max_requests raw = clamp 50 100000 (parse_int (env_or (codes "50") raw))

-- A header of the request: `x-forwarded-for` may be absent, one text or several.
pub data Header : Type 0 where
  absent : Header
  one : List ℕ → Header
  several : List (List ℕ) → Header

abbrev trimmed : List ℕ → Option (List ℕ)
trimmed cs = if is_empty (trim cs) then none else some (trim cs)

-- `firstHeader`.
pub first_header : Header → Option (List ℕ)
first_header absent = none
first_header (one cs) = trimmed cs
first_header (several []) = none
first_header (several (cs ∷ rest)) = trimmed cs

abbrev is_port : List ℕ → Bool
is_port [] = true
is_port (c ∷ cs) = c == b':' && not (is_empty cs) && every is_digit cs

-- What stands before and after the first closing bracket.
abbrev to_bracket : List ℕ → Option (List ℕ × List ℕ)
to_bracket [] = none
to_bracket (c ∷ cs) =
    let rest = to_bracket cs in
    if c == b']'
    then some ([], cs)
    else elim rest [ none ↦ none | some (inner, after) ↦ some (c ∷ inner, after) ]

abbrev bracketed : List ℕ → Option (List ℕ × List ℕ) → List ℕ
bracketed whole none = whole
bracketed whole (some (inner, after)) =
    if not (is_empty inner) && is_port after then inner else whole

-- The replacement of `[address]` and `[address]:port` by the address.
pub strip_brackets : List ℕ → List ℕ
strip_brackets [] = []
strip_brackets (c ∷ cs) = if c == b'[' then bracketed (c ∷ cs) (to_bracket cs) else c ∷ cs

abbrev same_letter : ℕ → ℕ → Bool
same_letter p c = p == c || (is_lower p && c + 32 == p)

abbrev or_text : Option (List ℕ) → List ℕ → List ℕ
or_text none candidate = candidate
or_text (some mapped) candidate = mapped

module _ (is_ip : List ℕ → Bool) where
  -- `normalizeAddress`.
  pub normalize_address : List ℕ → Option (List ℕ)
  normalize_address value =
      let candidate = strip_brackets (trim value) in
      let address = or_text (mapped_ipv4 same_letter (codes "::ffff:") candidate) candidate in
      if is_empty value || not (is_ip address) then none else some address

  -- The first part of a list, read from the right, that is an address.
  pub last_address : List (List ℕ) → Option (List ℕ)
  last_address [] = none
  last_address (part ∷ parts) = elim (last_address parts) [
    | some address ↦ some address
    | none ↦ normalize_address (trim part)
  ]

  abbrev forwarded_address : Option (List ℕ) → Option (List ℕ)
  forwarded_address none = none
  forwarded_address (some forwarded) = last_address (split_on b',' forwarded)

  abbrev peer_address : Option (List ℕ) → List ℕ
  peer_address none = codes "unknown"
  peer_address (some remote) = or_text (normalize_address remote) (codes "unknown")

  -- `getClientRateLimitIdentifier`.
  pub client_rate_limit_identifier : Bool → Header → Option (List ℕ) → List ℕ
  client_rate_limit_identifier trust_proxy forwarded remote =
      if trust_proxy
      then or_text (forwarded_address (first_header forwarded)) (peer_address remote)
      else peer_address remote
