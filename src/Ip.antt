-- ===== src/Ip.antt =====
-- services/ztnet/src/server/api/utils/ipUtils.ts, `ip2long`, `long2ip` and `getNextIP`, and `generateCidr` of
-- utils/IPv4gen.ts. A 32-bit number is a natural number below 2^32; shifts and `>>> 0` wrap.
pub mod Next
pub mod RoundTrip
pub mod Cidr
mod Tests
use docker_zerotier_planet.Common.{
  ℕ, zero, suc, ◌+◌, ◌-◌, ◌*◌, ◌≤◌, ◌<◌, String, ◌≡◌, refl, sym, ap, ◌∙◌, subst, ◌≢◌, ◌↔◌, ◌⊎◌, inl,
  inr, Bool, true, false, not, ◌&&◌, ◌||◌, Option, none, some, List, [], ◌∷◌, ◌++◌, map, arith,
  str_eq, eq_iff, ltb, leb, ◌==◌, if◌then◌else◌, Bool-cases, Option-cases, split_on, parse_any_int,
  Parsed, nan, plus, minus, ◌%◌, ◌^◌, ◌/◌, any, count, filter,
}

-- `ToInt32`, read as an unsigned number.
abbrev pub word : Parsed → ℕ
word nan = 0
word (plus n) = n % 2 ^ 32
word (minus n) = (2 ^ 32 - n % 2 ^ 32) % 2 ^ 32

-- `n << k`.
abbrev pub shl : Parsed → ℕ → ℕ
shl p k = word p * 2 ^ k % 2 ^ 32

-- `parseInt(parts[i])`, where a missing part is no number.
abbrev pub part : ℕ → List (List ℕ) → Parsed
part i [] = nan
part zero (p ∷ parts) = parse_any_int p
part (suc i) (p ∷ parts) = part i parts

-- The sum and `>>> 0`. The last part is added as it is, so that without it the sum is NaN.
abbrev sum_parts : Parsed → Parsed → Parsed → Parsed → ℕ
sum_parts a b c nan = 0
sum_parts a b c d = (shl a 24 + shl b 16 + shl c 8 + word d) % 2 ^ 32

-- `ip2long`.
unfoldable pub ip2long : List ℕ → ℕ
ip2long ip =
    let parts = split_on 46 ip in
    sum_parts (part 0 parts) (part 1 parts) (part 2 parts) (part 3 parts)

-- `toString` of a number below 256.
abbrev pub octet_text : ℕ → List ℕ
octet_text n =
    if ltb n 10
    then (48 + n) ∷ []
    else if ltb n 100
    then (48 + n / 10) ∷ (48 + n % 10) ∷ []
    else (48 + n / 100) ∷ (48 + n / 10 % 10) ∷ (48 + n % 10) ∷ []

-- `long2ip`, of a number below 2^32.
unfoldable pub long2ip : ℕ → List ℕ
long2ip long =
    octet_text (long / 2 ^ 24 % 256)
    ++ (46
        ∷ (octet_text (long / 2 ^ 16 % 256)
            ++ (46 ∷ (octet_text (long / 2 ^ 8 % 256) ++ (46 ∷ octet_text (long % 256))))))

abbrev pub same_text : List ℕ → List ℕ → Bool
same_text [] [] = true
same_text (c ∷ cs) (d ∷ ds) = c == d && same_text cs ds
same_text _ _ = false

-- `allAssignedIPs.includes(ip)`.
abbrev pub includes : List (List ℕ) → List ℕ → Bool
includes assigned ip = any (same_text ip) assigned

pub record Range : Type 0 where
  pub ip_range_start : List ℕ
  pub ip_range_end : List ℕ

-- The inner loop, from `long` over so many addresses.
unfoldable pub first_free : List (List ℕ) → ℕ → ℕ → Option (List ℕ)
first_free assigned long zero = none
first_free assigned long (suc count) =
    let later = first_free assigned (suc long) count in
    if includes assigned (long2ip long) then later else some (long2ip long)

-- `getNextIP`: a range holds no address if it ends before it starts.
unfoldable pub get_next_ip : List Range → List (List ℕ) → Option (List ℕ)
get_next_ip [] assigned = none
get_next_ip (r ∷ ranges) assigned =
    let start = ip2long r.ip_range_start in
    let end = ip2long r.ip_range_end in
    let later = get_next_ip ranges assigned in
    elim (first_free assigned start (end + 1 - start)) [ none ↦ later | some ip ↦ some ip ]

-- The options of `generateCidr`, and the least used of some of them.
abbrev pub frequency : String → List String → ℕ
frequency cidr used = count (λ u. str_eq u cidr) used

abbrev pub least_used : List String → String → Option ℕ → List String → String
least_used used cidr least [] = cidr
least_used used cidr none (c ∷ options) = least_used used c (some (frequency c used)) options
least_used used cidr (some least) (c ∷ options) =
    let smaller = least_used used c (some (frequency c used)) options in
    let same = least_used used cidr (some least) options in
    if ltb (frequency c used) least then smaller else same

abbrev pub cidr_options : List String
cidr_options =
    "10.121.15.0/24" ∷ "10.121.16.0/24" ∷ "10.121.17.0/24" ∷ "10.121.18.0/24" ∷ "10.121.19.0/24"
    ∷ "10.121.20.0/24" ∷ "10.121.21.0/24" ∷ "10.121.22.0/24" ∷ "10.121.23.0/24" ∷ "10.121.24.0/24"
    ∷ "172.25.25.0/24" ∷ "172.25.26.0/24" ∷ "172.25.27.0/24" ∷ "172.25.28.0/24" ∷ "172.25.29.0/24"
    ∷ "172.25.30.0/24" ∷ []

-- The first of the options that are not used, or else the least used.
unfoldable pub pick_cidr : String → List String → List String → String
pick_cidr first options used =
    let least = least_used used first none options in
    elim (filter (λ c. not (any (str_eq c) used)) options) [ [] ↦ least | c ∷ rest ↦ c ]

-- `cidrOptions[i]`.
abbrev pub option_at : ℕ → List String → String
option_at i [] = ""
option_at zero (c ∷ options) = c
option_at (suc i) (c ∷ options) = option_at i options

-- `generateCidr`, on the networks' ranges, flattened. `chance` is the index that is drawn, below 16.
unfoldable pub generate_cidr : List String → Bool → ℕ → String
generate_cidr used get_random chance =
    if get_random
    then option_at chance cidr_options
    else pick_cidr "10.121.15.0/24" cidr_options used
