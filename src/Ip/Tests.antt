-- ===== src/Ip/Tests.antt =====
-- Concrete addresses.
use docker_zerotier_planet.Common.{
  ℕ, ◌≡◌, refl, some, List, [], ◌∷◌, arith, codes, split_on, parse_any_int, parse_any_digits,
  parse_hex, leading_hex, parse_digits, leading_digits, false, true,
}
use docker_zerotier_planet.Ip.{
  ip2long, long2ip, get_next_ip, first_free, Range, pick_cidr, generate_cidr, cidr_options,
}
use docker_zerotier_planet.Ip.RoundTrip.{ip2long-long2ip}
use docker_zerotier_planet.Ip.Next.{IsNext, get_next_ip-IsNext}
use docker_zerotier_planet.Ip.Cidr.{IsLeast, generate_cidr-IsLeast}

ip2long-long2ip_example : ip2long (long2ip 3232235777) ≡ 3232235777
ip2long-long2ip_example = ip2long-long2ip 3232235777 (omega arith)

-- A part that is missing makes the whole no number.
short_address : ip2long (codes "10.0.0") ≡ 0
unfolding ip2long split_on parse_any_int parse_any_digits parse_hex leading_hex parse_digits
    leading_digits
short_address = refl

abbrev range : Range
range = record { ip_range_start = codes "10.0.0.254"; ip_range_end = codes "10.0.1.1" }

abbrev assigned : List (List ℕ)
assigned = codes "10.0.0.254" ∷ codes "10.0.0.255" ∷ []

over_the_edge : get_next_ip (range ∷ []) assigned ≡ some (codes "10.0.1.0")
unfolding get_next_ip first_free ip2long long2ip split_on parse_any_int parse_any_digits parse_hex
    leading_hex parse_digits leading_digits
over_the_edge = refl

get_next_ip-IsNext_example : IsNext assigned (range ∷ []) (get_next_ip (range ∷ []) assigned)
get_next_ip-IsNext_example = get_next_ip-IsNext (range ∷ []) assigned

second_choice : generate_cidr ("10.121.15.0/24" ∷ []) false 0 ≡ "10.121.16.0/24"
unfolding generate_cidr pick_cidr
second_choice = refl

generate_cidr-IsLeast_example :
    IsLeast ("10.121.15.0/24" ∷ []) cidr_options (generate_cidr ("10.121.15.0/24" ∷ []) false 0)
generate_cidr-IsLeast_example = generate_cidr-IsLeast ("10.121.15.0/24" ∷ []) 0

central : generate_cidr [] true 15 ≡ "172.25.30.0/24"
unfolding generate_cidr
central = refl

-- A part in base sixteen.
hex_part : ip2long (codes "0x0A.0.0.1") ≡ 167772161
unfolding ip2long split_on parse_any_int parse_any_digits parse_hex leading_hex parse_digits
    leading_digits
hex_part = refl
