-- ===== src/Limits/Tests.antt =====
-- Two environments and two passwords.
use docker_zerotier_planet.Common.{
  ◌≡◌, refl, true, false, none, some, codes, leading_digits, trim, is_quad, mapped_ipv4,
}
use docker_zerotier_planet.Limits.{password_meets_policy, get_password_policy, bounded_integer}
use docker_zerotier_planet.Limits.Source.{forged_prefix_ignored}
use docker_zerotier_planet.Limits.{
  Header, one, client_rate_limit_identifier, first_header, normalize_address, strip_brackets,
}

accepted :
    password_meets_policy (codes "abcdefgh1") (get_password_policy (some (codes " 4 ")) none) ≡ true
unfolding password_meets_policy get_password_policy bounded_integer leading_digits trim
accepted = refl

refused : password_meets_policy (codes "abcdefgh1") (get_password_policy none none) ≡ false
unfolding password_meets_policy get_password_policy bounded_integer
refused = refl

abbrev chain : Header
chain = one (codes "6.6.6.6, 10.0.0.7")

forged_prefix_ignored_example :
    client_rate_limit_identifier is_quad true chain none ≡ codes "10.0.0.7"
forged_prefix_ignored_example =
    forged_prefix_ignored is_quad chain (codes "6.6.6.6") (codes " 10.0.0.7") (codes "10.0.0.7")
      none (unfold first_header trim in refl) refl
      (unfold normalize_address strip_brackets trim is_quad mapped_ipv4 in refl)
