-- ===== src/Connection/Tests.antt =====
-- A member behind a router.
use docker_zerotier_planet.Common.{
  String, ◌≡◌, refl, true, false, Option, some, List, [], ◌∷◌, codes, is_quad, split_on,
  leading_digits,
}
use docker_zerotier_planet.Connection.{
  Addresses, PeerPath, determine_connection_status, active_preferred_path, private_address,
  direct_lan, direct_wan,
}

abbrev ip_of : Addresses
ip_of = record {
  is_v4 = is_quad;
  is_v6 = λ ip. false;
  in_unique_local = λ ip. false;
  in_link_local = λ ip. false;
}

abbrev paths : String → Option (List PeerPath)
paths address =
    some (record { address = codes address; active = true; preferred = true; expired = false } ∷ [])

local :
    determine_connection_status ip_of
      (codes "aaaaaaaaaa")
      (codes "bbbbbbbbbb000001")
      (paths "172.16.0.9/9993")
      (some true)
      true
    ≡ direct_lan
unfolding determine_connection_status active_preferred_path private_address split_on leading_digits
    is_quad
local = refl

remote :
    determine_connection_status ip_of
      (codes "aaaaaaaaaa")
      (codes "bbbbbbbbbb000001")
      (paths "172.32.0.9/9993")
      (some true)
      true
    ≡ direct_wan
unfolding determine_connection_status active_preferred_path private_address split_on leading_digits
    is_quad
remote = refl
