-- ===== src/Access/Tests.antt =====
-- The access checks on a small database.
use docker_zerotier_planet.Common.{◌≡◌, refl, ◌↔◌, none, some, [], ◌∷◌, ok, err}
use docker_zerotier_planet.Access.{
  read_only, user, moderator, admin, Db, check_user_organization_role, check_network_access,
  find_network, no_access, insufficient_role, find_org_role, decide_network,
}
use docker_zerotier_planet.Access.Laws.{check_network_iff, Opens}

abbrev sample : Db
sample = record {
  org_roles =
      record { organization_id = "org1"; user_id = "ann"; role = moderator }
      ∷ record { organization_id = "org1"; user_id = "bob"; role = read_only }
      ∷ [];
  networks =
      record { nwid = "net1"; author_id = none; organization_id = some "org1" }
      ∷ record { nwid = "net2"; author_id = some "bob"; organization_id = none }
      ∷ [];
}

moderator_passes : check_network_access sample "ann" "net1" user ≡ ok tt
unfolding check_network_access decide_network find_network check_user_organization_role
    find_org_role
moderator_passes = refl

reader_refused : check_network_access sample "bob" "net1" user ≡ err insufficient_role
unfolding check_network_access decide_network find_network check_user_organization_role
    find_org_role
reader_refused = refl

stranger_refused : check_network_access sample "ann" "net2" read_only ≡ err no_access
unfolding check_network_access decide_network find_network
stranger_refused = refl

check_network_iff_example :
    (check_network_access sample "bob" "net2" admin ≡ ok tt)
    ↔ Opens sample "bob" admin (find_network sample "net2")
check_network_iff_example = check_network_iff sample "bob" "net2" admin
