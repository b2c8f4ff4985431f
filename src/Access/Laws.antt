-- ===== src/Access/Laws.antt =====
-- What the access checks decide.
use docker_zerotier_planet.Common.{
  ◌≡◌, ◌≤◌, true, false, ◌↔◌, ◌⊎◌, Option, none, some, String, arith, ok, eq_iff, truthy,
}
use docker_zerotier_planet.Access.{
  Role, rank, OrgRole, Network, Db, id_or_empty, is_author, find_org_role,
  check_user_organization_role, find_network, decide_network, check_network_access,
}

-- What the membership row must be for a request that asks for at least `wanted`.
abbrev pub Holds : Option OrgRole → Role → Type 0
Holds none wanted = ⊥
Holds (some row) wanted = rank wanted ≤ rank row.role

-- The organization check passes exactly for a user with a membership row in that organization whose
-- role ranks at least as high as the wanted one.
pub check_role_iff :
    (db : Db) (user_id organization_id : String) (wanted : Role)
    → (check_user_organization_role db user_id organization_id wanted ≡ ok tt)
      ↔ Holds (find_org_role db user_id organization_id) wanted
unfolding check_user_organization_role
check_role_iff db user_id organization_id wanted = ground arith

-- What a network row must be: an organization's network asks for the role in that organization, and
-- any other asks for its author.
abbrev pub Opens : Db → String → Role → Option Network → Type 0
Opens db user_id wanted none = ⊥
Opens db user_id wanted (some network) =
    ((truthy network.organization_id ≡ true)
      × Holds (find_org_role db user_id (id_or_empty network.organization_id)) wanted)
    ⊎ ((truthy network.organization_id ≡ false) × (network.author_id ≡ some user_id))

author_iff :
    (author : Option String) (user_id : String)
    → (is_author author user_id ≡ true) ↔ (author ≡ some user_id)
author_iff none user_id = ground arith
author_iff (some author) user_id = ground (arith, eq_iff author user_id)

decide_network_iff :
    (db : Db) (user_id : String) (wanted : Role) (network : Option Network)
    → (decide_network db user_id wanted network ≡ ok tt) ↔ Opens db user_id wanted network
unfolding decide_network
decide_network_iff db user_id wanted none = ground arith
decide_network_iff db user_id wanted (some network) = ground (
  arith,
  author_iff network.author_id user_id,
  check_role_iff db user_id (id_or_empty network.organization_id) wanted,
)

-- The network check passes exactly where the stored row of the network is an organization's and the
-- user holds the wanted role there, or is no organization's and the user is its author.
pub check_network_iff :
    (db : Db) (user_id nwid : String) (wanted : Role)
    → (check_network_access db user_id nwid wanted ≡ ok tt)
      ↔ Opens db user_id wanted (find_network db nwid)
unfolding check_network_access
check_network_iff db user_id nwid wanted =
    decide_network_iff db user_id wanted (find_network db nwid)

Opens-mono :
    (db : Db) (user_id : String) (low high : Role) (network : Option Network)
    → rank low ≤ rank high
    → Opens db user_id high network
    → Opens db user_id low network
Opens-mono db user_id low high none h p = p
Opens-mono db user_id low high (some network) h p = ground arith

-- A user who may act on a network with a role may act on it with every lower role.
pub check_network_mono :
    (db : Db) (user_id nwid : String) (low high : Role)
    → rank low ≤ rank high
    → check_network_access db user_id nwid high ≡ ok tt
    → check_network_access db user_id nwid low ≡ ok tt
check_network_mono db user_id nwid low high h p =
    (check_network_iff db user_id nwid low).1
      (Opens-mono db user_id low high _ h ((check_network_iff db user_id nwid high).0 p))
