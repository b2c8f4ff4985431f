-- ===== src/Access.antt =====
-- services/ztnet/src/utils/role.ts and networkAccess.ts: who may act in an organization or on a
-- network. The database is the two tables that the queries read; `findFirst` is the first row that fits.
pub mod Laws
mod Tests
use docker_zerotier_planet.Common.{
  ℕ, ◌≡◌, Bool, true, false, ◌&&◌, not, Option, none, some, List, String, str_eq, if◌then◌else◌,
  leb, Result, ok, err, find, ◌>>=◌, truthy,
}

pub data Role : Type 0 where
  read_only user moderator admin : Role

-- The numeric values of the enum.
abbrev pub rank : Role → ℕ
rank read_only = 0
rank user = 1
rank moderator = 2
rank admin = 3

-- A row of `UserOrganizationRole`.
pub record OrgRole : Type 0 where
  pub organization_id : String
  pub user_id : String
  pub role : Role

-- The columns of `network` that the check selects.
pub record Network : Type 0 where
  pub nwid : String
  pub author_id : Option String
  pub organization_id : Option String

pub record Db : Type 0 where
  pub org_roles : List OrgRole
  pub networks : List Network

pub data AccessError : Type 0 where
  not_member insufficient_role network_not_found no_access : AccessError

abbrev pub is_admin : Role → Bool
is_admin admin = true
is_admin _ = false

-- `prisma.userOrganizationRole.findFirst` by organization and user.
unfoldable pub find_org_role : Db → String → String → Option OrgRole
find_org_role db user_id organization_id =
    find (λ row. str_eq row.organization_id organization_id && str_eq row.user_id user_id)
      db.org_roles

-- The body after the query: the admin is let through first, then the ranks are compared.
abbrev pub decide_role : Option OrgRole → Role → Result AccessError (Unit {0})
decide_role none minimum_required_role = err not_member
decide_role (some row) minimum_required_role =
    if is_admin row.role
    then ok tt
    else if leb (rank minimum_required_role) (rank row.role)
    then ok tt
    else err insufficient_role

-- `checkUserOrganizationRole`.
unfoldable pub check_user_organization_role :
    Db → String → String → Role → Result AccessError (Unit {0})
check_user_organization_role db user_id organization_id minimum_required_role =
    decide_role (find_org_role db user_id organization_id) minimum_required_role

-- `network.authorId !== userId`, where the column may be null.
abbrev pub is_author : Option String → String → Bool
is_author none user_id = false
is_author (some author) user_id = str_eq author user_id

abbrev pub id_or_empty : Option String → String
id_or_empty none = ""
id_or_empty (some id) = id

-- The body after the query. An empty organization id is no id.
pub decide_network : Db → String → Role → Option Network → Result AccessError (Unit {0})
decide_network db user_id minimum_required_role none = err network_not_found
decide_network db user_id minimum_required_role (some network) =
    if truthy network.organization_id
    then check_user_organization_role db user_id (id_or_empty network.organization_id)
        minimum_required_role
    else if is_author network.author_id user_id
    then ok tt
    else err no_access

-- `prisma.network.findUnique` by id.
pub find_network : Db → String → Option Network
find_network db nwid = find (λ row. str_eq row.nwid nwid) db.networks

-- `checkNetworkAccess`: the organization is the one of the row, never of the request.
pub check_network_access : Db → String → String → Role → Result AccessError (Unit {0})
unfolding decide_network
check_network_access db user_id nwid minimum_required_role =
    decide_network db user_id minimum_required_role (find_network db nwid)
