-- ===== src/Connection.antt =====
-- services/ztnet/src/utils/memberConnection.ts: the state of a member's connection and of its addresses.
-- The tests of the package `ip-address` are parameters; a text is its code points.
pub mod Laws
mod Tests
use mathlib.Core.List.{reverse}
use docker_zerotier_planet.Common.{
  ℕ, leading_digits, is_digit, zero, suc, ◌+◌, ◌-◌, ◌*◌, ◌≤◌, ◌<◌, String, ◌≡◌, refl, sym, ap, ◌∙◌,
  subst, ◌≢◌, ◌↔◌, ◌⊎◌, inl, inr, Bool, true, false, not, ◌&&◌, ◌||◌, Option, none, some, List, [],
  ◌∷◌, ◌++◌, map, arith, str_eq, eq_iff, ltb, leb, ◌==◌, if◌then◌else◌, Bool-cases, Option-cases,
  find, split_on, length, codes, every,
}

-- `ConnectionStatus`, a numeric enum.
abbrev pub offline : ℕ
offline = 0

abbrev pub relayed : ℕ
relayed = 1

abbrev pub direct_lan : ℕ
direct_lan = 2

abbrev pub direct_wan : ℕ
direct_wan = 3

abbrev pub controller : ℕ
controller = 4

abbrev pub unknown : ℕ
unknown = 5

pub record PeerPath : Type 0 where
  pub address : List ℕ
  pub active : Bool
  pub preferred : Bool
  pub expired : Bool

-- `activePreferredPath`, where there are peers with paths.
unfoldable pub active_preferred_path : Option (List PeerPath) → Option PeerPath
active_preferred_path none = none
active_preferred_path (some paths) = find (λ p. p.active && p.preferred && not p.expired) paths

-- What `ip-address` says of a text.
pub record Addresses : Type 0 where
  pub is_v4 : List ℕ → Bool
  pub is_v6 : List ℕ → Bool
  pub in_unique_local : List ℕ → Bool
  pub in_link_local : List ℕ → Bool

abbrev first_part : List (List ℕ) → List ℕ
first_part [] = []
first_part (p ∷ ps) = p

abbrev drop_open : List ℕ → List ℕ
drop_open [] = []
drop_open (c ∷ cs) = if c == b'[' then cs else c ∷ cs

abbrev drop_close : List ℕ → List ℕ
drop_close cs = reverse (drop_from (reverse cs))
  where
    drop_from : List ℕ → List ℕ
    drop_from [] = []
    drop_from (c ∷ cs) = if c == b']' then cs else c ∷ cs

-- The first two numbers of a valid dotted quad.
abbrev pub private_quad : ℕ → ℕ → Bool
private_quad a b =
    a == 10
    || (a == 172 && leb 16 b && leb b 31)
    || (a == 192 && b == 168)
    || a == 127
    || (a == 169 && b == 254)

abbrev pub private_parts : List (List ℕ) → Bool
private_parts [] = false
private_parts (a ∷ []) = private_quad (leading_digits 0 a) 0
private_parts (a ∷ b ∷ rest) = private_quad (leading_digits 0 a) (leading_digits 0 b)

abbrev pub same_text : List ℕ → List ℕ → Bool
same_text [] [] = true
same_text (a ∷ as') (b ∷ bs) = a == b && same_text as' bs
same_text _ _ = false

-- The address without its port and its brackets.
abbrev pub bare_ip : List ℕ → List ℕ
bare_ip address = drop_close (drop_open (first_part (split_on b'/' address)))

pub private_address : Addresses → List ℕ → Bool
private_address ip_of address =
    let ip = bare_ip address in
    if ip_of.is_v4 ip
    then private_parts (split_on b'.' ip)
    else if ip_of.is_v6 ip
    then ip_of.in_unique_local ip || ip_of.in_link_local ip || same_text ip (codes "::1")
    else false

-- `toLowerCase` on the letters that a node id may have.
abbrev lower : ℕ → ℕ
lower c = if leb b'A' c && leb c b'Z' then c + 32 else c

abbrev is_hex : ℕ → Bool
is_hex c = is_digit c || (leb b'a' (lower c) && leb (lower c) b'f')

-- `/^[0-9a-f]{10}$/i`.
abbrev pub is_node_id : List ℕ → Bool
is_node_id id = length id == 10 && every is_hex id

abbrev take : ℕ → List ℕ → List ℕ
take zero cs = []
take (suc n) [] = []
take (suc n) (c ∷ cs) = c ∷ take n cs

-- The id is the one that the network's id begins with.
abbrev pub is_controller : List ℕ → List ℕ → Bool
is_controller id nwid = is_node_id id && same_text (map lower (take 10 nwid)) (map lower id)

abbrev pub path_status : Addresses → Option Bool → Option PeerPath → ℕ
path_status ip_of online none = elim online [
  | none ↦ unknown
  | some b ↦ if b then relayed else unknown
]
path_status ip_of online (some path) =
    if private_address ip_of path.address then direct_lan else direct_wan

abbrev pub is_false : Option Bool → Bool
is_false none = false
is_false (some b) = not b

-- `determineConnectionStatus`.
unfoldable pub determine_connection_status :
    Addresses → List ℕ → List ℕ → Option (List PeerPath) → Option Bool → Bool → ℕ
determine_connection_status ip_of id nwid paths online peers_available =
    if not peers_available
    then unknown
    else if is_false online
    then offline
    else if is_controller id nwid
    then controller
    else path_status ip_of online (active_preferred_path paths)

pub data IpState : Type 0 where
  waiting_authorization assigned manual_assignment not_assigned waiting_assignment : IpState
  auto_assignment_disabled : IpState

-- The parts of a network's configuration that `memberIpState` reads; a missing flag is false.
pub record AssignModes : Type 0 where
  pub rfc4193 : Bool
  pub six_plane : Bool
  pub v6_zt : Bool
  pub v4_zt : Bool

abbrev has_computed : Option AssignModes → Bool
has_computed none = false
has_computed (some modes) = modes.rfc4193 || modes.six_plane

abbrev pool_state : Option AssignModes → IpState
pool_state none = not_assigned
pool_state (some modes) =
    if modes.v4_zt || modes.v6_zt then waiting_assignment else auto_assignment_disabled

-- `memberIpState`.
pub member_ip_state : Bool → List String → Bool → Option AssignModes → IpState
member_ip_state authorized ips no_auto modes =
    if not authorized
    then waiting_authorization
    else if ltb 0 (length ips) || has_computed modes
    then assigned
    else if no_auto
    then manual_assignment
    else pool_state modes
