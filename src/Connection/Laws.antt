-- ===== src/Connection/Laws.antt =====
-- What a connection status says of its member.
use docker_zerotier_planet.Common.{
  ℕ, ◌≤◌, ◌≡◌, ◌↔◌, ◌≢◌, ◌⊎◌, Bool, true, false, not, ◌&&◌, Option, some, List, [], ◌∷◌, ◌++◌, All,
  split_on, leading_digits, codes,
}
use docker_zerotier_planet.Connection.{
  PeerPath, Addresses, determine_connection_status, is_controller, offline, relayed, direct_lan,
  direct_wan, controller, bare_ip,
}

-- A path that is in use.
abbrev pub IsLive : PeerPath → Type 0
IsLive p = (p.active ≡ true) × (p.preferred ≡ true) × (p.expired ≡ false)

abbrev pub IsDead : PeerPath → Type 0
IsDead p = IsLive p → ⊥

-- No path of the member is in use.
abbrev pub NoPath : Option (List PeerPath) → Type 0
NoPath paths = (ps : List PeerPath) → paths ≡ some ps → All IsDead ps

-- The first of the paths that are in use.
pub record FirstPath (paths : Option (List PeerPath)) (path : PeerPath) : Type 0 where
  pub before : List PeerPath
  pub after : List PeerPath
  pub stored : paths ≡ some (before ++ path ∷ after)
  pub dead : All IsDead before
  pub live : IsLive path

-- 10/8, 172.16/12, 192.168/16, 127/8 and 169.254/16, by the first two numbers.
abbrev pub PrivateQuad : ℕ → ℕ → Type 0
PrivateQuad a b =
    (a ≡ 10)
    ⊎ ((a ≡ 172) × (16 ≤ b) × (b ≤ 31))
    ⊎ ((a ≡ 192) × (b ≡ 168))
    ⊎ (a ≡ 127)
    ⊎ ((a ≡ 169) × (b ≡ 254))

-- The first two numbers of the parts between the dots; a missing one is 0.
abbrev pub PrivateParts : List (List ℕ) → Type 0
PrivateParts [] = PrivateQuad 0 0
PrivateParts (a ∷ []) = PrivateQuad (leading_digits 0 a) 0
PrivateParts (a ∷ b ∷ rest) = PrivateQuad (leading_digits 0 a) (leading_digits 0 b)

-- A private address: such a quad, or a unique local or link local address of version 6, or its loopback.
abbrev pub IsPrivate : Addresses → List ℕ → Type 0
IsPrivate ip_of address =
    ((ip_of.is_v4 (bare_ip address) ≡ true) × PrivateParts (split_on b'.' (bare_ip address)))
    ⊎ ((ip_of.is_v4 (bare_ip address) ≡ false)
        × (ip_of.is_v6 (bare_ip address) ≡ true)
        × ((ip_of.in_unique_local (bare_ip address) ≡ true)
            ⊎ (ip_of.in_link_local (bare_ip address) ≡ true)
            ⊎ (bare_ip address ≡ codes "::1")))

is_live : PeerPath → Bool
is_live p = p.active && p.preferred && not p.expired

-- The evidence for a direct path, on the private or the public side.
abbrev pub DirectPath : Option (List PeerPath) → (List ℕ → Type 0) → Type 0
DirectPath paths Side = (path : PeerPath) × FirstPath paths path × Side path.address

module _ (ip_of : Addresses) (id nwid : List ℕ) (paths : Option (List PeerPath))
    (online : Option Bool) (peers_available : Bool) where
  abbrev pub status : ℕ
  status = determine_connection_status ip_of id nwid paths online peers_available

  -- What each status tells of the member, where the peers could be read.
  pub record Tells : Type 0 where
    pub within : status ≤ 5
    pub tells_offline : (status ≡ offline) ↔ (online ≡ some false)
    pub tells_relayed :
        (status ≡ relayed) ↔ ((online ≡ some true) × (is_controller id nwid ≡ false) × NoPath paths)
    pub tells_controller :
        (status ≡ controller) ↔ ((online ≢ some false) × (is_controller id nwid ≡ true))
    pub tells_lan : (status ≡ direct_lan) ↔ (
        (online ≢ some false)
        × (is_controller id nwid ≡ false)
        × DirectPath paths (IsPrivate ip_of))
    pub tells_wan : (status ≡ direct_wan) ↔ (
        (online ≢ some false)
        × (is_controller id nwid ≡ false)
        × DirectPath paths (λ a. IsPrivate ip_of a → ⊥))
