-- ===== src/Observation/Reading.antt =====
-- The controller's reading of a network's members, lines 9-62 of memberObservation.ts.
use docker_zerotier_planet.Common.{
  ℕ, String, Bool, true, false, not, ◌&&◌, ◌||◌, Option, none, some, List, ltb, leb, if◌then◌else◌,
  codes, every,
}
use docker_zerotier_planet.Connection.{PeerPath, is_node_id}

-- `MemberObservation` and `MemberStatusSnapshot`, with the members as entries.
pub record Source : Type 0 where
  pub observed : Bool
  pub online : Bool
  pub last_seen : ℕ
  pub last_online : ℕ

pub record Snapshot : Type 0 where
  pub clock : ℕ
  pub controller_started_at : ℕ
  pub online_window_ms : ℕ
  pub members : List (String × Source)

abbrev latest_time : ℕ
latest_time = 8640000000000000

abbrev is_time : ℕ → Bool
is_time t = leb t latest_time

abbrev pub is_sane : ℕ → Source → Bool
is_sane clock m =
    not m.observed
    || (ltb 0 m.last_seen
        && ltb 0 m.last_online
        && leb m.last_online m.last_seen
        && leb m.last_seen clock)

abbrev pub is_entry : ℕ → String × Source → Bool
is_entry clock (id, m) =
    is_node_id (codes id) && is_time m.last_seen && is_time m.last_online && is_sane clock m

-- `parseMemberStatus`, on a value of the right shape.
unfoldable pub parse_member_status : Snapshot → Option Snapshot
parse_member_status s =
    if is_time s.clock
      && is_time s.controller_started_at
      && ltb 0 s.online_window_ms
      && leb s.online_window_ms 3600000
      && leb s.controller_started_at s.clock
      && every (is_entry s.clock) s.members
    then some s
    else none

-- `LiveObservation`, with the paths of the member's peer.
pub record LiveObservation : Type 0 where
  pub snapshot : Option Snapshot
  pub peers_available : Bool
  pub status_available : Bool

abbrev readable {ℓ} : {A : Type ℓ} → Option A → Bool
readable none = false
readable (some a) = true

-- `readLiveObservation`: two requests that may each fail; a controller without the status answers null.
pub read_live_observation : Option (List PeerPath) → Option (Option Snapshot) → LiveObservation
read_live_observation peers none = record {
  snapshot = none;
  peers_available = readable peers;
  status_available = false;
}
read_live_observation peers (some snapshot) = record {
  snapshot = snapshot;
  peers_available = readable peers;
  status_available = true;
}
