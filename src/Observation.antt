-- ===== src/Observation.antt =====
-- services/ztnet/src/server/api/utils/memberObservation.ts: what one reading of the controller says of a
-- member, and which columns of its row that changes. The status comes from Connection.
mod Reading
mod Columns
pub mod Laws
pub mod Timing
mod Tests
pub use Reading.*
pub use Columns.*
unfoldable pub use Columns.{drop_same, apply_patch}
unfoldable pub use Reading.{parse_member_status}
use docker_zerotier_planet.Common.{
  ℕ, zero, suc, ◌+◌, ◌-◌, ◌*◌, ◌≤◌, ◌<◌, String, ◌≡◌, refl, sym, ap, ◌∙◌, subst, ◌≢◌, ◌↔◌, ◌⊎◌, inl,
  inr, Bool, true, false, not, ◌&&◌, ◌||◌, Option, none, some, List, [], ◌∷◌, ◌++◌, map, arith,
  str_eq, eq_iff, ltb, leb, ◌==◌, if◌then◌else◌, Bool-cases, Option-cases, codes, every, max, min,
}
use docker_zerotier_planet.Connection.{
  Addresses, PeerPath, determine_connection_status, unknown, is_node_id,
}

pub data StatusSource : Type 0 where
  unavailable from_controller legacy : StatusSource

abbrev pub find_source : String → List (String × Source) → Option Source
find_source id [] = none
find_source id ((k, m) ∷ members) = if str_eq k id then some m else find_source id members

abbrev pub is_null {ℓ} : {A : Type ℓ} → Option A → Bool
is_null none = true
is_null (some a) = false

abbrev pub is : ℕ → Option ℕ → Bool
is n none = false
is n (some m) = m == n

abbrev pub is_true : Option Bool → Bool
is_true none = false
is_true (some b) = b

-- A stored time that lies at most, or at least, so long before now.
abbrev pub within : ℕ → ℕ → Option ℕ → Bool
within span now none = false
within span now (some t) = leb now (t + span)

abbrev pub elapsed : ℕ → ℕ → Option ℕ → Bool
elapsed span now none = false
elapsed span now (some t) = leb (t + span) now

-- `observedFullWindow`.
abbrev pub observed_full_window : Row → Snapshot → Bool
observed_full_window db s =
    leb (max s.controller_started_at db.creation_time + s.online_window_ms) s.clock

-- The member's entry, where it is `known`.
pub known_source : Row → LiveObservation → Option (Snapshot × Source)
known_source db live = elim live.snapshot [
  | none ↦ none
  | some s ↦ elim (find_source db.id s.members) [
    | none ↦ none
    | some m ↦
        if live.status_available && (m.observed || observed_full_window db s)
        then some (s, m)
        else none
  ]
]

abbrev status_source : LiveObservation → StatusSource
status_source live =
    if not live.status_available
    then unavailable
    else if is_null live.snapshot
    then legacy
    else from_controller

abbrev pub online_of : Option (Snapshot × Source) → Option Bool
online_of none = none
online_of (some (s, m)) = some m.online

-- `member.conStatus`.
pub con_status_of :
    Addresses
    → List ℕ
    → List ℕ
    → Option (List PeerPath)
    → LiveObservation
    → Option (Snapshot × Source)
    → ℕ
con_status_of ip_of id nwid paths live none =
    if live.status_available && is_null live.snapshot
    then determine_connection_status ip_of id nwid paths none live.peers_available
    else unknown
con_status_of ip_of id nwid paths live (some (s, m)) =
    determine_connection_status ip_of id nwid paths (some m.online) live.peers_available

-- An unknown status drops a pending change.
pub forget_pending : Row → ℕ → Patch
forget_pending db con_status =
    if con_status == unknown && not (is_null db.connection_pending_status)
    then record no_change {
      connection_pending_status = some none;
      connection_pending_since = some none;
    }
    else no_change

-- The columns that the entry gives as they are.
pub copy_source : Row → Snapshot → Source → Patch → Patch
copy_source db s m p = record p {
  online = some (some m.online);
  notify_on_first_online =
      if db.notify_on_first_online then some false else p.notify_on_first_online;
  status_observed_at = some (some s.clock);
  observation_controller_started_at = some (some s.controller_started_at);
  last_seen = if m.observed then some (some m.last_seen) else p.last_seen;
  source_last_online_at = if m.observed then some (some m.last_online) else p.source_last_online_at;
}

abbrev pub is_change : Row → ℕ → Source → Bool
is_change db con_status m =
    is_true db.online
    && m.online
    && not (is_null db.connection_status)
    && not (is con_status db.connection_status)

-- The debounce: a change of the connection is pending for 30 seconds of unbroken observation.
pub settle_connection : Row → ℕ → Snapshot → Source → Patch → Patch
settle_connection db con_status s m p =
    if con_status == unknown
    then p
    else if not (is_change db con_status m)
    then record p {
      connection_status = some (some con_status);
      connection_pending_status = some none;
      connection_pending_since = some none;
    }
    else if within 45000 s.clock db.status_observed_at
        && is con_status db.connection_pending_status
        && elapsed 30000 s.clock db.connection_pending_since
    then record p {
      connection_status = some (some con_status);
      connection_pending_status = some none;
      connection_pending_since = some none;
    }
    else if not (within 45000 s.clock db.status_observed_at)
        || not (is con_status db.connection_pending_status)
    then record p {
      connection_pending_status = some (some con_status);
      connection_pending_since = some (some s.clock);
    }
    else p

-- `preserveOnlineSince`.
abbrev pub keeps_online_since : Row → Snapshot → Source → Bool
keeps_online_since db s m =
    not (is_null db.status_observed_at)
    && is_true db.online
    && not (is_null db.last_online_at)
    && (not (is s.controller_started_at db.observation_controller_started_at)
        || is m.last_online db.source_last_online_at)

-- The times of the last transition.
pub settle_times : Row → Snapshot → Source → Patch → Patch
settle_times db s m p =
    if m.online
    then record p {
      last_online_at =
          some (if keeps_online_since db s m then db.last_online_at else some m.last_online);
    }
    else if not (is_null db.status_observed_at) && is_true db.online
    then record p {
      last_offline_at = some (
          some (
            min s.clock (
              (if m.observed then m.last_seen else s.controller_started_at) + s.online_window_ms)));
    }
    else p

-- `data` for a member with this status: without an entry it is returned at once.
pub patch_for : Row → ℕ → Option (Snapshot × Source) → Patch
patch_for db con_status none = forget_pending db con_status
patch_for db con_status (some (s, m)) = drop_same db (
    settle_times db s m
      (settle_connection db con_status s m (copy_source db s m (forget_pending db con_status))))

pub record Observed : Type 0 where
  pub source : StatusSource
  pub con_status : ℕ
  pub online : Option Bool
  pub patch : Patch

-- `observeMember`: what it sets on the member, and the patch that it returns.
pub observe_member :
    Addresses → Row → List ℕ → List ℕ → Option (List PeerPath) → LiveObservation → Observed
observe_member ip_of db id nwid paths live =
    let known = known_source db live in
    let con_status = con_status_of ip_of id nwid paths live known in
    record {
      source = status_source live;
      con_status = con_status;
      online = online_of known;
      patch = patch_for db con_status known;
    }
