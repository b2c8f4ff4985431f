-- ===== src/Observation/Tests.antt =====
-- A member that is relayed and then seen on a direct path.
use docker_zerotier_planet.Common.{
  ℕ, ◌≤◌, ◌≡◌, refl, Bool, true, false, none, some, List, [], ◌∷◌, codes,
}
use docker_zerotier_planet.Connection.{
  Addresses, determine_connection_status, active_preferred_path, relayed, direct_wan,
}
use docker_zerotier_planet.Outbox.Events.{connection_changed, status_event_types}
use docker_zerotier_planet.Outbox.Events.Laws.{told_change_waited}
use docker_zerotier_planet.Observation.{
  Row, Snapshot, Source, LiveObservation, known_source, parse_member_status, observe_member,
  con_status_of, patch_for, drop_same, settle_times, settle_connection, copy_source, forget_pending,
  apply_patch,
}
use docker_zerotier_planet.Observation.Laws.{after, IsConfirmed, status_change_waits}
use docker_zerotier_planet.Observation.Timing.{offline_time_bounded}

abbrev ip_of : Addresses
ip_of = record {
  is_v4 = λ ip. true;
  is_v6 = λ ip. false;
  in_unique_local = λ ip. false;
  in_link_local = λ ip. false;
}

abbrev node : List ℕ
node = codes "aaaaaaaaaa"

abbrev nwid : List ℕ
nwid = codes "bbbbbbbbbb000001"

-- With its status unknown where the peers cannot be read.
abbrev stored : Row
stored = record {
  id = "aaaaaaaaaa";
  creation_time = 0;
  online = some true;
  notify_on_first_online = false;
  last_seen = some 100000;
  last_online_at = some 70000;
  last_offline_at = none;
  status_observed_at = some 100000;
  observation_controller_started_at = some 5;
  source_last_online_at = some 70000;
  connection_status = some direct_wan;
  connection_pending_status = some relayed;
  connection_pending_since = some 80000;
}

abbrev snapshot : Bool → Snapshot
snapshot online = record {
  clock = 120000;
  controller_started_at = 6;
  online_window_ms = 30000;
  members =
      (
        "aaaaaaaaaa",
        record { observed = true; online = online; last_seen = 110000; last_online = 90000 },
      )
      ∷ [];
}

abbrev entry : Bool → Source
entry online = record { observed = true; online = online; last_seen = 110000; last_online = 90000 }

abbrev live : Bool → LiveObservation
live online = record {
  snapshot = some (snapshot online);
  peers_available = true;
  status_available = true;
}

known : (online : Bool) → known_source stored (live online) ≡ some (snapshot online, entry online)
known online = unfold known_source in refl

now_relayed : (after ip_of stored node nwid none (live true)).connection_status ≡ some relayed
unfolding observe_member patch_for known_source con_status_of apply_patch drop_same settle_times
    settle_connection copy_source forget_pending determine_connection_status active_preferred_path
now_relayed = refl

status_change_waits_example : IsConfirmed stored 120000 relayed
status_change_waits_example =
    status_change_waits ip_of stored node nwid none (live true) (snapshot true) (entry true)
      direct_wan relayed (known true) refl refl refl now_relayed (λ e. cc)

offline_time_bounded_example :
    (t : ℕ) × ((after ip_of stored node nwid none (live false)).last_offline_at ≡ some t)
    × (110000 ≤ t)
    × (t ≤ 120000)
    × (t ≤ 140000)
offline_time_bounded_example =
    offline_time_bounded ip_of stored node nwid none (live false) (snapshot false) (snapshot false)
      (entry false) 100000 (unfold parse_member_status in refl) (known false) refl refl refl refl

told :
    let o = observe_member ip_of stored node nwid none (live true) in
    status_event_types stored o.online o.patch ≡ connection_changed ∷ []
unfolding observe_member patch_for known_source con_status_of drop_same settle_times
    settle_connection copy_source forget_pending determine_connection_status active_preferred_path
    status_event_types
told = refl

told_change_waited_example :
    (s : Snapshot) × (m : Source) × (b : ℕ) × (known_source stored (live true) ≡ some (s, m))
    × ((observe_member ip_of stored node nwid none (live true)).patch.connection_status
        ≡ some (some b))
    × IsConfirmed stored s.clock b
told_change_waited_example = told_change_waited ip_of stored node nwid none (live true) told
