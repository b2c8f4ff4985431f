-- ===== src/Outbox/Events/Tests.antt =====
-- Two pollers that see the same member go offline.
use docker_zerotier_planet.Common.{ℕ, ◌≡◌, refl, true, false, none, some, [], ◌∷◌}
use docker_zerotier_planet.Observation.{Row, Patch, no_change}
use docker_zerotier_planet.Outbox.Events.{node_offline, status_event_types, persist_observed_member}
use docker_zerotier_planet.Outbox.Events.Laws.{second_poller_silent}

abbrev row : Row
row = record {
  id = "aaaaaaaaaa";
  creation_time = 0;
  online = some true;
  notify_on_first_online = false;
  last_seen = some 100;
  last_online_at = some 70;
  last_offline_at = none;
  status_observed_at = some 1;
  observation_controller_started_at = some 5;
  source_last_online_at = some 70;
  connection_status = some 3;
  connection_pending_status = none;
  connection_pending_since = none;
}

abbrev seen_at : ℕ → Patch
seen_at now = record no_change { online = some (some false); status_observed_at = some (some now) }

went : (now : ℕ) → status_event_types row (some false) (seen_at now) ≡ node_offline ∷ []
unfolding status_event_types
went now = refl

second_poller_silent_example :
    let first = (persist_observed_member row (some false) (seen_at 2) row).0 in
    persist_observed_member row (some false) (seen_at 3) first ≡ (first, [])
second_poller_silent_example =
    second_poller_silent row row (some false) (some false) (seen_at 2) (seen_at 3) refl (λ e. cc)
      (λ e. cc (went 2, e)) (λ e. cc (went 3, e))
