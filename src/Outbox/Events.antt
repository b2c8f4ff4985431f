-- ===== src/Outbox/Events.antt =====
-- `statusEventTypes` and `persistObservedMember`: which events an observation makes, and the
-- compare-and-set that stores it. The event's rendering and its row are in the parent.
pub mod Laws
mod Tests
use docker_zerotier_planet.Common.{
  ℕ, zero, suc, ◌+◌, ◌-◌, ◌*◌, ◌≤◌, ◌<◌, String, ◌≡◌, refl, sym, ap, ◌∙◌, subst, ◌≢◌, ◌↔◌, ◌⊎◌, inl,
  inr, Bool, true, false, not, ◌&&◌, ◌||◌, Option, none, some, List, [], ◌∷◌, ◌++◌, map, arith,
  str_eq, eq_iff, ltb, leb, ◌==◌, if◌then◌else◌, Bool-cases, Option-cases,
}
use docker_zerotier_planet.Observation.{Row, Patch, apply_patch, is_null, same_time}
use docker_zerotier_planet.Connection.{unknown}

pub data Event : Type 0 where
  node_online node_offline connection_changed : Event

abbrev pub new_status : Option (Option ℕ) → Option ℕ → Bool
new_status (some (some c)) (some old) = not (c == old) && not (c == unknown)
new_status _ _ = false

abbrev is_online : Bool → Option Bool → Bool
is_online b none = false
is_online b (some c) = if b then c else not c

-- `statusEventTypes`.
unfoldable pub status_event_types : Row → Option Bool → Patch → List Event
status_event_types db none p = []
status_event_types db (some online) p =
    if is_null db.status_observed_at
    then (if db.notify_on_first_online && online then node_online ∷ [] else [])
    else if not (is_online online db.online)
    then (if online then node_online ∷ [] else node_offline ∷ [])
    else if online && new_status p.connection_status db.connection_status
    then connection_changed ∷ []
    else []

abbrev pub is_empty : List Event → Bool
is_empty [] = true
is_empty (e ∷ es) = false

-- `persistObservedMember` on the row as it is stored now: the row, and the events that are enqueued.
pub persist_observed_member : Row → Option Bool → Patch → Row → Row × List Event
persist_observed_member db online p stored =
    if is_empty (status_event_types db online p)
    then (apply_patch p stored, [])
    else if same_time stored.status_observed_at db.status_observed_at
    then (apply_patch p stored, status_event_types db online p)
    else (stored, [])
