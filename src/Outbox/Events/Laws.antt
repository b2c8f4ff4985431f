-- ===== src/Outbox/Events/Laws.antt =====
-- The events that an observation makes, and their storing by several pollers.
use docker_zerotier_planet.Common.{
  ℕ, ◌≡◌, refl, sym, subst, ◌≢◌, inl, inr, Bool, true, false, Option, none, some, List, [], ◌∷◌,
  arith, Bool-cases,
}
use docker_zerotier_planet.Connection.{Addresses, PeerPath}
use docker_zerotier_planet.Observation.{
  Row, Patch, Snapshot, Source, LiveObservation, known_source, observe_member, apply_patch,
  same_time, set,
}
use docker_zerotier_planet.Observation.Laws.{
  IsConfirmed, status_change_waits, same_time_eq, observed_online,
}
use docker_zerotier_planet.Outbox.Events.{
  is_empty, new_status, Event, connection_changed, status_event_types, persist_observed_member,
}

stored_time :
    (p : Patch) (db : Row)
    → (apply_patch p db).status_observed_at ≡ set db.status_observed_at p.status_observed_at
unfolding apply_patch
stored_time p db = refl

is_empty_not : (es : List Event) → es ≢ [] → is_empty es ≡ false
is_empty_not es h = ground arith

same_time_refl : (a : Option ℕ) → same_time a a ≡ true
same_time_refl none = refl
same_time_refl (some t) = ground arith

same_time_not : (a b : Option ℕ) → a ≢ b → same_time a b ≡ false
same_time_not a b h = elim (Bool-cases (same_time a b)) [
  | inl same ↦ absurd (h (same_time_eq a b same))
  | inr differ ↦ differ
]

first_poller :
    (db stored : Row) (online : Option Bool) (p : Patch)
    → stored.status_observed_at ≡ db.status_observed_at
    → status_event_types db online p ≢ []
    → persist_observed_member db online p stored
      ≡ (apply_patch p stored, status_event_types db online p)
unfolding persist_observed_member
first_poller db stored online p read told =
    rw (is_empty_not _ told, read, same_time_refl db.status_observed_at) refl

late_poller :
    (db stored : Row) (online : Option Bool) (p : Patch)
    → stored.status_observed_at ≢ db.status_observed_at
    → status_event_types db online p ≢ []
    → persist_observed_member db online p stored ≡ (stored, [])
unfolding persist_observed_member
late_poller db stored online p moved told =
    rw (is_empty_not _ told, same_time_not stored.status_observed_at db.status_observed_at moved)
      refl

-- Of two pollers that read the same row and both see a transition in it, the second to store it finds the
-- row observed meanwhile: it changes nothing and enqueues nothing. The first one's patch moves the time of
-- the observation.
pub second_poller_silent :
    (db stored : Row) (online online' : Option Bool) (p q : Patch)
    → stored.status_observed_at ≡ db.status_observed_at
    → set db.status_observed_at p.status_observed_at ≢ db.status_observed_at
    → status_event_types db online p ≢ []
    → status_event_types db online' q ≢ []
    → let first = (persist_observed_member db online p stored).0 in
      persist_observed_member db online' q first ≡ (first, [])
second_poller_silent db stored online online' p q read moves some_p some_q =
    let moved : (apply_patch p stored).status_observed_at ≢ db.status_observed_at =
      rw (stored_time p stored, read) moves in
    subst (λ (f : Row × List Event). persist_observed_member db online' q f.0 ≡ (f.0, []))
      (sym (first_poller db stored online p read some_p))
      (late_poller db (apply_patch p stored) online' q moved some_q)

-- What an event about the connection says of the row and of the patch.
pub record Told (db : Row) (online : Option Bool) (p : Patch) : Type 0 where
  pub old : ℕ
  pub new : ℕ
  pub was_online : db.online ≡ some true
  pub is_online : online ≡ some true
  pub had : db.connection_status ≡ some old
  pub has : p.connection_status ≡ some (some new)
  pub differ : old ≢ new

new_status_parts :
    (p : Option (Option ℕ)) (o : Option ℕ)
    → new_status p o ≡ true
    → (a b : ℕ) × (o ≡ some a) × (p ≡ some (some b)) × (a ≢ b)
new_status_parts (some (some c)) (some old) h = (old, c, refl, refl, ground arith)
new_status_parts (some (some c)) none h = cc
new_status_parts (some none) o h = cc
new_status_parts none o h = cc

told_parts :
    (db : Row) (online : Option Bool) (p : Patch)
    → status_event_types db online p ≡ connection_changed ∷ []
    → (online ≡ some true)
      × (db.online ≡ some true)
      × (new_status p.connection_status db.connection_status ≡ true)
unfolding status_event_types
told_parts db none p h = cc
told_parts db (some online) p h = ground arith

told :
    (db : Row) (online : Option Bool) (p : Patch)
    → status_event_types db online p ≡ connection_changed ∷ []
    → Told db online p
told db online p h =
    let (on', on, changed) = told_parts db online p h in
    let (a, b, had, has, differ) =
      new_status_parts p.connection_status db.connection_status changed in
    record {
      old = a;
      new = b;
      was_online = on;
      is_online = on';
      had = had;
      has = has;
      differ = differ;
    }

stored_status :
    (p : Patch) (db : Row) (b : ℕ)
    → p.connection_status ≡ some (some b)
    → (apply_patch p db).connection_status ≡ some b
unfolding apply_patch
stored_status p db b h = rw h refl

-- An observation makes an event about a member's connection only where the status that it stores was
-- pending for 30 seconds or more and the last observation is at most 45 seconds old.
pub told_change_waited :
    (ip_of : Addresses) (db : Row) (id nwid : List ℕ) (paths : Option (List PeerPath))
    (live : LiveObservation)
    → let o = observe_member ip_of db id nwid paths live in
      status_event_types db o.online o.patch ≡ connection_changed ∷ []
      → (s : Snapshot) × (m : Source) × (b : ℕ) × (known_source db live ≡ some (s, m))
        × (o.patch.connection_status ≡ some (some b))
        × IsConfirmed db s.clock b
told_change_waited ip_of db id nwid paths live h =
    let t = told db _ _ h in
    let (s, m, known, on) = observed_online ip_of db id nwid paths live t.is_online in
    (
      s,
      m,
      t.new,
      known,
      t.has,
      status_change_waits ip_of db id nwid paths live s m t.old t.new known t.was_online on t.had
          (stored_status _ db t.new t.has) t.differ,
    )
