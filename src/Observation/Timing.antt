-- ===== src/Observation/Timing.antt =====
-- The times that an observation stores: when a member went offline, and since when it has been online.
use docker_zerotier_planet.Common.{
  ℕ, ◌+◌, ◌≤◌, String, ◌≡◌, ap, ◌∙◌, subst, ◌≢◌, inl, inr, Bool, true, false, Option, none, some,
  List, [], ◌∷◌, arith, str_eq, if◌then◌else◌, Bool-cases, Option-cases, every, min,
}
use docker_zerotier_planet.Connection.{Addresses, PeerPath}
use docker_zerotier_planet.Observation.{
  Row, Snapshot, Source, LiveObservation, is, known_source, parse_member_status, find_source,
  is_sane, is_entry, forget_pending, copy_source, settle_connection, settle_times, apply_patch,
}
use docker_zerotier_planet.Observation.Laws.{after, after_known, is_iff}

-- An entry of a snapshot that was accepted is sane.
find-sane :
    (clock : ℕ) (id : String) (members : List (String × Source)) (m : Source)
    → every (is_entry clock) members ≡ true
    → find_source id members ≡ some m
    → is_sane clock m ≡ true
find-sane clock id [] m h e = cc
find-sane clock id ((k, n) ∷ members) m h e = elim (Bool-cases (str_eq k id)) [
  | inl same ↦
      let this : n ≡ m = ground arith in subst (λ x. is_sane clock x ≡ true) this (ground arith)
  | inr differ ↦ find-sane clock id members m (ground arith) (ground arith)
]

known_parts :
    (b : Bool) (s' s : Snapshot) (m' m : Source)
    → ◌≡◌ {A = Option (Snapshot × Source)} (if b then some (s', m') else none) (some (s, m))
    → (s' ≡ s) × (m' ≡ m)
known_parts true s' s m' m h = ground arith
known_parts false s' s m' m h = cc

known_find :
    (db : Row) (live : LiveObservation) (s : Snapshot) (m : Source)
    → known_source db live ≡ some (s, m)
    → (live.snapshot ≡ some s) × (find_source db.id s.members ≡ some m)
unfolding known_source
known_find db live s m h = elim (Option-cases live.snapshot) [
  | inl none' ↦ absurd (ground arith)
  | inr (s', e) ↦ elim (Option-cases (find_source db.id s'.members)) [
    | inl none' ↦ absurd (ground arith)
    | inr (m', f) ↦
        let (p, q) = known_parts _ s' s m' m (rw (e, f, known_source) at h) in
        (e ∙ ap some p, subst (λ x. find_source db.id x.members ≡ some m) p (f ∙ ap some q))
  ]
]

guarded :
    {A : Type 0} (b : Bool) (raw s : A)
    → ◌≡◌ {A = Option A} (if b then some raw else none) (some s)
    → (b ≡ true) × (raw ≡ s)
guarded true raw s h = ground arith
guarded false raw s h = cc

parsed_entries :
    (raw s : Snapshot)
    → parse_member_status raw ≡ some s
    → every (is_entry s.clock) s.members ≡ true
unfolding parse_member_status
parsed_entries raw s h =
    let (passed, same) = guarded _ raw s h in
    subst (λ x. every (is_entry x.clock) x.members ≡ true) same (ground arith)

went_offline :
    (db : Row) (cs : ℕ) (s : Snapshot) (m : Source) (o : ℕ)
    → db.online ≡ some true
    → db.status_observed_at ≡ some o
    → m.online ≡ false
    → m.observed ≡ true
    → (apply_patch
        (settle_times db s m
          (settle_connection db cs s m (copy_source db s m (forget_pending db cs))))
        db).last_offline_at
      ≡ some (min s.clock (m.last_seen + s.online_window_ms))
unfolding apply_patch settle_times settle_connection copy_source forget_pending
went_offline db cs s m o on at off seen = ground arith

still_online :
    (db : Row) (cs : ℕ) (s : Snapshot) (m : Source) (o t : ℕ)
    → db.online ≡ some true
    → db.status_observed_at ≡ some o
    → db.last_online_at ≡ some t
    → m.online ≡ true
    → is s.controller_started_at db.observation_controller_started_at ≡ false
    → (apply_patch
        (settle_times db s m
          (settle_connection db cs s m (copy_source db s m (forget_pending db cs))))
        db).last_online_at
      ≡ some t
unfolding apply_patch settle_times settle_connection copy_source forget_pending
still_online db cs s m o t on at since on' boot = ground arith

module _ (ip_of : Addresses) (db : Row) (id nwid : List ℕ) (paths : Option (List PeerPath))
    (live : LiveObservation) where
  -- A member that was online at the last observation and is now seen offline, in a snapshot that the
  -- parser accepts, gets a time for it that lies between when the controller last saw it and the
  -- controller's clock, and at most the online window after it was last seen.
  pub offline_time_bounded :
      (s raw : Snapshot) (m : Source) (o : ℕ)
      → parse_member_status raw ≡ some s
      → known_source db live ≡ some (s, m)
      → db.online ≡ some true
      → db.status_observed_at ≡ some o
      → m.online ≡ false
      → m.observed ≡ true
      → (t : ℕ) × ((after ip_of db id nwid paths live).last_offline_at ≡ some t)
        × (m.last_seen ≤ t)
        × (t ≤ s.clock)
        × (t ≤ m.last_seen + s.online_window_ms)
  offline_time_bounded s raw m o parsed known on at off seen =
      let every_ok : every (is_entry s.clock) s.members ≡ true = parsed_entries raw s parsed in
      let sane = find-sane s.clock db.id s.members m every_ok (known_find db live s m known).1 in
      (
        min s.clock (m.last_seen + s.online_window_ms),
        rw (after_known ip_of db id nwid paths live s m known)
            (went_offline db _ s m o on at off seen),
        ground arith,
        ground arith,
        ground arith,
      )

  -- A member that was online at the last observation and still is keeps the time since which it has
  -- been online when the controller was started again in between.
  pub restart_keeps_online_since :
      (s : Snapshot) (m : Source) (o t : ℕ)
      → known_source db live ≡ some (s, m)
      → db.online ≡ some true
      → db.status_observed_at ≡ some o
      → db.last_online_at ≡ some t
      → m.online ≡ true
      → db.observation_controller_started_at ≢ some s.controller_started_at
      → (after ip_of db id nwid paths live).last_online_at ≡ some t
  restart_keeps_online_since s m o t known on at since on' boot =
      rw (after_known ip_of db id nwid paths live s m known) (
        still_online db _ s m o t on at since on'
          (ground (arith, is_iff s.controller_started_at db.observation_controller_started_at)))
