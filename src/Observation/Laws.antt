-- ===== src/Observation/Laws.antt =====
-- The patch of an observation, and the row once it is stored.
use docker_zerotier_planet.Common.{
  ℕ, ◌+◌, ◌≤◌, ◌≡◌, refl, ap, ◌≢◌, ◌↔◌, inl, inr, Bool, true, Option, none, some, List, arith, ◌==◌,
  Option-cases,
}
use docker_zerotier_planet.Connection.{Addresses, PeerPath}
use docker_zerotier_planet.Observation.{
  Row, Patch, Snapshot, Source, LiveObservation, is, is_null, within, elapsed, known_source,
  con_status_of, forget_pending, copy_source, settle_connection, settle_times, drop_same, keep_new,
  same_bool, same_option, same_time, patch_for, online_of, observe_member, apply_patch, set,
}

same_bool_iff : (a b : Bool) → (same_bool a b ≡ true) ↔ (a ≡ b)
same_bool_iff a b = ground arith

same_option_eq :
    {A : Type 0} (same : A → A → Bool)
    → ((a b : A) → same a b ≡ true → a ≡ b)
    → (a b : Option A) → same_option same a b ≡ true
    → a ≡ b
same_option_eq same h none none e = refl
same_option_eq same h none (some b) e = cc
same_option_eq same h (some a) none e = cc
same_option_eq same h (some a) (some b) e = ap some (h a b e)

pub same_time_eq : (a b : Option ℕ) → same_time a b ≡ true → a ≡ b
same_time_eq a b e = same_option_eq (λ a' b'. a' == b') (λ a' b' e'. ground arith) a b e

-- A value that is as the stored one may be left out.
set-keep_new :
    {A : Type 0} (same : A → A → Bool)
    → ((a b : A) → same a b ≡ true → a ≡ b)
    → (old : A) (p : Option A) → set old (keep_new same old p) ≡ set old p
set-keep_new same h old none = refl
set-keep_new same h old (some new) = ground (arith, h new old)

set-time : (old : Option ℕ) (p : Option (Option ℕ)) → set old (keep_new same_time old p) ≡ set old p
set-time old p = set-keep_new same_time same_time_eq old p

apply-drop_same : (db : Row) (p : Patch) → apply_patch (drop_same db p) db ≡ apply_patch p db
unfolding apply_patch drop_same
apply-drop_same db p = λ i. record db {
  online =
      set-keep_new (same_option same_bool) (same_option_eq same_bool (λ a b. (same_bool_iff a b).0))
        db.online p.online i;
  notify_on_first_online =
      set-keep_new same_bool (λ a b. (same_bool_iff a b).0) db.notify_on_first_online
        p.notify_on_first_online i;
  last_seen = set-time db.last_seen p.last_seen i;
  last_online_at = set-time db.last_online_at p.last_online_at i;
  last_offline_at = set-time db.last_offline_at p.last_offline_at i;
  status_observed_at = set-time db.status_observed_at p.status_observed_at i;
  observation_controller_started_at =
      set-time db.observation_controller_started_at p.observation_controller_started_at i;
  source_last_online_at = set-time db.source_last_online_at p.source_last_online_at i;
  connection_status = set-time db.connection_status p.connection_status i;
  connection_pending_status = set-time db.connection_pending_status p.connection_pending_status i;
  connection_pending_since = set-time db.connection_pending_since p.connection_pending_since i;
}

-- A pending status stands with the time that it is pending since, and never without.
abbrev pub IsPaired : Row → Type 0
IsPaired db = is_null db.connection_pending_status ≡ is_null db.connection_pending_since

module _ (ip_of : Addresses) (db : Row) (id nwid : List ℕ) (paths : Option (List PeerPath))
    (live : LiveObservation) where
  -- The row once the observation is stored.
  abbrev pub after : Row
  after = apply_patch (observe_member ip_of db id nwid paths live).patch db

  module _ (s : Snapshot) (m : Source) (known : known_source db live ≡ some (s, m)) where
    abbrev pub con_status : ℕ
    con_status = con_status_of ip_of id nwid paths live (some (s, m))

    pub after_known :
        after
        ≡ apply_patch
            (settle_times db s m (
              settle_connection db con_status s m
                (copy_source db s m (forget_pending db con_status))))
            db
    unfolding observe_member patch_for
    after_known = rw known (apply-drop_same db _)

  pub after_unknown :
      known_source db live ≡ none
      → after ≡ apply_patch (forget_pending db (con_status_of ip_of id nwid paths live none)) db
  unfolding observe_member patch_for
  after_unknown h = rw h refl

-- What confirms a change of the connection to a status.
pub record IsConfirmed (db : Row) (now status : ℕ) : Type 0 where
  pub since : ℕ
  pub observed : ℕ
  pub pending : db.connection_pending_status ≡ some status
  pub pending_since : db.connection_pending_since ≡ some since
  pub long_enough : since + 30000 ≤ now
  pub observed_at : db.status_observed_at ≡ some observed
  pub unbroken : now ≤ observed + 45000

pub is_iff : (n : ℕ) (o : Option ℕ) → (is n o ≡ true) ↔ (o ≡ some n)
is_iff n none = ground arith
is_iff n (some m) = ground arith

within-some :
    (span now : ℕ) (o : Option ℕ)
    → within span now o ≡ true
    → (t : ℕ) × (o ≡ some t) × (now ≤ t + span)
within-some span now none h = cc
within-some span now (some t) h = (t, refl, ground arith)

elapsed-some :
    (span now : ℕ) (o : Option ℕ)
    → elapsed span now o ≡ true
    → (t : ℕ) × (o ≡ some t) × (t + span ≤ now)
elapsed-some span now none h = cc
elapsed-some span now (some t) h = (t, refl, ground arith)

confirm :
    (db : Row) (cs : ℕ) (s : Snapshot) (m : Source) (a b : ℕ)
    → db.online ≡ some true
    → m.online ≡ true
    → db.connection_status ≡ some a
    → a ≢ b
    → (apply_patch
        (settle_times db s m
          (settle_connection db cs s m (copy_source db s m (forget_pending db cs))))
        db).connection_status
      ≡ some b
    → (within 45000 s.clock db.status_observed_at ≡ true)
      × (db.connection_pending_status ≡ some b)
      × (elapsed 30000 s.clock db.connection_pending_since ≡ true)
unfolding apply_patch settle_times settle_connection copy_source forget_pending
confirm db cs s m a b on on' stored differ h =
    ground (arith, is_iff cs db.connection_pending_status)

-- Where a member was stored online with a status and is observed online again, its stored status becomes
-- another one only if that one was pending for 30 seconds or more and the last observation is at most
-- 45 seconds old.
pub status_change_waits :
    (ip_of : Addresses) (db : Row) (id nwid : List ℕ) (paths : Option (List PeerPath))
    (live : LiveObservation) (s : Snapshot) (m : Source) (a b : ℕ)
    → known_source db live ≡ some (s, m)
    → db.online ≡ some true
    → m.online ≡ true
    → db.connection_status ≡ some a
    → (after ip_of db id nwid paths live).connection_status ≡ some b
    → a ≢ b
    → IsConfirmed db s.clock b
status_change_waits ip_of db id nwid paths live s m a b known on on' stored changed differ =
    let (near, pending, long) =
      confirm db _ s m a b on on' stored differ
        (rw (after_known ip_of db id nwid paths live s m known) at changed) in
    let (o, observed, unbroken) = within-some 45000 s.clock db.status_observed_at near in
    let (t, since, enough) = elapsed-some 30000 s.clock db.connection_pending_since long in
    record {
      since = t;
      observed = o;
      pending = pending;
      pending_since = since;
      long_enough = enough;
      observed_at = observed;
      unbroken = unbroken;
    }

IsPaired-known :
    (db : Row) (cs : ℕ) (s : Snapshot) (m : Source)
    → IsPaired db
    → IsPaired (
        apply_patch
          (settle_times db s m
            (settle_connection db cs s m (copy_source db s m (forget_pending db cs))))
          db)
unfolding apply_patch settle_times settle_connection copy_source forget_pending
IsPaired-known db cs s m h = ground arith

IsPaired-unknown :
    (db : Row) (cs : ℕ) → IsPaired db → IsPaired (apply_patch (forget_pending db cs) db)
unfolding apply_patch forget_pending
IsPaired-unknown db cs h = ground arith

-- Whatever is observed, a row whose pending status stands with its time is left in such a state.
pub observation_keeps_IsPaired :
    (ip_of : Addresses) (db : Row) (id nwid : List ℕ) (paths : Option (List PeerPath))
    (live : LiveObservation)
    → IsPaired db
    → IsPaired (after ip_of db id nwid paths live)
observation_keeps_IsPaired ip_of db id nwid paths live h =
    elim (Option-cases (known_source db live)) [
      | inl absent ↦ rw (after_unknown ip_of db id nwid paths live absent) (IsPaired-unknown db _ h)
      | inr ((s, m), known) ↦
          rw (after_known ip_of db id nwid paths live s m known) (IsPaired-known db _ s m h)
    ]

pub observed_online :
    (ip_of : Addresses) (db : Row) (id nwid : List ℕ) (paths : Option (List PeerPath))
    (live : LiveObservation)
    → (observe_member ip_of db id nwid paths live).online ≡ some true
    → (s : Snapshot) × (m : Source) × (known_source db live ≡ some (s, m)) × (m.online ≡ true)
unfolding observe_member
observed_online ip_of db id nwid paths live h = elim (Option-cases (known_source db live)) [
  | inl absent ↦ absurd (ground arith)
  | inr ((s, m), known) ↦ (s, m, known, online_true s m (rw known at h))
]
  where
    online_true :
        (s : Snapshot) (m : Source) → online_of (some (s, m)) ≡ some true → m.online ≡ true
    online_true s m e = ground arith
