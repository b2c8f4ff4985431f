-- ===== src/Observation/Columns.antt =====
-- The columns of `network_members` that an observation reads or writes, and a patch of them.
use docker_zerotier_planet.Common.{
  ℕ, String, Bool, true, false, not, Option, none, some, ◌==◌, if◌then◌else◌,
}

-- A row of `network_members`.
pub record Row : Type 0 where
  pub id : String
  pub creation_time : ℕ
  pub online : Option Bool
  pub notify_on_first_online : Bool
  pub last_seen : Option ℕ
  pub last_online_at : Option ℕ
  pub last_offline_at : Option ℕ
  pub status_observed_at : Option ℕ
  pub observation_controller_started_at : Option ℕ
  pub source_last_online_at : Option ℕ
  pub connection_status : Option ℕ
  pub connection_pending_status : Option ℕ
  pub connection_pending_since : Option ℕ

-- `Partial<network_members>`: a key that is absent is `none`.
pub record Patch : Type 0 where
  pub online : Option (Option Bool)
  pub notify_on_first_online : Option Bool
  pub last_seen : Option (Option ℕ)
  pub last_online_at : Option (Option ℕ)
  pub last_offline_at : Option (Option ℕ)
  pub status_observed_at : Option (Option ℕ)
  pub observation_controller_started_at : Option (Option ℕ)
  pub source_last_online_at : Option (Option ℕ)
  pub connection_status : Option (Option ℕ)
  pub connection_pending_status : Option (Option ℕ)
  pub connection_pending_since : Option (Option ℕ)

abbrev pub no_change : Patch
no_change = record {
  online = none;
  notify_on_first_online = none;
  last_seen = none;
  last_online_at = none;
  last_offline_at = none;
  status_observed_at = none;
  observation_controller_started_at = none;
  source_last_online_at = none;
  connection_status = none;
  connection_pending_status = none;
  connection_pending_since = none;
}

-- The loop that drops what is as it was.
abbrev pub keep_new : {A : Type 0} → (A → A → Bool) → A → Option A → Option A
keep_new same old none = none
keep_new same old (some new) = if same new old then none else some new

abbrev pub same_bool : Bool → Bool → Bool
same_bool a b = if a then b else not b

abbrev pub same_option : {A : Type 0} → (A → A → Bool) → Option A → Option A → Bool
same_option same none none = true
same_option same (some a) (some b) = same a b
same_option same _ _ = false

abbrev pub same_time : Option ℕ → Option ℕ → Bool
same_time = same_option (λ a b. a == b)

unfoldable pub drop_same : Row → Patch → Patch
drop_same db p = record {
  online = keep_new (same_option same_bool) db.online p.online;
  notify_on_first_online = keep_new same_bool db.notify_on_first_online p.notify_on_first_online;
  last_seen = keep_new same_time db.last_seen p.last_seen;
  last_online_at = keep_new same_time db.last_online_at p.last_online_at;
  last_offline_at = keep_new same_time db.last_offline_at p.last_offline_at;
  status_observed_at = keep_new same_time db.status_observed_at p.status_observed_at;
  observation_controller_started_at =
      keep_new same_time db.observation_controller_started_at p.observation_controller_started_at;
  source_last_online_at = keep_new same_time db.source_last_online_at p.source_last_online_at;
  connection_status = keep_new same_time db.connection_status p.connection_status;
  connection_pending_status =
      keep_new same_time db.connection_pending_status p.connection_pending_status;
  connection_pending_since =
      keep_new same_time db.connection_pending_since p.connection_pending_since;
}

-- An update of the row by a patch.
abbrev pub set : {A : Type 0} → A → Option A → A
set old none = old
set old (some new) = new

unfoldable pub apply_patch : Patch → Row → Row
apply_patch p db = record db {
  online = set db.online p.online;
  notify_on_first_online = set db.notify_on_first_online p.notify_on_first_online;
  last_seen = set db.last_seen p.last_seen;
  last_online_at = set db.last_online_at p.last_online_at;
  last_offline_at = set db.last_offline_at p.last_offline_at;
  status_observed_at = set db.status_observed_at p.status_observed_at;
  observation_controller_started_at =
      set db.observation_controller_started_at p.observation_controller_started_at;
  source_last_online_at = set db.source_last_online_at p.source_last_online_at;
  connection_status = set db.connection_status p.connection_status;
  connection_pending_status = set db.connection_pending_status p.connection_pending_status;
  connection_pending_since = set db.connection_pending_since p.connection_pending_since;
}
