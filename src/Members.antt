-- ===== src/Members.antt =====
-- services/ztnet/src/server/api/services/memberService.ts, `reconcileNetworkMembers` on the members of one
-- network, up to the writing of the live status, which Observation models; with `addNetworkMember`,
-- `fetchMemberDetailsBatched`, `controllerCacheFields` and `preferredMemberName`. The controller's answers
-- are parameters. Web hooks, mails and the texts of the messages are not here.
pub mod Update
pub mod Batches
pub mod Find
pub mod Kept
pub mod Settled
mod Tests
use docker_zerotier_planet.Common.{
  ℕ, zero, suc, ◌+◌, ◌-◌, ◌*◌, ◌≤◌, ◌<◌, String, ◌≡◌, refl, sym, ap, ◌∙◌, subst, ◌≢◌, ◌↔◌, ◌⊎◌, inl,
  inr, Bool, true, false, not, ◌&&◌, ◌||◌, Option, none, some, List, [], ◌∷◌, ◌++◌, map, arith,
  str_eq, eq_iff, ltb, leb, ◌==◌, if◌then◌else◌, Bool-cases, Option-cases, filter, length, find,
}

-- A version number: -1, which the controller gives for an unknown one, is `none`.
abbrev pub Version : Type 0
Version = Option ℕ

-- A member as the controller tells it, where a field may be missing.
pub record Detail : Type 0 where
  pub id : String
  pub authorized : Bool
  pub ip_assignments : Option (List String)
  pub no_auto_assign_ips : Bool
  pub active_bridge : Bool
  pub address : Option String
  pub name : Option String
  pub v_major : Option Version
  pub v_minor : Option Version
  pub v_rev : Option Version
  pub v_proto : Option Version

-- A row of `network_members`: a flag that is null is false.
pub record Row : Type 0 where
  pub nodeid : ℕ
  pub id : String
  pub deleted : Bool
  pub permanently_deleted : Bool
  pub name : Option String
  pub authorized : Bool
  pub ip_assignments : List String
  pub no_auto_assign_ips : Bool
  pub active_bridge : Bool
  pub address : Option String
  pub revision : Option ℕ
  pub v_major : Option Version
  pub v_minor : Option Version
  pub v_rev : Option Version
  pub v_proto : Option Version
  pub controller_config : Option Detail

pub data NoticeType : Type 0 where
  node_added node_removed node_authorized node_deauthorized node_config_changed : NoticeType

-- A message for the outbox, by what its key is made of: the row's number, or the revision.
pub record Notice : Type 0 where
  pub type : NoticeType
  pub id : String
  pub number : Option ℕ

pub record Db : Type 0 where
  pub rows : List Row
  pub next_nodeid : ℕ
  pub queued : List Notice

-- How a new member gets its name: the settings of the network's organization, if it has one, and of the
-- user, and the name that `findExistingMemberName` found in other networks. `creates` tells for which members
-- the transaction that creates the row goes through.
pub record Naming : Type 0 where
  pub organization : Bool
  pub rename_in_organization : Bool
  pub add_member_id_as_name : Bool
  pub rename_node_globally : Bool
  pub existing_name : String → Option String
  pub creates : String → Bool

abbrev pub is_row : String → Row → Bool
is_row id r = str_eq r.id id

abbrev pub is_stashed : Row → Bool
is_stashed r = r.deleted || r.permanently_deleted

abbrev pub is_missing {ℓ} : {A : Type ℓ} → Option A → Bool
is_missing none = true
is_missing (some a) = false

-- `Object.keys(revisionMap)` and `revisionMap[id]`.
abbrev pub ids_of : List (String × ℕ) → List String
ids_of revisions = map (λ (id, r). id) revisions

abbrev pub revision_of : String → List (String × ℕ) → Option ℕ
revision_of id [] = none
revision_of id ((i, r) ∷ revisions) = if str_eq i id then some r else revision_of id revisions

abbrev pub same_number : Option ℕ → Option ℕ → Bool
same_number (some a) (some b) = a == b
same_number _ _ = false

-- Whether a row is to be fetched again.
abbrev pub needs_fetch : Bool → Option ℕ → Row → Bool
needs_fetch full revision db =
    not (is_stashed db)
    && (full
        || is_missing db.v_major
        || is_missing db.controller_config
        || not (same_number db.revision revision))

-- `idsToFetch`.
abbrev pub wants : Bool → Option ℕ → Option Row → Bool
wants full revision none = true
wants full revision (some db) = needs_fetch full revision db

unfoldable pub ids_to_fetch : Bool → List (String × ℕ) → List Row → List String
ids_to_fetch full revisions rows =
    filter (λ id. wants full (revision_of id revisions) (find (is_row id) rows)) (ids_of revisions)

-- The answers of a batch, without those that failed.
abbrev pub answers : (String → Option Detail) → List String → List Detail
answers fetch [] = []
answers fetch (id ∷ ids) = elim (fetch id) [
  | none ↦ answers fetch ids
  | some d ↦ d ∷ answers fetch ids
]

abbrev pub take : ℕ → List String → List String
take zero ids = []
take (suc n) [] = []
take (suc n) (id ∷ ids) = id ∷ take n ids

abbrev pub drop : ℕ → List String → List String
drop zero ids = ids
drop (suc n) [] = []
drop (suc n) (id ∷ ids) = drop n ids

-- The loop over batches of five, on fuel.
unfoldable pub fetch_batches : (String → Option Detail) → ℕ → List String → List Detail
fetch_batches fetch zero ids = []
fetch_batches fetch (suc fuel) [] = []
fetch_batches fetch (suc fuel) (id ∷ ids) =
    answers fetch (take 5 (id ∷ ids)) ++ fetch_batches fetch fuel (drop 5 (id ∷ ids))

-- `fetchMemberDetailsBatched`: there are no more batches than ids.
unfoldable pub fetch_member_details_batched : (String → Option Detail) → List String → List Detail
fetch_member_details_batched fetch ids = fetch_batches fetch (length ids) ids

abbrev pub or_unknown : Option Version → Option Version
or_unknown none = some none
or_unknown (some v) = some v

-- `controllerCacheFields`.
abbrev pub controller_cache_fields : Detail → Row → Row
controller_cache_fields detail r = record r {
  v_major = or_unknown detail.v_major;
  v_minor = or_unknown detail.v_minor;
  v_rev = or_unknown detail.v_rev;
  v_proto = or_unknown detail.v_proto;
  controller_config = some detail;
}
