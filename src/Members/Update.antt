-- ===== src/Members/Update.antt =====
-- services/ztnet/src/server/api/services/memberService.ts: what a reconcile writes for a member that it
-- fetched, the removal of the members that the controller no longer has, and the whole.
use docker_zerotier_planet.Common.{
  ℕ, ◌+◌, String, Bool, true, false, not, ◌&&◌, ◌||◌, Option, none, some, List, [], ◌∷◌, ◌++◌, map,
  str_eq, if◌then◌else◌, truthy, any, has_text, find, filter,
}
use docker_zerotier_planet.Members.{
  Detail, Row, NoticeType, Notice, Db, Naming, is_row, is_stashed, ids_of, revision_of,
  ids_to_fetch, fetch_member_details_batched, controller_cache_fields, node_added, node_removed,
  node_authorized, node_deauthorized, node_config_changed,
}

abbrev or_name : Option String → Option String → Option String
or_name found fallback = if truthy found then found else fallback

-- The name of a new member.
abbrev pub new_name : Naming → String → Option String
new_name naming id =
    if naming.organization
    then (if naming.rename_in_organization then naming.existing_name id else none)
    else (let own = if naming.add_member_id_as_name then some id else none in
        if naming.rename_node_globally then or_name (naming.existing_name id) own else own)

-- The row that `upsert` creates: a new one has not been fetched.
abbrev pub blank_row : ℕ → String → Option String → Row
blank_row nodeid id name = record {
  nodeid = nodeid;
  id = id;
  deleted = false;
  permanently_deleted = false;
  name = name;
  authorized = false;
  ip_assignments = [];
  no_auto_assign_ips = false;
  active_bridge = false;
  address = some "";
  revision = none;
  v_major = none;
  v_minor = none;
  v_rev = none;
  v_proto = none;
  controller_config = none;
}

-- `addNetworkMember`.
unfoldable pub add_network_member : Naming → String → Db → Db
add_network_member naming id db = if any (is_row id) db.rows then db else record db {
  rows = db.rows ++ blank_row db.next_nodeid id (new_name naming id) ∷ [];
  next_nodeid = db.next_nodeid + 1;
  queued = db.queued ++ record { type = node_added; id = id; number = some db.next_nodeid } ∷ [];
}

abbrev pub list_or_empty : Option (List String) → List String
list_or_empty none = []
list_or_empty (some xs) = xs

abbrev or_id : String → Option String → Option String
or_id id none = some id
or_id id (some a) = some a

-- The name that the row read at the start had, if it had one that is not blank.
abbrev pub has_name : Option Row → Bool
has_name none = false
has_name (some r) = has_text r.name

-- The columns that are cached from a detail.
abbrev pub cache_detail : Option ℕ → Option Row → Detail → Row → Row
cache_detail revision known detail r = record (controller_cache_fields detail r) {
  authorized = detail.authorized;
  ip_assignments = list_or_empty detail.ip_assignments;
  no_auto_assign_ips = detail.no_auto_assign_ips;
  active_bridge = detail.active_bridge;
  address = or_id detail.id detail.address;
  revision = revision;
  name = if not (has_name known) && has_text detail.name then detail.name else r.name;
}

abbrev same_texts : List String → List String → Bool
same_texts [] [] = true
same_texts (x ∷ xs) (y ∷ ys) = str_eq x y && same_texts xs ys
same_texts _ _ = false

abbrev same_flag : Bool → Bool → Bool
same_flag true b = b
same_flag false b = not b

-- The type of the message about a change, if there is one.
unfoldable pub change_type : Row → Detail → Option NoticeType
change_type db detail =
    if not (same_flag db.authorized detail.authorized)
    then some (if detail.authorized then node_authorized else node_deauthorized)
    else if not (same_texts db.ip_assignments (list_or_empty detail.ip_assignments))
        || not (same_flag db.no_auto_assign_ips detail.no_auto_assign_ips)
        || not (same_flag db.active_bridge detail.active_bridge)
    then some node_config_changed
    else none

abbrev notice_of : Option NoticeType → String → Option ℕ → List Notice
notice_of none id revision = []
notice_of (some type) id revision = record { type = type; id = id; number = revision } ∷ []

-- A row that was never fetched tells of no change.
abbrev pub change_notices : Option Row → Option ℕ → Detail → List Notice
change_notices none revision detail = []
change_notices (some db) revision detail = elim db.controller_config [
  | none ↦ []
  | some config ↦ notice_of (change_type db detail) detail.id revision
]

module _ (naming : Naming) (revisions : List (String × ℕ)) (snapshot : List Row) where
  -- The row of a new member. That it cannot be created is logged, and the loop goes on without it.
  unfoldable pub added : Detail → Db → Db
  added detail db = elim (find (is_row detail.id) snapshot) [
    | none ↦ if naming.creates detail.id then add_network_member naming detail.id db else db
    | some r ↦ db
  ]

  -- The body of the loop over the details.
  unfoldable pub apply_detail : Detail → Db → Db
  apply_detail detail db =
      let known = find (is_row detail.id) snapshot in
      let revision = revision_of detail.id revisions in
      let with_row = added detail db in
      record with_row {
        rows =
            map (λ r. if is_row detail.id r then cache_detail revision known detail r else r)
              with_row.rows;
        queued = with_row.queued ++ change_notices known revision detail;
      }

  unfoldable pub apply_details : List Detail → Db → Db
  apply_details [] db = db
  apply_details (d ∷ details) db = apply_details details (apply_detail d db)

  -- `orphanIds`, as rows.
  abbrev pub orphans : List Row
  orphans = filter (λ r. not (any (str_eq r.id) (ids_of revisions)) && not (is_stashed r)) snapshot

  -- The drift clean-up.
  unfoldable pub remove_orphans : Db → Db
  remove_orphans db = record db {
    rows = filter (λ r. not (any (λ o. str_eq r.id o.id) orphans)) db.rows;
    queued =
        db.queued
        ++ map (λ o. record { type = node_removed; id = o.id; number = some o.nodeid }) orphans;
  }

-- `reconcileNetworkMembers`, up to the live status.
unfoldable pub reconcile_network_members :
    Naming → (String → Option Detail) → Bool → List (String × ℕ) → Db → Db
reconcile_network_members naming fetch full revisions db =
    let details = fetch_member_details_batched fetch (ids_to_fetch full revisions db.rows) in
    remove_orphans naming revisions db.rows (apply_details naming revisions db.rows details db)
