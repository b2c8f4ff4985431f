-- ===== src/Routes.antt =====
-- services/ztnet/src/server/api/services/routesService.ts: mirroring a network's routes from the
-- controller into the database. The rows' new ids are a parameter; a failed transaction leaves the
-- table as it was.
pub mod Lists
pub mod Mirror
mod Tests
use Prim.Native.String
use docker_zerotier_planet.Common.{
  ℕ, Bool, true, false, ◌&&◌, ◌||◌, not, Option, none, some, List, [], ◌∷◌, ◌++◌, map, String,
  str_eq, if◌then◌else◌, find, filter, any, has_text, length,
}

-- A row of `Routes`.
pub record Row : Type 0 where
  pub id : String
  pub target : String
  pub via : Option String
  pub network_id : String
  pub notes : Option String

-- A route of the controller.
pub record Route : Type 0 where
  pub target : String
  pub via : Option String

-- `via || other`: an empty text is no via.
abbrev pub via_or : String → Option String → String
via_or other none = other
via_or other (some v) = if str_eq v "" then other else v

abbrev pub via_or_null : Option String → Option String
via_or_null none = none
via_or_null (some v) = if str_eq v "" then none else some v

-- `getRouteKey`, for a row and for a route.
pub key_of : String → Option String → String
key_of target via = String.◌++◌ target (String.◌++◌ "-" (via_or "null" via))

abbrev pub row_key : Row → String
row_key r = key_of r.target r.via

abbrev pub route_key : Route → String
route_key r = key_of r.target r.via

abbrev pub same_via : Option String → Option String → Bool
same_via none none = true
same_via (some a) (some b) = str_eq a b
same_via _ _ = false

-- `hasRouteChanged`.
pub has_route_changed : Row → Route → Bool
has_route_changed row route =
    not (str_eq row.target route.target) || not (same_via row.via (via_or_null route.via))

abbrev pub mem : String → List String → Bool
mem k ks = any (λ j. str_eq j k) ks

-- The rows with a note first, otherwise in their order: what the stable sort gives.
pub note_first : List Row → List Row
note_first rows = filter (λ r. has_text r.notes) rows ++ filter (λ r. not (has_text r.notes)) rows

-- `existingRouteMap` and `newRouteMap`: the first of each key, in order. `seen` holds the keys so far.
module _ {A : Type 0} (key : A → String) where
  pub firsts : List String → List A → List A
  firsts seen [] = []
  firsts seen (r ∷ rs) = elim (mem (key r) seen) [
    | true ↦ firsts seen rs
    | false ↦ r ∷ firsts (key r ∷ seen) rs
  ]

-- The ids of the rows whose key was seen before.
pub duplicates : List String → List Row → List String
duplicates seen [] = []
duplicates seen (r ∷ rs) = elim (mem (row_key r) seen) [
  | true ↦ if str_eq r.id "" then duplicates seen rs else r.id ∷ duplicates seen rs
  | false ↦ duplicates (row_key r ∷ seen) rs
]

pub record Plan : Type 0 where
  pub to_create : List Route
  pub to_update : List Row
  pub to_delete : List String

abbrev pub find_row : String → List Row → Option Row
find_row k rows = find (λ r. str_eq (row_key r) k) rows

-- `routesToUpdate.push({ ...ztRoute, id })`: only the id, target and via of it are read.
abbrev updated : Row → Route → Row
updated row route = record row { target = route.target; via = route.via }

-- One round of the loop over `newRouteMap`, on the row that the key names.
pub plan_route : Route → Plan → Option Row → Plan
plan_route route p none =
    if any (λ r. str_eq (route_key r) (route_key route)) p.to_create
    then p
    else record p { to_create = p.to_create ++ route ∷ [] }
plan_route route p (some row) =
    if has_route_changed row route
      && not (any (λ r. str_eq (row_key r) (route_key route)) p.to_update)
    then record p { to_update = p.to_update ++ updated row route ∷ [] }
    else p

pub plan_routes : List Row → List Route → Plan → Plan
plan_routes existing [] p = p
plan_routes existing (route ∷ routes) p =
    plan_routes existing routes (plan_route route p (find_row (route_key route) existing))

-- The loop that finds the rows that the controller no longer has.
pub orphans : List Route → List String → List Row → List String
orphans routes seen [] = []
orphans routes seen (r ∷ rs) =
    elim (not (any (λ z. str_eq (route_key z) (row_key r)) routes) && not (mem r.id seen)) [
      | true ↦ r.id ∷ orphans routes (r.id ∷ seen) rs
      | false ↦ orphans routes seen rs
    ]

-- Everything up to the transaction, from the rows of the network as read.
pub plan : List Row → List Route → Plan
plan snapshot controller =
    let db_routes = note_first snapshot in
    let existing = firsts row_key [] db_routes in
    let new = firsts route_key [] controller in
    let p =
      plan_routes existing new
        (record { to_create = []; to_update = []; to_delete = duplicates [] db_routes }) in
    record p { to_delete = p.to_delete ++ orphans new [] existing }

abbrev pub rows_of : String → List Row → List Row
rows_of n table = filter (λ r. str_eq r.network_id n) table

-- The unique indexes: one row for each network, target and via.
abbrev clashes : Row → Row → Bool
clashes a b = str_eq a.network_id b.network_id && str_eq a.target b.target && same_via a.via b.via

module _ (new_id : Route → String) (n : String) where
  abbrev pub fresh_row : Route → Row
  fresh_row route = record {
    id = new_id route;
    target = route.target;
    via = via_or_null route.via;
    network_id = n;
    notes = none;
  }

  -- `createMany` with `skipDuplicates`.
  pub create_many : List Route → List Row → List Row
  create_many [] table = table
  create_many (route ∷ routes) table =
      create_many routes
        (if any (clashes (fresh_row route)) table then table else table ++ fresh_row route ∷ [])

  -- The routes whose key no row of the network has now.
  pub fresh_routes : List Row → List Route → List Route
  fresh_routes table routes =
      filter (λ z. not (mem (route_key z) (map row_key (rows_of n table)))) routes

-- `tx.routes.update` by id: `none` where there is no such row, or another one is in the way.
abbrev retarget : Row → Row → Row
retarget u r = record r { target = u.target; via = via_or_null u.via }

abbrev in_the_way : Row → Row → List Row → Bool
in_the_way u r table = any (λ s. not (str_eq s.id r.id) && clashes (retarget u r) s) table

pub update_row : Row → List Row → Option (List Row)
update_row u table = elim (find (λ r. str_eq r.id u.id) table) [
  | none ↦ none
  | some r ↦
      if in_the_way u r table
      then none
      else some (map (λ s. if str_eq s.id u.id then retarget u s else s) table)
]

pub update_rows : List Row → List Row → Option (List Row)
update_rows [] table = some table
update_rows (u ∷ us) table = elim (update_row u table) [
  | none ↦ none
  | some table' ↦ update_rows us table'
]

pub delete_many : List String → List Row → List Row
delete_many ids table = filter (λ r. not (mem r.id ids)) table

abbrev is_empty {ℓ} : {A : Type ℓ} → List A → Bool
is_empty [] = true
is_empty (x ∷ xs) = false

abbrev settle : List String → List Row → Option (List Row) → List Row
settle ids table none = table
settle ids table (some table') = delete_many ids table'

-- `syncNetworkRoutes` on the table: the snapshot of the network's rows may be older than the table.
module _ (new_id : Route → String) (n : String) where
  pub apply_plan : Plan → List Row → List Row
  apply_plan p table = settle p.to_delete table (
      update_rows p.to_update
        (create_many new_id n (fresh_routes new_id n table p.to_create) table))

  pub sync_network_routes : List Row → List Route → List Row → List Row
  unfolding apply_plan
  sync_network_routes snapshot controller table =
      let p = plan snapshot controller in
      if is_empty p.to_create && is_empty p.to_update && is_empty p.to_delete
      then table
      else apply_plan p table
