-- ===== src/Members/Tests.antt =====
-- A concrete network: a named member, a stashed one, one that is gone, and a new one.
use docker_zerotier_planet.Common.{
  ℕ, String, ◌≡◌, refl, sym, ap, true, false, Option, none, some, List, [], ◌∷◌, map, arith,
  is_blank, find,
}
use docker_zerotier_planet.Members.{
  Detail, Row, Db, Naming, is_row, ids_to_fetch, answers, fetch_member_details_batched,
  fetch_batches,
}
use docker_zerotier_planet.Members.Batches.{fetch_member_details_batched-answers}
use docker_zerotier_planet.Members.Kept.{AnswersOwn, reconcile_keeps_name, reconcile_keeps_stashed}
use docker_zerotier_planet.Members.Settled.{reconcile_settles}
use docker_zerotier_planet.Members.Update.{
  added, add_network_member, apply_detail, apply_details, remove_orphans, reconcile_network_members,
  blank_row, cache_detail,
}

abbrev naming : Naming
naming = record {
  organization = false;
  rename_in_organization = false;
  add_member_id_as_name = false;
  rename_node_globally = false;
  existing_name = λ id. none;
  creates = λ id. true;
}

abbrev detail_of : String → Detail
detail_of id = record {
  id = id;
  authorized = true;
  ip_assignments = none;
  no_auto_assign_ips = false;
  active_bridge = false;
  address = none;
  name = some "theirs";
  v_major = none;
  v_minor = none;
  v_rev = none;
  v_proto = none;
}

abbrev fetch : String → Option Detail
fetch id = some (detail_of id)

own : AnswersOwn fetch
own id d e = (let same : detail_of id ≡ d = cc e in ap (λ (x : Detail). x.id) (sym same))

abbrev named : Row
named = blank_row 1 "a" (some "mine")

abbrev stashed : Row
stashed = record (blank_row 2 "b" none) { deleted = true }

abbrev db : Db
db = record { rows = named ∷ stashed ∷ blank_row 3 "c" none ∷ []; next_nodeid = 4; queued = [] }

abbrev revisions : List (String × ℕ)
revisions = ("a", 7) ∷ ("d", 1) ∷ []

abbrev cached_named : Row
cached_named = cache_detail (some 7) (some named) (detail_of "a") named

reconciled :
    map (λ r. r.id) (reconcile_network_members naming fetch false revisions db).rows
    ≡ "a" ∷ "b" ∷ "d" ∷ []
unfolding reconcile_network_members remove_orphans apply_details apply_detail added
    add_network_member ids_to_fetch fetch_member_details_batched fetch_batches
reconciled = refl

still_named :
    find (is_row "a") (reconcile_network_members naming fetch false revisions db).rows
    ≡ some cached_named
unfolding reconcile_network_members remove_orphans apply_details apply_detail added
    add_network_member ids_to_fetch fetch_member_details_batched fetch_batches is_blank
still_named = refl

reconcile_keeps_name_example : cached_named.name ≡ some "mine"
unfolding is_blank
reconcile_keeps_name_example =
    reconcile_keeps_name naming fetch false revisions db "a" named cached_named refl refl
      still_named

reconcile_keeps_stashed_example :
    find (is_row "b") (reconcile_network_members naming fetch false revisions db).rows
    ≡ some stashed
reconcile_keeps_stashed_example =
    reconcile_keeps_stashed naming fetch false revisions db "b" stashed own (omega arith) refl refl

reconcile_settles_example :
    ids_to_fetch false revisions (reconcile_network_members naming fetch false revisions db).rows
    ≡ []
reconcile_settles_example =
    reconcile_settles naming fetch false revisions db own (λ id m. (detail_of id, refl))
      (λ id m. refl)

fetch_member_details_batched-answers_example :
    fetch_member_details_batched fetch ("a" ∷ "b" ∷ "c" ∷ "d" ∷ "e" ∷ "f" ∷ [])
    ≡ answers fetch ("a" ∷ "b" ∷ "c" ∷ "d" ∷ "e" ∷ "f" ∷ [])
fetch_member_details_batched-answers_example =
    fetch_member_details_batched-answers fetch ("a" ∷ "b" ∷ "c" ∷ "d" ∷ "e" ∷ "f" ∷ [])

-- A new member whose name was found in another network gets the controller's name all the same.
adopted_over_found :
    map
      (λ r. r.name)
      (reconcile_network_members
        (record naming { rename_node_globally = true; existing_name = λ id. some "mine" })
        fetch
        false
        (("d", 1) ∷ [])
        (record db { rows = [] })).rows
    ≡ some "theirs" ∷ []
unfolding reconcile_network_members remove_orphans apply_details apply_detail added
    add_network_member ids_to_fetch fetch_member_details_batched fetch_batches is_blank
adopted_over_found = refl
