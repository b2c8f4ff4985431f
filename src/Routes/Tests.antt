-- ===== src/Routes/Tests.antt =====
-- A network whose rows are mirrored.
use docker_zerotier_planet.Common.{
  ◌+◌, ◌≤◌, String, ◌≡◌, refl, ◌≢◌, ◌&&◌, Option, none, some, List, [], ◌∷◌, arith, str_eq, eq_iff,
  if◌then◌else◌, count, any, is_blank, apart,
}
use docker_zerotier_planet.Routes.{
  Row, Route, plan, delete_many, row_key, key_of, sync_network_routes, firsts, duplicates, orphans,
  plan_route, plan_routes, note_first, has_route_changed, update_rows, create_many, fresh_routes,
  apply_plan,
}
use docker_zerotier_planet.Routes.Mirror.{plan_deletes}
use docker_zerotier_planet.Routes.Lists.{has_key}

abbrev row : String → String → Option String → Row
row id target notes = record {
  id = id;
  target = target;
  via = none;
  network_id = "n";
  notes = notes;
}

abbrev sample : List Row
sample =
    row "r1" "10.0.0.0/24" none
    ∷ row "r2" "10.0.0.0/24" (some "lab")
    ∷ row "r3" "10.1.0.0/24" none
    ∷ []

abbrev controller : List Route
controller =
    record { target = "10.0.0.0/24"; via = none }
    ∷ record { target = "10.2.0.0/24"; via = none }
    ∷ []

-- The row with a note survives, the other ones go, and the missing one is made.
mirrored :
    sync_network_routes (λ z. z.target) "n" sample controller sample
    ≡ row "r2" "10.0.0.0/24" (some "lab") ∷ row "10.2.0.0/24" "10.2.0.0/24" none ∷ []
unfolding sync_network_routes apply_plan plan note_first key_of firsts duplicates orphans
    plan_routes plan_route has_route_changed create_many fresh_routes update_rows delete_many
    is_blank
mirrored = refl

three_apart :
    (a b c i : String)
    → a ≢ b
    → a ≢ c
    → b ≢ c
    → (if str_eq a i then 1 else 0)
        + ((if str_eq b i then 1 else 0) + ((if str_eq c i then 1 else 0) + 0))
      ≤ 1
three_apart a b c i p q r = ground (arith, eq_iff a i, eq_iff b i, eq_iff c i)

distinct : (i : String) → count (λ r. str_eq r.id i) sample ≤ 1
distinct i = three_apart "r1" "r2" "r3" i (apart _ _ refl) (apart _ _ refl) (apart _ _ refl)

plan_deletes_example :
    count
      (λ r. str_eq (row_key r) "10.0.0.0/24-null")
      (delete_many (plan sample controller).to_delete sample)
    ≡ (if has_key controller "10.0.0.0/24-null"
          && any (λ r. str_eq (row_key r) "10.0.0.0/24-null") sample
        then 1
        else 0)
plan_deletes_example =
    plan_deletes sample controller "10.0.0.0/24-null" distinct
      (apart _ _ refl, (apart _ _ refl, (apart _ _ refl, tt)))
