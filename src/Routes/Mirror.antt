-- ===== src/Routes/Mirror.antt =====
-- What a plan of services/ztnet/src/server/api/services/routesService.ts deletes.
use docker_zerotier_planet.Common.{
  ◌≤◌, String, ◌≡◌, refl, sym, ap, ◌∙◌, subst, Bool, false, not, ◌&&◌, ◌||◌, Option, none, some,
  List, [], ◌∷◌, ◌++◌, arith, str_eq, if◌then◌else◌, count, any-count, count-split, filter,
  count-filter_le, has_text, any, count-filter,
}
use docker_zerotier_planet.Routes.{
  Row, Route, row_key, route_key, firsts, note_first, plan, plan_route, plan_routes, Plan, mem,
  duplicates, orphans, delete_many,
}
use docker_zerotier_planet.Routes.Lists.{
  HasDistinctIds, HasIds, filter-duplicates, filter-orphans, count-firsts, count-keyed, has_key,
  without, Unseen,
}

route-to_delete :
    (route : Route) (p : Plan) (o : Option Row) → (plan_route route p o).to_delete ≡ p.to_delete
unfolding plan_route
route-to_delete route p none = ground arith
route-to_delete route p (some row) = ground arith

routes-to_delete :
    (existing : List Row) (routes : List Route) (p : Plan)
    → (plan_routes existing routes p).to_delete ≡ p.to_delete
unfolding plan_routes
routes-to_delete existing [] p = refl
routes-to_delete existing (route ∷ routes) p =
    routes-to_delete existing routes _ ∙ route-to_delete route p _

plan-to_delete :
    (snapshot : List Row) (controller : List Route)
    → (plan snapshot controller).to_delete
      ≡ duplicates [] (note_first snapshot)
        ++ orphans (firsts route_key [] controller) [] (firsts row_key [] (note_first snapshot))
unfolding plan
plan-to_delete snapshot controller =
    ap
      (λ (l : List String).
        l ++ orphans (firsts route_key [] controller) [] (firsts row_key [] (note_first snapshot)))
      (routes-to_delete _ _ _)

mem-append : (k : String) (a b : List String) → mem k (a ++ b) ≡ (mem k a || mem k b)
mem-append k [] b = refl
mem-append k (j ∷ a) b = ground (arith, mem-append k a b)

without-append :
    (a b : List String) (rows : List Row) → without (a ++ b) rows ≡ without b (without a rows)
without-append a b [] = refl
without-append a b (r ∷ rows) = ground (arith, mem-append r.id a b, without-append a b rows)

firsts-any :
    (k : String) (seen : List String) (routes : List Route)
    → mem k seen ≡ false
    → has_key (firsts route_key seen routes) k ≡ has_key routes k
firsts-any k seen routes h = ground (
  arith,
  any-count (λ z. str_eq (route_key z) k) (firsts route_key seen routes),
  count-firsts route_key k seen routes,
)

-- Putting the notes first does not change what is counted.
count-note_first : (p : Row → Bool) (rows : List Row) → count p (note_first rows) ≡ count p rows
unfolding note_first
count-note_first p rows = count-split p (λ r. has_text r.notes) rows

first_ids : (rows : List Row) → HasIds rows → (q : Row → Bool) → HasIds (filter q rows)
first_ids [] n q = tt
first_ids (r ∷ rows) (p, n) q = ground (arith, first_ids rows n q)

append_ids : (a b : List Row) → HasIds a → HasIds b → HasIds (a ++ b)
append_ids [] b m n = n
append_ids (r ∷ a) b (p, m) n = (p, append_ids a b m n)

note_first-HasIds : (rows : List Row) → HasIds rows → HasIds (note_first rows)
unfolding note_first
note_first-HasIds rows n = append_ids _ _ (first_ids rows n _) (first_ids rows n _)

note_first-HasDistinctIds :
    (rows : List Row) → HasDistinctIds rows → HasDistinctIds (note_first rows)
note_first-HasDistinctIds rows d i =
    subst (λ c. c ≤ 1) (sym (count-note_first (λ r. str_eq r.id i) rows)) (d i)

Unseen-none : (rows : List Row) → Unseen [] rows
Unseen-none [] = tt
Unseen-none (r ∷ rows) = (refl, Unseen-none rows)

-- The first rows of their keys are a filtered list, so their ids stay distinct.
firsts-HasDistinctIds :
    (seen : List String) (rows : List Row)
    → HasDistinctIds rows
    → HasIds rows
    → HasDistinctIds (firsts row_key seen rows)
firsts-HasDistinctIds seen rows d n i =
    subst (λ l. count (λ r. str_eq r.id i) l ≤ 1) (filter-duplicates seen rows d n)
      (omega (
        arith,
        d i,
        count-filter_le (λ r. str_eq r.id i) (λ s. not (mem s.id (duplicates seen rows))) rows,
      ))

-- Deleting what the plan names leaves, of the network's rows, the first of each key (those with notes
-- first) whose key the controller has.
plan_leaves :
    (snapshot : List Row) (controller : List Route)
    → HasDistinctIds snapshot
    → HasIds snapshot
    → without (plan snapshot controller).to_delete (note_first snapshot)
      ≡ filter
          (λ r. has_key (firsts route_key [] controller) (row_key r))
          (firsts row_key [] (note_first snapshot))
plan_leaves snapshot controller d n =
    let new = firsts route_key [] controller in
    let rows = note_first snapshot in
    let existing = firsts row_key [] rows in
    let d' = note_first-HasDistinctIds snapshot d in
    let n' = note_first-HasIds snapshot n in
    ap (λ l. without l rows) (plan-to_delete snapshot controller)
    ∙ without-append (duplicates [] rows) (orphans new [] existing) rows
    ∙ ap (without (orphans new [] existing)) (filter-duplicates [] rows d' n')
    ∙ filter-orphans new [] existing (firsts-HasDistinctIds [] rows d' n') (Unseen-none existing)

filter-note_first :
    (p q : Row → Bool) (rows : List Row)
    → count p (filter q rows) ≡ count p (filter q (note_first rows))
filter-note_first p q rows =
    count-filter p q rows ∙ sym (count-note_first _ rows) ∙ sym (count-filter p q (note_first rows))

count-survivors :
    (snapshot : List Row) (new : List Route) (k : String)
    → count
        (λ r. str_eq (row_key r) k)
        (filter (λ r. has_key new (row_key r)) (firsts row_key [] (note_first snapshot)))
      ≡ (if has_key new k && any (λ r. str_eq (row_key r) k) snapshot then 1 else 0)
count-survivors snapshot new k = ground (
  arith,
  count-keyed row_key k (has_key new) (firsts row_key [] (note_first snapshot)),
  count-firsts row_key k [] (note_first snapshot),
  any-count (λ r. str_eq (row_key r) k) snapshot,
  any-count (λ r. str_eq (row_key r) k) (note_first snapshot),
  count-note_first (λ r. str_eq (row_key r) k) snapshot,
)

-- With distinct, nonempty ids, deleting what the plan names leaves one row of a key that both the
-- network's rows and the controller have, and none of any other key.
pub plan_deletes :
    (snapshot : List Row) (controller : List Route) (k : String)
    → HasDistinctIds snapshot
    → HasIds snapshot
    → count (λ r. str_eq (row_key r) k) (delete_many (plan snapshot controller).to_delete snapshot)
      ≡ (if has_key controller k && any (λ r. str_eq (row_key r) k) snapshot then 1 else 0)
unfolding delete_many
plan_deletes snapshot controller k d n =
    filter-note_first (λ r. str_eq (row_key r) k) _ snapshot
    ∙ ap (count (λ r. str_eq (row_key r) k)) (plan_leaves snapshot controller d n)
    ∙ count-survivors snapshot (firsts route_key [] controller) k
    ∙ ap (λ b. if b && any (λ r. str_eq (row_key r) k) snapshot then 1 else 0)
        (firsts-any k [] controller refl)
