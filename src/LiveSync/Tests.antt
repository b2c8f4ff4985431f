-- ===== src/LiveSync/Tests.antt =====
-- A viewer who leaves during the first tick and comes back.
use docker_zerotier_planet.Common.{count, suc, ◌+◌, ◌≤◌, ◌≡◌, refl, true, some}
use docker_zerotier_planet.LiveSync.{
  Sync, empty, acquired, Reachable, start, next, acquire, acquire_on, release, begin_tick,
  ref_count,
}
use docker_zerotier_planet.LiveSync.Invariant.{is_served}
use docker_zerotier_planet.LiveSync.Reach.{viewed_is_synced}
use docker_zerotier_planet.LiveSync.Loops.{Step-counts}
use docker_zerotier_planet.LiveSync.Doubling.{loops, is_noted, loops_kept, reacquire_adds_loop}

abbrev viewed : Sync
viewed = acquire "net1" "ann" 0 empty

viewed-Reachable : Reachable viewed
viewed-Reachable = next start (acquired "net1" "ann" 0)

viewed_object : viewed.networks "net1" ≡ some 0
unfolding acquire acquire_on begin_tick empty
viewed_object = refl

viewed_is_synced_example :
    (1 ≤ (viewed.store 0).ref_count) × (is_served "net1" viewed.timers viewed.running ≡ true)
viewed_is_synced_example = viewed_is_synced "net1" 0 viewed-Reachable viewed_object

-- A second viewer.
Step-counts_example : ref_count (acquire "net1" "bob" 5 viewed) "net1" ≡ ref_count viewed "net1" + 1
Step-counts_example = Step-counts viewed-Reachable (acquired "net1" "bob" 5) "net1"

loops_kept_example : loops "net1" (acquire "net1" "bob" 5 viewed) ≡ loops "net1" viewed
loops_kept_example =
    loops_kept viewed-Reachable (acquired "net1" "bob" 5) "net1" 0 viewed_object
      (unfold acquire acquire_on begin_tick empty in refl)

reacquire_adds_loop_example :
    loops "net1" (acquire "net1" "ann" 3 (release "net1" viewed))
      + count (is_noted (viewed.store 0).timer "net1") viewed.timers
    ≡ suc (loops "net1" viewed)
reacquire_adds_loop_example =
    reacquire_adds_loop viewed "net1" "ann" 3 0 viewed_object
      (unfold acquire acquire_on begin_tick empty in refl)
