-- ===== src/SingleFlight/Tests.antt =====
-- Two callers and a run.
use docker_zerotier_planet.Common.{◌+◌, ◌≡◌, [], ◌∷◌, if◌then◌else◌, In, count, any, length}
use docker_zerotier_planet.SingleFlight.{
  Guard, of_network, call, finish, idle_guard, Reachable, start, called,
}
use docker_zerotier_planet.SingleFlight.Laws.{call_joins}

abbrev busy : Guard
busy = record { in_flight = ("n", 0) ∷ []; running = ("n", 0) ∷ []; next_run = 1 }

busy_reachable : Reachable busy
unfolding call idle_guard
busy_reachable = called "n" start

call_joins_example :
    In ("n", (call "n" busy).1) (call "n" busy).0.running
    × (count (of_network "n") (call "n" busy).0.running ≡ 1)
    × (length (call "n" busy).0.running
        ≡ length busy.running + (if any (of_network "n") busy.running then 0 else 1))
    × ((call "n" (finish "n" 0 busy)).1 ≡ busy.next_run)
call_joins_example = call_joins "n" 0 busy busy_reachable
