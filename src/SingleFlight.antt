-- ===== src/SingleFlight.antt =====
-- The guard of services/ztnet/src/server/api/services/routesService.ts (`syncNetworkRoutesOnce`) and
-- memberService.ts (`reconcileNetworkMembersOnce`): one run for each network at a time, which callers that
-- come meanwhile share. A run is a number; what it does is in Routes and in Members.
pub mod Laws
mod Tests
use docker_zerotier_planet.Common.{
  ℕ, zero, suc, ◌+◌, ◌-◌, ◌*◌, ◌≤◌, ◌<◌, String, ◌≡◌, refl, sym, ap, ◌∙◌, subst, ◌≢◌, ◌↔◌, ◌⊎◌, inl,
  inr, Bool, true, false, not, ◌&&◌, ◌||◌, Option, none, some, List, [], ◌∷◌, ◌++◌, map, arith,
  str_eq, eq_iff, ltb, leb, ◌==◌, if◌then◌else◌, Bool-cases, Option-cases, find, filter, In,
}

-- The map of promises, and the runs that have not ended, each as a network and its run.
pub record Guard : Type 0 where
  pub in_flight : List (String × ℕ)
  pub running : List (String × ℕ)
  pub next_run : ℕ

abbrev pub of_network : String → String × ℕ → Bool
of_network nwid (n, r) = str_eq n nwid

abbrev pub is_run : String → ℕ → String × ℕ → Bool
is_run nwid run (n, r) = str_eq n nwid && r == run

-- The call: the promise of the map, or a new run that is put there.
unfoldable pub call : String → Guard → Guard × ℕ
call nwid g = elim (find (of_network nwid) g.in_flight) [
  | some (n, run) ↦ (g, run)
  | none ↦ (
    record {
      in_flight = (nwid, g.next_run) ∷ g.in_flight;
      running = (nwid, g.next_run) ∷ g.running;
      next_run = g.next_run + 1;
    },
    g.next_run,
  )
]

-- The run ends, in success or failure, and `finally` deletes its network from the map.
unfoldable pub finish : String → ℕ → Guard → Guard
finish nwid run g = record g {
  in_flight = filter (λ e. not (of_network nwid e)) g.in_flight;
  running = filter (λ e. not (is_run nwid run e)) g.running;
}

unfoldable pub idle_guard : Guard
idle_guard = record { in_flight = []; running = []; next_run = 0 }

-- What any callers and runs get to.
pub data Reachable : Guard → Type 0 where
  start : Reachable idle_guard
  called : {g : Guard} (nwid : String) → Reachable g → Reachable (call nwid g).0
  finished :
      {g : Guard} (nwid : String) (run : ℕ)
      → Reachable g
      → In (nwid, run) g.running
      → Reachable (finish nwid run g)
