-- ===== src/LiveSync.antt =====
-- services/ztnet/src/server/sync/syncManager.ts: the sync loop of each network that is being viewed.
-- `NetworkSyncState` objects live in a store, since a running tick keeps the object that it began
-- with. A tick is two steps, up to the `await` and after it; timers and ticks may be taken in any
-- order. The members' hash is the value that a finished reconcile hands over.
pub mod Invariant
pub mod Reach
pub mod Loops
pub mod Doubling
mod Tests
use docker_zerotier_planet.Common.{
  ℕ, suc, ◌+◌, ◌-◌, ◌≡◌, ◌≢◌, Bool, true, false, not, Option, none, some, List, [], ◌∷◌, ◌++◌,
  String, str_eq, if◌then◌else◌, leb, ltb, ◌==◌, max,
}

abbrev pub sync_interval_ms : ℕ
sync_interval_ms = 10000

-- `NetworkSyncState`, with the id of its timer.
pub record Entry : Type 0 where
  pub ref_count : ℕ
  pub ctx : String
  pub timer : Option ℕ
  pub last_hash : String

-- A tick that waits for its reconcile: the object that it holds, and when it began.
pub record Run : Type 0 where
  pub nwid : String
  pub object : ℕ
  pub start : ℕ

-- A timer that will call `tick`.
pub record Timer : Type 0 where
  pub id : ℕ
  pub nwid : String
  pub due : ℕ

pub record Sync : Type 0 where
  pub networks : String → Option ℕ
  pub store : ℕ → Entry
  pub next_object : ℕ
  pub next_timer : ℕ
  pub timers : List Timer
  pub running : List Run
  pub emitted : List String

abbrev pub put : String → Option ℕ → (String → Option ℕ) → String → Option ℕ
put nwid v networks m = if str_eq m nwid then v else networks m

abbrev pub write : ℕ → Entry → (ℕ → Entry) → ℕ → Entry
write o e store p = if p == o then e else store p

abbrev pub drop_timer : ℕ → List Timer → List Timer
drop_timer id [] = []
drop_timer id (t ∷ timers) = if t.id == id then drop_timer id timers else t ∷ drop_timer id timers

-- `clearTimeout`, where there is a timer.
abbrev pub clear_timer : Option ℕ → List Timer → List Timer
clear_timer none timers = timers
clear_timer (some id) timers = drop_timer id timers

-- `tick` up to its `await`.
abbrev pub begin_on : String → ℕ → Sync → Option ℕ → Sync
begin_on nwid now s none = s
begin_on nwid now s (some o) =
    let e = s.store o in
    record s {
      store = write o (record e { timer = none }) s.store;
      running = record { nwid = nwid; object = o; start = now } ∷ s.running;
    }

pub begin_tick : String → ℕ → Sync → Sync
begin_tick nwid now s = begin_on nwid now s (s.networks nwid)

-- `acquire` on what the map holds.
pub acquire_on : String → String → ℕ → Sync → Option ℕ → Sync
unfolding begin_tick
acquire_on nwid ctx now s (some o) =
    let e = s.store o in
    record s { store = write o (record e { ref_count = e.ref_count + 1; ctx = ctx }) s.store }
acquire_on nwid ctx now s none = begin_tick nwid now (record s {
  networks = put nwid (some s.next_object) s.networks;
  store =
      write s.next_object (record { ref_count = 1; ctx = ctx; timer = none; last_hash = "" })
        s.store;
  next_object = suc s.next_object;
})

pub acquire : String → String → ℕ → Sync → Sync
unfolding acquire_on
acquire nwid ctx now s = acquire_on nwid ctx now s (s.networks nwid)

-- `release` on what the map holds. A count that would be negative is 0 here, on the same branch.
pub release_on : String → Sync → Option ℕ → Sync
release_on nwid s none = s
release_on nwid s (some o) =
    let e = s.store o in
    let counted = record s { store = write o (record e { ref_count = e.ref_count - 1 }) s.store } in
    if leb (e.ref_count - 1) 0
    then record counted {
      timers = clear_timer e.timer s.timers;
      networks = put nwid none s.networks;
    }
    else counted

pub release : String → Sync → Sync
unfolding release_on
release nwid s = release_on nwid s (s.networks nwid)

-- The body after the `await`: `none` is a reconcile that failed.
pub report : Run → Option String → Sync → Sync
report run none s = s
report run (some hash) s =
    let e = s.store run.object in
    if str_eq hash e.last_hash then s else record s {
      store = write run.object (record e { last_hash = hash }) s.store;
      emitted = run.nwid ∷ s.emitted;
    }

-- The `finally` block on what the map holds now.
pub reschedule_on : Run → ℕ → Sync → Option ℕ → Sync
reschedule_on run now s none = s
reschedule_on run now s (some o) =
    let e = s.store o in
    if ltb 0 e.ref_count
    then record s {
      store = write o (record e { timer = some s.next_timer }) s.store;
      next_timer = suc s.next_timer;
      timers =
          record {
            id = s.next_timer;
            nwid = run.nwid;
            due = now + (sync_interval_ms + run.start - now);
          }
          ∷ s.timers;
    }
    else s

-- The second half of a tick, once it is off the list of running ones.
pub finish : Run → Option String → ℕ → Sync → Sync
unfolding report reschedule_on
finish run result now s =
    let reported = report run result s in
    reschedule_on run now reported (reported.networks run.nwid)

-- One element taken out of a list.
pub data Picked {ℓ} {A : Type ℓ} (a : A) : List A → List A → Type ℓ where
  first : {xs : List A} → Picked a (a ∷ xs) xs
  later : {x : A} {xs ys : List A} → Picked a xs ys → Picked a (x ∷ xs) (x ∷ ys)

-- What may happen next: a viewer comes or goes, a timer fires, a reconcile ends.
pub data Step (s : Sync) : Sync → Type 0 where
  acquired : (nwid ctx : String) (now : ℕ) → Step s (acquire nwid ctx now s)
  released : (nwid : String) → Step s (release nwid s)
  fired :
      (t : Timer) (rest : List Timer) (now : ℕ)
      → Picked t s.timers rest
      → Step s (begin_tick t.nwid now (record s { timers = rest }))
  finished :
      (run : Run) (rest : List Run) (result : Option String) (now : ℕ)
      → Picked run s.running rest
      → Step s (finish run result now (record s { running = rest }))

pub empty : Sync
empty = record {
  networks = λ nwid. none;
  store = λ o. record { ref_count = 0; ctx = ""; timer = none; last_hash = "" };
  next_object = 0;
  next_timer = 0;
  timers = [];
  running = [];
  emitted = [];
}

-- The states that the manager gets to.
pub data Reachable : Sync → Type 0 where
  start : Reachable empty
  next : {s t : Sync} → Reachable s → Step s t → Reachable t

-- `refCount`, the introspection helper.
pub ref_count : Sync → String → ℕ
ref_count s nwid = elim (s.networks nwid) [ none ↦ 0 | some o ↦ (s.store o).ref_count ]
