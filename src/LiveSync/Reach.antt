-- ===== src/LiveSync/Reach.antt =====
-- The invariant of the live sync manager in every reachable state.
use docker_zerotier_planet.Common.{
  ℕ, ◌-◌, ◌≤◌, ◌<◌, String, ◌≡◌, refl, sym, ap, ◌∙◌, ◌≢◌, inl, inr, Bool, true, false, Option, none,
  some, List, arith, str_eq, eq_iff, ltb, leb, ◌==◌, Bool-cases, any, All, eq_refl,
}
use docker_zerotier_planet.LiveSync.{
  Sync, Run, Timer, put, write, clear_timer, release_on, release, report, reschedule_on, finish,
  Picked, first, later, Step, acquired, released, fired, finished, Reachable, start, next,
}
use docker_zerotier_planet.LiveSync.Invariant.{
  is_served, Core, Served, Inv, drop_keeps, All-drop, All-Picked, All-map, empty-Inv, report-Core,
  report-Served, begin_tick-Inv, acquire-Inv,
}

-- The last viewer of a network leaves.
module _ (n : String) (s : Sync) (o : ℕ) (v : Inv s) (found : s.networks n ≡ some o) where
  cleared_keeps :
      (m : String)
      → m ≢ n
      → (timer : Option ℕ) → (s.store o).timer ≡ timer
      → any (λ t. str_eq t.nwid m) (clear_timer timer s.timers)
        ≡ any (λ t. str_eq t.nwid m) s.timers
  cleared_keeps m differ none e = refl
  cleared_keeps m differ (some id) e =
      drop_keeps n m id s.timers (λ p. differ (sym p)) (v.core.owned n o id found e).0

  All-cleared :
      (P : Timer → Type 0) (timer : Option ℕ) → All P s.timers → All P (clear_timer timer s.timers)
  All-cleared P none h = h
  All-cleared P (some id) h = All-drop P id s.timers h

  abbrev closed : Sync
  closed = record s {
    store = write o (record (s.store o) { ref_count = (s.store o).ref_count - 1 }) s.store;
    timers = clear_timer (s.store o).timer s.timers;
    networks = put n none s.networks;
  }

  closed_other :
      (m : String) (p : ℕ)
      → closed.networks m ≡ some p
      → (m ≢ n) × (s.networks m ≡ some p) × (p ≢ o)
  closed_other m p e =
      let differ : m ≢ n = ground (arith, eq_iff m n) in
      let kept : s.networks m ≡ some p = ground (arith, eq_iff m n) in
      (differ, kept, λ q. differ (v.core.apart m n o (kept ∙ ap some q) found))

  closed-Inv : Inv closed
  closed-Inv = record {
    core = record {
      below = λ m p e. v.core.below m p (closed_other m p e).1;
      apart = λ m k p e f. v.core.apart m k p (closed_other m p e).1 (closed_other k p f).1;
      counted =
          λ m p e. let (_, e', ne) = closed_other m p e in ground (arith, v.core.counted m p e');
      owned = λ m p id e h.
          let (_, e', ne) = closed_other m p e in
          let (all, lt) = v.core.owned m p id e' (ground arith) in
          (All-cleared (λ t. t.id ≡ id → t.nwid ≡ m) (s.store o).timer all, lt);
      fresh = All-cleared (λ t. t.id < s.next_timer) (s.store o).timer v.core.fresh;
    };
    served = λ m p e.
        let (differ, e', _) = closed_other m p e in
        rw (cleared_keeps m differ (s.store o).timer refl) (v.served m p e');
  }

  release_found-Inv : Inv (release_on n s (some o))
  unfolding release_on
  release_found-Inv = elim (Bool-cases (leb ((s.store o).ref_count - 1) 0)) [
    | inl last ↦ rw last closed-Inv
    | inr more ↦ rw more (record {
      core = record {
        below = v.core.below;
        apart = v.core.apart;
        counted = λ m p e. ground (arith, v.core.counted m p e);
        owned = λ m p id e h. v.core.owned m p id e (ground arith);
        fresh = v.core.fresh;
      };
      served = v.served;
    })
  ]

release_on-Inv :
    (n : String) (s : Sync) (found : Option ℕ)
    → Inv s
    → s.networks n ≡ found
    → Inv (release_on n s found)
release_on-Inv n s none v e = unfold release_on in v
release_on-Inv n s (some o) v e = release_found-Inv n s o v e

release-Inv : (n : String) (s : Sync) → Inv s → Inv (release n s)
unfolding release
release-Inv n s v = release_on-Inv n s (s.networks n) v refl

-- The end of a tick: its network need not be served before, and is afterwards.
module _ (run : Run) (now : ℕ) (s : Sync) (v : Core s)
    (others : (m : String) → m ≢ run.nwid → Served s m) where
  reschedule-Inv :
      (found : Option ℕ) → s.networks run.nwid ≡ found → Inv (reschedule_on run now s found)
  unfolding reschedule_on
  reschedule-Inv none e = record {
    core = v;
    served = λ m o e'. elim (Bool-cases (str_eq m run.nwid)) [
      | inl same ↦ absurd (ground (arith, eq_iff m run.nwid))
      | inr differ ↦ others m (ground (arith, eq_iff m run.nwid)) o e'
    ];
  }
  reschedule-Inv (some o) e =
      let viewed : ltb 0 (s.store o).ref_count ≡ true = ground (arith, v.counted run.nwid o e) in
      rw viewed (record {
        core = record {
          below = v.below;
          apart = v.apart;
          counted = λ m p e'. ground (arith, v.counted m p e');
          owned = λ m p id e' h. elim (Bool-cases (p == o)) [
            | inl same ↦
                let this : id ≡ s.next_timer = ground arith in
                let who : m ≡ run.nwid = v.apart m run.nwid o (e' ∙ ground arith) e in
                (
                  (λ q. sym who, All-map (λ t q at. absurd (omega arith)) s.timers v.fresh),
                  omega arith,
                )
            | inr other ↦
                let (all, lt) = v.owned m p id e' (ground arith) in
                ((λ q. absurd (omega arith), all), omega arith)
          ];
          fresh = (omega arith, All-map (λ t q. omega arith) s.timers v.fresh);
        };
        served = λ m p e'. elim (Bool-cases (str_eq run.nwid m)) [
          | inl same ↦ ground arith
          | inr differ ↦
              ground (arith, others m (ground (arith, eq_iff run.nwid m, eq_refl m)) p e')
        ];
      })

finish-Inv :
    (run : Run) (result : Option String) (now : ℕ) (s : Sync)
    → Core s
    → ((m : String) → m ≢ run.nwid → Served s m)
    → Inv (finish run result now s)
unfolding finish
finish-Inv run result now s v others =
    reschedule-Inv run now (report run result s) (report-Core run result s v)
      (λ m q. report-Served run result s m (others m q)) _ refl

any-Picked :
    {A : Type 0} (p : A → Bool) {x : A} {xs rest : List A}
    → Picked x xs rest
    → p x ≡ false
    → any p xs ≡ any p rest
any-Picked p first h = rw h refl
any-Picked p (later {x = y} k) h = rw (any-Picked p k h) refl

Step-Inv : {s t : Sync} → Step s t → Inv s → Inv t
Step-Inv {s} (acquired n ctx now) v = acquire-Inv n ctx now s v
Step-Inv {s} (released n) v = release-Inv n s v
Step-Inv {s} (fired t rest now k) v =
    begin_tick-Inv t.nwid now (record s { timers = rest })
      (record {
        below = v.core.below;
        apart = v.core.apart;
        counted = v.core.counted;
        owned =
            λ m p id e h. let (all, lt) = v.core.owned m p id e h in ((All-Picked _ k all).1, lt);
        fresh = (All-Picked _ k v.core.fresh).1;
      })
      (λ m differ o e. ground (
        arith,
        v.served m o e,
        any-Picked (λ t'. str_eq t'.nwid m) k (ground (arith, eq_iff t.nwid m, eq_refl m)),
      ))
Step-Inv {s} (finished run rest result now k) v =
    finish-Inv run result now (record s { running = rest })
      (record {
        below = v.core.below;
        apart = v.core.apart;
        counted = v.core.counted;
        owned = v.core.owned;
        fresh = v.core.fresh;
      })
      (λ m differ o e. ground (
        arith,
        v.served m o e,
        any-Picked (λ r. str_eq r.nwid m) k (ground (arith, eq_iff run.nwid m, eq_refl m)),
      ))

pub Reachable-Inv : {s : Sync} → Reachable s → Inv s
Reachable-Inv start = empty-Inv
Reachable-Inv (next r st) = Step-Inv st (Reachable-Inv r)

-- In every state that the manager gets to, by any order of viewers, timers and reconciles, a network
-- that is viewed has a positive count, and a tick of it is running or a timer will start one.
pub viewed_is_synced :
    {s : Sync} (n : String) (o : ℕ)
    → Reachable s
    → s.networks n ≡ some o
    → (1 ≤ (s.store o).ref_count) × (is_served n s.timers s.running ≡ true)
viewed_is_synced n o r e = ((Reachable-Inv r).core.counted n o e, (Reachable-Inv r).served n o e)
