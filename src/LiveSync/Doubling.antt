-- ===== src/LiveSync/Doubling.antt =====
-- The loops of a viewed network: its running ticks and its timers.
use docker_zerotier_planet.Common.{
  ℕ, suc, ◌+◌, ◌-◌, ◌≤◌, String, ◌≡◌, refl, ap, ◌∙◌, subst, ◌≢◌, inl, inr, Bool, true, false,
  Option, none, some, List, [], ◌∷◌, arith, str_eq, eq_iff, leb, if◌then◌else◌, Bool-cases, All,
  eq_refl, count, ◌==◌, ◌&&◌,
}
use docker_zerotier_planet.LiveSync.{
  Sync, Run, Timer, put, write, drop_timer, clear_timer, begin_on, begin_tick, acquire_on, acquire,
  release_on, release, report, reschedule_on, finish, Picked, first, later, Step, acquired,
  released, fired, finished, Reachable,
}
use docker_zerotier_planet.LiveSync.Invariant.{Inv}
use docker_zerotier_planet.LiveSync.Reach.{Reachable-Inv}

-- The loops of a network: its running ticks and its pending timers.
abbrev pub loops : String → Sync → ℕ
loops n s = count (λ r. str_eq r.nwid n) s.running + count (λ t. str_eq t.nwid n) s.timers

count-Picked {ℓ} :
    {A : Type ℓ} (p : A → Bool) {x : A} {xs rest : List A}
    → Picked x xs rest
    → count p xs ≡ (if p x then 1 else 0) + count p rest
count-Picked p first = refl
count-Picked p (later k) = omega (arith, count-Picked p k)

count-drop :
    (k n : String) (id : ℕ) (timers : List Timer)
    → k ≢ n
    → All (λ t. t.id ≡ id → t.nwid ≡ k) timers
    → count (λ t. str_eq t.nwid n) (drop_timer id timers) ≡ count (λ t. str_eq t.nwid n) timers
count-drop k n id [] ne h = refl
count-drop k n id (t ∷ timers) ne (p, h) =
    ground (arith, count-drop k n id timers ne h, eq_iff t.nwid n)

-- A tick that begins is one more loop of its network, where that is viewed, and of no other.
begin_other :
    (k n : String) (now : ℕ) (s : Sync) (found : Option ℕ)
    → str_eq k n ≡ false
    → loops n (begin_on k now s found) ≡ loops n s
begin_other k n now s none h = refl
begin_other k n now s (some o) h = ground arith

begin_same :
    (n : String) (now : ℕ) (s : Sync) (o : ℕ)
    → loops n (begin_on n now s (some o)) ≡ suc (loops n s)
begin_same n now s o = ground (arith, eq_refl n)

loops-report :
    (run : Run) (result : Option String) (s : Sync) (n : String)
    → loops n (report run result s) ≡ loops n s
unfolding report
loops-report run none s n = refl
loops-report run (some hash) s n = ground arith

report_count :
    (run : Run) (result : Option String) (s : Sync) (o : ℕ)
    → ((report run result s).store o).ref_count ≡ (s.store o).ref_count
unfolding report
report_count run none s o = refl
report_count run (some hash) s o = ground arith

report_networks :
    (run : Run) (result : Option String) (s : Sync) (n : String)
    → (report run result s).networks n ≡ s.networks n
unfolding report
report_networks run none s n = refl
report_networks run (some hash) s n = ground arith

module _ (n : String) (o : ℕ) where
  acquire_loops :
      (k ctx : String) (now : ℕ) (s : Sync) (found : Option ℕ)
      → s.networks k ≡ found
      → s.networks n ≡ some o
      → loops n (acquire_on k ctx now s found) ≡ loops n s
  unfolding acquire_on begin_tick
  acquire_loops k ctx now s none e here =
      unfold begin_tick in begin_other k n now _ _ (ground (arith, eq_iff k n))
  acquire_loops k ctx now s (some p) e here = refl

  clear_loops :
      (k : String) (s : Sync) (p : ℕ) (timer : Option ℕ)
      → Inv s
      → s.networks k ≡ some p
      → (s.store p).timer ≡ timer
      → k ≢ n
      → count (λ t. str_eq t.nwid n) (clear_timer timer s.timers)
        ≡ count (λ t. str_eq t.nwid n) s.timers
  clear_loops k s p none v e h ne = refl
  clear_loops k s p (some id) v e h ne = count-drop k n id s.timers ne (v.core.owned k p id e h).0

  release_loops :
      (k : String) (s : Sync) (found : Option ℕ)
      → Inv s
      → s.networks k ≡ found
      → s.networks n ≡ some o
      → (release_on k s found).networks n ≡ some o
      → loops n (release_on k s found) ≡ loops n s
  unfolding release_on
  release_loops k s none v e here still = refl
  release_loops k s (some p) v e here still =
      elim (Bool-cases (leb ((s.store p).ref_count - 1) 0)) [
        | inl last ↦
            let gone : (put k none s.networks) n ≡ some o = rw (last, release_on) at still in
            let differ : k ≢ n = ground (arith, eq_iff n k) in
            rw last (omega (arith, clear_loops k s p (s.store p).timer v e refl differ))
        | inr more ↦ rw more refl
      ]

  reschedule_loops :
      (run : Run) (now : ℕ) (s : Sync) (found : Option ℕ)
      → s.networks run.nwid ≡ found
      → s.networks n ≡ some o
      → 1 ≤ (s.store o).ref_count
      → loops n (reschedule_on run now s found) ≡ (if str_eq run.nwid n then 1 else 0) + loops n s
  unfolding reschedule_on
  reschedule_loops run now s none e here pos = ground (arith, eq_iff run.nwid n)
  reschedule_loops run now s (some p) e here pos = ground (arith, eq_iff run.nwid n)

  loops-finish :
      (run : Run) (result : Option String) (now : ℕ) (s : Sync)
      → s.networks n ≡ some o
      → 1 ≤ (s.store o).ref_count
      → loops n (finish run result now s) ≡ (if str_eq run.nwid n then 1 else 0) + loops n s
  unfolding finish
  loops-finish run result now s here pos =
      reschedule_loops run now (report run result s) _ refl (report_networks run result s n ∙ here)
        (rw (report_count run result s o) pos)
      ∙ ap (λ (k : ℕ). (if str_eq run.nwid n then 1 else 0) + k) (loops-report run result s n)

picked_one : (b : Bool) → b ≡ true → ◌≡◌ {A = ℕ} (if b then 1 else 0) 1
picked_one b h = ground arith

picked_none : (b : Bool) → b ≡ false → ◌≡◌ {A = ℕ} (if b then 1 else 0) 0
picked_none b h = ground arith

fired_same :
    (t : Timer) (n : String) (now : ℕ) (s : Sync) (rest : List Timer) (o : ℕ)
    → t.nwid ≡ n
    → s.networks t.nwid ≡ some o
    → loops n (begin_tick t.nwid now (record s { timers = rest }))
      ≡ suc (loops n (record s { timers = rest }))
unfolding begin_tick
fired_same t n now s rest o this viewed = rw viewed (
    subst
      (λ k.
        loops k (begin_on t.nwid now (record s { timers = rest }) (some o))
        ≡ suc (loops k (record s { timers = rest })))
      this (begin_same t.nwid now (record s { timers = rest }) o))

fired_other :
    (t : Timer) (n : String) (now : ℕ) (s : Sync) (rest : List Timer)
    → str_eq t.nwid n ≡ false
    → loops n (begin_tick t.nwid now (record s { timers = rest }))
      ≡ loops n (record s { timers = rest })
unfolding begin_tick
fired_other t n now s rest differ =
    begin_other t.nwid n now (record s { timers = rest }) (s.networks t.nwid) differ

acquire_new_loops :
    (n ctx : String) (now : ℕ) (s : Sync)
    → s.networks n ≡ none
    → loops n (acquire n ctx now s) ≡ suc (loops n s)
unfolding acquire acquire_on begin_tick
acquire_new_loops n ctx now s h =
    rw (h, eq_refl n)
      (begin_same n now
        (record s {
          networks = put n (some s.next_object) s.networks;
          store =
              write s.next_object
                (record { ref_count = 1; ctx = ctx; timer = none; last_hash = "" }) s.store;
          next_object = suc s.next_object;
        })
        s.next_object)

-- The pending timer of a network that its object notes.
abbrev pub is_noted : Option ℕ → String → Timer → Bool
is_noted none n t = false
is_noted (some id) n t = t.id == id && str_eq t.nwid n

count-noted_none : (n : String) (timers : List Timer) → count (is_noted none n) timers ≡ 0
count-noted_none n [] = refl
count-noted_none n (t ∷ timers) = omega (arith, count-noted_none n timers)

count-cleared :
    (n : String) (id : ℕ) (timers : List Timer)
    → count (λ t. str_eq t.nwid n) (drop_timer id timers) + count (is_noted (some id) n) timers
      ≡ count (λ t. str_eq t.nwid n) timers
count-cleared n id [] = refl
count-cleared n id (t ∷ timers) = ground (arith, count-cleared n id timers)

clear_noted :
    (n : String) (timer : Option ℕ) (timers : List Timer)
    → count (λ t. str_eq t.nwid n) (clear_timer timer timers) + count (is_noted timer n) timers
      ≡ count (λ t. str_eq t.nwid n) timers
clear_noted n none timers = omega (arith, count-noted_none n timers)
clear_noted n (some id) timers = count-cleared n id timers

release_last :
    (n : String) (s : Sync) (o : ℕ)
    → s.networks n ≡ some o
    → (s.store o).ref_count ≡ 1
    → ((release n s).networks n ≡ none)
      × (loops n (release n s) + count (is_noted (s.store o).timer n) s.timers ≡ loops n s)
unfolding release release_on
release_last n s o e alone = (
  rw (e, release_on, alone, eq_refl n) refl,
  rw (e, release_on, alone) (omega (arith, clear_noted n (s.store o).timer s.timers)),
)

-- While a network stays viewed its loops are neither lost nor added, whatever happens: a step between
-- two states in which it is viewed through the same object keeps their number.
pub loops_kept :
    {s t : Sync} (r : Reachable s) (st : Step s t) (n : String) (o : ℕ)
    → s.networks n ≡ some o
    → t.networks n ≡ some o
    → loops n t ≡ loops n s
loops_kept {s} r (acquired k ctx now) n o e f =
    unfold acquire in acquire_loops n o k ctx now s _ refl e
loops_kept {s} r (released k) n o e f =
    unfold release in release_loops n o k s _ (Reachable-Inv r) refl e (unfold release in f)
loops_kept {s} r (fired t rest now p) n o e f = elim (Bool-cases (str_eq t.nwid n)) [
  | inl same ↦
      let this : t.nwid ≡ n = (eq_iff t.nwid n).0 same in
      let viewed : s.networks t.nwid ≡ some o = ap s.networks this ∙ e in
      omega (
        arith,
        fired_same t n now s rest o this viewed,
        count-Picked (λ t'. str_eq t'.nwid n) p,
        picked_one (str_eq t.nwid n) same,
      )
  | inr differ ↦ omega (
    arith,
    fired_other t n now s rest differ,
    count-Picked (λ t'. str_eq t'.nwid n) p,
    picked_none (str_eq t.nwid n) differ,
  )
]
loops_kept {s} r (finished run rest result now p) n o e f = omega (
  arith,
  loops-finish n o run result now (record s { running = rest }) e
      ((Reachable-Inv r).core.counted n o e),
  count-Picked (λ r'. str_eq r'.nwid n) p,
)

-- A viewer who is alone, leaves, and comes back leaves the network with one loop more than before, less the
-- pending timer that its object notes: so a running tick goes on as a loop beside the new one.
pub reacquire_adds_loop :
    (s : Sync) (n ctx : String) (now o : ℕ)
    → s.networks n ≡ some o
    → (s.store o).ref_count ≡ 1
    → loops n (acquire n ctx now (release n s)) + count (is_noted (s.store o).timer n) s.timers
      ≡ suc (loops n s)
reacquire_adds_loop s n ctx now o e alone =
    let (gone, same) = release_last n s o e alone in
    omega (arith, acquire_new_loops n ctx now (release n s) gone, same)
