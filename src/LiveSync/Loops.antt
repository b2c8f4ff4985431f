-- ===== src/LiveSync/Loops.antt =====
-- The viewers of a network in the live sync manager, counted step by step.
use docker_zerotier_planet.Common.{
  ℕ, ◌+◌, ◌-◌, String, ◌≡◌, refl, ap, ◌∙◌, ◌≢◌, inl, inr, false, Option, none, some, arith, str_eq,
  eq_iff, if◌then◌else◌, Bool-cases, Option-cases,
}
use docker_zerotier_planet.LiveSync.{
  Sync, Entry, Run, begin_tick, acquire_on, acquire, release_on, release, report, reschedule_on,
  finish, Step, acquired, released, fired, finished, Reachable, ref_count,
}
use docker_zerotier_planet.LiveSync.Invariant.{Inv}
use docker_zerotier_planet.LiveSync.Reach.{Reachable-Inv}

-- What a step does to the number of viewers of a network.
abbrev pub viewers : {s t : Sync} → Step s t → String → ℕ → ℕ
viewers (acquired n ctx now) m k = if str_eq n m then k + 1 else k
viewers (released n) m k = if str_eq n m then k - 1 else k
viewers (fired t rest now p) m k = k
viewers (finished run rest result now p) m k = k

-- The count of an object that the map holds.
abbrev count_of : (ℕ → Entry) → Option ℕ → ℕ
count_of store none = 0
count_of store (some o) = (store o).ref_count

ref_count_lem : (s : Sync) (m : String) → ref_count s m ≡ count_of s.store (s.networks m)
unfolding ref_count
ref_count_lem s m = ground arith

begin_counts :
    (n : String) (now : ℕ) (s : Sync) (m : String)
    → ref_count (begin_tick n now s) m ≡ ref_count s m
unfolding ref_count begin_tick
begin_counts n now s m = ground arith

report_counts :
    (run : Run) (result : Option String) (s : Sync) (m : String)
    → ref_count (report run result s) m ≡ ref_count s m
unfolding ref_count report
report_counts run none s m = refl
report_counts run (some hash) s m = ground arith

reschedule_counts :
    (run : Run) (now : ℕ) (s : Sync) (found : Option ℕ) (m : String)
    → ref_count (reschedule_on run now s found) m ≡ ref_count s m
unfolding ref_count reschedule_on
reschedule_counts run now s none m = refl
reschedule_counts run now s (some o) m = ground arith

finish_counts :
    (run : Run) (result : Option String) (now : ℕ) (s : Sync) (m : String)
    → ref_count (finish run result now s) m ≡ ref_count s m
unfolding finish
finish_counts run result now s m = reschedule_counts run now _ _ m ∙ report_counts run result s m

module _ (n m : String) (s : Sync) (v : Inv s) where
  differ_object :
      {o p : ℕ} → s.networks n ≡ some o → s.networks m ≡ some p → str_eq n m ≡ false → p ≢ o
  differ_object {o} {p} e f h q =
      absurd (ground (arith, eq_iff n m, v.core.apart n m o e (f ∙ ap some q)))

  acquire_found :
      (ctx : String) (now : ℕ) (found : Option ℕ)
      → s.networks n ≡ found
      → ref_count (acquire_on n ctx now s found) m
        ≡ (if str_eq n m then ref_count s m + 1 else ref_count s m)
  unfolding acquire_on begin_tick ref_count
  acquire_found ctx now none e = rw (begin_counts n now _ m) (elim (Option-cases (s.networks m)) [
    | inl absent ↦ ground (arith, eq_iff n m, eq_iff m n)
    | inr (p, f) ↦ ground (arith, eq_iff n m, eq_iff m n, v.core.below m p f)
  ])
  acquire_found ctx now (some o) e = elim (Option-cases (s.networks m)) [
    | inl absent ↦ ground (arith, eq_iff n m)
    | inr (p, f) ↦ elim (Bool-cases (str_eq n m)) [
      | inl same ↦ ground (arith, eq_iff n m)
      | inr differ ↦ ground (arith, differ_object e f differ)
    ]
  ]

  release_found :
      (found : Option ℕ)
      → s.networks n ≡ found
      → ref_count (release_on n s found) m
        ≡ (if str_eq n m then ref_count s m - 1 else ref_count s m)
  unfolding release_on ref_count
  release_found none e = ground (arith, eq_iff n m)
  release_found (some o) e = elim (Option-cases (s.networks m)) [
    | inl absent ↦ ground (arith, eq_iff n m, eq_iff m n)
    | inr (p, f) ↦ elim (Bool-cases (str_eq n m)) [
      | inl same ↦ ground (arith, eq_iff n m, eq_iff m n)
      | inr differ ↦ ground (arith, eq_iff n m, eq_iff m n, differ_object e f differ)
    ]
  ]

-- A step of the manager does to the count of each network what the abstract count of viewers does: an
-- arrival adds one, a departure takes one off if there is one, and ticks leave every count alone.
pub Step-counts :
    {s t : Sync} (r : Reachable s) (st : Step s t) (m : String)
    → ref_count t m ≡ viewers st m (ref_count s m)
Step-counts {s} r (acquired n ctx now) m =
    unfold acquire in acquire_found n m s (Reachable-Inv r) ctx now _ refl
Step-counts {s} r (released n) m = unfold release in release_found n m s (Reachable-Inv r) _ refl
Step-counts {s} r (fired t rest now p) m = begin_counts t.nwid now _ m ∙ (unfold ref_count in refl)
Step-counts {s} r (finished run rest result now p) m =
    finish_counts run result now _ m ∙ (unfold ref_count in refl)
