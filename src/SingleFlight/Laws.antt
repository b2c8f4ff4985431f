-- ===== src/SingleFlight/Laws.antt =====
-- One run for each network, shared by its callers.
use docker_zerotier_planet.Common.{
  ℕ, ◌+◌, ◌≤◌, String, ◌≡◌, refl, sym, ap, ◌∙◌, subst, inl, inr, true, false, not, Option, none,
  some, List, [], ◌∷◌, arith, str_eq, eq_iff, ◌==◌, if◌then◌else◌, Bool-cases, Option-cases, count,
  find, In, here, filter, any, there, count-filter_le, In-cases, eq_refl, any-count, length,
}
use docker_zerotier_planet.SingleFlight.{
  Guard, of_network, is_run, call, finish, idle_guard, Reachable, start, called, finished,
}

pub record Inv (g : Guard) : Type 0 where
  pub same : g.in_flight ≡ g.running
  pub one : (n : String) → count (of_network n) g.running ≤ 1

found_none :
    (n : String) (runs : List (String × ℕ))
    → find (of_network n) runs ≡ none
    → count (of_network n) runs ≡ 0
found_none n [] h = refl
found_none n ((k, r) ∷ runs) h = elim (Bool-cases (str_eq k n)) [
  | inl hit ↦ (let no : some (k, r) ≡ none = rw hit at h in cc no)
  | inr miss ↦ rw miss (omega (arith, found_none n runs (rw miss at h)))
]

found_In :
    (n : String) (runs : List (String × ℕ)) {k : String} {r : ℕ}
    → find (of_network n) runs ≡ some (k, r)
    → In (n, r) runs
found_In n [] h = cc h
found_In n ((i, s) ∷ runs) {k} {r} h = elim (Bool-cases (str_eq i n)) [
  | inl hit ↦
      (let eq : ◌≡◌ {A = Option (String × ℕ)} (some (i, s)) (some (k, r)) = rw hit at h in
        let run_eq : s ≡ r = cc eq in here (rw ((eq_iff i n).0 hit, run_eq) refl))
  | inr miss ↦ there (found_In n runs (rw miss at h))
]

In-count :
    (n : String) (run : ℕ) (runs : List (String × ℕ))
    → In (n, run) runs
    → 1 ≤ count (of_network n) runs
In-count n run [] m = elim m [ ]
In-count n run ((k, r) ∷ runs) m = elim (In-cases m) [
  | inl e ↦
      (let eq : n ≡ k = ap (λ (x : String × ℕ). x.0) e in rw (sym eq, eq_refl n) (omega arith))
  | inr later ↦ omega (arith, In-count n run runs later)
]

head_run :
    (n : String) (run : ℕ) (k : String) (r : ℕ) (runs : List (String × ℕ))
    → count (of_network n) runs ≡ 0
    → In (n, run) ((k, r) ∷ runs)
    → (r == run) ≡ true
head_run n run k r runs alone m = elim (In-cases m) [
  | inl e ↦ (let eq : run ≡ r = ap (λ (x : String × ℕ). x.1) e in ground (arith, eq))
  | inr later ↦ absurd (omega (arith, alone, In-count n run runs later))
]

absent_same :
    (n : String) (run : ℕ) (runs : List (String × ℕ))
    → count (of_network n) runs ≡ 0
    → filter (λ e. not (of_network n e)) runs ≡ filter (λ e. not (is_run n run e)) runs
absent_same n run [] h = refl
absent_same n run ((k, r) ∷ runs) h = elim (Bool-cases (str_eq k n)) [
  | inl hit ↦ absurd (ground (arith, hit, h))
  | inr miss ↦ rw miss (
      ap (λ (l : List (String × ℕ)). (k, r) ∷ l) (absent_same n run runs (ground (arith, miss, h))))
]

-- Where a network has one run at most, deleting the network deletes that run.
same_filter :
    (n : String) (run : ℕ) (runs : List (String × ℕ))
    → ((k : String) → count (of_network k) runs ≤ 1)
    → In (n, run) runs
    → filter (λ e. not (of_network n e)) runs ≡ filter (λ e. not (is_run n run e)) runs
same_filter n run [] one m = elim m [ ]
same_filter n run ((k, r) ∷ runs) one m = elim (Bool-cases (str_eq k n)) [
  | inr other ↦ rw other (
      ap (λ (l : List (String × ℕ)). (k, r) ∷ l)
        (same_filter n run runs (λ i. omega (arith, one i))
          (elim (In-cases m) [
            | inl e ↦
                (let no : false ≡ true =
                    sym other
                    ∙ ap (λ (j : String). str_eq j n) (ap (λ (x : String × ℕ). x.0) (sym e))
                    ∙ eq_refl n in
                  cc no)
            | inr later ↦ later
          ])))
  | inl mine ↦
      (let alone : count (of_network n) runs ≡ 0 = ground (arith, mine, one n) in
        let run_eq : (r == run) ≡ true = head_run n run k r runs alone m in
        rw (mine, run_eq) (absent_same n run runs alone))
]

call-Inv : (n : String) (g : Guard) → Inv g → Inv (call n g).0
unfolding call
call-Inv n g v = elim (Option-cases (find (of_network n) g.in_flight)) [
  | inr ((k, r), known) ↦ rw (known, call) v
  | inl absent ↦
      rw (absent, call)
        (record {
          same = ap (λ (runs : List (String × ℕ)). (n, g.next_run) ∷ runs) v.same;
          one = λ k. elim (Bool-cases (str_eq n k)) [
            | inr other ↦ rw other (omega (arith, v.one k))
            | inl mine ↦
                (let none_of : count (of_network n) g.running ≡ 0 =
                    found_none n g.running
                      (subst (λ runs. find (of_network n) runs ≡ none) v.same absent) in
                  let none_of_k : count (of_network k) g.running ≡ 0 =
                    subst (λ i. count (of_network i) g.running ≡ 0) ((eq_iff n k).0 mine) none_of in
                  rw mine (omega (arith, none_of_k)))
          ];
        })
]

finish-Inv :
    (n : String) (run : ℕ) (g : Guard) → In (n, run) g.running → Inv g → Inv (finish n run g)
unfolding finish
finish-Inv n run g m v = record {
  same = ap (filter (λ e. not (of_network n e))) v.same ∙ same_filter n run g.running v.one m;
  one = λ k.
      omega (arith, v.one k, count-filter_le (of_network k) (λ e. not (is_run n run e)) g.running);
}

pub Reachable-Inv : {g : Guard} → Reachable g → Inv g
unfolding idle_guard
Reachable-Inv start = record { same = refl; one = λ n. omega arith }
Reachable-Inv (called {g} n r) = call-Inv n g (Reachable-Inv r)
Reachable-Inv (finished {g} n run r m) = finish-Inv n run g m (Reachable-Inv r)

deleted_none :
    (n : String) (runs : List (String × ℕ))
    → find (of_network n) (filter (λ e. not (of_network n e)) runs) ≡ none
deleted_none n [] = refl
deleted_none n ((k, r) ∷ runs) = ground (arith, deleted_none n runs)

freed : (n : String) (g : Guard) (run : ℕ) → (call n (finish n run g)).1 ≡ g.next_run
unfolding finish call
freed n g run = rw (call, deleted_none n g.in_flight) refl

-- Whatever callers and runs did before, a call gets a run of its network that is in progress, the only one;
-- a run is started exactly where none was in progress. Once the network's run has ended, a call starts a
-- new one.
pub call_joins :
    (n : String) (run : ℕ) (g : Guard)
    → Reachable g
    → In (n, (call n g).1) (call n g).0.running
      × (count (of_network n) (call n g).0.running ≡ 1)
      × (length (call n g).0.running
          ≡ length g.running + (if any (of_network n) g.running then 0 else 1))
      × ((call n (finish n run g)).1 ≡ g.next_run)
unfolding call
call_joins n run' g r =
    let v = Reachable-Inv r in
    elim (Option-cases (find (of_network n) g.in_flight)) [
      | inr ((k, run), known) ↦
          (let member : In (n, run) g.running =
              found_In n g.running
                (subst (λ runs. find (of_network n) runs ≡ some (k, run)) v.same known) in
            rw (known, call)
              (
                member,
                omega (arith, v.one n, In-count n run g.running member),
                ground (arith, In-count n run g.running member, any-count (of_network n) g.running),
                freed n g run',
              ))
      | inl absent ↦
          (let none_of : count (of_network n) g.running ≡ 0 =
              found_none n g.running
                (subst (λ runs. find (of_network n) runs ≡ none) v.same absent) in
            rw (absent, call, eq_refl n)
              (
                here refl,
                omega (arith, none_of),
                ground (arith, none_of, any-count (of_network n) g.running),
                freed n g run',
              ))
    ]
