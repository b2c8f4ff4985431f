-- ===== src/LiveSync/Invariant.antt =====
-- What holds of every state that the manager gets to: each viewed network has an object of its own,
-- a positive count, and a tick that is running or a timer that will start one.
use docker_zerotier_planet.Common.{
  ℕ, suc, ◌≤◌, ◌<◌, String, ◌≡◌, refl, ◌≢◌, ◌⊎◌, inl, inr, Bool, true, ◌||◌, Option, none, some,
  List, [], ◌∷◌, arith, str_eq, eq_iff, ◌==◌, Bool-cases, any, All, eq_refl,
}
use docker_zerotier_planet.LiveSync.{
  Sync, Run, Timer, put, write, drop_timer, begin_on, begin_tick, acquire_on, acquire, report,
  Picked, first, later, empty,
}

-- A tick of the network is running, or a timer of it is pending.
abbrev pub is_served : String → List Timer → List Run → Bool
is_served n timers running = any (λ r. str_eq r.nwid n) running || any (λ t. str_eq t.nwid n) timers

-- Each viewed network has an object of its own with a positive count, and its timer's id is no other
-- network's.
pub record Core (s : Sync) : Type 0 where
  pub below : (n : String) (o : ℕ) → s.networks n ≡ some o → o < s.next_object
  pub apart : (n m : String) (o : ℕ) → s.networks n ≡ some o → s.networks m ≡ some o → n ≡ m
  pub counted : (n : String) (o : ℕ) → s.networks n ≡ some o → 1 ≤ (s.store o).ref_count
  pub owned :
      (n : String) (o id : ℕ)
      → s.networks n ≡ some o
      → (s.store o).timer ≡ some id
      → All (λ t. t.id ≡ id → t.nwid ≡ n) s.timers × (id < s.next_timer)
  pub fresh : All (λ t. t.id < s.next_timer) s.timers

abbrev pub Served : Sync → String → Type 0
Served s n = (o : ℕ) → s.networks n ≡ some o → is_served n s.timers s.running ≡ true

pub record Inv (s : Sync) : Type 0 where
  pub core : Core s
  pub served : (n : String) → Served s n

pub drop_keeps :
    (n m : String) (id : ℕ) (timers : List Timer)
    → n ≢ m
    → All (λ t. t.id ≡ id → t.nwid ≡ n) timers
    → any (λ t. str_eq t.nwid m) (drop_timer id timers) ≡ any (λ t. str_eq t.nwid m) timers
drop_keeps n m id [] ne h = refl
drop_keeps n m id (t ∷ timers) ne (p, h) =
    ground (arith, drop_keeps n m id timers ne h, eq_iff t.nwid m)

pub All-drop :
    (P : Timer → Type 0) (id : ℕ) (timers : List Timer)
    → All P timers
    → All P (drop_timer id timers)
All-drop P id [] h = tt
All-drop P id (t ∷ timers) (p, h) = elim (Bool-cases (t.id == id)) [
  | inl this ↦ rw this (All-drop P id timers h)
  | inr other ↦ rw other (p, All-drop P id timers h)
]

pub All-Picked :
    (P : Timer → Type 0) {t : Timer} {timers rest : List Timer}
    → Picked t timers rest
    → All P timers
    → P t × All P rest
All-Picked P first (p, h) = (p, h)
All-Picked P (later k) (p, h) = let (q, r) = All-Picked P k h in (q, (p, r))

pub All-map :
    {P Q : Timer → Type 0} (f : (t : Timer) → P t → Q t) (timers : List Timer)
    → All P timers
    → All Q timers
All-map f [] h = tt
All-map f (t ∷ timers) (p, h) = (f t p, All-map f timers h)

pub empty-Inv : Inv empty
unfolding empty
empty-Inv = record {
  core = record {
    below = λ n o e. cc;
    apart = λ n m o e. cc;
    counted = λ n o e. cc;
    owned = λ n o id e. cc;
    fresh = tt;
  };
  served = λ n o e. cc;
}

pub report-Core :
    (run : Run) (result : Option String) (s : Sync) → Core s → Core (report run result s)
unfolding report
report-Core run none s v = v
report-Core run (some hash) s v = elim (Bool-cases (str_eq hash (s.store run.object).last_hash)) [
  | inl same ↦ rw same v
  | inr new ↦ rw new (record {
    below = v.below;
    apart = v.apart;
    counted = λ n o e. ground (arith, v.counted n o e);
    owned = λ n o id e h. v.owned n o id e (ground arith);
    fresh = v.fresh;
  })
]

pub report-Served :
    (run : Run) (result : Option String) (s : Sync) (n : String)
    → Served s n
    → Served (report run result s) n
unfolding report
report-Served run none s n v = v
report-Served run (some hash) s n v = λ o e. ground (arith, v o)

module _ (n : String) (now : ℕ) (s : Sync) (v : Core s)
    (others : (m : String) → m ≢ n → Served s m) where
  begin_on-Inv : (found : Option ℕ) → s.networks n ≡ found → Inv (begin_on n now s found)
  begin_on-Inv none e = record {
    core = v;
    served = λ m o e'. elim (Bool-cases (str_eq m n)) [
      | inl same ↦ absurd (ground (arith, eq_iff m n))
      | inr differ ↦ others m (ground (arith, eq_iff m n)) o e'
    ];
  }
  begin_on-Inv (some o) e = record {
    core = record {
      below = v.below;
      apart = v.apart;
      counted = λ m p e'. ground (arith, v.counted m p e');
      owned = λ m p id e' h. v.owned m p id e' (ground arith);
      fresh = v.fresh;
    };
    served = λ m p e'. elim (Bool-cases (str_eq n m)) [
      | inl same ↦ rw same refl
      | inr differ ↦ rw differ (others m (ground (arith, eq_iff n m, eq_refl n)) p e')
    ];
  }

pub begin_tick-Inv :
    (n : String) (now : ℕ) (s : Sync)
    → Core s
    → ((m : String) → m ≢ n → Served s m)
    → Inv (begin_tick n now s)
unfolding begin_tick
begin_tick-Inv n now s v others = begin_on-Inv n now s v others (s.networks n) refl

-- `acquire` on a network that is not viewed, up to its tick.
module _ (n ctx : String) (s : Sync) (v : Inv s) (absent : s.networks n ≡ none) where
  abbrev opened : Sync
  opened = record s {
    networks = put n (some s.next_object) s.networks;
    store =
        write s.next_object (record { ref_count = 1; ctx = ctx; timer = none; last_hash = "" })
          s.store;
    next_object = suc s.next_object;
  }

  opened_cases :
      (m : String) (o : ℕ)
      → opened.networks m ≡ some o
      → ((m ≡ n) × (o ≡ s.next_object)) ⊎ ((m ≢ n) × (s.networks m ≡ some o) × (o < s.next_object))
  opened_cases m o e = elim (Bool-cases (str_eq m n)) [
    | inl same ↦ inl (ground (arith, eq_iff m n), ground arith)
    | inr differ ↦ inr (ground (arith, eq_iff m n), ground arith, ground (arith, v.core.below m o))
  ]

  opened-Core : Core opened
  opened-Core = record {
    below = λ m o e. elim (opened_cases m o e) [
      | inl (_, q) ↦ omega arith
      | inr (_, _, q) ↦ omega arith
    ];
    apart = λ m k o e f. elim (opened_cases m o e) [
      | inl (p, q) ↦ elim (opened_cases k o f) [
        | inl (p', _) ↦ cc
        | inr (_, _, q') ↦ absurd (omega arith)
      ]
      | inr (_, e', q) ↦ elim (opened_cases k o f) [
        | inl (_, q') ↦ absurd (omega arith)
        | inr (_, f', _) ↦ v.core.apart m k o e' f'
      ]
    ];
    counted = λ m o e. elim (opened_cases m o e) [
      | inl (_, q) ↦ ground arith
      | inr (_, e', q) ↦ ground (arith, v.core.counted m o e')
    ];
    owned = λ m o id e h. elim (opened_cases m o e) [
      | inl (_, q) ↦ absurd (ground arith)
      | inr (_, e', q) ↦ v.core.owned m o id e' (ground arith)
    ];
    fresh = v.core.fresh;
  }

  opened-Served : (m : String) → m ≢ n → Served opened m
  opened-Served m differ o e = elim (opened_cases m o e) [
    | inl (p, _) ↦ absurd (differ p)
    | inr (_, e', _) ↦ v.served m o e'
  ]

acquire_on-Inv :
    (n ctx : String) (now : ℕ) (s : Sync) (found : Option ℕ)
    → Inv s
    → s.networks n ≡ found
    → Inv (acquire_on n ctx now s found)
unfolding acquire_on
acquire_on-Inv n ctx now s none v e =
    begin_tick-Inv n now (opened n ctx s v e) (opened-Core n ctx s v e) (opened-Served n ctx s v e)
acquire_on-Inv n ctx now s (some o) v e = record {
  core = record {
    below = v.core.below;
    apart = v.core.apart;
    counted = λ m p e'. ground (arith, v.core.counted m p e');
    owned = λ m p id e' h. v.core.owned m p id e' (ground arith);
    fresh = v.core.fresh;
  };
  served = v.served;
}

pub acquire-Inv : (n ctx : String) (now : ℕ) (s : Sync) → Inv s → Inv (acquire n ctx now s)
unfolding acquire
acquire-Inv n ctx now s v = acquire_on-Inv n ctx now s (s.networks n) v refl
