-- ===== src/Routes/Lists.antt =====
-- Lists of rows with an id and a key each: what is first of its key, and what a deletion by id leaves.
use docker_zerotier_planet.Common.{
  ◌≤◌, String, ◌≡◌, refl, sym, ap, ◌∙◌, ◌≢◌, inl, inr, Bool, true, false, not, List, [], ◌∷◌, arith,
  str_eq, eq_iff, if◌then◌else◌, Bool-cases, count, All, filter, eq_refl, any,
}
use docker_zerotier_planet.Routes.{Row, Route, row_key, route_key, mem, firsts, duplicates, orphans}

-- No id stands twice.
abbrev pub HasDistinctIds : List Row → Type 0
HasDistinctIds rows = (i : String) → count (λ r. str_eq r.id i) rows ≤ 1

abbrev pub HasIds : List Row → Type 0
HasIds rows = All (λ r. r.id ≢ "") rows

tail_distinct : (r : Row) (rows : List Row) → HasDistinctIds (r ∷ rows) → HasDistinctIds rows
tail_distinct r rows h i = omega (arith, h i)

head_absent :
    (r : Row) (rows : List Row) → HasDistinctIds (r ∷ rows) → count (λ s. str_eq s.id r.id) rows ≡ 0
head_absent r rows h = ground (arith, h r.id, eq_refl r.id)

-- An id that no row has does not show in a filter.
filter_absent :
    (i : String) (ids : List String) (rows : List Row)
    → count (λ s. str_eq s.id i) rows ≡ 0
    → filter (λ s. not (mem s.id (i ∷ ids))) rows ≡ filter (λ s. not (mem s.id ids)) rows
filter_absent i ids [] h = refl
filter_absent i ids (r ∷ rows) h =
    ground (arith, eq_iff i r.id, eq_iff r.id i, filter_absent i ids rows)

duplicates_absent :
    (i : String) (seen : List String) (rows : List Row)
    → count (λ s. str_eq s.id i) rows ≡ 0
    → mem i (duplicates seen rows) ≡ false
unfolding duplicates
duplicates_absent i seen [] h = refl
duplicates_absent i seen (r ∷ rows) h =
    ground (arith, duplicates_absent i seen rows, duplicates_absent i (row_key r ∷ seen) rows)

dup_old :
    (seen : List String) (r : Row) (rows : List Row)
    → mem (row_key r) seen ≡ true
    → r.id ≢ ""
    → duplicates seen (r ∷ rows) ≡ r.id ∷ duplicates seen rows
unfolding duplicates
dup_old seen r rows old given = ground (arith, eq_iff r.id "")

dup_new :
    (seen : List String) (r : Row) (rows : List Row)
    → mem (row_key r) seen ≡ false
    → duplicates seen (r ∷ rows) ≡ duplicates (row_key r ∷ seen) rows
unfolding duplicates
dup_new seen r rows new = ground arith

module _ {A : Type 0} (key : A → String) where
  pub firsts_old :
      (seen : List String) (r : A) (rows : List A)
      → mem (key r) seen ≡ true
      → firsts key seen (r ∷ rows) ≡ firsts key seen rows
  unfolding firsts
  firsts_old seen r rows old = ground arith

  pub firsts_new :
      (seen : List String) (r : A) (rows : List A)
      → mem (key r) seen ≡ false
      → firsts key seen (r ∷ rows) ≡ r ∷ firsts key (key r ∷ seen) rows
  unfolding firsts
  firsts_new seen r rows new = ground arith

  -- A key that was not seen is counted once if any element has it.
  pub count-firsts :
      (k : String) (seen : List String) (rows : List A)
      → count (λ r. str_eq (key r) k) (firsts key seen rows)
        ≡ (if mem k seen then 0 else if any (λ r. str_eq (key r) k) rows then 1 else 0)
  count-firsts k seen [] = unfold firsts in ground arith
  count-firsts k seen (r ∷ rows) = elim (Bool-cases (mem (key r) seen)) [
    | inl old ↦
        rw (firsts_old seen r rows old) (ground (arith, eq_iff (key r) k, count-firsts k seen rows))
    | inr new ↦
        rw (firsts_new seen r rows new)
          (ground (arith, eq_iff (key r) k, count-firsts k (key r ∷ seen) rows))
  ]

  -- A filter on the key keeps all of a key or nothing.
  pub count-keyed :
      (k : String) (m : String → Bool) (rows : List A)
      → count (λ r. str_eq (key r) k) (filter (λ r. m (key r)) rows)
        ≡ (if m k then count (λ r. str_eq (key r) k) rows else 0)
  count-keyed k m [] = ground arith
  count-keyed k m (r ∷ rows) = elim (Bool-cases (str_eq (key r) k)) [
    | inl same ↦ ground (arith, count-keyed k m rows, ap m ((eq_iff (key r) k).0 same))
    | inr differ ↦ ground (arith, count-keyed k m rows)
  ]

abbrev pub without : List String → List Row → List Row
without ids rows = filter (λ s. not (mem s.id ids)) rows

drop_head :
    (ids rest : List String) (r : Row) (rows : List Row)
    → ids ≡ r.id ∷ rest
    → count (λ s. str_eq s.id r.id) rows ≡ 0
    → without ids (r ∷ rows) ≡ without rest rows
drop_head ids rest r rows e h =
    ap (λ l. without l (r ∷ rows)) e ∙ rw (eq_refl r.id) (filter_absent r.id rest rows h)

keep_head :
    (ids : List String) (r : Row) (rows : List Row)
    → mem r.id ids ≡ false
    → without ids (r ∷ rows) ≡ r ∷ without ids rows
keep_head ids r rows e = rw e refl

-- Deleting the duplicates leaves the first of each key.
pub filter-duplicates :
    (seen : List String) (rows : List Row)
    → HasDistinctIds rows
    → HasIds rows
    → filter (λ s. not (mem s.id (duplicates seen rows))) rows ≡ firsts row_key seen rows
filter-duplicates seen [] d n = unfold firsts in refl
filter-duplicates seen (r ∷ rows) d (given, n) = elim (Bool-cases (mem (row_key r) seen)) [
  | inl old ↦
      drop_head _ _ r rows (dup_old seen r rows old given) (head_absent r rows d)
      ∙ filter-duplicates seen rows (tail_distinct r rows d) n
      ∙ sym (firsts_old row_key seen r rows old)
  | inr new ↦
      ap (λ l. without l (r ∷ rows)) (dup_new seen r rows new)
      ∙ keep_head _ r rows (duplicates_absent r.id _ rows (head_absent r rows d))
      ∙ ap (λ (l : List Row). r ∷ l)
          (filter-duplicates (row_key r ∷ seen) rows (tail_distinct r rows d) n)
      ∙ sym (firsts_new row_key seen r rows new)
]

orphans_absent :
    (i : String) (new : List Route) (seen : List String) (rows : List Row)
    → count (λ s. str_eq s.id i) rows ≡ 0
    → mem i (orphans new seen rows) ≡ false
unfolding orphans
orphans_absent i new seen [] h = refl
orphans_absent i new seen (r ∷ rows) h =
    ground (arith, orphans_absent i new seen rows, orphans_absent i new (r.id ∷ seen) rows)

-- The controller has the key.
abbrev pub has_key : List Route → String → Bool
has_key new k = any (λ z. str_eq (route_key z) k) new

abbrev pub Unseen : List String → List Row → Type 0
Unseen seen rows = All (λ r. mem r.id seen ≡ false) rows

Unseen-more :
    (i : String) (seen : List String) (rows : List Row)
    → count (λ s. str_eq s.id i) rows ≡ 0
    → Unseen seen rows
    → Unseen (i ∷ seen) rows
Unseen-more i seen [] h u = tt
Unseen-more i seen (r ∷ rows) h (p, u) =
    (ground (arith, eq_iff i r.id, eq_iff r.id i), Unseen-more i seen rows (ground arith) u)

orphans_gone :
    (new : List Route) (seen : List String) (r : Row) (rows : List Row)
    → has_key new (row_key r) ≡ false
    → mem r.id seen ≡ false
    → orphans new seen (r ∷ rows) ≡ r.id ∷ orphans new (r.id ∷ seen) rows
unfolding orphans
orphans_gone new seen r rows gone fresh = ground arith

orphans_kept :
    (new : List Route) (seen : List String) (r : Row) (rows : List Row)
    → has_key new (row_key r) ≡ true
    → orphans new seen (r ∷ rows) ≡ orphans new seen rows
unfolding orphans
orphans_kept new seen r rows kept = ground arith

-- Deleting the orphans leaves the rows whose key the controller has.
pub filter-orphans :
    (new : List Route) (seen : List String) (rows : List Row)
    → HasDistinctIds rows
    → Unseen seen rows
    → filter (λ s. not (mem s.id (orphans new seen rows))) rows
      ≡ filter (λ r. has_key new (row_key r)) rows
filter-orphans new seen [] d u = refl
filter-orphans new seen (r ∷ rows) d (p, u) = elim (Bool-cases (has_key new (row_key r))) [
  | inl known ↦ rw known (
      ap (λ l. without l (r ∷ rows)) (orphans_kept new seen r rows known)
      ∙ keep_head _ r rows (orphans_absent r.id new seen rows (head_absent r rows d))
      ∙ ap (λ (l : List Row). r ∷ l) (filter-orphans new seen rows (tail_distinct r rows d) u))
  | inr gone ↦ rw gone (
      drop_head _ _ r rows (orphans_gone new seen r rows gone p) (head_absent r rows d)
      ∙ filter-orphans new (r.id ∷ seen) rows (tail_distinct r rows d)
          (Unseen-more r.id seen rows (head_absent r rows d) u))
]
