-- ===== src/Outbox/Counts.antt =====
-- How an update of the outbox changes what is counted of an id: its rows, and its chances to be sent.
use docker_zerotier_planet.Common.{
  ℕ, suc, ◌+◌, ◌≤◌, String, ◌≡◌, refl, ap, Bool, true, false, ◌||◌, List, [], ◌∷◌, arith, str_eq,
  count, any, count_mono, count-map_eq, count-map_le,
}
use docker_zerotier_planet.Outbox.{
  Delivery, Outbox, is_pending, update_where, claimable, remove_one,
}

abbrev pub times : String → List String → ℕ
times i ids = count (λ x. str_eq x i) ids

abbrev pub rows_with : String → List Delivery → ℕ
rows_with i rows = count (λ d. str_eq d.id i) rows

-- The chances that a delivery has had and has: handed on, held by a worker, and pending.
abbrev pub chances : String → Outbox → ℕ
chances i s = times i s.dispatched + times i s.held + count (claimable i) s.rows

pub claimable-rows_with :
    (i : String) (rows : List Delivery) → count (claimable i) rows ≤ rows_with i rows
claimable-rows_with i rows =
    count_mono (claimable i) (λ d. str_eq d.id i) (λ d h. ground arith) rows

-- An update keeps the ids, so the ids stay distinct.
pub rows_with-update :
    (p : Delivery → Bool) (f : Delivery → Delivery)
    → ((d : Delivery) → (f d).id ≡ d.id)
    → (now : ℕ) (i : String) (rows : List Delivery)
    → rows_with i (update_where p f now rows) ≡ rows_with i rows
rows_with-update p f keeps now i rows =
    count-map_eq (λ d. str_eq d.id i) _
      (λ d. ground (arith, ap (λ (x : String). str_eq x i) (keeps d))) rows

-- An update that makes no row pending adds no chance.
pub claimable-update :
    (p : Delivery → Bool) (f : Delivery → Delivery)
    → ((d : Delivery) → p d ≡ true → is_pending (f d).status ≡ false)
    → (now : ℕ) (i : String) (rows : List Delivery)
    → count (claimable i) (update_where p f now rows) ≤ count (claimable i) rows
claimable-update p f ends now i rows =
    count-map_le (claimable i) _ (λ d h. ground (arith, ends d)) rows

pub claimed_none :
    (f : Delivery → Delivery)
    → ((d : Delivery) → is_pending (f d).status ≡ false)
    → (now : ℕ) (i : String) (rows : List Delivery)
    → count (claimable i) (update_where (claimable i) f now rows) ≡ 0
claimed_none f ends now i [] = refl
claimed_none f ends now i (d ∷ rows) = ground (arith, ends d, claimed_none f ends now i rows)

pub times-remove_le :
    (i id : String) (ids : List String) → times i (remove_one id ids) ≤ times i ids
times-remove_le i id [] = omega arith
times-remove_le i id (x ∷ xs) = ground (arith, times-remove_le i id xs)

pub times-remove_one :
    (id : String) (ids : List String)
    → 1 ≤ times id ids
    → suc (times id (remove_one id ids)) ≡ times id ids
times-remove_one id [] h = absurd (omega arith)
times-remove_one id (x ∷ xs) h = ground (arith, times-remove_one id xs)

pub absent_id :
    (draft : Delivery) (rows : List Delivery)
    → any (λ d. str_eq d.event_key draft.event_key || str_eq d.id draft.id) rows ≡ false
    → rows_with draft.id rows ≡ 0
absent_id draft [] h = refl
absent_id draft (d ∷ rows) h = ground (arith, absent_id draft rows)

pub or_last : (a b c : Bool) → (a || b || c) ≡ false → c ≡ false
or_last a b c h = ground arith
