-- ===== src/Members/Batches.antt =====
-- The batches fetch every id once and in order.
use docker_zerotier_planet.Common.{
  ℕ, zero, suc, ◌-◌, ◌≤◌, String, ◌≡◌, refl, ap, ◌∙◌, Option, none, some, List, [], ◌∷◌, ◌++◌,
  arith, length,
}
use docker_zerotier_planet.Members.{
  Detail, answers, take, drop, fetch_batches, fetch_member_details_batched,
}

answers-take-drop :
    (fetch : String → Option Detail) (n : ℕ) (ids : List String)
    → answers fetch (take n ids) ++ answers fetch (drop n ids) ≡ answers fetch ids
answers-take-drop fetch zero ids = refl
answers-take-drop fetch (suc n) [] = refl
answers-take-drop fetch (suc n) (id ∷ ids) =
    elim (fetch id)
      as (λ found.
        (elim found [ none ↦ answers fetch (take n ids) | some d ↦ d ∷ answers fetch (take n ids) ])
          ++ answers fetch (drop n ids)
        ≡ (elim found [ none ↦ answers fetch ids | some d ↦ d ∷ answers fetch ids ])) [
          | none ↦ answers-take-drop fetch n ids
          | some d ↦ ap (λ (ds : List Detail). d ∷ ds) (answers-take-drop fetch n ids)
        ]

length-drop : (n : ℕ) (ids : List String) → length (drop n ids) ≡ length ids - n
length-drop zero ids = omega arith
length-drop (suc n) [] = omega arith
length-drop (suc n) (id ∷ ids) = omega (arith, length-drop n ids)

fuel_enough :
    (fetch : String → Option Detail) (fuel : ℕ) (ids : List String)
    → length ids ≤ fuel
    → fetch_batches fetch fuel ids ≡ answers fetch ids
unfolding fetch_batches
fuel_enough fetch zero [] h = refl
fuel_enough fetch zero (id ∷ ids) h = absurd (omega arith)
fuel_enough fetch (suc fuel) [] h = refl
fuel_enough fetch (suc fuel) (id ∷ ids) h =
    ap (λ (ds : List Detail). answers fetch (take 5 (id ∷ ids)) ++ ds)
      (fuel_enough fetch fuel (drop 5 (id ∷ ids)) (omega (arith, length-drop 5 (id ∷ ids))))
    ∙ answers-take-drop fetch 5 (id ∷ ids)

-- Fetching in batches gives what fetching one id after the other gives, in the same order: each answer
-- once, and nothing for a request that failed. The loop ends within as many batches as there are ids.
pub fetch_member_details_batched-answers :
    (fetch : String → Option Detail) (ids : List String)
    → fetch_member_details_batched fetch ids ≡ answers fetch ids
unfolding fetch_member_details_batched
fetch_member_details_batched-answers fetch ids = fuel_enough fetch (length ids) ids (omega arith)
