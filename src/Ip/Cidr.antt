-- ===== src/Ip/Cidr.antt =====
-- Which range a new network gets.
use docker_zerotier_planet.Common.{
  ℕ, ◌≤◌, String, ◌≡◌, refl, sym, ap, subst, ◌⊎◌, inl, inr, false, not, some, List, [], ◌∷◌, arith,
  str_eq, eq_iff, ltb, Bool-cases, In, here, there, In-cases, any, filter,
}
use docker_zerotier_planet.Ip.{frequency, least_used, cidr_options, pick_cidr, generate_cidr}

-- One of some options that is used no more often than any of them.
pub record IsLeast (used options : List String) (cidr : String) : Type 0 where
  pub is_option : In cidr options
  pub least : (c : String) → In c options → frequency cidr used ≤ frequency c used

-- What the loop over the options keeps, with the best one so far.
record IsBest (used options : List String) (so_far cidr : String) : Type 0 where
  is_option : In cidr (so_far ∷ options)
  best : frequency cidr used ≤ frequency so_far used
  least : (c : String) → In c options → frequency cidr used ≤ frequency c used

frequency-In : (used : List String) (a b : String) → a ≡ b → frequency a used ≡ frequency b used
frequency-In used a b e = ap (λ (c : String). frequency c used) e

least_used-IsBest :
    (used options : List String) (cidr : String)
    → IsBest used options cidr (least_used used cidr (some (frequency cidr used)) options)
least_used-IsBest used [] cidr = record {
  is_option = here refl;
  best = omega arith;
  least = λ c i. elim i [ ];
}
least_used-IsBest used (c ∷ options) cidr =
    elim (Bool-cases (ltb (frequency c used) (frequency cidr used))) [
      | inl smaller ↦
          (let w = least_used-IsBest used options c in
            rw smaller (record {
              is_option = there w.is_option;
              best = ground (arith, w.best);
              least = λ d i. elim (In-cases i) [
                | inl e ↦ omega (arith, w.best, frequency-In used d c e)
                | inr j ↦ w.least d j
              ];
            }))
      | inr other ↦
          (let w = least_used-IsBest used options cidr in
            rw other (record {
              is_option = elim (In-cases w.is_option) [ inl e ↦ here e | inr j ↦ there (there j) ];
              best = w.best;
              least = λ d i. elim (In-cases i) [
                | inl e ↦ ground (arith, w.best, frequency-In used d c e)
                | inr j ↦ w.least d j
              ];
            }))
    ]

unused_frequency :
    (c : String) (used : List String) → any (str_eq c) used ≡ false → frequency c used ≡ 0
unused_frequency c [] h = refl
unused_frequency c (u ∷ used) h = ground (arith, eq_iff c u, eq_iff u c, unused_frequency c used)

available :
    (used options : List String) {c : String} {rest : List String}
    → filter (λ d. not (any (str_eq d) used)) options ≡ c ∷ rest
    → In c options × (any (str_eq c) used ≡ false)
available used [] h = cc h
available used (d ∷ options) {c} h = elim (Bool-cases (any (str_eq d) used)) [
  | inl taken ↦ (let (i, free) = available used options (rw taken at h) in (there i, free))
  | inr free ↦
      (let same = rw free at h in
        let eq : d ≡ c = cc same in
        (here (sym eq), subst (λ e. any (str_eq e) used ≡ false) eq free))
]

List-cases :
    (xs : List String) → (xs ≡ []) ⊎ ((c : String) × (rest : List String) × (xs ≡ c ∷ rest))
List-cases [] = inl refl
List-cases (c ∷ rest) = inr (c, rest, refl)

pick_cidr-IsLeast :
    (used rest : List String) (first : String)
    → IsLeast used (first ∷ rest) (pick_cidr first (first ∷ rest) used)
unfolding pick_cidr
pick_cidr-IsLeast used rest first =
    elim (List-cases (filter (λ d. not (any (str_eq d) used)) (first ∷ rest))) [
      | inl nothing ↦
          (let w = least_used-IsBest used rest first in
            rw (nothing, pick_cidr)
              (record {
                is_option = w.is_option;
                least = λ c i. elim (In-cases i) [
                  | inl e ↦ ground (arith, w.best, frequency-In used c first e)
                  | inr j ↦ w.least c j
                ];
              }))
      | inr (c, others, found) ↦
          (let (i, free) = available used (first ∷ rest) found in
            rw (found, pick_cidr)
              (record {
                is_option = i;
                least = λ d j. omega (arith, unused_frequency c used free);
              }))
    ]

-- Unless a random range is asked for, as it is for a network of ZeroTier Central, a new network gets one of
-- the options that is used no more often than any other.
pub generate_cidr-IsLeast :
    (used : List String) (chance : ℕ) → IsLeast used cidr_options (generate_cidr used false chance)
unfolding generate_cidr
generate_cidr-IsLeast used chance = pick_cidr-IsLeast used _ _
