-- ===== src/Ip/Next.antt =====
-- Which address `getNextIP` gives.
use docker_zerotier_planet.Common.{
  ℕ, zero, suc, ◌+◌, ◌-◌, ◌≤◌, ◌<◌, ◌≡◌, inl, inr, true, false, Option, none, some, List, [], ◌∷◌,
  arith, ◌==◌, Bool-cases, Option-cases,
}
use docker_zerotier_planet.Ip.{ip2long, long2ip, includes, Range, first_free, get_next_ip}

-- Every address from one on, so many, is assigned.
abbrev pub AllTaken : List (List ℕ) → ℕ → ℕ → Type 0
AllTaken assigned from to = (n : ℕ) → from ≤ n → n < to → includes assigned (long2ip n) ≡ true

-- The first address of a range that is not assigned.
pub record IsFirst (assigned : List (List ℕ)) (from to : ℕ) (ip : List ℕ) : Type 0 where
  pub long : ℕ
  pub is_text : ip ≡ long2ip long
  pub above : from ≤ long
  pub below : long < to
  pub is_free : includes assigned ip ≡ false
  pub earlier_taken : AllTaken assigned from long

pub first_free-none :
    (assigned : List (List ℕ)) (long count : ℕ)
    → first_free assigned long count ≡ none
    → AllTaken assigned long (long + count)
unfolding first_free
first_free-none assigned long zero h n lo hi = absurd (omega arith)
first_free-none assigned long (suc count) h n lo hi =
    elim (Bool-cases (includes assigned (long2ip long))) [
      | inl taken ↦ elim (Bool-cases (n == long)) [
        | inl same ↦ (let eq : n ≡ long = ground arith in rw eq taken)
        | inr differ ↦
            first_free-none assigned (suc long) count (rw (taken, first_free) at h) n (ground arith)
              (omega arith)
      ]
      | inr free ↦ (let no : some (long2ip long) ≡ none = rw (free, first_free) at h in cc no)
    ]

pub first_free-some :
    (assigned : List (List ℕ)) (long count : ℕ) {ip : List ℕ}
    → first_free assigned long count ≡ some ip
    → IsFirst assigned long (long + count) ip
unfolding first_free
first_free-some assigned long zero h = cc h
first_free-some assigned long (suc count) {ip} h =
    elim (Bool-cases (includes assigned (long2ip long))) [
      | inl taken ↦
          (let later = first_free-some assigned (suc long) count (rw (taken, first_free) at h) in
            record {
              long = later.long;
              is_text = later.is_text;
              above = omega (arith, later.above);
              below = omega (arith, later.below);
              is_free = later.is_free;
              earlier_taken = λ n lo hi. elim (Bool-cases (n == long)) [
                | inl same ↦ (let eq : n ≡ long = ground arith in rw eq taken)
                | inr differ ↦ later.earlier_taken n (ground arith) hi
              ];
            })
      | inr free ↦
          (let found : some (long2ip long) ≡ some ip = rw (free, first_free) at h in
            let eq : ip ≡ long2ip long = cc found in
            record {
              long = long;
              is_text = eq;
              above = omega arith;
              below = omega arith;
              is_free = rw eq free;
              earlier_taken = λ n lo hi. absurd (omega arith);
            })
    ]

-- What `getNextIP` promises: the first free address of the first range that has one, or none where every
-- address of every range is assigned.
pub data IsNext (assigned : List (List ℕ)) : List Range → Option (List ℕ) → Type 0 where
  exhausted : IsNext assigned [] none
  taken :
      {r : Range} {ranges : List Range} {ip : Option (List ℕ)}
      → AllTaken assigned (ip2long r.ip_range_start) (ip2long r.ip_range_end + 1)
      → IsNext assigned ranges ip
      → IsNext assigned (r ∷ ranges) ip
  free :
      {r : Range} {ranges : List Range} {ip : List ℕ}
      → IsFirst assigned (ip2long r.ip_range_start) (ip2long r.ip_range_end + 1) ip
      → IsNext assigned (r ∷ ranges) (some ip)

-- `getNextIP` gives the first free address of the first range that has one, or none where every address of
-- every range is assigned.
pub get_next_ip-IsNext :
    (ranges : List Range) (assigned : List (List ℕ))
    → IsNext assigned ranges (get_next_ip ranges assigned)
unfolding get_next_ip
get_next_ip-IsNext [] assigned = exhausted
get_next_ip-IsNext (r ∷ ranges) assigned =
    let start = ip2long r.ip_range_start in
    let end = ip2long r.ip_range_end in
    elim (Option-cases (first_free assigned start (end + 1 - start))) [
      | inl none_free ↦
          rw (none_free, get_next_ip)
            (taken
              (λ n lo hi.
                first_free-none assigned start (end + 1 - start) none_free n lo (omega arith))
              (get_next_ip-IsNext ranges assigned))
      | inr (ip, found) ↦
          (let first = first_free-some assigned start (end + 1 - start) found in
            rw (found, get_next_ip)
              (free (record {
                long = first.long;
                is_text = first.is_text;
                above = first.above;
                below = omega (arith, first.below, first.above);
                is_free = first.is_free;
                earlier_taken = first.earlier_taken;
              })))
    ]
