-- ===== src/Common/Lists.antt =====
-- List operations of JavaScript arrays (`find`, `filter`, `some`, `every`) and predicates on lists.
use Prim.Native.Nat.{ℕ, suc, ◌+◌, ◌≤◌}
use mathlib.Core.Path.{◌≡◌, refl, sym, subst}
use mathlib.Core.Bool.{Bool, true, false, not, ◌&&◌, ◌||◌}
use mathlib.Core.Option
use mathlib.Core.Option.{Option, none, some}
use mathlib.Core.List.{List, [], ◌∷◌, ◌++◌, map}
use mathlib.Core.Logic.{◌⊎◌, inl, inr}
use native.Mathlib.Omega.{arith}
use docker_zerotier_planet.Common.Tests.{if◌then◌else◌, ◌==◌, Bool-cases}

module _ {ℓ} {A : Type ℓ} where
  abbrev pub length : List A → ℕ
  length [] = 0
  length (x ∷ xs) = suc (length xs)

  abbrev pub find : (A → Bool) → List A → Option A
  find p [] = none
  find p (x ∷ xs) = if p x then some x else find p xs

  abbrev pub filter : (A → Bool) → List A → List A
  filter p [] = []
  filter p (x ∷ xs) = if p x then x ∷ filter p xs else filter p xs

  abbrev pub any : (A → Bool) → List A → Bool
  any p [] = false
  any p (x ∷ xs) = p x || any p xs

  abbrev pub every : (A → Bool) → List A → Bool
  every p [] = true
  every p (x ∷ xs) = p x && every p xs

module _ {ℓ} {A : Type ℓ} where
  abbrev pub count : (A → Bool) → List A → ℕ
  count p [] = 0
  count p (x ∷ xs) = (if p x then 1 else 0) + count p xs

  pub count-append : (p : A → Bool) (xs ys : List A) → count p (xs ++ ys) ≡ count p xs + count p ys
  count-append p [] ys = omega arith
  count-append p (x ∷ xs) ys = omega (arith, count-append p xs ys)

  pub count-filter :
      (p q : A → Bool) (xs : List A) → count p (filter q xs) ≡ count (λ x. p x && q x) xs
  count-filter p q [] = refl
  count-filter p q (x ∷ xs) = ground (arith, count-filter p q xs)

  pub count-filter_le : (p q : A → Bool) (xs : List A) → count p (filter q xs) ≤ count p xs
  count-filter_le p q [] = omega arith
  count-filter_le p q (x ∷ xs) = ground (arith, count-filter_le p q xs)

  pub count-split :
      (p q : A → Bool) (xs : List A)
      → count p (filter q xs ++ filter (λ x. not (q x)) xs) ≡ count p xs
  count-split p q [] = refl
  count-split p q (x ∷ xs) = ground (
    arith,
    count-split p q xs,
    count-append p (filter q xs) (filter (λ y. not (q y)) xs),
    count-append p (filter q xs) (x ∷ filter (λ y. not (q y)) xs),
  )

  pub filter-append :
      (p : A → Bool) (xs ys : List A) → filter p (xs ++ ys) ≡ filter p xs ++ filter p ys
  filter-append p [] ys = refl
  filter-append p (x ∷ xs) ys = ground (arith, filter-append p xs ys)

  pub filter-filter :
      (p q : A → Bool) (xs : List A) → filter p (filter q xs) ≡ filter (λ x. q x && p x) xs
  filter-filter p q [] = refl
  filter-filter p q (x ∷ xs) = ground (arith, filter-filter p q xs)

  -- A list has an element that passes exactly where one is counted.
  pub any-count : (p : A → Bool) (xs : List A) → any p xs ≡ not (count p xs == 0)
  any-count p [] = refl
  any-count p (x ∷ xs) = ground (arith, any-count p xs)

module _ {ℓ κ} {A : Type ℓ} (P : A → Type κ) where
  -- Every element satisfies `P`.
  abbrev pub All : List A → Type κ
  All [] = Unit
  All (x ∷ xs) = P x × All xs

-- `x` stands in the list.
module _ {ℓ} {A : Type ℓ} where
  pub data In (a : A) : List A → Type ℓ where
    here : {x : A} {xs : List A} → a ≡ x → In a (x ∷ xs)
    there : {x : A} {xs : List A} → In a xs → In a (x ∷ xs)

module _ {ℓ} {A : Type ℓ} where
  -- A change that keeps the test shows in what is found.
  pub find-map :
      (p : A → Bool) (g : A → A)
      → ((x : A) → p (g x) ≡ p x)
      → (xs : List A) → find p (map g xs) ≡ Option.map g (find p xs)
  find-map p g keeps [] = refl
  find-map p g keeps (x ∷ xs) = ground (arith, keeps x, find-map p g keeps xs)

  pub find-map-some :
      (p : A → Bool) (g : A → A)
      → ((x : A) → p (g x) ≡ p x)
      → (xs : List A) (x : A) → find p xs ≡ some x
      → find p (map g xs) ≡ some (g x)
  find-map-some p g keeps xs x h = rw (find-map p g keeps xs, h) refl

  -- What is found passes the test.
  pub find_holds : (p : A → Bool) (xs : List A) (x : A) → find p xs ≡ some x → p x ≡ true
  find_holds p [] x h = cc
  find_holds p (y ∷ xs) x h = ground (arith, find_holds p xs x)

  -- An update of the elements that pass one test keeps another test, if it does on each element.
  pub update_keeps :
      (p q : A → Bool) (f : A → A)
      → ((x : A) → p (f x) ≡ p x)
      → (x : A) → p (if q x then f x else x) ≡ p x
  update_keeps p q f keeps x = ground (arith, keeps x)

pub All-In {ℓ κ} : {A : Type ℓ} (P : A → Type κ) {a : A} {xs : List A} → All P xs → In a xs → P a
All-In P {xs = []} v i = elim i [ ]
All-In P {xs = x ∷ xs} (first, rest) (here e) = subst P (sym e) first
All-In P {xs = x ∷ xs} (first, rest) (there i) = All-In P rest i

pub All-find {ℓ κ} :
    {A : Type ℓ} (P : A → Type κ) (q : A → Bool) (xs : List A) {a : A}
    → All P xs
    → find q xs ≡ some a
    → P a
All-find P q [] v h = cc h
All-find P q (x ∷ xs) (first, rest) h = elim (Bool-cases (q x)) [
  | inl hit ↦
      (let found : some x ≡ some _ = rw hit at h in
        let same : x ≡ _ = cc found in subst P same first)
  | inr miss ↦ All-find P q xs rest (rw miss at h)
]

pub All-append {ℓ κ} :
    {A : Type ℓ} (P : A → Type κ) (xs : List A) {a : A} → All P xs → P a → All P (xs ++ a ∷ [])
All-append P [] v p = (p, tt)
All-append P (x ∷ xs) (first, rest) p = (first, All-append P xs rest p)

pub count-map_le {ℓ} :
    {A : Type ℓ} (q : A → Bool) (h : A → A)
    → ((a : A) → q (h a) ≡ true → q a ≡ true)
    → (xs : List A) → count q (map h xs) ≤ count q xs
count-map_le q h keeps [] = omega arith
count-map_le q h keeps (x ∷ xs) = ground (arith, keeps x, count-map_le q h keeps xs)

pub count-map_eq {ℓ} :
    {A : Type ℓ} (q : A → Bool) (h : A → A)
    → ((a : A) → q (h a) ≡ q a)
    → (xs : List A) → count q (map h xs) ≡ count q xs
count-map_eq q h keeps [] = refl
count-map_eq q h keeps (x ∷ xs) = ground (arith, keeps x, count-map_eq q h keeps xs)

pub count_mono {ℓ} :
    {A : Type ℓ} (p q : A → Bool)
    → ((a : A) → p a ≡ true → q a ≡ true)
    → (xs : List A) → count p xs ≤ count q xs
count_mono p q h [] = omega arith
count_mono p q h (x ∷ xs) = ground (arith, h x, count_mono p q h xs)

pub count-filtered_out {ℓ} :
    {A : Type ℓ} (p : A → Bool) (xs : List A) → count p (filter (λ x. not (p x)) xs) ≡ 0
count-filtered_out p [] = refl
count-filtered_out p (x ∷ xs) = ground (arith, count-filtered_out p xs)

pub count-filter_rest {ℓ} :
    {A : Type ℓ} (p q : A → Bool)
    → ((x : A) → q x ≡ true → p x ≡ true)
    → (xs : List A) → count p (filter (λ x. not (q x)) xs) + count q xs ≡ count p xs
count-filter_rest p q h [] = refl
count-filter_rest p q h (x ∷ xs) = ground (arith, h x, count-filter_rest p q h xs)

pub In-cases {ℓ} : {A : Type ℓ} {a x : A} {xs : List A} → In a (x ∷ xs) → (a ≡ x) ⊎ In a xs
In-cases (here e) = inl e
In-cases (there i) = inr i

pub All-map {ℓ κ μ} :
    {A : Type ℓ} (P : A → Type κ) (Q : A → Type μ) (xs : List A)
    → ((x : A) → P x → Q x)
    → All P xs
    → All Q xs
All-map P Q [] f v = tt
All-map P Q (x ∷ xs) f (first, rest) = (f x first, All-map P Q xs f rest)

-- What is found stands in the list, and what stands in it is found, or an earlier one that fits.
pub find-In {ℓ} : {A : Type ℓ} (p : A → Bool) (xs : List A) (x : A) → find p xs ≡ some x → In x xs
find-In p [] x h = cc h
find-In p (y ∷ xs) x h = elim (Bool-cases (p y)) [
  | inl hit ↦ (let found : some y ≡ some x = rw hit at h in here (cc found))
  | inr miss ↦ there (find-In p xs x (rw miss at h))
]

pub In-find {ℓ} :
    {A : Type ℓ} (p : A → Bool) (xs : List A) {x : A}
    → In x xs
    → p x ≡ true
    → (y : A) × (find p xs ≡ some y)
In-find p [] i h = elim i [ ]
In-find p (y ∷ xs) (here e) h = (y, rw (sym e, h) refl)
In-find p (y ∷ xs) (there i) h = elim (Bool-cases (p y)) [
  | inl hit ↦ (y, rw hit refl)
  | inr miss ↦ (let (z, found) = In-find p xs i h in (z, rw miss found))
]
