-- ===== src/Common/Chars.antt =====
-- Texts as lists of code points: splitting, trimming, and the shape of a dotted quad.
use Prim.Native.Nat.{ℕ}
use mathlib.Core.Bool.{Bool, true, not, ◌&&◌}
use mathlib.Core.Option.{Option, none, some}
use mathlib.Core.List.{List, [], ◌∷◌, ◌++◌, reverse, reverse_aux, reverse-reverse}
use mathlib.Core.Path.{◌≡◌, refl, ◌∙◌}
use mathlib.Core.Logic.{inl, inr}
use native.Mathlib.Omega.{arith}
use docker_zerotier_planet.Common.Tests.{leb, ◌==◌, if◌then◌else◌, Bool-cases}
use docker_zerotier_planet.Common.Lists.{length, every}
use docker_zerotier_planet.Common.Texts.{is_space, is_digit}

-- `s.split(sep)` for a separator of one character, with the part read so far in reverse.
pub split_from : ℕ → List ℕ → List ℕ → List (List ℕ)
split_from sep part [] = reverse part ∷ []
split_from sep part (c ∷ cs) =
    let closed = reverse part ∷ split_from sep [] cs in
    let longer = split_from sep (c ∷ part) cs in if c == sep then closed else longer

unfoldable pub split_on : ℕ → List ℕ → List (List ℕ)
unfolding split_from
split_on sep cs = split_from sep [] cs

pub trim_start : List ℕ → List ℕ
trim_start [] = []
trim_start (c ∷ cs) = let rest = trim_start cs in if is_space c then rest else c ∷ cs

-- `s.trim()`.
unfoldable pub trim : List ℕ → List ℕ
unfolding trim_start
trim cs = reverse (trim_start (reverse (trim_start cs)))

-- What follows a prefix, compared by `same`.
pub after_prefix : (ℕ → ℕ → Bool) → List ℕ → List ℕ → Option (List ℕ)
after_prefix same [] cs = some cs
after_prefix same (p ∷ ps) [] = none
after_prefix same (p ∷ ps) (c ∷ cs) = if same p c then after_prefix same ps cs else none

-- One to three digits.
abbrev pub is_octet_text : List ℕ → Bool
is_octet_text cs = every is_digit cs && leb 1 (length cs) && leb (length cs) 3

-- `\d{1,3}(\.\d{1,3}){3}`, the whole text.
unfoldable pub is_quad : List ℕ → Bool
unfolding split_on
is_quad cs = length (split_on b'.' cs) == 4 && every is_octet_text (split_on b'.' cs)

abbrev quad_or_none : Option (List ℕ) → Option (List ℕ)
quad_or_none none = none
quad_or_none (some cs) = if is_quad cs then some cs else none

-- The address inside `::ffff:a.b.c.d`.
unfoldable pub mapped_ipv4 : (ℕ → ℕ → Bool) → List ℕ → List ℕ → Option (List ℕ)
unfolding after_prefix is_quad
mapped_ipv4 same prefix cs = quad_or_none (after_prefix same prefix cs)

split_free :
    (sep : ℕ) (part ys : List ℕ)
    → every (λ c. not (c == sep)) ys ≡ true
    → split_from sep part ys ≡ reverse (reverse_aux ys part) ∷ []
unfolding split_from
split_free sep part [] h = refl
split_free sep part (c ∷ cs) h = ground (arith, split_free sep (c ∷ part) cs)

split_from_last :
    (sep : ℕ) (part xs ys : List ℕ)
    → every (λ c. not (c == sep)) ys ≡ true
    → (parts : List (List ℕ)) × (split_from sep part (xs ++ sep ∷ ys) ≡ parts ++ (ys ∷ []))
unfolding split_from
split_from_last sep part [] ys h =
    (reverse part ∷ [], ground (arith, split_free sep [] ys, reverse-reverse ys))
split_from_last sep part (x ∷ xs) ys h =
    let (parts, e) = split_from_last sep [] xs ys h in
    let (parts', e') = split_from_last sep (x ∷ part) xs ys h in
    elim (Bool-cases (x == sep)) [
      | inl same ↦ (reverse part ∷ parts, rw (same, e) refl)
      | inr differ ↦ (parts', rw (differ, e') refl)
    ]

-- Splitting a text at a separator ends with what follows the last one.
pub split_on_last :
    (sep : ℕ) (xs ys : List ℕ)
    → every (λ c. not (c == sep)) ys ≡ true
    → (parts : List (List ℕ)) × (split_on sep (xs ++ sep ∷ ys) ≡ parts ++ (ys ∷ []))
unfolding split_on
split_on_last sep xs ys h = split_from_last sep [] xs ys h

split_from_first :
    (sep : ℕ) (part xs ys : List ℕ)
    → every (λ c. not (c == sep)) xs ≡ true
    → split_from sep part (xs ++ sep ∷ ys) ≡ reverse (reverse_aux xs part) ∷ split_from sep [] ys
unfolding split_from
split_from_first sep part [] ys h = ground arith
split_from_first sep part (c ∷ cs) ys h = ground (arith, split_from_first sep (c ∷ part) cs ys)

-- Splitting a text begins with what stands before the first separator.
pub split_on_first :
    (sep : ℕ) (xs ys : List ℕ)
    → every (λ c. not (c == sep)) xs ≡ true
    → split_on sep (xs ++ sep ∷ ys) ≡ xs ∷ split_on sep ys
unfolding split_on
split_on_first sep xs ys h = split_from_first sep [] xs ys h ∙ rw (reverse-reverse xs) refl

-- A text without a separator is its only part.
pub split_on_free :
    (sep : ℕ) (xs : List ℕ) → every (λ c. not (c == sep)) xs ≡ true → split_on sep xs ≡ xs ∷ []
unfolding split_on
split_on_free sep xs h = split_free sep [] xs h ∙ rw (reverse-reverse xs) refl
