-- ===== src/Ip/RoundTrip.antt =====
-- Writing an address and reading it back.
use docker_zerotier_planet.Common.{
  ◌^◌, ◌/◌, ◌%◌, ℕ, zero, suc, ◌<◌, ◌≡◌, refl, ap, ◌∙◌, Bool, true, false, not, ◌&&◌, List, [], ◌∷◌,
  ◌++◌, arith, ◌==◌, split_on, split_on_first, split_on_free, parse_any_int, parse_any_digits,
  parse_hex, leading_hex, parse_digits, leading_digits, Parsed, plus, every,
}
use docker_zerotier_planet.Ip.{ip2long, long2ip, octet_text}

-- A test holds of all numbers below a bound.
below : ℕ → (ℕ → Bool) → Bool
below zero p = true
below (suc n) p = p n && below n p

below_holds : (n : ℕ) (p : ℕ → Bool) (x : ℕ) → below n p ≡ true → x < n → p x ≡ true
unfolding below
below_holds zero p x h lt = absurd (omega arith)
below_holds (suc n) p x h lt = ground (arith, below_holds n p x)

abbrev reads_back : ℕ → Parsed → Bool
reads_back n (plus m) = m == n
reads_back n _ = false

octet_table :
    below 256 (λ n.
      reads_back n (parse_any_int (octet_text n)) && every (λ c. not (c == 46)) (octet_text n))
    ≡ true
unfolding below parse_any_int parse_any_digits parse_hex leading_hex parse_digits leading_digits
octet_table = refl

reads_back_eq : (n : ℕ) (p : Parsed) → reads_back n p ≡ true → p ≡ plus n
reads_back_eq n (plus m) h = (let same : m ≡ n = ground arith in ap plus same)
reads_back_eq n p h = cc h

octet :
    (n : ℕ)
    → n < 256
    → (parse_any_int (octet_text n) ≡ plus n) × (every (λ c. not (c == 46)) (octet_text n) ≡ true)
octet n lt =
    let both = below_holds 256 _ n octet_table lt in
    (reads_back_eq n _ (ground arith), ground arith)

split_quad :
    (a b c d : List ℕ)
    → every (λ x. not (x == 46)) a ≡ true
    → every (λ x. not (x == 46)) b ≡ true
    → every (λ x. not (x == 46)) c ≡ true
    → every (λ x. not (x == 46)) d ≡ true
    → split_on 46 (a ++ (46 ∷ (b ++ (46 ∷ (c ++ (46 ∷ d)))))) ≡ a ∷ b ∷ c ∷ d ∷ []
split_quad a b c d fa fb fc fd =
    split_on_first 46 a _ fa
    ∙ ap (λ (ps : List (List ℕ)). a ∷ ps)
        (split_on_first 46 b _ fb
          ∙ ap (λ (ps : List (List ℕ)). b ∷ ps)
              (split_on_first 46 c _ fc
                ∙ ap (λ (ps : List (List ℕ)). c ∷ ps) (split_on_free 46 d fd)))

-- An address below 2^32 that is written and read back is the same number.
pub ip2long-long2ip : (long : ℕ) → long < 2 ^ 32 → ip2long (long2ip long) ≡ long
unfolding ip2long long2ip
ip2long-long2ip long lt =
    let (a, a_free) = octet (long / 2 ^ 24 % 256) (omega arith) in
    let (b, b_free) = octet (long / 2 ^ 16 % 256) (omega arith) in
    let (c, c_free) = octet (long / 2 ^ 8 % 256) (omega arith) in
    let (d, d_free) = octet (long % 256) (omega arith) in
    rw (split_quad _ _ _ _ a_free b_free c_free d_free, a, b, c, d) (omega arith)
