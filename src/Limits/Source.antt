-- ===== src/Limits/Source.antt =====
-- `getClientRateLimitIdentifier` of services/ztnet/src/utils/rateLimit.ts behind a trusted proxy.
use docker_zerotier_planet.Common.{
  split_on_last, ℕ, ◌≡◌, refl, ap, ◌∙◌, Bool, true, not, Option, some, List, [], ◌∷◌, ◌++◌, ◌==◌,
  split_on_last, trim, every, split_on,
}
use docker_zerotier_planet.Limits.{
  Header, first_header, normalize_address, last_address, client_rate_limit_identifier,
}

module _ (is_ip : List ℕ → Bool) where
  last_address-append :
      (parts : List (List ℕ)) (last address : List ℕ)
      → normalize_address is_ip (trim last) ≡ some address
      → last_address is_ip (parts ++ (last ∷ [])) ≡ some address
  unfolding last_address
  last_address-append [] last address h = rw h refl
  last_address-append (part ∷ parts) last address h =
      rw (last_address-append parts last address h) refl

  split-last_address :
      (prefix last address : List ℕ)
      → every (λ c. not (c == b',')) last ≡ true
      → normalize_address is_ip (trim last) ≡ some address
      → last_address is_ip (split_on b',' (prefix ++ b',' ∷ last)) ≡ some address
  split-last_address prefix last address free h =
      let (parts, e) = split_on_last b',' prefix last free in
      ap (last_address is_ip) e ∙ last_address-append parts last address h

  -- Behind a trusted proxy the identifier is the last address of the forwarded chain, where that is an
  -- address, whatever stands before it and whatever the socket's peer is.
  pub forged_prefix_ignored :
      (header : Header) (prefix last address : List ℕ) (remote : Option (List ℕ))
      → first_header header ≡ some (prefix ++ b',' ∷ last)
      → every (λ c. not (c == b',')) last ≡ true
      → normalize_address is_ip (trim last) ≡ some address
      → client_rate_limit_identifier is_ip true header remote ≡ address
  unfolding client_rate_limit_identifier
  forged_prefix_ignored header prefix last address remote given free h =
      rw (given, split-last_address prefix last address free h) refl
