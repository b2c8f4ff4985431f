-- ===== src/Token/Tests.antt =====
-- An API key on a small database.
use docker_zerotier_planet.Common.{
  ℕ, ◌+◌, ◌*◌, ◌≤◌, String, ◌≡◌, refl, ◌≢◌, ◌↔◌, false, some, [], ◌∷◌, arith, str_eq, if◌then◌else◌,
  ok, err, ◌>>=◌, parse_any_int, parse_any_digits, parse_hex, leading_hex, codes, parse_digits,
  apart, leading_digits, here,
}
use docker_zerotier_planet.Token.Issue.{
  add_api_token, delete_api_token, expiry_of, issued_key_accepted, deleted_key_refused,
}
use docker_zerotier_planet.Token.{
  text, array, Decoded, payload, failed, Db, decrypt_and_verify_token, personal, organization,
  invalid_authorization_type, token_expired, parse, user_id_of, find_token, not_expired, check_user,
  Payload,
}
use docker_zerotier_planet.Token.Laws.{IsAccepted, verify_iff}

abbrev decode : String → Decoded
decode key =
    if str_eq key "key1"
    then payload (record {
      user_id = text "ann";
      token_id = text "t1";
      api_authorization_type = array (some "PERSONAL" ∷ []);
    })
    else failed

abbrev sample : Db
sample = record {
  tokens = record { id = "t1"; token = "key1"; user_id = "ann"; expires_at = some 50 } ∷ [];
  users = record { id = "ann"; is_admin = false } ∷ [];
}

accepted : decrypt_and_verify_token decode sample 40 "key1" personal false ≡ ok "ann"
unfolding decrypt_and_verify_token parse user_id_of find_token not_expired check_user ◌>>=◌
accepted = refl

wrong_type :
    decrypt_and_verify_token decode sample 40 "key1" organization false
    ≡ err invalid_authorization_type
unfolding decrypt_and_verify_token parse user_id_of find_token not_expired check_user ◌>>=◌
wrong_type = refl

late : decrypt_and_verify_token decode sample 60 "key1" personal false ≡ err token_expired
unfolding decrypt_and_verify_token parse user_id_of find_token not_expired check_user ◌>>=◌
late = refl

verify_iff_example :
    (decrypt_and_verify_token decode sample 40 "key1" personal false ≡ ok "ann")
    ↔ IsAccepted decode sample 40 "key1" personal false "ann"
verify_iff_example = verify_iff decode sample 40 "key1" personal false "ann"

abbrev encrypt : Payload → String
encrypt p = "key1"

abbrev before : Db
before = record sample { tokens = [] }

abbrev add_days : ℕ → ℕ → ℕ
add_days now n = now + n * 10

issued : add_api_token encrypt add_days 40 "ann" (personal ∷ []) (codes "1") "t1" before ≡ ok sample
unfolding add_api_token parse_any_int parse_any_digits parse_hex leading_hex parse_digits
    leading_digits
issued = refl

live : (t : ℕ) → expiry_of add_days 40 (parse_any_int (codes "1")) ≡ some t → 45 ≤ t
unfolding parse_any_int parse_any_digits parse_hex leading_hex parse_digits leading_digits
live t e = (let fifty : 50 ≡ t = cc e in omega (arith, fifty))

issued_key_accepted_example :
    decrypt_and_verify_token decode sample 45 "key1" personal false ≡ ok "ann"
issued_key_accepted_example =
    issued_key_accepted encrypt decode add_days "ann" (personal ∷ []) "t1" refl 40 45 (codes "1")
      before personal (record { id = "ann"; is_admin = false }) issued (apart _ _ refl)
      (apart _ _ refl) (apart _ _ refl) (here refl) refl live

deleted : delete_api_token "t1" "ann" sample ≡ ok before
unfolding delete_api_token
deleted = refl

deleted_key_refused_example :
    decrypt_and_verify_token decode before 45 "key1" personal false ≢ ok "ann"
deleted_key_refused_example =
    deleted_key_refused encrypt decode add_days "ann" (personal ∷ []) "t1" refl 45 sample personal
      false "ann" deleted

sixteen_days : expiry_of add_days 40 (parse_any_int (codes "0x10")) ≡ some (add_days 40 16)
unfolding parse_any_int parse_any_digits parse_hex leading_hex
sixteen_days = refl
