-- ===== src/TwoFactor/Ledger.antt =====
-- How often a recovery code turns the second factor off.
use docker_zerotier_planet.Common.{
  ◌+◌, String, ◌≡◌, sym, ap, inl, inr, Bool, true, false, ◌&&◌, none, some, List, [], ◌∷◌, map,
  arith, str_eq, eq_iff, ◌==◌, if◌then◌else◌, Bool-cases, find, count, ok, then_ok, ok_inj, ◌≤◌,
}
use docker_zerotier_planet.TwoFactor.{
  User, Services, consume_code, has_email, update_unique, fits, splice_code, unauthorized,
}
use docker_zerotier_planet.TwoFactor.Run.{
  State, Event, turned_on, recovered, Step, setup_checked, set_up, enable_checked, enabled,
  disable_checked, disabled, recovery_checked, recovery_locked, recovery_consumed, Runs, idle, next,
}

abbrev pub is_on : String → User → Bool
is_on id u = str_eq u.id id && u.enabled

abbrev pub is_turned_on : String → Event → Bool
is_turned_on id (turned_on i) = str_eq i id
is_turned_on id _ = false

abbrev pub is_recovered : String → Event → Bool
is_recovered id (recovered i) = str_eq i id
is_recovered id _ = false

-- The update of a row by a unique column changes that row in every count.
count-update_unique :
    (q p : User → Bool) (f : User → User) (users : List User) (u : User)
    → find p users ≡ some u
    → count q (update_unique p f users) + (if q u then 1 else 0)
      ≡ count q users + (if q (f u) then 1 else 0)
count-update_unique q p f [] u h = cc h
count-update_unique q p f (v ∷ users) u h = elim (Bool-cases (p v)) [
  | inl hit ↦
      (let found : some v ≡ some u = rw hit at h in
        let same : v ≡ u = cc found in rw (hit, same) (omega arith))
  | inr miss ↦ rw miss (omega (arith, count-update_unique q p f users u (rw miss at h)))
]

-- The compare-and-set turns the second factor of its user off, of one row.
count-consumed :
    (services : Services) (id user_id code : String) (hashed : List String) (users : List User)
    → count (is_on id) (
          map
            (λ u.
              if fits services user_id hashed u
              then record u {
                enabled = false;
                secret = none;
                recovery_codes = splice_code services code hashed;
              }
              else u)
            users)
        + (if str_eq user_id id then count (fits services user_id hashed) users else 0)
      ≡ count (is_on id) users
count-consumed services id user_id code hashed [] = ground arith
count-consumed services id user_id code hashed (u ∷ users) = ground (
  arith,
  eq_iff u.id user_id,
  eq_iff u.id id,
  eq_iff user_id id,
  count-consumed services id user_id code hashed users,
)

module _ (services : Services) where
  consumed_ledger :
      (id user_id code : String) (hashed : List String) (users : List User) {users' : List User}
      → consume_code services user_id code hashed users ≡ ok users'
      → count (is_on id) users' + (if str_eq user_id id then 1 else 0) ≡ count (is_on id) users
  unfolding consume_code
  consumed_ledger id user_id code hashed users h =
      let (one, h0) = then_ok (count (fits services user_id hashed) users == 1) unauthorized h in
      ground (
        arith,
        one,
        ap (count (is_on id)) (sym (ok_inj h0)),
        count-consumed services id user_id code hashed users,
      )

  step_ledger :
      {s t : State} {e : Event} (id : String)
      → Step services s e t
      → count (is_on id) t.users + (if is_recovered id e then 1 else 0)
        ≤ count (is_on id) s.users + (if is_turned_on id e then 1 else 0)
  step_ledger id (setup_checked email password u h) = omega arith
  step_ledger {s} id (set_up email secret u approved found) = ground (
    arith,
    count-update_unique (is_on id) (has_email email)
        (λ v. record v { enabled = false; secret = some (services.encrypt secret) }) s.users u
        found,
  )
  step_ledger id (enable_checked email totp_code u h) = omega arith
  step_ledger {s} id (enabled email hashed u approved found) = ground (
    arith,
    count-update_unique (is_on id) (has_email email)
        (λ v. record v { enabled = true; recovery_codes = hashed }) s.users u found,
  )
  step_ledger id (disable_checked email totp_code u h) = omega arith
  step_ledger {s} id (disabled email u approved found) = ground (
    arith,
    count-update_unique (is_on id) (has_email email)
        (λ v. record v { enabled = false; secret = none }) s.users u found,
  )
  step_ledger id (recovery_checked token email password code u h) = omega arith
  step_ledger id (recovery_locked user_id code hashed known h) = omega arith
  step_ledger {s} id (recovery_consumed user_id code hashed known h) =
      ground (arith, consumed_ledger id user_id code hashed s.users h)

  -- In every run, the rows of a user whose second factor is on at the end, with the times that a recovery
  -- code turned it off, are at most the ones at the start with the times that it was turned on. So each
  -- time that it is turned on is good for one recovery at most.
  pub two_factor_ledger :
      {s : State} {events : List Event} {t : State} (id : String)
      → Runs services s events t
      → count (is_on id) t.users + count (is_recovered id) events
        ≤ count (is_on id) s.users + count (is_turned_on id) events
  two_factor_ledger id idle = omega arith
  two_factor_ledger id (next r h) = omega (arith, two_factor_ledger id r, step_ledger id h)
