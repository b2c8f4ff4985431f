-- ===== src/Password/Once.antt =====
-- How often a link changes a password.
use docker_zerotier_planet.Password.Laws.{update_done, link_done, change_done}
use docker_zerotier_planet.Common.{
  ℕ, ◌+◌, ◌*◌, ◌≤◌, String, ◌≡◌, refl, ap, subst, inl, inr, Bool, false, not, ◌&&◌, List, [], ◌∷◌,
  arith, str_eq, eq_iff, if◌then◌else◌, Bool-cases, count, filter, truthy, count-filter_rest,
  count-filter_le, count-append,
}
use docker_zerotier_planet.Registration
use docker_zerotier_planet.Password.{Db, Services, Verification, apply_update, User, Update}
use docker_zerotier_planet.Password.Reset.{
  is_record, Event, issued, reset, Step, registered, updated, linked, changed, Runs, idle, next,
}

abbrev pub is_link : String → String → Verification → Bool
is_link user_id value r = str_eq r.user_id user_id && str_eq r.value value

abbrev pub is_issue : String → String → Event → Bool
is_issue user_id value (issued u v) = str_eq u user_id && str_eq v value
is_issue user_id value _ = false

abbrev pub is_reset : String → String → Event → Bool
is_reset user_id value (reset u v) = str_eq u user_id && str_eq v value
is_reset user_id value _ = false

-- What a run has done with a link, and the rows of it that are left.
abbrev balance : String → String → List Event → Db → ℕ
balance user_id value events db =
    count (is_reset user_id value) events + count (is_link user_id value) db.verifications

module _ (services : Services) where
  update_verifications :
      (u : User) (input : Update) (key : String) (db : Db)
      → (apply_update services u input key db).verifications ≡ db.verifications
  unfolding apply_update
  update_verifications u input key db = elim (Bool-cases (truthy input.new_password)) [
    | inl given ↦ rw given refl
    | inr kept ↦ rw kept refl
  ]

  -- A reset takes a row of its link, and no row is added.
  reset_balance :
      (user_id value : String) (now : ℕ) (token : String) (u : User) (rows : List Verification)
      → count (is_record services now token u.id) rows ≡ 1
      → (if str_eq u.id user_id && str_eq (services.digest token) value then 1 else 0)
          + count
              (is_link user_id value)
              (filter (λ r. not (is_record services now token u.id r)) rows)
        ≤ count (is_link user_id value) rows
  reset_balance user_id value now token u rows one =
      elim (Bool-cases (str_eq u.id user_id && str_eq (services.digest token) value)) [
        | inl mine ↦ rw mine (
            omega (
              arith,
              one,
              count-filter_rest (is_link user_id value) (is_record services now token u.id)
                  (λ r h. ground (
                    arith,
                    eq_iff r.user_id u.id,
                    eq_iff r.user_id user_id,
                    eq_iff u.id user_id,
                    eq_iff r.value (services.digest token),
                    eq_iff r.value value,
                    eq_iff (services.digest token) value,
                  ))
                  rows,
            ))
        | inr differ ↦ rw differ (
            omega (
              arith,
              count-filter_le (is_link user_id value)
                  (λ r. not (is_record services now token u.id r)) rows,
            ))
      ]

module _ (rs : Registration.Services) (services : Services) where
  step_balance :
      {db db' : Db} {e : Event} (user_id value : String) (events : List Event)
      → Step rs services db e db'
      → balance user_id value (e ∷ events) db'
        ≤ balance user_id value events db + (if is_issue user_id value e then 1 else 0)
  step_balance user_id value events (registered now fresh_id p h) = omega arith
  step_balance {db} user_id value events (updated session_user input key h) =
      let (u, found, checked, done) = update_done services session_user input key db h in
      omega (
        arith,
        ap (λ (d : Db). count (is_link user_id value) d.verifications) done,
        ap (count (is_link user_id value)) (update_verifications services u input key db),
      )
  step_balance {db} user_id value events (linked now uuid email u found h) =
      let (same, rows) = link_done services now uuid email db found h in
      ground (
        arith,
        ap (count (is_link user_id value)) rows,
        count-append (is_link user_id value) db.verifications (
            record {
              user_id = u.id;
              value =
                  services.digest (services.sign (record { id = u.id; email = u.email }) now uuid);
              expires_at = now + 15 * 60 * 1000;
            }
            ∷ []),
      )
  step_balance {db} user_id value events (changed now token password new_password key u bound h) =
      let (v, bound', one, done) = change_done services now token password new_password key db h in
      let same : v ≡ u = cc (bound, bound') in
      omega (
        arith,
        ap (λ (d : Db). count (is_link user_id value) d.verifications) done,
        subst
            (λ (w : User).
              (if str_eq w.id user_id && str_eq (services.digest token) value then 1 else 0)
                + count (is_link user_id value)
                    (filter (λ r. not (is_record services now token v.id r)) db.verifications)
              ≤ count (is_link user_id value) db.verifications)
            same (reset_balance services user_id value now token v db.verifications one),
      )

  -- In every run of registrations, updates, links and resets, a link changes a password at most once
  -- for each row that it had and each time that it was issued.
  pub resets_bounded :
      {db : Db} {events : List Event} {db' : Db} (user_id value : String)
      → Runs rs services db events db'
      → count (is_reset user_id value) events + count (is_link user_id value) db'.verifications
        ≤ count (is_issue user_id value) events + count (is_link user_id value) db.verifications
  resets_bounded user_id value idle = omega arith
  resets_bounded user_id value (next {events} r s) =
      omega (arith, resets_bounded user_id value r, step_balance user_id value events s)
