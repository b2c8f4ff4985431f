-- ===== src/Login/Guessing.antt =====
-- Guesses of a password or a code in a window of the cooldown's length.
use docker_zerotier_planet.Common.{
  ℕ, suc, ◌+◌, ◌-◌, ◌≤◌, ◌<◌, String, ◌≡◌, refl, ◌≢◌, ◌⊎◌, inl, inr, Bool, false, Option, some,
  List, [], ◌∷◌, arith,
}
use docker_zerotier_planet.Login.{
  Services, Settings, Request, User, Db, find_user, lock_of, locked, unlocked, elapsed, sign_in,
  run_before_auth_hook, Verdict, throw, too_many_requests, Lock, record_failure, clear_failures,
}
use docker_zerotier_planet.Login.Lockout.{
  Fails, IsGuess, after, sign_in_guess, hook_sign_in, sign_in_locked,
}

module _ (services : Services) (settings : Settings) (email : String) where
  abbrev pub weigh : Verdict → ℕ
  weigh (throw too_many_requests) = 0
  weigh _ = 1

  -- How many of the attempts have their password or code looked at.
  unfoldable pub evaluated : List (ℕ × Request) → Db → ℕ
  evaluated [] db = 0
  evaluated ((now, req) ∷ rest) db =
      let result = run_before_auth_hook services settings now req db in
      weigh result.1 + evaluated rest result.0

  -- The attempts are guesses against the credentials, made in the cooldown's length from `start`.
  abbrev pub Guesses : ℕ → Option String → Bool → Option String → List (ℕ × Request) → Type 0
  Guesses start hash enabled stored [] = Unit
  Guesses start hash enabled stored ((now, req) ∷ rest) =
      (start ≤ now)
      × (now < start + settings.cooldown)
      × Fails services settings email hash enabled stored req
      × Guesses start hash enabled stored rest

  weigh_looked : (v : Verdict) → v ≢ throw too_many_requests → weigh v ≡ 1
  weigh_looked v h = ground arith

  module _ (exclusive : settings.oauth_exclusive ≡ false) (given : email ≢ "") (start : ℕ) where
    step_locked :
        (now : ℕ) (u : User) (req : Request) (rest : List (ℕ × Request)) (db : Db)
        → IsGuess services settings email u req
        → find_user email db ≡ some u
        → lock_of settings now u ≡ locked
        → evaluated ((now, req) ∷ rest) db ≡ evaluated rest db
    unfolding evaluated
    step_locked now u req rest db g found e =
        rw
          (
            hook_sign_in services settings email now u req db exclusive given g found,
            sign_in_locked services settings email now u req db e,
          )
          (omega arith)

    step_looked :
        (now : ℕ) (u : User) (req : Request) (rest : List (ℕ × Request)) (db : Db)
        → IsGuess services settings email u req
        → find_user email db ≡ some u
        → lock_of settings now u ≢ locked
        → (db' : Db) × (find_user email db'
            ≡ some (after services settings email (lock_of settings now u) now u))
          × (evaluated ((now, req) ∷ rest) db ≡ suc (evaluated rest db'))
    unfolding evaluated
    step_looked now u req rest db g found e =
        let (seen, looked) = sign_in_guess services settings email now u req db g found e in
        (
          (sign_in services settings now u req db).0,
          seen,
          rw (hook_sign_in services settings email now u req db exclusive given g found)
              (rw (weigh_looked _ looked) (omega arith)),
        )

    -- Within the window the cooldown has not passed, so the counter alone decides.
    lock_within :
        (u : User) (now last : ℕ)
        → u.last_failed_login_attempt ≡ some last
        → now < last + settings.cooldown
        → ((settings.max_attempts ≤ u.failed_login_attempts) × (lock_of settings now u ≡ locked))
          ⊎ ((u.failed_login_attempts < settings.max_attempts)
              × (lock_of settings now u ≡ unlocked))
    unfolding lock_of
    lock_within u now last at near = ground arith

    -- After a failure in the window, each further attempt costs one of the attempts that are left.
    evaluated_within :
        (attempts : List (ℕ × Request)) (u : User) (last : ℕ) (db : Db)
        → find_user email db ≡ some u
        → Guesses start u.hash u.two_factor_enabled u.two_factor_secret attempts
        → u.last_failed_login_attempt ≡ some last
        → start ≤ last
        → evaluated attempts db ≤ settings.max_attempts - u.failed_login_attempts
    evaluated_within [] u last db found gs at from = unfold evaluated in omega arith
    evaluated_within ((now, req) ∷ rest) u last db found (lo, hi, g, gs) at from =
        elim (lock_within u now last at (omega arith)) [
          | inl (full, e) ↦
              rw (step_locked now u req rest db g found e)
                (evaluated_within rest u last db found gs at from)
          | inr (room, e) ↦
              let (db', found', more) =
                step_looked now u req rest db g found (λ bad. cc (e, bad)) in
              let found'' : find_user email db' ≡ some (record_failure now u) = rw e at found' in
              let later = evaluated_within rest (record_failure now u) now db' found'' gs refl lo in
              rw more (omega (arith, later, room))
        ]

    -- Whatever the counter says at first: it restarts at most once, at the first guess that counts.
    evaluated_from :
        (attempts : List (ℕ × Request)) (u : User) (db : Db)
        → 1 ≤ settings.max_attempts
        → find_user email db ≡ some u
        → Guesses start u.hash u.two_factor_enabled u.two_factor_secret attempts
        → evaluated attempts db ≤ settings.max_attempts
    evaluated_from [] u db pos found gs = unfold evaluated in omega arith
    evaluated_from ((now, req) ∷ rest) u db pos found (lo, hi, g, gs) =
        go (lock_of settings now u) refl (evaluated_from rest u db pos found gs)
      where
        go :
            (l : Lock)
            → lock_of settings now u ≡ l
            → evaluated rest db ≤ settings.max_attempts
            → evaluated ((now, req) ∷ rest) db ≤ settings.max_attempts
        go locked e ih = rw (step_locked now u req rest db g found e) ih
        go unlocked e ih =
            let (db', found', more) = step_looked now u req rest db g found (λ bad. cc) in
            let found'' : find_user email db' ≡ some (record_failure now u) = rw e at found' in
            let later = evaluated_within rest (record_failure now u) now db' found'' gs refl lo in
            rw more (omega (arith, later, pos))
        go elapsed e ih =
            let (db', found', more) = step_looked now u req rest db g found (λ bad. cc) in
            let u' = record_failure now (clear_failures u) in
            let found'' : find_user email db' ≡ some u' = rw e at found' in
            let later = evaluated_within rest u' now db' found'' gs refl lo in
            rw more (omega (arith, later, pos))

-- Of any attempts on an account within one cooldown, each over before the next one begins and each with a
-- wrong password or a refused code, at most as many as the limit have their password or code looked at, whatever the counter was before;
-- the rest are turned away. The limit is at least one, and credentials are not disabled.
pub lockout_holds :
    (services : Services) (settings : Settings) (email : String) (start : ℕ)
    (attempts : List (ℕ × Request)) (u : User) (db : Db)
    → settings.oauth_exclusive ≡ false
    → 1 ≤ settings.max_attempts
    → email ≢ ""
    → find_user email db ≡ some u
    → Guesses services settings email start u.hash u.two_factor_enabled u.two_factor_secret attempts
    → evaluated services settings email attempts db ≤ settings.max_attempts
lockout_holds services settings email start attempts u db exclusive pos given found gs =
    evaluated_from services settings email exclusive given start attempts u db pos found gs
