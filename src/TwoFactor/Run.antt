-- ===== src/TwoFactor/Run.antt =====
-- The runs of the requests on the second factor (pages/api/auth/two-factor/totp and `mfaResetValidation`,
-- in services/ztnet/src): setting up, turning on and off in two steps, the recovery in its three.
use docker_zerotier_planet.Common.{String, ◌≡◌, some, List, [], ◌∷◌, ok, find, In}
use docker_zerotier_planet.TwoFactor.{
  User, Services, setup, enable, disable, check_setup, check_enable, check_disable, check_recovery,
  read_locked, consume_code, has_email,
}

-- A request that has passed its checks and not yet made its update, by the email of its row.
pub data Approved : Type 0 where
  to_set_up to_enable to_disable : String → Approved

-- `approved` are the requests before their update; `checked` are the recoveries whose checks have passed, by
-- the user's id and the code; `locked` the ones that have read the user's codes in their transaction. None
-- is taken off when it goes on, so that it may go on again.
pub record State : Type 0 where
  pub users : List User
  pub approved : List Approved
  pub checked : List (String × String)
  pub locked : List (String × String × List String)

-- What a step does to the second factor of a user, by id.
pub data Event : Type 0 where
  none_changed : Event
  turned_on turned_off recovered : String → Event

pub data Step (services : Services) (s : State) : Event → State → Type 0 where
  setup_checked :
      (email password : String) (u : User)
      → check_setup services (find (has_email email) s.users) password ≡ ok u
      → Step services s none_changed (record s { approved = to_set_up email ∷ s.approved })
  set_up :
      (email secret : String) (u : User)
      → In (to_set_up email) s.approved
      → find (has_email email) s.users ≡ some u
      → Step services s none_changed (record s { users = setup services email secret s.users })
  enable_checked :
      (email totp_code : String) (u : User)
      → check_enable services (find (has_email email) s.users) totp_code ≡ ok u
      → Step services s none_changed (record s { approved = to_enable email ∷ s.approved })
  enabled :
      (email : String) (hashed : List String) (u : User)
      → In (to_enable email) s.approved
      → find (has_email email) s.users ≡ some u
      → Step services s (turned_on u.id) (record s { users = enable email hashed s.users })
  disable_checked :
      (email totp_code : String) (u : User)
      → check_disable services (find (has_email email) s.users) totp_code ≡ ok u
      → Step services s none_changed (record s { approved = to_disable u.email ∷ s.approved })
  disabled :
      (email : String) (u : User)
      → In (to_disable email) s.approved
      → find (has_email email) s.users ≡ some u
      → Step services s (turned_off u.id) (record s { users = disable email s.users })
  recovery_checked :
      (token email password code : String) (u : User)
      → check_recovery services token email password code s.users ≡ ok u
      → Step services s none_changed (record s { checked = (u.id, code) ∷ s.checked })
  recovery_locked :
      (user_id code : String) (hashed : List String)
      → In (user_id, code) s.checked
      → read_locked services user_id code s.users ≡ ok hashed
      → Step services s none_changed (record s { locked = (user_id, code, hashed) ∷ s.locked })
  recovery_consumed :
      {users : List User} (user_id code : String) (hashed : List String)
      → In (user_id, code, hashed) s.locked
      → consume_code services user_id code hashed s.users ≡ ok users
      → Step services s (recovered user_id) (record s { users = users })

-- A run, with its events, the last one first.
pub data Runs (services : Services) (s : State) : List Event → State → Type 0 where
  idle : Runs services s [] s
  next :
      {events : List Event} {e : Event} {t u : State}
      → Runs services s events t
      → Step services t e u
      → Runs services s (e ∷ events) u
