-- ===== src/Outbox.antt =====
-- services/ztnet/src/server/notifications/service.ts, the outbox: `enqueueNotification`,
-- `recordLoginSession` and `drainNotifications`, and `retry` of server/api/routers/notificationRouter.ts.
-- Several workers may drain at once: a worker's job is claimed, handed to the pusher, and concluded in
-- three steps. Rendered texts, the destination's fingerprint and the pusher's answer are parameters.
-- Rows stand in the order of their creation. An update by id of a row that is gone throws in the source;
-- here it changes nothing. A claimed row is sending, and no such row is purged.
pub mod Counts
pub mod Laws
pub mod Drain
pub mod Events
mod Tests
use docker_zerotier_planet.Common.{
  ℕ, zero, suc, ◌+◌, ◌-◌, ◌*◌, ◌≤◌, ◌<◌, String, ◌≡◌, refl, sym, ap, ◌∙◌, subst, ◌≢◌, ◌↔◌, ◌⊎◌, inl,
  inr, Bool, true, false, not, ◌&&◌, ◌||◌, Option, none, some, List, [], ◌∷◌, ◌++◌, map, arith,
  str_eq, eq_iff, ltb, leb, ◌==◌, if◌then◌else◌, Bool-cases, Option-cases, any, filter, count,
}

pub data Status : Type 0 where
  pending sending sent unknown_outcome failed cancelled : Status

-- A row of `NotificationDelivery`.
pub record Delivery : Type 0 where
  pub id : String
  pub event_key : String
  pub event_type : String
  pub title : String
  pub body : String
  pub template_version : ℕ
  pub fingerprint : String
  pub status : Status
  pub attempts : ℕ
  pub created_at : ℕ
  pub updated_at : ℕ
  pub delivered_at : Option ℕ

-- A row of `Session`, with whether its login was put in the outbox.
pub record Session : Type 0 where
  pub id : String
  pub recorded : Bool

-- `held` are the jobs that a worker has claimed and not yet handed on or cancelled; `dispatched` the
-- ones handed to the pusher, and `retried` the ones that an administrator sent back, by id.
pub record Outbox : Type 0 where
  pub rows : List Delivery
  pub sessions : List Session
  pub held : List String
  pub dispatched : List String
  pub retried : List String

-- `GlobalOptions`: whether the pusher is enabled, and the fingerprint of its destination.
pub record Options : Type 0 where
  pub enabled : Bool
  pub fingerprint : String

abbrev pub is_pending : Status → Bool
is_pending pending = true
is_pending _ = false

abbrev pub is_sending : Status → Bool
is_sending sending = true
is_sending _ = false

abbrev pub is_retriable : Status → Bool
is_retriable unknown_outcome = true
is_retriable failed = true
is_retriable _ = false

-- `updateMany`, which also sets `updatedAt`.
abbrev pub update_where :
    (Delivery → Bool) → (Delivery → Delivery) → ℕ → List Delivery → List Delivery
update_where p f now rows = map (λ d. if p d then record (f d) { updated_at = now } else d) rows

-- `enqueueNotification` with the row that it renders. `createMany` with `skipDuplicates` leaves out a row
-- whose event key, or id, is there.
unfoldable pub enqueue_notification : Option Options → Bool → Delivery → Outbox → Outbox
enqueue_notification none template_enabled draft s = s
enqueue_notification (some options) template_enabled draft s =
    if not options.enabled
      || not template_enabled
      || any (λ d. str_eq d.event_key draft.event_key || str_eq d.id draft.id) s.rows
    then s
    else record s {
      rows =
          s.rows
          ++ record draft { fingerprint = options.fingerprint; status = pending; attempts = 0 }
            ∷ [];
    }

-- `recordLoginSession`.
pub record_login_session : Option Options → Bool → (String → Delivery) → String → Outbox → Outbox
unfolding enqueue_notification
record_login_session options template_enabled draft id s =
    if any (λ x. str_eq x.id id && not x.recorded) s.sessions
    then (let queued = enqueue_notification options template_enabled (draft id) s in
        record queued {
          sessions =
              map (λ x. if str_eq x.id id then record x { recorded = true } else x) queued.sessions;
        })
    else s

-- Pending for more than a day.
pub expire : ℕ → Outbox → Outbox
expire now s = record s {
  rows =
      update_where (λ d. is_pending d.status && ltb (d.created_at + 86400000) now)
        (λ d. record d { status = cancelled }) now s.rows;
}

-- Sending for more than two minutes: the worker was interrupted.
pub interrupt : ℕ → Outbox → Outbox
interrupt now s = record s {
  rows =
      update_where (λ d. is_sending d.status && ltb (d.updated_at + 120000) now)
        (λ d. record d { status = unknown_outcome }) now s.rows;
}

abbrev pub claimable : String → Delivery → Bool
claimable id d = str_eq d.id id && is_pending d.status

-- The claim of a job: it counts only if a row was still pending.
pub claim : ℕ → String → Outbox → Outbox
claim now id s =
    if any (claimable id) s.rows
    then record s {
      rows =
          update_where (claimable id)
            (λ d. record d { status = sending; attempts = d.attempts + 1 }) now s.rows;
      held = id ∷ s.held;
    }
    else s

-- One occurrence less.
abbrev pub remove_one : String → List String → List String
remove_one id [] = []
remove_one id (x ∷ xs) = if str_eq x id then xs else x ∷ remove_one id xs

-- The destination has changed since the job was made.
pub cancel : ℕ → String → Outbox → Outbox
cancel now id s = record s {
  rows = update_where (λ d. str_eq d.id id) (λ d. record d { status = cancelled }) now s.rows;
  held = remove_one id s.held;
}

-- `sendMessagePusher` is called.
pub dispatch : String → Outbox → Outbox
dispatch id s = record s { held = remove_one id s.held; dispatched = id ∷ s.dispatched }

-- The pusher has confirmed the job, or failed.
pub conclude : ℕ → String → Bool → Outbox → Outbox
conclude now id confirmed s = record s {
  rows =
      update_where (λ d. str_eq d.id id)
        (λ d.
          if confirmed
          then record d { status = sent; delivered_at = some now }
          else record d { status = unknown_outcome })
        now s.rows;
}

-- Finished for more than thirty days.
pub purge : ℕ → Outbox → Outbox
purge now s = record s {
  rows =
      filter
        (λ d. not (
          ltb (d.created_at + 30 * 86400000) now
          && not (is_pending d.status || is_sending d.status)))
        s.rows;
}

abbrev pub fits_retry : Options → String → Delivery → Bool
fits_retry options id d =
    str_eq d.id id && is_retriable d.status && str_eq d.fingerprint options.fingerprint

-- `retry`, by an administrator; where no row fits it throws, and nothing changes.
pub retry : Options → ℕ → String → Outbox → Outbox
retry options now id s =
    if options.enabled && any (fits_retry options id) s.rows
    then record s {
      rows = update_where (fits_retry options id) (λ d. record d { status = pending }) now s.rows;
      retried = id ∷ s.retried;
    }
    else s

abbrev pub take_pending : ℕ → List Delivery → List Delivery
take_pending zero rows = []
take_pending (suc n) [] = []
take_pending (suc n) (d ∷ rows) =
    if is_pending d.status then d ∷ take_pending n rows else take_pending (suc n) rows

abbrev take_unrecorded : ℕ → List Session → List Session
take_unrecorded zero sessions = []
take_unrecorded (suc n) [] = []
take_unrecorded (suc n) (x ∷ sessions) =
    if not x.recorded then x ∷ take_unrecorded n sessions else take_unrecorded (suc n) sessions

module _ (send : Delivery → Bool) (now : ℕ) where
  -- One round of the loop over the jobs.
  pub deliver : Options → Delivery → Outbox → Outbox
  deliver options job s =
      if not (any (claimable job.id) s.rows)
      then s
      else if not (str_eq job.fingerprint options.fingerprint)
      then cancel now job.id (claim now job.id s)
      else conclude now job.id (send job) (dispatch job.id (claim now job.id s))

  pub deliver_all : Options → List Delivery → Outbox → Outbox
  unfolding deliver
  deliver_all options [] s = s
  deliver_all options (job ∷ jobs) s = deliver_all options jobs (deliver options job s)

  -- `drainNotifications` after the sessions; the clock is read once.
  pub drain_deliveries : Option Options → Outbox → Outbox
  unfolding expire interrupt
  drain_deliveries none s = interrupt now (expire now s)
  drain_deliveries (some options) s =
      let swept = interrupt now (expire now s) in
      if options.enabled
      then purge now (deliver_all options (take_pending 10 swept.rows) swept)
      else swept

  -- `drainNotifications`.
  pub drain_notifications : Option Options → Bool → (String → Delivery) → Outbox → Outbox
  unfolding record_login_session
  drain_notifications options template_enabled draft s =
      drain_deliveries options (record_all (take_unrecorded 100 s.sessions) s)
    where
      record_all : List Session → Outbox → Outbox
      record_all [] s' = s'
      record_all (x ∷ xs) s' =
          record_all xs (record_login_session options template_enabled draft x.id s')

-- What may happen, to any worker: a row that is enqueued has an id that was never used.
pub data Step (s : Outbox) : Outbox → Type 0 where
  enqueued :
      (options : Option Options) (template_enabled : Bool) (draft : Delivery)
      → count (λ i. str_eq i draft.id) s.held ≡ 0
      → count (λ i. str_eq i draft.id) s.dispatched ≡ 0
      → Step s (enqueue_notification options template_enabled draft s)
  expired : (now : ℕ) → Step s (expire now s)
  interrupted : (now : ℕ) → Step s (interrupt now s)
  claimed : (now : ℕ) (id : String) → Step s (claim now id s)
  cancelled_job : (now : ℕ) (id : String) → Step s (cancel now id s)
  dispatched_job : (id : String) → 1 ≤ count (λ i. str_eq i id) s.held → Step s (dispatch id s)
  concluded : (now : ℕ) (id : String) (confirmed : Bool) → Step s (conclude now id confirmed s)
  purged : (now : ℕ) → Step s (purge now s)
  sent_back : (options : Options) (now : ℕ) (id : String) → Step s (retry options now id s)

unfoldable pub empty : Outbox
empty = record { rows = []; sessions = []; held = []; dispatched = []; retried = [] }

pub data Reachable : Outbox → Type 0 where
  start : Reachable empty
  next : {s t : Outbox} → Reachable s → Step s t → Reachable t
