-- ===== src/Outbox/Drain.antt =====
-- `drainNotifications` as a sequence of steps.
use docker_zerotier_planet.Common.{
  ℕ, ◌≤◌, String, ◌≡◌, inl, inr, Bool, true, false, not, Option, none, some, List, [], ◌∷◌, arith,
  str_eq, if◌then◌else◌, Bool-cases, any, eq_refl,
}
use docker_zerotier_planet.Outbox.{
  Delivery, Options, Outbox, expire, interrupt, claimable, claim, deliver, deliver_all,
  drain_deliveries, take_pending, expired, interrupted, claimed, cancelled_job, dispatched_job,
  concluded, purged, Reachable, next,
}
use docker_zerotier_planet.Outbox.Counts.{times}

either : (b : Bool) {s t : Outbox} → Reachable s → Reachable t → Reachable (if b then s else t)
either true r u = r
either false r u = u

module _ (send : Delivery → Bool) (now : ℕ) where
  claim_holds :
      (id : String) (s : Outbox)
      → any (claimable id) s.rows ≡ true
      → 1 ≤ times id (claim now id s).held
  unfolding claim
  claim_holds id s h = rw (h, eq_refl id) (omega arith)

  deliver-Reachable :
      (options : Options) (job : Delivery) (s : Outbox)
      → Reachable s
      → Reachable (deliver send now options job s)
  unfolding deliver
  deliver-Reachable options job s r = elim (Bool-cases (any (claimable job.id) s.rows)) [
    | inr gone ↦ rw gone r
    | inl found ↦
        let taken = next r (claimed now job.id) in
        rw found (
          either (not (str_eq job.fingerprint options.fingerprint))
            (next taken (cancelled_job now job.id))
            (next (next taken (dispatched_job job.id (claim_holds job.id s found)))
              (concluded now job.id (send job))))
  ]

  deliver_all-Reachable :
      (options : Options) (jobs : List Delivery) (s : Outbox)
      → Reachable s
      → Reachable (deliver_all send now options jobs s)
  unfolding deliver_all
  deliver_all-Reachable options [] s r = r
  deliver_all-Reachable options (job ∷ jobs) s r =
      deliver_all-Reachable options jobs _ (deliver-Reachable options job s r)

  swept : (s : Outbox) → Reachable s → Reachable (interrupt now (expire now s))
  swept s r = next (next r (expired now)) (interrupted now)

  -- A worker's whole round over the deliveries leads from a state that is reached by steps to another.
  pub drain-Reachable :
      (options : Option Options) (s : Outbox)
      → Reachable s
      → Reachable (drain_deliveries send now options s)
  unfolding drain_deliveries
  drain-Reachable none s r = swept s r
  drain-Reachable (some options) s r =
      either options.enabled
        (next
          (deliver_all-Reachable options (take_pending 10 (interrupt now (expire now s)).rows) _
            (swept s r))
          (purged now))
        (swept s r)
