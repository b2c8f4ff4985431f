-- ===== src/Outbox/Tests.antt =====
-- A delivery that is handed on, not confirmed, and sent back.
use docker_zerotier_planet.Common.{◌+◌, ◌≤◌, ◌≡◌, refl, true, false, none, some, [], ◌∷◌, map}
use docker_zerotier_planet.Outbox.{
  Delivery, Options, Outbox, pending, unknown_outcome, empty, enqueue_notification, expire,
  interrupt, claim, dispatch, conclude, purge, deliver, deliver_all, drain_deliveries, enqueued,
  Reachable, start, next,
}
use docker_zerotier_planet.Outbox.Counts.{times}
use docker_zerotier_planet.Outbox.Laws.{dispatched_bounded}
use docker_zerotier_planet.Outbox.Drain.{drain-Reachable}

abbrev options : Options
options = record { enabled = true; fingerprint = "f" }

abbrev draft : Delivery
draft = record {
  id = "d1";
  event_key = "node.online:n:a";
  event_type = "node.online";
  title = "t";
  body = "b";
  template_version = 1;
  fingerprint = "";
  status = pending;
  attempts = 0;
  created_at = 1000;
  updated_at = 1000;
  delivered_at = none;
}

abbrev queued : Outbox
queued = enqueue_notification (some options) true draft empty

queued-Reachable : Reachable queued
queued-Reachable =
    next start (enqueued (some options) true draft (unfold empty in refl) (unfold empty in refl))

abbrev drained : Outbox
drained = drain_deliveries (λ job. false) 5000 (some options) queued

handed_on :
    (drained.dispatched ≡ "d1" ∷ []) × (map (λ d. d.status) drained.rows ≡ unknown_outcome ∷ [])
unfolding drain_deliveries deliver_all deliver claim dispatch conclude purge expire interrupt
    enqueue_notification empty
handed_on = (refl, refl)

drain-Reachable_example : Reachable drained
drain-Reachable_example = drain-Reachable (λ job. false) 5000 (some options) queued queued-Reachable

dispatched_bounded_example : times "d1" drained.dispatched ≤ 1 + times "d1" drained.retried
dispatched_bounded_example = dispatched_bounded "d1" drain-Reachable_example
