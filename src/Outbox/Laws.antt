-- ===== src/Outbox/Laws.antt =====
-- How often a delivery is handed to the pusher, whatever the workers and the administrator do.
use docker_zerotier_planet.Common.{
  count-filter_le, ℕ, ◌+◌, ◌≤◌, String, ◌≡◌, refl, subst, inl, inr, Bool, true, false, not, ◌&&◌,
  ◌||◌, Option, none, some, [], ◌∷◌, ◌++◌, arith, str_eq, eq_iff, Bool-cases, count, any, eq_refl,
  any-count, count-append, count-map_le,
}
use docker_zerotier_planet.Outbox.{
  sending, pending, cancelled, unknown_outcome, sent, Delivery, Options, Outbox, update_where,
  enqueue_notification, expire, interrupt, claimable, claim, cancel, dispatch, conclude, purge,
  retry, fits_retry, Step, enqueued, expired, interrupted, claimed, cancelled_job, dispatched_job,
  concluded, purged, sent_back, Reachable, start, next, empty,
}
use docker_zerotier_planet.Outbox.Counts.{
  claimable-rows_with, rows_with-update, claimable-update, claimed_none, times-remove_le,
  times-remove_one, absent_id, or_last, times, rows_with, chances,
}

pub record Inv (s : Outbox) : Type 0 where
  pub distinct : (i : String) → rows_with i s.rows ≤ 1
  pub bounded : (i : String) → chances i s ≤ 1 + times i s.retried

module _ (s : Outbox) (v : Inv s) where
  expire-Inv : (now : ℕ) → Inv (expire now s)
  unfolding expire
  expire-Inv now = record {
    distinct = λ i.
        rw (rows_with-update _ (λ d. record d { status = cancelled }) (λ d. refl) now i s.rows)
          (v.distinct i);
    bounded = λ i. omega (
      arith,
      v.bounded i,
      claimable-update _ (λ d. record d { status = cancelled }) (λ d e. refl) now i s.rows,
    );
  }

  interrupt-Inv : (now : ℕ) → Inv (interrupt now s)
  unfolding interrupt
  interrupt-Inv now = record {
    distinct = λ i.
        rw
          (rows_with-update _ (λ d. record d { status = unknown_outcome }) (λ d. refl) now i s.rows)
          (v.distinct i);
    bounded = λ i. omega (
      arith,
      v.bounded i,
      claimable-update _ (λ d. record d { status = unknown_outcome }) (λ d e. refl) now i s.rows,
    );
  }

  purge-Inv : (now : ℕ) → Inv (purge now s)
  unfolding purge
  purge-Inv now = record {
    distinct = λ i. omega (arith, v.distinct i, count-filter_le (λ d. str_eq d.id i) _ s.rows);
    bounded = λ i. omega (arith, v.bounded i, count-filter_le (claimable i) _ s.rows);
  }

  cancel-Inv : (now : ℕ) (id : String) → Inv (cancel now id s)
  unfolding cancel
  cancel-Inv now id = record {
    distinct = λ i.
        rw (rows_with-update _ (λ d. record d { status = cancelled }) (λ d. refl) now i s.rows)
          (v.distinct i);
    bounded = λ i. omega (
      arith,
      v.bounded i,
      times-remove_le i id s.held,
      claimable-update _ (λ d. record d { status = cancelled }) (λ d e. refl) now i s.rows,
    );
  }

  conclude-Inv : (now : ℕ) (id : String) (confirmed : Bool) → Inv (conclude now id confirmed s)
  unfolding conclude
  conclude-Inv now id true = record {
    distinct = λ i.
        rw
          (rows_with-update _ (λ d. record d { status = sent; delivered_at = some now }) (λ d. refl)
            now i s.rows)
          (v.distinct i);
    bounded = λ i. omega (
      arith,
      v.bounded i,
      claimable-update _ (λ d. record d { status = sent; delivered_at = some now }) (λ d e. refl)
          now i s.rows,
    );
  }
  conclude-Inv now id false = record {
    distinct = λ i.
        rw
          (rows_with-update _ (λ d. record d { status = unknown_outcome }) (λ d. refl) now i s.rows)
          (v.distinct i);
    bounded = λ i. omega (
      arith,
      v.bounded i,
      claimable-update _ (λ d. record d { status = unknown_outcome }) (λ d e. refl) now i s.rows,
    );
  }

  dispatch-Inv : (id : String) → 1 ≤ times id s.held → Inv (dispatch id s)
  unfolding dispatch
  dispatch-Inv id h = record {
    distinct = v.distinct;
    bounded = λ i. elim (Bool-cases (str_eq id i)) [
      | inl same ↦
          subst (λ j. chances j (dispatch id s) ≤ 1 + times j s.retried) ((eq_iff id i).0 same)
            (rw (eq_refl id) (omega (arith, v.bounded id, times-remove_one id s.held h)))
      | inr differ ↦ rw differ (omega (arith, v.bounded i, times-remove_le i id s.held))
    ];
  }

  claim-Inv : (now : ℕ) (id : String) → Inv (claim now id s)
  unfolding claim
  claim-Inv now id = elim (Bool-cases (any (claimable id) s.rows)) [
    | inl found ↦ rw found (record {
      distinct = λ i. rw (rows_with-update _ claimed_row (λ d. refl) now i s.rows) (v.distinct i);
      bounded = λ i. elim (Bool-cases (str_eq id i)) [
        | inl same ↦
            subst (λ j. chances j claimed_state ≤ 1 + times j s.retried) ((eq_iff id i).0 same)
              (rw (eq_refl id) (
                omega (
                  arith,
                  v.bounded id,
                  claimed_none claimed_row (λ d. refl) now id s.rows,
                  found_some found,
                )))
        | inr differ ↦
            rw differ (
              omega (arith, v.bounded i, claimable-update _ claimed_row (λ d e. refl) now i s.rows))
      ];
    })
    | inr gone ↦ rw gone v
  ]
    where
      claimed_row : Delivery → Delivery
      claimed_row d = record d { status = sending; attempts = d.attempts + 1 }

      claimed_state : Outbox
      claimed_state = record s {
        rows = update_where (claimable id) claimed_row now s.rows;
        held = id ∷ s.held;
      }

      found_some : any (claimable id) s.rows ≡ true → 1 ≤ count (claimable id) s.rows
      found_some e = ground (arith, any-count (claimable id) s.rows)

  retry-Inv : (options : Options) (now : ℕ) (id : String) → Inv (retry options now id s)
  unfolding retry
  retry-Inv options now id =
      elim (Bool-cases (options.enabled && any (fits_retry options id) s.rows)) [
        | inl fits ↦ rw fits (record {
          distinct = λ i. rw (rows_with-update _ back (λ d. refl) now i s.rows) (v.distinct i);
          bounded = λ i. elim (Bool-cases (str_eq id i)) [
            | inl same ↦
                subst (λ j. chances j sent_state ≤ 1 + times j (id ∷ s.retried))
                  ((eq_iff id i).0 same)
                  (rw (eq_refl id) (
                    omega (
                      arith,
                      v.bounded id,
                      v.distinct id,
                      claimable-rows_with id sent_state.rows,
                      rows_with-update (fits_retry options id) back (λ d. refl) now id s.rows,
                    )))
            | inr differ ↦ rw differ (omega (arith, v.bounded i, other i differ))
          ];
        })
        | inr kept ↦ rw kept v
      ]
    where
      back : Delivery → Delivery
      back d = record d { status = pending }

      sent_state : Outbox
      sent_state = record s {
        rows = update_where (fits_retry options id) back now s.rows;
        retried = id ∷ s.retried;
      }

      other :
          (i : String)
          → str_eq id i ≡ false
          → count (claimable i) (update_where (fits_retry options id) back now s.rows)
            ≤ count (claimable i) s.rows
      other i differ =
          count-map_le (claimable i) _
            (λ d h. ground (arith, eq_iff d.id id, eq_iff d.id i, eq_iff id i)) s.rows

  enqueue-Inv :
      (options : Option Options) (template_enabled : Bool) (draft : Delivery)
      → times draft.id s.held ≡ 0
      → times draft.id s.dispatched ≡ 0
      → Inv (enqueue_notification options template_enabled draft s)
  unfolding enqueue_notification
  enqueue-Inv none t draft h k = v
  enqueue-Inv (some options) t draft h k =
      elim (Bool-cases (
        not options.enabled
        || not t
        || any (λ d. str_eq d.event_key draft.event_key || str_eq d.id draft.id) s.rows)) [
          | inl kept ↦ rw kept v
          | inr fresh ↦ rw fresh (record {
            distinct = λ i. elim (Bool-cases (str_eq draft.id i)) [
              | inl same ↦
                  subst (λ j. rows_with j (s.rows ++ queued ∷ []) ≤ 1) ((eq_iff draft.id i).0 same)
                    (rw
                      (
                        count-append (λ d. str_eq d.id draft.id) s.rows (queued ∷ []),
                        eq_refl draft.id,
                      )
                      (omega (arith, unused fresh)))
              | inr differ ↦
                  rw (count-append (λ d. str_eq d.id i) s.rows (queued ∷ []), differ)
                    (omega (arith, v.distinct i))
            ];
            bounded = λ i. elim (Bool-cases (str_eq draft.id i)) [
              | inl same ↦
                  subst (λ j. chances j queued_state ≤ 1 + times j s.retried)
                    ((eq_iff draft.id i).0 same)
                    (rw (count-append (claimable draft.id) s.rows (queued ∷ []), eq_refl draft.id)
                      (omega (arith, h, k, unused fresh, claimable-rows_with draft.id s.rows)))
              | inr differ ↦
                  rw (count-append (claimable i) s.rows (queued ∷ []), differ)
                    (omega (arith, v.bounded i))
            ];
          })
        ]
    where
      queued : Delivery
      queued = record draft { fingerprint = options.fingerprint; status = pending; attempts = 0 }

      queued_state : Outbox
      queued_state = record s { rows = s.rows ++ queued ∷ [] }

      unused :
          (not options.enabled
              || not t
              || any (λ d. str_eq d.event_key draft.event_key || str_eq d.id draft.id) s.rows)
            ≡ false
          → rows_with draft.id s.rows ≡ 0
      unused fresh = absent_id draft s.rows (or_last (not options.enabled) (not t) _ fresh)

Step-Inv : {s t : Outbox} → Step s t → Inv s → Inv t
Step-Inv {s} (enqueued o t draft h k) v = enqueue-Inv s v o t draft h k
Step-Inv {s} (expired now) v = expire-Inv s v now
Step-Inv {s} (interrupted now) v = interrupt-Inv s v now
Step-Inv {s} (claimed now id) v = claim-Inv s v now id
Step-Inv {s} (cancelled_job now id) v = cancel-Inv s v now id
Step-Inv {s} (dispatched_job id h) v = dispatch-Inv s v id h
Step-Inv {s} (concluded now id c) v = conclude-Inv s v now id c
Step-Inv {s} (purged now) v = purge-Inv s v now
Step-Inv {s} (sent_back o now id) v = retry-Inv s v o now id

empty-Inv : Inv empty
unfolding empty
empty-Inv = record { distinct = λ i. omega arith; bounded = λ i. omega arith }

pub Reachable-Inv : {s : Outbox} → Reachable s → Inv s
Reachable-Inv start = empty-Inv
Reachable-Inv (next r st) = Step-Inv st (Reachable-Inv r)

-- In every state that any workers and administrators get to, a delivery was handed to the pusher at most
-- once, and once more for each time that an administrator sent it back.
pub dispatched_bounded :
    {s : Outbox} (i : String) → Reachable s → times i s.dispatched ≤ 1 + times i s.retried
dispatched_bounded i r = omega (arith, (Reachable-Inv r).bounded i)
