-- ===== src/Registration/Budget.antt =====
-- How many accounts an invitation makes, whatever the order in which requests run.
use docker_zerotier_planet.Common.{
  ℕ, ◌+◌, ◌-◌, ◌≤◌, ◌<◌, String, ◌≡◌, refl, sym, ap, ◌∙◌, subst, inl, inr, Bool, true, false,
  Option, none, some, List, [], ◌∷◌, map, arith, ◌==◌, if◌then◌else◌, Bool-cases, count, filter,
  All, ok, ok_inj, then_ok, In, All-In, All-find,
}
use docker_zerotier_planet.Registration.{
  Invitation, Db, Request, Services, Passed, check_request, OrgGrant, invalid_invitation,
}
use docker_zerotier_planet.Registration.Commit.{
  consume_invitation, consume_org, commit, fits, use_once, State, Runs, idle, checked, committed,
  is_grant,
}
use docker_zerotier_planet.Registration.Laws.{commit-Committed, code_invitation, request_invitation}

-- The uses that an invitation has left.
abbrev pub left_of : ℕ → List Invitation → ℕ
left_of i [] = 0
left_of i (r ∷ rows) = (if r.id == i then r.times_can_use - r.times_used else 0) + left_of i rows

abbrev is_id : ℕ → Option Invitation → Bool
is_id i none = false
is_id i (some r) = r.id == i

-- The accounts that were made with an invitation.
abbrev pub uses : ℕ → List Passed → ℕ
uses i done = count (λ p. is_id i p.invitation) done

-- What a limit is does not change while requests run.
abbrev pub KeepsLimit : (ℕ → ℕ) → Invitation → Type 0
KeepsLimit limit r = r.times_can_use ≡ limit r.id

abbrev HasRoom : (ℕ → ℕ) → Passed → Type 0
HasRoom limit p =
    (r : Invitation)
    → p.invitation ≡ some r
    → (r.times_can_use ≡ limit r.id) × (r.times_used < r.times_can_use)

left_of-filter :
    (i : ℕ) (q : Invitation → Bool) (rows : List Invitation)
    → left_of i (filter q rows) ≤ left_of i rows
left_of-filter i q [] = omega arith
left_of-filter i q (r ∷ rows) = ground (arith, left_of-filter i q rows)

module _ (limit : ℕ → ℕ) (s : Invitation) (now : ℕ) where
  fits_limit :
      s.times_can_use ≡ limit s.id
      → (r : Invitation) → KeepsLimit limit r
      → fits s now r ≡ true
      → (r.id ≡ s.id) × (r.times_used ≡ s.times_used) × (r.times_can_use ≡ s.times_can_use)
  fits_limit same r keeps h =
      let ids : r.id ≡ s.id = ground arith in (ids, ground arith, keeps ∙ ap limit ids ∙ sym same)

-- The compare-and-set takes one use from the rows of its invitation for each row that it changes.
left_of-use :
    (limit : ℕ → ℕ) (s : Invitation) (now : ℕ)
    → s.times_can_use ≡ limit s.id
    → s.times_used < s.times_can_use
    → (rows : List Invitation) → All (KeepsLimit limit) rows
    → left_of s.id (map (λ r. if fits s now r then use_once s r else r) rows)
        + count (fits s now) rows
      ≡ left_of s.id rows
left_of-use limit s now same room [] v = refl
left_of-use limit s now same room (r ∷ rows) (first, rest) = elim (Bool-cases (fits s now r)) [
  | inl hit ↦
      (let (ids, used, can) = fits_limit limit s now same r first hit in
        rw hit (ground (arith, ids, used, can, left_of-use limit s now same room rows rest)))
  | inr miss ↦ rw miss (ground (arith, left_of-use limit s now same room rows rest))
]

left_of-other :
    (i : ℕ) (s : Invitation) (now : ℕ)
    → (s.id == i) ≡ false
    → (rows : List Invitation)
    → left_of i (map (λ r. if fits s now r then use_once s r else r) rows) ≡ left_of i rows
left_of-other i s now other [] = refl
left_of-other i s now other (r ∷ rows) = elim (Bool-cases (fits s now r)) [
  | inl hit ↦ rw hit (ground (arith, left_of-other i s now other rows))
  | inr miss ↦ rw miss (ground (arith, left_of-other i s now other rows))
]

module _ (limit : ℕ → ℕ) where
  consumed_left :
      (i : ℕ) (found : Option Invitation) (now : ℕ) (rows : List Invitation)
      {rows' : List Invitation}
      → ((r : Invitation)
          → found ≡ some r
          → (r.times_can_use ≡ limit r.id) × (r.times_used < r.times_can_use))
      → All (KeepsLimit limit) rows
      → consume_invitation found now rows ≡ ok rows'
      → left_of i rows' + (if is_id i found then 1 else 0) ≤ left_of i rows
  unfolding consume_invitation
  consumed_left i none now rows room keeps h =
      subst (λ rs. left_of i rs + 0 ≤ left_of i rows) (ok_inj h) (omega arith)
  consumed_left i (some s) now rows room keeps h =
      let (one, h0) = then_ok (count (fits s now) rows == 1) invalid_invitation h in
      let (same, fits_in) = room s refl in
      subst (λ rs. left_of i rs + (if s.id == i then 1 else 0) ≤ left_of i rows) (ok_inj h0)
        (elim (Bool-cases (s.id == i)) [
          | inl mine ↦
              (let ids : s.id ≡ i = ground arith in
                subst
                  (λ j.
                    left_of j (map (λ r. if fits s now r then use_once s r else r) rows)
                      + (if s.id == j then 1 else 0)
                    ≤ left_of j rows)
                  ids (ground (arith, left_of-use limit s now same fits_in rows keeps)))
          | inr other ↦ rw other (omega (arith, left_of-other i s now other rows))
        ])

  org_consumed_left :
      (i : ℕ) (org : Option OrgGrant) (token : String) (rows : List Invitation)
      {rows' : List Invitation}
      → consume_org org token rows ≡ ok rows'
      → left_of i rows' ≤ left_of i rows
  unfolding consume_org
  org_consumed_left i none token rows h =
      subst (λ rs. left_of i rs ≤ left_of i rows) (ok_inj h) (omega arith)
  org_consumed_left i (some g) token rows h =
      let (one, h0) = then_ok (count (is_grant g token) rows == 1) invalid_invitation h in
      subst (λ rs. left_of i rs ≤ left_of i rows) (ok_inj h0) (left_of-filter i _ rows)

  KeepsLimit-use :
      (s : Invitation) (now : ℕ) (rows : List Invitation)
      → All (KeepsLimit limit) rows
      → All (KeepsLimit limit) (map (λ r. if fits s now r then use_once s r else r) rows)
  KeepsLimit-use s now [] keeps = keeps
  KeepsLimit-use s now (r ∷ rows) (first, rest) = (
    elim (Bool-cases (fits s now r)) [ inl hit ↦ rw hit first | inr miss ↦ rw miss first ],
    KeepsLimit-use s now rows rest,
  )

  KeepsLimit-filter :
      (q : Invitation → Bool) (rows : List Invitation)
      → All (KeepsLimit limit) rows
      → All (KeepsLimit limit) (filter q rows)
  KeepsLimit-filter q [] keeps = keeps
  KeepsLimit-filter q (r ∷ rows) (first, rest) = elim (Bool-cases (q r)) [
    | inl kept ↦ rw kept (first, KeepsLimit-filter q rows rest)
    | inr gone ↦ rw gone (KeepsLimit-filter q rows rest)
  ]

  consumed_keeps :
      (found : Option Invitation) (now : ℕ) (rows : List Invitation) {rows' : List Invitation}
      → All (KeepsLimit limit) rows
      → consume_invitation found now rows ≡ ok rows'
      → All (KeepsLimit limit) rows'
  unfolding consume_invitation
  consumed_keeps none now rows keeps h = subst (All (KeepsLimit limit)) (ok_inj h) keeps
  consumed_keeps (some s) now rows keeps h =
      let (one, h0) = then_ok (count (fits s now) rows == 1) invalid_invitation h in
      subst (All (KeepsLimit limit)) (ok_inj h0) (KeepsLimit-use s now rows keeps)

  org_consumed_keeps :
      (org : Option OrgGrant) (token : String) (rows : List Invitation) {rows' : List Invitation}
      → All (KeepsLimit limit) rows
      → consume_org org token rows ≡ ok rows'
      → All (KeepsLimit limit) rows'
  unfolding consume_org
  org_consumed_keeps none token rows keeps h = subst (All (KeepsLimit limit)) (ok_inj h) keeps
  org_consumed_keeps (some g) token rows keeps h =
      let (one, h0) = then_ok (count (is_grant g token) rows == 1) invalid_invitation h in
      subst (All (KeepsLimit limit)) (ok_inj h0) (KeepsLimit-filter _ rows keeps)

module _ (services : Services) (limit : ℕ → ℕ) where
  pub record Inv (i first : ℕ) (done : List Passed) (t : State) : Type 0 where
    pub budget : uses i done + left_of i t.db.invitations ≤ first
    pub keeps : All (KeepsLimit limit) t.db.invitations
    pub room : All (HasRoom limit) t.passed

  checked-Inv :
      {i first : ℕ} {done : List Passed} {t : State} {p : Passed} (now : ℕ) (request : Request)
      → Inv i first done t
      → check_request services now t.db request ≡ ok p
      → Inv i first done (record t { passed = p ∷ t.passed })
  checked-Inv {p} now request v h = record {
    budget = v.budget;
    keeps = v.keeps;
    room = (
      λ r e.
          (let (found, fresh) =
              code_invitation services now _ request (request_invitation services now _ request h)
                e in
            (All-find (KeepsLimit limit) _ _ v.keeps found, ground arith)),
      v.room,
    );
  }

  committed-Inv :
      {i first : ℕ} {done : List Passed} {t : State} {p : Passed} {db : Db} (now : ℕ)
      (fresh_id : String)
      → Inv i first done t
      → In p t.passed
      → commit services now fresh_id t.db p ≡ ok db
      → Inv i first (p ∷ done) (record t { db = db })
  committed-Inv {i} {t} {p} now fresh_id v known h =
      let c = commit-Committed services now fresh_id t.db p h in
      record {
        budget = omega (
          arith,
          v.budget,
          consumed_left limit i p.invitation now t.db.invitations (All-In _ v.room known) v.keeps
              c.consumed,
          org_consumed_left limit i p.org _ c.rows c.org_consumed,
        );
        keeps =
            org_consumed_keeps limit p.org _ c.rows
              (consumed_keeps limit p.invitation now _ v.keeps c.consumed) c.org_consumed;
        room = v.room;
      }

  Runs-Inv :
      {i first : ℕ} {s : State} {done : List Passed} {t : State}
      → Inv i first [] s
      → Runs services s done t
      → Inv i first done t
  Runs-Inv v idle = v
  Runs-Inv v (checked now request r h) = checked-Inv now request (Runs-Inv v r) h
  Runs-Inv v (committed now fresh_id r known h) = committed-Inv now fresh_id (Runs-Inv v r) known h

  -- Whatever requests run, in whatever order, an invitation makes at most as many accounts as it had
  -- uses left when they began, and each account takes a use from it, if the rows of one id agree on
  -- their limit.
  pub uses_bounded :
      {db : Db} {done : List Passed} {t : State} (i : ℕ)
      → All (KeepsLimit limit) db.invitations
      → Runs services (record { db = db; passed = [] }) done t
      → uses i done + left_of i t.db.invitations ≤ left_of i db.invitations
  uses_bounded i keeps r =
      (Runs-Inv (record { budget = omega arith; keeps = keeps; room = tt }) r).budget
