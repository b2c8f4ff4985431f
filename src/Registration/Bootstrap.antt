-- ===== src/Registration/Bootstrap.antt =====
-- A new installation: the first account is the administrator's, and it closes the registration.
use docker_zerotier_planet.Common.{
  ℕ, String, ◌≡◌, refl, sym, ◌∙◌, subst, ◌⊎◌, inl, inr, Bool, true, false, Option, none, some, List,
  [], ◌∷◌, str_eq, ltb, Bool-cases, Option-cases, ok, All, In, ok_inj, All-In, else_ok,
}
use docker_zerotier_planet.Access.{admin}
use docker_zerotier_planet.Account.{User}
use docker_zerotier_planet.Registration.{
  OrgInvitation, Db, Request, Services, Passed, check_request, OrgPayload, trimmed, find_org,
  validate_organization_token, judge_payload, OrgGrant, invalid_token_data,
}
use docker_zerotier_planet.Registration.Commit.{
  consume_invitation, consume_org, commit, new_user, close_registration, State, Runs, idle, checked,
  committed,
}
use docker_zerotier_planet.Registration.Laws.{
  commit-Committed, code_invitation, request_invitation, request_org,
}

find_org-none :
    (services : Services) (now : ℕ) (payload : OrgPayload) (email token : String)
    (orgs : List OrgInvitation)
    → find_org services now payload email token [] orgs ≡ none
find_org-none services now payload email token [] = refl
find_org-none services now payload email token (o ∷ orgs) =
    find_org-none services now payload email token orgs

module _ (services : Services) where
  pub record IsPlain (p : Passed) : Type 0 where
    pub no_invitation : p.invitation ≡ none
    pub no_org : p.org ≡ none

  no_payload :
      (now : ℕ) (db : Db) (token email : String) (payload : Option OrgPayload)
      {org : Option OrgGrant}
      → db.invitations ≡ []
      → judge_payload services now db token email payload ≡ ok org
      → org ≡ none
  unfolding judge_payload
  no_payload now db token email none empty h = cc h
  no_payload now db token email (some payload) empty h = elim (Option-cases payload.email) [
    | inl absent ↦ (let none_ok = rw absent at h in cc none_ok)
    | inr (bound, present) ↦
        (let (live, h0) =
            else_ok (ltb payload.expires_at now) invalid_token_data (rw present at h) in
          let nothing : find_org services now payload bound token db.invitations db.org_invitations
              ≡ none =
            subst (λ rows. find_org services now payload bound token rows db.org_invitations ≡ none)
              (sym empty) (find_org-none services now payload bound token db.org_invitations) in
          let none_ok = rw nothing at h0 in cc none_ok)
  ]

  no_grant :
      (now : ℕ) (db : Db) (token : Option String) (email : String) {org : Option OrgGrant}
      → db.invitations ≡ []
      → validate_organization_token services now db token email ≡ ok org
      → org ≡ none
  unfolding validate_organization_token
  no_grant now db token email empty h = elim (Bool-cases (str_eq (trimmed token) "")) [
    | inl blank ↦ sym (ok_inj (rw blank at h))
    | inr given ↦ no_payload now db (trimmed token) email _ empty (rw given at h)
  ]

  request-IsPlain :
      (now : ℕ) (db : Db) (request : Request) {p : Passed}
      → db.invitations ≡ []
      → check_request services now db request ≡ ok p
      → IsPlain p
  request-IsPlain now db request {p} empty h = record {
    no_invitation = elim (Option-cases p.invitation) [
      | inl absent ↦ absent
      | inr (j, present) ↦
          (let (found, fresh) =
              code_invitation services now db request (request_invitation services now db request h)
                present in
            (let gone : none ≡ some j = rw empty at found in cc gone))
    ];
    no_org =
        no_grant now db request.organization_token request.email empty
          (request_org services now db request h);
  }

  -- Nobody is there and nothing is spent, or the administrator is and the registration is closed.
  pub record Inv (t : State) : Type 0 where
    pub no_rows : t.db.invitations ≡ []
    pub plain : All IsPlain t.passed
    pub once :
        (t.db.users ≡ [])
        ⊎ ((t.db.settings ≡ some false) × (u : User) × (t.db.users ≡ u ∷ []) × (u.role ≡ admin))

  first_closes :
      (settings : Option Bool) {settings' : Option Bool}
      → close_registration 0 settings ≡ ok settings'
      → settings' ≡ some false
  unfolding close_registration
  first_closes none h = cc h
  first_closes (some enabled) h = sym (ok_inj h)

  committed-Inv :
      {t : State} {p : Passed} {db : Db} (now : ℕ) (fresh_id : String)
      → Inv t
      → In p t.passed
      → commit services now fresh_id t.db p ≡ ok db
      → Inv (record t { db = db })
  unfolding consume_invitation consume_org
  committed-Inv {t} {p} {db} now fresh_id v known h =
      let c = commit-Committed services now fresh_id t.db p h in
      let plain = All-In IsPlain v.plain known in
      record {
        no_rows =
            sym (ok_inj (rw plain.no_org at c.org_consumed))
            ∙ sym (ok_inj (rw plain.no_invitation at c.consumed))
            ∙ v.no_rows;
        plain = v.plain;
        once = inr (elim v.once [
          | inl nobody ↦ (
            first_closes t.db.settings (rw nobody at c.closed),
            new_user services now fresh_id t.db p,
            c.users_eq ∙ rw nobody refl,
            rw (nobody, plain.no_invitation) refl,
          )
          | inr (closed, _, _, _) ↦
              (let no : false ≡ true =
                  rw (closed, plain.no_invitation, plain.no_org) at c.allowed in
                cc no)
        ]);
      }

  Runs-Inv : {s : State} {done : List Passed} {t : State} → Inv s → Runs services s done t → Inv t
  Runs-Inv v idle = v
  Runs-Inv v (checked now request r h) =
      let w = Runs-Inv v r in
      record {
        no_rows = w.no_rows;
        plain = (request-IsPlain now _ request w.no_rows h, w.plain);
        once = w.once;
      }
  Runs-Inv v (committed now fresh_id r known h) = committed-Inv now fresh_id (Runs-Inv v r) known h

  -- On a new installation without invitations, whatever requests run and in whatever order, at most one
  -- account is made; it is an administrator's, and the registration is closed once it is there.
  pub bootstrap_once :
      {db : Db} {done : List Passed} {t : State}
      → db.users ≡ []
      → db.invitations ≡ []
      → Runs services (record { db = db; passed = [] }) done t
      → (t.db.users ≡ [])
        ⊎ ((t.db.settings ≡ some false) × (u : User) × (t.db.users ≡ u ∷ []) × (u.role ≡ admin))
  bootstrap_once nobody no_rows r =
      (Runs-Inv (record { no_rows = no_rows; plain = tt; once = inl nobody }) r).once
