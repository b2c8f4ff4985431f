-- ===== src/Registration/Laws.antt =====
-- What a transaction that succeeds has done, and what the checks guarantee of the invitation.
use docker_zerotier_planet.Common.{
  ℕ, String, ◌≡◌, refl, sym, ap, ◌∙◌, subst, inl, inr, true, false, ◌&&◌, ◌||◌, Option, none, some,
  List, [], ◌∷◌, ◌++◌, str_eq, Bool-cases, ok, any, length, then_ok, >>=-eq-ok, else_ok, ok_inj,
}
use docker_zerotier_planet.Account.{upsert_credential_account}
use docker_zerotier_planet.Registration.{
  Invitation, Db, Request, Services, Passed, may_register, check_request, judge_invitation,
  check_code, find_invitation, trimmed, validate_organization_token, is_spent, no_code,
}
use docker_zerotier_planet.Registration.Commit.{
  consume_invitation, consume_org, create_user, commit, new_user, close_registration, cascade,
}

-- The parts of a transaction that succeeded.
pub record Committed (services : Services) (now : ℕ) (fresh_id : String) (db : Db) (p : Passed)
    (db' : Db) : Type 0 where
  pub rows : List Invitation
  pub allowed : may_register services now db.settings p.invitation p.org ≡ true
  pub consumed : consume_invitation p.invitation now db.invitations ≡ ok rows
  pub org_consumed :
      consume_org p.org (trimmed p.request.organization_token) rows ≡ ok db'.invitations
  pub new_id : any (λ u. str_eq fresh_id u.id || str_eq p.request.email u.email) db.users ≡ false
  pub closed : close_registration (length db.users) db.settings ≡ ok db'.settings
  pub users_eq : db'.users ≡ db.users ++ new_user services now fresh_id db p ∷ []
  pub orgs_eq : db'.org_invitations ≡ cascade p.org db.org_invitations
  pub accounts_eq :
      db'.accounts
      ≡ upsert_credential_account fresh_id (services.hash_password p.request.password) db.accounts

module _ (services : Services) (now : ℕ) (fresh_id : String) where
  pub commit-Committed :
      (db : Db) (p : Passed) {db' : Db}
      → commit services now fresh_id db p ≡ ok db'
      → Committed services now fresh_id db p db'
  unfolding commit create_user
  commit-Committed db p {db'} h =
      let (allowed, h0) = then_ok _ _ h in
      let (rows, consumed, h1) = >>=-eq-ok h0 in
      let (invitations, org_consumed, h2) = >>=-eq-ok h1 in
      let (new_id, h3) = else_ok _ _ h2 in
      let (settings, closed, h4) = >>=-eq-ok h3 in
      subst (Committed services now fresh_id db p) (ok_inj h4) (record {
        rows = rows;
        allowed = allowed;
        consumed = consumed;
        org_consumed = org_consumed;
        new_id = new_id;
        closed = closed;
        users_eq = refl;
        orgs_eq = refl;
        accounts_eq = refl;
      })

module _ (services : Services) (now : ℕ) where
  judged :
      (request : Request) (found : Option Invitation) {i : Option Invitation}
      → judge_invitation services now request found ≡ ok i
      → (j : Invitation) × (found ≡ some j)
        × (i ≡ some j)
        × (is_spent services now request.email j ≡ false)
  unfolding judge_invitation
  judged request none h = cc h
  judged request (some j) h =
      let (fresh, h0) = else_ok _ _ h in
      let (signed, h1) = then_ok _ _ h0 in (j, refl, sym (ok_inj h1), fresh)

  -- The invitation that a passed request brings was in the table and not spent.
  pub code_invitation :
      (db : Db) (request : Request) {i : Option Invitation} {j : Invitation}
      → check_code services now db request ≡ ok i
      → i ≡ some j
      → (find_invitation services now
            (trimmed request.token)
            (trimmed request.invitation_code)
            db.invitations
          ≡ some j)
        × (is_spent services now request.email j ≡ false)
  unfolding check_code
  code_invitation db request {i} {j} h e =
      elim (Bool-cases
        (str_eq (trimmed request.invitation_code) "" && str_eq (trimmed request.token) "")) [
          | inl blank ↦ (let gone : none ≡ i = ok_inj (rw blank at h) in cc (gone, e))
          | inr given ↦
              (let (whole, h0) =
                  else_ok
                    (str_eq (trimmed request.invitation_code) ""
                      || str_eq (trimmed request.token) "")
                    no_code (rw given at h) in
                let (k, found, i_eq, fresh) = judged request _ h0 in
                let same : k ≡ j = cc (i_eq, e) in
                subst
                  (λ (x : Invitation).
                    (find_invitation services now (trimmed request.token)
                        (trimmed request.invitation_code) db.invitations
                      ≡ some x)
                    × (is_spent services now request.email x ≡ false))
                  same (found, fresh))
        ]

  pub request_invitation :
      (db : Db) (request : Request) {p : Passed}
      → check_request services now db request ≡ ok p
      → check_code services now db request ≡ ok p.invitation
  unfolding check_request
  request_invitation db request {p} h =
      let (expires_at, e0, h0) = >>=-eq-ok h in
      let (org, e1, h1) = >>=-eq-ok h0 in
      let (invitation, e2, h2) = >>=-eq-ok h1 in
      let (allowed, h3) = then_ok _ _ h2 in
      let (u, e4, h4) = >>=-eq-ok h3 in e2 ∙ ap (λ (q : Passed). ok q.invitation) (ok_inj h4)

  pub request_org :
      (db : Db) (request : Request) {p : Passed}
      → check_request services now db request ≡ ok p
      → validate_organization_token services now db request.organization_token request.email
        ≡ ok p.org
  unfolding check_request
  request_org db request {p} h =
      let (expires_at, e0, h0) = >>=-eq-ok h in
      let (org, e1, h1) = >>=-eq-ok h0 in
      let (invitation, e2, h2) = >>=-eq-ok h1 in
      let (allowed, h3) = then_ok _ _ h2 in
      let (u, e4, h4) = >>=-eq-ok h3 in e1 ∙ ap (λ (q : Passed). ok q.org) (ok_inj h4)
