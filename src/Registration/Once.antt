-- ===== src/Registration/Once.antt =====
-- How many accounts the invitation of an organization makes.
use docker_zerotier_planet.Common.{
  ℕ, ◌+◌, ◌≤◌, String, ◌≡◌, refl, sym, ap, ◌∙◌, subst, inl, inr, Bool, false, not, ◌&&◌, Option,
  none, some, List, [], arith, str_eq, eq_iff, ◌==◌, if◌then◌else◌, Bool-cases, count, ok, ok_inj,
  then_ok, count-map_eq, filter, count-filtered_out, count-filter_le,
}
use docker_zerotier_planet.Registration.{
  Invitation, Db, Services, Passed, OrgGrant, trimmed, invalid_invitation,
}
use docker_zerotier_planet.Registration.Commit.{
  consume_invitation, consume_org, fits, use_once, is_grant, State, Runs, idle, checked, committed,
}
use docker_zerotier_planet.Registration.Laws.{commit-Committed}

abbrev pub is_row : ℕ → String → Invitation → Bool
is_row i token r = r.id == i && str_eq r.token token

abbrev is_org : ℕ → Option OrgGrant → Bool
is_org i none = false
is_org i (some grant) = grant.invitation.id == i

-- The accounts that were made with the invitation of an organization.
abbrev pub org_uses : ℕ → String → List Passed → ℕ
org_uses i token done =
    count (λ p. is_org i p.org && str_eq (trimmed p.request.organization_token) token) done

used_rows :
    (i : ℕ) (token : String) (found : Option Invitation) (now : ℕ) (rows : List Invitation)
    {rows' : List Invitation}
    → consume_invitation found now rows ≡ ok rows'
    → count (is_row i token) rows' ≡ count (is_row i token) rows
unfolding consume_invitation
used_rows i token none now rows h = ap (count (is_row i token)) (sym (ok_inj h))
used_rows i token (some s) now rows h =
    let (one, h0) = then_ok (count (fits s now) rows == 1) invalid_invitation h in
    ap (count (is_row i token)) (sym (ok_inj h0))
    ∙ count-map_eq (is_row i token) (λ r. if fits s now r then use_once s r else r)
        (λ r. elim (Bool-cases (fits s now r)) [ inl hit ↦ rw hit refl | inr miss ↦ rw miss refl ])
        rows

deleted_rows :
    (i : ℕ) (token : String) (org : Option OrgGrant) (given : String) (rows : List Invitation)
    {rows' : List Invitation}
    → consume_org org given rows ≡ ok rows'
    → (if is_org i org && str_eq given token then 1 else 0) + count (is_row i token) rows'
      ≤ count (is_row i token) rows
unfolding consume_org
deleted_rows i token none given rows h =
    subst (λ rs. 0 + count (is_row i token) rs ≤ count (is_row i token) rows) (ok_inj h)
      (omega arith)
deleted_rows i token (some g) given rows h =
    let (one, h0) = then_ok (count (is_grant g given) rows == 1) invalid_invitation h in
    subst
      (λ rs.
        (if g.invitation.id == i && str_eq given token then 1 else 0) + count (is_row i token) rs
        ≤ count (is_row i token) rows)
      (ok_inj h0)
      (elim (Bool-cases (g.invitation.id == i && str_eq given token)) [
        | inl mine ↦
            (let ids : g.invitation.id ≡ i = ground arith in
              let tokens : given ≡ token = ground (arith, eq_iff given token) in
              let one_row : count (is_grant g given) rows ≡ 1 = ground arith in
              rw mine (
                subst
                  (λ j.
                    1 + count (is_row j token) (filter (λ r. not (is_grant g given r)) rows)
                    ≤ count (is_row j token) rows)
                  ids
                  (subst
                    (λ t.
                      1
                        + count (is_row g.invitation.id t)
                            (filter (λ r. not (is_grant g given r)) rows)
                      ≤ count (is_row g.invitation.id t) rows)
                    tokens (omega (arith, one_row, count-filtered_out (is_grant g given) rows)))))
        | inr other ↦
            rw other
              (omega (arith, count-filter_le (is_row i token) (λ r. not (is_grant g given r)) rows))
      ])

module _ (services : Services) where
  -- Whatever requests run, in whatever order, the invitation of an organization makes at most as many
  -- accounts as it has rows, which is one, since ids are unique.
  pub org_uses_bounded :
      {db : Db} {done : List Passed} {t : State} (i : ℕ) (token : String)
      → Runs services (record { db = db; passed = [] }) done t
      → org_uses i token done + count (is_row i token) t.db.invitations
        ≤ count (is_row i token) db.invitations
  org_uses_bounded i token idle = omega arith
  org_uses_bounded i token (checked now request r h) = org_uses_bounded i token r
  org_uses_bounded i token (committed {p} now fresh_id r known h) =
      let c = commit-Committed services now fresh_id _ p h in
      omega (
        arith,
        org_uses_bounded i token r,
        used_rows i token p.invitation now _ c.consumed,
        deleted_rows i token p.org (trimmed p.request.organization_token) c.rows c.org_consumed,
      )
