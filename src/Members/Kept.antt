-- ===== src/Members/Kept.antt =====
-- What a reconcile leaves alone: the members that were removed by hand, and the names that were given.
use docker_zerotier_planet.Common.{
  ℕ, ◌≤◌, String, ◌≡◌, refl, sym, ap, ◌∙◌, subst, inl, inr, Bool, true, false, not, ◌&&◌, Option,
  none, some, List, [], ◌∷◌, arith, str_eq, eq_iff, if◌then◌else◌, Bool-cases, Option-cases, All,
  any, find, filter, has_text, count, All-map,
}
use docker_zerotier_planet.Members.{
  Detail, Row, Db, Naming, is_row, is_stashed, ids_of, revision_of, ids_to_fetch, wants, answers,
  fetch_member_details_batched,
}
use docker_zerotier_planet.Members.Batches.{fetch_member_details_batched-answers}
use docker_zerotier_planet.Members.Find.{find-apply_other, find-apply_same, find-filter_id}
use docker_zerotier_planet.Members.Update.{
  added, apply_detail, apply_details, orphans, remove_orphans, reconcile_network_members,
  cache_detail,
}

-- The controller answers a request for a member with that member.
abbrev pub AnswersOwn : (String → Option Detail) → Type 0
AnswersOwn fetch = (id : String) (d : Detail) → fetch id ≡ some d → d.id ≡ id

All-filter : (p : String → Bool) (ids : List String) → All (λ id. p id ≡ true) (filter p ids)
All-filter p [] = tt
All-filter p (id ∷ ids) = elim (Bool-cases (p id)) [
  | inl kept ↦ rw kept (kept, All-filter p ids)
  | inr gone ↦ rw gone (All-filter p ids)
]

All-answers :
    (fetch : String → Option Detail) (Q : String → Type 0)
    → AnswersOwn fetch
    → (ids : List String) → All Q ids
    → All (λ d. Q d.id) (answers fetch ids)
All-answers fetch Q own [] v = tt
All-answers fetch Q own (id ∷ ids) (first, rest) = elim (Option-cases (fetch id)) [
  | inl failed ↦ rw (failed, answers) (All-answers fetch Q own ids rest)
  | inr (d, found) ↦
      rw (found, answers) (subst Q (sym (own id d found)) first, All-answers fetch Q own ids rest)
]

-- The details of a reconcile are of members that were wanted.
pub details_wanted :
    (fetch : String → Option Detail) (full : Bool) (revisions : List (String × ℕ)) (rows : List Row)
    → AnswersOwn fetch
    → All
        (λ d. wants full (revision_of d.id revisions) (find (is_row d.id) rows) ≡ true)
        (fetch_member_details_batched fetch (ids_to_fetch full revisions rows))
unfolding ids_to_fetch
details_wanted fetch full revisions rows own =
    rw (fetch_member_details_batched-answers fetch (ids_to_fetch full revisions rows)) (
      All-answers fetch (λ id. wants full (revision_of id revisions) (find (is_row id) rows) ≡ true)
        own _ (All-filter _ (ids_of revisions)))

module _ (naming : Naming) (revisions : List (String × ℕ)) (snapshot : List Row) where
  pub find-details_other :
      (id : String) (details : List Detail) (db : Db)
      → All (λ d. str_eq d.id id ≡ false) details
      → find (is_row id) (apply_details naming revisions snapshot details db).rows
        ≡ find (is_row id) db.rows
  unfolding apply_details
  find-details_other id [] db v = refl
  find-details_other id (d ∷ details) db (other, v) =
      find-details_other id details (apply_detail naming revisions snapshot d db) v
      ∙ find-apply_other naming revisions snapshot id d db other

  abbrev pub is_orphan : String → Bool
  is_orphan id = any (λ o. str_eq id o.id) (orphans naming revisions snapshot)

  pub find-remove_orphans :
      (id : String) (db : Db)
      → find (is_row id) (remove_orphans naming revisions snapshot db).rows
        ≡ (if not (is_orphan id) then find (is_row id) db.rows else none)
  unfolding remove_orphans
  find-remove_orphans id db = find-filter_id (λ i. not (is_orphan i)) id db.rows

  -- A named row keeps its name.
  IsNamed : Option String → Option Row → Type 0
  IsNamed name found = (r : Row) × (found ≡ some r) × (r.name ≡ name)

  IsNamed-same :
      (name : Option String) (old : Row) (d : Detail) (db : Db)
      → find (is_row d.id) snapshot ≡ some old
      → has_text old.name ≡ true
      → (r : Row) → find (is_row d.id) db.rows ≡ some r
      → r.name ≡ name
      → IsNamed name (find (is_row d.id) (apply_detail naming revisions snapshot d db).rows)
  unfolding IsNamed added
  IsNamed-same name old d db known named r found same = (
    cache_detail (revision_of d.id revisions) (find (is_row d.id) snapshot) d r,
    find-apply_same naming revisions snapshot d db r (rw (known, added) found),
    rw (known, named) same,
  )

  IsNamed-kept :
      (id : String) (name : Option String) (old : Row) (d : Detail) (db : Db)
      → find (is_row id) snapshot ≡ some old
      → has_text old.name ≡ true
      → IsNamed name (find (is_row id) db.rows)
      → IsNamed name (find (is_row id) (apply_detail naming revisions snapshot d db).rows)
  unfolding IsNamed
  IsNamed-kept id name old d db known named (r, found, same) = elim (Bool-cases (str_eq d.id id)) [
    | inr other ↦ (r, find-apply_other naming revisions snapshot id d db other ∙ found, same)
    | inl mine ↦
        (let eq : d.id ≡ id = (eq_iff d.id id).0 mine in
          subst
            (λ i. IsNamed name (find (is_row i) (apply_detail naming revisions snapshot d db).rows))
            eq
            (IsNamed-same name old d db
              (subst (λ i. find (is_row i) snapshot ≡ some old) (sym eq) known) named r
              (subst (λ i. find (is_row i) db.rows ≡ some r) (sym eq) found) same))
  ]

  IsNamed-details :
      (id : String) (name : Option String) (old : Row) (details : List Detail) (db : Db)
      → find (is_row id) snapshot ≡ some old
      → has_text old.name ≡ true
      → IsNamed name (find (is_row id) db.rows)
      → IsNamed name (find (is_row id) (apply_details naming revisions snapshot details db).rows)
  unfolding apply_details
  IsNamed-details id name old [] db known named v = v
  IsNamed-details id name old (d ∷ details) db known named v =
      IsNamed-details id name old details (apply_detail naming revisions snapshot d db) known named
        (IsNamed-kept id name old d db known named v)

none_left :
    (id : String) (q : Row → Bool) (rows : List Row)
    → count (is_row id) rows ≡ 0
    → any (λ o. str_eq id o.id) (filter q rows) ≡ false
none_left id q [] h = refl
none_left id q (r ∷ rows) h = ground (arith, eq_iff r.id id, eq_iff id r.id, none_left id q rows)

and_false : (b : Bool) → (not b && false) ≡ false
and_false b = ground arith

module _ (naming : Naming) (fetch : String → Option Detail) (full : Bool)
    (revisions : List (String × ℕ)) where
  -- A member whose row has a name that is not blank keeps it, if a reconcile keeps the row at all, whatever
  -- the controller calls it.
  pub reconcile_keeps_name :
      (db : Db) (id : String) (old new : Row)
      → find (is_row id) db.rows ≡ some old
      → has_text old.name ≡ true
      → find (is_row id) (reconcile_network_members naming fetch full revisions db).rows ≡ some new
      → new.name ≡ old.name
  unfolding reconcile_network_members IsNamed
  reconcile_keeps_name db id old new known named after =
      let details = fetch_member_details_batched fetch (ids_to_fetch full revisions db.rows) in
      let (r, found, same) =
        IsNamed-details naming revisions db.rows id old.name old details db known named
          (old, known, refl) in
      let removed =
        find-remove_orphans naming revisions db.rows id
          (apply_details naming revisions db.rows details db) in
      elim (Bool-cases (is_orphan naming revisions db.rows id)) [
        | inl orphan ↦
            (let gone : none ≡ some new = sym (removed ∙ rw orphan refl) ∙ after in cc gone)
        | inr stays ↦
            (let eq : some r ≡ some new = sym (removed ∙ rw stays found) ∙ after in
              let row_eq : r ≡ new = cc eq in ap (λ (x : Row). x.name) (sym row_eq) ∙ same)
      ]

  stashed_orphan :
      (id : String) (rows : List Row) (r : Row)
      → count (is_row id) rows ≤ 1
      → find (is_row id) rows ≡ some r
      → is_stashed r ≡ true
      → is_orphan naming revisions rows id ≡ false
  stashed_orphan id [] r one found stashed = refl
  stashed_orphan id (x ∷ rows) r one found stashed = elim (Bool-cases (str_eq x.id id)) [
    | inl hit ↦
        (let first : some x ≡ some r = rw hit at found in
          let eq : x ≡ r = cc first in
          let off : is_stashed x ≡ true = rw eq stashed in
          rw (off, and_false (any (str_eq x.id) (ids_of revisions)))
            (none_left id _ rows (ground (arith, hit, one))))
    | inr miss ↦ ground (
      arith,
      miss,
      eq_iff x.id id,
      eq_iff id x.id,
      stashed_orphan id rows r (ground (arith, miss, one)) (rw miss at found) stashed,
    )
  ]

  stashed_unwanted :
      (db : Db) (id : String) (r : Row)
      → find (is_row id) db.rows ≡ some r
      → is_stashed r ≡ true
      → (d : Detail) → wants full (revision_of d.id revisions) (find (is_row d.id) db.rows) ≡ true
      → str_eq d.id id ≡ false
  stashed_unwanted db id r found stashed d wanted = elim (Bool-cases (str_eq d.id id)) [
    | inr other ↦ other
    | inl mine ↦
        (let eq : id ≡ d.id = sym ((eq_iff d.id id).0 mine) in
          let found' : find (is_row d.id) db.rows ≡ some r =
            subst (λ i. find (is_row i) db.rows ≡ some r) eq found in
          let no : false ≡ true = rw (found', stashed) at wanted in cc no)
  ]

  -- A member that was stashed or deleted for good is left as it is, found under its id, which is unique: it
  -- is not fetched, and not removed where the controller does not know it. The controller answers a
  -- request for a member with that member.
  pub reconcile_keeps_stashed :
      (db : Db) (id : String) (r : Row)
      → AnswersOwn fetch
      → count (is_row id) db.rows ≤ 1
      → find (is_row id) db.rows ≡ some r
      → is_stashed r ≡ true
      → find (is_row id) (reconcile_network_members naming fetch full revisions db).rows ≡ some r
  unfolding reconcile_network_members
  reconcile_keeps_stashed db id r own one found stashed =
      let details = fetch_member_details_batched fetch (ids_to_fetch full revisions db.rows) in
      let others =
        All-map _ _ details (stashed_unwanted db id r found stashed)
          (details_wanted fetch full revisions db.rows own) in
      find-remove_orphans naming revisions db.rows id
        (apply_details naming revisions db.rows details db)
      ∙ rw (stashed_orphan id db.rows r one found stashed)
          (find-details_other naming revisions db.rows id details db others ∙ found)
