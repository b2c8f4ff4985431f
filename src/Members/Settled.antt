-- ===== src/Members/Settled.antt =====
-- A reconcile that gets all its answers leaves nothing to fetch for the next one.
use docker_zerotier_planet.Common.{
  ℕ, String, ◌≡◌, refl, sym, ap, ◌∙◌, subst, ◌⊎◌, inl, inr, Bool, true, false, not, ◌&&◌, Option,
  none, some, List, [], ◌∷◌, arith, str_eq, eq_iff, Bool-cases, Option-cases, In, any, find, filter,
  here, eq_refl, there,
}
use docker_zerotier_planet.Members.{
  Detail, Row, Db, Naming, is_row, is_stashed, ids_of, revision_of, ids_to_fetch, wants, answers,
  fetch_member_details_batched, needs_fetch, Version, is_missing, or_unknown,
}
use docker_zerotier_planet.Members.Batches.{fetch_member_details_batched-answers}
use docker_zerotier_planet.Members.Find.{find-apply_other, find-apply_same, find-append_new}
use docker_zerotier_planet.Members.Kept.{AnswersOwn, find-remove_orphans, is_orphan}
use docker_zerotier_planet.Members.Update.{
  added, add_network_member, apply_detail, apply_details, reconcile_network_members,
}

filter_none :
    (p : String → Bool) (ids : List String)
    → ((id : String) → In id ids → p id ≡ false)
    → filter p ids ≡ []
filter_none p [] h = refl
filter_none p (id ∷ ids) h = rw (h id (here refl)) (filter_none p ids (λ i m. h i (there m)))

any-answers :
    (fetch : String → Option Detail) (p : String → Bool) (id : String) (ids : List String)
    (d : Detail)
    → In id ids
    → p id ≡ true
    → fetch id ≡ some d
    → d.id ≡ id
    → any (λ e. str_eq e.id id) (answers fetch (filter p ids)) ≡ true
any-answers fetch p id [] d m wanted found own = elim m [ ]
any-answers fetch p id (i ∷ ids) d (here e) wanted found own =
    rw (sym e, wanted, found, own, eq_refl id) refl
any-answers fetch p id (i ∷ ids) d (there m) wanted found own =
    let rest = any-answers fetch p id ids d m wanted found own in
    elim (Bool-cases (p i)) [
      | inr unwanted ↦ rw unwanted rest
      | inl kept ↦ elim (Option-cases (fetch i)) [
        | inl failed ↦ rw (kept, answers, failed) rest
        | inr (d', other) ↦ rw (kept, answers, other) (ground (arith, rest))
      ]
    ]

revision_known :
    (id : String) (revisions : List (String × ℕ))
    → In id (ids_of revisions)
    → (n : ℕ) × (revision_of id revisions ≡ some n)
revision_known id [] m = elim m [ ]
revision_known id ((i, n) ∷ revisions) (here e) = (n, rw (e, eq_refl i) refl)
revision_known id ((i, n) ∷ revisions) (there m) = elim (Bool-cases (str_eq i id)) [
  | inl same ↦ (n, rw same refl)
  | inr differ ↦ (let (k, found) = revision_known id revisions m in (k, rw differ found))
]

version_known : (v : Option Version) → is_missing (or_unknown v) ≡ false
version_known none = refl
version_known (some v) = refl

any_found :
    (p : Row → Bool) (rows : List Row) → any p rows ≡ true → (r : Row) × (find p rows ≡ some r)
any_found p [] h = cc h
any_found p (r ∷ rows) h = elim (Bool-cases (p r)) [
  | inl hit ↦ (r, rw hit refl)
  | inr miss ↦ (let (x, found) = any_found p rows (rw miss at h) in (x, rw miss found))
]

module _ (naming : Naming) (revisions : List (String × ℕ)) (snapshot : List Row) where
  IsThere : String → Db → Type 0
  IsThere id db = (r : Row) × (find (is_row id) db.rows ≡ some r)

  -- The row is there, or will be added with its detail.
  IsPresent : String → Db → Type 0
  IsPresent id db = (find (is_row id) snapshot ≡ none) ⊎ IsThere id db

  IsFresh : String → Db → Type 0
  IsFresh id db =
      (r : Row) × (find (is_row id) db.rows ≡ some r)
      × (needs_fetch false (revision_of id revisions) r ≡ false)

  added-IsThere_absent :
      (d : Detail) (db : Db)
      → naming.creates d.id ≡ true
      → find (is_row d.id) snapshot ≡ none
      → IsThere d.id (added naming revisions snapshot d db)
  unfolding IsThere added add_network_member
  added-IsThere_absent d db created absent = elim (Bool-cases (any (is_row d.id) db.rows)) [
    | inl there_is ↦
        rw (absent, added, created, there_is) (any_found (is_row d.id) db.rows there_is)
    | inr none_yet ↦
        rw (absent, added, created, none_yet)
          (_, find-append_new (is_row d.id) db.rows _ none_yet (eq_refl d.id))
  ]

  added-IsThere :
      (d : Detail) (db : Db)
      → naming.creates d.id ≡ true
      → IsPresent d.id db
      → IsThere d.id (added naming revisions snapshot d db)
  unfolding IsPresent IsThere added
  added-IsThere d db created (inr (r, found)) = elim (Option-cases (find (is_row d.id) snapshot)) [
    | inr (old, known) ↦ rw (known, added) (r, found)
    | inl absent ↦ added-IsThere_absent d db created absent
  ]
  added-IsThere d db created (inl absent) = added-IsThere_absent d db created absent

  IsFresh-same :
      (d : Detail) (db : Db)
      → In d.id (ids_of revisions)
      → naming.creates d.id ≡ true
      → IsPresent d.id db
      → IsFresh d.id (apply_detail naming revisions snapshot d db)
  unfolding IsFresh IsThere
  IsFresh-same d db m created present =
      let (r, found) = added-IsThere d db created present in
      let (n, revision) = revision_known d.id revisions m in
      (
        _,
        find-apply_same naming revisions snapshot d db r found,
        rw (revision, version_known d.v_major) (ground arith),
      )

  IsFresh-IsPresent : (id : String) (db : Db) → IsFresh id db → IsPresent id db
  unfolding IsFresh IsPresent IsThere
  IsFresh-IsPresent id db (r, found, fresh) = inr (r, found)

  there_or_absent : (id : String) (db : Db) → db.rows ≡ snapshot → IsPresent id db
  unfolding IsPresent IsThere
  there_or_absent id db same = elim (Option-cases (find (is_row id) snapshot)) [
    | inl absent ↦ inl absent
    | inr (r, found) ↦ inr (r, ap (find (is_row id)) same ∙ found)
  ]

  IsPresent-other :
      (id : String) (d : Detail) (db : Db)
      → str_eq d.id id ≡ false
      → IsPresent id db
      → IsPresent id (apply_detail naming revisions snapshot d db)
  unfolding IsPresent IsThere
  IsPresent-other id d db other (inl absent) = inl absent
  IsPresent-other id d db other (inr (r, found)) =
      inr (r, find-apply_other naming revisions snapshot id d db other ∙ found)

  IsFresh-other :
      (id : String) (d : Detail) (details : List Detail) (db : Db)
      → str_eq d.id id ≡ false
      → IsFresh id db ⊎ (any (λ e. str_eq e.id id) (d ∷ details) ≡ true)
      → IsFresh id (apply_detail naming revisions snapshot d db)
        ⊎ (any (λ e. str_eq e.id id) details ≡ true)
  unfolding IsFresh
  IsFresh-other id d details db other (inl (r, found, fresh)) =
      inl (r, find-apply_other naming revisions snapshot id d db other ∙ found, fresh)
  IsFresh-other id d details db other (inr h) = inr (rw other at h)

  IsFresh-details :
      (id : String) (details : List Detail) (db : Db)
      → In id (ids_of revisions)
      → naming.creates id ≡ true
      → IsPresent id db
      → IsFresh id db ⊎ (any (λ d. str_eq d.id id) details ≡ true)
      → IsFresh id (apply_details naming revisions snapshot details db)
  unfolding apply_details
  IsFresh-details id [] db m created present (inl fresh) = fresh
  IsFresh-details id [] db m created present (inr h) = cc h
  IsFresh-details id (d ∷ details) db m created present h = elim (Bool-cases (str_eq d.id id)) [
    | inl same ↦
        (let eq : d.id ≡ id = (eq_iff d.id id).0 same in
          let fresh : IsFresh id (apply_detail naming revisions snapshot d db) =
            subst (λ i. IsFresh i (apply_detail naming revisions snapshot d db)) eq
              (IsFresh-same d db (subst (λ i. In i (ids_of revisions)) (sym eq) m)
                (subst (λ i. naming.creates i ≡ true) (sym eq) created)
                (subst (λ i. IsPresent i db) (sym eq) present)) in
          IsFresh-details id details (apply_detail naming revisions snapshot d db) m created
            (IsFresh-IsPresent id _ fresh) (inl fresh))
    | inr other ↦
        IsFresh-details id details (apply_detail naming revisions snapshot d db) m created
          (IsPresent-other id d db other present) (IsFresh-other id d details db other h)
  ]

known_id : (id : String) (ids : List String) → In id ids → any (str_eq id) ids ≡ true
known_id id [] m = elim m [ ]
known_id id (i ∷ ids) (here e) = rw (sym e, eq_refl id) refl
known_id id (i ∷ ids) (there m) = ground (arith, known_id id ids m)

known_none :
    (id : String) (ids : List String)
    → any (str_eq id) ids ≡ true
    → (rows : List Row)
    → any
        (λ o. str_eq id o.id)
        (filter (λ r. not (any (str_eq r.id) ids) && not (is_stashed r)) rows)
      ≡ false
known_none id ids known [] = refl
known_none id ids known (r ∷ rows) = elim (Bool-cases (str_eq id r.id)) [
  | inl same ↦
      (let hit : any (str_eq r.id) ids ≡ true =
          subst (λ i. any (str_eq i) ids ≡ true) ((eq_iff id r.id).0 same) known in
        rw hit (known_none id ids known rows))
  | inr differ ↦ ground (arith, differ, known_none id ids known rows)
]

still_fresh :
    (full : Bool) (revision : Option ℕ) (r : Row)
    → needs_fetch full revision r ≡ false
    → needs_fetch false revision r ≡ false
still_fresh full revision r h = ground arith

module _ (naming : Naming) (fetch : String → Option Detail) (full : Bool)
    (revisions : List (String × ℕ)) where
  unwanted-IsFresh :
      (id : String) (db : Db)
      → wants full (revision_of id revisions) (find (is_row id) db.rows) ≡ false
      → IsFresh naming revisions db.rows id db
  unfolding IsFresh
  unwanted-IsFresh id db h = elim (Option-cases (find (is_row id) db.rows)) [
    | inl absent ↦ (let no : true ≡ false = rw absent at h in cc no)
    | inr (r, found) ↦ (r, found, still_fresh full (revision_of id revisions) r (rw found at h))
  ]

  not_orphan :
      (id : String) (rows : List Row)
      → In id (ids_of revisions)
      → is_orphan naming revisions rows id ≡ false
  not_orphan id rows m = known_none id (ids_of revisions) (known_id id (ids_of revisions) m) rows

  -- After a reconcile in which the controller answered for every member that it listed, each with that
  -- member, and the rows of the new ones could be created, nothing is left to fetch: the next reconcile with
  -- the same revisions asks for no detail.
  pub reconcile_settles :
      (db : Db)
      → AnswersOwn fetch
      → ((id : String) → In id (ids_of revisions) → (d : Detail) × (fetch id ≡ some d))
      → ((id : String) → In id (ids_of revisions) → naming.creates id ≡ true)
      → ids_to_fetch false revisions (reconcile_network_members naming fetch full revisions db).rows
        ≡ []
  unfolding ids_to_fetch reconcile_network_members IsFresh
  reconcile_settles db own answered created = filter_none _ (ids_of revisions) (λ id m.
      (let (r, found, fresh) = after id m in
        rw (find-remove_orphans naming revisions db.rows id _, not_orphan id db.rows m, found)
          fresh))
    where
      details : List Detail
      details = fetch_member_details_batched fetch (ids_to_fetch full revisions db.rows)

      after :
          (id : String)
          → In id (ids_of revisions)
          → IsFresh naming revisions db.rows id (apply_details naming revisions db.rows details db)
      after id m =
          elim (Bool-cases (wants full (revision_of id revisions) (find (is_row id) db.rows))) [
            | inr unwanted ↦
                (let fresh = unwanted-IsFresh id db unwanted in
                  IsFresh-details naming revisions db.rows id details db m (created id m)
                    (IsFresh-IsPresent naming revisions db.rows id db fresh) (inl fresh))
            | inl wanted ↦
                (let (d, found) = answered id m in
                  IsFresh-details naming revisions db.rows id details db m (created id m)
                    (there_or_absent naming revisions db.rows id db refl)
                    (inr (
                      rw
                        (fetch_member_details_batched-answers fetch
                          (ids_to_fetch full revisions db.rows))
                        (any-answers fetch _ id (ids_of revisions) d m wanted found
                          (own id d found)))))
          ]
