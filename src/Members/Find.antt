-- ===== src/Members/Find.antt =====
-- How a reconcile changes the row that is found under an id.
use docker_zerotier_planet.Common.{
  ℕ, String, ◌≡◌, refl, ap, ◌∙◌, inl, inr, Bool, true, false, none, some, List, [], ◌∷◌, ◌++◌, map,
  arith, str_eq, eq_iff, if◌then◌else◌, Bool-cases, Option-cases, find, any, filter, find-map-some,
  find_holds,
}
use docker_zerotier_planet.Members.{Detail, Row, Db, Naming, is_row, revision_of}
use docker_zerotier_planet.Members.Update.{add_network_member, cache_detail, added, apply_detail}

find-append_other :
    (p : Row → Bool) (rows : List Row) (x : Row)
    → p x ≡ false
    → find p (rows ++ x ∷ []) ≡ find p rows
find-append_other p [] x h = rw h refl
find-append_other p (r ∷ rows) x h = ground (arith, find-append_other p rows x h)

pub find-append_new :
    (p : Row → Bool) (rows : List Row) (x : Row)
    → any p rows ≡ false
    → p x ≡ true
    → find p (rows ++ x ∷ []) ≡ some x
find-append_new p [] x h k = rw k refl
find-append_new p (r ∷ rows) x h k = ground (arith, find-append_new p rows x)

find-map_other :
    (p : Row → Bool) (g : Row → Row)
    → ((r : Row) → p (g r) ≡ p r)
    → ((r : Row) → p r ≡ true → g r ≡ r)
    → (rows : List Row) → find p (map g rows) ≡ find p rows
find-map_other p g keeps fixes [] = refl
find-map_other p g keeps fixes (r ∷ rows) = elim (Bool-cases (p r)) [
  | inl hit ↦ rw (keeps r, hit) (ap some (fixes r hit))
  | inr miss ↦ rw (keeps r, miss) (find-map_other p g keeps fixes rows)
]

-- A removal that goes by the id takes what is found or leaves it.
pub find-filter_id :
    (f : String → Bool) (id : String) (rows : List Row)
    → find (is_row id) (filter (λ r. f r.id) rows) ≡ (if f id then find (is_row id) rows else none)
find-filter_id f id [] = ground arith
find-filter_id f id (r ∷ rows) = elim (Bool-cases (str_eq r.id id)) [
  | inl same ↦
      (let kept : f r.id ≡ f id = ap f ((eq_iff r.id id).0 same) in
        elim (Bool-cases (f id)) [
          | inl stays ↦ rw (kept, stays, same) refl
          | inr goes ↦ rw (kept, goes) (find-filter_id f id rows ∙ rw goes refl)
        ])
  | inr differ ↦ ground (arith, differ, find-filter_id f id rows)
]

module _ (naming : Naming) (revisions : List (String × ℕ)) (snapshot : List Row) where
  find-added_other :
      (id : String) (d : Detail) (db : Db)
      → str_eq d.id id ≡ false
      → find (is_row id) (added naming revisions snapshot d db).rows ≡ find (is_row id) db.rows
  unfolding add_network_member added
  find-added_other id d db other = elim (Option-cases (find (is_row d.id) snapshot)) [
    | inr (r, known) ↦ rw (known, added) refl
    | inl absent ↦ elim (Bool-cases (naming.creates d.id)) [
      | inr failed ↦ rw (absent, added, failed) refl
      | inl created ↦ elim (Bool-cases (any (is_row d.id) db.rows)) [
        | inl there_is ↦ rw (absent, added, created, there_is) refl
        | inr none_yet ↦
            rw (absent, added, created, none_yet) (find-append_other (is_row id) db.rows _ other)
      ]
    ]
  ]

  pub find-apply_other :
      (id : String) (d : Detail) (db : Db)
      → str_eq d.id id ≡ false
      → find (is_row id) (apply_detail naming revisions snapshot d db).rows
        ≡ find (is_row id) db.rows
  unfolding apply_detail
  find-apply_other id d db other =
      find-map_other (is_row id) _ (λ r. ground arith)
        (λ r h. ground (arith, eq_iff r.id id, eq_iff r.id d.id, eq_iff d.id id))
        (added naming revisions snapshot d db).rows
      ∙ find-added_other id d db other

  -- The row of the detail is cached from it, if there is one by then.
  pub find-apply_same :
      (d : Detail) (db : Db) (r : Row)
      → find (is_row d.id) (added naming revisions snapshot d db).rows ≡ some r
      → find (is_row d.id) (apply_detail naming revisions snapshot d db).rows
        ≡ some (cache_detail (revision_of d.id revisions) (find (is_row d.id) snapshot) d r)
  unfolding apply_detail
  find-apply_same d db r h =
      find-map-some (is_row d.id) _ (λ x. ground arith) (added naming revisions snapshot d db).rows
        r h
      ∙ ap some (rw (find_holds (is_row d.id) (added naming revisions snapshot d db).rows r h) refl)
