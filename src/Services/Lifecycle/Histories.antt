-- ===== src/Services/Lifecycle/Histories.antt =====
-- A template that is in the history at its version keeps its service from being archived.
use notification_api_spec.Base.{
  ◌≡◌, ◌≢◌, refl, ap, sym, subst, ◌∙◌, String, true, false, some, List, [], ◌∷◌, map, ◌=s=◌, ok,
  arith, Among, inl, inr, Bool-cases, Outcome-cases, eq_iff,
}
use notification_api_spec.Base.Members.{select-Among}
use notification_api_spec.Delivery.{Uuid}
use notification_api_spec.Auth.Jwt.{Instant}
use notification_api_spec.Services.{Failures}
use notification_api_spec.Services.Lifecycle.{
  ServiceRow, Template, Tables, is_template_noted, templates_of_service, first_template,
  archived_template, archive_where, archived_row, archive_and_note, archive_all,
  archive_no_transaction, archive_service,
}
use notification_api_spec.Services.Lifecycle.Archived.{archive-IsArchiving}
use notification_api_spec.Services.Lifecycle.Resumed.{
  store_service_lem, with_service_lem, service_by_id_lem,
}

-- The first row of this id has this version.
abbrev pub HasVersion : Template → List Template → Type 0
HasVersion row rows =
    (found : Template) × (first_template row.id rows ≡ ok found)
    × (found.id ≡ row.id)
    × (found.version ≡ row.version)

archive-HasVersion :
    (row : Template) (id : Uuid) (rows : List Template)
    → HasVersion row rows
    → HasVersion row (map (archive_where id) rows)
unfolding first_template archive_where
archive-HasVersion row id [] (found, e, same, v) = absurd (ground (arith, e))
archive-HasVersion row id (r ∷ rows) (found, e, same, v) = elim (Bool-cases (r.id =s= row.id)) [
  | inl here ↦
      let this : r ≡ found = ground (arith, here, e) in
      let its_id : r.id ≡ row.id = ap (λ x. x.id) this ∙ same in
      let its_version : r.version ≡ row.version = ap (λ x. x.version) this ∙ v in
      elim (Bool-cases (r.id =s= id)) [
        | inl hit ↦ rw (hit, here) (archived_template r, refl, its_id, its_version)
        | inr miss ↦ rw (miss, here) (r, refl, its_id, its_version)
      ]
  | inr other ↦
      let later = archive-HasVersion row id rows (found, ground (arith, other, e), same, v) in
      elim (Bool-cases (r.id =s= id)) [
        | inl hit ↦ rw (hit, other) later
        | inr miss ↦ rw (miss, other) later
      ]
]

-- Being noted depends on the id and the version only.
noted_by_id :
    (row found : Template) (history : List Template)
    → found.id ≡ row.id
    → found.version ≡ row.version
    → is_template_noted row history ≡ true
    → is_template_noted found history ≡ true
noted_by_id row found history i v h = rw (i, v) h

module _ (fails : Failures) (row : Template) where
  noted_refused :
      (rows history : List Template) (r : List Template × List Template)
      → HasVersion row rows
      → is_template_noted row history ≡ true
      → archive_and_note fails row.id (rows, history) ≢ ok r
  unfolding archive_and_note
  noted_refused rows history r (found, e, i, v) h a =
      ground (arith, e, noted_by_id row found history i v h, a)

  note_kept :
      (id : Uuid) (rows history rows' history' : List Template)
      → archive_and_note fails id (rows, history) ≡ ok (rows', history')
      → is_template_noted row history ≡ true
      → (rows' ≡ map (archive_where id) rows) × (is_template_noted row history' ≡ true)
  unfolding archive_and_note
  note_kept id rows history rows' history' a h = ground (arith, a, h)

  archive_all_refused :
      (list rows history : List Template) (r : List Template × List Template)
      → Among row list
      → HasVersion row rows
      → is_template_noted row history ≡ true
      → archive_all fails list (rows, history) ≢ ok r
  unfolding archive_all
  archive_all_refused [] rows history r m v h a = absurd m
  archive_all_refused (x ∷ list) rows history r m v h a =
      elim (Outcome-cases (archive_and_note fails x.id (rows, history))) [
        | inr (e, failed) ↦ ground (arith, failed, a)
        | inl ((rows', history'), done) ↦ elim m [
          | inl here ↦
              noted_refused rows history (rows', history') v h
                (subst (λ y. archive_and_note fails y.id (rows, history) ≡ ok (rows', history'))
                  (sym here) done)
          | inr m' ↦
              let (table, h') = note_kept x.id rows history rows' history' done h in
              archive_all_refused list rows' history' r m'
                (subst (HasVersion row) (sym table) (archive-HasVersion row x.id rows v)) h'
                (ground (arith, done, a))
        ]
      ]

  -- A service is never archived while one of its templates that is not archived stands in the
  -- history at its version, and is the first row of its id: the archiving notes the template again
  -- at the same version.
  pub noted_template_blocks :
      (now db_now : Instant) (timestamp : String) (id : Uuid) (t : Tables) (r : ServiceRow × Tables)
      → Among row t.templates
      → row.service_id ≡ id
      → row.archived ≡ false
      → HasVersion row t.templates
      → is_template_noted row t.templates_history ≡ true
      → archive_service fails now db_now timestamp id t ≢ ok (some r.0, r.1)
  unfolding archive_service archive_no_transaction templates_of_service
  noted_template_blocks now db_now timestamp id t r m mine live v h e =
      let (current, found, done) =
        with_service_lem fails id (archive_no_transaction fails now db_now timestamp) r.0 t r.1 e in
      let a = archive-IsArchiving fails now db_now timestamp current r.0 t r.1 done in
      let (its, table) =
        store_service_lem fails (archived_row now timestamp current) r.0 t a.middle a.stored_row in
      let its_id : r.0.id ≡ id =
        ap (λ x. x.id) its ∙ service_by_id_lem id current t.services found in
      let same_rows : a.middle.templates ≡ t.templates = ap (λ x. x.templates) table in
      let same_history : a.middle.templates_history ≡ t.templates_history =
        ap (λ x. x.templates_history) table in
      let listed : Among row (templates_of_service r.0.id a.middle.templates) =
        subst (λ rows. Among row (templates_of_service r.0.id rows)) (sym same_rows)
          (select-Among _ t.templates row m
            (ground (arith, live, eq_iff row.service_id r.0.id, mine ∙ sym its_id))) in
      archive_all_refused (templates_of_service r.0.id a.middle.templates) a.middle.templates
        a.middle.templates_history (a.templates, a.history) listed
        (subst (HasVersion row) (sym same_rows) v)
        (subst (λ h. is_template_noted row h ≡ true) (sym same_history) h) a.archived
