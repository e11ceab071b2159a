-- ===== src/Services/Lifecycle/Archived.antt =====
-- What `ArchiveService` leaves.
use notification_api_spec.Base.{
  ◌≡◌, ap, sym, subst, ◌∙◌, String, true, false, some, List, [], ◌∷◌, map, any, ◌=s=◌, ok, arith,
  Among, All, inl, inr, Among-select, Bool-cases, Outcome-cases, eq_refl,
}
use notification_api_spec.Base.Members.{All-map, All-Among, All-elim, select-Among, any-Among}
use notification_api_spec.Delivery.{Uuid}
use notification_api_spec.Auth.Jwt.{Instant, after}
use notification_api_spec.Auth.Cache.{ApiKey}
use notification_api_spec.Services.{Failures}
use notification_api_spec.Services.ApiKeys.{
  KeyTables, is_live, keys_of_service, revoke_and_note, revoke_where,
}
use notification_api_spec.Services.ApiKeys.Revoked.{revoke_and_note_lem}
use notification_api_spec.Services.Lifecycle.{
  ServiceRow, Template, Tables, service_by_id, templates_of_service, archive_where, archived_row,
  store_service, revoke_all, archive_and_note, archive_all, archive_no_transaction, archive_service,
}
use notification_api_spec.Services.Lifecycle.Resumed.{
  store_service_lem, with_service_lem, service_by_id_lem, stored_found,
}

-- The parts of an archiving that succeeds.
pub record IsArchiving (fails : Failures) (now db_now : Instant) (timestamp : String)
    (current stored : ServiceRow) (t t' : Tables) : Type 0 where
  pub middle : Tables
  pub keys : KeyTables
  pub templates : List Template
  pub history : List Template
  pub stored_row : store_service fails (archived_row now timestamp current) t ≡ ok (stored, middle)
  pub revoked :
      revoke_all fails db_now
        (keys_of_service db_now middle.key_tables.keys stored.id)
        middle.key_tables
      ≡ ok keys
  pub archived :
      archive_all fails
        (templates_of_service stored.id middle.templates)
        (middle.templates, middle.templates_history)
      ≡ ok (templates, history)
  pub ends :
      t' ≡ record middle { key_tables = keys; templates = templates; templates_history = history }

pub archive-IsArchiving :
    (fails : Failures) (now db_now : Instant) (timestamp : String) (current stored : ServiceRow)
    (t t' : Tables)
    → archive_no_transaction fails now db_now timestamp current t ≡ ok (stored, t')
    → IsArchiving fails now db_now timestamp current stored t t'
unfolding archive_no_transaction
archive-IsArchiving fails now db_now timestamp current stored t t' e =
    elim (Outcome-cases (store_service fails (archived_row now timestamp current) t)) [
      | inr (x, failed) ↦ absurd (ground (arith, failed, e))
      | inl ((s, m), a) ↦
          elim (Outcome-cases (
            revoke_all fails db_now (keys_of_service db_now m.key_tables.keys s.id) m.key_tables)) [
              | inr (x, failed) ↦ absurd (ground (arith, a, failed, e))
              | inl (keys, b) ↦
                  elim (Outcome-cases (
                    archive_all fails (templates_of_service s.id m.templates)
                      (m.templates, m.templates_history))) [
                        | inr (x, failed) ↦ absurd (ground (arith, a, b, failed, e))
                        | inl ((rows, history), c) ↦
                            let ends : (s ≡ stored)
                                × (t' ≡ record m {
                                  key_tables = keys;
                                  templates = rows;
                                  templates_history = history;
                                }) =
                              ground (arith, a, b, c, e) in
                            subst (λ r. IsArchiving fails now db_now timestamp current r t t')
                              ends.0
                              (record {
                                middle = m;
                                keys = keys;
                                templates = rows;
                                history = history;
                                stored_row = a;
                                revoked = b;
                                archived = c;
                                ends = ends.1;
                              })
                      ]
            ]
    ]

-- A live key of the service is still to be revoked.
abbrev PendingKey : Instant → Uuid → List ApiKey → ApiKey → Type 0
PendingKey now s list key =
    (key.service_id =s= s) ≡ true → is_live now key ≡ true → any (λ k. key.id =s= k.id) list ≡ true

after_irrefl : (t : Instant) → after t t ≡ false
after_irrefl t = ground arith

PendingKey-revoke :
    (now : Instant) (s : Uuid) (x : ApiKey) (list : List ApiKey) (key : ApiKey)
    → PendingKey now s (x ∷ list) key
    → PendingKey now s list (revoke_where now x.id key)
unfolding revoke_where
PendingKey-revoke now s x list key p = elim (Bool-cases (key.id =s= x.id)) [
  | inl hit ↦ rw hit (λ mine live. absurd (ground (arith, live, after_irrefl now)))
  | inr miss ↦ rw miss (λ mine live. ground (arith, miss, p mine live))
]

-- A template of the service that is not archived is still to be archived.
abbrev PendingTemplate : Uuid → List Template → Template → Type 0
PendingTemplate s list row =
    (row.service_id =s= s) ≡ true → row.archived ≡ false → any (λ r. row.id =s= r.id) list ≡ true

PendingTemplate-archive :
    (s : Uuid) (x : Template) (list : List Template) (row : Template)
    → PendingTemplate s (x ∷ list) row
    → PendingTemplate s list (archive_where x.id row)
unfolding archive_where
PendingTemplate-archive s x list row p = elim (Bool-cases (row.id =s= x.id)) [
  | inl hit ↦ rw hit (λ mine live. absurd (ground (arith, live)))
  | inr miss ↦ rw miss (λ mine live. ground (arith, miss, p mine live))
]

pending_at_first :
    (now : Instant) (s : Uuid) (keys : List ApiKey)
    → All (PendingKey now s (keys_of_service now keys s)) keys
unfolding keys_of_service
pending_at_first now s keys = All-Among _ keys (λ key m mine live.
    any-Among _ (keys_of_service now keys s) key
      (select-Among _ keys key m (ground (arith, mine, live))) (eq_refl key.id))

open_at_first :
    (s : Uuid) (rows : List Template) → All (PendingTemplate s (templates_of_service s rows)) rows
unfolding templates_of_service
open_at_first s rows = All-Among _ rows (λ row m mine live.
    any-Among _ (templates_of_service s rows) row
      (select-Among _ rows row m (ground (arith, mine, live))) (eq_refl row.id))

no_live_key :
    (now : Instant) (s : Uuid) (keys : List ApiKey)
    → All (PendingKey now s []) keys
    → (key : ApiKey) → ¬ Among key (keys_of_service now keys s)
unfolding keys_of_service
no_live_key now s keys h key listed =
    let (m, t) = Among-select _ keys key listed in
    let p = All-elim (PendingKey now s []) keys key m h in
    absurd (ground (arith, p (ground (arith, t)) (ground (arith, t))))

no_open_template :
    (s : Uuid) (rows : List Template)
    → All (PendingTemplate s []) rows
    → (row : Template) → ¬ Among row (templates_of_service s rows)
unfolding templates_of_service
no_open_template s rows h row listed =
    let (m, t) = Among-select _ rows row listed in
    let p = All-elim (PendingTemplate s []) rows row m h in
    absurd (ground (arith, p (ground (arith, t)) (ground (arith, t))))

module _ (fails : Failures) where
  revoke_all-All :
      (now : Instant) (s : Uuid) (list : List ApiKey) (t t' : KeyTables)
      → revoke_all fails now list t ≡ ok t'
      → All (PendingKey now s list) t.keys
      → All (PendingKey now s []) t'.keys
  unfolding revoke_all
  revoke_all-All now s [] t t' e h =
      let same : t ≡ t' = ground (arith, e) in subst (λ x. All (PendingKey now s []) x.keys) same h
  revoke_all-All now s (x ∷ list) t t' e h =
      elim (Outcome-cases (revoke_and_note fails now x.id t)) [
        | inr (y, failed) ↦ absurd (ground (arith, failed, e))
        | inl ((row, t₁), done) ↦
            let table = (revoke_and_note_lem fails now x.id row t t₁ done).3 in
            revoke_all-All now s list t₁ t' (ground (arith, done, e)) (
              subst (All (PendingKey now s list)) (sym table)
                (All-map _ _ (revoke_where now x.id) t.keys (PendingKey-revoke now s x list) h))
      ]

  archived_rows :
      (id : Uuid) (rows history rows' history' : List Template)
      → archive_and_note fails id (rows, history) ≡ ok (rows', history')
      → rows' ≡ map (archive_where id) rows
  unfolding archive_and_note
  archived_rows id rows history rows' history' e = ground (arith, e)

  archive_all-All :
      (s : Uuid) (list rows history rows' history' : List Template)
      → archive_all fails list (rows, history) ≡ ok (rows', history')
      → All (PendingTemplate s list) rows
      → All (PendingTemplate s []) rows'
  unfolding archive_all
  archive_all-All s [] rows history rows' history' e h =
      let same : rows ≡ rows' = ground (arith, e) in subst (All (PendingTemplate s [])) same h
  archive_all-All s (x ∷ list) rows history rows' history' e h =
      elim (Outcome-cases (archive_and_note fails x.id (rows, history))) [
        | inr (y, failed) ↦ absurd (ground (arith, failed, e))
        | inl ((rows₁, history₁), done) ↦
            let table = archived_rows x.id rows history rows₁ history₁ done in
            archive_all-All s list rows₁ history₁ rows' history' (ground (arith, done, e)) (
              subst (All (PendingTemplate s list)) (sym table)
                (All-map _ _ (archive_where x.id) rows (PendingTemplate-archive s x list) h))
      ]

  -- A service that is archived is inactive, has no live key, and has no template that is not
  -- archived.
  pub archive_closes :
      (now db_now : Instant) (timestamp : String) (id : Uuid) (row : ServiceRow) (t t' : Tables)
      → archive_service fails now db_now timestamp id t ≡ ok (some row, t')
      → (row.active ≡ false)
        × (service_by_id id t'.services ≡ ok row)
        × ((key : ApiKey) → ¬ Among key (keys_of_service db_now t'.key_tables.keys id))
        × ((tmpl : Template) → ¬ Among tmpl (templates_of_service id t'.templates))
  unfolding archive_service
  archive_closes now db_now timestamp id row t t' e =
      let (current, found, done) =
        with_service_lem fails id (archive_no_transaction fails now db_now timestamp) row t t' e in
      let a = archive-IsArchiving fails now db_now timestamp current row t t' done in
      let (its, table) =
        store_service_lem fails (archived_row now timestamp current) row t a.middle a.stored_row in
      let current_id = service_by_id_lem id current t.services found in
      let row_id : row.id ≡ id = ap (λ x. x.id) its ∙ current_id in
      let there =
        stored_found fails id (archived_row now timestamp current) row current t a.middle
          a.stored_row current_id found in
      let dead =
        revoke_all-All db_now row.id (keys_of_service db_now a.middle.key_tables.keys row.id)
          a.middle.key_tables a.keys a.revoked
          (pending_at_first db_now row.id a.middle.key_tables.keys) in
      let shelved =
        archive_all-All row.id (templates_of_service row.id a.middle.templates) a.middle.templates
          a.middle.templates_history a.templates a.history a.archived
          (open_at_first row.id a.middle.templates) in
      (
        ap (λ x. x.active) its,
        subst (λ x. service_by_id id x.services ≡ ok row) (sym a.ends) there,
        subst (λ k. (key : ApiKey) → ¬ Among key (keys_of_service db_now k id))
            (sym (ap (λ x. x.key_tables.keys) a.ends))
            (subst (λ i. (key : ApiKey) → ¬ Among key (keys_of_service db_now a.keys.keys i)) row_id
              (no_live_key db_now row.id a.keys.keys dead)),
        subst (λ r. (tmpl : Template) → ¬ Among tmpl (templates_of_service id r))
            (sym (ap (λ x. x.templates) a.ends))
            (subst (λ i. (tmpl : Template) → ¬ Among tmpl (templates_of_service i a.templates))
              row_id (no_open_template row.id a.templates shelved)),
      )
