-- ===== src/Services/Lifecycle/Resumed.antt =====
-- Suspending and resuming a service.
use notification_api_spec.Base.{
  ◌≡◌, refl, ap, sym, subst, ◌∙◌, true, false, Option, none, some, List, [], ◌∷◌, map, ◌=s=◌,
  Outcome, ok, arith, Bool-cases, Outcome-cases, eq_iff, eq_refl, inl, inr,
}
use notification_api_spec.Delivery.{Uuid}
use notification_api_spec.Auth.Jwt.{Instant}
use notification_api_spec.Services.{Failures, next_version}
use notification_api_spec.Services.Lifecycle.{
  ServiceRow, Tables, service_by_id, put_service, suspended_row, resumed_row, store_service,
  suspend_no_transaction, resume_no_transaction, with_service, suspend_service, resume_service,
}

pub service_by_id-put :
    (row old : ServiceRow) (rows : List ServiceRow)
    → service_by_id row.id rows ≡ ok old
    → service_by_id row.id (map (put_service row) rows) ≡ ok row
unfolding service_by_id put_service
service_by_id-put row old [] e = absurd (ground arith)
service_by_id-put row old (r ∷ rows) e = elim (Bool-cases (r.id =s= row.id)) [
  | inl same ↦ rw (same, eq_refl row.id) refl
  | inr other ↦ rw (other, other) (service_by_id-put row old rows (ground (arith, other, e)))
]

pub service_by_id_lem :
    (id : Uuid) (row : ServiceRow) (rows : List ServiceRow)
    → service_by_id id rows ≡ ok row
    → row.id ≡ id
unfolding service_by_id
service_by_id_lem id row [] e = absurd (ground arith)
service_by_id_lem id row (r ∷ rows) e = elim (Bool-cases (r.id =s= id)) [
  | inl same ↦
      let this : r ≡ row = ground (arith, same, e) in
      ap (λ x. x.id) (sym this) ∙ ground (arith, eq_iff r.id id, same)
  | inr other ↦ service_by_id_lem id row rows (ground (arith, other, e))
]

module _ (fails : Failures) where
  pub store_service_lem :
      (row stored : ServiceRow) (t t' : Tables)
      → store_service fails row t ≡ ok (stored, t')
      → (stored ≡ row)
        × (t' ≡ record t {
          services = map (put_service row) t.services;
          services_history = row ∷ t.services_history;
        })
  unfolding store_service
  store_service_lem row stored t t' e = ground (arith, e)

  pub stored_found :
      (id : Uuid) (row stored old : ServiceRow) (t t' : Tables)
      → store_service fails row t ≡ ok (stored, t')
      → row.id ≡ id
      → service_by_id id t.services ≡ ok old
      → service_by_id id t'.services ≡ ok stored
  stored_found id row stored old t t' e same found =
      let (its, table) = store_service_lem row stored t t' e in
      let found' = subst (λ i. service_by_id i t.services ≡ ok old) (sym same) found in
      let put = service_by_id-put row old t.services found' in
      ap (service_by_id id) (ap (λ x. x.services) table)
      ∙ subst (λ i. service_by_id i (map (put_service row) t.services) ≡ ok row) same put
      ∙ ap ok (sym its)

  pub with_service_lem :
      (id : Uuid) (change : ServiceRow → Tables → Outcome (ServiceRow × Tables)) (row : ServiceRow)
      (t t' : Tables)
      → with_service fails id change t ≡ ok (some row, t')
      → (current : ServiceRow) × (service_by_id id t.services ≡ ok current)
        × (change current t ≡ ok (row, t'))
  unfolding with_service
  with_service_lem id change row t t' e = elim (Outcome-cases (service_by_id id t.services)) [
    | inr (x, absent) ↦ absurd (ground (arith, absent, e))
    | inl (current, found) ↦ elim (Outcome-cases (change current t)) [
      | inr (x, failed) ↦ absurd (ground (arith, found, failed, e))
      | inl ((r, t₁), done) ↦
          let ends : (r ≡ row) × (t₁ ≡ t') = ground (arith, found, done, e) in
          (current, found, done ∙ rw (ends.0, ends.1) refl)
    ]
  ]

  suspended_of :
      (now : Instant) (id : Uuid) (user : Option Uuid) (current row : ServiceRow) (t t' : Tables)
      → service_by_id id t.services ≡ ok current
      → current.active ≡ true
      → suspend_service fails now id user t ≡ ok (some row, t')
      → store_service fails (suspended_row now user current) t ≡ ok (row, t')
  unfolding suspend_service suspend_no_transaction
  suspended_of now id user current row t t' found active e =
      let (c, found', done) =
        with_service_lem id (suspend_no_transaction fails now user) row t t' e in
      let same : c ≡ current = ground (arith, found, found') in
      sym (rw active refl)
      ∙ subst (λ x. suspend_no_transaction fails now user x t ≡ ok (row, t')) same done

  resumed_of :
      (now : Instant) (id : Uuid) (current row : ServiceRow) (t t' : Tables)
      → service_by_id id t.services ≡ ok current
      → current.active ≡ false
      → resume_service fails now id t ≡ ok (some row, t')
      → store_service fails (resumed_row now current) t ≡ ok (row, t')
  unfolding resume_service resume_no_transaction
  resumed_of now id current row t t' found inactive e =
      let (c, found', done) = with_service_lem id (resume_no_transaction fails now) row t t' e in
      let same : c ≡ current = ground (arith, found, found') in
      sym (rw inactive refl)
      ∙ subst (λ x. resume_no_transaction fails now x t ≡ ok (row, t')) same done

  -- An active service that is suspended and then resumed is as it was but for its version, which is
  -- two later, the time of its update, and the cleared columns of the suspension; it is found again
  -- in the table, and both changes are in the history.
  pub suspend-resume :
      (now later : Instant) (id : Uuid) (user : Option Uuid)
      (current suspended resumed : ServiceRow) (t t₁ t₂ : Tables)
      → service_by_id id t.services ≡ ok current
      → current.active ≡ true
      → suspend_service fails now id user t ≡ ok (some suspended, t₁)
      → resume_service fails later id t₁ ≡ ok (some resumed, t₂)
      → (suspended.active ≡ false)
        × (resumed ≡ record current {
          version = next_version (next_version current.version);
          updated_at = some later;
          suspended_at = none;
          suspended_by_id = none;
        })
        × (service_by_id id t₂.services ≡ ok resumed)
        × (t₂.services_history ≡ resumed ∷ suspended ∷ t.services_history)
  suspend-resume now later id user current suspended resumed t t₁ t₂ found active s r =
      let stored = suspended_of now id user current suspended t t₁ found active s in
      let (row₁, table₁) =
        store_service_lem (suspended_row now user current) suspended t t₁ stored in
      let current_id = service_by_id_lem id current t.services found in
      let found₁ =
        stored_found id (suspended_row now user current) suspended current t t₁ stored current_id
          found in
      let suspended_id = service_by_id_lem id suspended t₁.services found₁ in
      let off : suspended.active ≡ false = ap (λ x. x.active) row₁ in
      let stored₂ = resumed_of later id suspended resumed t₁ t₂ found₁ off r in
      let (row₂, table₂) = store_service_lem (resumed_row later suspended) resumed t₁ t₂ stored₂ in
      (
        off,
        row₂
            ∙ ap (resumed_row later) row₁
            ∙ ap
                (λ b. record current {
                  active = b;
                  version = next_version (next_version current.version);
                  updated_at = some later;
                  suspended_at = none;
                  suspended_by_id = none;
                })
                (sym active),
        stored_found id (resumed_row later suspended) resumed suspended t₁ t₂ stored₂ suspended_id
            found₁,
        ap (λ x. x.services_history) table₂
            ∙ ap (λ h. resumed_row later suspended ∷ h)
                (ap (λ x. x.services_history) table₁ ∙ ap (λ x. x ∷ t.services_history) (sym row₁))
            ∙ ap (λ x. x ∷ suspended ∷ t.services_history) (sym row₂),
      )
