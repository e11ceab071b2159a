-- ===== src/Providers/Toggle.antt =====
-- internal/repository/providers/wrappers.go: the priorities of the providers, and the failover of the
-- SMS worker. The queries are functions on the table; the database answers each of them.
pub mod Least
pub mod Rows
pub mod Updates
pub mod Failover
use notification_api_spec.Base.{
  ℕ, String, ◌+◌, ◌%◌, ◌^◌, Bool, true, false, Option, none, some, List, [], ◌∷◌, ◌&&◌, ◌||◌, ltb,
  ◌==◌, ◌=s=◌, if◌then◌else◌, select, map, Outcome, ok, err, GoError, no_rows, plain_error,
}
use notification_api_spec.Delivery.{Uuid}
use notification_api_spec.Providers.{ProviderDetail, NotificationType, type_name}

-- The tables `provider_details` and `provider_details_history`, the newest history first.
pub record Tables : Type 0 where
  pub details : List ProviderDetail
  pub history : List ProviderDetail

-- An int32 by its bit pattern: `a < b`, and the sum.
unfoldable pub lt_int32 : ℕ → ℕ → Bool
lt_int32 a b = ltb ((a + 2 ^ 31) % 2 ^ 32) ((b + 2 ^ 31) % 2 ^ 32)

abbrev pub add_int32 : ℕ → ℕ → ℕ
add_int32 a b = (a + b) % 2 ^ 32

-- The first row that passes; `sql.ErrNoRows` without one.
unfoldable pub first_row : (ProviderDetail → Bool) → List ProviderDetail → Outcome ProviderDetail
first_row p [] = err (no_rows ∷ [])
first_row p (row ∷ rows) = let rest = first_row p rows in if p row then ok row else rest

-- `err == sql.ErrNoRows`
abbrev exactly_no_rows : GoError → Bool
exactly_no_rows (no_rows ∷ []) = true
exactly_no_rows _ = false

-- The columns to set; `none` leaves a column alone.
pub record UpdateParams : Type 0 where
  pub id : Uuid
  pub priority : Option ℕ
  pub active : Option Bool
  pub created_by_id : Option Uuid

abbrev or_kept : {A : Type 0} → Option A → A → A
or_kept none a = a
or_kept (some b) a = b

-- `UPDATE provider_details SET … WHERE id = …`
unfoldable pub replace_row : ProviderDetail → List ProviderDetail → List ProviderDetail
replace_row r [] = []
replace_row r (row ∷ rows) =
    let rest = replace_row r rows in if row.id =s= r.id then r ∷ rest else row ∷ rest

unfoldable pub updated_row : UpdateParams → ProviderDetail → ProviderDetail
updated_row arg current = record current {
  priority = or_kept arg.priority current.priority;
  active = or_kept arg.active current.active;
  created_by_id = elim arg.created_by_id [ none ↦ current.created_by_id | some id ↦ some id ];
  version = add_int32 current.version 1;
}

-- The statements that the database may refuse.
pub data Query : Type 0 where
  read_identifier : (identifier : String) → Query
  read_id update_row insert_history : (id : Uuid) → Query
  read_current : NotificationType → Query

-- `fails` says which statements the database refuses, and with what error.
module _ (fails : Query → Option GoError) where
  unfoldable pub unless_failed : {A : Type 0} → Query → Outcome A → Outcome A
  unless_failed q answer = elim (fails q) [ some e ↦ err e | none ↦ answer ]

  -- `GetProviderDetailsByIdentifier`
  unfoldable pub by_identifier : Tables → String → Outcome ProviderDetail
  unfolding unless_failed
  by_identifier t identifier =
      unless_failed (read_identifier identifier)
        (first_row (λ row. row.identifier =s= identifier) t.details)

  -- `GetProviderDetailsByID`
  unfoldable pub by_id : Tables → Uuid → Outcome ProviderDetail
  unfolding unless_failed
  by_id t id = unless_failed (read_id id) (first_row (λ row. row.id =s= id) t.details)

  -- The insert into the history; without a transaction a refusal leaves the row updated.
  abbrev pub noted : ProviderDetail → Tables → Outcome ProviderDetail × Tables
  noted row t = elim (fails (insert_history row.id)) [
    | some e ↦ (err e, t)
    | none ↦ (ok row, record t { history = row ∷ t.history })
  ]

  -- `UpdateProviderDetails`
  unfoldable pub update_provider_details : UpdateParams → Tables → Outcome ProviderDetail × Tables
  unfolding by_id updated_row replace_row
  update_provider_details arg t = elim (by_id t arg.id) [
    | err e ↦ (err e, t)
    | ok current ↦
        let row = updated_row arg current in
        elim (fails (update_row row.id)) [
          | some e ↦ (err e, t)
          | none ↦ noted row (record t { details = replace_row row t.details })
        ]
  ]

module _ (collate : String → String → Bool) where
  -- `ORDER BY priority ASC, display_name ASC`: whether `p` stands before `q`. `collate` is the
  -- database's order of texts.
  unfoldable pub before : ProviderDetail → ProviderDetail → Bool
  before p q =
      lt_int32 p.priority q.priority
      || (p.priority == q.priority && collate p.display_name q.display_name)

  -- The first row in that order.
  unfoldable pub first_in_order : List ProviderDetail → Outcome ProviderDetail
  first_in_order [] = err (no_rows ∷ [])
  first_in_order (row ∷ rows) = elim (first_in_order rows) [
    | err e ↦ ok row
    | ok best ↦ if before best row then ok best else ok row
  ]

-- `WHERE notification_type = $1 AND active = true`
abbrev pub is_current_row : NotificationType → ProviderDetail → Bool
is_current_row kind row = row.active && type_name row.notification_type =s= type_name kind

-- The new priorities of the target and of the current provider.
unfoldable pub swapped_priorities : (target current : ℕ) → ℕ × ℕ
swapped_priorities target current =
    if lt_int32 current target
    then (current, target)
    else if target == current
    then (target, add_int32 current 10)
    else (target, current)

abbrev notify_user_id : Uuid
notify_user_id = "6af522d0-2915-4e52-83a3-3690455a5fe6"

abbrev pub priority_update : Uuid → ℕ → UpdateParams
priority_update id priority = record {
  id = id;
  priority = some priority;
  active = none;
  created_by_id = some notify_user_id;
}

module _ (fails : Query → Option GoError) (collate : String → String → Bool) where
  -- `GetCurrentProvider`
  unfoldable pub current_provider : Tables → NotificationType → Outcome ProviderDetail
  unfolding unless_failed first_in_order
  current_provider t kind =
      unless_failed fails (read_current kind)
        (first_in_order collate (select (is_current_row kind) t.details))

  -- The two updates.
  unfoldable pub swap_priorities :
      ProviderDetail → ProviderDetail → Tables → Outcome (Unit {0}) × Tables
  swap_priorities target current t =
      let (high, low) = swapped_priorities target.priority current.priority in
      let (first, t₁) = update_provider_details fails (priority_update target.id high) t in
      elim first [
        | err e ↦ (err e, t₁)
        | ok _ ↦
            let (second, t₂) = update_provider_details fails (priority_update current.id low) t₁ in
            elim second [ err e ↦ (err e, t₂) | ok _ ↦ (ok tt, t₂) ]
      ]

  unfoldable pub switch_to_target : ProviderDetail → Tables → Outcome (Unit {0}) × Tables
  switch_to_target target t =
      if target.active
      then elim (current_provider t NotificationType.sms) [
        | err e ↦ ((if exactly_no_rows e then ok tt else err e), t)
        | ok current ↦
            if current.id =s= target.id then (ok tt, t) else swap_priorities target current t
      ]
      else (ok tt, t)

  unfoldable pub switch_to_identifier : String → Tables → Outcome (Unit {0}) × Tables
  switch_to_identifier identifier t = elim (by_identifier fails t identifier) [
    | err e ↦ (err e, t)
    | ok target ↦ switch_to_target target t
  ]

  -- `ToggleSMSProviderByIdentifier`; `GetAlternativeSMSProvider` is `GetProviderDetailsByIdentifier`.
  unfoldable pub toggle_by_identifier : String → Tables → Outcome (Unit {0}) × Tables
  toggle_by_identifier identifier t = elim (by_identifier fails t identifier) [
    | err e ↦ (err e, t)
    | ok alternative ↦ switch_to_identifier alternative.identifier t
  ]
