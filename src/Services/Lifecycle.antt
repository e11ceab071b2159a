-- ===== src/Services/Lifecycle.antt =====
-- internal/repository/services/dao.go: `UpdateService`, `SuspendService`, `ResumeService` and
-- `ArchiveService`.
pub mod Resumed
pub mod Archived
pub mod Histories
mod Tests
use notification_api_spec.Base.{
  ℕ, String, Bool, true, false, not, ◌&&◌, Option, none, some, List, [], ◌∷◌, map, select, any,
  ◌=s=◌, ◌==◌, ◌<>◌, if◌then◌else◌, Outcome, ok, err, GoError, no_rows, plain_error,
}
use notification_api_spec.Base.Outcomes.{◌>>=◌, ◌>>◌}
use notification_api_spec.Delivery.{Uuid}
use notification_api_spec.Auth.Jwt.{Instant}
use notification_api_spec.Auth.Cache.{ApiKey}
use notification_api_spec.Services.{
  Query, begin, commit, get_service, update_service, insert_service_history, list_keys,
  list_templates, archive_template, insert_template_history, Failures, unless_failed, next_version,
  is_err_no_rows,
}
use notification_api_spec.Services.ApiKeys.{KeyTables, keys_of_service, revoke_and_note}

-- A row of `services`, by the columns that are read or changed here; an update copies the others.
pub record ServiceRow : Type 0 where
  pub id : Uuid
  pub name : String
  pub email_from : String
  pub active : Bool
  pub version : ℕ
  pub updated_at : Option Instant
  pub suspended_at : Option Instant
  pub suspended_by_id : Option Uuid

-- A row of `templates`, likewise.
pub record Template : Type 0 where
  pub id : Uuid
  pub service_id : Uuid
  pub version : ℕ
  pub archived : Bool

pub record Tables : Type 0 where
  pub services : List ServiceRow
  pub services_history : List ServiceRow
  pub key_tables : KeyTables
  pub templates : List Template
  pub templates_history : List Template

-- The query `GetServiceByID`, of any service.
unfoldable pub service_by_id : Uuid → List ServiceRow → Outcome ServiceRow
service_by_id id [] = err (no_rows ∷ [])
service_by_id id (row ∷ rows) =
    let rest = service_by_id id rows in if row.id =s= id then ok row else rest

unfoldable pub put_service : ServiceRow → ServiceRow → ServiceRow
put_service updated row = if row.id =s= updated.id then updated else row

-- The primary keys of `services_history` and of `templates_history`.
abbrev pub is_service_noted : ServiceRow → List ServiceRow → Bool
is_service_noted row history = any (λ old. old.id =s= row.id && old.version == row.version) history

abbrev pub is_template_noted : Template → List Template → Bool
is_template_noted row history = any (λ old. old.id =s= row.id && old.version == row.version) history

abbrev pub duplicate : GoError
duplicate = plain_error "duplicate key"

-- `archivedValue`, where `timestamp` is written in decimal.
abbrev pub archived_value : (value timestamp : String) → String
archived_value value timestamp = "_archived_" <> timestamp <> "_" <> value

-- The query `GetTemplatesByServiceID`, its order left out.
unfoldable pub templates_of_service : Uuid → List Template → List Template
templates_of_service id rows = select (λ row. row.service_id =s= id && not row.archived) rows

unfoldable pub first_template : Uuid → List Template → Outcome Template
first_template id [] = err (no_rows ∷ [])
first_template id (row ∷ rows) =
    let rest = first_template id rows in if row.id =s= id then ok row else rest

abbrev pub archived_template : Template → Template
archived_template row = record row { archived = true }

unfoldable pub archive_where : Uuid → Template → Template
archive_where id row = if row.id =s= id then archived_template row else row

abbrev pub suspended_row : Instant → Option Uuid → ServiceRow → ServiceRow
suspended_row now user current = record current {
  active = false;
  version = next_version current.version;
  updated_at = some now;
  suspended_at = some now;
  suspended_by_id = user;
}

abbrev pub resumed_row : Instant → ServiceRow → ServiceRow
resumed_row now current = record current {
  active = true;
  version = next_version current.version;
  updated_at = some now;
  suspended_at = none;
  suspended_by_id = none;
}

abbrev pub archived_row : Instant → String → ServiceRow → ServiceRow
archived_row now timestamp current = record current {
  active = false;
  name = archived_value current.name timestamp;
  email_from = archived_value current.email_from timestamp;
  version = next_version current.version;
  updated_at = some now;
}

module _ (fails : Failures) where
  -- The query `UpdateService`, and the note of the new row in the history.
  unfoldable pub store_service : ServiceRow → Tables → Outcome (ServiceRow × Tables)
  unfolding service_by_id put_service
  store_service row t = do
    _ ← unless_failed fails (update_service row.id) (service_by_id row.id t.services)
    unless_failed fails (insert_service_history row.id) (
        if is_service_noted row t.services_history
        then err duplicate
        else ok (
          row,
          record t {
            services = map (put_service row) t.services;
            services_history = row ∷ t.services_history;
          },
        ))

  -- `UpdateService`
  unfoldable pub update_service_row : Instant → ServiceRow → Tables → Outcome (ServiceRow × Tables)
  unfolding store_service
  update_service_row now service t = do
    unless_failed fails begin (ok tt)
    stored ←
        store_service
          (record service { version = next_version service.version; updated_at = some now }) t
    unless_failed fails commit (ok stored)

  -- `suspendServiceNoTransaction`
  unfoldable pub suspend_no_transaction :
      Instant → Option Uuid → ServiceRow → Tables → Outcome (ServiceRow × Tables)
  unfolding store_service
  suspend_no_transaction now user current t =
      if not current.active
      then ok (current, t)
      else store_service (suspended_row now user current) t

  -- `resumeServiceNoTransaction`
  unfoldable pub resume_no_transaction :
      Instant → ServiceRow → Tables → Outcome (ServiceRow × Tables)
  unfolding store_service
  resume_no_transaction now current t =
      if current.active then ok (current, t) else store_service (resumed_row now current) t

  -- The loop over the keys that are still live.
  unfoldable pub revoke_all : Instant → List ApiKey → KeyTables → Outcome KeyTables
  unfolding revoke_and_note
  revoke_all now [] t = ok t
  revoke_all now (key ∷ keys) t =
      revoke_and_note fails now key.id t >>= λ (_, t₁). revoke_all now keys t₁

  -- The query `ArchiveTemplate`, and the note of the row in the history; the version stays.
  unfoldable pub archive_and_note :
      Uuid → List Template × List Template → Outcome (List Template × List Template)
  unfolding first_template archive_where
  archive_and_note id (rows, history) = do
    row ← unless_failed fails (archive_template id) (first_template id rows)
    unless_failed fails (insert_template_history id) (
        if is_template_noted row history
        then err duplicate
        else ok (map (archive_where id) rows, archived_template row ∷ history))

  -- The loop over the templates that are not archived.
  unfoldable pub archive_all :
      List Template → List Template × List Template → Outcome (List Template × List Template)
  unfolding archive_and_note
  archive_all [] t = ok t
  archive_all (row ∷ rows) t = archive_and_note row.id t >>= archive_all rows

  -- `archiveServiceNoTransaction`; `db_now` is the database's clock.
  unfoldable pub archive_no_transaction :
      (now db_now : Instant) → String → ServiceRow → Tables → Outcome (ServiceRow × Tables)
  unfolding store_service revoke_all archive_all
  archive_no_transaction now db_now timestamp current t = do
    (stored, t₁) ← store_service (archived_row now timestamp current) t
    keys ←
        unless_failed fails (list_keys stored.id)
          (ok (keys_of_service db_now t₁.key_tables.keys stored.id))
    key_tables ← revoke_all db_now keys t₁.key_tables
    rows ←
        unless_failed fails (list_templates stored.id)
          (ok (templates_of_service stored.id t₁.templates))
    (templates, history) ← archive_all rows (t₁.templates, t₁.templates_history)
    ok (
      stored,
      record t₁ { key_tables = key_tables; templates = templates; templates_history = history },
    )

  -- The three operations that read a service first: without one they do nothing, and an error
  -- leaves the tables as they were.
  unfoldable pub with_service :
      Uuid
      → (ServiceRow → Tables → Outcome (ServiceRow × Tables))
      → Tables
      → Outcome (Option ServiceRow × Tables)
  unfolding service_by_id
  with_service id change t = do
    unless_failed fails begin (ok tt)
    elim (unless_failed fails (get_service id) (service_by_id id t.services)) [
      | err e ↦ if is_err_no_rows e then ok (none, t) else err e
      | ok current ↦ (do
        (updated, t₁) ← change current t
        unless_failed fails commit (ok (some updated, t₁)))
    ]

  -- `SuspendService`
  unfoldable pub suspend_service :
      Instant → Uuid → Option Uuid → Tables → Outcome (Option ServiceRow × Tables)
  unfolding with_service suspend_no_transaction
  suspend_service now id user t = with_service id (suspend_no_transaction now user) t

  -- `ResumeService`
  unfoldable pub resume_service : Instant → Uuid → Tables → Outcome (Option ServiceRow × Tables)
  unfolding with_service resume_no_transaction
  resume_service now id t = with_service id (resume_no_transaction now) t

  -- `ArchiveService`
  unfoldable pub archive_service :
      (now db_now : Instant) → String → Uuid → Tables → Outcome (Option ServiceRow × Tables)
  unfolding with_service archive_no_transaction
  archive_service now db_now timestamp id t =
      with_service id (archive_no_transaction now db_now timestamp) t
