-- ===== src/Services/Callbacks.antt =====
-- internal/repository/services/dao.go: the callbacks of services and their signed bearer tokens.
pub mod Stuck
pub mod Resign
pub mod Updates
pub mod Resigned
mod Tests
use notification_api_spec.Base.{
  ℕ, suc, String, Bool, true, false, not, ◌&&◌, Option, none, some, List, [], ◌∷◌, ◌++◌, map,
  select, any, ◌=s=◌, ◌<>◌, if◌then◌else◌, blank, Outcome, ok, err, GoError, no_rows, plain_error,
}
use notification_api_spec.Base.Outcomes.{◌>>=◌, ◌>>◌, guard}
use notification_api_spec.Delivery.{Uuid}
use notification_api_spec.Signing.Base64.{decode}
use notification_api_spec.Services.Tokens.{sign_bearer_token, unsign_bearer_token}
use notification_api_spec.Signing.Token.{Hashes, split_last, sign, unsign}
use notification_api_spec.Auth.Jwt.{Instant}
use notification_api_spec.Services.{
  RepositoryConfig, Query, begin, commit, list_callbacks, upsert_callback, insert_callback_history,
  delete_callback, update_callback_token, list_signed_callbacks, Failures, unless_failed,
  next_version, current_api_key_secret,
}

-- A row of `service_callback_api`, without the time of its creation.
pub record Callback : Type 0 where
  pub id : Uuid
  pub service_id : Uuid
  pub url : String
  pub bearer_token : String
  pub updated_at : Option Instant
  pub updated_by_id : Uuid
  pub version : ℕ
  pub callback_type : Option String
  pub is_suspended : Option Bool
  pub suspended_at : Option Instant

pub record CallbackTables : Type 0 where
  pub callbacks : List Callback
  pub history : List Callback

-- `IS NOT DISTINCT FROM`
abbrev pub same_type : Option String → Option String → Bool
same_type none none = true
same_type none (some t) = false
same_type (some s) none = false
same_type (some s) (some t) = s =s= t

abbrev pub replaces : Callback → Callback → Bool
replaces arg row =
    row.service_id =s= arg.service_id && same_type row.callback_type arg.callback_type

unfoldable pub put_callback : Callback → Callback → Callback
put_callback arg row =
    if replaces arg row
    then record arg { id = row.id; service_id = row.service_id; callback_type = row.callback_type }
    else row

-- The query `UpsertCallbackAPI`: it returns the rows that its `INSERT` adds, and that adds none
-- where the `UPDATE` before it has found one, so that the scan of the row fails then.
unfoldable pub upsert_rows : Callback → List Callback → Outcome Callback × List Callback
unfolding put_callback
upsert_rows arg rows =
    if any (replaces arg) rows
    then (err (no_rows ∷ []), map (put_callback arg) rows)
    else if any (λ row. row.id =s= arg.id) rows
    then (err (plain_error "duplicate key"), rows)
    else (ok arg, rows ++ (arg ∷ []))

-- The query `GetCallbackAPIs`; a type that is NULL selects all types.
unfoldable pub callbacks_of : Uuid → Option String → List Callback → List Callback
callbacks_of service_id callback_type rows =
    select
      (λ row.
        row.service_id =s= service_id
        && (elim callback_type [ none ↦ true | some t ↦ same_type row.callback_type (some t) ]))
      rows

-- `sql.NullString{String: s, Valid: s != ""}`
abbrev pub null_string : String → Option String
null_string s = if s =s= "" then none else some s

abbrev pub given : {A : Type 0} → Option A → A → A
given none a = a
given (some b) a = b

abbrev pub callback_type_delivery_status : String
callback_type_delivery_status = "delivery_status"

abbrev pub first_of : List Callback → Option Callback
first_of [] = none
first_of (item ∷ items) = some item

unfoldable pub with_id : Uuid → List Callback → Option Callback
with_id id [] = none
with_id id (item ∷ items) =
    let rest = with_id id items in if item.id =s= id then some item else rest

module _ (h : Hashes) (cfg : RepositoryConfig) where
  -- `unsignCallbackAPI`
  unfoldable pub unsign_callback : Callback → Outcome Callback
  unfolding unsign_bearer_token
  unsign_callback item = do
    decoded ← unsign_bearer_token h cfg item.bearer_token
    ok (record item { bearer_token = decoded })

  -- `unsignCallbackAPIs`
  unfoldable pub unsign_callbacks : List Callback → Outcome (List Callback)
  unfolding unsign_callback
  unsign_callbacks [] = ok []
  unsign_callbacks (item ∷ items) =
      unsign_callback item >>= λ decoded. unsign_callbacks items >>= λ rest. ok (decoded ∷ rest)

  abbrev pub unsign_found : Option Callback → Outcome (Option Callback)
  unsign_found none = ok none
  unsign_found (some item) = unsign_callback item >>= λ decoded. ok (some decoded)

  module _ (fails : Failures) where
    -- `GetCallbacksByServiceID`
    unfoldable pub get_callbacks : Uuid → CallbackTables → Outcome (List Callback)
    unfolding unsign_callbacks callbacks_of
    get_callbacks service_id t =
        unless_failed fails (list_callbacks service_id)
          (ok (callbacks_of service_id none t.callbacks))
        >>= unsign_callbacks

    -- `getCallbackByType`
    unfoldable pub get_callback_by_type : Uuid → String → CallbackTables → Outcome (Option Callback)
    unfolding unsign_callback callbacks_of
    get_callback_by_type service_id callback_type t =
        unless_failed fails (list_callbacks service_id)
          (ok (callbacks_of service_id (null_string callback_type) t.callbacks))
        >>= λ items. unsign_found (first_of items)

    -- `getServiceCallbackApi`
    unfoldable pub get_callback :
        (service_id callback_id : Uuid) → CallbackTables → Outcome (Option Callback)
    unfolding unsign_callback callbacks_of with_id
    get_callback service_id callback_id t =
        unless_failed fails (list_callbacks service_id)
          (ok (callbacks_of service_id none t.callbacks))
        >>= λ items. unsign_found (with_id callback_id items)

    -- The end of every change: the upsert, its note in the history, the commit, and the token read
    -- back. Before the commit an error leaves the tables as they were; after it they stay changed.
    unfoldable pub store_callback : Callback → CallbackTables → Outcome Callback × CallbackTables
    unfolding upsert_rows unsign_callback
    store_callback row t =
        let (upserted, rows) = upsert_rows row t.callbacks in
        elim (unless_failed fails (upsert_callback row.service_id) upserted) [
          | err e ↦ (err e, t)
          | ok stored ↦
              elim (unless_failed fails (insert_callback_history row.service_id) (ok tt)
                >> unless_failed fails commit (ok tt)) [
                  | err e ↦ (err e, t)
                  | ok _ ↦ (
                    unsign_callback stored,
                    record { callbacks = rows; history = stored ∷ t.history },
                  )
                ]
        ]

    -- `SaveServiceCallbackApi`
    unfoldable pub save_callback :
        (now : ℕ) (id service_id : Uuid) (callback_type url bearer_token : String) (user : Uuid)
        → CallbackTables
        → Outcome Callback × CallbackTables
    unfolding sign_bearer_token store_callback
    save_callback now id service_id callback_type url bearer_token user t =
        elim (sign_bearer_token h cfg now bearer_token >>= λ signed.
        unless_failed fails begin (ok signed)) [
          | err e ↦ (err e, t)
          | ok signed ↦
              store_callback
                (record {
                  id = id;
                  service_id = service_id;
                  url = url;
                  bearer_token = signed;
                  updated_at = none;
                  updated_by_id = user;
                  version = 1;
                  callback_type = null_string callback_type;
                  is_suspended = some false;
                  suspended_at = none;
                })
                t
        ]

    -- A change of a callback that was read: nothing is done where there is none.
    unfoldable pub change_callback :
        Outcome (Option Callback)
        → (Callback → Outcome Callback)
        → CallbackTables
        → Outcome (Option Callback) × CallbackTables
    unfolding store_callback
    change_callback (err e) change t = (err e, t)
    change_callback (ok none) change t = (ok none, t)
    change_callback (ok (some current)) change t = elim (change current) [
      | err e ↦ (err e, t)
      | ok updated ↦
          let (stored, t') = store_callback updated t in (stored >>= λ item. ok (some item), t')
    ]

    -- `ResetServiceCallbackApi`
    unfoldable pub reset_callback :
        (now : Instant) (seconds : ℕ) (service_id callback_id user : Uuid)
        (url bearer_token : Option String)
        → CallbackTables
        → Outcome (Option Callback) × CallbackTables
    unfolding change_callback get_callback sign_bearer_token
    reset_callback now seconds service_id callback_id user url bearer_token t =
        change_callback (unless_failed fails begin (ok tt) >> get_callback service_id callback_id t)
          (λ current.
            sign_bearer_token h cfg seconds (given bearer_token current.bearer_token) >>= λ signed.
            ok (record current {
              url = given url current.url;
              bearer_token = signed;
              updated_by_id = user;
              updated_at = some now;
              version = next_version current.version;
            }))
          t

    -- `SuspendUnsuspendCallbackApi`
    unfoldable pub suspend_unsuspend_callback :
        (now : Instant) (seconds : ℕ) (service_id user : Uuid) (suspend : Bool)
        → CallbackTables
        → Outcome (Option Callback) × CallbackTables
    unfolding change_callback get_callback_by_type sign_bearer_token
    suspend_unsuspend_callback now seconds service_id user suspend t =
        change_callback
          (unless_failed fails begin (ok tt)
            >> get_callback_by_type service_id callback_type_delivery_status t)
          (λ current. sign_bearer_token h cfg seconds current.bearer_token >>= λ signed.
            ok (record current {
              is_suspended = some suspend;
              suspended_at = some now;
              bearer_token = signed;
              updated_by_id = user;
              updated_at = some now;
              version = next_version current.version;
            }))
          t

    -- `DeleteServiceCallbackApi`
    unfoldable pub delete_service_callback :
        (service_id callback_id : Uuid) → CallbackTables → Outcome Bool × CallbackTables
    unfolding get_callback
    delete_service_callback service_id callback_id t =
        elim (get_callback service_id callback_id t) [
          | err e ↦ (err e, t)
          | ok none ↦ (ok false, t)
          | ok (some current) ↦ elim (unless_failed fails (delete_callback callback_id) (ok tt)) [
            | err e ↦ (err e, t)
            | ok _ ↦ (
              ok (any (λ row. row.id =s= callback_id) t.callbacks),
              record t { callbacks = select (λ row. not (row.id =s= callback_id)) t.callbacks },
            )
          ]
        ]
