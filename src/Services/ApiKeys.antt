-- ===== src/Services/ApiKeys.antt =====
-- internal/repository/services/dao.go: `CreateAPIKey` and `RevokeAPIKey`, over the tables of
-- internal/repository/api_keys/api_keys.sql.go.
pub mod Plaintext
pub mod Created
pub mod Revoked
mod Tests
use notification_api_spec.Base.{
  ℕ, String, Bool, true, false, not, ◌&&◌, Option, none, some, List, [], ◌∷◌, map, select, any,
  ◌=s=◌, ◌==◌, ◌<>◌, blank, if◌then◌else◌, Outcome, ok, err, GoError, no_rows, plain_error,
}
use notification_api_spec.Base.Outcomes.{◌>>=◌, ◌>>◌, guard}
use notification_api_spec.Delivery.{Uuid}
use notification_api_spec.Signing.Token.{Hashes}
use notification_api_spec.Signing.ApiKeys.{sign_api_key_token}
use notification_api_spec.Auth.Jwt.{Instant, after}
use notification_api_spec.Auth.Cache.{ApiKey}
use notification_api_spec.Services.{
  RepositoryConfig, Query, begin, commit, insert_key, insert_key_history, revoke_key, get_key,
  list_keys, Failures, unless_failed, next_version, current_api_key_secret, is_err_no_rows,
}

-- `api_keys` and `api_keys_history`.
pub record KeyTables : Type 0 where
  pub keys : List ApiKey
  pub history : List ApiKey

-- `expiry_date IS NULL OR expiry_date > now()`
abbrev pub is_live : Instant → ApiKey → Bool
is_live now key = elim key.expiry_date [ none ↦ true | some t ↦ after t now ]

unfoldable pub first_key : (ApiKey → Bool) → List ApiKey → Outcome ApiKey
first_key test [] = err (no_rows ∷ [])
first_key test (key ∷ keys) = let rest = first_key test keys in if test key then ok key else rest

-- The query `GetAPIKeyBySecret`.
unfoldable pub key_by_secret : Instant → List ApiKey → String → Outcome ApiKey
unfolding first_key
key_by_secret now keys secret = first_key (λ key. key.secret =s= secret && is_live now key) keys

-- The query `GetAPIKeysByServiceID`, its order left out.
unfoldable pub keys_of_service : Instant → List ApiKey → Uuid → List ApiKey
keys_of_service now keys service_id =
    select (λ key. key.service_id =s= service_id && is_live now key) keys

abbrev pub revoked_row : Instant → ApiKey → ApiKey
revoked_row now key = record key { expiry_date = some now; version = next_version key.version }

unfoldable pub revoke_where : Instant → Uuid → ApiKey → ApiKey
revoke_where now id key = if key.id =s= id then revoked_row now key else key

-- The row that `CreateAPIKey` inserts.
abbrev pub created_row :
    (id : Uuid) (name secret : String) (service_id created_by : Uuid) (key_type : String) → ApiKey
created_row id name secret service_id created_by key_type = record {
  id = id;
  name = name;
  secret = secret;
  service_id = service_id;
  expiry_date = none;
  created_by_id = created_by;
  version = 1;
  key_type = key_type;
}

-- The primary key of `api_keys_history`: an id and a version.
abbrev pub is_noted : ApiKey → List ApiKey → Bool
is_noted key history = any (λ old. old.id =s= key.id && old.version == key.version) history

abbrev pub noted : ApiKey → List ApiKey → Outcome (List ApiKey)
noted key history =
    if is_noted key history then err (plain_error "duplicate key") else ok (key ∷ history)

module _ (fails : Failures) where
  -- The query `RevokeAPIKey`: the row that it leaves, and the table.
  unfoldable pub revoke_key_row : Instant → Uuid → List ApiKey → Outcome (ApiKey × List ApiKey)
  unfolding first_key revoke_where
  revoke_key_row now id keys =
      unless_failed fails (revoke_key id) (elim (first_key (λ key. key.id =s= id) keys) [
        | err e ↦ err e
        | ok key ↦ ok (revoked_row now key, map (revoke_where now id) keys)
      ])

  -- Revoking a row and noting it in the history.
  unfoldable pub revoke_and_note : Instant → Uuid → KeyTables → Outcome (ApiKey × KeyTables)
  unfolding revoke_key_row
  revoke_and_note now id t = do
    (revoked, keys) ← revoke_key_row now id t.keys
    history ← unless_failed fails (insert_key_history id) (noted revoked t.history)
    ok (revoked, record { keys = keys; history = history })

  -- `RevokeAPIKey`: what it returns, and the tables that it leaves. An error leaves them as they
  -- were, and so does a key that is not there or is another service's.
  unfoldable pub revoke_api_key :
      Instant → (service_id key_id : Uuid) → KeyTables → Outcome (Option ApiKey × KeyTables)
  unfolding first_key revoke_and_note
  revoke_api_key now service_id key_id t = do
    unless_failed fails begin (ok tt)
    elim (unless_failed fails (get_key key_id) (first_key (λ key. key.id =s= key_id) t.keys)) [
      | err e ↦ if is_err_no_rows e then ok (none, t) else err e
      | ok current ↦ if not (current.service_id =s= service_id) then ok (none, t) else (do
        (revoked, t') ← revoke_and_note now key_id t
        unless_failed fails commit (ok (some revoked, t')))
    ]

  -- The two inserts are no transaction: if the second fails, the first stays.
  unfoldable pub insert_created :
      String → ApiKey → KeyTables → Outcome (ApiKey × String) × KeyTables
  insert_created plaintext row t =
      elim (unless_failed fails (insert_key row.id) (
        if any (λ key. key.id =s= row.id) t.keys
        then err (plain_error "duplicate key")
        else ok (row ∷ t.keys))) [
          | err e ↦ (err e, t)
          | ok keys ↦ elim (unless_failed fails (insert_key_history row.id) (noted row t.history)) [
            | err e ↦ (err e, record t { keys = keys })
            | ok history ↦ (ok (row, plaintext), record { keys = keys; history = history })
          ]
        ]

  -- The token, signed, once the settings are found to be complete.
  unfoldable pub hashed_secret :
      Hashes → RepositoryConfig → (key_type token : String) → Outcome String
  unfolding current_api_key_secret
  hashed_secret h cfg key_type token = do
    secret ← current_api_key_secret cfg.api_key_secrets
    guard (not (blank cfg.api_key_prefix)) (plain_error "api key prefix is required")
    guard (not (blank key_type)) (plain_error "key type is required")
    sign_api_key_token h token secret

  -- `CreateAPIKey`, where `token` and `id` are the new UUIDs. It returns the row and the plaintext.
  unfoldable pub create_api_key :
      Hashes
      → RepositoryConfig
      → (token id service_id : Uuid) (name : String) (created_by : Uuid) (key_type : String)
      → KeyTables
      → Outcome (ApiKey × String) × KeyTables
  unfolding hashed_secret insert_created
  create_api_key h cfg token id service_id name created_by key_type t =
      elim (hashed_secret h cfg key_type token) [
        | err e ↦ (err e, t)
        | ok hashed ↦
            insert_created (cfg.api_key_prefix <> service_id <> token)
              (created_row id name hashed service_id created_by key_type) t
      ]
