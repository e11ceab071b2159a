-- ===== src/Services.antt =====
-- internal/repository/services/dao.go: the API keys of services, the callbacks of services, and the
-- lifecycle of services, with the queries that they call (services.sql.go, api_keys.sql.go,
-- templates.sql.go).
pub mod ApiKeys
pub mod Lifecycle
pub mod Tokens
pub mod Callbacks
use notification_api_spec.Base.{
  ℕ, ◌+◌, ◌%◌, ◌^◌, String, Option, none, some, List, [], ◌∷◌, blank, trim_space, if◌then◌else◌,
  Outcome, ok, err, GoError, plain_error, Bool, true, false, no_rows,
}
use notification_api_spec.Delivery.{Uuid}

-- The configuration of the repository.
pub record RepositoryConfig : Type 0 where
  pub api_key_prefix : String
  pub api_key_secrets : List String
  pub dangerous_salt : String

-- The statements that the database may refuse.
pub data Query : Type 0 where
  begin commit rollback : Query
  insert_key insert_key_history revoke_key get_key : (id : Uuid) → Query
  list_keys list_templates : (service : Uuid) → Query
  archive_template insert_template_history : (id : Uuid) → Query
  get_service update_service insert_service_history : (id : Uuid) → Query
  list_callbacks upsert_callback insert_callback_history : (service : Uuid) → Query
  delete_callback update_callback_token : (id : Uuid) → Query
  list_signed_callbacks : Query

abbrev pub Failures : Type 0
Failures = Query → Option GoError

-- A statement and its answer where the database does not refuse it.
abbrev pub unless_failed : {A : Type 0} → Failures → Query → Outcome A → Outcome A
unless_failed fails q answer = elim (fails q) [ some e ↦ err e | none ↦ answer ]

-- `Version++` of an int32, by its bit pattern; the database adds one likewise.
abbrev pub next_version : ℕ → ℕ
next_version version = (version + 1) % 2 ^ 32

-- `currentAPIKeySecret`: the first secret that is not blank, trimmed.
unfoldable pub current_api_key_secret : List String → Outcome String
current_api_key_secret [] = err (plain_error "at least one api key secret is required")
current_api_key_secret (secret ∷ secrets) =
    let rest = current_api_key_secret secrets in
    if blank secret then rest else ok (trim_space secret)

-- `err == sql.ErrNoRows`
abbrev pub is_err_no_rows : GoError → Bool
is_err_no_rows [] = false
is_err_no_rows (node ∷ []) = elim node [ no_rows ↦ true | _ ↦ false ]
is_err_no_rows (node ∷ next ∷ e) = false
