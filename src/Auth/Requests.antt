-- ===== src/Auth/Requests.antt =====
-- internal/middleware/auth.go and internal/middleware/auth_context.go: the handlers that let a
-- request through, or answer it.
pub mod Keys
pub mod Admitted
pub mod Dispatch
mod Tests
pub mod Passes
use notification_api_spec.Base.{
  ℕ, ◌+◌, ◌-◌, ◌=s=◌, ◌<>◌, ◌&&◌, ◌||◌, not, ltb, String, Bool, true, false, Option, none, some,
  List, [], ◌∷◌, if◌then◌else◌, Outcome, ok, err, GoError, ErrorNode, no_rows, token_validation,
  chain_has, blank, trim_space, has_prefix, trim_prefix, fields, equal_fold, text_length, drop_text,
  take_text,
}
use notification_api_spec.Base.Outcomes.{◌>>=◌, ◌>>◌, guard, or_error}
use notification_api_spec.Delivery.{Uuid, Service}
use notification_api_spec.Signing.Token.{Hashes}
use notification_api_spec.Signing.ApiKeys.{sign_api_key_token_with_all_keys}
use notification_api_spec.Auth.Jwt.{
  Instant, after, JwtClaims, JwtJson, token_error, decode_bearer_jwt_request, verify_jwt_signature,
  validate_fixed_issuer_jwt_request,
}
use notification_api_spec.Auth.Cache.{
  ApiKey, CachedServiceAuth, AuthCall, Log, ServiceAuthRepository, EntryJson, ServiceAuthCache,
  load_service_auth, get_api_key_by_secret,
}

-- `AuthenticatedService`
pub record AuthenticatedService : Type 0 where
  pub service : Service
  pub permissions : List String

-- The values of a request's context; a key that is absent is `none`.
pub record RequestContext : Type 0 where
  pub authenticated_service : Option AuthenticatedService
  pub api_user : Option ApiKey

abbrev pub no_auth_context : GoError
no_auth_context = ErrorNode.plain "authentication context missing" ∷ []

-- `GetAuthenticatedService` and `GetApiUser`; the context itself is `none` where it is nil.
unfoldable pub get_authenticated_service : Option RequestContext → Outcome AuthenticatedService
get_authenticated_service none = err no_auth_context
get_authenticated_service (some ctx) = elim ctx.authenticated_service [
  | none ↦ err no_auth_context
  | some service ↦ ok service
]

unfoldable pub get_api_user : Option RequestContext → Outcome ApiKey
get_api_user none = err no_auth_context
get_api_user (some ctx) = elim ctx.api_user [ none ↦ err no_auth_context | some key ↦ ok key ]

-- What becomes of a request: the next handler with its context, or an answer.
pub data Answer : Type 0 where
  next : RequestContext → Answer
  service_unauthorized forbidden : Answer
  token_failure : (reason : String) → Answer

-- `withServiceAuthContext`
abbrev pub with_service_auth_context : CachedServiceAuth → ApiKey → RequestContext
with_service_auth_context auth_data api_key = record {
  authenticated_service =
      some (record { service = auth_data.service; permissions = auth_data.permissions });
  api_user = some api_key;
}

abbrev pub no_context : RequestContext
no_context = record { authenticated_service = none; api_user = none }

-- The reason of the token error in a chain; every error that is written here has one.
unfoldable pub token_reason : GoError → String
token_reason [] = ""
token_reason (token_validation reason ∷ e) = reason
token_reason (node ∷ e) = token_reason e

-- `writeTokenFailure`
abbrev pub write_token_failure : GoError → Answer
write_token_failure e = token_failure ("Invalid token: " <> token_reason e)

abbrev pub api_key_scheme_prefix : String
api_key_scheme_prefix = "ApiKey-v1 "

-- `apiKeyFromRequest`, of the header `Authorization`.
unfoldable pub api_key_from_request : String → Outcome String
api_key_from_request header = do
  guard (has_prefix header api_key_scheme_prefix)
      (token_error "authorization header must use ApiKey-v1 scheme")
  let plaintext = trim_space (trim_prefix header api_key_scheme_prefix)
  guard (not (plaintext =s= "")) (token_error "authorization token missing")
  ok plaintext

abbrev pub invalid_api_key : GoError
invalid_api_key = token_error "invalid api key format"

-- The end of a key: the id of its service, and its token.
abbrev pub service_segment : String → String
service_segment plaintext = take_text 36 (drop_text (text_length plaintext - 72) plaintext)

abbrev pub token_segment : String → String
token_segment plaintext = drop_text (text_length plaintext - 36) plaintext

-- `parseAPIKeyValue`, where `parse_uuid` is `uuid.Parse`. Positions count code points here and bytes
-- in Go: they differ only for a text with other characters than ASCII near its end, which is no id.
unfoldable pub parse_api_key_value :
    (String → Outcome Uuid) → (prefix plaintext : String) → Outcome (Uuid × String)
parse_api_key_value parse_uuid prefix plaintext = do
  guard (has_prefix plaintext prefix) invalid_api_key
  guard (not (ltb (text_length plaintext) (text_length prefix + 72))) invalid_api_key
  service_id ← or_error invalid_api_key (parse_uuid (service_segment plaintext))
  _ ← or_error invalid_api_key (parse_uuid (token_segment plaintext))
  ok (service_id, token_segment plaintext)

pub record Config : Type 0 where
  pub notify_environment : String
  pub api_key_prefix : String
  pub secret_key : List String
  pub secret_keys : List String

-- `serviceAuthSecrets`
abbrev pub service_auth_secrets : Config → List String
service_auth_secrets cfg = elim cfg.secret_keys [ [] ↦ cfg.secret_key | _ ∷ _ ↦ cfg.secret_keys ]

abbrev pub is_no_rows : GoError → Bool
is_no_rows = chain_has (λ node. elim node [ no_rows ↦ true | _ ↦ false ])

-- The libraries, the clock and the repository. The clock may answer anew after each call.
pub record AuthEnvironment : Type 0 where
  pub hashes : Hashes
  pub jwt_json : JwtJson
  pub entry_json : EntryJson
  pub parse_uuid : String → Outcome Uuid
  pub now : Log → Instant
  pub repo : ServiceAuthRepository

-- `hasBearerPrefix`
unfoldable pub has_bearer_prefix : List String → Bool
has_bearer_prefix [] = false
has_bearer_prefix (scheme ∷ words) = equal_fold scheme "Bearer"

-- `apiKey.ExpiryDate.Valid && !apiKey.ExpiryDate.Time.After(time.Now())`
unfoldable pub is_expired : ApiKey → Instant → Bool
is_expired api_key now = elim api_key.expiry_date [ none ↦ false | some t ↦ not (after t now) ]

module _ (env : AuthEnvironment) where
  abbrev pub decided : Outcome (Unit {0}) → Answer
  decided (err e) = write_token_failure e
  decided (ok _) = next no_context

  -- `requireFixedIssuerJWT`; `none` is the panic of a blank secret.
  unfoldable pub require_fixed_issuer_jwt :
      (issuer secret : String) → Option (Log → String → Answer)
  require_fixed_issuer_jwt issuer secret =
      if blank secret
      then none
      else some (λ log header. decided (
          validate_fixed_issuer_jwt_request env.hashes env.jwt_json issuer secret (env.now log)
            header))

  -- `RequireCypressAuth`
  unfoldable pub require_cypress_auth :
      Config → (user secret : String) → Option (Log → String → Answer)
  require_cypress_auth cfg user secret =
      if blank secret
      then none
      else some (λ log header.
        if cfg.notify_environment =s= "production"
        then forbidden
        else decided (
            validate_fixed_issuer_jwt_request env.hashes env.jwt_json user secret (env.now log)
              header))

  -- The loop over the keys of a service.
  unfoldable pub try_keys : String → CachedServiceAuth → List ApiKey → Answer
  try_keys token auth_data [] = forbidden
  try_keys token auth_data (api_key ∷ keys) =
      let rest = try_keys token auth_data keys in
      elim (verify_jwt_signature env.hashes token api_key.secret) [
        | ok _ ↦ next (with_service_auth_context auth_data api_key)
        | err _ ↦ rest
      ]

  abbrev pub no_keys : CachedServiceAuth → Bool
  no_keys auth_data = elim auth_data.api_keys [ [] ↦ true | _ ∷ _ ↦ false ]

  unfoldable pub jwt_loaded : String → Outcome CachedServiceAuth → Answer
  unfolding try_keys
  jwt_loaded token (err e) = forbidden
  jwt_loaded token (ok auth_data) =
      if not auth_data.service.active || no_keys auth_data
      then forbidden
      else try_keys token auth_data auth_data.api_keys

  -- `handleServiceJWTAuth`
  unfoldable pub handle_service_jwt_auth : Option ServiceAuthCache → String → Log → Answer × Log
  unfolding jwt_loaded
  handle_service_jwt_auth cache header log =
      elim (decode_bearer_jwt_request env.jwt_json (env.now log) header) [
        | err e ↦ (forbidden, log)
        | ok (token, claims) ↦ elim (env.parse_uuid claims.iss) [
          | err e ↦ (forbidden, log)
          | ok service_id ↦
              let (loaded, log') = load_service_auth env.entry_json env.repo cache service_id log in
              (jwt_loaded token loaded, log')
        ]
      ]

  -- The loop over the variants of a token: the key that is found, if any, or an error.
  unfoldable pub find_key : Uuid → List String → Log → Outcome (Option ApiKey) × Log
  unfolding is_expired
  find_key service_id [] log = (ok none, log)
  find_key service_id (variant ∷ variants) log =
      let log' = get_api_key_by_secret variant ∷ log in
      let rest = find_key service_id variants log' in
      elim (env.repo.get_api_key_by_secret log variant) [
        | err e ↦ if is_no_rows e then rest else (err e, log')
        | ok api_key ↦
            if not (api_key.service_id =s= service_id)
            then rest
            else if is_expired api_key (env.now log')
            then rest
            else (ok (some api_key), log')
      ]

  abbrev pub key_loaded : ApiKey → Outcome CachedServiceAuth → Answer
  key_loaded matched (err e) = forbidden
  key_loaded matched (ok auth_data) =
      if not auth_data.service.active
      then forbidden
      else next (with_service_auth_context auth_data matched)

  unfoldable pub key_found : Option ServiceAuthCache → Outcome (Option ApiKey) → Log → Answer × Log
  key_found cache (err e) log = (forbidden, log)
  key_found cache (ok none) log = (forbidden, log)
  key_found cache (ok (some matched)) log =
      let (loaded, log') = load_service_auth env.entry_json env.repo cache matched.service_id log in
      (key_loaded matched loaded, log')

  -- The id of the service and the variants of the token, of the key in a header.
  unfoldable pub key_variants : Config → String → Outcome (Uuid × List String)
  unfolding api_key_from_request parse_api_key_value
  key_variants cfg header = do
    plaintext ← api_key_from_request header
    (service_id, token) ← parse_api_key_value env.parse_uuid cfg.api_key_prefix plaintext
    variants ← sign_api_key_token_with_all_keys env.hashes token (service_auth_secrets cfg)
    ok (service_id, variants)

  -- `handleServiceAPIKeyAuth`
  unfoldable pub handle_service_api_key_auth :
      Config → Option ServiceAuthCache → String → Log → Answer × Log
  unfolding key_variants find_key key_found
  handle_service_api_key_auth cfg cache header log = elim (key_variants cfg header) [
    | err e ↦ (forbidden, log)
    | ok (service_id, variants) ↦
        let (found, log') = find_key service_id variants log in key_found cache found log'
  ]

  -- `RequireAuth`
  unfoldable pub require_auth : Config → Option ServiceAuthCache → String → Log → Answer × Log
  unfolding handle_service_jwt_auth handle_service_api_key_auth has_bearer_prefix
  require_auth cfg cache header log =
      let authorization = trim_space header in
      let jwt = handle_service_jwt_auth cache header log in
      let api_key = handle_service_api_key_auth cfg cache header log in
      if authorization =s= ""
      then (service_unauthorized, log)
      else if has_bearer_prefix (fields authorization)
      then jwt
      else if has_prefix authorization api_key_scheme_prefix
      then api_key
      else (service_unauthorized, log)
