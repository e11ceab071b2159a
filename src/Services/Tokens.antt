-- ===== src/Services/Tokens.antt =====
-- internal/repository/services/dao.go: the signed bearer tokens of callbacks.
pub mod Rotation
use notification_api_spec.Base.{
  ℕ, String, Bool, true, false, not, Option, none, some, List, [], ◌∷◌, if◌then◌else◌, blank,
  Outcome, ok, err, plain_error,
}
use notification_api_spec.Base.Outcomes.{◌>>=◌, ◌>>◌, guard}
use notification_api_spec.Signing.Base64.{decode}
use notification_api_spec.Signing.Token.{Hashes, split_last, sign, unsign}
use notification_api_spec.Services.{RepositoryConfig, current_api_key_secret}

module _ (h : Hashes) (cfg : RepositoryConfig) where
  -- `signBearerToken`, at the time `now` in seconds.
  unfoldable pub sign_bearer_token : ℕ → String → Outcome String
  unfolding current_api_key_secret
  sign_bearer_token now token = do
    secret ← current_api_key_secret cfg.api_key_secrets
    guard (not (blank cfg.dangerous_salt)) (plain_error "dangerous salt is required")
    sign h now token secret cfg.dangerous_salt

  -- `unsignBearerToken`
  unfoldable pub unsign_bearer_token : String → Outcome String
  unsign_bearer_token token =
      if blank token
      then ok ""
      else if blank cfg.dangerous_salt
      then err (plain_error "dangerous salt is required")
      else unsign h token cfg.api_key_secrets cfg.dangerous_salt

  -- `unsignBearerTokenUnsafe`: the payload, no signature being checked.
  unfoldable pub unsign_bearer_token_unsafe : String → Outcome String
  unsign_bearer_token_unsafe token = if blank token then ok "" else elim (split_last token) [
    | none ↦ err (plain_error "invalid signed token")
    | some (text, _) ↦ elim (split_last text) [
      | none ↦ err (plain_error "timestamp missing")
      | some (payload, stamp) ↦ elim (decode stamp) [
        | none ↦ err (plain_error "malformed timestamp")
        | some _ ↦ ok payload
      ]
    ]
  ]
