-- ===== src/Services/Callbacks/Tests.antt =====
-- Callbacks of a service.
use notification_api_spec.Base.{
  ok, String, ◌≡◌, true, false, refl, none, some, [], ◌∷◌, err, no_rows, Among, inl, inr, ◌∙◌, sym,
  arith, trim_space, is_space,
}
use notification_api_spec.Signing.{utf8}
use notification_api_spec.Signing.Base64.{encode, sextet_char, decode, char_sextet, sextets}
use notification_api_spec.Signing.Token.{Hashes, split_last, int_to_bytes, sign, unsign}
use notification_api_spec.Auth.Jwt.{unix}
use notification_api_spec.Services.{RepositoryConfig, Failures, current_api_key_secret}
use notification_api_spec.Services.Callbacks.{
  Callback, CallbackTables, reset_callback, suspend_unsuspend_callback,
}
use notification_api_spec.Services.Tokens.{unsign_bearer_token}
use notification_api_spec.Services.Callbacks.Resign.{
  set_token, read_token, resign_service_callbacks,
}
use notification_api_spec.Services.Tokens.Rotation.{Reads}
use notification_api_spec.Services.Callbacks.Resigned.{IsUnique, resign_keeps}
use notification_api_spec.Services.Callbacks.Stuck.{ReturnsNothing, change_returns_nothing}

abbrev hashes : Hashes
hashes = record { sha256 = λ bytes. bytes; hmac_sha256 = λ key message. 1 ∷ 2 ∷ 3 ∷ [] }

abbrev settings : RepositoryConfig
settings = record {
  api_key_prefix = "gcntfy-";
  api_key_secrets = "secret" ∷ [];
  dangerous_salt = "salt";
}

abbrev no_failures : Failures
no_failures q = none

abbrev callback : Callback
callback = record {
  id = "c1";
  service_id = "s1";
  url = "https://example.test";
  bearer_token = "pay.AQ.AQID";
  updated_at = none;
  updated_by_id = "u1";
  version = 1;
  callback_type = some "delivery_status";
  is_suspended = some false;
  suspended_at = none;
}

abbrev tables : CallbackTables
tables = record { callbacks = callback ∷ []; history = callback ∷ [] }

-- No statement is refused, and yet the row is not updated.
not_reset :
    reset_callback hashes settings no_failures
      (unix 10)
      10
      "s1"
      "c1"
      "u2"
      (some "https://example.org")
      none
      tables
    ≡ (err (no_rows ∷ []), tables)
unfolding reset_callback sign int_to_bytes unsign split_last encode sextet_char decode sextets
    char_sextet trim_space is_space utf8
not_reset = refl

change_returns_nothing_example :
    ReturnsNothing
      (reset_callback hashes settings no_failures
        (unix 10)
        10
        "s1"
        "c1"
        "u2"
        (some "https://example.org")
        none
        tables)
      tables
    × ReturnsNothing
        (suspend_unsuspend_callback hashes settings no_failures (unix 10) 10 "s1" "u2" true tables)
        tables
change_returns_nothing_example =
    change_returns_nothing hashes settings no_failures (unix 10) 10 "s1" "c1" "u2"
      (some "https://example.org") none true tables

-- A second secret has become the current one.
abbrev rotated : RepositoryConfig
rotated = record settings { api_key_secrets = "new" ∷ "secret" ∷ [] }

abbrev only_new : RepositoryConfig
only_new = record settings { api_key_secrets = "new" ∷ [] }

abbrev resigned : CallbackTables
resigned = record tables { callbacks = set_token "pay.Cg.AQID" callback ∷ [] }

did_resign :
    resign_service_callbacks hashes rotated no_failures (λ id. 10) true false tables
    ≡ ((1, ok tt), resigned)
unfolding resign_service_callbacks sign int_to_bytes unsign split_last encode sextet_char decode
    sextets char_sextet trim_space is_space utf8
did_resign = refl

only_new_serves : Reads hashes rotated only_new
unfolding current_api_key_secret trim_space is_space
only_new_serves = record { same_salt = refl; has_secret = λ secret e. inl (ground (arith, e)) }

is_unique : IsUnique tables.callbacks
is_unique r r' m m' e = elim m [
  | inl a ↦ elim m' [ inl b ↦ a ∙ sym b | inr x ↦ absurd x ]
  | inr x ↦ absurd x
]

was_read : read_token hashes rotated false "pay.AQ.AQID" ≡ ok "pay"
unfolding read_token unsign split_last encode sextet_char decode sextets char_sextet trim_space
    is_space utf8
was_read = refl

resign_keeps_example :
    (token : String) × Among (set_token token callback) resigned.callbacks
    × (unsign_bearer_token hashes only_new token ≡ ok "pay")
resign_keeps_example =
    resign_keeps hashes rotated no_failures only_new (λ id. 10) false 1 tables resigned callback
      "pay" did_resign (λ key message. (omega arith, (omega arith, (omega arith, tt))))
      only_new_serves is_unique (inl refl) refl was_read
