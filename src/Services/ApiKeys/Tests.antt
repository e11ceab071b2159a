-- ===== src/Services/ApiKeys/Tests.antt =====
-- A key that is created, used, and revoked.
use notification_api_spec.Base.{
  ◌≡◌, ◌≢◌, refl, String, true, false, none, some, [], ◌∷◌, ◌<>◌, ok, err, plain_error, arith,
  Among, is_space, trim_space,
}
use notification_api_spec.Delivery.{Uuid}
use notification_api_spec.Signing.Base64.{encode, sextet_char}
use notification_api_spec.Signing.Token.{Hashes, signature_of}
use notification_api_spec.Signing.ApiKeys.{sign_api_key_token}
use notification_api_spec.Auth.Jwt.{unix}
use notification_api_spec.Auth.Cache.{ApiKey, CachedServiceAuth, Log, load_service_auth}
use notification_api_spec.Auth.Requests.{
  next, AuthEnvironment, Config, with_service_auth_context, handle_service_api_key_auth,
  api_key_scheme_prefix, service_auth_secrets,
}
use notification_api_spec.Services.{RepositoryConfig, Failures}
use notification_api_spec.Services.ApiKeys.{
  KeyTables, key_by_secret, keys_of_service, created_row, revoked_row, create_api_key,
  revoke_api_key,
}
use notification_api_spec.Services.ApiKeys.Created.{IsWired, IsId, IsFresh, create-passes}
use notification_api_spec.Services.ApiKeys.Revoked.{revoke_removes}

abbrev service_id : Uuid
service_id = "5a5a5a5a-0000-4000-8000-000000000001"

abbrev token : Uuid
token = "7b7b7b7b-0000-4000-8000-000000000002"

abbrev plaintext : String
plaintext = "gcntfy-5a5a5a5a-0000-4000-8000-0000000000017b7b7b7b-0000-4000-8000-000000000002"

abbrev hashes : Hashes
hashes = record { sha256 = λ bytes. bytes; hmac_sha256 = λ key message. 1 ∷ 2 ∷ 3 ∷ [] }

abbrev settings : RepositoryConfig
settings = record {
  api_key_prefix = "gcntfy-";
  api_key_secrets = "secret" ∷ [];
  dangerous_salt = "salt";
}

abbrev no_failures : Failures
no_failures q = none

abbrev row : ApiKey
row = created_row "k1" "robot" "AQID" service_id "u1" "normal"

abbrev before : KeyTables
before = record { keys = []; history = [] }

abbrev with_key : KeyTables
with_key = record { keys = row ∷ []; history = row ∷ [] }

created :
    create_api_key no_failures hashes settings token "k1" service_id "robot" "u1" "normal" before
    ≡ (ok (row, plaintext), with_key)
unfolding create_api_key sign_api_key_token signature_of trim_space is_space encode sextet_char
created = refl

abbrev auth_data : CachedServiceAuth
auth_data = record {
  service = record {
    name = "Passports";
    active = true;
    research_mode = false;
    prefix_sms = false;
    email_from = "";
  };
  permissions = "email" ∷ [];
  api_keys = row ∷ [];
}

-- The middleware over the table after the creation.
abbrev env : AuthEnvironment
env = record {
  hashes = hashes;
  jwt_json = record {
    header = λ bytes. ok "HS256";
    claims = λ bytes. err (plain_error "no claims");
  };
  entry_json = record {
    marshal = λ entry. ok "{}";
    unmarshal = λ payload. err (plain_error "no entry");
  };
  parse_uuid = λ s. ok s;
  now = λ log. unix 1000;
  repo = record {
    get_service_by_id_with_api_keys = λ log id. ok auth_data.service;
    get_service_permissions = λ log id. ok auth_data.permissions;
    get_api_keys_by_service_id = λ log id. ok auth_data.api_keys;
    get_api_key_by_secret = λ log v. key_by_secret (unix 1000) with_key.keys v;
  };
}

abbrev config : Config
config = record {
  notify_environment = "staging";
  api_key_prefix = "gcntfy-";
  secret_key = [];
  secret_keys = "secret" ∷ [];
}

wired : IsWired env config settings (unix 1000) with_key.keys
unfolding service_auth_secrets
wired = record { same_prefix = refl; same_secrets = refl; reads = λ l v. refl }

service_read : IsId env service_id
service_read = record { long = omega arith; parsed = refl }

token_read : IsId env token
token_read = record { long = omega arith; parsed = refl }

fresh : IsFresh hashes settings (unix 1000) before.keys token
unfolding key_by_secret
fresh v e = refl

trimmed : trim_space plaintext ≡ plaintext
unfolding trim_space is_space
trimmed = refl

loads : (l : Log) → (load_service_auth env.entry_json env.repo none service_id l).0 ≡ ok auth_data
unfolding load_service_auth
loads l = refl

create-passes_example :
    (handle_service_api_key_auth env config none (api_key_scheme_prefix <> plaintext) []).0
    ≡ next (with_service_auth_context auth_data row)
create-passes_example =
    create-passes no_failures env settings config token "k1" service_id "robot" "u1" "normal" row
      plaintext before with_key (unix 1000) none auth_data [] created wired service_read token_read
      trimmed fresh loads refl

abbrev revoked : ApiKey
revoked = revoked_row (unix 2000) row

abbrev without_key : KeyTables
without_key = record { keys = revoked ∷ []; history = revoked ∷ row ∷ [] }

did_revoke :
    revoke_api_key no_failures (unix 2000) service_id "k1" with_key ≡ ok (some revoked, without_key)
unfolding revoke_api_key
did_revoke = refl

revoke_removes_example :
    (revoked.id ≡ "k1")
    × (revoked.service_id ≡ service_id)
    × (without_key.history ≡ revoked ∷ with_key.history)
    × ((v : String) (key : ApiKey)
        → key_by_secret (unix 2000) without_key.keys v ≡ ok key
        → key.id ≢ "k1")
    × ((s : Uuid) (key : ApiKey)
        → Among key (keys_of_service (unix 2000) without_key.keys s)
        → key.id ≢ "k1")
revoke_removes_example =
    revoke_removes no_failures (unix 2000) (unix 2000) service_id "k1" revoked with_key without_key
      did_revoke refl
