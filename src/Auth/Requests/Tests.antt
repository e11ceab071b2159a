-- ===== src/Auth/Requests/Tests.antt =====
-- A request with an API key.
use notification_api_spec.Base.{
  ◌≡◌, refl, inl, inr, String, true, false, none, some, [], ◌∷◌, ◌=s=◌, if◌then◌else◌, Outcome, ok,
  err, plain_error, no_rows, arith, blank, eq_refl, is_space, trim_space, trim_prefix, has_prefix,
  take_text, drop_text, Bool-cases,
}
use notification_api_spec.Delivery.{Uuid}
use notification_api_spec.Signing.Token.{Hashes, signature_of}
use notification_api_spec.Auth.Jwt.{unix}
use notification_api_spec.Auth.Cache.{ApiKey, CachedServiceAuth, Log, load_service_auth}
use notification_api_spec.Auth.Requests.{
  next, AuthEnvironment, Config, with_service_auth_context, handle_service_api_key_auth,
  token_segment, is_expired,
}
use notification_api_spec.Auth.Requests.Keys.{IsKeyHeader}
use notification_api_spec.Auth.Requests.Admitted.{IsKept, api_key_passes}

abbrev service_id : Uuid
service_id = "5a5a5a5a-0000-4000-8000-000000000001"

abbrev token : String
token = "7b7b7b7b-0000-4000-8000-000000000002"

abbrev plaintext : String
plaintext = "gcntfy-5a5a5a5a-0000-4000-8000-0000000000017b7b7b7b-0000-4000-8000-000000000002"

abbrev key_header : String
key_header =
    "ApiKey-v1 gcntfy-5a5a5a5a-0000-4000-8000-0000000000017b7b7b7b-0000-4000-8000-000000000002"

abbrev hashes : Hashes
hashes = record { sha256 = λ bytes. bytes; hmac_sha256 = λ key message. key }

abbrev stored : String
stored = signature_of hashes token "secret" "signer_api_key"

-- The key expires an hour from now.
abbrev key : ApiKey
key = record {
  id = "k1";
  name = "k1";
  secret = stored;
  service_id = service_id;
  expiry_date = some (unix 4600);
  created_by_id = "u1";
  version = 1;
  key_type = "normal";
}

abbrev auth_data : CachedServiceAuth
auth_data = record {
  service = record {
    name = "Passports";
    active = true;
    research_mode = false;
    prefix_sms = false;
    email_from = "";
  };
  permissions = "email" ∷ [];
  api_keys = key ∷ [];
}

abbrev table : String → Outcome ApiKey
table v = if v =s= stored then ok key else err (no_rows ∷ [])

abbrev env : AuthEnvironment
env = record {
  hashes = hashes;
  jwt_json = record {
    header = λ bytes. ok "HS256";
    claims = λ bytes. err (plain_error "no claims");
  };
  entry_json = record {
    marshal = λ entry. ok "{}";
    unmarshal = λ payload. err (plain_error "no entry");
  };
  parse_uuid = λ s. ok s;
  now = λ log. unix 1000;
  repo = record {
    get_service_by_id_with_api_keys = λ log id. ok auth_data.service;
    get_service_permissions = λ log id. ok auth_data.permissions;
    get_api_keys_by_service_id = λ log id. ok auth_data.api_keys;
    get_api_key_by_secret = λ log v. table v;
  };
}

abbrev config : Config
config = record {
  notify_environment = "staging";
  api_key_prefix = "gcntfy-";
  secret_key = "unused" ∷ [];
  secret_keys = "newer" ∷ "secret" ∷ [];
}

read : IsKeyHeader env config key_header plaintext service_id
unfolding trim_space trim_prefix is_space has_prefix take_text drop_text
read = record {
  scheme = refl;
  trimmed = refl;
  branded = refl;
  long = omega arith;
  its_service = refl;
  its_token = token;
  token_parsed = refl;
}

kept : IsKept env config.secret_keys (token_segment plaintext) key
unfolding trim_space is_space is_expired drop_text
kept = record {
  table = table;
  reads = λ log v. refl;
  stored = stored;
  its_signature = ("secret", inr (inl refl), refl, refl);
  row = rw (eq_refl stored) refl;
  no_other = λ v real. elim (Bool-cases (v =s= stored)) [
    | inl e ↦ rw e (inl refl)
    | inr e ↦ rw e (inr (no_rows ∷ [], refl, refl))
  ];
  unexpired = λ log. refl;
}

filled : blank (token_segment plaintext) ≡ false
unfolding trim_space is_space drop_text
filled = refl

loads : (l : Log) → (load_service_auth env.entry_json env.repo none service_id l).0 ≡ ok auth_data
unfolding load_service_auth
loads l = refl

api_key_passes_example :
    (handle_service_api_key_auth env config none key_header []).0
    ≡ next (with_service_auth_context auth_data key)
api_key_passes_example =
    api_key_passes env config none key_header plaintext service_id key auth_data [] read filled kept
      refl loads refl
