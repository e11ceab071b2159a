-- ===== src/Auth/Tests.antt =====
-- A service with two keys, its requests, and a cache over a table that does not change.
use notification_api_spec.Base.{
  ℕ, ◌<◌, ◌^◌, ◌≡◌, ◌↔◌, ◌⊎◌, refl, inl, inr, String, true, false, not, none, some, List, [], ◌∷◌,
  ◌=s=◌, ◌&&◌, if◌then◌else◌, ok, err, plain_error, no_rows, arith, fields, trim_space, is_space,
  split_at, equal_fold,
}
use notification_api_spec.Delivery.{Service}
use notification_api_spec.Signing.{utf8}
use notification_api_spec.Signing.Base64.{decode, char_sextet}
use notification_api_spec.Signing.Token.{Hashes}
use notification_api_spec.Auth.Jwt
use notification_api_spec.Auth.Jwt.{Instant, JwtClaims, JwtJson, unix, after, earlier, later}
use notification_api_spec.Auth.Jwt.Accepts.{
  IsBearer, IsTimely, IsSigned, IsGenuine, verify-IsSigned,
}
use notification_api_spec.Auth.Jwt.Window.{IsInTime, check_claims_iff}
use notification_api_spec.Auth.Cache.{
  ApiKey, CachedServiceAuth, Log, ServiceAuthRepository, EntryJson, load_service_auth,
}
use notification_api_spec.Auth.Requests
use notification_api_spec.Auth.Requests.{
  Answer, next, forbidden, token_failure, no_context, AuthEnvironment, Config, RequestContext,
  with_service_auth_context, require_auth, require_fixed_issuer_jwt, require_cypress_auth,
  handle_service_jwt_auth, handle_service_api_key_auth, token_segment, service_auth_secrets,
}
use notification_api_spec.Auth.Requests.Passes.{IsFirst, IsServiceJwt, service_jwt_passes}
use notification_api_spec.Auth.Requests.Keys.{IsServiceKey}
use notification_api_spec.Auth.Requests.Dispatch.{require_auth-passes, fixed_issuer_decides}

abbrev service : Service
service = record {
  name = "Passports";
  active = true;
  research_mode = false;
  prefix_sms = false;
  email_from = "";
}

abbrev key : String → String → ApiKey
key id secret = record {
  id = id;
  name = id;
  secret = secret;
  service_id = "svc";
  expiry_date = none;
  created_by_id = "u1";
  version = 1;
  key_type = "normal";
}

-- Two keys, the second of which signs the token below.
abbrev repo_of : List ApiKey → ServiceAuthRepository
repo_of keys = record {
  get_service_by_id_with_api_keys = λ log id. ok service;
  get_service_permissions = λ log id. ok [];
  get_api_keys_by_service_id = λ log id. ok keys;
  get_api_key_by_secret = λ log secret. err (no_rows ∷ []);
}

abbrev keys : List ApiKey
keys = key "k1" "old" ∷ key "k2" "sk" ∷ []

-- The HMAC of a message is the key here.
abbrev hashes : Hashes
hashes = record { sha256 = λ bytes. bytes; hmac_sha256 = λ key message. key }

abbrev claims : JwtClaims
claims = record { iss = "svc"; exp = some 1000; iat = some 1000 }

abbrev json : JwtJson
json = record { header = λ bytes. ok "HS256"; claims = λ bytes. ok claims }

abbrev entry_json : EntryJson
entry_json = record {
  marshal = λ entry.
      if entry.service.active
        && (not entry.service.research_mode
            && (not entry.service.prefix_sms
                && (entry.service.email_from =s= ""
                    && (elim entry.permissions [ [] ↦ true | _ ∷ _ ↦ false ]
                        && elim entry.api_keys [ [] ↦ true | _ ∷ _ ↦ false ]))))
      then ok entry.service.name
      else err (plain_error "unsupported");
  unmarshal = λ name.
      ok (record { service = record service { name = name }; permissions = []; api_keys = [] });
}

abbrev env : AuthEnvironment
env = record {
  hashes = hashes;
  jwt_json = json;
  entry_json = entry_json;
  parse_uuid = λ s. ok s;
  now = λ log. unix 1020;
  repo = repo_of keys;
}

abbrev token : String
token = "YQ.YQ.c2s"

abbrev bearer_header : String
bearer_header = "Bearer YQ.YQ.c2s"

bearer : IsBearer bearer_header token
unfolding trim_space is_space fields equal_fold
bearer = record {
  scheme = "Bearer";
  filled = refl;
  two_words = refl;
  folds = refl;
  token_filled = refl;
}

timely : IsTimely json (unix 1020) token claims
unfolding split_at decode char_sextet trim_space is_space
timely = record {
  head = "YQ";
  payload = "YQ";
  signature = "c2s";
  head_bytes = 97 ∷ [];
  payload_bytes = 97 ∷ [];
  alg = "HS256";
  exp = 1000;
  iat = 1000;
  parts = refl;
  head_decoded = refl;
  head_read = refl;
  payload_decoded = refl;
  payload_read = refl;
  known_alg = refl;
  issued_by = refl;
  has_exp = refl;
  has_iat = refl;
  unexpired = refl;
  issued = refl;
}

signed : IsSigned hashes token "sk"
unfolding split_at decode char_sextet utf8
signed = record {
  head = "YQ";
  payload = "YQ";
  signature = "c2s";
  bytes = 115 ∷ 107 ∷ [];
  parts = refl;
  decoded = refl;
  same = refl;
}

genuine : IsGenuine hashes json "svc" "sk" (unix 1020) bearer_header
genuine = (token, claims, bearer, timely, signed, refl)

-- A token that expired thirty seconds ago passes, one that expired earlier does not.
abbrev edge : JwtClaims
edge = record { iss = "svc"; exp = some 1000; iat = some 1060 }

edge_exp : (exp : ℕ) → edge.exp ≡ some exp → exp < 2 ^ 61
edge_exp exp e = ground arith

edge_iat : (iat : ℕ) → edge.iat ≡ some iat → iat < 2 ^ 61
edge_iat iat e = ground arith

check_claims_iff_example :
    (Jwt.check_claims (unix 1030) "HS256" edge ≡ ok tt) ↔ IsInTime (unix 1030) "HS256" edge
check_claims_iff_example =
    check_claims_iff (unix 1030) "HS256" edge (omega arith) (omega arith) (omega arith) edge_exp
      edge_iat

too_late : Jwt.check_claims (unix 1031) "HS256" edge ≡ err (Jwt.token_error "token expired")
unfolding Jwt.check_claims trim_space
too_late = refl

handler : Log → String → Answer
handler log text =
    Requests.decided env
      (Jwt.validate_fixed_issuer_jwt_request hashes json "svc" "sk" (unix 1020) text)

handled : require_fixed_issuer_jwt env "svc" "sk" ≡ some handler
unfolding require_fixed_issuer_jwt handler trim_space is_space
handled = refl

fixed_issuer_decides_example :
    (IsGenuine hashes json "svc" "sk" (unix 1020) bearer_header
      × (handler [] bearer_header ≡ next no_context))
    ⊎ ((¬ IsGenuine hashes json "svc" "sk" (unix 1020) bearer_header)
        × ((reason : String) × (handler [] bearer_header ≡ token_failure reason)))
fixed_issuer_decides_example = fixed_issuer_decides env "svc" "sk" handler [] bearer_header handled

abbrev production : Config
production = record {
  notify_environment = "production";
  api_key_prefix = "gcntfy-";
  secret_key = "secret" ∷ [];
  secret_keys = [];
}

abbrev auth_data : CachedServiceAuth
auth_data = record { service = service; permissions = []; api_keys = keys }

loaded : (load_service_auth entry_json (repo_of keys) none "svc" []).0 ≡ ok auth_data
unfolding load_service_auth
loaded = refl

old_unsigned : ¬ IsSigned hashes token "old"
unfolding Jwt.verify_jwt_signature split_at decode char_sextet utf8
old_unsigned s =
    let verified : Jwt.verify_jwt_signature hashes token "old" ≡ ok tt =
      verify-IsSigned hashes token "old" s in
    absurd (ground (arith, verified))

first : IsFirst env token (key "k2" "sk") keys
first = inr (old_unsigned, inl (refl, signed))

service_jwt_passes_example :
    (handle_service_jwt_auth env none bearer_header []).0
    ≡ next (with_service_auth_context auth_data (key "k2" "sk"))
service_jwt_passes_example =
    service_jwt_passes env none bearer_header token claims "svc" auth_data (key "k2" "sk") [] bearer
      timely refl loaded refl first

-- Over `RequireAuth` as a whole.
required :
    (require_auth env production none bearer_header []).0
    ≡ next (with_service_auth_context auth_data (key "k2" "sk"))
unfolding require_auth fields trim_space is_space equal_fold
required =
    service_jwt_passes env none bearer_header token claims "svc" auth_data (key "k2" "sk") [] bearer
      timely refl loaded refl first

require_auth-passes_example :
    IsServiceJwt env none bearer_header [] (with_service_auth_context auth_data (key "k2" "sk"))
    ⊎ IsServiceKey env production none bearer_header
        (with_service_auth_context auth_data (key "k2" "sk"))
require_auth-passes_example =
    require_auth-passes env production none bearer_header []
      (with_service_auth_context auth_data (key "k2" "sk")) required
