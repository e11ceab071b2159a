-- ===== src/Auth/Cache/Tests.antt =====
-- A cache that keeps what was set, over a table that does not change.
use notification_api_spec.Base.{
  ◌≡◌, refl, inl, inr, String, Bool, true, false, not, Option, none, some, [], ◌∷◌, ◌=s=◌, ◌&&◌,
  if◌then◌else◌, ok, err, plain_error, no_rows, arith, eq_iff, Option-cases,
}
use notification_api_spec.Delivery.{Service}
use notification_api_spec.Auth.Cache.{
  CachedServiceAuth, Log, ServiceAuthRepository, RedisStore, EntryJson, new_service_auth_cache,
  load_service_auth, cache_get, cache_set, get_service, get_permissions, get_api_keys,
}
use notification_api_spec.Auth.Cache.Coherent.{
  Database, Reads, latest, KeepsLatest, RoundTrips, IsCoherent, this_cache, load-IsCoherent,
}

abbrev service : String → Service
service name = record {
  name = name;
  active = true;
  research_mode = false;
  prefix_sms = false;
  email_from = "";
}

abbrev entry : String → CachedServiceAuth
entry name = record { service = service name; permissions = []; api_keys = [] }

abbrev database : Database
database = record {
  services = λ id. ok (service "Passports");
  permissions = λ id. ok [];
  api_keys = λ id. ok [];
}

abbrev repo : ServiceAuthRepository
repo = record {
  get_service_by_id_with_api_keys = λ log id. ok (service "Passports");
  get_service_permissions = λ log id. ok [];
  get_api_keys_by_service_id = λ log id. ok [];
  get_api_key_by_secret = λ log secret. err (no_rows ∷ []);
}

abbrev is_simple : CachedServiceAuth → Bool
is_simple e =
    e.service.active
    && (not e.service.research_mode
        && (not e.service.prefix_sms
            && (e.service.email_from =s= ""
                && (elim e.permissions [ [] ↦ true | _ ∷ _ ↦ false ]
                    && elim e.api_keys [ [] ↦ true | _ ∷ _ ↦ false ]))))

-- Only simple entries are written, by their names.
abbrev json : EntryJson
json = record {
  marshal = λ e. if is_simple e then ok e.service.name else err (plain_error "unsupported");
  unmarshal = λ name. ok (entry name);
}

abbrev text_of : Option String → String
text_of none = ""
text_of (some payload) = payload

abbrev store : RedisStore
store = record {
  get = λ log key. ok (text_of (latest key log));
  set = λ log key payload seconds. ok tt;
  del = λ log key. ok tt;
}

keeps : KeepsLatest store
keeps log key payload e = elim (Option-cases (latest key log)) [
  | inl absent ↦ inl (ground (arith, absent, e))
  | inr (p, present) ↦ inr (ground (arith, present, e))
]

trips : RoundTrips json
trips e payload h = ground (arith, h, eq_iff e.service.email_from "")

reads : Reads repo database
reads = record {
  service_read = λ log id. refl;
  permissions_read = λ log id. refl;
  api_keys_read = λ log id. refl;
}

-- The second load asks Redis only.
abbrev first_log : Log
first_log =
    cache_set "service-auth:svc" "Passports" 30
    ∷ get_api_keys "svc"
    ∷ get_permissions "svc"
    ∷ get_service "svc"
    ∷ cache_get "service-auth:svc"
    ∷ []

first_load :
    load_service_auth json repo (some (new_service_auth_cache (some store))) "svc" []
    ≡ (ok (entry "Passports"), first_log)
unfolding load_service_auth
first_load = refl

second_load :
    load_service_auth json repo (some (new_service_auth_cache (some store))) "svc" first_log
    ≡ (ok (entry "Passports"), cache_get "service-auth:svc" ∷ first_log)
unfolding load_service_auth
second_load = refl

load-IsCoherent_example :
    ((load_service_auth json repo
        (some (this_cache json "service-auth:" store database))
        "svc"
        []).0
      ≡ ok (entry "Passports"))
    × IsCoherent json "service-auth:" store database
        (load_service_auth json repo
          (some (this_cache json "service-auth:" store database))
          "svc"
          []).1
load-IsCoherent_example =
    load-IsCoherent json "service-auth:" store database keeps trips repo reads "svc" [] tt
