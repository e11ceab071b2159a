-- ===== src/Auth/Cache.antt =====
-- internal/service/auth/cache.go, and `loadServiceAuth` of internal/middleware/auth.go: the cache
-- of services and their API keys.
pub mod Coherent
mod Tests
use notification_api_spec.Base.{
  ℕ, String, Bool, true, false, Option, none, some, List, [], ◌∷◌, ◌=s=◌, ◌<>◌, if◌then◌else◌,
  Outcome, ok, err, GoError, Done, Proc, pure, call, attempt, ◌>>=◌, ◌>>◌,
}
use notification_api_spec.Delivery.{Uuid, Service}
use notification_api_spec.Auth.Jwt.{Instant}

-- A row of `api_keys`, without its other times and the notes on a compromised key.
pub record ApiKey : Type 0 where
  pub id : Uuid
  pub name : String
  pub secret : String
  pub service_id : Uuid
  pub expiry_date : Option Instant
  pub created_by_id : Uuid
  pub version : ℕ
  pub key_type : String

pub record CachedServiceAuth : Type 0 where
  pub service : Service
  pub permissions : List String
  pub api_keys : List ApiKey

-- The calls of the repository and of Redis.
pub data AuthCall : Type 0 where
  get_service get_permissions get_api_keys : Uuid → AuthCall
  get_api_key_by_secret : String → AuthCall
  cache_get cache_del : (key : String) → AuthCall
  cache_set : (key payload : String) (seconds : ℕ) → AuthCall

abbrev pub Log : Type 0
Log = List AuthCall

-- `ServiceAuthRepository`
pub record ServiceAuthRepository : Type 0 where
  pub get_service_by_id_with_api_keys : Log → Uuid → Outcome Service
  pub get_service_permissions : Log → Uuid → Outcome (List String)
  pub get_api_keys_by_service_id : Log → Uuid → Outcome (List ApiKey)
  pub get_api_key_by_secret : Log → String → Outcome ApiKey

pub record RedisStore : Type 0 where
  pub get : Log → String → Outcome String
  pub set : Log → String → String → ℕ → Done
  pub del : Log → String → Done

-- What the client of Redis answers to a `Get`.
pub data RedisAnswer : Type 0 where
  value : String → RedisAnswer
  nil : RedisAnswer
  failure : GoError → RedisAnswer

-- `goRedisStore.Get`
abbrev pub go_redis_get : RedisAnswer → Outcome String
go_redis_get (RedisAnswer.value payload) = ok payload
go_redis_get RedisAnswer.nil = ok ""
go_redis_get (RedisAnswer.failure e) = err e

-- `json.Marshal` and `json.Unmarshal` of the entries.
pub record EntryJson : Type 0 where
  pub marshal : CachedServiceAuth → Outcome String
  pub unmarshal : String → Outcome CachedServiceAuth

pub record ServiceAuthCache : Type 0 where
  pub store : Option RedisStore
  pub prefix : String

abbrev pub default_cache_key_prefix : String
default_cache_key_prefix = "service-auth:"

-- `NewServiceAuthCache`
abbrev pub new_service_auth_cache : Option RedisStore → ServiceAuthCache
new_service_auth_cache store = record { store = store; prefix = default_cache_key_prefix }

abbrev pub cache_key : ServiceAuthCache → Uuid → String
cache_key c service_id =
    (if c.prefix =s= "" then default_cache_key_prefix else c.prefix) <> service_id

-- A payload that is read.
unfoldable pub entry_of : EntryJson → Outcome String → Option CachedServiceAuth
entry_of json (err e) = none
entry_of json (ok payload) =
    if payload =s= ""
    then none
    else elim (json.unmarshal payload) [ err e ↦ none | ok cached ↦ some cached ]

module _ (json : EntryJson) where
  -- The store of a cache that is not nil.
  abbrev pub with_store :
      {A : Type 0}
      → Option ServiceAuthCache
      → A
      → (ServiceAuthCache → RedisStore → Proc AuthCall A)
      → Proc AuthCall A
  with_store none absent f = pure absent
  with_store (some c) absent f = elim c.store [ none ↦ pure absent | some store ↦ f c store ]

  -- `ServiceAuthCache.Get`
  unfoldable pub get : Option ServiceAuthCache → Uuid → Proc AuthCall (Option CachedServiceAuth)
  unfolding entry_of
  get cache service_id = with_store cache none (λ c store.
      let key = cache_key c service_id in
      attempt (call (cache_get key) (λ log. store.get log key)) >>= λ answer.
      pure (entry_of json answer))

  -- `ServiceAuthCache.Set`, of data that is not nil. An error of the store is dropped.
  unfoldable pub set :
      Option ServiceAuthCache → Uuid → CachedServiceAuth → ℕ → Proc AuthCall (Unit {0})
  set cache service_id entry seconds = with_store cache tt (λ c store.
      let key = cache_key c service_id in
      elim (json.marshal entry) [
        | err e ↦ pure tt
        | ok payload ↦
            attempt
              (call (cache_set key payload seconds) (λ log. store.set log key payload seconds))
            >>= λ _. pure tt
      ])

  -- `ServiceAuthCache.Invalidate`
  unfoldable pub invalidate : Option ServiceAuthCache → Uuid → Proc AuthCall (Unit {0})
  invalidate cache service_id = with_store cache tt (λ c store.
      let key = cache_key c service_id in
      attempt (call (cache_del key) (λ log. store.del log key)) >>= λ _. pure tt)

  abbrev pub service_auth_cache_ttl : ℕ
  service_auth_cache_ttl = 30

  module _ (repo : ServiceAuthRepository) where
    -- The service, its permissions and its keys, from the repository.
    unfoldable pub fetch : Uuid → Proc AuthCall CachedServiceAuth
    fetch id =
        call (get_service id) (λ log. repo.get_service_by_id_with_api_keys log id) >>= λ service.
        call (get_permissions id) (λ log. repo.get_service_permissions log id) >>= λ permissions.
        call (get_api_keys id) (λ log. repo.get_api_keys_by_service_id log id) >>= λ api_keys.
        pure (record { service = service; permissions = permissions; api_keys = api_keys })

    -- `loadServiceAuth`
    unfoldable pub load_service_auth :
        Option ServiceAuthCache → Uuid → Proc AuthCall CachedServiceAuth
    unfolding get set fetch
    load_service_auth cache id = get cache id >>= λ cached. elim cached [
      | some entry ↦ pure entry
      | none ↦ fetch id >>= λ entry. set cache id entry service_auth_cache_ttl >> pure entry
    ]
