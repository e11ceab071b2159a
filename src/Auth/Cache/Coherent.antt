-- ===== src/Auth/Cache/Coherent.antt =====
-- The cache in front of a database that does not change.
use text.Mathlib.TextLemmas.{append_cancel_left}
use notification_api_spec.Base.{
  ℕ, ◌≡◌, ◌⊎◌, inl, inr, refl, ap, sym, subst, ◌∙◌, String, Option, none, some, List, [], ◌∷◌,
  ◌=s=◌, if◌then◌else◌, Outcome, ok, arith, eq_iff, Bool-cases, Option-cases, Outcome-cases,
}
use notification_api_spec.Base.Outcomes
use notification_api_spec.Delivery.{Uuid, Service}
use notification_api_spec.Auth.Cache.{
  ApiKey, CachedServiceAuth, Log, ServiceAuthRepository, RedisStore, EntryJson, ServiceAuthCache,
  cache_key, entry_of, get, set, fetch, load_service_auth, get_service, get_permissions,
  get_api_keys, get_api_key_by_secret, cache_get, cache_del, cache_set,
}

-- A database that does not change.
pub record Database : Type 0 where
  pub services : Uuid → Outcome Service
  pub permissions : Uuid → Outcome (List String)
  pub api_keys : Uuid → Outcome (List ApiKey)

-- What it says of a service.
abbrev pub looked_up : Database → Uuid → Outcome CachedServiceAuth
looked_up db id = Outcomes.◌>>=◌ (db.services id) (λ service.
    Outcomes.◌>>=◌ (db.permissions id) (λ permissions. Outcomes.◌>>=◌ (db.api_keys id) (λ api_keys.
      ok (record { service = service; permissions = permissions; api_keys = api_keys }))))

-- The repository reads it.
pub record Reads (repo : ServiceAuthRepository) (db : Database) : Type 0 where
  pub service_read :
      (log : Log) (id : Uuid) → repo.get_service_by_id_with_api_keys log id ≡ db.services id
  pub permissions_read :
      (log : Log) (id : Uuid) → repo.get_service_permissions log id ≡ db.permissions id
  pub api_keys_read :
      (log : Log) (id : Uuid) → repo.get_api_keys_by_service_id log id ≡ db.api_keys id

-- The payload that was last set for a key and not deleted since.
abbrev pub latest : String → Log → Option String
latest key [] = none
latest key (cache_set k payload seconds ∷ log) = if k =s= key then some payload else latest key log
latest key (cache_del k ∷ log) = if k =s= key then none else latest key log
latest key (_ ∷ log) = latest key log

-- Redis answers with the payload that was last set, unless it fails or has dropped the key.
abbrev pub KeepsLatest : RedisStore → Type 0
KeepsLatest store =
    (log : Log) (key payload : String)
    → store.get log key ≡ ok payload
    → (payload ≡ "") ⊎ (latest key log ≡ some payload)

-- Reading an entry that was written gives it back.
abbrev pub RoundTrips : EntryJson → Type 0
RoundTrips json =
    (entry : CachedServiceAuth) (payload : String)
    → json.marshal entry ≡ ok payload
    → json.unmarshal payload ≡ ok entry

module _ (json : EntryJson) (prefix : String) (store : RedisStore) (db : Database) where
  abbrev pub this_cache : ServiceAuthCache
  this_cache = record { store = some store; prefix = prefix }

  -- The payload is that of what the database says of the service of the key.
  pub record IsEntry (key payload : String) : Type 0 where
    pub id : Uuid
    pub entry : CachedServiceAuth
    pub its_key : key ≡ cache_key this_cache id
    pub said : looked_up db id ≡ ok entry
    pub written : json.marshal entry ≡ ok payload

  -- Every payload that was set is one.
  abbrev pub IsCoherent : Log → Type 0
  IsCoherent [] = Unit
  IsCoherent (cache_set key payload seconds ∷ log) = IsEntry key payload × IsCoherent log
  IsCoherent (_ ∷ log) = IsCoherent log

  latest-IsEntry :
      (key payload : String) (log : Log)
      → latest key log ≡ some payload
      → IsCoherent log
      → IsEntry key payload
  latest-IsEntry key payload [] e h = absurd (ground arith)
  latest-IsEntry key payload (cache_set k p seconds ∷ log) e (entry, h) =
      elim (Bool-cases (k =s= key)) [
        | inl same ↦
            let k_same : k ≡ key = ground (arith, eq_iff k key, same) in
            let p_same : p ≡ payload = ground (arith, same, e) in
            subst (λ q. IsEntry q payload) k_same (subst (λ q. IsEntry k q) p_same entry)
        | inr other ↦ latest-IsEntry key payload log (ground (arith, other, e)) h
      ]
  latest-IsEntry key payload (cache_del k ∷ log) e h = elim (Bool-cases (k =s= key)) [
    | inl same ↦ absurd (ground (arith, same, e))
    | inr other ↦ latest-IsEntry key payload log (ground (arith, other, e)) h
  ]
  latest-IsEntry key payload (cache_get k ∷ log) e h = latest-IsEntry key payload log e h
  latest-IsEntry key payload (get_service i ∷ log) e h = latest-IsEntry key payload log e h
  latest-IsEntry key payload (get_permissions i ∷ log) e h = latest-IsEntry key payload log e h
  latest-IsEntry key payload (get_api_keys i ∷ log) e h = latest-IsEntry key payload log e h
  latest-IsEntry key payload (get_api_key_by_secret s ∷ log) e h =
      latest-IsEntry key payload log e h

  cached_said :
      (id : Uuid) (payload : String) (entry : CachedServiceAuth)
      → RoundTrips json
      → IsEntry (cache_key this_cache id) payload
      → json.unmarshal payload ≡ ok entry
      → looked_up db id ≡ ok entry
  cached_said id payload entry trips e read =
      let same : e.id ≡ id = append_cancel_left _ e.id id (sym e.its_key) in
      let again : json.unmarshal payload ≡ ok e.entry = trips e.entry payload e.written in
      let entries : e.entry ≡ entry = ground (arith, again, read) in
      subst (λ i. looked_up db i ≡ ok entry) same (e.said ∙ ap ok entries)

  module _ (keeps : KeepsLatest store) (trips : RoundTrips json) where
    -- A hit is what the database says.
    hit_said :
        (id : Uuid) (log : Log) (entry : CachedServiceAuth)
        → IsCoherent log
        → entry_of json (store.get log (cache_key this_cache id)) ≡ some entry
        → looked_up db id ≡ ok entry
    unfolding entry_of
    hit_said id log entry h e = elim (Outcome-cases (store.get log (cache_key this_cache id))) [
      | inr (x, failed) ↦ absurd (ground (arith, failed, e))
      | inl (payload, got) ↦ elim (Outcome-cases (json.unmarshal payload)) [
        | inr (x, unread) ↦ absurd (ground (arith, got, unread, e))
        | inl (entry', read) ↦ elim (keeps log (cache_key this_cache id) payload got) [
          | inl empty ↦ absurd (ground (arith, got, read, e, eq_iff payload ""))
          | inr last ↦
              let same : entry' ≡ entry = ground (arith, got, read, e) in
              cached_said id payload entry trips
                (latest-IsEntry (cache_key this_cache id) payload log last h) (read ∙ ap ok same)
        ]
      ]
    ]

    module _ (repo : ServiceAuthRepository) (reads : Reads repo db) where
      fetch_lem :
          (id : Uuid) (log : Log)
          → IsCoherent log
          → ((fetch json repo id log).0 ≡ looked_up db id) × IsCoherent (fetch json repo id log).1
      unfolding fetch
      fetch_lem id log h = ground (
        arith,
        reads.service_read log id,
        reads.permissions_read (get_service id ∷ log) id,
        reads.api_keys_read (get_permissions id ∷ get_service id ∷ log) id,
      )

      set-IsCoherent :
          (id : Uuid) (entry : CachedServiceAuth) (seconds : ℕ) (log : Log)
          → looked_up db id ≡ ok entry
          → IsCoherent log
          → ((set json (some this_cache) id entry seconds log).0 ≡ ok tt)
            × IsCoherent (set json (some this_cache) id entry seconds log).1
      unfolding set
      set-IsCoherent id entry seconds log said h = elim (Outcome-cases (json.marshal entry)) [
        | inl (payload, written) ↦
            let e : IsEntry (cache_key this_cache id) payload = record {
              id = id;
              entry = entry;
              its_key = refl;
              said = said;
              written = written;
            } in
            rw written (refl, (e, h))
        | inr (x, unwritten) ↦ rw unwritten (refl, h)
      ]

      get_lem :
          (id : Uuid) (log : Log)
          → get json (some this_cache) id log ≡ (
            ok (entry_of json (store.get log (cache_key this_cache id))),
            cache_get (cache_key this_cache id) ∷ log,
          )
      unfolding get
      get_lem id log = refl

      -- Through the cache the middleware reads what the database says, an error included, whatever
      -- was read before: over a database that does not change, with a Redis that answers with the
      -- payload last set for the key or with nothing, and JSON that reads back what it wrote.
      pub load-IsCoherent :
          (id : Uuid) (log : Log)
          → IsCoherent log
          → ((load_service_auth json repo (some this_cache) id log).0 ≡ looked_up db id)
            × IsCoherent (load_service_auth json repo (some this_cache) id log).1
      unfolding load_service_auth get
      load-IsCoherent id log h =
          let asked = cache_get (cache_key this_cache id) ∷ log in
          elim (Option-cases (entry_of json (store.get log (cache_key this_cache id)))) [
            | inl miss ↦
                let (answer, after) = fetch_lem id asked h in
                elim (Outcome-cases (looked_up db id)) [
                  | inl (entry, said) ↦
                      let stored =
                        set-IsCoherent id entry 30 (fetch json repo id asked).1 said after in
                      rw (miss, answer, said, stored.0) (refl, stored.1)
                  | inr (x, said) ↦ rw (miss, answer, said) (refl, after)
                ]
            | inr (entry, hit) ↦ rw hit (sym (hit_said id log entry h hit), h)
          ]
