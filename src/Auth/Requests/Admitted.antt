-- ===== src/Auth/Requests/Admitted.antt =====
-- A request with a key that the service has passes.
use notification_api_spec.Base.{
  ◌≡◌, ◌⊎◌, ◌+◌, ◌≤◌, inl, inr, refl, ap, sym, subst, ◌∙◌, String, true, false, Option, some, List,
  [], ◌∷◌, Outcome, ok, err, GoError, arith, Among, Bool-cases, ◌=s=◌, text_length, eq_iff, ltb,
  blank,
}
use notification_api_spec.Delivery.{Uuid}
use notification_api_spec.Signing.ApiKeys.{sign_api_key_token_with_all_keys}
use notification_api_spec.Signing.ApiKeys.Variants.{IsVariant, variants_lem}
use notification_api_spec.Auth.Cache.{
  ApiKey, CachedServiceAuth, Log, ServiceAuthCache, load_service_auth, get_api_key_by_secret,
}
use notification_api_spec.Auth.Requests.{
  next, AuthEnvironment, Config, with_service_auth_context, api_key_from_request,
  parse_api_key_value, token_segment, service_auth_secrets, is_no_rows, is_expired, find_key,
  key_found, key_variants, handle_service_api_key_auth,
}
use notification_api_spec.Auth.Requests.Keys.{IsKeyHeader}

long_filled : (s : String) → 72 ≤ text_length s → (s =s= "") ≡ false
long_filled s h = elim (Bool-cases (s =s= "")) [
  | inl e ↦
      let same : s ≡ "" = (eq_iff s "").0 e in
      absurd (omega (arith, h, ap (λ t. text_length t) same))
  | inr e ↦ e
]

module _ (env : AuthEnvironment) where
  -- The table of keys has the key under one of the signatures of the token, and nothing else under
  -- the others.
  pub record IsKept (secrets : List String) (token : String) (key : ApiKey) : Type 0 where
    pub table : String → Outcome ApiKey
    pub reads : (log : Log) (v : String) → env.repo.get_api_key_by_secret log v ≡ table v
    pub stored : String
    pub its_signature : IsVariant env.hashes token secrets stored
    pub row : table stored ≡ ok key
    pub no_other :
        (v : String)
        → IsVariant env.hashes token secrets v
        → (table v ≡ ok key) ⊎ ((x : GoError) × (table v ≡ err x) × (is_no_rows x ≡ true))
    pub unexpired : (log : Log) → is_expired key (env.now log) ≡ false

  key_is_found :
      (secrets : List String) (token : String) (id : Uuid) (key : ApiKey)
      → (kept : IsKept secrets token key) → key.service_id ≡ id
      → (variants : List String) (log : Log)
      → ((v : String) → Among v variants → IsVariant env.hashes token secrets v)
      → Among kept.stored variants
      → (find_key env id variants log).0 ≡ ok (some key)
  unfolding find_key
  key_is_found secrets token id key kept mine [] log k m = absurd m
  key_is_found secrets token id key kept mine (v ∷ variants) log k m =
      let l = get_api_key_by_secret v ∷ log in
      let here = λ (row : kept.table v ≡ ok key).
        let got : env.repo.get_api_key_by_secret log v ≡ ok key = kept.reads log v ∙ row in
        let fresh = kept.unexpired l in
        let answer : (find_key env id (v ∷ variants) log).0 ≡ ok (some key) =
          ground (arith, got, fresh, mine, eq_iff key.service_id id) in
        answer in
      elim (kept.no_other v (k v (inl refl))) [
        | inl row ↦ here row
        | inr (x, missing, rows) ↦ elim m [
          | inl same ↦ here (ap kept.table (sym same) ∙ kept.row)
          | inr m' ↦
              let got : env.repo.get_api_key_by_secret log v ≡ err x = kept.reads log v ∙ missing in
              ground (
                arith,
                got,
                rows,
                key_is_found secrets token id key kept mine variants l (λ w n. k w (inr n)) m',
              )
        ]
      ]

  read_header :
      (cfg : Config) (header plaintext : String) (id : Uuid) (variants : List String)
      → IsKeyHeader env cfg header plaintext id
      → sign_api_key_token_with_all_keys env.hashes
          (token_segment plaintext)
          (service_auth_secrets cfg)
        ≡ ok variants
      → key_variants env cfg header ≡ ok (id, variants)
  unfolding key_variants api_key_from_request parse_api_key_value
  read_header cfg header plaintext id variants h e =
      let filled : (plaintext =s= "") ≡ false = long_filled plaintext (omega (arith, h.long)) in
      let in_length : ltb (text_length plaintext) (text_length cfg.api_key_prefix + 72) ≡ false =
        ground (arith, h.long) in
      rw (h.scheme, sym h.trimmed, filled, h.branded, in_length, h.its_service, h.token_parsed, e)
        refl

  -- A request with the prefix, the id of an active service and a token passes, if the table of keys
  -- has an unexpired key of the service under the signature of the token with one of the secrets,
  -- and nothing else under its other signatures. The next handler gets this key.
  pub api_key_passes :
      (cfg : Config) (cache : Option ServiceAuthCache) (header plaintext : String) (id : Uuid)
      (key : ApiKey) (auth_data : CachedServiceAuth) (log : Log)
      → IsKeyHeader env cfg header plaintext id
      → blank (token_segment plaintext) ≡ false
      → IsKept (service_auth_secrets cfg) (token_segment plaintext) key
      → key.service_id ≡ id
      → ((l : Log) → (load_service_auth env.entry_json env.repo cache id l).0 ≡ ok auth_data)
      → auth_data.service.active ≡ true
      → (handle_service_api_key_auth env cfg cache header log).0
        ≡ next (with_service_auth_context auth_data key)
  unfolding handle_service_api_key_auth key_found
  api_key_passes cfg cache header plaintext id key auth_data log h real kept mine loads active =
      let secrets = service_auth_secrets cfg in
      let token = token_segment plaintext in
      elim (variants_lem env.hashes token secrets real) [
        | inr (none_given, none_real) ↦ absurd (none_real kept.stored kept.its_signature)
        | inl (variants, given, distinct, k) ↦
            let read = read_header cfg header plaintext id variants h given in
            let m = (k kept.stored).1 kept.its_signature in
            let l = (find_key env id variants log).1 in
            let found = key_is_found secrets token id key kept mine variants log (λ v. (k v).0) m in
            let loaded : (load_service_auth env.entry_json env.repo cache key.service_id l).0
                ≡ ok auth_data =
              subst (λ i. (load_service_auth env.entry_json env.repo cache i l).0 ≡ ok auth_data)
                (sym mine) (loads l) in
            ground (arith, read, found, loaded, active)
      ]
