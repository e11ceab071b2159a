-- ===== src/Auth/Requests/Keys.antt =====
-- Which requests `RequireAuth` lets through by an API key.
use notification_api_spec.Base.{
  ◌≡◌, ◌+◌, ◌≤◌, inl, inr, refl, ap, sym, subst, ◌∙◌, String, true, false, not, Option, none, some,
  List, [], ◌∷◌, Outcome, ok, err, arith, Among, Bool-cases, Outcome-cases, trim_space, trim_prefix,
  ◌=s=◌, has_prefix, text_length, eq_iff, ltb,
}
use notification_api_spec.Base.Outcomes.{bind_ok, guard_ok, or_error-ok}
use notification_api_spec.Delivery.{Uuid}
use notification_api_spec.Signing.ApiKeys.{sign_api_key_token_with_all_keys}
use notification_api_spec.Signing.ApiKeys.Variants.{IsVariant, all_keys-IsVariant}
use notification_api_spec.Auth.Cache.{
  ApiKey, CachedServiceAuth, Log, ServiceAuthCache, load_service_auth, get_api_key_by_secret,
}
use notification_api_spec.Auth.Requests.{
  next, RequestContext, AuthEnvironment, Config, with_service_auth_context, api_key_from_request,
  parse_api_key_value, service_segment, token_segment, service_auth_secrets, is_no_rows, is_expired,
  find_key, key_found, key_variants, handle_service_api_key_auth, api_key_scheme_prefix,
}

-- The key in a header, and the id and the token that it ends with.
pub record IsKeyHeader (env : AuthEnvironment) (cfg : Config) (header plaintext : String)
    (id : Uuid) : Type 0 where
  pub scheme : has_prefix header api_key_scheme_prefix ≡ true
  pub trimmed : plaintext ≡ trim_space (trim_prefix header api_key_scheme_prefix)
  pub branded : has_prefix plaintext cfg.api_key_prefix ≡ true
  pub long : text_length cfg.api_key_prefix + 72 ≤ text_length plaintext
  pub its_service : env.parse_uuid (service_segment plaintext) ≡ ok id
  pub its_token : Uuid
  pub token_parsed : env.parse_uuid (token_segment plaintext) ≡ ok its_token

module _ (env : AuthEnvironment) where
  from_request :
      (header plaintext : String)
      → api_key_from_request header ≡ ok plaintext
      → (has_prefix header api_key_scheme_prefix ≡ true)
        × (plaintext ≡ trim_space (trim_prefix header api_key_scheme_prefix))
  unfolding api_key_from_request
  from_request header plaintext e = ground (arith, e)

  parsed :
      (cfg : Config) (header plaintext token : String) (id : Uuid)
      → api_key_from_request header ≡ ok plaintext
      → parse_api_key_value env.parse_uuid cfg.api_key_prefix plaintext ≡ ok (id, token)
      → IsKeyHeader env cfg header plaintext id × (token ≡ token_segment plaintext)
  unfolding parse_api_key_value
  parsed cfg header plaintext token id from e =
      let (scheme, trimmed) = from_request header plaintext from in
      let (_, branded, e) = bind_ok _ _ e in
      let (_, long, e) = bind_ok _ _ e in
      let in_length : not (ltb (text_length plaintext) (text_length cfg.api_key_prefix + 72))
          ≡ true =
        guard_ok _ _ long in
      let (id', its_service, e) = bind_ok _ _ e in
      let (its_token, token_parsed, e) = bind_ok _ _ e in
      let same : (id' ≡ id) × (token_segment plaintext ≡ token) = ground (arith, e) in
      (
        record {
          scheme = scheme;
          trimmed = trimmed;
          branded = guard_ok _ _ branded;
          long = ground (arith, in_length);
          its_service = or_error-ok _ _ its_service ∙ ap ok same.0;
          its_token = its_token;
          token_parsed = or_error-ok _ _ token_parsed;
        },
        sym same.1,
      )

  -- The key was found by a signature of the token with one of the secrets.
  pub record IsFound (cfg : Config) (token : String) (id : Uuid) (key : ApiKey) : Type 0 where
    pub variant : String
    pub log : Log
    pub signature : IsVariant env.hashes token (service_auth_secrets cfg) variant
    pub answered : env.repo.get_api_key_by_secret log variant ≡ ok key
    pub same_service : key.service_id ≡ id
    pub in_time : is_expired key (env.now (get_api_key_by_secret variant ∷ log)) ≡ false

  -- A lookup of one of the variants has given the key.
  record IsHit (id : Uuid) (variants : List String) (key : ApiKey) : Type 0 where
    variant : String
    log : Log
    listed : Among variant variants
    answered : env.repo.get_api_key_by_secret log variant ≡ ok key
    same_service : key.service_id ≡ id
    in_time : is_expired key (env.now (get_api_key_by_secret variant ∷ log)) ≡ false

  passed_over :
      (id : Uuid) (variant : String) (variants : List String) (key : ApiKey)
      → IsHit id variants key
      → IsHit id (variant ∷ variants) key
  passed_over id variant variants key h = record {
    variant = h.variant;
    log = h.log;
    listed = inr h.listed;
    answered = h.answered;
    same_service = h.same_service;
    in_time = h.in_time;
  }

  find_key-IsHit :
      (id : Uuid) (variants : List String) (log : Log) (key : ApiKey)
      → (find_key env id variants log).0 ≡ ok (some key)
      → IsHit id variants key
  unfolding find_key
  find_key-IsHit id [] log key e = absurd (ground arith)
  find_key-IsHit id (variant ∷ variants) log key e =
      let l = get_api_key_by_secret variant ∷ log in
      let later = λ (r : (find_key env id variants l).0 ≡ ok (some key)).
        passed_over id variant variants key (find_key-IsHit id variants l key r) in
      elim (Outcome-cases (env.repo.get_api_key_by_secret log variant)) [
        | inr (x, failed) ↦ elim (Bool-cases (is_no_rows x)) [
          | inl skipped ↦ later (ground (arith, failed, skipped, e))
          | inr real ↦ absurd (ground (arith, failed, real, e))
        ]
        | inl (k, got) ↦ elim (Bool-cases (k.service_id =s= id)) [
          | inr other ↦ later (ground (arith, got, other, e))
          | inl mine ↦ elim (Bool-cases (is_expired k (env.now l))) [
            | inl old ↦ later (ground (arith, got, mine, old, e))
            | inr fresh ↦
                let same : k ≡ key = ground (arith, got, mine, fresh, e) in
                let its_id : k.service_id ≡ id = ground (arith, eq_iff k.service_id id, mine) in
                record {
                  variant = variant;
                  log = log;
                  listed = inl refl;
                  answered = got ∙ ap ok same;
                  same_service = ap (λ q. q.service_id) (sym same) ∙ its_id;
                  in_time = subst (λ q. is_expired q (env.now l) ≡ false) same fresh;
                }
          ]
        ]
      ]

  -- What a request with an API key that passes has.
  pub record IsServiceKey (cfg : Config) (cache : Option ServiceAuthCache) (header : String)
      (ctx : RequestContext) : Type 0 where
    pub plaintext : String
    pub id : Uuid
    pub key : ApiKey
    pub auth_data : CachedServiceAuth
    pub load_log : Log
    pub key_header : IsKeyHeader env cfg header plaintext id
    pub found : IsFound cfg (token_segment plaintext) id key
    pub loaded : (load_service_auth env.entry_json env.repo cache id load_log).0 ≡ ok auth_data
    pub active : auth_data.service.active ≡ true
    pub context : ctx ≡ with_service_auth_context auth_data key

  key_found_of :
      (cache : Option ServiceAuthCache) (found : Outcome (Option ApiKey)) (log : Log)
      (ctx : RequestContext)
      → (key_found env cache found log).0 ≡ next ctx
      → (key : ApiKey) × (auth_data : CachedServiceAuth) × (found ≡ ok (some key))
        × ((load_service_auth env.entry_json env.repo cache key.service_id log).0 ≡ ok auth_data)
        × (auth_data.service.active ≡ true)
        × (ctx ≡ with_service_auth_context auth_data key)
  unfolding key_found
  key_found_of cache (err x) log ctx e = absurd (ground arith)
  key_found_of cache (ok none) log ctx e = absurd (ground arith)
  key_found_of cache (ok (some key)) log ctx e =
      elim (Outcome-cases (load_service_auth env.entry_json env.repo cache key.service_id log).0) [
        | inr (x, failed) ↦ absurd (ground (arith, failed, e))
        | inl (auth_data, loaded) ↦
            (key, auth_data, refl, loaded, ground (arith, loaded, e), ground (arith, loaded, e))
      ]

  split_variants :
      (cfg : Config) (header : String) (id : Uuid) (variants : List String)
      → key_variants env cfg header ≡ ok (id, variants)
      → (plaintext : String) × IsKeyHeader env cfg header plaintext id
        × (sign_api_key_token_with_all_keys env.hashes
              (token_segment plaintext)
              (service_auth_secrets cfg)
            ≡ ok variants)
  unfolding key_variants
  split_variants cfg header id variants e =
      let (plaintext, from, e) = bind_ok _ _ e in
      let (pair, parts, e) = bind_ok _ _ e in
      let (vs, signed, e) = bind_ok _ _ e in
      let same : (pair.0 ≡ id) × (vs ≡ variants) = ground (arith, e) in
      let (key_header, token) = parsed cfg header plaintext pair.1 pair.0 from parts in
      (
        plaintext,
        subst (IsKeyHeader env cfg header plaintext) same.0 key_header,
        ap (λ t. sign_api_key_token_with_all_keys env.hashes t (service_auth_secrets cfg))
              (sym token)
            ∙ signed
            ∙ ap ok same.1,
      )

  -- A request with an API key that passes carries the prefix, the id of an active service and a
  -- token, a signature of which with one of the secrets is that of a key of the service that has
  -- not expired; the next handler gets this service and this key.
  pub api_key-IsServiceKey :
      (cfg : Config) (cache : Option ServiceAuthCache) (header : String) (log : Log)
      (ctx : RequestContext)
      → (handle_service_api_key_auth env cfg cache header log).0 ≡ next ctx
      → IsServiceKey cfg cache header ctx
  unfolding handle_service_api_key_auth
  api_key-IsServiceKey cfg cache header log ctx e =
      elim (Outcome-cases (key_variants env cfg header)) [
        | inr (x, refused) ↦ absurd (ground (arith, refused, e))
        | inl ((id, variants), read) ↦
            let l = (find_key env id variants log).1 in
            let passed : (key_found env cache (find_key env id variants log).0 l).0 ≡ next ctx =
              ground (arith, read, e) in
            let (key, auth_data, found, loaded, active, context) =
              key_found_of cache (find_key env id variants log).0 l ctx passed in
            let (plaintext, key_header, signed) = split_variants cfg header id variants read in
            let hit = find_key-IsHit id variants log key found in
            record {
              plaintext = plaintext;
              id = id;
              key = key;
              auth_data = auth_data;
              load_log = l;
              key_header = key_header;
              found = record {
                variant = hit.variant;
                log = hit.log;
                signature =
                    (all_keys-IsVariant env.hashes (token_segment plaintext)
                        (service_auth_secrets cfg) variants signed hit.variant).0
                      hit.listed;
                answered = hit.answered;
                same_service = hit.same_service;
                in_time = hit.in_time;
              };
              loaded =
                  subst
                    (λ i. (load_service_auth env.entry_json env.repo cache i l).0 ≡ ok auth_data)
                    hit.same_service loaded;
              active = active;
              context = context;
            }
      ]
