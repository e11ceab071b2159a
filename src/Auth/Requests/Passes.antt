-- ===== src/Auth/Requests/Passes.antt =====
-- Which requests `RequireAuth` lets through by a bearer token.
use notification_api_spec.Base.{
  ◌≡◌, ◌≢◌, ◌⊎◌, inl, inr, refl, String, true, false, Option, List, [], ◌∷◌, ok, err, GoError,
  arith, Among, Outcome-cases,
}
use notification_api_spec.Delivery.{Uuid}
use notification_api_spec.Auth.Jwt.{JwtClaims, decode_bearer_jwt_request, verify_jwt_signature}
use notification_api_spec.Auth.Jwt.Accepts.{
  IsBearer, IsTimely, IsSigned, request_of, signed_of, decode_request-IsTimely, verify-IsSigned,
}
use notification_api_spec.Auth.Cache.{
  ApiKey, CachedServiceAuth, Log, ServiceAuthCache, load_service_auth,
}
use notification_api_spec.Auth.Requests.{
  next, RequestContext, AuthEnvironment, with_service_auth_context, try_keys, no_keys, jwt_loaded,
  handle_service_jwt_auth,
}

module _ (env : AuthEnvironment) where
  tried_of :
      (token : String) (auth_data : CachedServiceAuth) (keys : List ApiKey) (ctx : RequestContext)
      → try_keys env token auth_data keys ≡ next ctx
      → (key : ApiKey) × Among key keys
        × IsSigned env.hashes token key.secret
        × (ctx ≡ with_service_auth_context auth_data key)
  unfolding try_keys
  tried_of token auth_data [] ctx e = absurd (ground arith)
  tried_of token auth_data (key ∷ keys) ctx e =
      elim (Outcome-cases (verify_jwt_signature env.hashes token key.secret)) [
        | inl (_, verified) ↦ (
          key,
          inl refl,
          signed_of env.hashes token key.secret verified,
          ground (arith, verified, e),
        )
        | inr (x, refused) ↦
            let (found, m, s, c) = tried_of token auth_data keys ctx (ground (arith, refused, e)) in
            (found, inr m, s, c)
      ]

  -- A key of the service signs the token, and no key before it does.
  abbrev pub IsFirst : String → ApiKey → List ApiKey → Type 0
  IsFirst token key [] = ⊥
  IsFirst token key (k ∷ keys) =
      ((key ≡ k) × IsSigned env.hashes token k.secret)
      ⊎ ((¬ IsSigned env.hashes token k.secret) × IsFirst token key keys)

  first_tried :
      (token : String) (auth_data : CachedServiceAuth) (key : ApiKey) (keys : List ApiKey)
      → IsFirst token key keys
      → try_keys env token auth_data keys ≡ next (with_service_auth_context auth_data key)
  unfolding try_keys
  first_tried token auth_data key [] h = absurd h
  first_tried token auth_data key (k ∷ keys) (inl (same, signed)) =
      ground (arith, verify-IsSigned env.hashes token k.secret signed, same)
  first_tried token auth_data key (k ∷ keys) (inr (unsigned, h)) =
      elim (Outcome-cases (verify_jwt_signature env.hashes token k.secret)) [
        | inl (_, verified) ↦ absurd (unsigned (signed_of env.hashes token k.secret verified))
        | inr (x, refused) ↦ ground (arith, refused, first_tried token auth_data key keys h)
      ]

  -- What a bearer request that passes has.
  pub record IsServiceJwt (cache : Option ServiceAuthCache) (header : String) (log : Log)
      (ctx : RequestContext) : Type 0 where
    pub token : String
    pub claims : JwtClaims
    pub service_id : Uuid
    pub auth_data : CachedServiceAuth
    pub key : ApiKey
    pub bearer : IsBearer header token
    pub timely : IsTimely env.jwt_json (env.now log) token claims
    pub issuer : env.parse_uuid claims.iss ≡ ok service_id
    pub loaded : (load_service_auth env.entry_json env.repo cache service_id log).0 ≡ ok auth_data
    pub active : auth_data.service.active ≡ true
    pub listed : Among key auth_data.api_keys
    pub signed : IsSigned env.hashes token key.secret
    pub context : ctx ≡ with_service_auth_context auth_data key

  loaded_of :
      (token : String) (auth_data : CachedServiceAuth) (ctx : RequestContext)
      → jwt_loaded env token (ok auth_data) ≡ next ctx
      → (auth_data.service.active ≡ true)
        × (try_keys env token auth_data auth_data.api_keys ≡ next ctx)
  unfolding jwt_loaded
  loaded_of token auth_data ctx e = ground (arith, e)

  refused_load :
      (token : String) (x : GoError) (ctx : RequestContext)
      → jwt_loaded env token (err x) ≢ next ctx
  unfolding jwt_loaded
  refused_load token x ctx e = ground (arith, e)

  -- A bearer request that passes carries a token in time, whose issuer is an active service, signed
  -- with one of the keys of that service, and the next handler gets this service and this key.
  pub jwt_admits :
      (cache : Option ServiceAuthCache) (header : String) (log : Log) (ctx : RequestContext)
      → (handle_service_jwt_auth env cache header log).0 ≡ next ctx
      → IsServiceJwt cache header log ctx
  unfolding handle_service_jwt_auth
  jwt_admits cache header log ctx e =
      elim (Outcome-cases (decode_bearer_jwt_request env.jwt_json (env.now log) header)) [
        | inr (x, bad) ↦ absurd (ground (arith, bad, e))
        | inl ((token, claims), decoded) ↦ elim (Outcome-cases (env.parse_uuid claims.iss)) [
          | inr (x, bad) ↦ absurd (ground (arith, decoded, bad, e))
          | inl (service_id, issuer) ↦
              elim (Outcome-cases
                (load_service_auth env.entry_json env.repo cache service_id log).0) [
                  | inr (x, bad) ↦
                      absurd (refused_load token x ctx (ground (arith, decoded, issuer, bad, e)))
                  | inl (auth_data, loaded) ↦
                      let passed : jwt_loaded env token (ok auth_data) ≡ next ctx =
                        ground (arith, decoded, issuer, loaded, e) in
                      let (active, tried) = loaded_of token auth_data ctx passed in
                      let (key, listed, signed, context) =
                        tried_of token auth_data auth_data.api_keys ctx tried in
                      let (bearer, timely) =
                        request_of env.jwt_json (env.now log) header token claims decoded in
                      record {
                        token = token;
                        claims = claims;
                        service_id = service_id;
                        auth_data = auth_data;
                        key = key;
                        bearer = bearer;
                        timely = timely;
                        issuer = issuer;
                        loaded = loaded;
                        active = active;
                        listed = listed;
                        signed = signed;
                        context = context;
                      }
                ]
        ]
      ]

  keys_not_empty :
      (token : String) (key : ApiKey) (keys : List ApiKey)
      → IsFirst token key keys
      → (elim keys [ [] ↦ true | _ ∷ _ ↦ false ]) ≡ false
  keys_not_empty token key [] h = absurd h
  keys_not_empty token key (k ∷ keys) h = refl

  not_empty :
      (token : String) (key : ApiKey) (auth_data : CachedServiceAuth)
      → IsFirst token key auth_data.api_keys
      → no_keys env auth_data ≡ false
  not_empty token key auth_data h = keys_not_empty token key auth_data.api_keys h

  -- A bearer request passes if its token is in time, its issuer is an active service, and a key of
  -- the service signs it; the next handler gets the first such key.
  pub service_jwt_passes :
      (cache : Option ServiceAuthCache) (header token : String) (claims : JwtClaims) (id : Uuid)
      (auth_data : CachedServiceAuth) (key : ApiKey) (log : Log)
      → IsBearer header token
      → IsTimely env.jwt_json (env.now log) token claims
      → env.parse_uuid claims.iss ≡ ok id
      → (load_service_auth env.entry_json env.repo cache id log).0 ≡ ok auth_data
      → auth_data.service.active ≡ true
      → IsFirst token key auth_data.api_keys
      → (handle_service_jwt_auth env cache header log).0
        ≡ next (with_service_auth_context auth_data key)
  unfolding handle_service_jwt_auth jwt_loaded
  service_jwt_passes cache header token claims id auth_data key log b t issuer loaded active h =
      ground (
        arith,
        decode_request-IsTimely env.jwt_json (env.now log) header token claims b t,
        issuer,
        loaded,
        not_empty token key auth_data h,
        first_tried token auth_data key auth_data.api_keys h,
      )
