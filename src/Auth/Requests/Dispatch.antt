-- ===== src/Auth/Requests/Dispatch.antt =====
-- The two schemes of `RequireAuth`, and the handlers of a fixed issuer.
use notification_api_spec.Base.{
  ◌≡◌, ◌⊎◌, inl, inr, ap, sym, ◌∙◌, String, Option, none, some, if◌then◌else◌, arith, Bool-cases,
  Outcome-cases, trim_space, fields, ◌=s=◌, has_prefix, blank,
}
use notification_api_spec.Auth.Jwt.{validate_fixed_issuer_jwt_request}
use notification_api_spec.Auth.Jwt.Accepts.{IsGenuine, validate_fixed_issuer_iff}
use notification_api_spec.Auth.Cache.{Log, ServiceAuthCache}
use notification_api_spec.Auth.Requests.{
  Answer, next, forbidden, token_failure, no_context, RequestContext, AuthEnvironment, Config,
  decided, require_fixed_issuer_jwt, require_cypress_auth, require_auth, has_bearer_prefix,
  api_key_scheme_prefix,
}
use notification_api_spec.Auth.Requests.Passes.{IsServiceJwt, jwt_admits}
use notification_api_spec.Auth.Requests.Keys.{IsServiceKey, api_key-IsServiceKey}

-- The answer of a handler; `forbidden` where there is none.
abbrev run : Log → String → Option (Log → String → Answer) → Answer
run log header none = forbidden
run log header (some handler) = handler log header

module _ (env : AuthEnvironment) where
  -- A request that passes has a bearer token or an API key of an active service, as the two
  -- schemes want it.
  pub require_auth-passes :
      (cfg : Config) (cache : Option ServiceAuthCache) (header : String) (log : Log)
      (ctx : RequestContext)
      → (require_auth env cfg cache header log).0 ≡ next ctx
      → IsServiceJwt env cache header log ctx ⊎ IsServiceKey env cfg cache header ctx
  unfolding require_auth
  require_auth-passes cfg cache header log ctx e = elim (Bool-cases (trim_space header =s= "")) [
    | inl empty ↦ absurd (ground (arith, empty, e))
    | inr filled ↦ elim (Bool-cases (has_bearer_prefix (fields (trim_space header)))) [
      | inl bearer ↦ inl (jwt_admits env cache header log ctx (ground (arith, filled, bearer, e)))
      | inr other ↦ elim (Bool-cases (has_prefix (trim_space header) api_key_scheme_prefix)) [
        | inl key ↦ inr (
            api_key-IsServiceKey env cfg cache header log ctx
              (ground (arith, filled, other, key, e)))
        | inr none_known ↦ absurd (ground (arith, filled, other, none_known, e))
      ]
    ]
  ]

  handler_lem :
      (issuer secret : String) (handler : Log → String → Answer) (log : Log) (header : String)
      → require_fixed_issuer_jwt env issuer secret ≡ some handler
      → handler log header
        ≡ decided env (
            validate_fixed_issuer_jwt_request env.hashes env.jwt_json issuer secret
              (env.now log)
              header)
  unfolding require_fixed_issuer_jwt
  handler_lem issuer secret handler log header e = elim (Bool-cases (blank secret)) [
    | inl empty ↦ absurd (ground (arith, empty, e))
    | inr filled ↦ sym (rw filled at (ap (run log header) e))
  ]

  -- The handler of a fixed issuer passes exactly the genuine requests, and answers the others with
  -- the reason of the token's failure.
  pub fixed_issuer_decides :
      (issuer secret : String) (handler : Log → String → Answer) (log : Log) (header : String)
      → require_fixed_issuer_jwt env issuer secret ≡ some handler
      → (IsGenuine env.hashes env.jwt_json issuer secret (env.now log) header
          × (handler log header ≡ next no_context))
        ⊎ ((¬ IsGenuine env.hashes env.jwt_json issuer secret (env.now log) header)
            × ((reason : String) × (handler log header ≡ token_failure reason)))
  fixed_issuer_decides issuer secret handler log header e =
      let iff =
        validate_fixed_issuer_iff env.hashes env.jwt_json issuer secret (env.now log) header in
      let its = handler_lem issuer secret handler log header e in
      elim (Outcome-cases (
        validate_fixed_issuer_jwt_request env.hashes env.jwt_json issuer secret (env.now log)
          header)) [
            | inl (tt, valid) ↦ inl (iff.0 valid, its ∙ ap (decided env) valid)
            | inr (x, invalid) ↦ inr (
              λ genuine. absurd (ground (arith, iff.1 genuine, invalid)),
              (_, its ∙ ap (decided env) invalid),
            )
          ]

  -- In production the handler of the Cypress routes refuses every request; elsewhere it decides as
  -- that of a fixed issuer.
  cypress_decides :
      (cfg : Config) (user secret : String) (handler fixed : Log → String → Answer) (log : Log)
      (header : String)
      → require_cypress_auth env cfg user secret ≡ some handler
      → require_fixed_issuer_jwt env user secret ≡ some fixed
      → handler log header
        ≡ (if cfg.notify_environment =s= "production" then forbidden else fixed log header)
  unfolding require_cypress_auth
  cypress_decides cfg user secret handler fixed log header e f = elim (Bool-cases (blank secret)) [
    | inl empty ↦ absurd (ground (arith, empty, e))
    | inr filled ↦
        sym (rw filled at (ap (run log header) e))
        ∙ ap (λ a. if cfg.notify_environment =s= "production" then forbidden else a)
            (sym (handler_lem user secret fixed log header f))
  ]
