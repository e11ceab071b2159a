-- ===== src/Services/Tokens/Rotation.antt =====
-- Bearer tokens that are read with other secrets than those at their signing.
use notification_api_spec.Base.{
  ℕ, ◌≡◌, ap, sym, ◌∙◌, String, false, ◌<>◌, push, ok, arith, Among, inl, inr, Bool-cases,
  Outcome-cases, blank, blank-dotted,
}
use notification_api_spec.Signing.Base64.{encode}
use notification_api_spec.Signing.Token.{
  Hashes, int_to_bytes, signature_of, sign, sign_with_timestamp,
}
use notification_api_spec.Signing.Token.RoundTrip.{GivesBytes, unsign-sign_with_timestamp}
use notification_api_spec.Services.{RepositoryConfig, current_api_key_secret}
use notification_api_spec.Services.Tokens.{sign_bearer_token, unsign_bearer_token}

module _ (h : Hashes) (cfg : RepositoryConfig) where
  -- What has signed a token.
  signed_with :
      (now : ℕ) (token signed : String)
      → sign_bearer_token h cfg now token ≡ ok signed
      → (secret : String) × (current_api_key_secret cfg.api_key_secrets ≡ ok secret)
        × (blank secret ≡ false)
        × (blank cfg.dangerous_salt ≡ false)
        × (signed ≡ sign_with_timestamp h token secret cfg.dangerous_salt now)
  unfolding sign_bearer_token sign
  signed_with now token signed e =
      elim (Outcome-cases (current_api_key_secret cfg.api_key_secrets)) [
        | inr (x, no_secret) ↦ absurd (ground (arith, no_secret, e))
        | inl (secret, found) ↦ elim (Bool-cases (blank cfg.dangerous_salt)) [
          | inl no_salt ↦ absurd (ground (arith, found, no_salt, e))
          | inr salted ↦ elim (Bool-cases (blank secret)) [
            | inl empty ↦ absurd (ground (arith, found, salted, empty, e))
            | inr filled ↦
                (secret, found, filled, salted, sym (ground (arith, found, salted, filled, e)))
          ]
        ]
      ]

  -- A configuration that reads what `cfg` signs: the same salt, and the secret that signs among the
  -- others.
  pub record Reads (later : RepositoryConfig) : Type 0 where
    pub same_salt : later.dangerous_salt ≡ cfg.dangerous_salt
    pub has_secret :
        (secret : String)
        → current_api_key_secret cfg.api_key_secrets ≡ ok secret
        → Among secret later.api_key_secrets

  pub unsign-sign_bearer :
      (later : RepositoryConfig) (now : ℕ) (token signed : String)
      → GivesBytes h
      → Reads later
      → sign_bearer_token h cfg now token ≡ ok signed
      → unsign_bearer_token h later signed ≡ ok token
  unfolding unsign_bearer_token sign_with_timestamp
  unsign-sign_bearer later now token signed bytes r e =
      let (secret, found, filled, salted, its) = signed_with now token signed e in
      let ink : blank signed ≡ false =
        ap blank its
        ∙ blank-dotted (token <> push "." (encode (int_to_bytes now))) (
            signature_of h (token <> push "." (encode (int_to_bytes now))) secret
              cfg.dangerous_salt) in
      let read =
        unsign-sign_with_timestamp h token secret cfg.dangerous_salt now later.api_key_secrets bytes
          (r.has_secret secret found) filled in
      ground (arith, ink, r.same_salt, salted, read, its)
