-- ===== src/Signing/ApiKeys.antt =====
-- pkg/signing/api_keys.go: `SignAPIKeyToken` and `SignAPIKeyTokenWithAllKeys`.
pub mod Variants
use notification_api_spec.Base.{
  ℕ, ◌≡◌, ◌≢◌, refl, ap, sym, ◌∙◌, ◌⊎◌, inl, inr, String, Bool, true, false, Option, none, some,
  List, [], ◌∷◌, ◌++◌, ◌=s=◌, if◌then◌else◌, blank, trim_space, any, Outcome, ok, err, GoError,
  plain_error, Among, arith, eq_refl, eq_iff, Bool-cases, length,
}
use notification_api_spec.Signing.Token.{Hashes, signature_of}

module _ (h : Hashes) where
  unfoldable pub sign_api_key_token : String → String → Outcome String
  sign_api_key_token token secret =
      if blank token
      then err (plain_error "token is required")
      else if blank secret
      then err (plain_error "secret is required")
      else ok (signature_of h token secret "signer_api_key")

  abbrev pub is_seen : String → List String → Bool
  is_seen variant variants = any (λ v. v =s= variant) variants

  -- The loop over the secrets, after the variants found so far.
  pub add_variants : String → List String → List String → Outcome (List String)
  unfolding sign_api_key_token
  add_variants token variants [] = ok variants
  add_variants token variants (raw_secret ∷ secrets) =
      let secret = trim_space raw_secret in
      let unchanged = add_variants token variants secrets in
      if secret =s= "" then unchanged else elim (sign_api_key_token token secret) [
        | err e ↦ err e
        | ok variant ↦
            if is_seen variant variants
            then unchanged
            else add_variants token (variants ++ (variant ∷ [])) secrets
      ]

  pub at_least_one : Outcome (List String) → Outcome (List String)
  at_least_one (err e) = err e
  at_least_one (ok []) = err (plain_error "at least one secret is required")
  at_least_one (ok (variant ∷ variants)) = ok (variant ∷ variants)

  pub sign_api_key_token_with_all_keys : String → List String → Outcome (List String)
  unfolding add_variants at_least_one
  sign_api_key_token_with_all_keys token secrets = at_least_one (add_variants token [] secrets)
