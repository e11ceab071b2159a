-- ===== src/Signing/ApiKeys/Variants.antt =====
-- The variants of a token that `SignAPIKeyTokenWithAllKeys` gives.
use notification_api_spec.Base.{
  ◌≡◌, ◌↔◌, refl, ap, sym, subst, ◌∙◌, ◌⊎◌, inl, inr, String, true, false, List, [], ◌∷◌, ◌++◌,
  if◌then◌else◌, blank, trim_space, ok, err, plain_error, Among, arith, eq_iff, Bool-cases,
  Outcome-cases, ◌≢◌, blank-trim_space, eq_iff,
}
use notification_api_spec.Signing.Token.{Hashes, signature_of}
use notification_api_spec.Signing.ApiKeys.{
  sign_api_key_token, is_seen, add_variants, at_least_one, sign_api_key_token_with_all_keys,
}

module _ (h : Hashes) (token : String) where
  abbrev variant_of : String → String
  variant_of secret = signature_of h token (trim_space secret) "signer_api_key"

  -- The variants of the secrets in order, a variant being kept where it first stands.
  abbrev pub variants_after : List String → List String → List String
  variants_after seen [] = seen
  variants_after seen (secret ∷ secrets) =
      let unchanged = variants_after seen secrets in
      let extended = variants_after (seen ++ (variant_of secret ∷ [])) secrets in
      if blank secret
      then unchanged
      else if is_seen h (variant_of secret) seen
      then unchanged
      else extended

  -- Signed with a secret of the list that is not blank.
  abbrev pub IsVariant : List String → String → Type 0
  IsVariant secrets v =
      (secret : String) × Among secret secrets × (blank secret ≡ false) × (v ≡ variant_of secret)

  -- No text stands twice.
  abbrev pub IsDistinct : List String → Type 0
  IsDistinct [] = Unit
  IsDistinct (v ∷ vs) = ¬ (Among v vs) × IsDistinct vs

  add_variants_lem :
      (seen secrets : List String)
      → blank token ≡ false
      → add_variants h token seen secrets ≡ ok (variants_after seen secrets)
  unfolding add_variants sign_api_key_token
  add_variants_lem seen [] p = refl
  add_variants_lem seen (secret ∷ secrets) p = ground (
    arith,
    add_variants_lem seen secrets p,
    add_variants_lem (seen ++ (variant_of secret ∷ [])) secrets p,
    blank-trim_space secret,
  )

  is_seen_iff : (v : String) (vs : List String) → (is_seen h v vs ≡ true) ↔ Among v vs
  is_seen_iff v [] = (λ e. ground arith, λ m. absurd m)
  is_seen_iff v (w ∷ vs) = ground (arith, is_seen_iff v vs, eq_iff w v)

  Among-append-one :
      (v w : String) (vs : List String) → Among v (vs ++ (w ∷ [])) ↔ (Among v vs ⊎ (v ≡ w))
  Among-append-one v w [] = ground arith
  Among-append-one v w (x ∷ vs) = ground (arith, Among-append-one v w vs)

  abbrev IsHere : String → String → Type 0
  IsHere secret v = (blank secret ≡ false) × (v ≡ variant_of secret)

  IsVariant-cons :
      (secret : String) (secrets : List String) (v : String)
      → IsVariant (secret ∷ secrets) v ↔ (IsHere secret v ⊎ IsVariant secrets v)
  IsVariant-cons secret secrets v = (
    λ (s, m, real, e). elim m [
      | inl same ↦ inl (sym (ap (λ t. blank t) same) ∙ real, e ∙ ap variant_of same)
      | inr m' ↦ inr (s, m', real, e)
    ],
    λ here. elim here [
      | inl (real, e) ↦ (secret, inl refl, real, e)
      | inr (s, m, real, e) ↦ (s, inr m, real, e)
    ],
  )

  skip_iff : {R S V V' H : Type 0} → (R ↔ (S ⊎ V)) → (V' ↔ (H ⊎ V)) → (H → S) → (R ↔ (S ⊎ V'))
  skip_iff r v s = ground (arith, r, v, s)

  add_iff :
      {R S S' V V' H : Type 0} → (R ↔ (S' ⊎ V)) → (S' ↔ (S ⊎ H)) → (V' ↔ (H ⊎ V)) → (R ↔ (S ⊎ V'))
  add_iff r s v = ground (arith, r, v, s)

  is_here :
      (seen : List String) (secret v : String)
      → blank secret ≡ false
      → Among v (seen ++ (variant_of secret ∷ [])) ↔ (Among v seen ⊎ IsHere secret v)
  is_here seen secret v real = ground (arith, Among-append-one v (variant_of secret) seen)

  variants_after_iff :
      (v : String) (seen secrets : List String)
      → Among v (variants_after seen secrets) ↔ (Among v seen ⊎ IsVariant secrets v)
  variants_after_iff v seen [] =
      (λ m. inl m, λ m. elim m [ inl m' ↦ m' | inr (s, m', p, q) ↦ absurd m' ])
  variants_after_iff v seen (secret ∷ secrets) =
      let later = IsVariant-cons secret secrets v in
      elim (Bool-cases (blank secret)) [
        | inl no_secret ↦
            rw no_secret
              (skip_iff (variants_after_iff v seen secrets) later (λ (real, e). ground arith))
        | inr real ↦ elim (Bool-cases (is_seen h (variant_of secret) seen)) [
          | inl old ↦
              rw (real, old)
                (skip_iff (variants_after_iff v seen secrets) later (λ (r, e).
                  subst (λ w. Among w seen) (sym e) ((is_seen_iff (variant_of secret) seen).0 old)))
          | inr new ↦
              rw (real, new)
                (add_iff (variants_after_iff v (seen ++ (variant_of secret ∷ [])) secrets)
                  (is_here seen secret v real) later)
        ]
      ]

  IsDistinct-append_one :
      (w : String) (vs : List String) → IsDistinct vs → ¬ (Among w vs) → IsDistinct (vs ++ (w ∷ []))
  IsDistinct-append_one w [] d n = (λ m. m, tt)
  IsDistinct-append_one w (v ∷ vs) (p, d) n = (
    λ m. elim ((Among-append-one v w vs).0 m) [ inl m' ↦ p m' | inr e ↦ n (inl (sym e)) ],
    IsDistinct-append_one w vs d (λ m. n (inr m)),
  )

  variants_after-IsDistinct :
      (secrets seen : List String) → IsDistinct seen → IsDistinct (variants_after seen secrets)
  variants_after-IsDistinct [] seen d = d
  variants_after-IsDistinct (secret ∷ secrets) seen d = elim (Bool-cases (blank secret)) [
    | inl no_secret ↦ rw no_secret (variants_after-IsDistinct secrets seen d)
    | inr real ↦ elim (Bool-cases (is_seen h (variant_of secret) seen)) [
      | inl old ↦ rw (real, old) (variants_after-IsDistinct secrets seen d)
      | inr new ↦
          let unseen : ¬ (Among (variant_of secret) seen) =
            ground (arith, is_seen_iff (variant_of secret) seen) in
          rw (real, new)
            (variants_after-IsDistinct secrets (seen ++ (variant_of secret ∷ []))
              (IsDistinct-append_one (variant_of secret) seen d unseen))
    ]
  ]

  from_variants :
      (secrets variants : List String)
      → add_variants h token [] secrets ≡ ok variants
      → IsDistinct variants
      → ((v : String) → Among v variants ↔ (Among v [] ⊎ IsVariant secrets v))
      → ((vs : List String) × (sign_api_key_token_with_all_keys h token secrets ≡ ok vs)
          × IsDistinct vs
          × ((v : String) → Among v vs ↔ IsVariant secrets v))
        ⊎ ((sign_api_key_token_with_all_keys h token secrets
              ≡ err (plain_error "at least one secret is required"))
            × ((v : String) → ¬ (IsVariant secrets v)))
  unfolding sign_api_key_token_with_all_keys at_least_one
  from_variants secrets [] e d k = inr (ap (at_least_one h) e, λ v real. (k v).1 (inr real))
  from_variants secrets (w ∷ ws) e d k = inl (
    w ∷ ws,
    ap (at_least_one h) e,
    d,
    λ v. (
      λ m. elim ((k v).0 m) [ inl none_seen ↦ absurd none_seen | inr real ↦ real ],
      λ real. (k v).1 (inr real),
    ),
  )

  -- The variants of a token that is not blank are distinct, and they are its signatures with the
  -- trimmed secrets that are not blank. Without such a secret there is an error.
  pub variants_lem :
      (secrets : List String)
      → blank token ≡ false
      → ((variants : List String) × (sign_api_key_token_with_all_keys h token secrets ≡ ok variants)
          × IsDistinct variants
          × ((v : String) → Among v variants ↔ IsVariant secrets v))
        ⊎ ((sign_api_key_token_with_all_keys h token secrets
              ≡ err (plain_error "at least one secret is required"))
            × ((v : String) → ¬ (IsVariant secrets v)))
  unfolding sign_api_key_token_with_all_keys at_least_one
  variants_lem secrets p =
      from_variants secrets (variants_after [] secrets) (add_variants_lem [] secrets p)
        (variants_after-IsDistinct secrets [] tt) (λ v. variants_after_iff v [] secrets)

  add_variants-blank :
      (secrets variants : List String)
      → blank token ≡ true
      → add_variants h token [] secrets ≡ ok variants
      → variants ≡ []
  unfolding add_variants sign_api_key_token
  add_variants-blank [] variants p e = ground (arith, e)
  add_variants-blank (secret ∷ secrets) variants p e =
      ground (arith, add_variants-blank secrets variants p)

  no_variants_of_blank :
      (secrets variants : List String)
      → blank token ≡ true
      → sign_api_key_token_with_all_keys h token secrets ≢ ok variants
  unfolding sign_api_key_token_with_all_keys at_least_one
  no_variants_of_blank secrets variants p e =
      elim (Outcome-cases (add_variants h token [] secrets)) [
        | inl (vs, added) ↦ ground (arith, added, add_variants-blank secrets vs p added)
        | inr (x, failed) ↦ ground (arith, failed)
      ]

  -- Every variant that is given is a signature of the token.
  pub all_keys-IsVariant :
      (secrets variants : List String)
      → sign_api_key_token_with_all_keys h token secrets ≡ ok variants
      → (v : String) → Among v variants ↔ IsVariant secrets v
  all_keys-IsVariant secrets variants e v = elim (Bool-cases (blank token)) [
    | inl p ↦ absurd (no_variants_of_blank secrets variants p e)
    | inr p ↦ elim (variants_lem secrets p) [
      | inl (vs, given, distinct, k) ↦
          let same : vs ≡ variants = ground (arith, given, e) in
          subst (λ ws. Among v ws ↔ IsVariant secrets v) same (k v)
      | inr (refused, none_real) ↦ absurd (ground (arith, refused, e))
    ]
  ]

  -- A token signed with a secret of the list, trimmed, is one of its variants.
  pub api_key_token-IsVariant :
      (secrets : List String) (secret hashed : String)
      → Among secret secrets
      → blank secret ≡ false
      → sign_api_key_token h token (trim_space secret) ≡ ok hashed
      → (blank token ≡ false) × IsVariant secrets hashed
  unfolding sign_api_key_token
  api_key_token-IsVariant secrets secret hashed m real e = elim (Bool-cases (blank token)) [
    | inl empty ↦ absurd (ground (arith, empty, e))
    | inr filled ↦
        (filled, (secret, m, real, ground (arith, filled, real, blank-trim_space secret, e)))
  ]
