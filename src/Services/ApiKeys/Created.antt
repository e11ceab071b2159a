-- ===== src/Services/ApiKeys/Created.antt =====
-- A key that `CreateAPIKey` returns lets requests through.
use notification_api_spec.Base.{
  ◌≡◌, inl, inr, refl, ap, sym, subst, ◌∙◌, String, true, false, Option, none, List, [], ◌∷◌, ◌=s=◌,
  ◌<>◌, if◌then◌else◌, blank, trim_space, text_length, ok, err, no_rows, arith, Among, Bool-cases,
  Outcome-cases, eq_refl,
}
use notification_api_spec.Base.Affixes.{has_prefix-append, trim_prefix-append}
use notification_api_spec.Delivery.{Uuid}
use notification_api_spec.Signing.Token.{Hashes}
use notification_api_spec.Signing.ApiKeys.{sign_api_key_token}
use notification_api_spec.Signing.ApiKeys.Variants.{IsVariant, api_key_token-IsVariant}
use notification_api_spec.Auth.Jwt.{Instant}
use notification_api_spec.Auth.Cache.{
  ApiKey, CachedServiceAuth, Log, ServiceAuthCache, load_service_auth,
}
use notification_api_spec.Auth.Requests.{
  next, AuthEnvironment, Config, with_service_auth_context, service_auth_secrets,
  handle_service_api_key_auth, token_segment, api_key_scheme_prefix, is_expired,
}
use notification_api_spec.Auth.Requests.Keys.{IsKeyHeader}
use notification_api_spec.Auth.Requests.Admitted.{IsKept, api_key_passes}
use notification_api_spec.Services.{RepositoryConfig, Failures, current_api_key_secret}
use notification_api_spec.Services.ApiKeys.Plaintext.{
  key_text, plaintext_length, service_found, token_found,
}
use notification_api_spec.Services.ApiKeys.{
  KeyTables, first_key, key_by_secret, created_row, insert_created, hashed_secret, create_api_key,
}

-- The secret that signs is one of the list, trimmed.
current_secret :
    (secrets : List String) (secret : String)
    → current_api_key_secret secrets ≡ ok secret
    → (raw : String) × Among raw secrets × (blank raw ≡ false) × (secret ≡ trim_space raw)
unfolding current_api_key_secret
current_secret [] secret e = absurd (ground arith)
current_secret (s ∷ secrets) secret e = elim (Bool-cases (blank s)) [
  | inl empty ↦
      let (raw, m, real, same) = current_secret secrets secret (ground (arith, empty, e)) in
      (raw, inr m, real, same)
  | inr real ↦ (s, inl refl, real, ground (arith, real, e))
]

module _ (fails : Failures) (h : Hashes) (cfg : RepositoryConfig) where
  -- What a creation that succeeds has done.
  record IsCreated (token id service_id : Uuid) (name : String) (created_by : Uuid)
      (key_type : String) (row : ApiKey) (plaintext : String) (t t' : KeyTables) : Type 0 where
    hashed : String
    secret : String
    found : current_api_key_secret cfg.api_key_secrets ≡ ok secret
    signed : sign_api_key_token h token secret ≡ ok hashed
    its_row : row ≡ created_row id name hashed service_id created_by key_type
    its_plaintext : plaintext ≡ cfg.api_key_prefix <> service_id <> token
    its_keys : t'.keys ≡ row ∷ t.keys

  inserted_of :
      (plaintext plaintext' : String) (row row' : ApiKey) (t t' : KeyTables)
      → insert_created fails plaintext row t ≡ (ok (row', plaintext'), t')
      → (row' ≡ row) × (plaintext' ≡ plaintext) × (t'.keys ≡ row ∷ t.keys)
  unfolding insert_created
  inserted_of plaintext plaintext' row row' t t' e = ground (arith, e)

  signed_of :
      (key_type token hashed : String)
      → hashed_secret fails h cfg key_type token ≡ ok hashed
      → (secret : String) × (current_api_key_secret cfg.api_key_secrets ≡ ok secret)
        × (sign_api_key_token h token secret ≡ ok hashed)
  unfolding hashed_secret
  signed_of key_type token hashed e =
      elim (Outcome-cases (current_api_key_secret cfg.api_key_secrets)) [
        | inr (x, none_left) ↦ absurd (ground (arith, none_left, e))
        | inl (secret, found) ↦ (secret, found, ground (arith, found, e))
      ]

  create-IsCreated :
      (token id service_id : Uuid) (name : String) (created_by : Uuid) (key_type : String)
      (row : ApiKey) (plaintext : String) (t t' : KeyTables)
      → create_api_key fails h cfg token id service_id name created_by key_type t
        ≡ (ok (row, plaintext), t')
      → IsCreated token id service_id name created_by key_type row plaintext t t'
  unfolding create_api_key
  create-IsCreated token id service_id name created_by key_type row plaintext t t' e =
      elim (Outcome-cases (hashed_secret fails h cfg key_type token)) [
        | inr (x, failed) ↦ absurd (ground (arith, failed, e))
        | inl (hashed, did) ↦
            let made = created_row id name hashed service_id created_by key_type in
            let text = cfg.api_key_prefix <> service_id <> token in
            let inserted : insert_created fails text made t ≡ (ok (row, plaintext), t') =
              ground (arith, did, e) in
            let (same_row, same_text, keys) = inserted_of text plaintext made row t t' inserted in
            let (secret, found, signed) = signed_of key_type token hashed did in
            record {
              hashed = hashed;
              secret = secret;
              found = found;
              signed = signed;
              its_row = same_row;
              its_plaintext = same_text;
              its_keys = keys ∙ ap (λ r. r ∷ t.keys) (sym same_row);
            }
      ]

key_by_secret-cons :
    (now : Instant) (row : ApiKey) (keys : List ApiKey) (v : String)
    → row.expiry_date ≡ none
    → key_by_secret now (row ∷ keys) v
      ≡ (if row.secret =s= v then ok row else key_by_secret now keys v)
unfolding key_by_secret first_key
key_by_secret-cons now row keys v e = ground (arith, e)

-- The middleware has the prefix and the secrets of the repository, and reads its table of keys.
pub record IsWired (env : AuthEnvironment) (config : Config) (cfg : RepositoryConfig)
    (now : Instant) (keys : List ApiKey) : Type 0 where
  pub same_prefix : config.api_key_prefix ≡ cfg.api_key_prefix
  pub same_secrets : service_auth_secrets config ≡ cfg.api_key_secrets
  pub reads : (l : Log) (v : String) → env.repo.get_api_key_by_secret l v ≡ key_by_secret now keys v

-- A text of 36 characters that `uuid.Parse` reads.
pub record IsId (env : AuthEnvironment) (id : String) : Type 0 where
  pub long : text_length id ≡ 36
  pub parsed : env.parse_uuid id ≡ ok id

-- No row is found under a signature of the token.
abbrev pub IsFresh : Hashes → RepositoryConfig → Instant → List ApiKey → String → Type 0
IsFresh h cfg now keys token =
    (v : String)
    → IsVariant h token cfg.api_key_secrets v
    → key_by_secret now keys v ≡ err (no_rows ∷ [])

module _ (env : AuthEnvironment) (config : Config) (cfg : RepositoryConfig) (now : Instant)
    (service_id token : Uuid) (s : IsId env service_id) (i : IsId env token) where
  abbrev made : String
  made = key_text cfg.api_key_prefix service_id token

  key_header :
      config.api_key_prefix ≡ cfg.api_key_prefix
      → trim_space made ≡ made
      → IsKeyHeader env config (api_key_scheme_prefix <> made) made service_id
  key_header same trimmed = record {
    scheme = has_prefix-append api_key_scheme_prefix made;
    trimmed = sym (ap trim_space (trim_prefix-append api_key_scheme_prefix made) ∙ trimmed);
    branded = rw same (has_prefix-append cfg.api_key_prefix (service_id <> token));
    long = omega (
      arith,
      plaintext_length cfg.api_key_prefix service_id token s.long i.long,
      ap (λ p. text_length p) same,
    );
    its_service =
        ap env.parse_uuid (service_found cfg.api_key_prefix service_id token s.long i.long)
        ∙ s.parsed;
    its_token = token;
    token_parsed =
        ap env.parse_uuid (token_found cfg.api_key_prefix service_id token s.long i.long)
        ∙ i.parsed;
  }

  key_kept :
      (row : ApiKey) (keys keys' : List ApiKey)
      → IsWired env config cfg now keys'
      → keys' ≡ row ∷ keys
      → IsFresh env.hashes cfg now keys token
      → row.expiry_date ≡ none
      → IsVariant env.hashes token cfg.api_key_secrets row.secret
      → IsKept env cfg.api_key_secrets token row
  unfolding is_expired
  key_kept row keys keys' w same fresh forever signature = record {
    table = key_by_secret now keys';
    reads = w.reads;
    stored = row.secret;
    its_signature = signature;
    row = ground (
      arith,
      ap (λ k. key_by_secret now k row.secret) same,
      key_by_secret-cons now row keys row.secret forever,
      eq_refl row.secret,
    );
    no_other = λ v real. elim (Bool-cases (row.secret =s= v)) [
      | inl e ↦ inl (
          ground (
            arith,
            ap (λ k. key_by_secret now k v) same,
            key_by_secret-cons now row keys v forever,
            e,
          ))
      | inr e ↦ inr (
        no_rows ∷ [],
        ground (
          arith,
          ap (λ k. key_by_secret now k v) same,
          key_by_secret-cons now row keys v forever,
          e,
          fresh v real,
        ),
        refl,
      )
    ];
    unexpired = λ log. rw forever refl;
  }

-- A key that `CreateAPIKey` returns lets requests of its service through, if the middleware is
-- wired to the repository and reads the table that the creation left, no older key stands under a
-- signature of the new token, and the service is active. The ids are texts of 36 characters that
-- `uuid.Parse` reads, and the key has no spaces at its ends.
pub create-passes :
    (fails : Failures) (env : AuthEnvironment) (cfg : RepositoryConfig) (config : Config)
    (token id service_id : Uuid) (name : String) (created_by : Uuid) (key_type : String)
    (row : ApiKey) (plaintext : String) (t t' : KeyTables) (now : Instant)
    (cache : Option ServiceAuthCache) (auth_data : CachedServiceAuth) (log : Log)
    → create_api_key fails env.hashes cfg token id service_id name created_by key_type t
      ≡ (ok (row, plaintext), t')
    → IsWired env config cfg now t'.keys
    → IsId env service_id
    → IsId env token
    → trim_space plaintext ≡ plaintext
    → IsFresh env.hashes cfg now t.keys token
    → ((l : Log) → (load_service_auth env.entry_json env.repo cache service_id l).0 ≡ ok auth_data)
    → auth_data.service.active ≡ true
    → (handle_service_api_key_auth env config cache (api_key_scheme_prefix <> plaintext) log).0
      ≡ next (with_service_auth_context auth_data row)
create-passes fails env cfg config token id service_id name created_by key_type row plaintext t t'
      now cache auth_data log e w s i trimmed fresh loads active =
    let c =
      create-IsCreated fails env.hashes cfg token id service_id name created_by key_type row
        plaintext t t' e in
    let (raw, m, real, same) = current_secret cfg.api_key_secrets c.secret c.found in
    let (filled, signature) =
      api_key_token-IsVariant env.hashes token cfg.api_key_secrets raw c.hashed m real
        (subst (λ x. sign_api_key_token env.hashes token x ≡ ok c.hashed) same c.signed) in
    let text = made env config cfg now service_id token s i in
    let same_text : plaintext ≡ text = c.its_plaintext in
    let row_signature : IsVariant env.hashes token cfg.api_key_secrets row.secret =
      subst (IsVariant env.hashes token cfg.api_key_secrets) (sym (ap (λ r. r.secret) c.its_row))
        signature in
    let kept =
      key_kept env config cfg now service_id token s i row t.keys t'.keys w c.its_keys fresh
        (ap (λ r. r.expiry_date) c.its_row) row_signature in
    let its_token = token_found cfg.api_key_prefix service_id token s.long i.long in
    subst
      (λ p.
        (handle_service_api_key_auth env config cache (api_key_scheme_prefix <> p) log).0
        ≡ next (with_service_auth_context auth_data row))
      (sym same_text)
      (api_key_passes env config cache (api_key_scheme_prefix <> text) text service_id row auth_data
        log
        (key_header env config cfg now service_id token s i w.same_prefix
          (subst (λ p. trim_space p ≡ p) same_text trimmed))
        (subst (λ x. blank x ≡ false) (sym its_token) filled)
        (subst (λ secrets. IsKept env secrets (token_segment text) row) (sym w.same_secrets)
          (subst (λ x. IsKept env cfg.api_key_secrets x row) (sym its_token) kept))
        (ap (λ r. r.service_id) c.its_row) loads active)
