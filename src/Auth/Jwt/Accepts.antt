-- ===== src/Auth/Jwt/Accepts.antt =====
-- Which requests pass the check of a fixed issuer.
use notification_api_spec.Base.{
  ℕ, ◌≡◌, ◌↔◌, refl, ap, ◌∙◌, subst, String, Bool, true, false, not, some, List, [], ◌∷◌, ◌=s=◌,
  ◌<>◌, ◌||◌, ok, arith, blank, trim_space, fields, equal_fold, split_at, eq_iff,
}
use notification_api_spec.Base.Outcomes.{bind_ok, guard_ok, required_ok, or_error-ok}
use notification_api_spec.Signing.{utf8}
use notification_api_spec.Signing.Base64.{Bytes, decode}
use notification_api_spec.Signing.Crypto.{same_bytes}
use notification_api_spec.Signing.Token.{Hashes}
use notification_api_spec.Auth.Jwt.{
  Instant, unix, after, later, earlier, JwtClaims, JwtJson, bearer_fields,
  bearer_token_from_request, jwt_parts, decode_jwt_without_verification, check_claims,
  decode_bearer_jwt_request, verify_jwt_signature, validate_fixed_issuer_jwt_request,
}

-- The header is a scheme that folds to "Bearer" and one token.
pub record IsBearer (header token : String) : Type 0 where
  pub scheme : String
  pub filled : blank header ≡ false
  pub two_words : fields (trim_space header) ≡ scheme ∷ token ∷ []
  pub folds : equal_fold scheme "Bearer" ≡ true
  pub token_filled : blank token ≡ false

-- The token has three parts, the first two of which are read as an algorithm and claims that are
-- in time.
pub record IsTimely (json : JwtJson) (now : Instant) (token : String) (claims : JwtClaims)
    : Type 0 where
  pub head : String
  pub payload : String
  pub signature : String
  pub head_bytes : Bytes
  pub payload_bytes : Bytes
  pub alg : String
  pub exp : ℕ
  pub iat : ℕ
  pub parts : split_at b'.' token ≡ (head, payload ∷ signature ∷ [])
  pub head_decoded : decode head ≡ some head_bytes
  pub head_read : json.header head_bytes ≡ ok alg
  pub payload_decoded : decode payload ≡ some payload_bytes
  pub payload_read : json.claims payload_bytes ≡ ok claims
  pub known_alg : (alg =s= "" || alg =s= "HS256") ≡ true
  pub issued_by : blank claims.iss ≡ false
  pub has_exp : claims.exp ≡ some exp
  pub has_iat : claims.iat ≡ some iat
  pub unexpired : after (earlier 30 now) (unix exp) ≡ false
  pub issued : after (unix iat) (later 30 now) ≡ false

-- The signature of the token is the HMAC of its first two parts.
pub record IsSigned (h : Hashes) (token secret : String) : Type 0 where
  pub head : String
  pub payload : String
  pub signature : String
  pub bytes : Bytes
  pub parts : split_at b'.' token ≡ (head, payload ∷ signature ∷ [])
  pub decoded : decode signature ≡ some bytes
  pub same : same_bytes bytes (h.hmac_sha256 (utf8 secret) (utf8 (head <> "." <> payload))) ≡ true

pub false_of : (b : Bool) → not b ≡ true → b ≡ false
false_of true h = absurd (ground arith)
false_of false h = refl

two_fields :
    (parts : List String) (token : String)
    → bearer_fields parts ≡ ok token
    → (scheme : String) × (parts ≡ scheme ∷ token ∷ [])
      × (equal_fold scheme "Bearer" ≡ true)
      × (blank token ≡ false)
unfolding bearer_fields
two_fields [] token e = absurd (ground arith)
two_fields (scheme ∷ []) token e = absurd (ground arith)
two_fields (scheme ∷ word ∷ []) token e =
    let (_, folds, e) = bind_ok _ _ e in
    let (_, full, e) = bind_ok _ _ e in
    let same : word ≡ token = ground (arith, e) in
    (
      scheme,
      ap (λ t. scheme ∷ t ∷ []) same,
      guard_ok _ _ folds,
      subst (λ t. blank t ≡ false) same (false_of _ (guard_ok _ _ full)),
    )
two_fields (a ∷ b ∷ c ∷ parts) token e = absurd (ground arith)

split_header :
    (header token : String) → bearer_token_from_request header ≡ ok token → IsBearer header token
unfolding bearer_token_from_request
split_header header token e =
    let (_, filled, e) = bind_ok _ _ e in
    let (scheme, words, folds, full) = two_fields (fields (trim_space header)) token e in
    record {
      scheme = scheme;
      filled = false_of _ (guard_ok _ _ filled);
      two_words = words;
      folds = folds;
      token_filled = full;
    }

three_parts :
    (split : String × List String) (parts : String × String × String)
    → jwt_parts split ≡ ok parts
    → split ≡ (parts.0, parts.1 ∷ parts.2 ∷ [])
unfolding jwt_parts
three_parts (a, []) parts e = absurd (ground arith)
three_parts (a, b ∷ []) parts e = absurd (ground arith)
three_parts (a, b ∷ c ∷ []) parts e =
    let same : (a, b, c) ≡ parts = ground (arith, e) in ap (λ p. (p.0, p.1 ∷ p.2 ∷ [])) same
three_parts (a, b ∷ c ∷ d ∷ rest) parts e = absurd (ground arith)

checked_claims :
    (json : JwtJson) (now : Instant) (token alg : String) (claims : JwtClaims)
    → decode_jwt_without_verification json token ≡ ok (alg, claims)
    → check_claims now alg claims ≡ ok tt
    → IsTimely json now token claims
unfolding decode_jwt_without_verification check_claims
checked_claims json now token alg claims e c =
    let (parts, split, e) = bind_ok _ _ e in
    let (head_bytes, head_decoded, e) = bind_ok _ _ e in
    let (alg', head_read, e) = bind_ok _ _ e in
    let (payload_bytes, payload_decoded, e) = bind_ok _ _ e in
    let (claims', payload_read, e) = bind_ok _ _ e in
    let same : (alg' ≡ alg) × (claims' ≡ claims) = ground (arith, e) in
    let (_, known, c) = bind_ok _ _ c in
    let (_, issuer, c) = bind_ok _ _ c in
    let (exp, has_exp, c) = bind_ok _ _ c in
    let (iat, has_iat, c) = bind_ok _ _ c in
    let (_, unexpired, issued) = bind_ok _ _ c in
    record {
      head = parts.0;
      payload = parts.1;
      signature = parts.2;
      head_bytes = head_bytes;
      payload_bytes = payload_bytes;
      alg = alg;
      exp = exp;
      iat = iat;
      parts = three_parts _ parts split;
      head_decoded = required_ok _ _ head_decoded;
      head_read = or_error-ok _ _ head_read ∙ ap ok same.0;
      payload_decoded = required_ok _ _ payload_decoded;
      payload_read = or_error-ok _ _ payload_read ∙ ap ok same.1;
      known_alg = guard_ok _ _ known;
      issued_by = false_of _ (guard_ok _ _ issuer);
      has_exp = required_ok _ _ has_exp;
      has_iat = required_ok _ _ has_iat;
      unexpired = false_of _ (guard_ok _ _ unexpired);
      issued = false_of _ (guard_ok _ _ issued);
    }

pub signed_of :
    (h : Hashes) (token secret : String)
    → verify_jwt_signature h token secret ≡ ok tt
    → IsSigned h token secret
unfolding verify_jwt_signature
signed_of h token secret e =
    let (parts, split, e) = bind_ok _ _ e in
    let (bytes, decoded, e) = bind_ok _ _ e in
    record {
      head = parts.0;
      payload = parts.1;
      signature = parts.2;
      bytes = bytes;
      parts = three_parts _ parts split;
      decoded = required_ok _ _ decoded;
      same = guard_ok _ _ e;
    }

bearer_token-IsBearer :
    (header token : String) → IsBearer header token → bearer_token_from_request header ≡ ok token
unfolding bearer_token_from_request bearer_fields
bearer_token-IsBearer header token b = rw (b.filled, b.two_words, b.folds, b.token_filled) refl

pub decode_request-IsTimely :
    (json : JwtJson) (now : Instant) (header token : String) (claims : JwtClaims)
    → IsBearer header token
    → IsTimely json now token claims
    → decode_bearer_jwt_request json now header ≡ ok (token, claims)
unfolding decode_bearer_jwt_request decode_jwt_without_verification check_claims jwt_parts
decode_request-IsTimely json now header token claims b t =
    rw
      (
        bearer_token-IsBearer header token b,
        t.parts,
        t.head_decoded,
        t.head_read,
        t.payload_decoded,
        t.payload_read,
        t.known_alg,
        t.issued_by,
        t.has_exp,
        t.has_iat,
        t.unexpired,
        t.issued,
      )
      refl

pub verify-IsSigned :
    (h : Hashes) (token secret : String)
    → IsSigned h token secret
    → verify_jwt_signature h token secret ≡ ok tt
unfolding verify_jwt_signature jwt_parts
verify-IsSigned h token secret s = rw (s.parts, s.decoded, s.same) refl

-- What a request has that the decoding accepts.
pub request_of :
    (json : JwtJson) (now : Instant) (header token : String) (claims : JwtClaims)
    → decode_bearer_jwt_request json now header ≡ ok (token, claims)
    → IsBearer header token × IsTimely json now token claims
unfolding decode_bearer_jwt_request
request_of json now header token claims e =
    let (token', read, e) = bind_ok _ _ e in
    let ((alg, claims'), decoded, e) = bind_ok _ _ e in
    let (_, checked, e) = bind_ok _ _ e in
    let same : (token' ≡ token) × (claims' ≡ claims) = ground (arith, e) in
    let read' : bearer_token_from_request header ≡ ok token = read ∙ ap ok same.0 in
    let decoded' : decode_jwt_without_verification json token ≡ ok (alg, claims) =
      subst (λ t. decode_jwt_without_verification json t ≡ ok (alg, claims)) same.0
        (subst (λ c. decode_jwt_without_verification json token' ≡ ok (alg, c)) same.1 decoded) in
    let checked' : check_claims now alg claims ≡ ok tt =
      subst (λ c. check_claims now alg c ≡ ok tt) same.1 checked in
    (split_header header token read', checked_claims json now token alg claims decoded' checked')

abbrev pub IsGenuine : Hashes → JwtJson → (issuer secret : String) → Instant → String → Type 0
IsGenuine h json issuer secret now header =
    (token : String) × (claims : JwtClaims) × IsBearer header token
    × IsTimely json now token claims
    × IsSigned h token secret
    × (claims.iss ≡ issuer)

validated :
    (h : Hashes) (json : JwtJson) (issuer secret : String) (now : Instant) (header : String)
    → validate_fixed_issuer_jwt_request h json issuer secret now header ≡ ok tt
    → IsGenuine h json issuer secret now header
unfolding validate_fixed_issuer_jwt_request
validated h json issuer secret now header e =
    let (request, decoded, e) = bind_ok _ _ e in
    let (_, signed, e) = bind_ok _ _ e in
    let (bearer, timely) = request_of json now header request.0 request.1 decoded in
    (
      request.0,
      request.1,
      bearer,
      timely,
      signed_of h request.0 secret signed,
      ground (arith, eq_iff request.1.iss issuer, guard_ok _ _ e),
    )

-- The request passes exactly if its header is a scheme that folds to "Bearer" and one token, which
-- has three parts, a known algorithm, times within thirty seconds of now, the expected issuer, and
-- as its signature the HMAC of its first two parts under the secret.
pub validate_fixed_issuer_iff :
    (h : Hashes) (json : JwtJson) (issuer secret : String) (now : Instant) (header : String)
    → (validate_fixed_issuer_jwt_request h json issuer secret now header ≡ ok tt)
      ↔ IsGenuine h json issuer secret now header
unfolding validate_fixed_issuer_jwt_request
validate_fixed_issuer_iff h json issuer secret now header = (
  validated h json issuer secret now header,
  λ (token, claims, bearer, timely, signed, issued).
      let same : (claims.iss =s= issuer) ≡ true = ground (arith, eq_iff claims.iss issuer) in
      rw
        (
          decode_request-IsTimely json now header token claims bearer timely,
          verify-IsSigned h token secret signed,
          same,
        )
        refl,
)
