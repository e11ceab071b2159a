-- ===== src/Auth/Jwt.antt =====
-- internal/middleware/auth.go: bearer tokens, their claims and their signatures.
pub mod Accepts
pub mod Window
use notification_api_spec.Base.{
  ℕ, ◌+◌, ◌-◌, ◌%◌, ◌^◌, ◌==◌, ◌=s=◌, ◌<>◌, ◌||◌, ◌&&◌, not, String, Bool, true, false, Option,
  none, some, List, [], ◌∷◌, ltb, if◌then◌else◌, Outcome, ok, err, GoError, token_validation, blank,
  trim_space, fields, equal_fold, split_at,
}
use notification_api_spec.Base.Outcomes.{◌>>=◌, ◌>>◌, guard, required, or_error}
use notification_api_spec.Signing.{utf8}
use notification_api_spec.Signing.Base64.{Bytes, decode}
use notification_api_spec.Signing.Crypto.{same_bytes}
use notification_api_spec.Signing.Token.{Hashes}

-- A `time.Time`: the seconds since the year 1, as the bit pattern of an int64, and the nanoseconds.
pub record Instant : Type 0 where
  pub seconds : ℕ
  pub nanoseconds : ℕ

-- The order of two int64, by their bit patterns.
abbrev pub lt_int64 : ℕ → ℕ → Bool
lt_int64 a b = ltb ((a + 2 ^ 63) % 2 ^ 64) ((b + 2 ^ 63) % 2 ^ 64)

-- `time.Unix(n, 0)`
abbrev pub unix : ℕ → Instant
unix n = record { seconds = (n + 62135596800) % 2 ^ 64; nanoseconds = 0 }

-- `t.After(u)`
abbrev pub after : Instant → Instant → Bool
after t u =
    lt_int64 u.seconds t.seconds || (u.seconds == t.seconds && ltb u.nanoseconds t.nanoseconds)

-- `t.Add(n * time.Second)` and `t.Add(-n * time.Second)`
abbrev pub later : ℕ → Instant → Instant
later n t = record t { seconds = (t.seconds + n) % 2 ^ 64 }

abbrev pub earlier : ℕ → Instant → Instant
earlier n t = record t { seconds = (t.seconds + 2 ^ 64 - n) % 2 ^ 64 }

abbrev pub jwt_clock_skew : ℕ
jwt_clock_skew = 30

-- The claims that are read; the times are bit patterns of an int64.
pub record JwtClaims : Type 0 where
  pub iss : String
  pub exp : Option ℕ
  pub iat : Option ℕ

-- `json.Unmarshal` of the header, of which the algorithm is read, and of the claims.
pub record JwtJson : Type 0 where
  pub header : Bytes → Outcome String
  pub claims : Bytes → Outcome JwtClaims

abbrev pub token_error : String → GoError
token_error reason = token_validation reason ∷ []

unfoldable pub bearer_fields : List String → Outcome String
bearer_fields (scheme ∷ token ∷ []) = do
  guard (equal_fold scheme "Bearer") (token_error "authorization header must use Bearer scheme")
  guard (not (blank token)) (token_error "authorization token missing")
  ok token
bearer_fields parts = err (token_error "authorization header must use Bearer scheme")

-- `bearerTokenFromRequest`, of the header `Authorization`.
unfoldable pub bearer_token_from_request : String → Outcome String
unfolding bearer_fields
bearer_token_from_request header = do
  guard (not (blank header)) (token_error "authorization header missing")
  bearer_fields (fields (trim_space header))

-- The three parts of a token.
unfoldable pub jwt_parts : String × List String → Outcome (String × String × String)
jwt_parts (header, claims ∷ signature ∷ []) = ok (header, claims, signature)
jwt_parts (header, rest) = err (token_error "jwt must contain three parts")

abbrev pub split_jwt : String → Outcome (String × String × String)
split_jwt token = jwt_parts (split_at b'.' token)

abbrev pub malformed : String → GoError
malformed part = token_error ("jwt " <> part <> " is malformed")

-- `decodeJWTWithoutVerification`: the algorithm and the claims.
unfoldable pub decode_jwt_without_verification : JwtJson → String → Outcome (String × JwtClaims)
unfolding jwt_parts
decode_jwt_without_verification json token = do
  (header, payload, _) ← split_jwt token
  header_bytes ← required (malformed "header") (decode header)
  alg ← or_error (malformed "header") (json.header header_bytes)
  claim_bytes ← required (malformed "payload") (decode payload)
  claims ← or_error (malformed "payload") (json.claims claim_bytes)
  ok (alg, claims)

-- The checks of the algorithm, the issuer and the times.
unfoldable pub check_claims : Instant → String → JwtClaims → Outcome (Unit {0})
check_claims now alg claims = do
  guard (alg =s= "" || alg =s= "HS256") (token_error "unsupported signing algorithm")
  guard (not (blank claims.iss)) (token_error "issuer missing")
  exp ← required (token_error "expiry missing") claims.exp
  iat ← required (token_error "issued-at missing") claims.iat
  guard (not (after (earlier jwt_clock_skew now) (unix exp))) (token_error "token expired")
  guard (not (after (unix iat) (later jwt_clock_skew now)))
      (token_error "token issued in the future")

-- `decodeBearerJWTRequest`
unfoldable pub decode_bearer_jwt_request : JwtJson → Instant → String → Outcome (String × JwtClaims)
unfolding bearer_token_from_request decode_jwt_without_verification check_claims
decode_bearer_jwt_request json now header = do
  token ← bearer_token_from_request header
  (alg, claims) ← decode_jwt_without_verification json token
  check_claims now alg claims
  ok (token, claims)

-- `verifyJWTSignature`
unfoldable pub verify_jwt_signature : Hashes → String → String → Outcome (Unit {0})
unfolding jwt_parts
verify_jwt_signature h token secret = do
  (header, payload, signature) ← split_jwt token
  signature_bytes ← required (malformed "signature") (decode signature)
  guard (same_bytes signature_bytes (h.hmac_sha256 (utf8 secret) (utf8 (header <> "." <> payload))))
      (token_error "signature mismatch")

-- `validateFixedIssuerJWTRequest`
unfoldable pub validate_fixed_issuer_jwt_request :
    Hashes
    → JwtJson
    → (expected_issuer secret : String) (now : Instant) (header : String) → Outcome (Unit {0})
unfolding decode_bearer_jwt_request verify_jwt_signature
validate_fixed_issuer_jwt_request h json expected_issuer secret now header = do
  (token, claims) ← decode_bearer_jwt_request json now header
  verify_jwt_signature h token secret
  guard (claims.iss =s= expected_issuer) (token_error "issuer mismatch")
