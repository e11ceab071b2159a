-- ===== src/Auth/Jwt/Window.antt =====
-- Which claims pass the check of a token (decodeJWTWithoutVerification of
-- internal/middleware/auth.go), with its times as numbers.
use notification_api_spec.Base.{
  ℕ, ◌+◌, ◌*◌, ◌^◌, ◌≡◌, ◌↔◌, ◌<◌, ◌≤◌, refl, String, true, false, some, ◌=s=◌, ◌||◌, ok, arith,
  blank,
}
use notification_api_spec.Base.Outcomes.{bind_ok, guard_ok, required_ok}
use notification_api_spec.Auth.Jwt.{
  Instant, unix, after, later, earlier, jwt_clock_skew, JwtClaims, check_claims,
}
use notification_api_spec.Auth.Jwt.Accepts.{false_of}

window_iff :
    (now : Instant) (exp iat : ℕ)
    → 30 ≤ now.seconds
    → now.seconds < 2 ^ 62
    → now.nanoseconds < 1000000000
    → exp < 2 ^ 61
    → iat < 2 ^ 61
    → ((after (earlier jwt_clock_skew now) (unix exp) ≡ false)
        × (after (unix iat) (later jwt_clock_skew now) ≡ false))
      ↔ ((now.seconds * 1000000000 + now.nanoseconds ≤ (exp + 62135596800 + 30) * 1000000000)
          × (iat + 62135596800 ≤ now.seconds + 30))
window_iff now exp iat a b c d e =
    (λ (x, y). (ground arith, ground arith), λ (x, y). (ground arith, ground arith))

-- The claims name an issuer, an expiry no more than thirty seconds before now and an issue no more
-- than thirty seconds after it; the algorithm is HS256 or none is named.
abbrev pub IsInTime : Instant → String → JwtClaims → Type 0
IsInTime now alg claims =
    ((alg =s= "" || alg =s= "HS256") ≡ true)
    × (blank claims.iss ≡ false)
    × ((exp : ℕ) × (iat : ℕ) × (claims.exp ≡ some exp)
        × (claims.iat ≡ some iat)
        × (now.seconds * 1000000000 + now.nanoseconds ≤ (exp + 62135596800 + 30) * 1000000000)
        × (iat + 62135596800 ≤ now.seconds + 30))

claims-IsInTime :
    (now : Instant) (alg : String) (claims : JwtClaims)
    → 30 ≤ now.seconds
    → now.seconds < 2 ^ 62
    → now.nanoseconds < 1000000000
    → ((exp : ℕ) → claims.exp ≡ some exp → exp < 2 ^ 61)
    → ((iat : ℕ) → claims.iat ≡ some iat → iat < 2 ^ 61)
    → check_claims now alg claims ≡ ok tt
    → IsInTime now alg claims
unfolding check_claims
claims-IsInTime now alg claims a b c d e h =
    let (_, known, h) = bind_ok _ _ h in
    let (_, issuer, h) = bind_ok _ _ h in
    let (exp, exp_read, h) = bind_ok _ _ h in
    let (iat, iat_read, h) = bind_ok _ _ h in
    let (_, unexpired, issued) = bind_ok _ _ h in
    let has_exp = required_ok claims.exp _ exp_read in
    let has_iat = required_ok claims.iat _ iat_read in
    let window =
      (window_iff now exp iat a b c (d exp has_exp) (e iat has_iat)).0
        (false_of _ (guard_ok _ _ unexpired), false_of _ (guard_ok _ _ issued)) in
    (
      guard_ok _ _ known,
      false_of _ (guard_ok _ _ issuer),
      (exp, iat, has_exp, has_iat, window.0, window.1),
    )

-- Claims pass the check exactly if no algorithm or HS256 is named, the issuer is not blank, and both
-- times are there, the expiry no more than thirty seconds before now and the issue no more than thirty
-- seconds after it; where now lies between thirty seconds into the year 1 and 2^62 seconds, its nanoseconds are
-- below a second, and the claims' times, if any, are from 0 to below 2^61.
pub check_claims_iff :
    (now : Instant) (alg : String) (claims : JwtClaims)
    → 30 ≤ now.seconds
    → now.seconds < 2 ^ 62
    → now.nanoseconds < 1000000000
    → ((exp : ℕ) → claims.exp ≡ some exp → exp < 2 ^ 61)
    → ((iat : ℕ) → claims.iat ≡ some iat → iat < 2 ^ 61)
    → (check_claims now alg claims ≡ ok tt) ↔ IsInTime now alg claims
unfolding check_claims
check_claims_iff now alg claims a b c d e = (
  claims-IsInTime now alg claims a b c d e,
  λ (known, issuer, (exp, iat, has_exp, has_iat, x, y)).
      let (unexpired, issued) =
        (window_iff now exp iat a b c (d exp has_exp) (e iat has_iat)).1 (x, y) in
      rw (known, issuer, has_exp, has_iat, unexpired, issued) refl,
)
