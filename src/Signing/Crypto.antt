-- ===== src/Signing/Crypto.antt =====
-- pkg/crypto/crypto.go: `Encrypt` and `Decrypt`.
pub mod RoundTrip
use Prim.Native.Char.{Char, code}
use Prim.Native.String
use notification_api_spec.Base.{
  ℕ, String, Bool, true, false, Option, none, some, List, [], ◌∷◌, ◌&&◌, ◌==◌, ◌=s=◌, ◌<>◌,
  if◌then◌else◌, push, blank, Outcome, ok, err, plain_error,
}
use notification_api_spec.Signing.{utf8}
use notification_api_spec.Signing.Base64.{Bytes, encode, decode}

abbrev pub extend_cut : Char → Option (String × String) → Option (String × String)
extend_cut c none = none
extend_cut c (some (a, b)) = some (push c a, b)

-- `strings.Cut(s, ".")`: the text before the first dot, and the text after it.
unfoldable pub cut : String → Option (String × String)
cut String.[] = none
cut (String.◌∷◌ c s) =
    let rest = cut s in if code c == b'.' then some ("", s) else extend_cut c rest

abbrev pub same_bytes : Bytes → Bytes → Bool
same_bytes [] [] = true
same_bytes [] (y ∷ ys) = false
same_bytes (x ∷ xs) [] = false
same_bytes (x ∷ xs) (y ∷ ys) = x == y && same_bytes xs ys

-- The functions of the standard library that the package calls.
pub record Hashes : Type 0 where
  pub sha1 : Bytes → Bytes
  pub hmac_sha1 : (key message : Bytes) → Bytes

module _ (h : Hashes) where
  pub signature : String → String → Bytes
  signature text secret =
      h.hmac_sha1 (h.sha1 (utf8 ("itsdangerous.Signersigner" <> secret))) (utf8 text)

  pub encrypt : String → String → Outcome String
  unfolding signature
  encrypt plaintext secret =
      if blank secret
      then err (plain_error "secret is required")
      else ok (plaintext <> push "." (encode (signature plaintext secret)))

  pub try_secrets : List String → String → Bytes → Outcome String
  unfolding signature
  try_secrets [] payload sig = err (plain_error "signature does not match any configured secret")
  try_secrets (secret ∷ secrets) payload sig =
      let rest = try_secrets secrets payload sig in
      if blank secret
      then rest
      else if same_bytes sig (signature payload secret)
      then ok payload
      else rest

  pub decrypt_decoded : List String → String → Option Bytes → Outcome String
  unfolding try_secrets
  decrypt_decoded secrets payload none = err (plain_error "decode signature")
  decrypt_decoded secrets payload (some sig) = try_secrets secrets payload sig

  pub decrypt_cut : List String → Option (String × String) → Outcome String
  unfolding decrypt_decoded
  decrypt_cut secrets none = err (plain_error "invalid ciphertext format")
  decrypt_cut secrets (some (payload, sig)) = decrypt_decoded secrets payload (decode sig)

  pub decrypt : String → List String → Outcome String
  unfolding decrypt_cut cut
  decrypt ciphertext secrets = decrypt_cut secrets (cut ciphertext)
