-- ===== src/Signing/Token.antt =====
-- pkg/signing/signing.go: `Sign`, `Unsign`, `Dumps` and `Loads`.
pub mod RoundTrip
pub mod Soundness
use Prim.Native.Char.{Char, code}
use Prim.Native.String
use notification_api_spec.Base.{
  ℕ, zero, suc, ◌+◌, ◌*◌, ◌/◌, ◌%◌, ◌-◌, ◌^◌, String, Bool, true, false, Option, none, some, List,
  [], ◌∷◌, ◌++◌, ◌==◌, ◌=s=◌, ◌<>◌, ltb, leb, if◌then◌else◌, push, blank, length, Outcome, ok, err,
  GoError, plain_error,
}
use notification_api_spec.Signing.{utf8}
use notification_api_spec.Signing.Base64.{Bytes, encode, decode}

abbrev pub extend_split : Char → String → Option (String × String) → Option (String × String)
extend_split c s (some (a, b)) = some (push c a, b)
extend_split c s none = if code c == b'.' then some ("", s) else none

-- The text before the last dot, and the text after it.
unfoldable pub split_last : String → Option (String × String)
split_last String.[] = none
split_last (String.◌∷◌ c s) = extend_split c s (split_last s)

-- The last bytes of a number, the most significant first.
unfoldable pub last_bytes : ℕ → ℕ → Bytes
last_bytes zero value = []
last_bytes (suc n) value = last_bytes n (value / 256) ++ (value % 256 ∷ [])

abbrev pub drop_zeros : Bytes → Bytes
drop_zeros [] = []
drop_zeros (b ∷ bytes) = let rest = drop_zeros bytes in if b == 0 then rest else b ∷ bytes

-- `intToBytes` of a time that is not negative.
unfoldable pub int_to_bytes : ℕ → Bytes
unfolding last_bytes
int_to_bytes value = drop_zeros (last_bytes 8 value)

-- The functions of the standard library that the package calls.
pub record Hashes : Type 0 where
  pub sha256 : Bytes → Bytes
  pub hmac_sha256 : (key message : Bytes) → Bytes

-- JSON and zlib, for the values that are signed.
pub record Codec (Value : Type 0) : Type 0 where
  pub marshal : Value → Outcome Bytes
  pub unmarshal : Bytes → Outcome Value
  pub compress : Bytes → Outcome Bytes
  pub decompress : Bytes → Outcome Bytes

module _ (h : Hashes) where
  unfoldable pub derive_key : String → String → Bytes
  derive_key secret salt = h.sha256 (utf8 (salt <> "signer" <> secret))

  -- The signature of a text, in base 64.
  unfoldable pub signature_of : String → String → String → String
  unfolding derive_key
  signature_of text secret salt = encode (h.hmac_sha256 (derive_key secret salt) (utf8 text))

  unfoldable pub sign_with_timestamp : String → String → String → ℕ → String
  unfolding signature_of
  sign_with_timestamp payload secret salt timestamp =
      let payload_with_timestamp = payload <> push "." (encode (int_to_bytes timestamp)) in
      payload_with_timestamp <> push "." (signature_of payload_with_timestamp secret salt)

  -- `Sign`, at the time `now`.
  unfoldable pub sign : ℕ → String → String → String → Outcome String
  unfolding sign_with_timestamp
  sign now payload secret salt =
      if blank secret
      then err (plain_error "secret is required")
      else ok (sign_with_timestamp payload secret salt now)

  abbrev pub stamped : String → Option Bytes → Outcome String
  stamped payload none = err (plain_error "malformed timestamp")
  stamped payload (some bytes) = ok payload

  -- The payload, once a signature matches, if the timestamp can be decoded.
  unfoldable pub checked_payload : String → String → Outcome String
  checked_payload payload stamp = stamped payload (decode stamp)

  -- The secrets are tried in order.
  unfoldable pub try_secrets :
      List String → String → String → String → String → String → Outcome String
  unfolding signature_of checked_payload
  try_secrets [] salt text payload stamp signature =
      err (plain_error "signature does not match any configured secret")
  try_secrets (secret ∷ secrets) salt text payload stamp signature =
      let rest = try_secrets secrets salt text payload stamp signature in
      if blank secret
      then rest
      else if signature =s= signature_of text secret salt
      then checked_payload payload stamp
      else rest

  unfoldable pub unsign_stamped :
      List String → String → String → String → Option (String × String) → Outcome String
  unfolding try_secrets
  unsign_stamped secrets salt text signature none = err (plain_error "timestamp missing")
  unsign_stamped secrets salt text signature (some (payload, stamp)) =
      try_secrets secrets salt text payload stamp signature

  unfoldable pub unsign_split : List String → String → Option (String × String) → Outcome String
  unfolding unsign_stamped
  unsign_split secrets salt none = err (plain_error "invalid signed token")
  unsign_split secrets salt (some (text, signature)) =
      unsign_stamped secrets salt text signature (split_last text)

  unfoldable pub unsign : String → List String → String → Outcome String
  unfolding unsign_split
  unsign token secrets salt = unsign_split secrets salt (split_last token)

  module _ {Value : Type 0} (c : Codec Value) where
    pub packed : Bytes → Outcome Bytes → Outcome String
    packed json (err e) = err e
    packed json (ok compressed) =
        if ltb (length compressed) (length json - 1)
        then ok (push "." (encode compressed))
        else ok (encode json)

    pub dump_payload : Bytes → Outcome String
    unfolding packed
    dump_payload json = packed json (c.compress json)

    abbrev pub decoded : Option Bytes → Outcome Bytes
    decoded none = err (plain_error "illegal base64 data")
    decoded (some bytes) = ok bytes

    unfoldable pub base64_decode : String → Outcome Bytes
    base64_decode text = decoded (decode text)

    unfoldable pub decompressed : Outcome Bytes → Outcome Bytes
    decompressed (err e) = err e
    decompressed (ok bytes) = c.decompress bytes

    unfoldable pub load_payload : String → Outcome Bytes
    unfolding base64_decode decompressed
    load_payload String.[] = base64_decode ""
    load_payload (String.◌∷◌ d s) =
        if code d == b'.' then decompressed (base64_decode s) else base64_decode (push d s)

    pub sign_payload : ℕ → String → String → Outcome String → Outcome String
    unfolding sign
    sign_payload now secret salt (err e) = err e
    sign_payload now secret salt (ok payload) = sign now payload secret salt

    pub dumps_json : ℕ → String → String → Outcome Bytes → Outcome String
    unfolding dump_payload sign_payload
    dumps_json now secret salt (err e) = err e
    dumps_json now secret salt (ok json) = sign_payload now secret salt (dump_payload json)

    pub dumps : ℕ → Value → String → String → Outcome String
    unfolding dumps_json
    dumps now value secret salt = dumps_json now secret salt (c.marshal value)

    abbrev pub unmarshalled : Outcome Bytes → Outcome Value
    unmarshalled (err e) = err e
    unmarshalled (ok json) = c.unmarshal json

    unfoldable pub loads_payload : Outcome String → Outcome Value
    unfolding load_payload
    loads_payload (err e) = err e
    loads_payload (ok payload) = unmarshalled (load_payload payload)

    unfoldable pub loads : String → List String → String → Outcome Value
    unfolding unsign loads_payload
    loads token secrets salt = loads_payload (unsign token secrets salt)
