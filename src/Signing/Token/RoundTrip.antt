-- ===== src/Signing/Token/RoundTrip.antt =====
-- Tokens that are signed and read back.
use Prim.Native.Char.{code}
use text.Mathlib.TextLemmas.{nil-append, cons-append}
use notification_api_spec.Base.{
  ℕ, zero, suc, ◌+◌, ◌*◌, ◌/◌, ◌%◌, ◌-◌, ◌<◌, ◌≡◌, refl, ap, ◌∙◌, inl, inr, String, false, none,
  some, List, [], ◌∷◌, ◌==◌, ◌<>◌, ltb, push, blank, length, ok, All-append, Among, arith, eq_iff,
  Bool-cases,
}
use notification_api_spec.Signing.Base64.{Bytes, encode, sextet_char}
use notification_api_spec.Signing.Base64.RoundTrip.{IsBytes, decode-encode, sextet_char-IsReadable}
use notification_api_spec.Signing.Token.{
  extend_split, split_last, last_bytes, drop_zeros, int_to_bytes, Hashes, Codec, signature_of,
  sign_with_timestamp, sign, stamped, checked_payload, decoded, unmarshalled, sign_payload,
  try_secrets, unsign_stamped, unsign_split, unsign, packed, dump_payload, base64_decode,
  decompressed, load_payload, dumps_json, dumps, loads_payload, loads,
}

-- A text without a dot.
abbrev pub HasNoDot : String → Type 0
HasNoDot String.[] = Unit
HasNoDot (String.◌∷◌ c s) = (code c == b'.' ≡ false) × HasNoDot s

split_last-none : (s : String) → HasNoDot s → split_last s ≡ none
unfolding split_last
split_last-none String.[] h = refl
split_last-none (String.◌∷◌ c s) (p, h) = rw (split_last-none s h, p) refl

split_last-dot : (s : String) → HasNoDot s → split_last (push "." s) ≡ some ("", s)
unfolding split_last
split_last-dot s h = rw (split_last-none s h) refl

-- The last dot of a text is the one before an end without dots.
pub split_last-append : (a b : String) → HasNoDot b → split_last (a <> push "." b) ≡ some (a, b)
unfolding split_last
split_last-append String.[] b h = ap split_last (nil-append (push "." b)) ∙ split_last-dot b h
split_last-append (String.◌∷◌ c a) b h =
    ap split_last (cons-append c a (push "." b))
    ∙ ap (extend_split c (a <> push "." b)) (split_last-append a b h)

sextet_no_dot : (n : ℕ) → n < 64 → code (sextet_char n) == b'.' ≡ false
sextet_no_dot n l = let (a, b, c) = sextet_char-IsReadable n l in b

-- The alphabet has no dot.
pub encode-HasNoDot : (bytes : Bytes) → IsBytes bytes → HasNoDot (encode bytes)
unfolding encode
encode-HasNoDot [] h = tt
encode-HasNoDot (a ∷ []) (ha, h) =
    (sextet_no_dot (a / 4) (omega (arith, ha)), (sextet_no_dot (a % 4 * 16) (omega arith), tt))
encode-HasNoDot (a ∷ b ∷ []) (ha, (hb, h)) = (
  sextet_no_dot (a / 4) (omega (arith, ha)),
  (
    sextet_no_dot (a % 4 * 16 + b / 16) (omega (arith, hb)),
    (sextet_no_dot (b % 16 * 4) (omega arith), tt),
  ),
)
encode-HasNoDot (a ∷ b ∷ c ∷ bytes) (ha, (hb, (hc, h))) = (
  sextet_no_dot (a / 4) (omega (arith, ha)),
  (
    sextet_no_dot (a % 4 * 16 + b / 16) (omega (arith, hb)),
    (
      sextet_no_dot (b % 16 * 4 + c / 64) (omega (arith, hc)),
      (sextet_no_dot (c % 64) (omega arith), encode-HasNoDot bytes h),
    ),
  ),
)

last_bytes-IsBytes : (n value : ℕ) → IsBytes (last_bytes n value)
unfolding last_bytes
last_bytes-IsBytes zero value = tt
last_bytes-IsBytes (suc n) value =
    All-append (λ b. b < 256) (last_bytes n (value / 256)) (value % 256 ∷ [])
      (last_bytes-IsBytes n (value / 256)) (omega arith, tt)

drop_zeros-IsBytes : (bytes : Bytes) → IsBytes bytes → IsBytes (drop_zeros bytes)
drop_zeros-IsBytes [] h = tt
drop_zeros-IsBytes (b ∷ bytes) (p, h) = elim (Bool-cases (b == 0)) [
  | inl e ↦ rw e (drop_zeros-IsBytes bytes h)
  | inr e ↦ rw e (p, h)
]

int_to_bytes-IsBytes : (value : ℕ) → IsBytes (int_to_bytes value)
unfolding int_to_bytes
int_to_bytes-IsBytes value = drop_zeros-IsBytes (last_bytes 8 value) (last_bytes-IsBytes 8 value)

module _ (h : Hashes) where
  -- The signatures are bytes.
  abbrev pub GivesBytes : Type 0
  GivesBytes = (key message : Bytes) → IsBytes (h.hmac_sha256 key message)

  try_secrets-match :
      (secrets : List String) (salt text payload stamp : String) (secret : String)
      → Among secret secrets
      → blank secret ≡ false
      → checked_payload h payload stamp ≡ ok payload
      → try_secrets h secrets salt text payload stamp (signature_of h text secret salt) ≡ ok payload
  unfolding try_secrets
  try_secrets-match [] salt text payload stamp secret m p q = absurd m
  try_secrets-match (secret' ∷ secrets) salt text payload stamp secret (inl e) p q =
      let same = ap (λ s. signature_of h text s salt) e in
      let shown = ap (λ s. blank s) e in
      ground (arith, eq_iff (signature_of h text secret salt) (signature_of h text secret' salt))
  try_secrets-match (secret' ∷ secrets) salt text payload stamp secret (inr m) p q =
      ground (arith, try_secrets-match secrets salt text payload stamp secret m p q)

  stamp_is_readable :
      (payload : String) (now : ℕ)
      → checked_payload h payload (encode (int_to_bytes now)) ≡ ok payload
  unfolding checked_payload
  stamp_is_readable payload now =
      ap (stamped h payload) (decode-encode (int_to_bytes now) (int_to_bytes-IsBytes now))

  signature_of-HasNoDot :
      (text secret salt : String) → GivesBytes → HasNoDot (signature_of h text secret salt)
  unfolding signature_of
  signature_of-HasNoDot text secret salt bytes = encode-HasNoDot _ (bytes _ _)

  sign_of_secret :
      (payload secret salt : String) (now : ℕ)
      → blank secret ≡ false
      → sign h now payload secret salt ≡ ok (sign_with_timestamp h payload secret salt now)
  unfolding sign
  sign_of_secret payload secret salt now p = rw p refl

  -- A token signed with one of the secrets is read as its payload, whatever the other secrets are.
  pub unsign-sign_with_timestamp :
      (payload secret salt : String) (now : ℕ) (secrets : List String)
      → GivesBytes
      → Among secret secrets
      → blank secret ≡ false
      → unsign h (sign_with_timestamp h payload secret salt now) secrets salt ≡ ok payload
  unfolding unsign unsign_split unsign_stamped sign_with_timestamp
  unsign-sign_with_timestamp payload secret salt now secrets bytes m p =
      let stamp = encode (int_to_bytes now) in
      let text = payload <> push "." stamp in
      let signature = signature_of h text secret salt in
      ap (unsign_split h secrets salt)
        (split_last-append text signature (signature_of-HasNoDot text secret salt bytes))
      ∙ ap (unsign_stamped h secrets salt text signature) (
          split_last-append payload stamp
            (encode-HasNoDot (int_to_bytes now) (int_to_bytes-IsBytes now)))
      ∙ try_secrets-match secrets salt text payload stamp secret m p (stamp_is_readable payload now)

  module _ {Value : Type 0} (c : Codec Value) where
    -- What the library functions promise of one value.
    pub record IsCoded (value : Value) (json : Bytes) : Type 0 where
      pub marshals : c.marshal value ≡ ok json
      pub unmarshals : c.unmarshal json ≡ ok value
      pub json_bytes : IsBytes json
      pub compresses :
          (compressed : Bytes) × (c.compress json ≡ ok compressed)
          × IsBytes compressed
          × (c.decompress compressed ≡ ok json)

    base64_decode-encode :
        (bytes : Bytes) → IsBytes bytes → base64_decode h c (encode bytes) ≡ ok bytes
    unfolding base64_decode
    base64_decode-encode bytes k = ap (decoded h c) (decode-encode bytes k)

    load_payload-plain : (s : String) → HasNoDot s → load_payload h c s ≡ base64_decode h c s
    unfolding load_payload
    load_payload-plain String.[] k = refl
    load_payload-plain (String.◌∷◌ d s) (p, k) = rw p refl

    load_payload-dump_payload :
        (value : Value) (json : Bytes)
        → IsCoded value json
        → (payload : String) × (dump_payload h c json ≡ ok payload)
          × (load_payload h c payload ≡ ok json)
    unfolding dump_payload packed load_payload
    load_payload-dump_payload value json k =
        let (compressed, e, bytes, d) = k.compresses in
        let loaded = ap (decompressed h c) (base64_decode-encode compressed bytes) ∙ d in
        let plain =
          load_payload-plain (encode json) (encode-HasNoDot json k.json_bytes)
          ∙ base64_decode-encode json k.json_bytes in
        elim (Bool-cases (ltb (length compressed) (length json - 1))) [
          | inl shorter ↦
              (push "." (encode compressed), ap (packed h c json) e ∙ (rw shorter refl), loaded)
          | inr longer ↦ (encode json, ap (packed h c json) e ∙ (rw longer refl), plain)
        ]

    -- A value that is signed is read back, with any list of secrets that has the signer's.
    pub loads-dumps :
        (value : Value) (json : Bytes) (secret salt : String) (now : ℕ) (secrets : List String)
        → GivesBytes
        → IsCoded value json
        → Among secret secrets
        → blank secret ≡ false
        → (token : String) × (dumps h c now value secret salt ≡ ok token)
          × (loads h c token secrets salt ≡ ok value)
    unfolding dumps dumps_json loads loads_payload sign_payload
    loads-dumps value json secret salt now secrets bytes k m p =
        let (payload, made, read) = load_payload-dump_payload value json k in
        (
          sign_with_timestamp h payload secret salt now,
          ap (dumps_json h c now secret salt) k.marshals
              ∙ ap (sign_payload h c now secret salt) made
              ∙ sign_of_secret payload secret salt now p,
          ap (loads_payload h c)
                (unsign-sign_with_timestamp payload secret salt now secrets bytes m p)
              ∙ ap (unmarshalled h c) read
              ∙ k.unmarshals,
        )
