-- ===== src/Signing/Crypto/RoundTrip.antt =====
-- What `Decrypt` makes of the texts that `Encrypt` gives.

use text.Mathlib.TextLemmas.{nil-append, cons-append, append_assoc}
use notification_api_spec.Base.{
  ℕ, ◌≡◌, refl, ap, sym, ◌∙◌, inl, inr, String, true, false, Option, none, some, List, [], ◌∷◌,
  ◌<>◌, push, blank, ok, err, plain_error, Among, arith, Bool-cases,
}
use notification_api_spec.Signing.Base64.{
  Bytes, encode, decode, join_read, sextets, cons_sextet, char_sextet, is_line_end,
}
use notification_api_spec.Signing.Base64.RoundTrip.{IsBytes, decode-encode}
use notification_api_spec.Signing.Token.RoundTrip.{HasNoDot}
use notification_api_spec.Signing.Crypto

cut-dot : (s : String) → Crypto.cut (push "." s) ≡ some ("", s)
unfolding Crypto.cut
cut-dot s = refl

cut-append : (a b : String) → HasNoDot a → Crypto.cut (a <> push "." b) ≡ some (a, b)
unfolding Crypto.cut
cut-append String.[] b h = ap Crypto.cut (nil-append (push "." b)) ∙ cut-dot b
cut-append (String.◌∷◌ c a) b (p, h) =
    ap Crypto.cut (cons-append c a (push "." b))
    ∙ (rw p (ap (Crypto.extend_cut c) (cut-append a b h)))

cons-none : (o : Option ℕ) → cons_sextet o none ≡ none
cons-none none = refl
cons-none (some n) = refl

-- A dot is no character of base 64.
sextets-dotted : (a b : String) → sextets (a <> push "." b) ≡ none
unfolding sextets char_sextet
sextets-dotted String.[] b = ap sextets (nil-append (push "." b))
sextets-dotted (String.◌∷◌ c a) b =
    ap sextets (cons-append c a (push "." b)) ∙ (elim (Bool-cases (is_line_end c)) [
      | inl end ↦ rw end (sextets-dotted a b)
      | inr other ↦
          rw other
            (ap (cons_sextet (char_sextet c)) (sextets-dotted a b) ∙ cons-none (char_sextet c))
    ])

decode-dotted : (a b : String) → decode (a <> push "." b) ≡ none
unfolding decode join_read
decode-dotted a b = ap join_read (sextets-dotted a b)

same_bytes_refl : (bytes : Bytes) → Crypto.same_bytes bytes bytes ≡ true
same_bytes_refl [] = refl
same_bytes_refl (b ∷ bytes) = ground (arith, same_bytes_refl bytes)

module _ (h : Crypto.Hashes) where
  -- The signatures are bytes.
  abbrev pub GivesBytes : Type 0
  GivesBytes = (key message : Bytes) → IsBytes (h.hmac_sha1 key message)

  try_secrets-match :
      (secrets : List String) (payload secret : String)
      → Among secret secrets
      → blank secret ≡ false
      → Crypto.try_secrets h secrets payload (Crypto.signature h payload secret) ≡ ok payload
  unfolding Crypto.try_secrets
  try_secrets-match [] payload secret m p = absurd m
  try_secrets-match (secret' ∷ secrets) payload secret (inl e) p =
      let same = ap (λ s. Crypto.signature h payload s) e in
      let shown = ap (λ s. blank s) e in
      let found = same_bytes_refl (Crypto.signature h payload secret') in
      rw (same, sym shown ∙ p, found) refl
  try_secrets-match (secret' ∷ secrets) payload secret (inr m) p =
      ground (arith, try_secrets-match secrets payload secret m p)

  encrypt-eq-ok :
      (plaintext secret : String)
      → blank secret ≡ false
      → Crypto.encrypt h plaintext secret
        ≡ ok (plaintext <> push "." (encode (Crypto.signature h plaintext secret)))
  unfolding Crypto.encrypt
  encrypt-eq-ok plaintext secret p = rw p refl

  -- A text without a dot is decrypted with any list of secrets that has the one it was encrypted with.
  decrypt-encrypt :
      (plaintext secret : String) (secrets : List String)
      → GivesBytes
      → HasNoDot plaintext
      → Among secret secrets
      → blank secret ≡ false
      → (ciphertext : String) × (Crypto.encrypt h plaintext secret ≡ ok ciphertext)
        × (Crypto.decrypt h ciphertext secrets ≡ ok plaintext)
  unfolding Crypto.decrypt Crypto.decrypt_cut Crypto.decrypt_decoded Crypto.signature
  decrypt-encrypt plaintext secret secrets bytes nodot m p =
      let sig = Crypto.signature h plaintext secret in
      (
        plaintext <> push "." (encode sig),
        encrypt-eq-ok plaintext secret p,
        ap (Crypto.decrypt_cut h secrets) (cut-append plaintext (encode sig) nodot)
            ∙ ap (Crypto.decrypt_decoded h secrets plaintext) (decode-encode sig (bytes _ _))
            ∙ try_secrets-match secrets plaintext secret m p,
      )

  -- A text with a dot is encrypted, but no secret decrypts it: the rest of the text is taken for a
  -- part of the signature.
  pub decrypt-dotted :
      (a b secret : String) (secrets : List String)
      → HasNoDot a
      → blank secret ≡ false
      → (ciphertext : String) × (Crypto.encrypt h (a <> push "." b) secret ≡ ok ciphertext)
        × (Crypto.decrypt h ciphertext secrets ≡ err (plain_error "decode signature"))
  unfolding Crypto.decrypt Crypto.decrypt_cut Crypto.decrypt_decoded
  decrypt-dotted a b secret secrets nodot p =
      let sig = Crypto.signature h (a <> push "." b) secret in
      let parts =
        append_assoc a (push "." b) (push "." (encode sig))
        ∙ ap (λ s. a <> s) (cons-append "." b (push "." (encode sig))) in
      (
        (a <> push "." b) <> push "." (encode sig),
        encrypt-eq-ok (a <> push "." b) secret p,
        ap (λ s. Crypto.decrypt_cut h secrets (Crypto.cut s)) parts
            ∙ ap (Crypto.decrypt_cut h secrets) (cut-append a (b <> push "." (encode sig)) nodot)
            ∙ ap (Crypto.decrypt_decoded h secrets a) (decode-dotted b (encode sig)),
      )
