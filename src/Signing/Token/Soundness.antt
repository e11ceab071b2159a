-- ===== src/Signing/Token/Soundness.antt =====
-- What a token that `Unsign` accepts is made of.
use Prim.Native.Char.{Char, code}
use text.Mathlib.TextEquality.{Char-path}
use text.Mathlib.TextLemmas.{nil-append, cons-append}
use notification_api_spec.Base.{
  ◌≡◌, refl, ap, sym, ◌∙◌, inl, inr, String, true, false, Option, none, some, List, [], ◌∷◌, ◌==◌,
  ◌=s=◌, ◌<>◌, push, blank, ok, Among, arith, eq_iff, Bool-cases, Option-cases,
}
use notification_api_spec.Signing.Base64.{Bytes, decode}
use notification_api_spec.Signing.Token.{
  extend_split, split_last, Hashes, signature_of, stamped, checked_payload, try_secrets,
  unsign_stamped, unsign_split, unsign,
}

dot_of_code : (c : Char) → code c == b'.' ≡ true → c ≡ "."
dot_of_code c h = Char-path c "." (ground arith)

extend_split_lem :
    (c : Char) (s : String) (o : Option (String × String)) (a b : String)
    → ((x y : String) → o ≡ some (x, y) → s ≡ x <> push "." y)
    → extend_split c s o ≡ some (a, b)
    → push c s ≡ a <> push "." b
extend_split_lem c s none a b k e = elim (Bool-cases (code c == b'.')) [
  | inl dot ↦
      let found : ("" ≡ a) × (s ≡ b) = ground arith in
      let here = dot_of_code c dot in
      ap (λ d. push d s) here ∙ sym (nil-append (push "." s)) ∙ (rw (found.0, found.1) refl)
  | inr other ↦ ground arith
]
extend_split_lem c s (some (x, y)) a b k e =
    let found : (push c x ≡ a) × (y ≡ b) = ground arith in
    ap (push c) (k x y refl) ∙ sym (cons-append c x (push "." y)) ∙ (rw (found.0, found.1) refl)

split_last_lem : (s a b : String) → split_last s ≡ some (a, b) → s ≡ a <> push "." b
unfolding split_last
split_last_lem String.[] a b e = ground arith
split_last_lem (String.◌∷◌ c s) a b e = extend_split_lem c s (split_last s) a b (split_last_lem s) e

module _ (h : Hashes) where
  -- A secret that the text was signed with.
  abbrev pub IsSigned : String → String → String → String → Type 0
  IsSigned text signature secret salt =
      (blank secret ≡ false) × (signature ≡ signature_of h text secret salt)

  stamped_lem :
      (payload result : String) (o : Option Bytes)
      → stamped h payload o ≡ ok result
      → (result ≡ payload) × ((bytes : Bytes) × (o ≡ some bytes))
  stamped_lem payload result none e = ground arith
  stamped_lem payload result (some bytes) e = (ground arith, (bytes, refl))

  found_later :
      {A B : Type 0} (secrets : List String) (text signature salt : String) (secret' : String)
      → A × B × ((secret : String) × Among secret secrets × IsSigned text signature secret salt)
      → A
        × B
        × ((secret : String) × Among secret (secret' ∷ secrets)
            × IsSigned text signature secret salt)
  found_later secrets text signature salt secret' (a, b, (secret, m, k)) =
      (a, b, (secret, inr m, k))

  try_secrets_lem :
      (secrets : List String) (salt text payload stamp signature result : String)
      → try_secrets h secrets salt text payload stamp signature ≡ ok result
      → (result ≡ payload)
        × ((bytes : Bytes) × (decode stamp ≡ some bytes))
        × ((secret : String) × Among secret secrets × IsSigned text signature secret salt)
  unfolding try_secrets checked_payload
  try_secrets_lem [] salt text payload stamp signature result e = ground arith
  try_secrets_lem (secret ∷ secrets) salt text payload stamp signature result e =
      elim (Bool-cases (blank secret)) [
        | inl no_secret ↦
            found_later secrets text signature salt secret
              (try_secrets_lem secrets salt text payload stamp signature result (ground arith))
        | inr real ↦ elim (Bool-cases (signature =s= signature_of h text secret salt)) [
          | inl same ↦
              let here : stamped h payload (decode stamp) ≡ ok result = ground arith in
              let (a, b) = stamped_lem payload result (decode stamp) here in
              (
                a,
                b,
                (
                  secret,
                  inl refl,
                  (real, ground (arith, eq_iff signature (signature_of h text secret salt))),
                ),
              )
          | inr other ↦
              found_later secrets text signature salt secret
                (try_secrets_lem secrets salt text payload stamp signature result (ground arith))
        ]
      ]

  -- A token is accepted only if it is the payload, a timestamp and the signature of these two with one
  -- of the secrets.
  pub unsign_lem :
      (token : String) (secrets : List String) (salt payload : String)
      → unsign h token secrets salt ≡ ok payload
      → (stamp : String) × ((bytes : Bytes) × (decode stamp ≡ some bytes))
        × ((secret : String) × Among secret secrets
            × (blank secret ≡ false)
            × (token
                ≡ (payload <> push "." stamp)
                  <> push "." (signature_of h (payload <> push "." stamp) secret salt)))
  unfolding unsign unsign_split unsign_stamped
  unsign_lem token secrets salt payload e = elim (Option-cases (split_last token)) [
    | inl bad ↦
        let refused : unsign_split h secrets salt none ≡ ok payload =
          sym (ap (unsign_split h secrets salt) bad) ∙ e in
        absurd (ground arith)
    | inr ((text, signature), split) ↦
        let here : unsign_stamped h secrets salt text signature (split_last text) ≡ ok payload =
          sym (ap (unsign_split h secrets salt) split) ∙ e in
        elim (Option-cases (split_last text)) [
          | inl bad ↦
              let refused : unsign_stamped h secrets salt text signature none ≡ ok payload =
                sym (ap (unsign_stamped h secrets salt text signature) bad) ∙ here in
              absurd (ground arith)
          | inr ((payload', stamp), split') ↦
              let tried : try_secrets h secrets salt text payload' stamp signature ≡ ok payload =
                sym (ap (unsign_stamped h secrets salt text signature) split') ∙ here in
              let (same, readable, (secret, m, (real, signed))) =
                try_secrets_lem secrets salt text payload' stamp signature payload tried in
              let whole = split_last_lem token text signature split in
              let inner = split_last_lem text payload' stamp split' in
              let text_is = inner ∙ ap (λ p. p <> push "." stamp) (sym same) in
              let token_is =
                whole
                ∙ ap (λ s. text <> push "." s) signed
                ∙ ap (λ t. t <> push "." (signature_of h t secret salt)) text_is in
              (stamp, readable, (secret, m, real, token_is))
        ]
  ]
