-- ===== src/Services/ApiKeys/Plaintext.antt =====
-- The ids in the plaintext of a key.
use text.Mathlib.TextLemmas.{append_assoc}
use notification_api_spec.Base.{
  ◌+◌, ◌-◌, ◌≡◌, ap, sym, ◌∙◌, String, ◌<>◌, text_length, drop_text, take_text, arith,
}
use notification_api_spec.Base.Affixes.{text_length-append, drop_text-append, take_text-append}
use notification_api_spec.Auth.Requests.{token_segment, service_segment}

abbrev pub key_text : (prefix id token : String) → String
key_text prefix id token = prefix <> id <> token

-- The ids that end a key.
module _ (prefix id token : String) (id_long : text_length id ≡ 36)
    (token_long : text_length token ≡ 36) where
  abbrev plaintext : String
  plaintext = key_text prefix id token

  pub plaintext_length : text_length plaintext ≡ text_length prefix + 72
  plaintext_length = omega (
    arith,
    text_length-append prefix (id <> token),
    text_length-append id token,
    id_long,
    token_long,
  )

  tail_found : drop_text (text_length plaintext - 72) plaintext ≡ id <> token
  tail_found =
      let there : text_length plaintext - 72 ≡ text_length prefix =
        omega (arith, plaintext_length) in
      ap (λ n. drop_text n plaintext) there ∙ drop_text-append prefix (id <> token)

  pub service_found : service_segment plaintext ≡ id
  service_found =
      ap (take_text 36) tail_found
      ∙ ap (λ n. take_text n (id <> token)) (sym id_long)
      ∙ take_text-append id token

  pub token_found : token_segment plaintext ≡ token
  token_found =
      let there : text_length plaintext - 36 ≡ text_length (prefix <> id) =
        omega (arith, plaintext_length, text_length-append prefix id, id_long) in
      let grouped : plaintext ≡ (prefix <> id) <> token = sym (append_assoc prefix id token) in
      ap (λ n. drop_text n plaintext) there
      ∙ ap (drop_text (text_length (prefix <> id))) grouped
      ∙ drop_text-append (prefix <> id) token
