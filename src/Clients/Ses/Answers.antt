-- ===== src/Clients/Ses/Answers.antt =====
-- What the email worker makes of the answers of the SES client.
use notification_api_spec.Base.{
  ℕ, String, ◌≡◌, refl, ap, sym, ◌∙◌, Option, none, some, List, [], ◌∷◌, arith, ◌=s=◌, ◌<>◌, leb,
  if◌then◌else◌, Bool-cases, Outcome-cases, Option-cases, inl, inr, Outcome, ok, err, Done, GoError,
  ses_client, aws_ses, plain_error, blank, trim_space, split_at,
}
use notification_api_spec.Base.Outcomes.{◌>>=◌}
use notification_api_spec.Delivery.{retry_delay}
use notification_api_spec.Delivery.Email.{EmailRequest}
use notification_api_spec.Delivery.Email.Verdict.{Verdict, verdict}
use notification_api_spec.Clients.Ses.{
  SesClient, translate, client_error, two_parts, punycode_encode_email, format_reply_to_header,
  encode_addresses, answered, send_built, build_raw_message, send_email,
}

-- What the API says to a message.
pub data ApiAnswer : Type 0 where
  accepted : ApiAnswer
  refused : (code message : String) → ApiAnswer
  unreachable : (text : String) → ApiAnswer

abbrev pub done_of : ApiAnswer → Done
done_of accepted = ok tt
done_of (refused code message) = err (ses_client code message ∷ [])
done_of (unreachable text) = err (plain_error text)

abbrev pub error_of : Done → Option GoError
error_of (ok _) = none
error_of (err e) = some e

abbrev pub retried : String → ℕ → GoError → Verdict
retried p r e = if leb 48 r then Verdict.given_up else Verdict.retry_later (retry_delay p) e

-- The verdict on a message, if one could be built, and the answer to it.
pub ses_verdict : String → ℕ → Outcome String → ApiAnswer → Verdict
ses_verdict p r (err e) answer = retried p r e
ses_verdict p r (ok raw) accepted = Verdict.delivered
ses_verdict p r (ok raw) (refused code message) =
    if code =s= "InvalidParameterValue"
    then Verdict.given_up
    else retried p r (aws_ses message ∷ ses_client code message ∷ [])
ses_verdict p r (ok raw) (unreachable text) = retried p r (plain_error text)

abbrev pub IsPlain : GoError → Type 0
IsPlain e = (text : String) × (e ≡ plain_error text)

bind-IsPlain :
    {A B : Type 0} (x : Outcome A) (f : A → Outcome B) (e : GoError)
    → ((e' : GoError) → x ≡ err e' → IsPlain e')
    → ((a : A) → x ≡ ok a → f a ≡ err e → IsPlain e)
    → (x >>= f) ≡ err e
    → IsPlain e
bind-IsPlain (ok a) f e h k same = k a refl same
bind-IsPlain (err e') f e h k same =
    let (text, its) = h e' refl in let one : e' ≡ e = ground (arith, same) in (text, sym one ∙ its)

module _ (c : SesClient)
    -- The errors of `ToASCII` are none of this program's own.
    (plain : (s : String) (e : GoError) → c.to_ascii s ≡ err e → IsPlain e) where
  punycode-IsPlain :
      (address : String) (e : GoError) → punycode_encode_email c address ≡ err e → IsPlain e
  unfolding punycode_encode_email
  punycode-IsPlain address e failed =
      elim (Option-cases (two_parts (split_at b'@' (trim_space address)))) [
        | inl malformed ↦
            ("invalid email address: " <> address, sym (ground (arith, malformed, failed)))
        | inr ((local, domain), formed) ↦
            bind-IsPlain (c.to_ascii domain) (λ ascii. ok (local <> "@" <> ascii)) e (plain domain)
              (λ a _ x. absurd (ground (arith, x))) (ground (arith, formed, failed))
      ]

  addresses-IsPlain :
      (addresses : List String) (e : GoError) → encode_addresses c addresses ≡ err e → IsPlain e
  unfolding encode_addresses
  addresses-IsPlain [] e failed = absurd (ground (arith, failed))
  addresses-IsPlain (address ∷ addresses) e failed =
      bind-IsPlain (punycode_encode_email c (trim_space address)) _ e
        (punycode-IsPlain (trim_space address))
        (λ encoded _ x.
          bind-IsPlain (encode_addresses c addresses) _ e (addresses-IsPlain addresses)
            (λ rest _ y. absurd (ground (arith, y))) x)
        failed

  reply_to-IsPlain :
      (address : Option String) (e : GoError) → format_reply_to_header c address ≡ err e → IsPlain e
  unfolding format_reply_to_header
  reply_to-IsPlain none e failed = absurd (ground (arith, failed))
  reply_to-IsPlain (some address) e failed = elim (Bool-cases (blank address)) [
    | inl empty ↦ absurd (ground (arith, empty, failed))
    | inr filled ↦ elim (Outcome-cases (punycode_encode_email c (trim_space address))) [
      | inl (encoded, done) ↦ absurd (ground (arith, filled, done, failed))
      | inr (e', malformed) ↦
          let (text, its) = punycode-IsPlain (trim_space address) e' malformed in
          let one : e' ≡ e = ground (arith, filled, malformed, failed) in (text, sym one ∙ its)
    ]
  ]

  build-IsPlain :
      (request : EmailRequest) (e : GoError) → build_raw_message c request ≡ err e → IsPlain e
  unfolding build_raw_message
  build-IsPlain request e failed =
      bind-IsPlain (punycode_encode_email c (trim_space request.source)) _ e
        (punycode-IsPlain (trim_space request.source))
        (λ from _ x.
          bind-IsPlain (encode_addresses c request.to_addresses) _ e
            (addresses-IsPlain request.to_addresses)
            (λ to _ y.
              bind-IsPlain (format_reply_to_header c request.reply_to_address) _ e
                (reply_to-IsPlain request.reply_to_address) (λ r _ z. absurd (ground (arith, z))) y)
            x)
        failed

  plain_verdict :
      (p : String) (r : ℕ) (text : String)
      → verdict p r (some (plain_error text)) ≡ retried p r (plain_error text)
  unfolding verdict
  plain_verdict p r text = ground arith

  translated_verdict :
      (p : String) (r : ℕ) (raw : String) (answer : ApiAnswer)
      → verdict p r (error_of (answered c (done_of answer))) ≡ ses_verdict p r (ok raw) answer
  unfolding verdict ses_verdict translate client_error
  translated_verdict p r raw accepted = refl
  translated_verdict p r raw (refused code message) = ground arith
  translated_verdict p r raw (unreachable text) = ground arith

  -- Where the errors of `ToASCII` are none of the program's own types, the email worker gives up an
  -- address that the SES API refuses at once, and retries any other error of the API until its 48th
  -- retry; a message that cannot be built, the address being malformed, it retries likewise.
  pub send_email_verdict :
      (p : String) (r : ℕ) (request : EmailRequest) (answer : ApiAnswer)
      → ((raw : String)
          → build_raw_message c request ≡ ok raw
          → c.send_raw_email raw ≡ done_of answer)
      → verdict p r (error_of (send_email c request))
        ≡ ses_verdict p r (build_raw_message c request) answer
  unfolding send_email ses_verdict
  send_email_verdict p r request answer said = elim (Outcome-cases (build_raw_message c request)) [
    | inl (raw, built) ↦
        ap (λ b. verdict p r (error_of (send_built c b))) built
        ∙ ap (λ d. verdict p r (error_of (answered c d))) (said raw built)
        ∙ translated_verdict p r raw answer
        ∙ sym (ap (λ b. ses_verdict p r b answer) built)
    | inr (e, failed) ↦
        let (text, its) = build-IsPlain request e failed in
        ap (λ b. verdict p r (error_of (send_built c b))) failed
        ∙ ap (λ x. verdict p r (some x)) its
        ∙ plain_verdict p r text
        ∙ sym (ap (retried p r) its)
        ∙ sym (ap (λ b. ses_verdict p r b answer) failed)
  ]
