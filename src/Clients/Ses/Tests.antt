-- ===== src/Clients/Ses/Tests.antt =====
-- An email by SES.
use notification_api_spec.Base.{
  ◌≡◌, refl, none, [], ◌∷◌, ok, err, plain_error, ses_client, arith, ◌<>◌, split_at, trim_space,
  is_space, join_texts,
}
use notification_api_spec.Delivery.Email.{EmailRequest}
use notification_api_spec.Delivery.Email.Verdict.{verdict}
use notification_api_spec.Clients.Ses.{SesClient, build_raw_message, send_email, std_encode}
use notification_api_spec.Clients.Ses.Answers.{refused, error_of, ses_verdict, send_email_verdict}
use notification_api_spec.Signing.Base64.{encode, sextet_char}

abbrev client : SesClient
client = record {
  send_raw_email = λ raw. err (ses_client "InvalidParameterValue" "no such domain" ∷ []);
  to_ascii = λ domain. ok domain;
  quote = λ s. "\"" <> s <> "\"";
  mixed_boundary = "m1";
  alternative_boundary = "a1";
}

abbrev request : EmailRequest
request = record {
  source = "notify@example.ca ";
  to_addresses = "a@example.ca" ∷ [];
  subject = "Hello";
  body = "Hi";
  html_body = "<p>Hi</p>";
  reply_to_address = none;
  attachments = [];
}

padded : std_encode (251 ∷ 255 ∷ []) ≡ "+/8="
unfolding std_encode encode sextet_char
padded = refl

message_built :
    build_raw_message client request
    ≡ ok
        "From: notify@example.ca\r\nTo: a@example.ca\r\nSubject: Hello\r\nMIME-Version: 1.0\r\nContent-Type: multipart/alternative; boundary=\"a1\"\r\n\r\n--a1\r\nContent-Transfer-Encoding: quoted-printable\r\nContent-Type: text/plain; charset=UTF-8\r\n\r\nHi\r\n--a1\r\nContent-Transfer-Encoding: quoted-printable\r\nContent-Type: text/html; charset=UTF-8\r\n\r\n<p>Hi</p>\r\n--a1--\r\n"
unfolding build_raw_message split_at trim_space is_space join_texts
message_built = refl

-- An address that cannot be sent to is refused, but not as an invalid email.
malformed :
    send_email client (record request { to_addresses = "a.example.ca" ∷ [] })
    ≡ err (plain_error "invalid email address: a.example.ca")
unfolding send_email split_at trim_space is_space
malformed = refl

send_email_verdict_example :
    verdict "normal" 0 (error_of (send_email client request))
    ≡ ses_verdict "normal" 0
        (build_raw_message client request)
        (refused "InvalidParameterValue" "no such domain")
send_email_verdict_example =
    send_email_verdict client (λ s e failed. absurd (ground (arith, failed))) "normal" 0 request
      (refused "InvalidParameterValue" "no such domain") (λ raw built. refl)
