-- ===== src/Clients/Ses.antt =====
-- internal/client/ses/client.go: `Client.SendEmail` and the message that it builds.
pub mod Answers
mod Tests
use notification_api_spec.Base.{
  ℕ, String, Bool, true, false, ◌&&◌, Option, none, some, List, [], ◌∷◌, length, ◌==◌, ◌%◌, ◌=s=◌,
  ◌<>◌, leb, push, code, Char, if◌then◌else◌, blank, trim_space, split_at, join_texts, Outcome, ok,
  err, Done, GoError, ErrorNode, ses_client, invalid_email, aws_ses, plain_error,
}
use notification_api_spec.Base.Outcomes.{◌>>=◌, ◌>>◌}
use notification_api_spec.Signing.{utf8}
use notification_api_spec.Signing.Base64.{Bytes, encode}
use notification_api_spec.Delivery.Email.{Attachment, EmailRequest}

-- The client: the API, the functions `idna.Lookup.ToASCII` and the verb %q, and the boundaries that
-- the writers of the parts draw.
pub record SesClient : Type 0 where
  pub send_raw_email : String → Done
  pub to_ascii : String → Outcome String
  pub quote : String → String
  pub mixed_boundary : String
  pub alternative_boundary : String

-- `base64.StdEncoding`: the other two characters, and the padding.
unfoldable pub std_characters : String → String
std_characters String.[] = ""
std_characters (String.◌∷◌ c s) =
    let rest = std_characters s in
    if code c == b'-' then push "+" rest else if code c == b'_' then push "/" rest else push c rest

abbrev pub padding : ℕ → String
padding n = if n % 3 == 1 then "==" else if n % 3 == 2 then "=" else ""

unfoldable pub std_encode : Bytes → String
unfolding std_characters
std_encode bytes = std_characters (encode bytes) <> padding (length bytes)

-- `isASCII`
unfoldable pub is_ascii : String → Bool
is_ascii String.[] = true
is_ascii (String.◌∷◌ c s) = leb (code c) 127 && is_ascii s

-- `writeHeader`
abbrev pub header : (key value : String) → String
header key value = key <> ": " <> value <> "\r\n"

-- The client's error in a chain.
unfoldable pub client_error : GoError → Option (String × String)
client_error [] = none
client_error (node ∷ e) =
    let rest = client_error e in elim node [ ses_client c message ↦ some (c, message) | _ ↦ rest ]

-- The end of `SendEmail`.
unfoldable pub translate : GoError → Done
unfolding client_error
translate e = elim (client_error e) [
  | none ↦ err e
  | some (c, message) ↦
      if c =s= "InvalidParameterValue"
      then err (invalid_email message ∷ e)
      else err (aws_ses message ∷ e)
]

-- The parts that are split at "@".
abbrev pub two_parts : String × List String → Option (String × String)
two_parts (local, []) = none
two_parts (local, domain ∷ []) =
    if blank local then none else if blank domain then none else some (local, domain)
two_parts (local, domain ∷ more ∷ parts) = none

module _ (c : SesClient) where
  -- `punycodeEncodeEmail`
  unfoldable pub punycode_encode_email : String → Outcome String
  punycode_encode_email address = elim (two_parts (split_at b'@' (trim_space address))) [
    | none ↦ err (plain_error ("invalid email address: " <> address))
    | some (local, domain) ↦ c.to_ascii domain >>= λ ascii. ok (local <> "@" <> ascii)
  ]

  -- `formatReplyToHeader`
  unfoldable pub format_reply_to_header : Option String → Outcome (Option String)
  unfolding punycode_encode_email is_ascii
  format_reply_to_header none = ok none
  format_reply_to_header (some address) =
      if blank address
      then ok none
      else punycode_encode_email (trim_space address) >>= λ encoded. ok (
          some (
            if is_ascii (trim_space address)
            then encoded
            else "=?utf-8?b?" <> std_encode (utf8 encoded) <> "?="))

  -- The loop over the addresses.
  unfoldable pub encode_addresses : List String → Outcome (List String)
  unfolding punycode_encode_email
  encode_addresses [] = ok []
  encode_addresses (address ∷ addresses) = punycode_encode_email (trim_space address) >>= λ encoded.
      encode_addresses addresses >>= λ rest. ok (encoded ∷ rest)

  -- `CreatePart`, whose headers are in the order of their names, with the part's content; `start` is
  -- empty for the first part of a writer.
  abbrev pub part : (start boundary headers content : String) → String
  part start boundary headers content =
      start <> "--" <> boundary <> "\r\n" <> headers <> "\r\n" <> content

  abbrev pub close : (boundary : String) → String
  close boundary = "\r\n--" <> boundary <> "--\r\n"

  -- `writeTextPart`
  abbrev pub text_part : (start boundary content_type value : String) → String
  text_part start boundary content_type value =
      part start boundary
        (header "Content-Transfer-Encoding" "quoted-printable"
          <> header "Content-Type" content_type)
        value

  -- `writeAttachmentPart`
  unfoldable pub attachment_part : (boundary : String) → Attachment → String
  unfolding std_encode
  attachment_part boundary attachment =
      part "\r\n" boundary
        (header "Content-Disposition" ("attachment; filename=" <> c.quote attachment.name)
          <> header "Content-Transfer-Encoding" "base64"
          <> header "Content-Type" (
              if blank attachment.mime_type
              then "application/octet-stream"
              else trim_space attachment.mime_type))
        (std_encode attachment.content)

  unfoldable pub attachment_parts : (boundary : String) → List Attachment → String
  unfolding attachment_part
  attachment_parts boundary [] = ""
  attachment_parts boundary (attachment ∷ attachments) =
      attachment_part boundary attachment <> attachment_parts boundary attachments

  abbrev pub alternative : EmailRequest → String
  alternative request =
      text_part "" c.alternative_boundary "text/plain; charset=UTF-8" request.body
      <> text_part "\r\n" c.alternative_boundary "text/html; charset=UTF-8" request.html_body
      <> close c.alternative_boundary

  abbrev pub multipart : (kind boundary : String) → String
  multipart kind boundary = "multipart/" <> kind <> "; boundary=" <> c.quote boundary

  -- `buildMessageBody`: the body and its type.
  unfoldable pub build_message_body : EmailRequest → String × String
  unfolding attachment_parts
  build_message_body request = elim request.attachments [
    | [] ↦ (alternative request, multipart "alternative" c.alternative_boundary)
    | _ ∷ _ ↦ (
      part "" c.mixed_boundary
            (header "Content-Type" (multipart "alternative" c.alternative_boundary))
            (alternative request)
          <> attachment_parts c.mixed_boundary request.attachments
          <> close c.mixed_boundary,
      multipart "mixed" c.mixed_boundary,
    )
  ]

  abbrev pub reply_to_line : Option String → String
  reply_to_line none = ""
  reply_to_line (some value) = header "Reply-To" value

  -- `buildRawMessage`
  unfoldable pub build_raw_message : EmailRequest → Outcome String
  unfolding punycode_encode_email encode_addresses format_reply_to_header build_message_body
  build_raw_message request = do
    from ← punycode_encode_email (trim_space request.source)
    to_addresses ← encode_addresses request.to_addresses
    reply_to ← format_reply_to_header request.reply_to_address
    let (body, content_type) = build_message_body request
    ok (
        header "From" from
        <> header "To" (join_texts to_addresses ", ")
        <> header "Subject" request.subject
        <> header "MIME-Version" "1.0"
        <> reply_to_line reply_to
        <> header "Content-Type" content_type
        <> "\r\n"
        <> body)

  -- `SendEmail`, from the built message on.
  abbrev pub answered : Done → Done
  answered (ok _) = ok tt
  answered (err e) = translate e

  abbrev pub send_built : Outcome String → Done
  send_built (err e) = err e
  send_built (ok raw) = answered (c.send_raw_email raw)

  unfoldable pub send_email : EmailRequest → Done
  unfolding build_raw_message
  send_email request = send_built (build_raw_message request)
