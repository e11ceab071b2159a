-- ===== src/Delivery/Email/Tests.antt =====
-- Runs of the email worker.
use notification_api_spec.Base.{
  trim_space, to_lower, equal_fold, ℕ, ◌≡◌, ◌≤◌, ◌<◌, ◌+◌, ◌⊎◌, refl, String, true, false, Option,
  none, some, [], ◌∷◌, arith, ok, GoError, plain_error, aws_ses,
}
use notification_api_spec.Delivery.{Uuid, Notification, Service, Selection, handled_already}
use notification_api_spec.Delivery.Email
use notification_api_spec.Delivery.Email.Sends.{sends, IsSendable, email_sends_only}
use notification_api_spec.Delivery.Email.Records.{records, email_settles}
use notification_api_spec.Delivery.Email.Attachments.{
  downloads, Recovers, download_attachment_retries,
}
use notification_api_spec.Delivery.Email.Verdict.{
  verdict, result_of, update_of, last_record, or_before, IsReliable, Attempt, email_follows,
}

abbrev notification : Notification
notification = record {
  id = "n1";
  to = "ana@example.com";
  status = some "created";
  service_id = some "s1";
  template_id = none;
  international = false;
  key_type = "normal";
  reference = "ref";
}

abbrev service : Service
service = record {
  name = "Parks";
  active = true;
  research_mode = false;
  prefix_sms = true;
  email_from = "parks";
}

abbrev selection : Selection
selection = record {
  client = "ses";
  is_sms_sender = false;
  is_email_sender = true;
  identifier = "ses";
  sending_vehicle = "long_code";
}

abbrev attachment : Email.Attachment
attachment = record { name = "map.pdf"; content = 1 ∷ []; mime_type = "application/pdf" }

abbrev plain : Email.EmailContent
plain = record {
  source = "";
  subject = "Hi";
  body = "Open at 9";
  html_body = "<p>Open at 9</p>";
  reply_to_address = none;
  sending_method = "";
  file_url = "";
  direct_file_url = "";
  attachments = [];
}

abbrev with_file : Email.EmailContent
with_file = record plain {
  sending_method = "attach";
  direct_file_url = "https://files.example.com/map";
}

-- A server that fails once, and then answers.
abbrev server : Email.Log → String → Email.Downloaded
server (Email.EmailCall.download _ ∷ log) url = Email.Downloaded.fetched attachment
server _ url = Email.Downloaded.failed 503 (plain_error "unavailable")

abbrev worker : Option GoError → Email.EmailWorker
worker answer = record {
  scan_for_pii = false;
  notification_by_id = λ log id. ok notification;
  service_by_id = λ log id. ok service;
  update_delivery = λ log u. ok tt;
  select_provider = λ log to template international. ok selection;
  renderer = λ log n s. ok plain;
  responder = λ log to. ok tt;
  send_email = λ log client request. answer;
  callbacks = none;
  bounce_rate = none;
  scanner = none;
  downloader = some server;
  has_stats = true;
  quote = λ s. s;
}

abbrev throttled : Option GoError
throttled = some (aws_ses "throttled" ∷ [])

worker-IsReliable : (answer : Option GoError) → IsReliable (worker answer)
worker-IsReliable answer = record {
  updates = λ log u. refl;
  callbacks = λ f e log id. absurd (ground arith);
  sliding = λ b e log s n. absurd (ground arith);
  bounces = λ b e log s. absurd (ground arith);
}

sendable :
    (answer : Option GoError)
    → IsSendable (worker answer) "n1" [] notification "s1" service plain plain
unfolding Email.prepare_attachments Email.prepare_attach Email.prepare_link trim_space to_lower
    equal_fold
sendable answer = record {
  found = refl;
  created = refl;
  has_service = refl;
  service_found = refl;
  service_active = refl;
  rendered = refl;
  free = refl;
  prepared = refl;
}

attempt :
    (answer : Option GoError)
    → Attempt (worker answer) "n1" [] notification "s1" service plain plain selection
attempt answer = record { sendable = sendable answer; selected = refl; sender = refl }

email_follows_example :
    let (result, log) = Email.deliver (worker throttled) "n1" "priority" 0 [] in
    (result ≡ result_of (verdict "priority" 0 throttled))
    × (last_record log ≡ or_before (update_of "n1" selection (verdict "priority" 0 throttled)) none)
email_follows_example =
    email_follows (worker throttled) "priority" 0 (worker-IsReliable throttled) (attempt throttled)

one_send : sends (Email.deliver (worker throttled) "n1" "bulk" 3 []).1 ≡ 1
unfolding Email.deliver Email.deliver_created Email.deliver_content Email.send_to_provider
    Email.email_answered Email.email_refused Email.retry_or_give_up Email.prepare_attachments
    Email.prepare_attach Email.prepare_link trim_space to_lower equal_fold
one_send = refl

email_sends_only_example :
    (n : Notification) × (sid : Uuid) × (s : Service) × (c ready : Email.EmailContent) × IsSendable
      (worker throttled)
      "n1"
      []
      n
      sid
      s
      c
      ready
email_sends_only_example =
    email_sends_only (worker throttled) "n1" "bulk" 3 [] (λ e. omega (arith, e, one_send))

email_settles_example :
    let (result, log') = Email.deliver (worker none) "n1" "normal" 0 [] in
    (records log' ≤ 0 + 1)
    × (result ≡ ok tt
        → (records log' ≡ 0 + 1)
          ⊎ ((n : Notification) × ((worker none).notification_by_id [] "n1" ≡ ok n)
              × (handled_already n ≡ true)
              × (log' ≡ Email.EmailCall.get_notification "n1" ∷ [])))
email_settles_example = email_settles (worker none) "n1" "normal" 0 []

download_attachment_retries_example :
    (downloads (Email.download_attachment (worker none) server "https://a" []).1 ≤ 0 + 5)
    × ((tries : ℕ) (a : Email.Attachment)
        → tries < 5
        → Recovers (worker none) server "https://a" tries a []
        → (Email.download_attachment (worker none) server "https://a" []).0 ≡ ok a)
download_attachment_retries_example =
    download_attachment_retries (worker none) server "https://a" []

second_try : (Email.download_attachment (worker none) server "https://a" []).0 ≡ ok attachment
second_try =
    download_attachment_retries_example.1 1 attachment (omega arith)
      ((503, plain_error "unavailable", refl, omega arith, omega arith), refl)

no_file :
    (Email.prepare_attachments
      (worker none)
      (record with_file { direct_file_url = "FILE:///etc/passwd" })
      []).1
    ≡ []
unfolding Email.prepare_attachments Email.prepare_attach trim_space to_lower Email.is_file_url
no_file = refl
