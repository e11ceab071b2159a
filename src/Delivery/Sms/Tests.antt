-- ===== src/Delivery/Sms/Tests.antt =====
-- Runs of the SMS worker.
use notification_api_spec.Base.{
  trim_space, ◌≡◌, ◌≤◌, ◌+◌, ◌⊎◌, refl, String, true, Option, none, some, [], ◌∷◌, arith, ok,
  GoError, pinpoint_validation, plain_error, false,
}
use notification_api_spec.Delivery.{Uuid, Notification, Service, Selection, handled_already}
use notification_api_spec.Smsutil
use notification_api_spec.Delivery.Sms
use notification_api_spec.Delivery.Sms.Sends.{sends, IsSendable, deliver-sends_only}
use notification_api_spec.Delivery.Sms.Records.{records, deliver_settles}
use notification_api_spec.Delivery.Sms.Verdict.{
  verdict, failure_verdict, result_of, update_of, last_record, or_before, IsReliable, Attempt,
  deliver_follows,
}
use notification_api_spec.Queue
use notification_api_spec.Queue.{
  Message, RawMessage, message_of, QueueCall, Consumer, is_transient, warn_of, handle_one,
}
use notification_api_spec.Queue.Deliveries.{error_of, disposed, handle_one-deliver}

abbrev notification : Notification
notification = record {
  id = "n1";
  to = "+16135550188";
  status = some "created";
  service_id = some "s1";
  template_id = none;
  international = false;
  key_type = "normal";
  reference = "ref";
}

abbrev service : Service
service = record {
  name = "Parks";
  active = true;
  research_mode = false;
  prefix_sms = true;
  email_from = "parks";
}

abbrev selection : Selection
selection = record {
  client = "pinpoint";
  is_sms_sender = true;
  is_email_sender = false;
  identifier = "pinpoint";
  sending_vehicle = "long_code";
}

-- A worker whose provider gives this answer.
abbrev worker : String × Option GoError → Sms.SmsWorker
worker answer = record {
  notification_by_id = λ log id. ok notification;
  service_by_id = λ log id. ok service;
  update_delivery = λ log u. ok tt;
  select_provider = λ log to template international. ok selection;
  toggler = none;
  renderer = λ log n s. ok "Hello";
  responder = λ log a b c. ok tt;
  send_sms = λ log client request. answer;
  callbacks = none;
  has_stats = true;
}

abbrev refused : String × Option GoError
refused = ("", some (pinpoint_validation "NO_ORIGINATION" ∷ []))

worker-IsReliable : (answer : String × Option GoError) → IsReliable (worker answer)
worker-IsReliable answer = record {
  updates = λ log u. refl;
  callbacks = λ f e log id. absurd (ground arith);
  toggles = λ f e log id. absurd (ground arith);
}

sendable :
    (answer : String × Option GoError)
    → IsSendable (worker answer) "n1" [] notification "s1" service
sendable answer = record {
  found = refl;
  created = refl;
  has_service = refl;
  service_found = refl;
  service_active = refl;
  real = refl;
}

attempt :
    (answer : String × Option GoError)
    → Attempt (worker answer) "n1" [] notification "s1" service "Hello" selection
unfolding Smsutil.normalize trim_space Smsutil.holds_rune
attempt answer = record {
  sendable = sendable answer;
  rendered = refl;
  not_blank = refl;
  selected = refl;
  sender = refl;
}

deliver_follows_example :
    let (result, log) = Sms.deliver (worker refused) "n1" "priority" 0 [] in
    (result ≡ result_of "n1" (verdict "priority" 0 refused))
    × (last_record log ≡ or_before (update_of "n1" selection (verdict "priority" 0 refused)) none)
deliver_follows_example =
    deliver_follows (worker refused) "priority" 0 (worker-IsReliable refused) (attempt refused)

one_send : sends (Sms.deliver (worker refused) "n1" "bulk" 3 []).1 ≡ 1
unfolding Sms.deliver Sms.deliver_created Sms.deliver_active Sms.send_to_provider Sms.sms_answered
    Sms.sms_refused Sms.update_delivery Sms.notify_callbacks Smsutil.normalize Smsutil.holds_rune
    trim_space
one_send = refl

deliver-sends_only_example :
    (n : Notification) × (sid : Uuid) × (s : Service) × IsSendable (worker refused) "n1" [] n sid s
deliver-sends_only_example =
    deliver-sends_only (worker refused) "n1" "bulk" 3 [] (λ e. omega (arith, e, one_send))

deliver_settles_example :
    let (result, log') = Sms.deliver (worker ("id-1", none)) "n1" "normal" 0 [] in
    (records log' ≤ 0 + 1)
    × (result ≡ ok tt
        → (records log' ≡ 0 + 1)
          ⊎ ((n : Notification) × ((worker ("id-1", none)).notification_by_id [] "n1" ≡ ok n)
              × (handled_already n ≡ true)
              × (log' ≡ Sms.SmsCall.get_notification "n1" ∷ [])))
deliver_settles_example = deliver_settles (worker ("id-1", none)) "n1" "normal" 0 []

abbrev raw : RawMessage
raw = record {
  message_id = some "m1";
  body = some "n1";
  receipt_handle = some "h1";
  attributes = λ key. "1";
  message_attributes = [];
}

abbrev consumer : Consumer
consumer = record {
  wait_time_seconds = 20;
  max_messages = 10;
  visibility_timeout = 310;
  has_logger = true;
  done = λ log. false;
  receive_message = λ log. ok (raw ∷ []);
  delete_message = λ log receipt. ok tt;
  change_visibility = λ log receipt seconds. ok tt;
}

-- The provider refuses the text for now.
abbrev busy : String × Option GoError
busy = ("", some (plain_error "busy"))

abbrev handler : Queue.Log → Message → Option GoError
handler log m = error_of (Sms.deliver (worker busy) m.body "priority" 0 []).0

handle_one-deliver_example :
    handle_one consumer handler raw []
    ≡ disposed consumer raw (verdict "priority" 0 busy) (QueueCall.handle (message_of raw) ∷ [])
handle_one-deliver_example =
    handle_one-deliver consumer handler (worker busy) "priority" 0 raw [] (worker-IsReliable busy)
      (attempt busy) refl

left : disposed consumer raw (verdict "priority" 0 busy) [] ≡ warn_of consumer "handler_error" []
unfolding verdict failure_verdict is_transient
left = refl
