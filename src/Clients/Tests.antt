-- ===== src/Clients/Tests.antt =====
-- Numbers, and the answers of Pinpoint.
use notification_api_spec.Base.{◌≡◌, refl, false, [], ◌∷◌, ok, err, pinpoint_api}
use notification_api_spec.Delivery.Sms.{SmsRequest}
use notification_api_spec.Delivery.Sms.Verdict.{verdict}
use notification_api_spec.Clients.{normalize_destination}
use notification_api_spec.Clients.Pinpoint
use notification_api_spec.Clients.Pinpoint.Answers.{api_verdict, send_sms_verdict}

canadian : normalize_destination "613-555-0188" ≡ ok ("+16135550188", false)
unfolding normalize_destination
canadian = refl

abbrev client : Pinpoint.PinpointClient
client = record {
  cfg = record {
    config_set = "c";
    use_pinpoint_for_dedicated = false;
    sc_pool_id = "sc";
    default_pool_id = "lc";
    sc_template_ids = [];
  };
  has_dedicated = false;
  send_text_message =
      λ api input. err (pinpoint_api "ConflictException" "DESTINATION_PHONE_NUMBER_OPTED_OUT" ∷ []);
}

abbrev request : SmsRequest
request = record {
  to = "613-555-0188";
  content = "Hello";
  reference = "ref";
  template_id = "t1";
  service_id = "s1";
  sender = "";
  sending_vehicle = "long_code";
}

send_sms_verdict_example :
    verdict "normal" 0 (Pinpoint.send_sms_result client request)
    ≡ api_verdict "normal" 0 "ConflictException" "DESTINATION_PHONE_NUMBER_OPTED_OUT"
send_sms_verdict_example =
    send_sms_verdict client "normal" 0 request ("+16135550188", false) "ConflictException"
      "DESTINATION_PHONE_NUMBER_OPTED_OUT" canadian refl
