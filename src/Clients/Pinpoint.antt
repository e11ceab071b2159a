-- ===== src/Clients/Pinpoint.antt =====
-- internal/client/pinpoint/client.go: `Client.SendSMS`.
pub mod Answers
use notification_api_spec.Base.{
  ℕ, String, Bool, true, false, not, Option, none, some, List, [], ◌∷◌, ◌&&◌, ◌||◌, ◌=s=◌, ◌<>◌,
  if◌then◌else◌, trim_space, equal_fold, has_prefix, any, Outcome, ok, err, GoError, ErrorNode,
  pinpoint_api, pinpoint_conflict, pinpoint_validation, Proc, raise,
}
use notification_api_spec.Delivery.{Uuid, nil_uuid}
use notification_api_spec.Delivery.Sms.{SmsRequest}
use notification_api_spec.Clients.{normalize_destination}

pub record PinpointConfig : Type 0 where
  pub config_set : String
  pub use_pinpoint_for_dedicated : Bool
  pub sc_pool_id : String
  pub default_pool_id : String
  pub sc_template_ids : List Uuid

-- The flags `Has…` are the `some` of an option.
pub record SendTextMessageInput : Type 0 where
  pub destination_phone_number : String
  pub message_body : String
  pub message_type : String
  pub configuration_set_name : String
  pub origination_identity : Option String
  pub dry_run : Bool
  pub reference : String

-- Which of the two API clients sends.
pub data ApiClient : Type 0 where
  default_client dedicated_client : ApiClient

pub record PinpointClient : Type 0 where
  pub cfg : PinpointConfig
  pub has_dedicated : Bool
  pub send_text_message : ApiClient → SendTextMessageInput → Outcome String

module _ (c : PinpointClient) where
  pub origination_identity : Uuid → Uuid → String → String
  origination_identity template_id service_id vehicle =
      if equal_fold vehicle "short_code"
      then c.cfg.sc_pool_id
      else if not (template_id =s= nil_uuid)
          && (service_id =s= "d6aa2c68-a2d9-4437-ab19-3ae8eb202553"
              && any (λ id. trim_space id =s= template_id) c.cfg.sc_template_ids)
      then c.cfg.sc_pool_id
      else c.cfg.default_pool_id

  abbrev pub or_default : String → Option String
  or_default identity = if identity =s= "" then none else some identity

  -- Whether the request goes by the dedicated client.
  pub uses_dedicated : SmsRequest → Bool
  uses_dedicated r =
      has_prefix (trim_space r.sender) "+1" && (c.cfg.use_pinpoint_for_dedicated && c.has_dedicated)

  -- The client and the input, for a number and whether it is one abroad.
  pub input_of : SmsRequest → String × Bool → ApiClient × SendTextMessageInput
  input_of r (number, abroad) =
      let plain : SendTextMessageInput = record {
        destination_phone_number = number;
        message_body = r.content;
        message_type = "TRANSACTIONAL";
        configuration_set_name = c.cfg.config_set;
        origination_identity = none;
        dry_run = false;
        reference = r.reference;
      } in
      if uses_dedicated r
      then (dedicated_client, record plain { origination_identity = some r.sender })
      else if abroad
      then (default_client, plain)
      else (
        default_client,
        record plain {
          origination_identity =
              or_default (origination_identity r.template_id r.service_id r.sending_vehicle);
          dry_run = number =s= "+16135550124";
        },
      )

  -- What the client makes of the API's error: the first `APIError` of the chain decides.
  pub translate_error : GoError → GoError → Outcome String
  translate_error whole [] = err whole
  translate_error whole (pinpoint_api code reason ∷ _) =
      if code =s= "ConflictException"
      then (if reason =s= "DESTINATION_PHONE_NUMBER_OPTED_OUT"
          then ok "opted_out"
          else err (pinpoint_conflict reason ∷ whole))
      else if code =s= "ValidationException"
      then err (pinpoint_validation reason ∷ whole)
      else err whole
  translate_error whole (_ ∷ e) = translate_error whole e

  answer_of : Outcome String → Outcome String
  answer_of (ok response) = ok response
  answer_of (err e) = translate_error e e

  -- The request is sent by the chosen client.
  send_to : Outcome (String × Bool) → SmsRequest → Outcome String
  send_to (err e) r = err e
  send_to (ok destination) r =
      let (client, input) = input_of r destination in answer_of (c.send_text_message client input)

  pub send_sms : SmsRequest → Outcome String
  unfolding send_to answer_of
  send_sms r = send_to (normalize_destination r.to) r

  -- As `SMSSender.SendSMS` gives it: a text, empty where there is an error, and the error.
  pub text_and_error : Outcome String → String × Option GoError
  text_and_error (ok response) = (response, none)
  text_and_error (err e) = ("", some e)

  pub send_sms_result : SmsRequest → String × Option GoError
  send_sms_result r = text_and_error (send_sms r)
