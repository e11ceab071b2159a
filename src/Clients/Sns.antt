-- ===== src/Clients/Sns.antt =====
-- internal/client/sns/client.go: `Client.SendSMS`.
use notification_api_spec.Base.{String, Outcome, ok, err, Done}
use notification_api_spec.Delivery.Sms.{SmsRequest}
use notification_api_spec.Clients.{sns_destination}

pub record PublishInput : Type 0 where
  pub phone_number : String
  pub message : String
  pub sms_type : String
  pub reference : String

publish_to : (PublishInput → Done) → SmsRequest → Outcome String → Outcome String
publish_to publish r (err e) = err e
publish_to publish r (ok number) =
    elim (publish (record {
      phone_number = number;
      message = r.content;
      sms_type = "Transactional";
      reference = r.reference;
    })) [ ok _ ↦ ok "" | err e ↦ err e ]

pub send_sms : (PublishInput → Done) → SmsRequest → Outcome String
unfolding publish_to
send_sms publish r = publish_to publish r (sns_destination r.to)
