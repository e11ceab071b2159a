-- ===== src/Delivery/Sms.antt =====
-- internal/worker/delivery/deliver_sms.go: `SMSWorker.Deliver`.
pub mod Sends
pub mod Records
pub mod Verdict
mod Tests
use notification_api_spec.Base.{
  ℕ, String, Bool, true, false, Option, none, some, List, [], ◌∷◌, if◌then◌else◌, ◌=s=◌, ◌<>◌, ◌||◌,
  leb, blank, to_lower, trim_space, GoError, ErrorNode, Outcome, ok, err, Done, Proc, call, emit,
  pure, raise, map_error, attempt, call_if, ◌>>=◌, ◌>>◌, plain_error, chain_has, technical_failure,
  pinpoint_validation, pinpoint_conflict,
}
use notification_api_spec.Smsutil.{normalize, apply_prefix}
use notification_api_spec.Delivery.{
  Uuid, Notification, Service, Selection, NotificationUpdate, status_update, retry_delay,
  normalize_process_type, null_uuid, retry_after, missing_notification, handled_already,
}

pub record SmsRequest : Type 0 where
  pub to : String
  pub content : String
  pub reference : String
  pub template_id : Uuid
  pub service_id : Uuid
  pub sender : String
  pub sending_vehicle : String

-- The calls that the worker makes.
pub data SmsCall : Type 0 where
  get_notification : Uuid → SmsCall
  get_service : Uuid → SmsCall
  render : Uuid → SmsCall
  respond : (provider to reference : String) → SmsCall
  provider_to_use : (to : String) → (template : Uuid) → (international : Bool) → SmsCall
  send : (client : String) → SmsRequest → SmsCall
  update : NotificationUpdate → SmsCall
  toggle : (identifier : String) → SmsCall
  enqueue_callback : Uuid → SmsCall
  timing incr : String → SmsCall

abbrev pub Log : Type 0
Log = List SmsCall

-- The worker's fields: the answers of its interfaces, after the calls made before. `none` is a nil
-- interface.
pub record SmsWorker : Type 0 where
  pub notification_by_id : Log → Uuid → Outcome Notification
  pub service_by_id : Log → Uuid → Outcome Service
  pub update_delivery : Log → NotificationUpdate → Done
  pub select_provider : Log → String → Uuid → Bool → Outcome Selection
  pub toggler : Option (Log → String → Done)
  pub renderer : Log → Notification → Service → Outcome String
  pub responder : Log → String → String → String → Done
  -- The text that `SendSMS` returns, and its error if it is not nil.
  pub send_sms : Log → String → SmsRequest → String × Option GoError
  pub callbacks : Option (Log → Uuid → Done)
  pub has_stats : Bool

abbrev pub no_origination : String
no_origination = "selected client does not implement SMSSender"

abbrev pub is_validation : ErrorNode → Bool
is_validation (pinpoint_validation _) = true
is_validation _ = false

abbrev pub is_conflict : ErrorNode → Bool
is_conflict (pinpoint_conflict _) = true
is_conflict _ = false

-- `validationErr.Reason`, of the first error that `errors.As` finds.
abbrev pub validation_reason : GoError → Option String
validation_reason [] = none
validation_reason (pinpoint_validation reason ∷ e) = some reason
validation_reason (_ ∷ e) = validation_reason e

-- `service.ResearchMode || notification.KeyType == config.KeyTypeTest
--  || notification.To == config.InternalTestNumber`
abbrev pub simulated : Notification → Service → Bool
simulated n s = s.research_mode || (n.key_type =s= "test" || n.to =s= "+16135550123")

pub sms_request : Notification → Uuid → String → Selection → SmsRequest
sms_request n service_id body selection = record {
  to = n.to;
  content = body;
  reference = n.reference;
  template_id = null_uuid n.template_id;
  service_id = service_id;
  sender = "";
  sending_vehicle = to_lower selection.sending_vehicle;
}

module _ (w : SmsWorker) where
  update_delivery : NotificationUpdate → Proc SmsCall (Unit {0})
  update_delivery u = call (update u) (λ log. w.update_delivery log u)

  notify_callbacks : Uuid → Proc SmsCall (Unit {0})
  notify_callbacks id = call_if w.callbacks (λ f. call (enqueue_callback id) (λ log. f log id))

  technical_failure_of : Uuid → Proc SmsCall (Unit {0})
  technical_failure_of id = do
    update_delivery (status_update id "technical-failure")
    notify_callbacks id
    raise (technical_failure id ∷ [])

  -- `sendErr` is nil.
  sms_sent : Notification → Selection → String → Proc SmsCall (Unit {0})
  sms_sent n selection process_type = do
    update_delivery (record (status_update n.id "sent") { sent_by = some selection.identifier })
    if w.has_stats then stats else pure tt
    where
      stats : Proc SmsCall (Unit {0})
      stats = do
        emit (timing "sms.total-time")
        emit (incr ("sms.process_type-" <> normalize_process_type process_type))

  -- An error that is neither a validation nor a conflict of Pinpoint.
  sms_failed : Notification → Selection → String → ℕ → GoError → Proc SmsCall (Unit {0})
  sms_failed n selection process_type retries e = do
    update_delivery (record (status_update n.id "") { billable_units = some 1 })
    call_if w.toggler (λ f. call (toggle selection.identifier) (λ log. f log selection.identifier))
    if leb 48 retries
        then technical_failure_of n.id
        else raise (retry_after (retry_delay process_type) e)

  -- The tests on `sendErr`.
  sms_refused : Notification → Selection → String → ℕ → GoError → Proc SmsCall (Unit {0})
  sms_refused n selection process_type retries e =
      if chain_has is_validation e
      then (do
        update_delivery (record (status_update n.id "provider-failure") {
          feedback_reason = validation_reason e;
        })
        notify_callbacks n.id)
      else if chain_has is_conflict e
      then (do update_delivery (status_update n.id "provider-failure"); notify_callbacks n.id)
      else sms_failed n selection process_type retries e

  -- The tests on `response` and `sendErr`.
  sms_answered :
      Notification → Selection → String → ℕ → String × Option GoError → Proc SmsCall (Unit {0})
  sms_answered n selection process_type retries (response, send_err) =
      if response =s= "opted_out"
      then update_delivery (record (status_update n.id "permanent-failure") {
        provider_response = some "Phone number is opted out";
      })
      else elim send_err [
        | none ↦ sms_sent n selection process_type
        | some e ↦ sms_refused n selection process_type retries e
      ]

  -- From the selection of the provider on.
  send_to_provider : Notification → Uuid → String → String → ℕ → Proc SmsCall (Unit {0})
  send_to_provider n service_id body process_type retries = do
    let template = null_uuid n.template_id
    selection ←
        call (provider_to_use n.to template n.international)
          (λ log. w.select_provider log n.to template n.international)
    let request = sms_request n service_id body selection
    if selection.is_sms_sender
        then (λ log.
            sms_answered n selection process_type retries (w.send_sms log selection.client request)
              (send selection.client request ∷ log))
        else raise (plain_error no_origination)

  respond_to_test : Notification → Proc SmsCall (Unit {0})
  respond_to_test n = do
    call (respond "sns" n.to n.reference) (λ log. w.responder log "sns" n.to n.reference)
    update_delivery
        (record (status_update n.id "sent") { sent_by = some "sns"; billable_units = some 0 })

  -- The service is active: render, and send or simulate.
  deliver_active : Notification → Uuid → Service → String → ℕ → Proc SmsCall (Unit {0})
  deliver_active n service_id s process_type retries = do
    rendered ← call (render n.id) (λ log. w.renderer log n s)
    let body = normalize rendered
    if blank body
        then technical_failure_of n.id
        else if simulated n s
        then respond_to_test n
        else send_to_provider n service_id (apply_prefix s.name body s.prefix_sms) process_type
            retries

  -- The notification is still "created".
  deliver_created : Notification → Option Uuid → String → ℕ → Proc SmsCall (Unit {0})
  deliver_created n none process_type retries =
      raise (plain_error ("notification " <> n.id <> " missing service id"))
  deliver_created n (some service_id) process_type retries = do
    s ← call (get_service service_id) (λ log. w.service_by_id log service_id)
    if s.active
        then deliver_active n service_id s process_type retries
        else technical_failure_of n.id

  pub deliver : Uuid → String → ℕ → Proc SmsCall (Unit {0})
  deliver id process_type retries = do
    n ←
        map_error missing_notification
          (call (get_notification id) (λ log. w.notification_by_id log id))
    if handled_already n then pure tt else deliver_created n n.service_id process_type retries
