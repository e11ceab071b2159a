-- ===== src/Delivery/Sms/Verdict.antt =====
-- What becomes of an SMS that was handed to a provider, as a table, and that the worker follows it.
use notification_api_spec.Base.{
  call, call_if, ℕ, String, ◌≡◌, true, false, Option, none, some, [], ◌∷◌, arith, ◌=s=◌, leb, blank,
  if◌then◌else◌, chain_has, technical_failure, ok, err, Done, GoError, Option-cases, inl, inr,
}
use notification_api_spec.Smsutil.{normalize, apply_prefix}
use notification_api_spec.Delivery.{
  Uuid, Notification, Service, Selection, NotificationUpdate, retry_delay, null_uuid, status_update,
  retry_after,
}
use notification_api_spec.Delivery.Sms
use notification_api_spec.Delivery.Sms.Sends.{IsSendable}

pub data Verdict : Type 0 where
  delivered opted_out exhausted : Verdict
  provider_failure : (reason : Option String) → Verdict
  retry_later : (delay : ℕ) → GoError → Verdict

-- The verdict on what `SendSMS` returned, after so many retries.
unfoldable pub failure_verdict : String → ℕ → GoError → Verdict
failure_verdict p r e =
    if chain_has Sms.is_validation e
    then Verdict.provider_failure (Sms.validation_reason e)
    else if chain_has Sms.is_conflict e
    then Verdict.provider_failure none
    else if leb 48 r
    then Verdict.exhausted
    else Verdict.retry_later (retry_delay p) e

unfoldable pub verdict : String → ℕ → String × Option GoError → Verdict
verdict p r (response, none) =
    if response =s= "opted_out" then Verdict.opted_out else Verdict.delivered
verdict p r (response, some e) =
    if response =s= "opted_out" then Verdict.opted_out else failure_verdict p r e

-- The result of the delivery.
unfoldable pub result_of : Uuid → Verdict → Done
result_of id Verdict.exhausted = err (technical_failure id ∷ [])
result_of id (Verdict.retry_later delay e) = err (retry_after delay e)
result_of id _ = ok tt

-- The update that the verdict leaves in the database, if any.
pub update_of : Uuid → Selection → Verdict → Option NotificationUpdate
update_of id sel Verdict.delivered =
    some (record (status_update id "sent") { sent_by = some sel.identifier })
update_of id sel Verdict.opted_out = some (record (status_update id "permanent-failure") {
  provider_response = some "Phone number is opted out";
})
update_of id sel (Verdict.provider_failure reason) =
    some (record (status_update id "provider-failure") { feedback_reason = reason })
update_of id sel Verdict.exhausted = some (status_update id "technical-failure")
update_of id sel (Verdict.retry_later delay e) = none

-- The status written last.
abbrev pub last_record : Sms.Log → Option NotificationUpdate
last_record [] = none
last_record (Sms.SmsCall.update u ∷ log) =
    let rest = last_record log in if u.status =s= "" then rest else some u
last_record (_ ∷ log) = last_record log

abbrev pub or_before :
    Option NotificationUpdate → Option NotificationUpdate → Option NotificationUpdate
or_before none before = before
or_before (some u) before = some u

module _ (w : Sms.SmsWorker) where
  -- The stores and the queue answer without an error.
  pub record IsReliable : Type 0 where
    pub updates : (log : Sms.Log) (u : NotificationUpdate) → w.update_delivery log u ≡ ok tt
    pub callbacks :
        (f : Sms.Log → Uuid → Done)
        → w.callbacks ≡ some f
        → (log : Sms.Log) (id : Uuid) → f log id ≡ ok tt
    pub toggles :
        (f : Sms.Log → String → Done)
        → w.toggler ≡ some f
        → (log : Sms.Log) (id : String) → f log id ≡ ok tt

  abbrev pub Follows : Uuid → Selection → Verdict → Sms.Log → Done × Sms.Log → Type 0
  Follows id sel v log (result, log') =
      (result ≡ result_of id v)
      × (last_record log' ≡ or_before (update_of id sel v) (last_record log))

  module _ (h : IsReliable) where
    update_delivery-eq-ok :
        (u : NotificationUpdate) (log : Sms.Log)
        → Sms.update_delivery w u log ≡ (ok tt, Sms.SmsCall.update u ∷ log)
    unfolding Sms.update_delivery
    update_delivery-eq-ok u log = rw (h.updates log u)

    notify_callbacks_lem :
        (id : Uuid) (log : Sms.Log)
        → ((Sms.notify_callbacks w id log).0 ≡ ok tt)
          × (last_record (Sms.notify_callbacks w id log).1 ≡ last_record log)
    unfolding Sms.notify_callbacks
    notify_callbacks_lem id log = elim (Option-cases w.callbacks) [
      | inl e ↦ ground arith
      | inr (f, e) ↦ ground (arith, h.callbacks f e log id)
    ]

    technical_failure_of-Follows :
        (id : Uuid) (sel : Selection) (log : Sms.Log)
        → Follows id sel Verdict.exhausted log (Sms.technical_failure_of w id log)
    unfolding Sms.technical_failure_of result_of update_of
    technical_failure_of-Follows id sel log = ground (
      arith,
      update_delivery-eq-ok (status_update id "technical-failure") log,
      notify_callbacks_lem id (Sms.SmsCall.update (status_update id "technical-failure") ∷ log),
    )

    sms_sent-Follows :
        (n : Notification) (sel : Selection) (p : String) (log : Sms.Log)
        → Follows n.id sel Verdict.delivered log (Sms.sms_sent w n sel p log)
    unfolding Sms.sms_sent result_of update_of
    sms_sent-Follows n sel p log = ground (
      arith,
      update_delivery-eq-ok (record (status_update n.id "sent") { sent_by = some sel.identifier })
          log,
    )

    toggled :
        (n : Notification) (sel : Selection) (log : Sms.Log)
        → let (result, log') =
            call_if w.toggler
              (λ f. call (Sms.SmsCall.toggle sel.identifier) (λ log. f log sel.identifier))
              log in
          (result ≡ ok tt) × (last_record log' ≡ last_record log)
    toggled n sel log = elim (Option-cases w.toggler) [
      | inl e ↦ ground arith
      | inr (f, e) ↦ ground (arith, h.toggles f e log sel.identifier)
    ]

    sms_failed-Follows :
        (n : Notification) (sel : Selection) (p : String) (r : ℕ) (e : GoError) (log : Sms.Log)
        → Follows n.id sel
            (if leb 48 r then Verdict.exhausted else Verdict.retry_later (retry_delay p) e)
            log
            (Sms.sms_failed w n sel p r e log)
    unfolding Sms.sms_failed result_of update_of
    sms_failed-Follows n sel p r e log =
        let u = record (status_update n.id "") { billable_units = some 1 } in
        let log' =
          (call_if w.toggler
            (λ f. call (Sms.SmsCall.toggle sel.identifier) (λ log. f log sel.identifier))
            (Sms.SmsCall.update u ∷ log)).1 in
        ground (
          arith,
          update_delivery-eq-ok u log,
          toggled n sel (Sms.SmsCall.update u ∷ log),
          technical_failure_of-Follows n.id sel log',
        )

    sms_refused-Follows :
        (n : Notification) (sel : Selection) (p : String) (r : ℕ) (e : GoError) (log : Sms.Log)
        → Follows n.id sel (failure_verdict p r e) log (Sms.sms_refused w n sel p r e log)
    unfolding Sms.sms_refused failure_verdict result_of update_of
    sms_refused-Follows n sel p r e log =
        let u = record (status_update n.id "provider-failure") {
          feedback_reason = Sms.validation_reason e;
        } in
        let v = status_update n.id "provider-failure" in
        ground (
          arith,
          sms_failed-Follows n sel p r e log,
          update_delivery-eq-ok u log,
          update_delivery-eq-ok v log,
          notify_callbacks_lem n.id (Sms.SmsCall.update u ∷ log),
          notify_callbacks_lem n.id (Sms.SmsCall.update v ∷ log),
        )

    sms_answered-Follows :
        (n : Notification) (sel : Selection) (p : String) (r : ℕ) (a : String × Option GoError)
        (log : Sms.Log)
        → Follows n.id sel (verdict p r a) log (Sms.sms_answered w n sel p r a log)
    unfolding Sms.sms_answered verdict result_of update_of
    sms_answered-Follows n sel p r (response, none) log =
        let u = record (status_update n.id "permanent-failure") {
          provider_response = some "Phone number is opted out";
        } in
        ground (arith, sms_sent-Follows n sel p log, update_delivery-eq-ok u log)
    sms_answered-Follows n sel p r (response, some e) log =
        let u = record (status_update n.id "permanent-failure") {
          provider_response = some "Phone number is opted out";
        } in
        ground (arith, sms_refused-Follows n sel p r e log, update_delivery-eq-ok u log)

  -- The calls before the provider is called, the newest first.
  abbrev pub before_send : Uuid → Notification → Uuid → Sms.Log → Sms.Log
  before_send id n sid log =
      Sms.SmsCall.provider_to_use n.to (null_uuid n.template_id) n.international
      ∷ Sms.SmsCall.render n.id
      ∷ Sms.SmsCall.get_service sid
      ∷ Sms.SmsCall.get_notification id
      ∷ log

  -- A delivery that gets as far as the provider.
  pub record Attempt (id : Uuid) (log : Sms.Log) (n : Notification) (sid : Uuid) (s : Service)
      (text : String) (sel : Selection) : Type 0 where
    pub sendable : IsSendable w id log n sid s
    pub rendered :
        w.renderer (Sms.SmsCall.get_service sid ∷ Sms.SmsCall.get_notification id ∷ log) n s
        ≡ ok text
    pub not_blank : blank (normalize text) ≡ false
    pub selected :
        w.select_provider
          (Sms.SmsCall.render n.id
            ∷ Sms.SmsCall.get_service sid
            ∷ Sms.SmsCall.get_notification id
            ∷ log)
          n.to
          (null_uuid n.template_id)
          n.international
        ≡ ok sel
    pub sender : sel.is_sms_sender ≡ true

  -- The text that is sent: normalised, then with the service's prefix.
  abbrev pub sent_request : Notification → Uuid → Service → String → Selection → Sms.SmsRequest
  sent_request n sid s text sel =
      Sms.sms_request n sid (apply_prefix s.name (normalize text) s.prefix_sms) sel

  send_to_provider_of_Attempt :
      {id : Uuid} {log : Sms.Log} {n : Notification} {sid : Uuid} {s : Service} {text : String}
      {sel : Selection} (p : String) (r : ℕ)
      → Attempt id log n sid s text sel
      → Sms.deliver w id p r log
        ≡ Sms.sms_answered w n sel p r
            (w.send_sms (before_send id n sid log) sel.client (sent_request n sid s text sel))
            (Sms.SmsCall.send sel.client (sent_request n sid s text sel) ∷ before_send id n sid log)
  unfolding Sms.deliver Sms.deliver_created Sms.deliver_active Sms.send_to_provider
  send_to_provider_of_Attempt p r a = ground arith

  -- With reliable stores, a delivery that gets as far as the provider ends as the table says: its
  -- result and the status it leaves are those of the verdict on the provider's answer to the
  -- normalised and prefixed text.
  pub deliver_follows :
      {id : Uuid} {log : Sms.Log} {n : Notification} {sid : Uuid} {s : Service} {text : String}
      {sel : Selection} (p : String) (r : ℕ)
      → IsReliable
      → Attempt id log n sid s text sel
      → let v =
          verdict p r
            (w.send_sms (before_send id n sid log) sel.client (sent_request n sid s text sel)) in
        let (result, log') = Sms.deliver w id p r log in
        (result ≡ result_of n.id v)
        × (last_record log' ≡ or_before (update_of n.id sel v) (last_record log))
  deliver_follows {id} {log} {n} {sid} {s} {text} {sel} p r h a =
      rw (send_to_provider_of_Attempt p r a) (
        sms_answered-Follows h n sel p r
          (w.send_sms (before_send id n sid log) sel.client (sent_request n sid s text sel))
          (Sms.SmsCall.send sel.client (sent_request n sid s text sel) ∷ before_send id n sid log))
