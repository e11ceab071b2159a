-- ===== src/Queue/Deliveries.antt =====
-- What becomes of a message of the queue (queue/consumer.go) whose handler is the delivery of an SMS
-- (internal/worker/delivery/deliver_sms.go).
use notification_api_spec.Base.{
  ℕ, String, ◌≡◌, ◌∷◌, refl, ap, ◌∙◌, Option, none, some, GoError, ok, err, Done, if◌then◌else◌,
}
use notification_api_spec.Delivery.{Uuid, Notification, Service, Selection}
use notification_api_spec.Delivery.Sms
use notification_api_spec.Delivery.Sms.Verdict.{
  Verdict, verdict, result_of, IsReliable, Attempt, before_send, sent_request, deliver_follows,
}
use notification_api_spec.Queue.{
  Message, RawMessage, message_of, QueueCall, Log, Consumer, is_transient, backoff_seconds, warn_of,
  warn_error, settle, handle_one,
}

-- The error that a worker hands to the consumer.
abbrev pub error_of : Done → Option GoError
error_of (ok done) = none
error_of (err e) = some e

module _ (c : Consumer) where
  -- The message is deleted, and a refusal of that is only logged.
  abbrev pub deleted : RawMessage → Log → Log
  deleted raw log =
      warn_error c "delete_error"
        (c.delete_message log raw.receipt_handle, QueueCall.delete_message raw.receipt_handle ∷ log)

  -- The message is hidden for so many seconds.
  abbrev pub hidden : RawMessage → ℕ → Log → Log
  hidden raw seconds log = warn_error c "visibility_error" (
    c.change_visibility log raw.receipt_handle seconds,
    QueueCall.change_visibility raw.receipt_handle seconds ∷ log,
  )

  -- What becomes of the message by the verdict on the provider's answer: a final verdict deletes it.
  -- Exhausted retries only log a warning, and so does a failure to be retried later, whatever its
  -- delay, unless the provider's own error asks for the consumer's backoff.
  abbrev pub disposed : RawMessage → Verdict → Log → Log
  disposed raw Verdict.exhausted log = warn_of c "handler_error" log
  disposed raw (Verdict.retry_later delay e) log =
      if is_transient e
      then hidden raw (backoff_seconds raw.attributes) log
      else warn_of c "handler_error" log
  disposed raw _ log = deleted raw log

  module _ (handler : Log → Message → Option GoError) where
    settle-verdict :
        (raw : RawMessage) (id : Uuid) (v : Verdict) (log : Log)
        → settle c handler raw (error_of (result_of id v)) log ≡ disposed raw v log
    unfolding settle result_of is_transient
    settle-verdict raw id Verdict.delivered log = refl
    settle-verdict raw id Verdict.opted_out log = refl
    settle-verdict raw id Verdict.exhausted log = refl
    settle-verdict raw id (Verdict.provider_failure reason) log = refl
    settle-verdict raw id (Verdict.retry_later delay e) log = refl

    -- With reliable stores, a delivery that gets as far as the provider has this effect on the queue,
    -- where its error is the handler's answer to the message: the message is deleted exactly if the
    -- verdict on the provider's answer is final, that is the text is delivered, the number has opted
    -- out or the provider failed for good. A failure to be retried later hides the message for the
    -- consumer's backoff, and not for the delay asked for, if the provider's error is transient;
    -- otherwise, and after the last retry, the message is neither deleted nor hidden.
    pub handle_one-deliver :
        (w : Sms.SmsWorker) {id : Uuid} {sms_log : Sms.Log} {n : Notification} {sid : Uuid}
        {s : Service} {text : String} {sel : Selection} (p : String) (r : ℕ) (raw : RawMessage)
        (log : Log)
        → IsReliable w
        → Attempt w id sms_log n sid s text sel
        → handler log (message_of raw) ≡ error_of (Sms.deliver w id p r sms_log).0
        → handle_one c handler raw log
          ≡ disposed raw
              (verdict p r (
                w.send_sms
                  (before_send w id n sid sms_log)
                  sel.client
                  (sent_request w n sid s text sel)))
              (QueueCall.handle (message_of raw) ∷ log)
    unfolding handle_one
    handle_one-deliver w {id} {sms_log} {n} {sid} {s} {text} {sel} p r raw log h a answer =
        let v = verdict p r (
          w.send_sms (before_send w id n sid sms_log) sel.client
            (sent_request w n sid s text sel)) in
        let called = QueueCall.handle (message_of raw) ∷ log in
        ap (λ o. settle c handler raw o called) (answer ∙ ap error_of (deliver_follows w p r h a).0)
        ∙ settle-verdict raw n.id v called
