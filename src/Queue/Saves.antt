-- ===== src/Queue/Saves.antt =====
-- What becomes of a message of the queue (queue/consumer.go) whose handler saves a batch
-- (internal/worker/savenotify/worker.go) that the database refuses.
use notification_api_spec.Base.{
  ◌≡◌, ap, ◌∙◌, Option, List, ◌∷◌, arith, GoError, ok, err, if◌then◌else◌, ltb,
}
use notification_api_spec.Queue.{
  Message, RawMessage, message_of, QueueCall, Log, Consumer, is_transient, backoff_seconds, settle,
  handle_one,
}
use notification_api_spec.Queue.Deliveries.{error_of, deleted, hidden}
use notification_api_spec.SaveNotify
use notification_api_spec.SaveNotify.{
  Payload, SaveTask, SaveWorker, SaveCall, verify_and_prepare, receive_count, acknowledge,
}
use notification_api_spec.SaveNotify.Failures.{handle-insert_failed}

module _ (c : Consumer) (handler : Log → Message → Option GoError) (w : SaveWorker) where
  -- A message whose batch is verified but cannot be saved is hidden for the consumer's backoff before
  -- its fifth receive, and deleted from it on, where the handler's answer is the worker's error.
  -- Either way the insert is the worker's last call but for the acknowledgement of the receipt, which
  -- is made at once: no notification of the batch is sent to a queue.
  pub handle_one-unsaved :
      (raw : RawMessage) (task : SaveTask) (payloads : List Payload) (e : GoError) (log : Log)
      (calls calls' : SaveNotify.Log)
      → w.unmarshal (message_of raw).body ≡ ok task
      → verify_and_prepare w task.service_id task.signed_notifications calls ≡ (ok payloads, calls')
      → w.bulk_insert_notifications calls' payloads ≡ err e
      → handler log (message_of raw) ≡ error_of (SaveNotify.handle w (message_of raw) calls).0
      → (handle_one c handler raw log ≡ (
          if ltb (receive_count raw.attributes) 5
          then hidden c raw
              (backoff_seconds raw.attributes)
              (QueueCall.handle (message_of raw) ∷ log)
          else deleted c raw (QueueCall.handle (message_of raw) ∷ log)))
        × ((SaveNotify.handle w (message_of raw) calls).1
            ≡ acknowledge w task.receipt (SaveCall.bulk_insert payloads ∷ calls'))
  unfolding handle_one settle is_transient
  handle_one-unsaved raw task payloads e log calls calls' u v f answer =
      let handled = handle-insert_failed w (message_of raw) task payloads e calls calls' u v f in
      (
        ap (λ o. settle c handler raw o (QueueCall.handle (message_of raw) ∷ log))
              (answer ∙ ap (λ h. error_of h.0) handled)
            ∙ ground arith,
        ap (λ h. h.1) handled,
      )
