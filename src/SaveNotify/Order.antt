-- ===== src/SaveNotify/Order.antt =====
-- Notifications are queued only once they are saved.
use notification_api_spec.Base.{
  String, ◌≡◌, ◌⊎◌, inl, inr, refl, Option, none, some, List, [], ◌∷◌, arith, has_suffix, ◌=s=◌,
  Outcome, ok, err, Done, Outcome-cases, Bool-cases,
}
use notification_api_spec.Signing.Token.{loads}
use notification_api_spec.Queue.{Message, Attributes}
use notification_api_spec.SaveNotify.{
  Kind, Payload, SaveTask, SaveCall, Log, SaveWorker, ReplyTo, reply_to_found, look_up_reply_to,
  resolve_email_reply_to, resolved, prepare_loaded, prepare, verify_and_prepare, and_others,
  or_stop, not_blank, text_at, queue_name_for_payload, is_rate_limit_error,
  notification_id_from_payload, send_call, enqueue_identified, enqueue_with, enqueue_notification,
  enqueue_all, acknowledge, inserted, save_verified, handle_task, handle,
}

module _ (w : SaveWorker) where
  -- A bulk insert without an error stands in the log.
  abbrev pub HasInsert : Log → Type 0
  HasInsert [] = ⊥
  HasInsert (SaveCall.bulk_insert payloads ∷ log) =
      (w.bulk_insert_notifications log payloads ≡ ok tt) ⊎ HasInsert log
  HasInsert (_ ∷ log) = HasInsert log

  -- Every send comes after one.
  abbrev pub SendsAfterInsert : Log → Type 0
  SendsAfterInsert [] = Unit
  SendsAfterInsert (SaveCall.send _ _ ∷ log) = HasInsert log × SendsAfterInsert log
  SendsAfterInsert (SaveCall.send_fifo _ _ ∷ log) = HasInsert log × SendsAfterInsert log
  SendsAfterInsert (_ ∷ log) = SendsAfterInsert log

  reply_to_found-log :
      (payload : Payload) (o : Outcome (List ReplyTo)) (log : Log)
      → (reply_to_found w payload o log).1 ≡ log
  unfolding reply_to_found
  reply_to_found-log payload (ok replies) log = refl
  reply_to_found-log payload (err e) log = refl

  look_up-SendsAfterInsert :
      (f : Option (Log → String → Outcome (List ReplyTo))) (service_id : Option String)
      (payload : Payload) (log : Log)
      → SendsAfterInsert log
      → SendsAfterInsert (look_up_reply_to w f service_id payload log).1
  unfolding look_up_reply_to
  look_up-SendsAfterInsert none service_id payload log h = h
  look_up-SendsAfterInsert (some f) none payload log h = h
  look_up-SendsAfterInsert (some f) (some id) payload log h =
      rw (reply_to_found-log payload (f log id) (SaveCall.get_reply_to id ∷ log)) h

  resolved-SendsAfterInsert :
      (kind : Kind) (service_id : Option String) (payload : Payload) (log : Log)
      → SendsAfterInsert log
      → SendsAfterInsert (resolved w kind service_id payload log).1
  unfolding resolved resolve_email_reply_to
  resolved-SendsAfterInsert Kind.sms service_id payload log h = h
  resolved-SendsAfterInsert Kind.email service_id payload log h =
      elim (Bool-cases (not_blank (text_at "reply_to_text" payload))) [
        | inl given ↦ rw given h
        | inr missing ↦ rw missing (look_up-SendsAfterInsert w.services service_id payload log h)
      ]

  prepare_loaded-SendsAfterInsert :
      (service_id : Option String) (o : Outcome Payload) (log : Log)
      → SendsAfterInsert log
      → SendsAfterInsert (prepare_loaded w service_id o log).1
  unfolding prepare_loaded
  prepare_loaded-SendsAfterInsert service_id (err e) log h = h
  prepare_loaded-SendsAfterInsert service_id (ok decoded) log h =
      resolved-SendsAfterInsert w.kind service_id _ log h

  prepare-SendsAfterInsert :
      (service_id : Option String) (signed : String) (log : Log)
      → SendsAfterInsert log
      → SendsAfterInsert (prepare w service_id signed log).1
  unfolding prepare
  prepare-SendsAfterInsert service_id signed log h =
      prepare_loaded-SendsAfterInsert service_id
        (loads w.hashes w.codec signed w.secret_keys w.dangerous_salt) log h

  and_others-SendsAfterInsert :
      (first : Outcome Payload × Log) (others : Outcome (List Payload) × Log)
      → SendsAfterInsert first.1
      → SendsAfterInsert others.1
      → SendsAfterInsert (and_others w first others).1
  unfolding and_others
  and_others-SendsAfterInsert (err e, log) others h k = h
  and_others-SendsAfterInsert (ok payload, log) (err e, log') h k = k
  and_others-SendsAfterInsert (ok payload, log) (ok payloads, log') h k = k

  verify-SendsAfterInsert :
      (service_id : Option String) (signed : List String) (log : Log)
      → SendsAfterInsert log
      → SendsAfterInsert (verify_and_prepare w service_id signed log).1
  unfolding verify_and_prepare
  verify-SendsAfterInsert service_id [] log h = h
  verify-SendsAfterInsert service_id (s ∷ signed) log h =
      let first = prepare-SendsAfterInsert service_id s log h in
      and_others-SendsAfterInsert (prepare w service_id s log) _ first
        (verify-SendsAfterInsert service_id signed (prepare w service_id s log).1 first)

  abbrev Saved : Log → Type 0
  Saved log = HasInsert log × SendsAfterInsert log

  Saved-send :
      (payload : Payload) (id : String) (log : Log)
      → Saved log
      → Saved (send_call w payload id ∷ log)
  unfolding send_call
  Saved-send payload id log h =
      elim (Bool-cases (has_suffix (queue_name_for_payload w.kind payload) ".fifo")) [
        | inl fifo ↦ rw fifo (h.0, h)
        | inr plain ↦ rw plain (h.0, h)
      ]

  enqueue_identified-Saved :
      (f : Log → SaveCall → Done) (payload : Payload) (o : Outcome String) (log : Log)
      → Saved log
      → Saved (enqueue_identified w f payload o log).1
  unfolding enqueue_identified
  enqueue_identified-Saved f payload (err e) log h = h
  enqueue_identified-Saved f payload (ok id) log h =
      elim (Bool-cases (queue_name_for_payload w.kind payload =s= "")) [
        | inl nowhere ↦ rw nowhere h
        | inr named ↦ rw named (Saved-send payload id log h)
      ]

  enqueue_with-Saved :
      (f : Option (Log → SaveCall → Done)) (payload : Payload) (log : Log)
      → Saved log
      → Saved (enqueue_with w f payload log).1
  unfolding enqueue_with
  enqueue_with-Saved none payload log h = h
  enqueue_with-Saved (some f) payload log h =
      enqueue_identified-Saved f payload (notification_id_from_payload w payload) log h

  enqueue-Saved :
      (payload : Payload) (log : Log) → Saved log → Saved (enqueue_notification w payload log).1
  unfolding enqueue_notification
  enqueue-Saved payload log h = enqueue_with-Saved w.producer_send payload log h

  or_stop-Saved :
      (first rest : Done × Log) → Saved first.1 → Saved rest.1 → Saved (or_stop w first rest).1
  unfolding or_stop
  or_stop-Saved (ok done, log) rest h k = k
  or_stop-Saved (err e, log) rest h k = elim (Bool-cases (is_rate_limit_error e)) [
    | inl limited ↦ rw limited k
    | inr fatal ↦ rw fatal h
  ]

  enqueue_all-Saved :
      (payloads : List Payload) (log : Log) → Saved log → Saved (enqueue_all w payloads log).1
  unfolding enqueue_all
  enqueue_all-Saved [] log h = h
  enqueue_all-Saved (payload ∷ payloads) log h =
      let first = enqueue-Saved payload log h in
      or_stop-Saved (enqueue_notification w payload log) _ first
        (enqueue_all-Saved payloads (enqueue_notification w payload log).1 first)

  acknowledge-Saved : (receipt : String) (log : Log) → Saved log → Saved (acknowledge w receipt log)
  unfolding acknowledge
  acknowledge-Saved receipt log h = ground (arith)

  acknowledge-SendsAfterInsert :
      (receipt : String) (log : Log)
      → SendsAfterInsert log
      → SendsAfterInsert (acknowledge w receipt log)
  unfolding acknowledge
  acknowledge-SendsAfterInsert receipt log h = ground (arith)

  save_verified-SendsAfterInsert :
      (attributes : Attributes) (receipt : String) (o : Outcome (List Payload)) (log : Log)
      → SendsAfterInsert log
      → SendsAfterInsert (save_verified w attributes receipt o log).1
  unfolding save_verified inserted
  save_verified-SendsAfterInsert attributes receipt (err e) log h = ground arith
  save_verified-SendsAfterInsert attributes receipt (ok payloads) log h =
      elim (Outcome-cases (w.bulk_insert_notifications log payloads)) [
        | inl (done, e) ↦ rw e (
            (enqueue_all-Saved payloads _
              (acknowledge-Saved receipt (SaveCall.bulk_insert payloads ∷ log) (inl e, h))).1)
        | inr (error, e) ↦
            rw e (acknowledge-SendsAfterInsert receipt (SaveCall.bulk_insert payloads ∷ log) h)
      ]

  handle_task-SendsAfterInsert :
      (attributes : Attributes) (o : Outcome SaveTask) (log : Log)
      → SendsAfterInsert log
      → SendsAfterInsert (handle_task w attributes o log).1
  unfolding handle_task
  handle_task-SendsAfterInsert attributes (err e) log h = h
  handle_task-SendsAfterInsert attributes (ok task) log h =
      let (verified, log') = verify_and_prepare w task.service_id task.signed_notifications log in
      save_verified-SendsAfterInsert attributes task.receipt verified log'
        (verify-SendsAfterInsert task.service_id task.signed_notifications log h)

  -- A message is handled without a notification being queued before it is in the database.
  pub handle-SendsAfterInsert :
      (msg : Message) (log : Log) → SendsAfterInsert log → SendsAfterInsert (handle w msg log).1
  unfolding handle
  handle-SendsAfterInsert msg log h =
      handle_task-SendsAfterInsert msg.attributes (w.unmarshal msg.body) log h
