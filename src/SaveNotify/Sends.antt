-- ===== src/SaveNotify/Sends.antt =====
-- The sends of a batch that is saved (internal/worker/savenotify/worker.go).
use notification_api_spec.Base.{
  ◌≢◌, ◌<>◌, not, blank, trim_space, to_lower, has_suffix, String, ◌≡◌, ◌⊎◌, inl, inr, refl, ap,
  subst, ◌∙◌, true, some, List, [], ◌∷◌, arith, ◌=s=◌, eq_iff, if◌then◌else◌, GoError, ok, err,
  Done, All, Bool-cases,
}
use notification_api_spec.Queue.{Message}
use notification_api_spec.SaveNotify.{
  Kind, Payload, SaveTask, SaveCall, Log, SaveWorker, verify_and_prepare, or_stop,
  queue_name_for_payload, is_rate_limit_error, notification_id_from_payload, send_call,
  enqueue_identified, enqueue_with, enqueue_notification, enqueue_all, acknowledge, text_or_empty,
  text_at, kind_name, queue_for_process_type, inserted, handle,
}
use notification_api_spec.SaveNotify.Failures.{handle-inserted}

module _ (w : SaveWorker) where
  -- A saved notification that can be queued: the queue has a name, the id is one, and the queue takes
  -- it or answers that a limit is exceeded.
  abbrev pub IsQueueable : (Log → SaveCall → Done) → Payload → Type 0
  IsQueueable f payload =
      (queue_name_for_payload w.kind payload ≢ "")
      × ((id : String) × (notification_id_from_payload w payload ≡ ok id)
          × ((log : Log)
              → (f log (send_call w payload id) ≡ ok tt)
                ⊎ ((e : GoError) × (f log (send_call w payload id) ≡ err e)
                    × (is_rate_limit_error e ≡ true))))

  abbrev GoesOn : Done → Type 0
  GoesOn result =
      (result ≡ ok tt) ⊎ ((e : GoError) × (result ≡ err e) × (is_rate_limit_error e ≡ true))

  enqueue_identified-named :
      (f : Log → SaveCall → Done) (payload : Payload) (id : String) (log : Log)
      → queue_name_for_payload w.kind payload ≢ ""
      → enqueue_identified w f payload (ok id) log
        ≡ (f log (send_call w payload id), send_call w payload id ∷ log)
  unfolding enqueue_identified
  enqueue_identified-named f payload id log named =
      elim (Bool-cases (queue_name_for_payload w.kind payload =s= "")) [
        | inl unnamed ↦
            absurd (ground (arith, eq_iff (queue_name_for_payload w.kind payload) "", named))
        | inr other ↦ rw other refl
      ]

  -- The queue of a notification: the one it names, else the one of its kind and process type.
  abbrev level_of : String → String
  level_of process_type =
      if process_type =s= "priority"
      then "high"
      else if process_type =s= "bulk"
      then "low"
      else "medium"

  abbrev pub expected_queue : Payload → String
  expected_queue payload =
      if not (blank (text_or_empty (text_at "queue_name" payload)))
      then text_or_empty (text_at "queue_name" payload)
      else "send-"
        <> kind_name w.kind
        <> "-"
        <> level_of (to_lower (trim_space (text_or_empty (text_at "process_type" payload))))

  -- `log'` is `log` with one send per notification, in order: its own id, to its own queue, by the
  -- call for a FIFO queue where the name ends so.
  abbrev pub Sent : List Payload → (log log' : Log) → Type 0
  Sent [] log log' = log' ≡ log
  Sent (payload ∷ payloads) log log' =
      (id : String) × (notification_id_from_payload w payload ≡ ok id)
      × Sent payloads
          ((if has_suffix (expected_queue payload) ".fifo"
              then SaveCall.send_fifo (expected_queue payload) id
              else SaveCall.send (expected_queue payload) id)
            ∷ log)
          log'

  type_queue :
      (kind : Kind) (process_type : String)
      → queue_for_process_type kind process_type
        ≡ "send-" <> kind_name kind <> "-" <> level_of (to_lower (trim_space process_type))
  unfolding queue_for_process_type
  type_queue Kind.email process_type =
      let level = to_lower (trim_space process_type) in
      elim (Bool-cases (level =s= "priority")) [
        | inl a ↦ rw a refl
        | inr a ↦ elim (Bool-cases (level =s= "bulk")) [
          | inl b ↦ rw (a, b) refl
          | inr b ↦ rw (a, b) refl
        ]
      ]
  type_queue Kind.sms process_type =
      let level = to_lower (trim_space process_type) in
      elim (Bool-cases (level =s= "priority")) [
        | inl a ↦ rw a refl
        | inr a ↦ elim (Bool-cases (level =s= "bulk")) [
          | inl b ↦ rw (a, b) refl
          | inr b ↦ rw (a, b) refl
        ]
      ]

  payload_queue :
      (payload : Payload) → queue_name_for_payload w.kind payload ≡ expected_queue payload
  unfolding queue_name_for_payload
  payload_queue payload =
      ap
        (λ q.
          if not (blank (text_or_empty (text_at "queue_name" payload)))
          then text_or_empty (text_at "queue_name" payload)
          else q)
        (type_queue w.kind (text_or_empty (text_at "process_type" payload)))

  send_call_lem :
      (payload : Payload) (id : String)
      → send_call w payload id ≡ (
          if has_suffix (expected_queue payload) ".fifo"
          then SaveCall.send_fifo (expected_queue payload) id
          else SaveCall.send (expected_queue payload) id)
  unfolding send_call
  send_call_lem payload id =
      ap (λ q. if has_suffix q ".fifo" then SaveCall.send_fifo q id else SaveCall.send q id)
        (payload_queue payload)

  enqueue-queueable :
      (f : Log → SaveCall → Done)
      → w.producer_send ≡ some f
      → (payload : Payload) (log : Log) (q : IsQueueable f payload)
      → ((enqueue_notification w payload log).1 ≡ send_call w payload q.1.0 ∷ log)
        × GoesOn (enqueue_notification w payload log).0
  unfolding enqueue_notification enqueue_with
  enqueue-queueable f h payload log (named, (id, e, answers)) =
      rw
        (ap (λ s. enqueue_with w s payload log) h
          ∙ ap (λ o. enqueue_identified w f payload o log) e
          ∙ enqueue_identified-named f payload id log named)
        (refl, answers log)

  or_stop-GoesOn : (first rest : Done × Log) → GoesOn first.0 → or_stop w first rest ≡ rest
  unfolding or_stop
  or_stop-GoesOn (ok done, log) rest g = refl
  or_stop-GoesOn (err e, log) rest (inl g) = ground arith
  or_stop-GoesOn (err e, log) rest (inr (e', same, limited)) = ground arith

  enqueue_all-Sent :
      (f : Log → SaveCall → Done)
      → w.producer_send ≡ some f
      → (payloads : List Payload) (log : Log) → All (IsQueueable f) payloads
      → let (result, log') = enqueue_all w payloads log in (result ≡ ok tt) × Sent payloads log log'
  unfolding enqueue_all
  enqueue_all-Sent f h [] log k = (refl, refl)
  enqueue_all-Sent f h (payload ∷ payloads) log (queueable, k) =
      let first = enqueue_notification w payload log in
      let (sent, goes_on) = enqueue-queueable f h payload log queueable in
      let (finished, rest) = enqueue_all-Sent f h payloads first.1 k in
      let call = send_call_lem payload queueable.1.0 in
      rw (or_stop-GoesOn first (enqueue_all w payloads first.1) goes_on) (
        finished,
        (
          queueable.1.0,
          queueable.1.1,
          subst (λ l. Sent payloads l (enqueue_all w payloads first.1).1)
              (sent ∙ ap (λ c. c ∷ log) call) rest,
        ),
      )

  -- Where a batch is verified and saved and each of its notifications has an id and a queue that takes
  -- it or answers that a limit is exceeded, the message is handled, and what follows the insert and
  -- the acknowledgement of the receipt is exactly one send for each notification, in their order: of
  -- its own id, to the queue it names or else the one of its kind and process type, those beyond a
  -- limit included.
  pub handle-saved :
      (msg : Message) (task : SaveTask) (payloads : List Payload) (log log' : Log)
      (f : Log → SaveCall → Done)
      → w.unmarshal msg.body ≡ ok task
      → verify_and_prepare w task.service_id task.signed_notifications log ≡ (ok payloads, log')
      → w.bulk_insert_notifications log' payloads ≡ ok tt
      → w.producer_send ≡ some f
      → All (IsQueueable f) payloads
      → let (result, log'') = handle w msg log in
        (result ≡ ok tt)
        × Sent payloads (acknowledge w task.receipt (SaveCall.bulk_insert payloads ∷ log')) log''
  unfolding inserted
  handle-saved msg task payloads log log' f u v i h k =
      rw (handle-inserted w msg task payloads (ok tt) log log' u v i) (
        enqueue_all-Sent f h payloads
          (acknowledge w task.receipt (SaveCall.bulk_insert payloads ∷ log')) k)
