-- ===== src/SaveNotify/Failures.antt =====
-- The batches that are refused, and those that cannot be saved
-- (internal/worker/savenotify/worker.go).
use notification_api_spec.Base.{
  String, ◌≡◌, ◌⊎◌, inl, inr, refl, ap, subst, ◌∙◌, Option, List, [], ◌∷◌, arith, if◌then◌else◌,
  GoError, bad_signature, Outcome, ok, err, Done, Among, ltb,
}
use notification_api_spec.Signing.Token.{loads}
use notification_api_spec.Queue.{Message, transient_error}
use notification_api_spec.SaveNotify.{
  Kind, Payload, SaveTask, SaveCall, Log, SaveWorker, receive_count, resolved, prepare_loaded,
  prepare, verify_and_prepare, and_others, acknowledge, inserted, save_verified, handle_task,
  handle,
}

module _ (w : SaveWorker) where
  -- The signature of a notification is refused.
  abbrev pub IsRefused : String → Type 0
  IsRefused signed =
      (e : GoError) × (loads w.hashes w.codec signed w.secret_keys w.dangerous_salt ≡ err e)

  prepare_sms-log :
      (kind : Kind)
      → kind ≡ Kind.sms
      → (service_id : Option String) (payload : Payload) (log : Log)
      → resolved w kind service_id payload log ≡ (ok payload, log)
  unfolding resolved
  prepare_sms-log Kind.sms e service_id payload log = refl
  prepare_sms-log Kind.email e service_id payload log = ground arith

  prepare_loaded-sms :
      w.kind ≡ Kind.sms
      → (service_id : Option String) (o : Outcome Payload) (log : Log)
      → (prepare_loaded w service_id o log ≡ (err (bad_signature ∷ []), log))
        ⊎ ((payload : Payload) × (prepare_loaded w service_id o log ≡ (ok payload, log)))
  unfolding prepare_loaded
  prepare_loaded-sms h service_id (err e) log = inl refl
  prepare_loaded-sms h service_id (ok decoded) log =
      inr (_, prepare_sms-log w.kind h service_id _ log)

  prepare_sms :
      w.kind ≡ Kind.sms
      → (service_id : Option String) (signed : String) (log : Log)
      → (prepare w service_id signed log ≡ (err (bad_signature ∷ []), log))
        ⊎ ((payload : Payload) × (prepare w service_id signed log ≡ (ok payload, log)))
  unfolding prepare
  prepare_sms h service_id signed log =
      prepare_loaded-sms h service_id (loads w.hashes w.codec signed w.secret_keys w.dangerous_salt)
        log

  prepare_refused :
      (service_id : Option String) (signed : String) (log : Log)
      → IsRefused signed
      → (prepare w service_id signed log).0 ≡ err (bad_signature ∷ [])
  unfolding prepare prepare_loaded
  prepare_refused service_id signed log (e, r) = ap (λ o. (prepare_loaded w service_id o log).0) r

  verify_refused :
      w.kind ≡ Kind.sms
      → (service_id : Option String) (signed : String) (batch : List String) (log : Log)
      → Among signed batch
      → IsRefused signed
      → verify_and_prepare w service_id batch log ≡ (err (bad_signature ∷ []), log)
  unfolding verify_and_prepare and_others
  verify_refused h service_id signed [] log m r = absurd m
  verify_refused h service_id signed (s ∷ batch) log m r = elim (prepare_sms h service_id s log) [
    | inl refused ↦
        ap (λ first. and_others w first (verify_and_prepare w service_id batch first.1)) refused
    | inr (payload, fine) ↦ elim m [
      | inl same ↦
          absurd (ground (arith, prepare_refused service_id s log (subst IsRefused same r)))
      | inr later ↦
          ap (λ first. and_others w first (verify_and_prepare w service_id batch first.1)) fine
          ∙ ap (and_others w (ok payload, log))
              (verify_refused h service_id signed batch log later r)
    ]
  ]

  handle-verified :
      (msg : Message) (task : SaveTask) (o : Outcome (List Payload)) (log log' : Log)
      → w.unmarshal msg.body ≡ ok task
      → verify_and_prepare w task.service_id task.signed_notifications log ≡ (o, log')
      → handle w msg log ≡ save_verified w msg.attributes task.receipt o log'
  unfolding handle handle_task
  handle-verified msg task o log log' u v =
      ap (λ r. handle_task w msg.attributes r log) u
      ∙ ap (λ p. save_verified w msg.attributes task.receipt p.0 p.1) v

  pub handle-inserted :
      (msg : Message) (task : SaveTask) (payloads : List Payload) (answer : Done) (log log' : Log)
      → w.unmarshal msg.body ≡ ok task
      → verify_and_prepare w task.service_id task.signed_notifications log ≡ (ok payloads, log')
      → w.bulk_insert_notifications log' payloads ≡ answer
      → handle w msg log
        ≡ inserted w
            (receive_count msg.attributes)
            task.receipt
            payloads
            answer
            (SaveCall.bulk_insert payloads ∷ log')
  unfolding save_verified
  handle-inserted msg task payloads answer log log' u v i =
      handle-verified msg task (ok payloads) log log' u v
      ∙ ap
          (λ a.
            inserted w (receive_count msg.attributes) task.receipt payloads a
              (SaveCall.bulk_insert payloads ∷ log'))
          i

  -- An SMS batch with a notification whose signature is refused is dropped: the message counts as
  -- handled and nothing is saved, queued or acknowledged.
  handle-refused :
      (msg : Message) (task : SaveTask) (signed : String) (log : Log)
      → w.kind ≡ Kind.sms
      → w.unmarshal msg.body ≡ ok task
      → Among signed task.signed_notifications
      → IsRefused signed
      → handle w msg log ≡ (ok tt, log)
  unfolding save_verified
  handle-refused msg task signed log h u m r =
      handle-verified msg task _ log log u
        (verify_refused h task.service_id signed task.signed_notifications log m r)

  -- A batch that cannot be saved is handed back for another try before its fifth receive, and then
  -- given up; its receipt is acknowledged at once and nothing of it is queued.
  pub handle-insert_failed :
      (msg : Message) (task : SaveTask) (payloads : List Payload) (e : GoError) (log log' : Log)
      → w.unmarshal msg.body ≡ ok task
      → verify_and_prepare w task.service_id task.signed_notifications log ≡ (ok payloads, log')
      → w.bulk_insert_notifications log' payloads ≡ err e
      → handle w msg log ≡ (
        if ltb (receive_count msg.attributes) 5 then err (transient_error e) else ok tt,
        acknowledge w task.receipt (SaveCall.bulk_insert payloads ∷ log'),
      )
  unfolding inserted
  handle-insert_failed msg task payloads e log log' u v f =
      handle-inserted msg task payloads (err e) log log' u v f
