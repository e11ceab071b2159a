-- ===== src/Delivery/Sms/Sends.antt =====
-- When and how often the SMS worker hands a text to a provider.
use notification_api_spec.Base.{
  ℕ, String, ◌≡◌, ◌≢◌, ◌≤◌, ◌+◌, refl, Bool, true, false, Option, none, some, ◌∷◌, arith, count, ok,
  GoError, Outcome-cases, Bool-cases, inl, inr,
}
use notification_api_spec.Delivery.{
  Uuid, Notification, Service, Selection, NotificationUpdate, handled_already,
}
use notification_api_spec.Delivery.Sms

abbrev pub is_send : Sms.SmsCall → Bool
is_send (Sms.SmsCall.send _ _) = true
is_send _ = false

abbrev pub sends : Sms.Log → ℕ
sends = count is_send

module _ (w : Sms.SmsWorker) where
  update_delivery-sends :
      (u : NotificationUpdate) (log : Sms.Log) → sends (Sms.update_delivery w u log).1 ≡ sends log
  unfolding Sms.update_delivery
  update_delivery-sends u log = ground arith

  technical_failure_of-sends :
      (id : Uuid) (log : Sms.Log) → sends (Sms.technical_failure_of w id log).1 ≡ sends log
  unfolding Sms.technical_failure_of Sms.notify_callbacks Sms.update_delivery
  technical_failure_of-sends id log = ground arith

  sms_sent-sends :
      (n : Notification) (sel : Selection) (p : String) (log : Sms.Log)
      → sends (Sms.sms_sent w n sel p log).1 ≡ sends log
  unfolding Sms.sms_sent Sms.update_delivery
  sms_sent-sends n sel p log = ground arith

  sms_failed-sends :
      (n : Notification) (sel : Selection) (p : String) (r : ℕ) (e : GoError) (log : Sms.Log)
      → sends (Sms.sms_failed w n sel p r e log).1 ≡ sends log
  unfolding Sms.sms_failed Sms.update_delivery
  sms_failed-sends n sel p r e log = grind (arith, technical_failure_of-sends)

  sms_refused-sends :
      (n : Notification) (sel : Selection) (p : String) (r : ℕ) (e : GoError) (log : Sms.Log)
      → sends (Sms.sms_refused w n sel p r e log).1 ≡ sends log
  unfolding Sms.sms_refused Sms.update_delivery Sms.notify_callbacks
  sms_refused-sends n sel p r e log = ground (arith, sms_failed-sends n sel p r e log)

  sms_answered-sends :
      (n : Notification) (sel : Selection) (p : String) (r : ℕ) (a : String × Option GoError)
      (log : Sms.Log)
      → sends (Sms.sms_answered w n sel p r a log).1 ≡ sends log
  unfolding Sms.sms_answered
  sms_answered-sends n sel p r (response, none) log =
      grind (arith, update_delivery-sends, sms_sent-sends)
  sms_answered-sends n sel p r (response, some e) log =
      grind (arith, update_delivery-sends, sms_refused-sends)

  send_to_provider-sends :
      (n : Notification) (sid : Uuid) (b p : String) (r : ℕ) (log : Sms.Log)
      → sends (Sms.send_to_provider w n sid b p r log).1 ≤ sends log + 1
  unfolding Sms.send_to_provider
  send_to_provider-sends n sid b p r log = grind (arith, sms_answered-sends)

  respond_to_test-sends :
      (n : Notification) (log : Sms.Log) → sends (Sms.respond_to_test w n log).1 ≡ sends log
  unfolding Sms.respond_to_test
  respond_to_test-sends n log = grind (arith, update_delivery-sends)

  -- What holds where a run adds a send: the body that was rendered is not blank, and the text is no test.
  deliver_active-sends :
      (n : Notification) (sid : Uuid) (s : Service) (p : String) (r : ℕ) (log : Sms.Log)
      → (sends (Sms.deliver_active w n sid s p r log).1 ≤ sends log + 1)
        × ((Sms.simulated n s ≡ true) → sends (Sms.deliver_active w n sid s p r log).1 ≡ sends log)
  unfolding Sms.deliver_active
  deliver_active-sends n sid s p r log =
      grind (arith, technical_failure_of-sends, respond_to_test-sends, send_to_provider-sends)

  deliver_created-sends :
      (n : Notification) (sid : Option Uuid) (p : String) (r : ℕ) (log : Sms.Log)
      → sends (Sms.deliver_created w n sid p r log).1 ≤ sends log + 1
  unfolding Sms.deliver_created
  deliver_created-sends n none p r log = omega arith
  deliver_created-sends n (some sid) p r log =
      grind (arith, technical_failure_of-sends, deliver_active-sends)

  -- One delivery makes at most one call of a provider, whatever its interfaces answer.
  deliver-sends-le :
      (id : Uuid) (p : String) (r : ℕ) (log : Sms.Log)
      → sends (Sms.deliver w id p r log).1 ≤ sends log + 1
  unfolding Sms.deliver
  deliver-sends-le id p r log = grind (arith, deliver_created-sends)

  -- The facts without which no text is handed to a provider.
  pub record IsSendable (id : Uuid) (log : Sms.Log) (n : Notification) (sid : Uuid) (s : Service)
      : Type 0 where
    pub found : w.notification_by_id log id ≡ ok n
    pub created : handled_already n ≡ false
    pub has_service : n.service_id ≡ some sid
    pub service_found : w.service_by_id (Sms.SmsCall.get_notification id ∷ log) sid ≡ ok s
    pub service_active : s.active ≡ true
    pub real : Sms.simulated n s ≡ false

  created_sends :
      (n : Notification) (sid : Option Uuid) (p : String) (r : ℕ) (log : Sms.Log)
      → sends (Sms.deliver_created w n sid p r log).1 ≢ sends log
      → (i : Uuid) × (s : Service) × (sid ≡ some i)
        × (w.service_by_id log i ≡ ok s)
        × (s.active ≡ true)
        × (Sms.simulated n s ≡ false)
  unfolding Sms.deliver_created
  created_sends n none p r log h = absurd (h refl)
  created_sends n (some sid) p r log h = elim (Outcome-cases (w.service_by_id log sid)) [
    | inl (s, found) ↦ elim (Bool-cases s.active) [
      | inl active ↦ elim (Bool-cases (Sms.simulated n s)) [
        | inl fake ↦ absurd (
            h (
              grind (
                arith,
                (deliver_active-sends n sid s p r (Sms.SmsCall.get_service sid ∷ log)).1 fake,
              )))
        | inr real ↦ (sid, s, refl, found, active, real)
      ]
      | inr inactive ↦ absurd (h (grind (arith, technical_failure_of-sends)))
    ]
    | inr (e, failed) ↦ absurd (h (ground arith))
  ]

  -- A provider is called only for a notification that is still "created", of an active service, and
  -- that no test mode, test key or test number turns into a simulation.
  pub deliver-sends_only :
      (id : Uuid) (p : String) (r : ℕ) (log : Sms.Log)
      → sends (Sms.deliver w id p r log).1 ≢ sends log
      → (n : Notification) × (sid : Uuid) × (s : Service) × IsSendable id log n sid s
  unfolding Sms.deliver
  deliver-sends_only id p r log h = elim (Outcome-cases (w.notification_by_id log id)) [
    | inl (n, found) ↦ elim (Bool-cases (handled_already n)) [
      | inl handled ↦ absurd (h (ground arith))
      | inr created ↦
          let (i, s, has, service, active, real) =
            created_sends n n.service_id p r (Sms.SmsCall.get_notification id ∷ log)
              (λ e. h (ground arith)) in
          (
            n,
            i,
            s,
            record {
              found = found;
              created = created;
              has_service = has;
              service_found = service;
              service_active = active;
              real = real;
            },
          )
    ]
    | inr (e, failed) ↦ absurd (h (ground arith))
  ]
