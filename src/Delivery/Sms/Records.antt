-- ===== src/Delivery/Sms/Records.antt =====
-- The status that an SMS delivery writes: at most one, and exactly one where it reports success.
use notification_api_spec.Base.{
  ℕ, String, ◌≡◌, ◌≤◌, ◌+◌, ◌⊎◌, Bool, true, false, not, Option, none, some, ◌∷◌, arith, ◌=s=◌,
  count, ok, Done, GoError, Outcome-cases, Bool-cases, inl, inr,
}
use notification_api_spec.Delivery.{Uuid, Notification, Service, Selection, handled_already}
use notification_api_spec.Delivery.Sms

-- A write of a status. The update of the billable units alone leaves the status empty.
abbrev pub is_record : Sms.SmsCall → Bool
is_record (Sms.SmsCall.update u) = not (u.status =s= "")
is_record _ = false

abbrev pub records : Sms.Log → ℕ
records = count is_record

-- At most one status is written after `log`, and exactly one if the result is nil.
abbrev pub Settles : Sms.Log → Done × Sms.Log → Type 0
Settles log (result, log') =
    (records log' ≤ records log + 1) × (result ≡ ok tt → records log' ≡ records log + 1)

module _ (w : Sms.SmsWorker) where
  technical_failure_of-Settles :
      (id : Uuid) (log : Sms.Log) → Settles log (Sms.technical_failure_of w id log)
  unfolding Sms.technical_failure_of Sms.notify_callbacks Sms.update_delivery
  technical_failure_of-Settles id log = ground arith

  sms_sent-Settles :
      (n : Notification) (sel : Selection) (p : String) (log : Sms.Log)
      → Settles log (Sms.sms_sent w n sel p log)
  unfolding Sms.sms_sent Sms.update_delivery
  sms_sent-Settles n sel p log = ground arith

  sms_failed-Settles :
      (n : Notification) (sel : Selection) (p : String) (r : ℕ) (e : GoError) (log : Sms.Log)
      → Settles log (Sms.sms_failed w n sel p r e log)
  unfolding Sms.sms_failed Sms.update_delivery
  sms_failed-Settles n sel p r e log = grind (arith, technical_failure_of-Settles)

  sms_refused-Settles :
      (n : Notification) (sel : Selection) (p : String) (r : ℕ) (e : GoError) (log : Sms.Log)
      → Settles log (Sms.sms_refused w n sel p r e log)
  unfolding Sms.sms_refused Sms.update_delivery Sms.notify_callbacks
  sms_refused-Settles n sel p r e log = ground (arith, sms_failed-Settles n sel p r e log)

  sms_answered-Settles :
      (n : Notification) (sel : Selection) (p : String) (r : ℕ) (a : String × Option GoError)
      (log : Sms.Log)
      → Settles log (Sms.sms_answered w n sel p r a log)
  unfolding Sms.sms_answered Sms.update_delivery
  sms_answered-Settles n sel p r (response, none) log = ground (arith, sms_sent-Settles n sel p log)
  sms_answered-Settles n sel p r (response, some e) log =
      ground (arith, sms_refused-Settles n sel p r e log)

  send_to_provider-Settles :
      (n : Notification) (sid : Uuid) (b p : String) (r : ℕ) (log : Sms.Log)
      → Settles log (Sms.send_to_provider w n sid b p r log)
  unfolding Sms.send_to_provider
  send_to_provider-Settles n sid b p r log = grind (arith, sms_answered-Settles)

  respond_to_test-Settles :
      (n : Notification) (log : Sms.Log) → Settles log (Sms.respond_to_test w n log)
  unfolding Sms.respond_to_test Sms.update_delivery
  respond_to_test-Settles n log = ground arith

  deliver_active-Settles :
      (n : Notification) (sid : Uuid) (s : Service) (p : String) (r : ℕ) (log : Sms.Log)
      → Settles log (Sms.deliver_active w n sid s p r log)
  unfolding Sms.deliver_active
  deliver_active-Settles n sid s p r log =
      grind (arith, technical_failure_of-Settles, respond_to_test-Settles, send_to_provider-Settles)

  deliver_created-Settles :
      (n : Notification) (sid : Option Uuid) (p : String) (r : ℕ) (log : Sms.Log)
      → Settles log (Sms.deliver_created w n sid p r log)
  unfolding Sms.deliver_created
  deliver_created-Settles n none p r log = ground arith
  deliver_created-Settles n (some sid) p r log =
      grind (arith, technical_failure_of-Settles, deliver_active-Settles)

  -- One delivery writes at most one status. Where it reports success it wrote exactly one, or the
  -- notification had left "created" before and the only call was the one that read it.
  pub deliver_settles :
      (id : Uuid) (p : String) (r : ℕ) (log : Sms.Log)
      → let (result, log') = Sms.deliver w id p r log in
        (records log' ≤ records log + 1)
        × (result ≡ ok tt
            → (records log' ≡ records log + 1)
              ⊎ ((n : Notification) × (w.notification_by_id log id ≡ ok n)
                  × (handled_already n ≡ true)
                  × (log' ≡ Sms.SmsCall.get_notification id ∷ log)))
  unfolding Sms.deliver
  deliver_settles id p r log = elim (Outcome-cases (w.notification_by_id log id)) [
    | inl (n, found) ↦ elim (Bool-cases (handled_already n)) [
      | inl handled ↦ (ground arith, λ _. inr (n, found, handled, ground arith))
      | inr created ↦
          let s =
            deliver_created-Settles n n.service_id p r (Sms.SmsCall.get_notification id ∷ log) in
          (ground arith, λ h. inl (ground arith))
    ]
    | inr (e, failed) ↦ (ground arith, λ h. absurd (ground arith))
  ]
