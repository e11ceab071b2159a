-- ===== src/Delivery/Email/Records.antt =====
-- The status that an email delivery writes: at most one, and exactly one where it reports success.
use notification_api_spec.Base.{
  ℕ, zero, suc, String, ◌≡◌, ◌≤◌, ◌+◌, ◌⊎◌, refl, Bool, true, false, not, Option, none, some, ◌∷◌,
  arith, ◌=s=◌, count, ok, Done, GoError, Outcome-cases, Bool-cases, inl, inr,
}
use notification_api_spec.Delivery.{Uuid, Notification, Service, Selection, handled_already}
use notification_api_spec.Delivery.Email

abbrev pub is_record : Email.EmailCall → Bool
is_record (Email.EmailCall.update u) = not (u.status =s= "")
is_record _ = false

abbrev pub records : Email.Log → ℕ
records = count is_record

-- At most one status is written after `log`, and exactly one if the result is nil.
abbrev pub Settles : Email.Log → Done × Email.Log → Type 0
Settles log (result, log') =
    (records log' ≤ records log + 1) × (result ≡ ok tt → records log' ≡ records log + 1)

module _ (w : Email.EmailWorker) where
  technical_failure_of-Settles :
      (id : Uuid) (log : Email.Log) → Settles log (Email.technical_failure_of w id log)
  unfolding Email.technical_failure_of Email.notify_callbacks Email.update_delivery
  technical_failure_of-Settles id log = ground arith

  download_loop-records :
      (f : Email.Log → String → Email.Downloaded) (left : ℕ) (last : Option GoError) (url : String)
      (log : Email.Log)
      → records (Email.download_loop w f left last url log).1 ≡ records log
  unfolding Email.download_loop
  download_loop-records f zero none url log = refl
  download_loop-records f zero (some e) url log = refl
  download_loop-records f (suc left) last url log = grind (arith, download_loop-records f left)

  attach_file-records :
      (content : Email.EmailContent) (url : String) (log : Email.Log)
      → records (Email.attach_file w content url log).1 ≡ records log
  unfolding Email.attach_file Email.download_attachment
  attach_file-records content url log = grind (arith, download_loop-records)

  prepare_attachments-records :
      (content : Email.EmailContent) (log : Email.Log)
      → records (Email.prepare_attachments w content log).1 ≡ records log
  unfolding Email.prepare_attachments Email.prepare_attach Email.prepare_link
  prepare_attachments-records content log = grind (arith, attach_file-records)

  email_sent-Settles :
      (n : Notification) (sid : Uuid) (sel : Selection) (p : String) (c : Email.EmailContent)
      (log : Email.Log)
      → Settles log (Email.email_sent w n sid sel p c log)
  unfolding Email.email_sent Email.update_delivery Email.email_stats Email.track_bounces
  email_sent-Settles n sid sel p c log = ground arith

  email_answered-Settles :
      (n : Notification) (sid : Uuid) (sel : Selection) (p : String) (r : ℕ)
      (c : Email.EmailContent) (a : Option GoError) (log : Email.Log)
      → Settles log (Email.email_answered w n sid sel p r c a log)
  unfolding Email.email_answered Email.email_refused Email.retry_or_give_up
  email_answered-Settles n sid sel p r c none log = email_sent-Settles n sid sel p c log
  email_answered-Settles n sid sel p r c (some e) log =
      ground (arith, technical_failure_of-Settles n.id log)

  attachments_refused-Settles :
      (id : Uuid) (p : String) (r : ℕ) (e : GoError) (log : Email.Log)
      → Settles log (Email.attachments_refused w id p r e log)
  unfolding Email.attachments_refused Email.notify_callbacks Email.update_delivery
  attachments_refused-Settles id p r e log = ground (arith, technical_failure_of-Settles id log)

  send_to_provider-Settles :
      (n : Notification) (sid : Uuid) (s : Service) (c : Email.EmailContent) (p : String) (r : ℕ)
      (log : Email.Log)
      → Settles log (Email.send_to_provider w n sid s c p r log)
  unfolding Email.send_to_provider
  send_to_provider-Settles n sid s c p r log = grind (arith, email_answered-Settles)

  respond_to_test-Settles :
      (n : Notification) (log : Email.Log) → Settles log (Email.respond_to_test w n log)
  unfolding Email.respond_to_test Email.update_delivery
  respond_to_test-Settles n log = ground arith

  deliver_content-Settles :
      (n : Notification) (sid : Uuid) (s : Service) (c : Email.EmailContent) (p : String) (r : ℕ)
      (log : Email.Log)
      → Settles log (Email.deliver_content w n sid s c p r log)
  unfolding Email.deliver_content Email.update_delivery
  deliver_content-Settles n sid s c p r log = grind (
    arith, prepare_attachments-records, send_to_provider-Settles, respond_to_test-Settles,
    attachments_refused-Settles,
  )

  deliver_created-Settles :
      (n : Notification) (sid : Option Uuid) (p : String) (r : ℕ) (log : Email.Log)
      → Settles log (Email.deliver_created w n sid p r log)
  unfolding Email.deliver_created
  deliver_created-Settles n none p r log = ground arith
  deliver_created-Settles n (some sid) p r log =
      grind (arith, technical_failure_of-Settles, deliver_content-Settles)

  -- One delivery writes at most one status. Where it reports success it wrote exactly one, or the
  -- notification had left "created" before and the only call was the one that read it.
  pub email_settles :
      (id : Uuid) (p : String) (r : ℕ) (log : Email.Log)
      → let (result, log') = Email.deliver w id p r log in
        (records log' ≤ records log + 1)
        × (result ≡ ok tt
            → (records log' ≡ records log + 1)
              ⊎ ((n : Notification) × (w.notification_by_id log id ≡ ok n)
                  × (handled_already n ≡ true)
                  × (log' ≡ Email.EmailCall.get_notification id ∷ log)))
  unfolding Email.deliver
  email_settles id p r log = elim (Outcome-cases (w.notification_by_id log id)) [
    | inl (n, found) ↦ elim (Bool-cases (handled_already n)) [
      | inl handled ↦ (ground arith, λ _. inr (n, found, handled, ground arith))
      | inr created ↦
          let s =
            deliver_created-Settles n n.service_id p r
              (Email.EmailCall.get_notification id ∷ log) in
          (ground arith, λ h. inl (ground arith))
    ]
    | inr (e, failed) ↦ (ground arith, λ h. absurd (ground arith))
  ]
