-- ===== src/Delivery/Email/Verdict.antt =====
-- What becomes of an email that was handed to a provider, as a table, and that the worker follows it.
use notification_api_spec.Base.{
  ℕ, zero, suc, String, ◌≡◌, refl, true, Option, none, some, [], ◌∷◌, arith, ◌=s=◌, leb, ◌||◌,
  if◌then◌else◌, chain_has, call_if, ok, err, Done, GoError, Option-cases, inl, inr,
}
use notification_api_spec.Delivery.{
  Uuid, Notification, Service, Selection, NotificationUpdate, retry_delay, null_uuid, status_update,
  retry_after,
}
use notification_api_spec.Delivery.Email
use notification_api_spec.Delivery.Email.Sends.{IsSendable}

pub data Verdict : Type 0 where
  delivered given_up : Verdict
  retry_later : (delay : ℕ) → GoError → Verdict

-- The verdict on what `SendEmail` returned, after so many retries: an invalid address or URL is
-- given up at once, any other error after 48 retries.
unfoldable pub verdict : String → ℕ → Option GoError → Verdict
verdict p r none = Verdict.delivered
verdict p r (some e) =
    if chain_has Email.is_invalid_email e || (chain_has Email.is_invalid_url e || leb 48 r)
    then Verdict.given_up
    else Verdict.retry_later (retry_delay p) e

pub result_of : Verdict → Done
result_of (Verdict.retry_later delay e) = err (retry_after delay e)
result_of _ = ok tt

pub update_of : Uuid → Selection → Verdict → Option NotificationUpdate
update_of id sel Verdict.delivered =
    some (record (status_update id "sending") { sent_by = some sel.identifier })
update_of id sel Verdict.given_up = some (status_update id "technical-failure")
update_of id sel (Verdict.retry_later delay e) = none

-- The status written last.
abbrev pub last_record : Email.Log → Option NotificationUpdate
last_record [] = none
last_record (Email.EmailCall.update u ∷ log) =
    let rest = last_record log in if u.status =s= "" then rest else some u
last_record (_ ∷ log) = last_record log

abbrev pub or_before :
    Option NotificationUpdate → Option NotificationUpdate → Option NotificationUpdate
or_before none before = before
or_before (some u) before = some u

module _ (w : Email.EmailWorker) where
  -- The stores, the queue and the bounce rates answer without an error.
  pub record IsReliable : Type 0 where
    pub updates : (log : Email.Log) (u : NotificationUpdate) → w.update_delivery log u ≡ ok tt
    pub callbacks :
        (f : Email.Log → Uuid → Done)
        → w.callbacks ≡ some f
        → (log : Email.Log) (id : Uuid) → f log id ≡ ok tt
    pub sliding :
        (b : Email.BounceRateClient)
        → w.bounce_rate ≡ some b
        → (log : Email.Log) (s n : Uuid) → b.set_sliding_notifications log s n ≡ ok tt
    pub bounces :
        (b : Email.BounceRateClient)
        → w.bounce_rate ≡ some b
        → (log : Email.Log) (s : Uuid)
        → (status : Email.BounceRateStatus) × (b.check_status log s ≡ ok status)

  abbrev pub Follows : Uuid → Selection → Verdict → Email.Log → Done × Email.Log → Type 0
  Follows id sel v log (result, log') =
      (result ≡ result_of v) × (last_record log' ≡ or_before (update_of id sel v) (last_record log))

  module _ (h : IsReliable) where
    technical_failure_of-Follows :
        (id : Uuid) (sel : Selection) (log : Email.Log)
        → Follows id sel Verdict.given_up log (Email.technical_failure_of w id log)
    unfolding Email.technical_failure_of Email.notify_callbacks Email.update_delivery result_of
        update_of
    technical_failure_of-Follows id sel log = elim (Option-cases w.callbacks) [
      | inl e ↦ grind (arith, h.updates)
      | inr (f, e) ↦ grind (arith, h.updates, h.callbacks f e)
    ]

    track_bounces_lem :
        (sid id : Uuid) (log : Email.Log)
        → let (result, log') = call_if w.bounce_rate (Email.track_bounces w sid id) log in
          (result ≡ ok tt) × (last_record log' ≡ last_record log)
    unfolding Email.track_bounces
    track_bounces_lem sid id log = elim (Option-cases w.bounce_rate) [
      | inl e ↦ ground arith
      | inr (b, e) ↦
          let (status, known) = h.bounces b e (Email.EmailCall.set_sliding sid id ∷ log) sid in
          ground (arith, h.sliding b e log sid id)
    ]

    email_sent-Follows :
        (n : Notification) (sid : Uuid) (sel : Selection) (p : String) (c : Email.EmailContent)
        (log : Email.Log)
        → Follows n.id sel Verdict.delivered log (Email.email_sent w n sid sel p c log)
    unfolding Email.email_sent Email.update_delivery Email.email_stats result_of update_of
    email_sent-Follows n sid sel p c log =
        let u = record (status_update n.id "sending") { sent_by = some sel.identifier } in
        ground (arith, h.updates log u, track_bounces_lem sid n.id (Email.EmailCall.update u ∷ log))

    email_answered-Follows :
        (n : Notification) (sid : Uuid) (sel : Selection) (p : String) (r : ℕ)
        (c : Email.EmailContent) (a : Option GoError) (log : Email.Log)
        → Follows n.id sel (verdict p r a) log (Email.email_answered w n sid sel p r c a log)
    unfolding Email.email_answered Email.email_refused Email.retry_or_give_up verdict result_of
        update_of
    email_answered-Follows n sid sel p r c none log = email_sent-Follows n sid sel p c log
    email_answered-Follows n sid sel p r c (some e) log =
        ground (arith, technical_failure_of-Follows n.id sel log)

  -- The log when the attachments are prepared.
  abbrev pub rendered_log : Uuid → Notification → Uuid → Email.Log → Email.Log
  rendered_log id n sid log =
      Email.EmailCall.render n.id
      ∷ Email.EmailCall.get_service sid
      ∷ Email.EmailCall.get_notification id
      ∷ log

  -- The log when the provider is called.
  pub before_send : Uuid → Notification → Uuid → Email.EmailContent → Email.Log → Email.Log
  before_send id n sid c log =
      Email.EmailCall.provider_to_use n.to (null_uuid n.template_id) n.international
      ∷ (Email.prepare_attachments w c (rendered_log id n sid log)).1

  -- A delivery that gets as far as the provider.
  pub record Attempt (id : Uuid) (log : Email.Log) (n : Notification) (sid : Uuid) (s : Service)
      (c ready : Email.EmailContent) (sel : Selection) : Type 0 where
    pub sendable : IsSendable w id log n sid s c ready
    pub selected :
        w.select_provider
          (Email.prepare_attachments w c (rendered_log id n sid log)).1
          n.to
          (null_uuid n.template_id)
          n.international
        ≡ ok sel
    pub sender : sel.is_email_sender ≡ true

  deliver_of_Attempt :
      {id : Uuid} {log : Email.Log} {n : Notification} {sid : Uuid} {s : Service}
      {c ready : Email.EmailContent} {sel : Selection} (p : String) (r : ℕ)
      → Attempt id log n sid s c ready sel
      → Email.deliver w id p r log
        ≡ Email.email_answered w n sid sel p r ready
            (w.send_email (before_send id n sid c log) sel.client (Email.email_request n s ready))
            (Email.EmailCall.send sel.client (Email.email_request n s ready)
              ∷ before_send id n sid c log)
  unfolding Email.deliver Email.deliver_created Email.deliver_content Email.send_to_provider
      before_send
  deliver_of_Attempt p r a = ground arith

  last_record-download_loop :
      (f : Email.Log → String → Email.Downloaded) (left : ℕ) (last : Option GoError) (url : String)
      (log : Email.Log)
      → last_record (Email.download_loop w f left last url log).1 ≡ last_record log
  unfolding Email.download_loop
  last_record-download_loop f zero none url log = refl
  last_record-download_loop f zero (some e) url log = refl
  last_record-download_loop f (suc left) last url log =
      grind (arith, last_record-download_loop f left)

  last_record-prepare_attachments :
      (content : Email.EmailContent) (log : Email.Log)
      → last_record (Email.prepare_attachments w content log).1 ≡ last_record log
  unfolding Email.prepare_attachments Email.prepare_attach Email.prepare_link Email.attach_file
      Email.download_attachment
  last_record-prepare_attachments content log = grind (arith, last_record-download_loop)

  -- With reliable stores, a delivery that gets as far as the provider ends as the table says: its
  -- result and the status it leaves are those of the verdict on the provider's answer.
  pub email_follows :
      {id : Uuid} {log : Email.Log} {n : Notification} {sid : Uuid} {s : Service}
      {c ready : Email.EmailContent} {sel : Selection} (p : String) (r : ℕ)
      → IsReliable
      → Attempt id log n sid s c ready sel
      → let v =
          verdict p r (
            w.send_email (before_send id n sid c log) sel.client (Email.email_request n s ready)) in
        let (result, log') = Email.deliver w id p r log in
        (result ≡ result_of v)
        × (last_record log' ≡ or_before (update_of n.id sel v) (last_record log))
  unfolding before_send
  email_follows {id} {log} {n} {sid} {s} {c} {ready} {sel} p r h a = rw (deliver_of_Attempt p r a) (
      rw (last_record-prepare_attachments c (rendered_log id n sid log)) at (
        email_answered-Follows h n sid sel p r ready
          (w.send_email (before_send id n sid c log) sel.client (Email.email_request n s ready))
          (Email.EmailCall.send sel.client (Email.email_request n s ready)
            ∷ before_send id n sid c log)))
