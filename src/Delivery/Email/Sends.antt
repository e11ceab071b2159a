-- ===== src/Delivery/Email/Sends.antt =====
-- When and how often the email worker hands a message to a provider.
use notification_api_spec.Base.{
  ℕ, zero, suc, String, ◌≡◌, ◌≢◌, ◌≤◌, ◌+◌, refl, Bool, true, false, Option, none, some, ◌∷◌, ◌&&◌,
  arith, count, ok, err, GoError, Outcome-cases, Bool-cases, Option-cases, inl, inr, if◌then◌else◌,
}
use notification_api_spec.Delivery.{Uuid, Notification, Service, Selection, handled_already}
use notification_api_spec.Delivery.Pii.{contains_valid_sin}
use notification_api_spec.Delivery.Email

abbrev pub is_send : Email.EmailCall → Bool
is_send (Email.EmailCall.send _ _) = true
is_send _ = false

abbrev pub sends : Email.Log → ℕ
sends = count is_send

module _ (w : Email.EmailWorker) where
  technical_failure_of-sends :
      (id : Uuid) (log : Email.Log) → sends (Email.technical_failure_of w id log).1 ≡ sends log
  unfolding Email.technical_failure_of Email.notify_callbacks Email.update_delivery
  technical_failure_of-sends id log = ground arith

  download_loop-sends :
      (f : Email.Log → String → Email.Downloaded) (left : ℕ) (last : Option GoError) (url : String)
      (log : Email.Log)
      → sends (Email.download_loop w f left last url log).1 ≡ sends log
  unfolding Email.download_loop
  download_loop-sends f zero none url log = refl
  download_loop-sends f zero (some e) url log = refl
  download_loop-sends f (suc left) last url log = grind (arith, download_loop-sends f left)

  attach_file-sends :
      (content : Email.EmailContent) (url : String) (log : Email.Log)
      → sends (Email.attach_file w content url log).1 ≡ sends log
  unfolding Email.attach_file Email.download_attachment
  attach_file-sends content url log = grind (arith, download_loop-sends)

  prepare_attachments-sends :
      (content : Email.EmailContent) (log : Email.Log)
      → sends (Email.prepare_attachments w content log).1 ≡ sends log
  unfolding Email.prepare_attachments Email.prepare_attach Email.prepare_link
  prepare_attachments-sends content log = grind (arith, attach_file-sends)

  email_sent-sends :
      (n : Notification) (sid : Uuid) (sel : Selection) (p : String) (c : Email.EmailContent)
      (log : Email.Log)
      → sends (Email.email_sent w n sid sel p c log).1 ≡ sends log
  unfolding Email.email_sent Email.update_delivery Email.email_stats Email.track_bounces
  email_sent-sends n sid sel p c log = ground arith

  email_answered-sends :
      (n : Notification) (sid : Uuid) (sel : Selection) (p : String) (r : ℕ)
      (c : Email.EmailContent) (a : Option GoError) (log : Email.Log)
      → sends (Email.email_answered w n sid sel p r c a log).1 ≡ sends log
  unfolding Email.email_answered Email.email_refused Email.retry_or_give_up
  email_answered-sends n sid sel p r c none log = email_sent-sends n sid sel p c log
  email_answered-sends n sid sel p r c (some e) log =
      ground (arith, technical_failure_of-sends n.id log)

  attachments_refused-sends :
      (id : Uuid) (p : String) (r : ℕ) (e : GoError) (log : Email.Log)
      → sends (Email.attachments_refused w id p r e log).1 ≡ sends log
  unfolding Email.attachments_refused Email.notify_callbacks Email.update_delivery
  attachments_refused-sends id p r e log = ground (arith, technical_failure_of-sends id log)

  send_to_provider-sends :
      (n : Notification) (sid : Uuid) (s : Service) (c : Email.EmailContent) (p : String) (r : ℕ)
      (log : Email.Log)
      → sends (Email.send_to_provider w n sid s c p r log).1 ≤ sends log + 1
  unfolding Email.send_to_provider
  send_to_provider-sends n sid s c p r log = grind (arith, email_answered-sends)

  respond_to_test-sends :
      (n : Notification) (log : Email.Log) → sends (Email.respond_to_test w n log).1 ≡ sends log
  unfolding Email.respond_to_test Email.update_delivery
  respond_to_test-sends n log = ground arith

  -- The tests that keep a message from the provider.
  abbrev pub held_back : Notification → Service → Email.EmailContent → Bool
  held_back n s c =
      if Email.simulated n s then true else w.scan_for_pii && contains_valid_sin c.body

  deliver_content-sends :
      (n : Notification) (sid : Uuid) (s : Service) (c : Email.EmailContent) (p : String) (r : ℕ)
      (log : Email.Log)
      → (sends (Email.deliver_content w n sid s c p r log).1 ≤ sends log + 1)
        × (held_back n s c ≡ true → sends (Email.deliver_content w n sid s c p r log).1 ≡ sends log)
        × ((e : GoError)
            → (Email.prepare_attachments w c log).0 ≡ err e
            → sends (Email.deliver_content w n sid s c p r log).1 ≡ sends log)
  unfolding Email.deliver_content Email.update_delivery
  deliver_content-sends n sid s c p r log = (
    grind (
      arith, prepare_attachments-sends, send_to_provider-sends, respond_to_test-sends,
      attachments_refused-sends,
    ),
    λ h. grind (arith, respond_to_test-sends),
    λ e h.
        grind (arith, prepare_attachments-sends, respond_to_test-sends, attachments_refused-sends),
  )

  deliver_created-sends :
      (n : Notification) (sid : Option Uuid) (p : String) (r : ℕ) (log : Email.Log)
      → sends (Email.deliver_created w n sid p r log).1 ≤ sends log + 1
  unfolding Email.deliver_created
  deliver_created-sends n none p r log = omega arith
  deliver_created-sends n (some sid) p r log =
      grind (arith, technical_failure_of-sends, deliver_content-sends)

  -- One delivery makes at most one call of a provider, whatever its interfaces answer.
  email_sends-le :
      (id : Uuid) (p : String) (r : ℕ) (log : Email.Log)
      → sends (Email.deliver w id p r log).1 ≤ sends log + 1
  unfolding Email.deliver
  email_sends-le id p r log = grind (arith, deliver_created-sends)

  -- The facts without which no message is handed to a provider. `log` is the log at the start.
  pub record IsSendable (id : Uuid) (log : Email.Log) (n : Notification) (sid : Uuid) (s : Service)
      (c ready : Email.EmailContent) : Type 0 where
    pub found : w.notification_by_id log id ≡ ok n
    pub created : handled_already n ≡ false
    pub has_service : n.service_id ≡ some sid
    pub service_found : w.service_by_id (Email.EmailCall.get_notification id ∷ log) sid ≡ ok s
    pub service_active : s.active ≡ true
    pub rendered :
        w.renderer (Email.EmailCall.get_service sid ∷ Email.EmailCall.get_notification id ∷ log) n s
        ≡ ok c
    pub free : held_back n s c ≡ false
    pub prepared :
        (Email.prepare_attachments w c (
          Email.EmailCall.render n.id
          ∷ Email.EmailCall.get_service sid
          ∷ Email.EmailCall.get_notification id
          ∷ log)).0
        ≡ ok ready

  content_sends :
      (n : Notification) (sid : Uuid) (s : Service) (c : Email.EmailContent) (p : String) (r : ℕ)
      (log : Email.Log)
      → sends (Email.deliver_content w n sid s c p r log).1 ≢ sends log
      → (held_back n s c ≡ false)
        × (ready : Email.EmailContent) × ((Email.prepare_attachments w c log).0 ≡ ok ready)
  content_sends n sid s c p r log h = elim (Bool-cases (held_back n s c)) [
    | inl held ↦ absurd (h ((deliver_content-sends n sid s c p r log).1 held))
    | inr free ↦ elim (Outcome-cases (Email.prepare_attachments w c log).0) [
      | inl (ready, prepared) ↦ (free, ready, prepared)
      | inr (e, refused) ↦ absurd (h ((deliver_content-sends n sid s c p r log).2 e refused))
    ]
  ]

  created_sends :
      (n : Notification) (sid : Uuid) (p : String) (r : ℕ) (log : Email.Log)
      → sends (Email.deliver_created w n (some sid) p r log).1 ≢ sends log
      → (s : Service) × (c : Email.EmailContent) × (w.service_by_id log sid ≡ ok s)
        × (s.active ≡ true)
        × (w.renderer (Email.EmailCall.get_service sid ∷ log) n s ≡ ok c)
        × (sends
              (Email.deliver_content w n sid s c p r
                (Email.EmailCall.render n.id ∷ Email.EmailCall.get_service sid ∷ log)).1
            ≢ sends log)
  unfolding Email.deliver_created
  created_sends n sid p r log h = elim (Outcome-cases (w.service_by_id log sid)) [
    | inl (s, found) ↦ elim (Bool-cases s.active) [
      | inl active ↦ elim (Outcome-cases (w.renderer (Email.EmailCall.get_service sid ∷ log) n s)) [
        | inl (c, rendered) ↦ (s, c, found, active, rendered, λ e. h (ground arith))
        | inr (e, failed) ↦ absurd (h (ground arith))
      ]
      | inr inactive ↦ absurd (h (grind (arith, technical_failure_of-sends)))
    ]
    | inr (e, failed) ↦ absurd (h (ground arith))
  ]

  found_sends :
      (id : Uuid) (p : String) (r : ℕ) (log : Email.Log)
      → sends (Email.deliver w id p r log).1 ≢ sends log
      → (n : Notification) × (sid : Uuid) × (w.notification_by_id log id ≡ ok n)
        × (handled_already n ≡ false)
        × (n.service_id ≡ some sid)
        × (sends
              (Email.deliver_created w n
                (some sid)
                p
                r
                (Email.EmailCall.get_notification id ∷ log)).1
            ≢ sends log)
  unfolding Email.deliver
  found_sends id p r log h = elim (Outcome-cases (w.notification_by_id log id)) [
    | inl (n, found) ↦ elim (Bool-cases (handled_already n)) [
      | inl handled ↦ absurd (h (ground arith))
      | inr created ↦ elim (Option-cases n.service_id) [
        | inl lacks ↦ absurd (h (unfold Email.deliver_created in ground arith))
        | inr (sid, has) ↦ (n, sid, found, created, has, λ e. h (ground arith))
      ]
    ]
    | inr (e, failed) ↦ absurd (h (ground arith))
  ]

  -- A provider is called only for a notification that is still "created", of an active service, that
  -- no test mode, test key or test address turns into a simulation, whose body holds no social
  -- insurance number if the scan is on, and whose attachments were prepared without an error.
  pub email_sends_only :
      (id : Uuid) (p : String) (r : ℕ) (log : Email.Log)
      → sends (Email.deliver w id p r log).1 ≢ sends log
      → (n : Notification) × (sid : Uuid) × (s : Service) × (c ready : Email.EmailContent)
        × IsSendable id log n sid s c ready
  email_sends_only id p r log h =
      let (n, sid, found, created, has, h₁) = found_sends id p r log h in
      let (s, c, service, active, rendered, h₂) =
        created_sends n sid p r (Email.EmailCall.get_notification id ∷ log) h₁ in
      let (free, ready, prepared) =
        content_sends n sid s c p r
          (Email.EmailCall.render n.id
            ∷ Email.EmailCall.get_service sid
            ∷ Email.EmailCall.get_notification id
            ∷ log)
          h₂ in
      (
        n,
        sid,
        s,
        c,
        ready,
        record {
          found = found;
          created = created;
          has_service = has;
          service_found = service;
          service_active = active;
          rendered = rendered;
          free = free;
          prepared = prepared;
        },
      )
