-- ===== src/Delivery/Email.antt =====
-- internal/worker/delivery/deliver_email.go: `EmailWorker.Deliver`. The logger's lines are left out.
pub mod Attachments
pub mod Sends
pub mod Records
pub mod Verdict
mod Tests
use Prim.Native.String
use notification_api_spec.Base.{
  ℕ, zero, suc, ◌+◌, ◌*◌, String, code, Bool, true, false, Option, none, some, List, [], ◌∷◌, ◌++◌,
  ◌==◌, if◌then◌else◌, ◌=s=◌, ◌<>◌, ◌||◌, ◌&&◌, ltb, leb, push, trim_space, to_lower, equal_fold,
  has_prefix, GoError, ErrorNode, Outcome, ok, err, Done, Proc, call, emit, pure, raise, map_error,
  attempt, call_if, ◌>>=◌, ◌>>◌, plain_error, chain_has, invalid_url, malware_detected,
  scan_in_progress, document_download, invalid_email, aws_ses,
}
use notification_api_spec.Delivery.{
  Uuid, Notification, Service, Selection, NotificationUpdate, status_update, retry_delay,
  normalize_process_type, null_uuid, retry_after, missing_notification, handled_already,
}
use notification_api_spec.Delivery.Pii.{contains_valid_sin}

pub record Attachment : Type 0 where
  pub name : String
  pub content : List ℕ
  pub mime_type : String

pub record EmailContent : Type 0 where
  pub source : String
  pub subject : String
  pub body : String
  pub html_body : String
  pub reply_to_address : Option String
  pub sending_method : String
  pub file_url : String
  pub direct_file_url : String
  pub attachments : List Attachment

pub record EmailRequest : Type 0 where
  pub source : String
  pub to_addresses : List String
  pub subject : String
  pub body : String
  pub html_body : String
  pub reply_to_address : Option String
  pub attachments : List Attachment

pub data BounceRateStatus : Type 0 where
  normal warning critical : BounceRateStatus

-- What one download gives: the attachment, or a status code and an error.
pub data Downloaded : Type 0 where
  fetched : Attachment → Downloaded
  failed : (status : ℕ) → GoError → Downloaded

-- The calls that the worker makes.
pub data EmailCall : Type 0 where
  get_notification : Uuid → EmailCall
  get_service : Uuid → EmailCall
  render : Uuid → EmailCall
  respond : (to : String) → EmailCall
  check_scan : (url : String) → EmailCall
  download : (url : String) → EmailCall
  provider_to_use : (to : String) → (template : Uuid) → (international : Bool) → EmailCall
  send : (client : String) → EmailRequest → EmailCall
  update : NotificationUpdate → EmailCall
  enqueue_callback : Uuid → EmailCall
  set_sliding : (service id : Uuid) → EmailCall
  check_bounce_rate : (service : Uuid) → EmailCall
  timing incr : String → EmailCall

abbrev pub Log : Type 0
Log = List EmailCall

pub record BounceRateClient : Type 0 where
  pub set_sliding_notifications : Log → Uuid → Uuid → Done
  pub check_status : Log → Uuid → Outcome BounceRateStatus

-- The worker's fields: the answers of its interfaces, after the calls made before. `none` is a nil
-- interface. `quote` is the verb %q of the package `fmt`.
pub record EmailWorker : Type 0 where
  pub scan_for_pii : Bool
  pub notification_by_id : Log → Uuid → Outcome Notification
  pub service_by_id : Log → Uuid → Outcome Service
  pub update_delivery : Log → NotificationUpdate → Done
  pub select_provider : Log → String → Uuid → Bool → Outcome Selection
  pub renderer : Log → Notification → Service → Outcome EmailContent
  pub responder : Log → String → Done
  pub send_email : Log → String → EmailRequest → Option GoError
  pub callbacks : Option (Log → Uuid → Done)
  pub bounce_rate : Option BounceRateClient
  pub scanner : Option (Log → String → Outcome ℕ)
  pub downloader : Option (Log → String → Downloaded)
  pub has_stats : Bool
  pub quote : String → String

abbrev pub is_invalid_url : ErrorNode → Bool
is_invalid_url (invalid_url _) = true
is_invalid_url _ = false

abbrev pub is_malware : ErrorNode → Bool
is_malware (malware_detected _) = true
is_malware _ = false

abbrev pub is_scanning : ErrorNode → Bool
is_scanning (scan_in_progress _) = true
is_scanning _ = false

abbrev pub is_document : ErrorNode → Bool
is_document (document_download _) = true
is_document _ = false

abbrev pub is_invalid_email : ErrorNode → Bool
is_invalid_email (invalid_email _) = true
is_invalid_email _ = false

abbrev pub is_aws_ses : ErrorNode → Bool
is_aws_ses (aws_ses _) = true
is_aws_ses _ = false

-- `html.EscapeString`
unfoldable pub escape_html : String → String
escape_html String.[] = ""
escape_html (String.◌∷◌ c s) =
    let rest = escape_html s in
    if code c == b'&'
    then "&amp;" <> rest
    else if code c == 39
    then "&#39;" <> rest
    else if code c == b'<'
    then "&lt;" <> rest
    else if code c == b'>'
    then "&gt;" <> rest
    else if code c == 34
    then "&#34;" <> rest
    else push c rest

-- `strings.HasPrefix(strings.ToLower(url), "file://")`
unfoldable pub is_file_url : String → Bool
unfolding to_lower has_prefix
is_file_url url = has_prefix (to_lower url) "file://"

-- `strings.EqualFold(notification.To, config.InternalTestEmailAddress) || service.ResearchMode
--  || notification.KeyType == config.KeyTypeTest`
abbrev pub simulated : Notification → Service → Bool
simulated n s =
    equal_fold n.to "internal.test@cds-snc.ca" || (s.research_mode || n.key_type =s= "test")

pub email_request : Notification → Service → EmailContent → EmailRequest
email_request n s content =
    let source = trim_space content.source in
    record {
      source = if source =s= "" then s.email_from else source;
      to_addresses = n.to ∷ [];
      subject = content.subject;
      body = content.body;
      html_body = content.html_body;
      reply_to_address = content.reply_to_address;
      attachments = content.attachments;
    }

module _ (w : EmailWorker) where
  update_delivery : NotificationUpdate → Proc EmailCall (Unit {0})
  update_delivery u = call (update u) (λ log. w.update_delivery log u)

  notify_callbacks : Uuid → Proc EmailCall (Unit {0})
  notify_callbacks id = call_if w.callbacks (λ f. call (enqueue_callback id) (λ log. f log id))

  -- `technicalFailureWithCallback`
  technical_failure_of : Uuid → Proc EmailCall (Unit {0})
  technical_failure_of id = do
    update_delivery (status_update id "technical-failure")
    notify_callbacks id

  -- The rounds of the loop that are left, and the last error.
  download_loop :
      (Log → String → Downloaded) → ℕ → Option GoError → String → Proc EmailCall Attachment
  download_loop f zero none url log = (err (plain_error "Max retries exceeded"), log)
  download_loop f zero (some e) url log = (err e, log)
  download_loop f (suc left) last url log = elim (f log url) [
    | fetched a ↦ (ok a, download url ∷ log)
    | failed status e ↦
        let again = download_loop f left (some e) url (download url ∷ log) in
        if ltb status 500 || ltb 599 status then (err e, download url ∷ log) else again
  ]

  -- `downloadAttachment`
  pub download_attachment : (Log → String → Downloaded) → String → Proc EmailCall Attachment
  download_attachment f url = download_loop f 5 none url

  -- The download at the end of the case "attach".
  attach_file : EmailContent → String → Proc EmailCall EmailContent
  attach_file content url = elim w.downloader [
    | none ↦ pure content
    | some f ↦ do
      attachment ← download_attachment f url
      pure (record content { attachments = content.attachments ++ attachment ∷ [] })
  ]

  -- The case "attach".
  prepare_attach : EmailContent → Proc EmailCall EmailContent
  prepare_attach content =
      let url = trim_space content.direct_file_url in
      if is_file_url url then raise (invalid_url url ∷ []) else elim w.scanner [
        | none ↦ attach_file content url
        | some f ↦ do
          status ← call (check_scan url) (λ log. f log url)
          if status == 423
              then raise (malware_detected url ∷ [])
              else if status == 428
              then raise (scan_in_progress url ∷ [])
              else if status == 404
              then raise (document_download url ∷ [])
              else attach_file content url
      ]

  -- The case "link".
  prepare_link : EmailContent → Proc EmailCall EmailContent
  prepare_link content =
      let given = trim_space content.file_url in
      let url = if given =s= "" then trim_space content.direct_file_url else given in
      let html = if content.html_body =s= "" then escape_html content.body else content.html_body in
      if is_file_url url
      then raise (invalid_url url ∷ [])
      else pure (record content {
        html_body =
            if url =s= ""
            then html
            else html <> ("<p><a href=" <> (w.quote (escape_html url) <> ">Download file</a></p>"));
      })

  pub prepare_attachments : EmailContent → Proc EmailCall EmailContent
  prepare_attachments content =
      let sending_method = to_lower (trim_space content.sending_method) in
      if sending_method =s= "" || sending_method =s= "none"
      then pure content
      else if sending_method =s= "attach"
      then prepare_attach content
      else if sending_method =s= "link"
      then prepare_link content
      else pure content

  -- What the worker makes of an error of `prepareAttachments`.
  attachments_refused : Uuid → String → ℕ → GoError → Proc EmailCall (Unit {0})
  attachments_refused id process_type retries e =
      if chain_has is_invalid_url e
      then technical_failure_of id
      else if chain_has is_malware e
      then (do update_delivery (status_update id "virus-scan-failed"); notify_callbacks id)
      else if chain_has is_scanning e
      then raise
          (retry_after (if ltb retries 5 then 30 * (retries + 1) else retry_delay process_type) e)
      else if chain_has is_document e
      then technical_failure_of id
      else raise e

  track_bounces : Uuid → Uuid → BounceRateClient → Proc EmailCall (Unit {0})
  track_bounces service_id id b = do
    call (set_sliding service_id id) (λ log. b.set_sliding_notifications log service_id id)
    status ← call (check_bounce_rate service_id) (λ log. b.check_status log service_id)
    pure tt

  email_stats : String → List Attachment → Proc EmailCall (Unit {0})
  email_stats process_type attachments = do
    emit (timing "email.total-time")
    emit (incr ("email.process_type-" <> normalize_process_type process_type))
    elim attachments [ [] ↦ pure tt | _ ∷ _ ↦ emit (incr "email.with_attachments") ]

  -- `sendErr` is nil.
  email_sent : Notification → Uuid → Selection → String → EmailContent → Proc EmailCall (Unit {0})
  email_sent n service_id selection process_type content = do
    update_delivery (record (status_update n.id "sending") { sent_by = some selection.identifier })
    call_if w.bounce_rate (track_bounces service_id n.id)
    if w.has_stats then email_stats process_type content.attachments else pure tt

  -- The last statements of `Deliver`: an error that may pass.
  retry_or_give_up : Uuid → String → ℕ → GoError → Proc EmailCall (Unit {0})
  retry_or_give_up id process_type retries e =
      if leb 48 retries
      then technical_failure_of id
      else raise (retry_after (retry_delay process_type) e)

  -- The tests on `sendErr`.
  email_refused : Uuid → String → ℕ → GoError → Proc EmailCall (Unit {0})
  email_refused id process_type retries e =
      if chain_has is_invalid_email e
      then technical_failure_of id
      else if chain_has is_invalid_url e
      then technical_failure_of id
      else if chain_has is_aws_ses e
      then retry_or_give_up id process_type retries e
      else retry_or_give_up id process_type retries e

  email_answered :
      Notification
      → Uuid
      → Selection
      → String
      → ℕ
      → EmailContent
      → Option GoError
      → Proc EmailCall (Unit {0})
  email_answered n service_id selection process_type retries content none =
      email_sent n service_id selection process_type content
  email_answered n service_id selection process_type retries content (some e) =
      email_refused n.id process_type retries e

  -- From the selection of the provider on.
  send_to_provider :
      Notification → Uuid → Service → EmailContent → String → ℕ → Proc EmailCall (Unit {0})
  send_to_provider n service_id s content process_type retries = do
    let template = null_uuid n.template_id
    selection ←
        call (provider_to_use n.to template n.international)
          (λ log. w.select_provider log n.to template n.international)
    let request = email_request n s content
    if selection.is_email_sender
        then (λ log.
            email_answered n service_id selection process_type retries content
              (w.send_email log selection.client request) (send selection.client request ∷ log))
        else raise (plain_error "selected client does not implement EmailSender")

  respond_to_test : Notification → Proc EmailCall (Unit {0})
  respond_to_test n = do
    call (respond n.to) (λ log. w.responder log n.to)
    update_delivery
        (record (status_update n.id "sending") { sent_by = some "ses"; billable_units = some 0 })

  -- The content is rendered.
  deliver_content :
      Notification → Uuid → Service → EmailContent → String → ℕ → Proc EmailCall (Unit {0})
  deliver_content n service_id s content process_type retries =
      if simulated n s
      then respond_to_test n
      else if w.scan_for_pii && contains_valid_sin content.body
      then update_delivery (status_update n.id "pii-check-failed")
      else (do
        prepared ← attempt (prepare_attachments content)
        elim prepared [
          | ok ready ↦ send_to_provider n service_id s ready process_type retries
          | err e ↦ attachments_refused n.id process_type retries e
        ])

  -- The notification is still "created".
  deliver_created : Notification → Option Uuid → String → ℕ → Proc EmailCall (Unit {0})
  deliver_created n none process_type retries =
      raise (plain_error ("notification " <> (n.id <> " missing service id")))
  deliver_created n (some service_id) process_type retries = do
    s ← call (get_service service_id) (λ log. w.service_by_id log service_id)
    if s.active
        then (do
          content ← call (render n.id) (λ log. w.renderer log n s)
          deliver_content n service_id s content process_type retries)
        else technical_failure_of n.id

  pub deliver : Uuid → String → ℕ → Proc EmailCall (Unit {0})
  deliver id process_type retries = do
    n ←
        map_error missing_notification
          (call (get_notification id) (λ log. w.notification_by_id log id))
    if handled_already n then pure tt else deliver_created n n.service_id process_type retries
