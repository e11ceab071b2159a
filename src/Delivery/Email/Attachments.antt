-- ===== src/Delivery/Email/Attachments.antt =====
-- What is fetched for an email, how often, and what is never fetched.
use notification_api_spec.Base.{
  ℕ, zero, suc, String, ◌≡◌, ◌≤◌, ◌<◌, ◌+◌, Bool, true, false, Option, none, some, ◌∷◌, arith,
  count, All, ok, GoError,
}
use notification_api_spec.Delivery.Email

abbrev pub is_download : Email.EmailCall → Bool
is_download (Email.EmailCall.download _) = true
is_download _ = false

abbrev pub downloads : Email.Log → ℕ
downloads = count is_download

-- No call that fetches something names a file of the machine.
abbrev pub FetchesNoFile : Email.EmailCall → Type 0
FetchesNoFile (Email.EmailCall.download url) = Email.is_file_url url ≡ false
FetchesNoFile (Email.EmailCall.check_scan url) = Email.is_file_url url ≡ false
FetchesNoFile _ = Unit

module _ (w : Email.EmailWorker) where
  -- A server that fails with 5xx at first is asked again: `tries` failures, then an attachment.
  abbrev pub Recovers :
      (Email.Log → String → Email.Downloaded) → String → ℕ → Email.Attachment → Email.Log → Type 0
  Recovers f url zero a log = f log url ≡ Email.Downloaded.fetched a
  Recovers f url (suc tries) a log =
      ((status : ℕ) × (e : GoError) × (f log url ≡ Email.Downloaded.failed status e)
        × (500 ≤ status)
        × (status < 600))
      × Recovers f url tries a (Email.EmailCall.download url ∷ log)

  download_loop-Recovers :
      (f : Email.Log → String → Email.Downloaded) (url : String) (left tries : ℕ)
      (a : Email.Attachment) (last : Option GoError) (log : Email.Log)
      → tries < left
      → Recovers f url tries a log
      → (Email.download_loop w f left last url log).0 ≡ ok a
  unfolding Email.download_loop
  download_loop-Recovers f url zero tries a last log lt h = absurd (omega arith)
  download_loop-Recovers f url (suc left) zero a last log lt h = ground arith
  download_loop-Recovers f url (suc left) (suc tries) a last log lt
        ((status, e, failed, low, high), h) =
      ground (
        arith,
        download_loop-Recovers f url left tries a (some e) (Email.EmailCall.download url ∷ log),
      )

  download_loop-downloads :
      (f : Email.Log → String → Email.Downloaded) (url : String) (left : ℕ) (last : Option GoError)
      (log : Email.Log)
      → downloads (Email.download_loop w f left last url log).1 ≤ downloads log + left
  unfolding Email.download_loop
  download_loop-downloads f url zero none log = omega arith
  download_loop-downloads f url zero (some e) log = omega arith
  download_loop-downloads f url (suc left) last log =
      grind (arith, download_loop-downloads f url left)

  -- A download makes at most five requests, and gives the attachment where the server fails at most
  -- four times, each time with a 5xx code, before it answers.
  pub download_attachment_retries :
      (f : Email.Log → String → Email.Downloaded) (url : String) (log : Email.Log)
      → (downloads (Email.download_attachment w f url log).1 ≤ downloads log + 5)
        × ((tries : ℕ) (a : Email.Attachment)
            → tries < 5
            → Recovers f url tries a log
            → (Email.download_attachment w f url log).0 ≡ ok a)
  unfolding Email.download_attachment
  download_attachment_retries f url log = (
    download_loop-downloads f url 5 none log,
    λ tries a lt h. download_loop-Recovers f url 5 tries a none log lt h,
  )

  download_loop-FetchesNoFile :
      (f : Email.Log → String → Email.Downloaded) (url : String) (left : ℕ) (last : Option GoError)
      (log : Email.Log)
      → Email.is_file_url url ≡ false
      → All FetchesNoFile log
      → All FetchesNoFile (Email.download_loop w f left last url log).1
  unfolding Email.download_loop
  download_loop-FetchesNoFile f url zero none log h k = k
  download_loop-FetchesNoFile f url zero (some e) log h k = k
  download_loop-FetchesNoFile f url (suc left) last log h k =
      grind (arith, download_loop-FetchesNoFile f url left)

  attach_file-FetchesNoFile :
      (c : Email.EmailContent) (url : String) (log : Email.Log)
      → Email.is_file_url url ≡ false
      → All FetchesNoFile log
      → All FetchesNoFile (Email.attach_file w c url log).1
  unfolding Email.attach_file Email.download_attachment
  attach_file-FetchesNoFile c url log h k = grind (arith, download_loop-FetchesNoFile)

  -- Preparing the attachments neither scans nor downloads a URL of the scheme "file".
  prepare_attachments-FetchesNoFile :
      (c : Email.EmailContent) (log : Email.Log)
      → All FetchesNoFile log
      → All FetchesNoFile (Email.prepare_attachments w c log).1
  unfolding Email.prepare_attachments Email.prepare_attach Email.prepare_link
  prepare_attachments-FetchesNoFile c log k = grind (arith, attach_file-FetchesNoFile)
