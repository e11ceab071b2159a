-- ===== src/Delivery.antt =====
-- The delivery workers, internal/worker/delivery: what the SMS and the email worker share.
pub mod Sms
pub mod Pii
pub mod Email
pub mod Throttled
use notification_api_spec.Base.{
  ℕ, String, ◌≡◌, Bool, true, false, Option, none, some, List, [], ◌∷◌, if◌then◌else◌, ◌=s=◌,
  trim_space, to_lower, GoError, ErrorNode, Outcome, Done, Proc, call, map_error, pure, ◌>>◌,
  retryable, no_rows, chain_has, call_if,
}

-- A UUID by its text.
abbrev pub Uuid : Type 0
Uuid = String

abbrev pub nil_uuid : Uuid
nil_uuid = "00000000-0000-0000-0000-000000000000"

-- The columns of `notifications` that the workers read; `none` is a null.
pub record Notification : Type 0 where
  pub id : Uuid
  pub to : String
  pub status : Option String
  pub service_id : Option Uuid
  pub template_id : Option Uuid
  pub international : Bool
  pub key_type : String
  pub reference : String

-- The columns of `services` that the workers read.
pub record Service : Type 0 where
  pub name : String
  pub active : Bool
  pub research_mode : Bool
  pub prefix_sms : Bool
  pub email_from : String

-- What the provider service selects: the client, known by the interfaces that it implements, the
-- identifier of the provider, and the sending vehicle.
pub record Selection : Type 0 where
  pub client : String
  pub is_sms_sender : Bool
  pub is_email_sender : Bool
  pub identifier : String
  pub sending_vehicle : String

pub record NotificationUpdate : Type 0 where
  pub id : Uuid
  pub status : String
  pub sent_by : Option String
  pub feedback_reason : Option String
  pub provider_response : Option String
  pub billable_units : Option ℕ

abbrev pub status_update : Uuid → String → NotificationUpdate
status_update id status = record {
  id = id;
  status = status;
  sent_by = none;
  feedback_reason = none;
  provider_response = none;
  billable_units = none;
}

unfoldable pub normalize_process_type : String → String
unfolding trim_space to_lower
normalize_process_type process_type =
    let p = to_lower (trim_space process_type) in
    if p =s= "priority" then "priority" else if p =s= "bulk" then "bulk" else "normal"

-- In seconds.
unfoldable pub retry_delay : String → ℕ
unfolding normalize_process_type
retry_delay process_type = if normalize_process_type process_type =s= "priority" then 25 else 300

unfoldable pub null_uuid : Option Uuid → Uuid
null_uuid (some id) = id
null_uuid none = nil_uuid

-- `&RetryableError{After: after, Err: err}`
abbrev pub retry_after : ℕ → GoError → GoError
retry_after after e = retryable after ∷ e

abbrev pub is_no_rows : ErrorNode → Bool
is_no_rows no_rows = true
is_no_rows _ = false

-- What both workers answer when the notification cannot be read.
abbrev pub missing_notification : GoError → GoError
missing_notification e = if chain_has is_no_rows e then retry_after 25 e else e

-- `notification.NotificationStatus.Valid && notification.NotificationStatus.String != "created"`
abbrev pub handled_already : Notification → Bool
handled_already n = elim n.status [
  | none ↦ false
  | some s ↦ if s =s= "created" then false else true
]
