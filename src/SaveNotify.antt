-- ===== src/SaveNotify.antt =====
-- internal/worker/savenotify/worker.go: `SaveWorker.Handle`.
pub mod Receive
pub mod Order
pub mod Failures
pub mod Sends
mod Tests
use Prim.Native.Char.{code}
use Prim.Native.String
use notification_api_spec.Base.{
  ℕ, zero, suc, ◌+◌, ◌*◌, ◌-◌, ◌%◌, ◌^◌, String, Bool, true, false, not, Option, none, some, List,
  [], ◌∷◌, ◌++◌, ◌&&◌, ◌||◌, ◌==◌, ◌=s=◌, ltb, leb, if◌then◌else◌, is_digit, trim_space, blank,
  to_lower, has_suffix, GoError, ErrorNode, live_limit, trial_limit, bad_signature, plain_error,
  chain_has, Outcome, ok, err, Done, Proc, call, emit, pure, raise, attempt, ◌>>=◌, ◌>>◌,
}
use notification_api_spec.Delivery.{is_no_rows}
use notification_api_spec.Signing.Token.{Hashes, Codec, loads}
use notification_api_spec.Queue.{Message, Attributes, transient_error}

-- A value of a JSON object; only texts are told apart.
pub data Json : Type 0 where
  text : String → Json
  other : Json

-- `map[string]any`, as its entries.
abbrev pub Payload : Type 0
Payload = List (String × Json)

abbrev pub lookup : String → Payload → Option Json
lookup key [] = none
lookup key ((k, v) ∷ entries) = let rest = lookup key entries in if k =s= key then some v else rest

-- `payload[key].(string)`, `none` where it is no text.
abbrev pub text_at : String → Payload → Option String
text_at key payload = elim (lookup key payload) [
  | none ↦ none
  | some (Json.text s) ↦ some s
  | some Json.other ↦ none
]

-- `payload[key] = value`
abbrev pub put : String → String → Payload → Payload
put key value [] = (key, Json.text value) ∷ []
put key value ((k, v) ∷ entries) =
    let rest = put key value entries in
    if k =s= key then (key, Json.text value) ∷ entries else (k, v) ∷ rest

pub data Kind : Type 0 where
  email sms : Kind

pub record SaveTask : Type 0 where
  pub service_id : Option String
  pub signed_notifications : List String
  pub receipt : String

pub record ReplyTo : Type 0 where
  pub email_address : String
  pub is_default : Bool

pub data SaveCall : Type 0 where
  get_reply_to : (service_id : String) → SaveCall
  bulk_insert : List Payload → SaveCall
  acknowledge_receipt : String → SaveCall
  send : (queue id : String) → SaveCall
  send_fifo : (queue id : String) → SaveCall

abbrev pub Log : Type 0
Log = List SaveCall

-- The worker's fields, and the functions it calls outside its package. `none` is a nil interface.
pub record SaveWorker : Type 0 where
  pub kind : Kind
  pub unmarshal : String → Outcome SaveTask
  pub hashes : Hashes
  pub codec : Codec Payload
  pub secret_keys : List String
  pub dangerous_salt : String
  pub parse_uuid : String → Outcome String
  pub bulk_insert_notifications : Log → List Payload → Done
  pub services : Option (Log → String → Outcome (List ReplyTo))
  pub acknowledger : Option (Log → String → Done)
  pub producer_send : Option (Log → SaveCall → Done)

abbrev pub is_limit : ErrorNode → Bool
is_limit live_limit = true
is_limit trial_limit = true
is_limit _ = false

abbrev pub is_rate_limit_error : GoError → Bool
is_rate_limit_error = chain_has is_limit

abbrev pub is_bad_signature : ErrorNode → Bool
is_bad_signature bad_signature = true
is_bad_signature _ = false

-- The digits of a text as an `int` of 64 bits that wraps around; `none` at another character.
abbrev pub wrapped_digits : ℕ → String → Option ℕ
wrapped_digits count String.[] = some count
wrapped_digits count (String.◌∷◌ c s) =
    let rest = wrapped_digits ((count * 10 + (code c - b'0')) % 2 ^ 64) s in
    if is_digit c then rest else none

-- At least 1: a wrapped number of 2^63 or more is negative.
abbrev pub positive_count : ℕ → ℕ
positive_count count = if count == 0 || leb (2 ^ 63) count then 1 else count

abbrev pub count_of : Option ℕ → ℕ
count_of none = 1
count_of (some count) = positive_count count

unfoldable pub receive_count : Attributes → ℕ
receive_count attributes =
    let value = trim_space (attributes "ApproximateReceiveCount") in
    if value =s= "" then 1 else count_of (wrapped_digits 0 value)

unfoldable pub queue_for_process_type : Kind → String → String
queue_for_process_type kind process_type =
    let normalized = to_lower (trim_space process_type) in
    if normalized =s= "priority"
    then elim kind [ Kind.email ↦ "send-email-high" | Kind.sms ↦ "send-sms-high" ]
    else if normalized =s= "bulk"
    then elim kind [ Kind.email ↦ "send-email-low" | Kind.sms ↦ "send-sms-low" ]
    else elim kind [ Kind.email ↦ "send-email-medium" | Kind.sms ↦ "send-sms-medium" ]

abbrev pub text_or_empty : Option String → String
text_or_empty none = ""
text_or_empty (some s) = s

abbrev pub not_blank : Option String → Bool
not_blank o = not (blank (text_or_empty o))

unfoldable pub queue_name_for_payload : Kind → Payload → String
unfolding queue_for_process_type
queue_name_for_payload kind payload =
    if not_blank (text_at "queue_name" payload)
    then text_or_empty (text_at "queue_name" payload)
    else queue_for_process_type kind (text_or_empty (text_at "process_type" payload))

-- The default address, else the first.
abbrev pub default_reply_to : List ReplyTo → Option String
default_reply_to [] = none
default_reply_to (r ∷ rs) =
    let rest = default_reply_to rs in if r.is_default then some r.email_address else rest

abbrev pub first_reply_to : List ReplyTo → Option String
first_reply_to [] = none
first_reply_to (r ∷ rs) = some r.email_address

abbrev pub or_else : Option String → Option String → Option String
or_else none second = second
or_else (some s) second = some s

abbrev pub put_reply_to : Option String → Payload → Payload
put_reply_to none payload = payload
put_reply_to (some address) payload = put "reply_to_text" address payload

abbrev pub with_service_id : Option String → Payload → Payload
with_service_id none payload = payload
with_service_id (some id) payload = put "service_id" id payload

abbrev pub kind_name : Kind → String
kind_name Kind.email = "email"
kind_name Kind.sms = "sms"

module _ (w : SaveWorker) where
  pub reply_to_found : Payload → Outcome (List ReplyTo) → Log → Outcome Payload × Log
  reply_to_found payload (ok replies) log =
      (ok (put_reply_to (or_else (default_reply_to replies) (first_reply_to replies)) payload), log)
  reply_to_found payload (err e) log = (if chain_has is_no_rows e then ok payload else err e, log)

  pub look_up_reply_to :
      Option (Log → String → Outcome (List ReplyTo))
      → Option String
      → Payload
      → Log
      → Outcome Payload × Log
  unfolding reply_to_found
  look_up_reply_to none service_id payload log = (ok payload, log)
  look_up_reply_to (some f) none payload log = (ok payload, log)
  look_up_reply_to (some f) (some id) payload log =
      reply_to_found payload (f log id) (SaveCall.get_reply_to id ∷ log)

  pub resolve_email_reply_to : Option String → Payload → Log → Outcome Payload × Log
  unfolding look_up_reply_to
  resolve_email_reply_to service_id payload log =
      if not_blank (text_at "reply_to_text" payload)
      then (ok payload, log)
      else look_up_reply_to w.services service_id payload log

  pub resolved : Kind → Option String → Payload → Log → Outcome Payload × Log
  unfolding resolve_email_reply_to
  resolved Kind.email service_id payload log = resolve_email_reply_to service_id payload log
  resolved Kind.sms service_id payload log = (ok payload, log)

  pub prepare_loaded : Option String → Outcome Payload → Log → Outcome Payload × Log
  unfolding resolved
  prepare_loaded service_id (err e) log = (err (bad_signature ∷ []), log)
  prepare_loaded service_id (ok decoded) log =
      resolved w.kind service_id
        (put "notification_type" (kind_name w.kind) (with_service_id service_id decoded)) log

  -- One signed notification.
  pub prepare : Option String → String → Log → Outcome Payload × Log
  unfolding prepare_loaded
  prepare service_id signed =
      prepare_loaded service_id (loads w.hashes w.codec signed w.secret_keys w.dangerous_salt)

  -- What follows one notification: the others, unless there was an error.
  pub and_others :
      Outcome Payload × Log → Outcome (List Payload) × Log → Outcome (List Payload) × Log
  and_others (err e, log) others = (err e, log)
  and_others (ok payload, log) (err e, log') = (err e, log')
  and_others (ok payload, log) (ok payloads, log') = (ok (payload ∷ payloads), log')

  -- `verifyAndPrepare`: the first error ends it.
  pub verify_and_prepare : Option String → List String → Log → Outcome (List Payload) × Log
  unfolding prepare and_others
  verify_and_prepare service_id [] log = (ok [], log)
  verify_and_prepare service_id (signed ∷ rest) log =
      let first = prepare service_id signed log in
      and_others first (verify_and_prepare service_id rest first.1)

  pub notification_id_from_payload : Payload → Outcome String
  notification_id_from_payload payload =
      if not_blank (text_at "id" payload)
      then w.parse_uuid (text_or_empty (text_at "id" payload))
      else err (plain_error "notification payload missing id")

  pub send_call : Payload → String → SaveCall
  send_call payload id =
      let queue = queue_name_for_payload w.kind payload in
      if has_suffix queue ".fifo" then SaveCall.send_fifo queue id else SaveCall.send queue id

  pub enqueue_identified : (Log → SaveCall → Done) → Payload → Outcome String → Log → Done × Log
  unfolding send_call
  enqueue_identified f payload (err e) log = (err e, log)
  enqueue_identified f payload (ok id) log =
      if queue_name_for_payload w.kind payload =s= ""
      then (err (plain_error "missing queue name for notification"), log)
      else (f log (send_call payload id), send_call payload id ∷ log)

  pub enqueue_with : Option (Log → SaveCall → Done) → Payload → Log → Done × Log
  unfolding enqueue_identified notification_id_from_payload
  enqueue_with none payload log = (ok tt, log)
  enqueue_with (some f) payload log =
      enqueue_identified f payload (notification_id_from_payload payload) log

  pub enqueue_notification : Payload → Log → Done × Log
  unfolding enqueue_with
  enqueue_notification payload log = enqueue_with w.producer_send payload log

  -- A rate limit skips one notification, another error ends the loop.
  pub or_stop : Done × Log → Done × Log → Done × Log
  or_stop (ok done, log) rest = rest
  or_stop (err e, log) rest = if is_rate_limit_error e then rest else (err e, log)

  -- The loop over the saved notifications.
  pub enqueue_all : List Payload → Log → Done × Log
  unfolding enqueue_notification or_stop
  enqueue_all [] log = (ok tt, log)
  enqueue_all (payload ∷ payloads) log =
      let first = enqueue_notification payload log in or_stop first (enqueue_all payloads first.1)

  -- A receipt is acknowledged if it is not blank; an error is only logged.
  pub acknowledge : String → Log → Log
  acknowledge receipt log = elim w.acknowledger [
    | none ↦ log
    | some f ↦ if blank receipt then log else SaveCall.acknowledge_receipt receipt ∷ log
  ]

  pub inserted : ℕ → String → List Payload → Done → Log → Done × Log
  unfolding acknowledge enqueue_all
  inserted count receipt payloads (err e) log =
      (if ltb count 5 then err (transient_error e) else ok tt, acknowledge receipt log)
  inserted count receipt payloads (ok done) log = enqueue_all payloads (acknowledge receipt log)

  pub save_verified : Attributes → String → Outcome (List Payload) → Log → Done × Log
  unfolding inserted receive_count
  save_verified attributes receipt (err e) log =
      if chain_has is_bad_signature e then (ok tt, log) else (err e, log)
  save_verified attributes receipt (ok payloads) log =
      inserted (receive_count attributes) receipt payloads
        (w.bulk_insert_notifications log payloads) (SaveCall.bulk_insert payloads ∷ log)

  pub handle_task : Attributes → Outcome SaveTask → Log → Done × Log
  unfolding save_verified verify_and_prepare
  handle_task attributes (err e) log = (err e, log)
  handle_task attributes (ok task) log =
      let (verified, log') = verify_and_prepare task.service_id task.signed_notifications log in
      save_verified attributes task.receipt verified log'

  pub handle : Message → Log → Done × Log
  unfolding handle_task
  handle msg = handle_task msg.attributes (w.unmarshal msg.body)
