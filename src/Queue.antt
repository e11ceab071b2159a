-- ===== src/Queue.antt =====
-- queue/consumer.go and queue/producer.go: `SQSConsumer` and `SQSProducer`.
pub mod Backoff
pub mod Settled
pub mod Deliveries
pub mod Saves
pub mod Producer
mod Tests
use Prim.Native.String
use notification_api_spec.Base.{
  ◌≡◌, ℕ, zero, suc, ◌+◌, ◌*◌, ◌/◌, ◌-◌, ◌^◌, min, Char, code, String, Bool, true, false, not,
  Option, none, some, List, [], ◌∷◌, map, ◌==◌, ◌=s=◌, leb, ltb, is_digit, if◌then◌else◌, GoError,
  ErrorNode, canceled, transient, chain_has, Outcome, ok, err, Done, Proc, call, emit, pure, raise,
  attempt, ◌>>=◌, ◌>>◌,
}

-- A map of texts; a missing key and a nil map read as the empty text.
abbrev pub Attributes : Type 0
Attributes = String → String

pub record Message : Type 0 where
  pub id : String
  pub body : String
  pub receipt_handle : String
  pub attributes : Attributes
  pub message_attributes : List (String × String)

-- What SQS hands out: the fields are pointers, `none` is nil.
pub record RawMessage : Type 0 where
  pub message_id : Option String
  pub body : Option String
  pub receipt_handle : Option String
  pub attributes : Attributes
  pub message_attributes : List (String × Option String)

-- `aws.ToString`
abbrev pub to_string : Option String → String
to_string none = ""
to_string (some s) = s

abbrev pub flatten_attributes : List (String × Option String) → List (String × String)
flatten_attributes = map (λ entry. (entry.0, to_string entry.1))

abbrev pub message_of : RawMessage → Message
message_of raw = record {
  id = to_string raw.message_id;
  body = to_string raw.body;
  receipt_handle = to_string raw.receipt_handle;
  attributes = raw.attributes;
  message_attributes = flatten_attributes raw.message_attributes;
}

abbrev pub is_transient_node : ErrorNode → Bool
is_transient_node transient = true
is_transient_node _ = false

-- `Transient(err)` for an error that is not nil.
abbrev pub transient_error : GoError → GoError
transient_error e = transient ∷ e

unfoldable pub is_transient : GoError → Bool
is_transient e = chain_has is_transient_node e

-- The digits of a decimal numeral after those read before; `none` for another character.
unfoldable pub digits_value : ℕ → String → Option ℕ
digits_value n String.[] = some n
digits_value n (String.◌∷◌ c s) =
    let rest = digits_value (n * 10 + (code c - b'0')) s in if is_digit c then rest else none

-- A decimal numeral without a sign, as `strconv.Atoi` reads it: 0 where it is no number, and the
-- largest `int` beyond the range.
abbrev pub atoi_unsigned : String → ℕ
unfolding digits_value
atoi_unsigned String.[] = 0
atoi_unsigned (String.◌∷◌ c s) = elim (digits_value 0 (String.◌∷◌ c s)) [
  | none ↦ 0
  | some n ↦ min n (2 ^ 63 - 1)
]

-- `strconv.Atoi`, its error dropped and a negative number counted as 0.
abbrev pub atoi : String → ℕ
atoi String.[] = 0
atoi (String.◌∷◌ c s) =
    if code c == b'+'
    then atoi_unsigned s
    else if code c == b'-'
    then 0
    else atoi_unsigned (String.◌∷◌ c s)

-- `receiveCount` of `backoffSeconds`, at least 1.
unfoldable pub receive_count : Attributes → ℕ
receive_count attributes =
    let count = atoi (attributes "ApproximateReceiveCount") in if leb count 0 then 1 else count

-- `1 << min(receiveCount-1, 5)` minutes, in seconds, and 900 at most.
unfoldable pub capped_seconds : ℕ → ℕ
capped_seconds count =
    let seconds = 2 ^ (if ltb (count - 1) 5 then count - 1 else 5) * 60 in
    if ltb 900 seconds then 900 else seconds

unfoldable pub backoff_seconds : Attributes → ℕ
backoff_seconds attributes = capped_seconds (receive_count attributes)

pub data QueueCall : Type 0 where
  receive : (wait_time max_messages visibility_timeout : ℕ) → QueueCall
  handle : Message → QueueCall
  delete_message : (receipt : Option String) → QueueCall
  change_visibility : (receipt : Option String) → (seconds : ℕ) → QueueCall
  warn : String → QueueCall

abbrev pub Log : Type 0
Log = List QueueCall

pub record Consumer : Type 0 where
  pub wait_time_seconds : ℕ
  pub max_messages : ℕ
  pub visibility_timeout : ℕ
  pub has_logger : Bool
  -- The client of SQS, and the context.
  pub done : Log → Bool
  pub receive_message : Log → Outcome (List RawMessage)
  pub delete_message : Log → Option String → Done
  pub change_visibility : Log → Option String → ℕ → Done

-- The timings that `NewSQSConsumer` sets.
pub record IsNew (c : Consumer) : Type 0 where
  pub waits : c.wait_time_seconds ≡ 20
  pub receives : c.max_messages ≡ 10
  pub hides : c.visibility_timeout ≡ 310

module _ (c : Consumer) where
  pub warn_of : String → Log → Log
  warn_of text log = if c.has_logger then QueueCall.warn text ∷ log else log

  pub warn_error : String → Done × Log → Log
  unfolding warn_of
  warn_error text (ok done, log) = log
  warn_error text (err e, log) = warn_of text log

  module _ (handler : Log → Message → Option GoError) where
    -- What follows an answer of the handler.
    pub settle : RawMessage → Option GoError → Log → Log
    unfolding warn_error warn_of is_transient backoff_seconds
    settle raw none log =
        warn_error "delete_error" (
          c.delete_message log raw.receipt_handle,
          QueueCall.delete_message raw.receipt_handle ∷ log,
        )
    settle raw (some e) log =
        let seconds = backoff_seconds raw.attributes in
        if is_transient e
        then warn_error "visibility_error" (
          c.change_visibility log raw.receipt_handle seconds,
          QueueCall.change_visibility raw.receipt_handle seconds ∷ log,
        )
        else warn_of "handler_error" log

    pub handle_one : RawMessage → Log → Log
    unfolding settle
    handle_one raw log =
        settle raw (handler log (message_of raw)) (QueueCall.handle (message_of raw) ∷ log)

    -- The messages of one answer, in order.
    pub handle_all : List RawMessage → Log → Log
    unfolding handle_one
    handle_all [] log = log
    handle_all (raw ∷ raws) log = handle_all raws (handle_one raw log)

    abbrev pub is_canceled : ErrorNode → Bool
    is_canceled canceled = true
    is_canceled _ = false

    -- What one round makes of the answer to the receive: the log, and whether the loop goes on.
    pub received : Outcome (List RawMessage) → Log → Bool × Log
    unfolding handle_all warn_of
    received (ok raws) log = (true, handle_all raws log)
    received (err e) log =
        if chain_has is_canceled e then (false, log) else (true, warn_of "receive_error" log)

    pub round : Log → Bool × Log
    unfolding received
    round log =
        if c.done log
        then (false, log)
        else received (c.receive_message log)
            (QueueCall.receive c.wait_time_seconds c.max_messages c.visibility_timeout ∷ log)

    -- `Start`, for so many rounds: whether it is still running after them, and the log.
    pub start : ℕ → Log → Bool × Log
    unfolding round
    start zero log = (true, log)
    start (suc n) log =
        let (goes_on, log') = round log in
        let rest = start n log' in if goes_on then rest else (false, log')
