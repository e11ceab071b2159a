-- ===== src/SaveNotify/Tests.antt =====
-- Batches that are saved, refused and dropped.
use notification_api_spec.Base.{
  String, ◌≡◌, ◌≤◌, ◌<◌, ◌^◌, ltb, if◌then◌else◌, inr, refl, arith, eq_iff, Option, GoError, none,
  some, true, false, List, [], ◌∷◌, All, trim_space, to_lower, ok, err, Done, plain_error,
  live_limit,
}
use notification_api_spec.Signing.{utf8}
use notification_api_spec.Signing.Base64
use notification_api_spec.Signing.Base64.{Bytes}
use notification_api_spec.Signing.Token
use notification_api_spec.Signing.Token.{Hashes, Codec, loads}
use notification_api_spec.Queue
use notification_api_spec.Queue.{
  Message, RawMessage, message_of, QueueCall, Consumer, backoff_seconds, handle_one,
}
use notification_api_spec.Queue.Deliveries.{error_of, deleted, hidden}
use notification_api_spec.Queue.Saves.{handle_one-unsaved}
use notification_api_spec.SaveNotify
use notification_api_spec.SaveNotify.{
  Json, Payload, Kind, SaveTask, SaveCall, Log, SaveWorker, receive_count, verify_and_prepare,
  handle, acknowledge,
}
use notification_api_spec.SaveNotify.Receive.{receive_count-bounds}
use notification_api_spec.SaveNotify.Order.{SendsAfterInsert, handle-SendsAfterInsert}
use notification_api_spec.SaveNotify.Failures.{IsRefused}
use notification_api_spec.SaveNotify.Sends.{IsQueueable, Sent, handle-saved}

abbrev payload : Payload
payload = ("id", Json.text "n1") ∷ ("process_type", Json.text "bulk") ∷ []

abbrev stored : Payload
stored =
    ("id", Json.text "n1")
    ∷ ("process_type", Json.text "bulk")
    ∷ ("notification_type", Json.text "sms")
    ∷ []

abbrev codec : Codec Payload
codec = record {
  marshal = λ v. ok [];
  unmarshal = λ json. ok payload;
  compress = λ json. ok json;
  decompress = λ json. ok json;
}

abbrev hashes : Hashes
hashes = record { sha256 = λ bytes. bytes; hmac_sha256 = λ key message. 1 ∷ 2 ∷ 3 ∷ [] }

-- A limit is exceeded for every notification.
abbrev queue : Log → SaveCall → Done
queue log call = err (live_limit ∷ [])

abbrev task : List String → SaveTask
task signed = record { service_id = none; signed_notifications = signed; receipt = "r1" }

abbrev worker : List String → Done → SaveWorker
worker signed inserted = record {
  kind = Kind.sms;
  unmarshal = λ body. ok (task signed);
  hashes = hashes;
  codec = codec;
  secret_keys = "secret" ∷ [];
  dangerous_salt = "salt";
  parse_uuid = λ id. ok id;
  bulk_insert_notifications = λ log payloads. inserted;
  services = none;
  acknowledger = some (λ log receipt. ok tt);
  producer_send = some queue;
}

abbrev message : Message
message = record {
  id = "m1";
  body = "{}";
  receipt_handle = "h1";
  attributes = λ key. "5";
  message_attributes = [];
}

abbrev signed : List String
signed = "AQ.AQ.AQID" ∷ []

abbrev forged : List String
forged = "AQ.AQ.AQIE" ∷ []

verified :
    (inserted : Done)
    → verify_and_prepare (worker signed inserted) none signed [] ≡ (ok (stored ∷ []), [])
unfolding verify_and_prepare SaveNotify.prepare loads Token.split_last Base64.encode
    Base64.sextet_char Base64.decode Base64.sextets Base64.char_sextet trim_space utf8
verified inserted = refl

receive_count-bounds_example :
    (1 ≤ receive_count (λ key. "5")) × (receive_count (λ key. "5") < 2 ^ 63)
receive_count-bounds_example = receive_count-bounds (λ key. "5")

handle-SendsAfterInsert_example :
    SendsAfterInsert (worker signed (ok tt)) (handle (worker signed (ok tt)) message []).1
handle-SendsAfterInsert_example = handle-SendsAfterInsert (worker signed (ok tt)) message [] tt

is_refused : IsRefused (worker forged (ok tt)) "AQ.AQ.AQIE"
unfolding loads Token.split_last Base64.encode Base64.sextet_char trim_space utf8
is_refused = (plain_error "signature does not match any configured secret", refl)

abbrev raw : RawMessage
raw = record {
  message_id = some "m1";
  body = some "{}";
  receipt_handle = some "h1";
  attributes = λ key. "5";
  message_attributes = [];
}

abbrev consumer : Consumer
consumer = record {
  wait_time_seconds = 20;
  max_messages = 10;
  visibility_timeout = 310;
  has_logger = true;
  done = λ log. false;
  receive_message = λ log. ok (raw ∷ []);
  delete_message = λ log receipt. ok tt;
  change_visibility = λ log receipt seconds. ok tt;
}

-- The database is down.
abbrev unsaving : SaveWorker
unsaving = worker signed (err (plain_error "down"))

abbrev save_handler : Queue.Log → Message → Option GoError
save_handler log m = error_of (handle unsaving m []).0

handle_one-unsaved_example :
    (handle_one consumer save_handler raw [] ≡ (
      if ltb (receive_count raw.attributes) 5
      then hidden consumer raw
          (backoff_seconds raw.attributes)
          (QueueCall.handle (message_of raw) ∷ [])
      else deleted consumer raw (QueueCall.handle (message_of raw) ∷ [])))
    × ((handle unsaving (message_of raw) []).1
        ≡ acknowledge unsaving "r1" (SaveCall.bulk_insert (stored ∷ []) ∷ []))
handle_one-unsaved_example =
    handle_one-unsaved consumer save_handler unsaving raw (task signed) (stored ∷ [])
      (plain_error "down") [] [] [] refl (verified (err (plain_error "down"))) refl refl

low_queue : SaveNotify.queue_name_for_payload Kind.sms stored ≡ "send-sms-low"
unfolding SaveNotify.queue_name_for_payload trim_space to_lower
low_queue = refl

queueable : All (IsQueueable (worker signed (ok tt)) queue) (stored ∷ [])
unfolding SaveNotify.notification_id_from_payload trim_space
queueable = (
  (
    λ e. ground (arith, low_queue, eq_iff "send-sms-low" ""),
    ("n1", refl, λ log. inr (live_limit ∷ [], refl, refl)),
  ),
  tt,
)

handle-saved_example :
    let (result, log) = handle (worker signed (ok tt)) message [] in
    (result ≡ ok tt)
    × Sent
        (worker signed (ok tt))
        (stored ∷ [])
        (acknowledge (worker signed (ok tt)) "r1" (SaveCall.bulk_insert (stored ∷ []) ∷ []))
        log
handle-saved_example =
    handle-saved (worker signed (ok tt)) message (task signed) (stored ∷ []) [] [] queue refl
      (verified (ok tt)) refl refl queueable
