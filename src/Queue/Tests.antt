-- ===== src/Queue/Tests.antt =====
-- Batches of messages.
use notification_api_spec.Base.{
  ◌≡◌, refl, true, false, Option, some, [], ◌∷◌, ok, GoError, plain_error,
}
use notification_api_spec.Queue.{
  Attributes, Message, RawMessage, Log, Consumer, IsNew, transient_error, digits_value,
  receive_count, capped_seconds, backoff_seconds, start,
}
use notification_api_spec.Queue.Settled.{IsSettled, start-IsSettled}

abbrev third_receive : Attributes
third_receive key = "3"

four_minutes : backoff_seconds third_receive ≡ 240
unfolding backoff_seconds receive_count capped_seconds digits_value
four_minutes = refl

abbrev raw : RawMessage
raw = record {
  message_id = some "m1";
  body = some "{}";
  receipt_handle = some "r1";
  attributes = third_receive;
  message_attributes = [];
}

-- A new consumer, whose queue has one message, and then nothing.
abbrev consumer : Consumer
consumer = record {
  wait_time_seconds = 20;
  max_messages = 10;
  visibility_timeout = 310;
  has_logger = true;
  done = λ log. false;
  receive_message = λ log. ok (raw ∷ []);
  delete_message = λ log receipt. ok tt;
  change_visibility = λ log receipt seconds. ok tt;
}

consumer-IsNew : IsNew consumer
consumer-IsNew = record { waits = refl; receives = refl; hides = refl }

abbrev handler : Log → Message → Option GoError
handler log m = some (transient_error (plain_error "busy"))

start-IsSettled_example : IsSettled consumer handler (start consumer handler 2 []).1
start-IsSettled_example = start-IsSettled consumer handler 2 [] tt
