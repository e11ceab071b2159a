-- ===== src/Queue/Producer.antt =====
-- queue/producer.go: `SQSProducer`, and what the consumer reads of the attributes it sends.
use notification_api_spec.Base.{String, ◌≡◌, refl, ap, Option, none, some, List, [], ◌∷◌, map, Done}
use notification_api_spec.Queue.{flatten_attributes}

pub record MessageAttributeValue : Type 0 where
  pub data_type : Option String
  pub string_value : Option String

pub record SendMessageInput : Type 0 where
  pub queue_url : String
  pub message_body : String
  pub message_attributes : List (String × MessageAttributeValue)
  pub message_group_id : Option String
  pub message_deduplication_id : Option String

pub expand_message_attributes : List (String × String) → List (String × MessageAttributeValue)
expand_message_attributes [] = []
expand_message_attributes ((key, value) ∷ attributes) =
    (key, record { data_type = some "String"; string_value = some value })
    ∷ expand_message_attributes attributes

module _ (send_message : SendMessageInput → Done) where
  pub send : (queue_url body : String) → List (String × String) → Done
  unfolding expand_message_attributes
  send queue_url body attributes = send_message (record {
    queue_url = queue_url;
    message_body = body;
    message_attributes = expand_message_attributes attributes;
    message_group_id = none;
    message_deduplication_id = none;
  })

  pub send_fifo : (queue_url body group_id deduplication_id : String) → Done
  send_fifo queue_url body group_id deduplication_id = send_message (record {
    queue_url = queue_url;
    message_body = body;
    message_attributes = [];
    message_group_id = some group_id;
    message_deduplication_id = some deduplication_id;
  })

-- The attributes, as SQS hands them to the consumer.
abbrev pub values_of : List (String × MessageAttributeValue) → List (String × Option String)
values_of = map (λ entry. (entry.0, entry.1.string_value))

-- The consumer reads the attributes that the producer was given.
flatten-expand :
    (attributes : List (String × String))
    → flatten_attributes (values_of (expand_message_attributes attributes)) ≡ attributes
unfolding expand_message_attributes
flatten-expand [] = refl
flatten-expand ((key, value) ∷ attributes) =
    ap (λ rest. (key, value) ∷ rest) (flatten-expand attributes)
