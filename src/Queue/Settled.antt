-- ===== src/Queue/Settled.antt =====
-- What `SQSConsumer.Start` does with the messages that it receives.
use notification_api_spec.Base.{
  ℕ, zero, suc, ◌≡◌, ◌+◌, refl, Bool, true, false, Option, none, some, List, [], ◌∷◌, arith, length,
  count, GoError, Outcome, ok, err, Done, Bool-cases, inl, inr,
}
use notification_api_spec.Queue.{
  Message, RawMessage, QueueCall, Log, Consumer, is_transient, backoff_seconds, message_of, warn_of,
  warn_error, settle, handle_one, handle_all, received, round, start,
}

module _ (c : Consumer) (handler : Log → Message → Option GoError) where
  -- Every call to the handler is settled by its answer: the message is deleted if it was handled,
  -- hidden for the backoff if the error is transient, and else left alone; and no message is
  -- deleted or hidden for another reason.
  abbrev pub IsSettled : Log → Type 0
  IsSettled [] = Unit
  IsSettled (QueueCall.receive _ _ _ ∷ log) = IsSettled log
  IsSettled (QueueCall.warn _ ∷ log) = IsSettled log
  IsSettled (QueueCall.handle m ∷ log) =
      ((e : GoError) × (handler log m ≡ some e) × (is_transient e ≡ false)) × IsSettled log
  IsSettled (QueueCall.delete_message receipt ∷ QueueCall.handle m ∷ log) =
      ((raw : RawMessage) × (m ≡ message_of raw) × (receipt ≡ raw.receipt_handle))
      × (handler log m ≡ none)
      × IsSettled log
  IsSettled (QueueCall.delete_message _ ∷ _) = ⊥
  IsSettled (QueueCall.change_visibility receipt seconds ∷ QueueCall.handle m ∷ log) =
      ((raw : RawMessage) × (m ≡ message_of raw) × (receipt ≡ raw.receipt_handle))
      × ((e : GoError) × (handler log m ≡ some e) × (is_transient e ≡ true))
      × (seconds ≡ backoff_seconds m.attributes)
      × IsSettled log
  IsSettled (QueueCall.change_visibility _ _ ∷ _) = ⊥

  warn_of-IsSettled : (text : _) (log : Log) → IsSettled log → IsSettled (warn_of c text log)
  unfolding warn_of
  warn_of-IsSettled text log h = ground arith

  warn_error-IsSettled :
      (text : _) (r : Done) (log : Log) → IsSettled log → IsSettled (warn_error c text (r, log))
  unfolding warn_error
  warn_error-IsSettled text (ok _) log h = h
  warn_error-IsSettled text (err _) log h = warn_of-IsSettled text log h

  settle-IsSettled :
      (raw : RawMessage) (a : Option GoError) (log : Log)
      → handler log (message_of raw) ≡ a
      → IsSettled log
      → IsSettled (settle c handler raw a (QueueCall.handle (message_of raw) ∷ log))
  unfolding settle
  settle-IsSettled raw none log e h =
      let deleted =
        QueueCall.delete_message raw.receipt_handle ∷ QueueCall.handle (message_of raw) ∷ log in
      warn_error-IsSettled "delete_error" _ deleted ((raw, refl, refl), e, h)
  settle-IsSettled raw (some error) log e h = elim (Bool-cases (is_transient error)) [
    | inl holds ↦ rw holds (
        warn_error-IsSettled "visibility_error" _
          (QueueCall.change_visibility raw.receipt_handle (backoff_seconds raw.attributes)
            ∷ QueueCall.handle (message_of raw)
            ∷ log)
          ((raw, refl, refl), (error, e, holds), refl, h))
    | inr fails ↦ rw fails (
        warn_of-IsSettled "handler_error" (QueueCall.handle (message_of raw) ∷ log)
          ((error, e, fails), h))
  ]

  handle_all-IsSettled :
      (raws : List RawMessage) (log : Log)
      → IsSettled log
      → IsSettled (handle_all c handler raws log)
  unfolding handle_all handle_one
  handle_all-IsSettled [] log h = h
  handle_all-IsSettled (raw ∷ raws) log h =
      handle_all-IsSettled raws _ (settle-IsSettled raw (handler log (message_of raw)) log refl h)

  received-IsSettled :
      (o : Outcome (List RawMessage)) (log : Log)
      → IsSettled log
      → IsSettled (received c handler o log).1
  unfolding received
  received-IsSettled (ok raws) log h = handle_all-IsSettled raws log h
  received-IsSettled (err e) log h = ground (arith, warn_of-IsSettled "receive_error" log h)

  round-IsSettled : (log : Log) → IsSettled log → IsSettled (round c handler log).1
  unfolding round
  round-IsSettled log h = elim (Bool-cases (c.done log)) [
    | inl holds ↦ rw holds h
    | inr fails ↦ rw fails (received-IsSettled (c.receive_message log) _ h)
  ]

  -- A run of the consumer leaves every call to the handler settled.
  pub start-IsSettled : (n : ℕ) (log : Log) → IsSettled log → IsSettled (start c handler n log).1
  unfolding start
  start-IsSettled zero log h = h
  start-IsSettled (suc n) log h = elim (Bool-cases (round c handler log).0) [
    | inl holds ↦ rw holds (start-IsSettled n (round c handler log).1 (round-IsSettled log h))
    | inr fails ↦ rw fails (round-IsSettled log h)
  ]

  abbrev pub is_handle : QueueCall → Bool
  is_handle (QueueCall.handle _) = true
  is_handle _ = false

  warn_of-count :
      (text : _) (log : Log) → count is_handle (warn_of c text log) ≡ count is_handle log
  unfolding warn_of
  warn_of-count text log = ground arith

  warn_error-count :
      (text : _) (r : Done) (log : Log)
      → count is_handle (warn_error c text (r, log)) ≡ count is_handle log
  unfolding warn_error
  warn_error-count text (ok _) log = refl
  warn_error-count text (err _) log = warn_of-count text log

  settle-count :
      (raw : RawMessage) (a : Option GoError) (log : Log)
      → count is_handle (settle c handler raw a log) ≡ count is_handle log
  unfolding settle
  settle-count raw none log =
      warn_error-count "delete_error" _ (QueueCall.delete_message raw.receipt_handle ∷ log)
  settle-count raw (some e) log = ground (
    arith,
    warn_error-count "visibility_error"
        (c.change_visibility log raw.receipt_handle (backoff_seconds raw.attributes))
        (QueueCall.change_visibility raw.receipt_handle (backoff_seconds raw.attributes) ∷ log),
    warn_of-count "handler_error" log,
  )

  -- The handler is called once for every message of an answer.
  handle_all-count :
      (raws : List RawMessage) (log : Log)
      → count is_handle (handle_all c handler raws log) ≡ count is_handle log + length raws
  unfolding handle_all handle_one
  handle_all-count [] log = omega arith
  handle_all-count (raw ∷ raws) log =
      let a = handler log (message_of raw) in
      let handled = QueueCall.handle (message_of raw) ∷ log in
      omega
        (arith, handle_all-count raws (settle c handler raw a handled), settle-count raw a handled)
