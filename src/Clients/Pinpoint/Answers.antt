-- ===== src/Clients/Pinpoint/Answers.antt =====
-- What the SMS worker makes of the answers of Pinpoint, and what the client asks for.
use notification_api_spec.Base.{
  ℕ, String, ◌≡◌, ◌↔◌, refl, ap, ◌∙◌, Bool, true, false, none, some, [], ◌∷◌, arith, ◌=s=◌, eq_iff,
  leb, if◌then◌else◌, Bool-cases, inl, inr, ok, err, GoError, pinpoint_api,
}
use notification_api_spec.Delivery.{retry_delay}
use notification_api_spec.Delivery.Sms.{SmsRequest}
use notification_api_spec.Delivery.Sms.Verdict.{Verdict, verdict, failure_verdict}
use notification_api_spec.Clients.{normalize_destination}
use notification_api_spec.Clients.Pinpoint

-- The verdict that each code and reason of the API should have.
pub api_verdict : String → ℕ → String → String → Verdict
api_verdict p r code reason =
    if code =s= "ConflictException"
    then (if reason =s= "DESTINATION_PHONE_NUMBER_OPTED_OUT"
        then Verdict.opted_out
        else Verdict.provider_failure none)
    else if code =s= "ValidationException"
    then Verdict.provider_failure (some reason)
    else if leb 48 r
    then Verdict.exhausted
    else Verdict.retry_later (retry_delay p) (pinpoint_api code reason ∷ [])

module _ (c : Pinpoint.PinpointClient) where
  result_of_api_error :
      (request : SmsRequest) (destination : String × Bool) (e : GoError)
      → normalize_destination request.to ≡ ok destination
      → (let (client, input) = Pinpoint.input_of c request destination in
          c.send_text_message client input ≡ err e)
      → Pinpoint.send_sms c request ≡ Pinpoint.translate_error c e e
  unfolding Pinpoint.send_sms
  result_of_api_error request destination e found failed = rw found (rw failed refl)

  verdict_of_translated :
      (p : String) (retries : ℕ) (code reason : String)
      → let e = pinpoint_api code reason ∷ [] in
        verdict p retries (Pinpoint.text_and_error c (Pinpoint.translate_error c e e))
        ≡ api_verdict p retries code reason
  unfolding Pinpoint.text_and_error Pinpoint.translate_error verdict failure_verdict api_verdict
  verdict_of_translated p retries code reason = elim (Bool-cases (code =s= "ConflictException")) [
    | inl conflict ↦ elim (Bool-cases (reason =s= "DESTINATION_PHONE_NUMBER_OPTED_OUT")) [
      | inl opted_out ↦ rw (conflict, opted_out) refl
      | inr other ↦ rw (conflict, other) refl
    ]
    | inr other ↦ elim (Bool-cases (code =s= "ValidationException")) [
      | inl validation ↦ rw (other, validation) refl
      | inr another ↦ rw (other, another) refl
    ]
  ]

  -- An error of the API reaches the worker's table as its code and reason say: an opted-out number,
  -- a conflict, a validation error with its reason, or an error to retry.
  pub send_sms_verdict :
      (p : String) (retries : ℕ) (request : SmsRequest) (destination : String × Bool)
      (code reason : String)
      → normalize_destination request.to ≡ ok destination
      → (let (client, input) = Pinpoint.input_of c request destination in
          c.send_text_message client input ≡ err (pinpoint_api code reason ∷ []))
      → verdict p retries (Pinpoint.send_sms_result c request) ≡ api_verdict p retries code reason
  unfolding Pinpoint.send_sms_result
  send_sms_verdict p retries request destination code reason found failed =
      ap (λ o. verdict p retries (Pinpoint.text_and_error c o))
        (result_of_api_error request destination (pinpoint_api code reason ∷ []) found failed)
      ∙ verdict_of_translated p retries code reason

  -- A text is a dry run exactly when it goes to the external test number by the default client, and
  -- not abroad. Pinpoint is given the text and the number of the request as they are.
  pub input_of_lem :
      (request : SmsRequest) (number : String) (abroad : Bool)
      → let input = (Pinpoint.input_of c request (number, abroad)).1 in
        ((input.dry_run ≡ true) ↔ (
          (number ≡ "+16135550124")
          × (abroad ≡ false)
          × (Pinpoint.uses_dedicated c request ≡ false)))
        × (input.destination_phone_number ≡ number)
        × (input.message_body ≡ request.content)
  unfolding Pinpoint.input_of
  input_of_lem request number abroad = ground (arith, eq_iff number "+16135550124")
