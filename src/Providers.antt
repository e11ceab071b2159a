-- ===== src/Providers.antt =====
-- internal/service/providers/service.go: which provider sends a notification.
pub mod Choice
pub mod Numbers
mod Tests
pub mod Toggle
use Prim.Native.String
use notification_api_spec.Base.{
  ℕ, zero, suc, String, ◌+◌, ◌-◌, ◌*◌, Bool, true, false, not, Option, none, some, List, [], ◌∷◌,
  ◌≡◌, code, ◌&&◌, ◌||◌, ◌==◌, ◌=s=◌, ◌<>◌, if◌then◌else◌, is_digit, trim_space, has_prefix, blank,
  select, length, any, GoError, ErrorNode, Outcome, ok, err, plain_error,
}
use notification_api_spec.Delivery.{Uuid, nil_uuid, Selection}

pub data NotificationType : Type 0 where
  email sms letter : NotificationType

abbrev pub type_name : NotificationType → String
type_name email = "email"
type_name sms = "sms"
type_name letter = "letter"

-- A row of `provider_details`. The priority is an int32 by its bit pattern.
pub record ProviderDetail : Type 0 where
  pub id : Uuid
  pub display_name : String
  pub identifier : String
  pub priority : ℕ
  pub notification_type : NotificationType
  pub active : Bool
  pub version : ℕ
  pub created_by_id : Option Uuid
  pub supports_international : Bool

-- A client, and the interfaces that it implements.
pub record Client : Type 0 where
  pub name : String
  pub is_sms_sender : Bool
  pub is_email_sender : Bool

-- The settings, and the answers of the repositories; `none` is a nil interface. A template is known
-- by its category, a category by whether its sending vehicle is the short code.
pub record ProviderService : Type 0 where
  pub use_pinpoint_for_dedicated : Bool
  pub pinpoint_sc_pool : String
  pub pinpoint_default_pool : String
  pub providers_by_type : NotificationType → Bool → Outcome (List ProviderDetail)
  pub templates : Option (Uuid → Outcome (Option Uuid))
  pub categories : Option (Uuid → Outcome Bool)
  pub resolver : String → NotificationType → Outcome Client

infixl 5 ◌>>=◌
abbrev ◌>>=◌ : {A B : Type 0} → Outcome A → (A → Outcome B) → Outcome B
ok a >>= f = f a
err e >>= f = err e

-- `normalizePhoneNumber`: the digits, by their values.
unfoldable pub phone_digits : String → List ℕ
phone_digits String.[] = []
phone_digits (String.◌∷◌ c s) =
    let rest = phone_digits s in if is_digit c then (code c - b'0') ∷ rest else rest

pub data Region : Type 0 where
  guam canada united_states abroad : Region

abbrev pub canada_area_codes : List ℕ
canada_area_codes =
    204 ∷ 226 ∷ 236 ∷ 249 ∷ 250 ∷ 263 ∷ 289 ∷ 306 ∷ 343 ∷ 354 ∷ 365 ∷ 367 ∷ 368 ∷ 382 ∷ 387 ∷ 403
    ∷ 416 ∷ 418 ∷ 428 ∷ 431 ∷ 437 ∷ 438 ∷ 450 ∷ 468 ∷ 474 ∷ 506 ∷ 514 ∷ 519 ∷ 548 ∷ 579 ∷ 581 ∷ 584
    ∷ 587 ∷ 600 ∷ 604 ∷ 613 ∷ 639 ∷ 647 ∷ 672 ∷ 683 ∷ 705 ∷ 709 ∷ 742 ∷ 753 ∷ 778 ∷ 780 ∷ 782 ∷ 807
    ∷ 819 ∷ 825 ∷ 867 ∷ 873 ∷ 879 ∷ 902 ∷ 942 ∷ []

pub is_canadian : ℕ → Bool
is_canadian area = any (λ c. c == area) canada_area_codes

-- The region of an area code of North America.
pub area_region : ℕ → Region
area_region area = if area == 671 then guam else if is_canadian area then canada else united_states

-- From the test of the length on, with the country code put in front of ten digits.
unfoldable pub region_of_digits : List ℕ → String → Option Region
region_of_digits (d ∷ a ∷ b ∷ c ∷ rest) to =
    if length rest == 7 && d == 1
    then some (area_region (a * 100 + (b * 10 + c)))
    else if has_prefix (trim_space to) "+"
    then some abroad
    else none
region_of_digits _ to = if has_prefix (trim_space to) "+" then some abroad else none

unfoldable pub classify_recipient_region : String → Option Region
unfolding phone_digits region_of_digits
classify_recipient_region to =
    let digits = phone_digits to in
    region_of_digits (if length digits == 10 then 1 ∷ digits else digits) to

pub data SmsSendingVehicle : Type 0 where
  short_code long_code : SmsSendingVehicle

abbrev pub vehicle_name : SmsSendingVehicle → String
vehicle_name short_code = "SHORT_CODE"
vehicle_name long_code = "LONG_CODE"

abbrev pub is_us : Option Region → Bool
is_us (some united_states) = true
is_us _ = false

abbrev pub is_known : Option Region → Bool
is_known none = false
is_known (some _) = true

-- `recipientOutsideCanada`
abbrev pub is_elsewhere : Option Region → Bool
is_elsewhere (some guam) = true
is_elsewhere (some abroad) = true
is_elsewhere _ = false

module _ (s : ProviderService) where
  -- The answer of the categories' repository.
  vehicle_of_category : Outcome Bool → Outcome (Bool × SmsSendingVehicle)
  vehicle_of_category (err e) = err e
  vehicle_of_category (ok true) = ok (true, short_code)
  vehicle_of_category (ok false) = ok (false, long_code)

  -- The answer of the templates' repository.
  vehicle_of_template :
      (Uuid → Outcome Bool) → Outcome (Option Uuid) → Outcome (Bool × SmsSendingVehicle)
  vehicle_of_template categories (ok (some category)) = vehicle_of_category (categories category)
  vehicle_of_template categories _ = ok (false, long_code)

  resolve_with :
      Option (Uuid → Outcome (Option Uuid))
      → Option (Uuid → Outcome Bool)
      → Uuid
      → Outcome (Bool × SmsSendingVehicle)
  resolve_with (some templates) (some categories) template_id =
      if template_id =s= nil_uuid
      then ok (false, long_code)
      else vehicle_of_template categories (templates template_id)
  resolve_with _ _ template_id = ok (false, long_code)

  pub resolve_sending_vehicle : Uuid → Outcome (Bool × SmsSendingVehicle)
  unfolding resolve_with vehicle_of_template vehicle_of_category
  resolve_sending_vehicle template_id = resolve_with s.templates s.categories template_id

  pub select_provider :
      List ProviderDetail → NotificationType → SmsSendingVehicle → Outcome Selection
  select_provider [] t vehicle = err (plain_error ("no active " <> (type_name t <> " providers")))
  select_provider (p ∷ candidates) t vehicle = do
    client ← s.resolver p.identifier t
    ok (record {
      client = client.name;
      is_sms_sender = client.is_sms_sender;
      is_email_sender = client.is_email_sender;
      identifier = p.identifier;
      sending_vehicle = vehicle_name vehicle;
    })

  -- `doNotUsePinpoint`
  pub avoids_pinpoint : (sender to : String) → (international using_short_code : Bool) → Bool
  avoids_pinpoint sender to international using_short_code =
      let region = classify_recipient_region to in
      (has_prefix (trim_space sender) "+1" && not s.use_pinpoint_for_dedicated)
      || (is_us region
          || (not (is_known region)
              || ((is_elsewhere region && not international)
                  || (blank s.pinpoint_sc_pool
                      || (blank s.pinpoint_default_pool && not using_short_code)))))

  -- Whether the loop over the active providers keeps one.
  pub is_candidate : Bool → ProviderDetail → Bool
  is_candidate avoid p =
      not (avoid && p.identifier =s= "pinpoint") && not (not avoid && p.identifier =s= "sns")

  pub provider_to_use :
      NotificationType → (sender to : String) → Uuid → (international : Bool) → Outcome Selection
  provider_to_use email sender to template_id international = do
    providers ← s.providers_by_type email international
    select_provider (select (λ p. p.active) providers) email long_code
  provider_to_use t sender to template_id international = do
    providers ← s.providers_by_type t international
    (using_short_code, vehicle) ← resolve_sending_vehicle template_id
    let avoid = avoids_pinpoint sender to international using_short_code
    select_provider (select (is_candidate avoid) (select (λ p. p.active) providers)) t vehicle
