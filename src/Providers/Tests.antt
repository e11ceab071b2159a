-- ===== src/Providers/Tests.antt =====
-- Choices of a provider, and a failover.
use notification_api_spec.Base.{
  ℕ, String, ◌≡◌, ◌≢◌, refl, arith, eq_iff, Bool, true, false, Option, none, List, [], ◌∷◌, Among,
  trim_space, has_prefix, ok, GoError, inl, inr, sym, ap, ◌∙◌, ◌<◌, ◌^◌,
}
use notification_api_spec.Delivery.{nil_uuid, Selection}
use notification_api_spec.Providers
use notification_api_spec.Providers.Choice.{sms_provider}
use notification_api_spec.Providers.Toggle
use notification_api_spec.Providers.Toggle.{
  Tables, Query, unless_failed, by_identifier, current_provider, toggle_by_identifier,
  switch_to_identifier, first_row, first_in_order,
}
use notification_api_spec.Providers.Toggle.Rows.{IsUnique}
use notification_api_spec.Providers.Toggle.Failover.{
  IsSwitchable, toggle_current, switch_makes_current,
}

abbrev provider : String → String → ℕ → Providers.ProviderDetail
provider id identifier priority = record {
  id = id;
  display_name = identifier;
  identifier = identifier;
  priority = priority;
  notification_type = Providers.NotificationType.sms;
  active = true;
  version = 1;
  created_by_id = none;
  supports_international = true;
}

abbrev sns : Providers.ProviderDetail
sns = provider "p1" "sns" 10

abbrev pinpoint : Providers.ProviderDetail
pinpoint = provider "p2" "pinpoint" 20

abbrev service : Providers.ProviderService
service = record {
  use_pinpoint_for_dedicated = false;
  pinpoint_sc_pool = "sc";
  pinpoint_default_pool = "lc";
  providers_by_type = λ t international. ok (sns ∷ pinpoint ∷ []);
  templates = none;
  categories = none;
  resolver = λ identifier t.
      ok (record { name = identifier; is_sms_sender = true; is_email_sender = false });
}

abbrev selection : Selection
selection = record {
  client = "pinpoint";
  is_sms_sender = true;
  is_email_sender = false;
  identifier = "pinpoint";
  sending_vehicle = "LONG_CODE";
}

toronto :
    Providers.provider_to_use service Providers.NotificationType.sms "" "416-555-0188" nil_uuid
      false
    ≡ ok selection
unfolding Providers.provider_to_use Providers.resolve_sending_vehicle Providers.resolve_with
    Providers.select_provider Providers.avoids_pinpoint Providers.is_candidate
    Providers.classify_recipient_region Providers.phone_digits Providers.region_of_digits
    Providers.area_region Providers.is_canadian trim_space has_prefix
toronto = refl

sms_provider_example :
    (rows : List Providers.ProviderDetail) × (row : Providers.ProviderDetail) × (short : Bool)
    × (v : Providers.SmsSendingVehicle) × (service.providers_by_type Providers.NotificationType.sms
          false
        ≡ ok rows)
    × (Providers.resolve_sending_vehicle service nil_uuid ≡ ok (short, v))
    × Among row rows
    × (row.active ≡ true)
    × (row.identifier ≡ "pinpoint")
    × ((Providers.avoids_pinpoint service "" "416-555-0188" false short ≡ true)
        → selection.identifier ≢ "pinpoint")
    × ((Providers.avoids_pinpoint service "" "416-555-0188" false short ≡ false)
        → selection.identifier ≢ "sns")
sms_provider_example = sms_provider service "" "416-555-0188" nil_uuid false selection toronto

digits : Providers.phone_digits "416-555-0188" ≡ 4 ∷ 1 ∷ 6 ∷ 5 ∷ 5 ∷ 5 ∷ 0 ∷ 1 ∷ 8 ∷ 8 ∷ []
unfolding Providers.phone_digits
digits = refl

with_country : Providers.phone_digits "+1 416-555-0188" ≡ 1 ∷ Providers.phone_digits "416-555-0188"
unfolding Providers.phone_digits
with_country = refl

abbrev collate : String → String → Bool
collate s t = false

abbrev never : Query → Option GoError
never q = none

abbrev tables : Tables
tables = record { details = sns ∷ pinpoint ∷ []; history = [] }

sns_found : by_identifier never tables "sns" ≡ ok sns
unfolding by_identifier unless_failed first_row
sns_found = refl

pinpoint_found : by_identifier never tables "pinpoint" ≡ ok pinpoint
unfolding by_identifier unless_failed first_row
pinpoint_found = refl

sns_current : current_provider never collate tables Providers.NotificationType.sms ≡ ok sns
unfolding current_provider unless_failed first_in_order Toggle.before Toggle.lt_int32
sns_current = refl

toggle_current_example : toggle_by_identifier never collate "sns" tables ≡ (ok tt, tables)
toggle_current_example = toggle_current never collate "sns" tables sns sns_found sns_current

other_ids : sns.id ≢ pinpoint.id
other_ids e = ground (arith, eq_iff "p1" "p2")

unique : IsUnique tables.details
unique p q (inl e) (inl e') same = e ∙ sym e'
unique p q (inl e) (inr (inl e')) same =
    absurd (other_ids (sym (ap (λ r. r.id) e) ∙ same ∙ ap (λ r. r.id) e'))
unique p q (inr (inl e)) (inl e') same =
    absurd (other_ids (sym (ap (λ r. r.id) e') ∙ sym same ∙ ap (λ r. r.id) e))
unique p q (inr (inl e)) (inr (inl e')) same = e ∙ sym e'
unique p q (inr (inr m)) k same = absurd m
unique p q k (inr (inr m)) same = absurd m

small : (r : Providers.ProviderDetail) → Among r tables.details → r.priority < 2 ^ 32
small r (inl e) = rw e (omega arith)
small r (inr (inl e)) = rw e (omega arith)
small r (inr (inr m)) = absurd m

no_third :
    (r : Providers.ProviderDetail) → Among r tables.details → r.id ≢ pinpoint.id → r.id ≢ sns.id → ⊥
no_third r (inl e) np ns = ns (ap (λ r. r.id) e)
no_third r (inr (inl e)) np ns = np (ap (λ r. r.id) e)
no_third r (inr (inr m)) np ns = m

switchable : IsSwitchable never collate "pinpoint" tables pinpoint sns
switchable = record {
  unique = unique;
  found = pinpoint_found;
  active = refl;
  sms = refl;
  is_current = sns_current;
  differ = λ e. other_ids (sym e);
  accepted = λ q. refl;
  int32 = small;
  room = λ e. absurd (ground (arith, e));
  ties = λ r m e nt nc same. absurd (no_third r m nt nc);
}

switch_makes_current_example :
    let (result, t') = switch_to_identifier never collate "pinpoint" tables in
    (result ≡ ok tt)
    × ((row : Providers.ProviderDetail) × (current_provider never collate t'
            Providers.NotificationType.sms
          ≡ ok row)
        × (row.identifier ≡ "pinpoint")
        × (row.id ≡ "p2")
        × ((old : Providers.ProviderDetail) × (old.id ≡ "p1") × (t'.history ≡ old ∷ row ∷ [])))
switch_makes_current_example =
    switch_makes_current never collate "pinpoint" tables pinpoint sns switchable
