-- ===== src/Contacts/Tests.antt =====
-- Two services with three SMS senders.
use notification_api_spec.Base.{
  ◌≡◌, refl, Bool, true, false, Option, none, some, [], ◌∷◌, GoError, ok, err, Among, count, inl,
}
use notification_api_spec.Delivery.{Uuid}
use notification_api_spec.Contacts
use notification_api_spec.Contacts.{
  SmsSender, Table, Query, add_sms_sender, update_service_sms_sender, archive_sms_sender,
  update_with_inbound_number,
}
use notification_api_spec.Contacts.Clearing.{default_of}
use notification_api_spec.Contacts.Default.{add-sole_default}
use notification_api_spec.Contacts.Kept.{IsKeyed, HasDefault, archive-HasDefault}
use notification_api_spec.Contacts.Sole.{update-HasDefault}

abbrev no_failure : Query → Option GoError
no_failure q = none

abbrev sender : (id service : Uuid) → Bool → SmsSender
sender id service is_default = record {
  id = id;
  sms_sender = "GOV";
  service_id = service;
  is_default = is_default;
  inbound_number_id = none;
  archived = false;
}

abbrev rows : Table
rows = sender "a" "s" true ∷ sender "b" "s" false ∷ sender "c" "other" true ∷ []

abbrev two_defaults : Table
two_defaults = sender "a" "s" true ∷ sender "b" "s" true ∷ []

abbrev added : SmsSender
added = sender "d" "s" true

abbrev after_add : Table
after_add = added ∷ sender "a" "s" false ∷ sender "b" "s" false ∷ sender "c" "other" true ∷ []

added_row : add_sms_sender no_failure "new" added rows ≡ ok (some added, after_add)
unfolding add_sms_sender
added_row = refl

add-sole_default_example :
    Among added after_add
    × (default_of "s" added ≡ true)
    × (added.sms_sender ≡ "GOV")
    × (count (default_of "s") after_add ≡ 1)
add-sole_default_example =
    add-sole_default no_failure "new" added added rows after_add (refl, (refl, (refl, tt))) refl
      added_row

abbrev promoted : SmsSender
promoted = sender "b" "s" true

abbrev after_update : Table
after_update = sender "a" "s" false ∷ promoted ∷ sender "c" "other" true ∷ []

updated_row : update_service_sms_sender no_failure promoted rows ≡ ok (some promoted, after_update)
unfolding update_service_sms_sender
updated_row = refl

abbrev archived_row : SmsSender
archived_row = record (sender "b" "s" false) { archived = true }

abbrev after_archive : Table
after_archive = sender "a" "s" true ∷ archived_row ∷ sender "c" "other" true ∷ []

archived : archive_sms_sender no_failure "s" "b" rows ≡ ok (some archived_row, after_archive)
unfolding archive_sms_sender
archived = refl

rows-IsKeyed : IsKeyed rows
rows-IsKeyed = ((refl, (refl, tt)), ((refl, tt), (tt, tt)))

archive-HasDefault_example :
    ((s : Uuid) → HasDefault s rows → HasDefault s after_archive)
    × (archived_row.archived ≡ true)
    × (archived_row.inbound_number_id ≡ none)
archive-HasDefault_example =
    archive-HasDefault no_failure "s" "b" archived_row rows after_archive rows-IsKeyed archived

abbrev demoted : SmsSender
demoted = sender "a" "s" false

-- The sole default cannot be made no default, one of two can.
refused : update_service_sms_sender no_failure demoted rows ≡ err Contacts.default_required
unfolding update_service_sms_sender
refused = refl

one_of_two :
    update_service_sms_sender no_failure demoted two_defaults
    ≡ ok (some demoted, demoted ∷ sender "b" "s" true ∷ [])
unfolding update_service_sms_sender
one_of_two = refl

update-HasDefault_example : HasDefault "s" (demoted ∷ sender "b" "s" true ∷ [])
update-HasDefault_example =
    update-HasDefault no_failure demoted demoted two_defaults (demoted ∷ sender "b" "s" true ∷ [])
      ((refl, tt), (tt, tt)) refl one_of_two (sender "a" "s" true, inl refl, refl)
