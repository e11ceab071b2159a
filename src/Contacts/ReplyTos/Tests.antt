-- ===== src/Contacts/ReplyTos/Tests.antt =====
-- A service whose only reply-to address is archived.
use notification_api_spec.Base.{
  ◌≡◌, ◌⊎◌, refl, ◌∙◌, sym, true, false, Option, none, some, [], ◌∷◌, GoError, ok, err, Among, inl,
  inr,
}
use notification_api_spec.Contacts.ReplyTos.{
  ReplyTo, Table, Query, counts_as_default, in_service, default_archived,
  add_reply_to_email_address, archive_reply_to_email_address,
}
use notification_api_spec.Contacts.ReplyTos.Archived.{IsUnique, archive_default}

abbrev never : Query → Option GoError
never q = none

abbrev address : ReplyTo
address = record {
  id = "r1";
  service_id = "s1";
  email_address = "help@example.ca";
  is_default = true;
  archived = false;
}

abbrev second : ReplyTo
second = record address { id = "r2"; is_default = false }

abbrev one_address : Table
one_address = address ∷ []

abbrev shelved : ReplyTo
shelved = record address { is_default = false; archived = true }

added :
    add_reply_to_email_address never "r9" second one_address
    ≡ ok (some second, second ∷ address ∷ [])
unfolding add_reply_to_email_address
added = refl

not_archived :
    archive_reply_to_email_address never "s1" "r1" (second ∷ address ∷ []) ≡ err default_archived
unfolding archive_reply_to_email_address
not_archived = refl

did_archive :
    archive_reply_to_email_address never "s1" "r1" one_address ≡ ok (some shelved, shelved ∷ [])
unfolding archive_reply_to_email_address
did_archive = refl

is_unique : IsUnique one_address
is_unique r r' m m' e = elim m [
  | inl a ↦ elim m' [ inl b ↦ a ∙ sym b | inr x ↦ absurd x ]
  | inr x ↦ absurd x
]

archive_default_example :
    (shelved.archived ≡ true)
    × ((r : ReplyTo)
        → Among r one_address
        → counts_as_default r ≡ true
        → Among r (shelved ∷ [])
          ⊎ ((r' : ReplyTo) → Among r' (shelved ∷ []) → in_service r.service_id r' ≡ false))
archive_default_example =
    archive_default never "s1" "r1" shelved one_address (shelved ∷ []) is_unique did_archive
