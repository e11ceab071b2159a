-- ===== src/Contacts/ReplyTos.antt =====
-- internal/repository/services/dao.go: the reply-to addresses of a service.
pub mod Archived
mod Tests
use notification_api_spec.Base.{
  ℕ, suc, String, Bool, true, false, not, Option, none, some, List, [], ◌∷◌, map, length, ltb, ◌&&◌,
  ◌||◌, ◌==◌, ◌=s=◌, if◌then◌else◌, select, any, GoError, no_rows, plain_error, Outcome, ok, err,
}
use notification_api_spec.Base.Outcomes.{◌>>=◌}
use notification_api_spec.Delivery.{Uuid, nil_uuid}

-- A row of `service_email_reply_to`, without its times.
pub record ReplyTo : Type 0 where
  pub id : Uuid
  pub service_id : Uuid
  pub email_address : String
  pub is_default : Bool
  pub archived : Bool

abbrev pub Table : Type 0
Table = List ReplyTo

-- The statements of a transaction.
pub data Query : Type 0 where
  begin commit : Query
  select_reply_tos : (service : Uuid) → Query
  insert_reply_to update_reply_to : (id : Uuid) → Query

pub record UpdateParams : Type 0 where
  pub email_address : String
  pub is_default : Bool
  pub archived : Bool
  pub id : Uuid

abbrev pub counts_as_default : ReplyTo → Bool
counts_as_default item = not item.archived && item.is_default

abbrev pub has_default : List ReplyTo → Bool
has_default = any counts_as_default

-- The loop of `isSoleDefaultReplyTo`, with the defaults counted so far.
unfoldable pub sole_default_from : ℕ → List ReplyTo → Uuid → Bool
sole_default_from count [] id = count == 1
sole_default_from count (item ∷ items) id =
    let counted = sole_default_from (suc count) items id in
    let skipped = sole_default_from count items id in
    if counts_as_default item then (if item.id =s= id then counted else false) else skipped

unfoldable pub find_reply_to : List ReplyTo → Uuid → Option ReplyTo
find_reply_to [] id = none
find_reply_to (item ∷ items) id =
    let rest = find_reply_to items id in
    if item.id =s= id && not item.archived then some item else rest

abbrev pub updated : UpdateParams → ReplyTo → ReplyTo
updated arg row = record row {
  email_address = arg.email_address;
  is_default = arg.is_default;
  archived = arg.archived;
}

unfoldable pub set_row : UpdateParams → ReplyTo → ReplyTo
set_row arg row = if row.id =s= arg.id then updated arg row else row

unfoldable pub row_with : Uuid → Table → Option ReplyTo
row_with id [] = none
row_with id (row ∷ rows) = let rest = row_with id rows in if row.id =s= id then some row else rest

-- What an operation returns and the table it leaves; with an error the transaction is rolled back.
abbrev pub Result : Type 0
Result = Outcome (Option ReplyTo × Table)

abbrev pub in_service : Uuid → ReplyTo → Bool
in_service service_id row = row.service_id =s= service_id && not row.archived

abbrev pub update_of : ReplyTo → UpdateParams
update_of item = record {
  email_address = item.email_address;
  is_default = item.is_default;
  archived = item.archived;
  id = item.id;
}

abbrev pub is_kept : ReplyTo → Uuid → Bool
is_kept item keep = item.archived || (not item.is_default || item.id =s= keep)

-- The new row: a nil id is replaced by a new one.
abbrev pub new_row : Uuid → ReplyTo → ReplyTo
new_row new_id item = record item {
  id = if item.id =s= nil_uuid then new_id else item.id;
  archived = false;
}

abbrev pub default_required : GoError
default_required = plain_error "You must have at least one reply to email address as the default."

abbrev pub default_archived : GoError
default_archived =
    plain_error
      "You cannot delete a default email reply to address if other reply to addresses exist"

-- `fails` says which statements the database refuses, and with what error.
module _ (fails : Query → Option GoError) where
  unfoldable pub unless_failed : {A : Type 0} → Query → Outcome A → Outcome A
  unless_failed q answer = elim (fails q) [ some e ↦ err e | none ↦ answer ]

  -- The rows of the service that are not archived, the query's order left out.
  unfoldable pub get_reply_tos : Uuid → Table → Outcome (List ReplyTo)
  unfolding unless_failed
  get_reply_tos service_id t =
      unless_failed (select_reply_tos service_id) (ok (select (in_service service_id) t))

  unfoldable pub update_reply_to_row : UpdateParams → Table → Outcome (ReplyTo × Table)
  unfolding unless_failed set_row row_with
  update_reply_to_row arg t = unless_failed (update_reply_to arg.id) (elim (row_with arg.id t) [
    | none ↦ err (no_rows ∷ [])
    | some row ↦ ok (updated arg row, map (set_row arg) t)
  ])

  -- The id is the primary key.
  unfoldable pub create_reply_to : ReplyTo → Table → Outcome (ReplyTo × Table)
  unfolding unless_failed
  create_reply_to row t = unless_failed (insert_reply_to row.id) (
      if any (λ r. r.id =s= row.id) t then err (plain_error "duplicate key") else ok (row, row ∷ t))

  unfoldable pub clear_defaults : List ReplyTo → Uuid → Table → Outcome Table
  unfolding update_reply_to_row
  clear_defaults [] keep t = ok t
  clear_defaults (item ∷ items) keep t =
      let kept = clear_defaults items keep t in
      let next =
        update_reply_to_row (record (update_of item) { is_default = false }) t >>= λ (_, t₁).
        clear_defaults items keep t₁ in
      if is_kept item keep then kept else next

  abbrev pub clear_if : Bool → List ReplyTo → Uuid → Table → Outcome Table
  clear_if false items keep t = ok t
  clear_if true items keep t = clear_defaults items keep t

  abbrev pub committed : ReplyTo → Table → Result
  committed row t = unless_failed commit (ok (some row, t))

  -- `AddReplyToEmailAddress`
  unfoldable pub add_reply_to_email_address : Uuid → ReplyTo → Table → Result
  unfolding get_reply_tos clear_defaults create_reply_to unless_failed
  add_reply_to_email_address new_id item t =
      unless_failed begin (get_reply_tos item.service_id t) >>= λ items.
      if not item.is_default && not (has_default items)
      then err default_required
      else clear_if item.is_default items item.id t >>= λ t₁.
          create_reply_to (new_row new_id item) t₁ >>= λ (created, t₂). committed created t₂

  -- The unarchived row of the service that has the id; without one an operation does nothing.
  unfoldable pub with_current : Uuid → Uuid → Table → (ReplyTo → List ReplyTo → Result) → Result
  unfolding get_reply_tos find_reply_to unless_failed
  with_current service_id id t act = unless_failed begin (get_reply_tos service_id t) >>= λ items.
      elim (find_reply_to items id) [ none ↦ ok (none, t) | some current ↦ act current items ]

  -- `UpdateReplyToEmailAddress`
  unfoldable pub update_reply_to_email_address : ReplyTo → Table → Result
  unfolding with_current clear_defaults update_reply_to_row unless_failed sole_default_from
  update_reply_to_email_address item t = with_current item.service_id item.id t (λ current items.
      if not item.is_default && (current.is_default && sole_default_from 0 items current.id)
      then err default_required
      else clear_if item.is_default items item.id t >>= λ t₁.
          update_reply_to_row (update_of item) t₁ >>= λ (row, t₂). committed row t₂)

  -- `ArchiveReplyToEmailAddress`
  unfoldable pub archive_reply_to_email_address : (service_id id : Uuid) → Table → Result
  unfolding with_current update_reply_to_row unless_failed
  archive_reply_to_email_address service_id id t = with_current service_id id t (λ current items.
      if current.is_default && ltb 1 (length items)
      then err default_archived
      else update_reply_to_row (record (update_of current) { is_default = false; archived = true })
          t
        >>= λ (row, t₁). committed row t₁)
