-- ===== src/Contacts.antt =====
-- internal/repository/services/dao.go: the SMS senders of a service, and in ReplyTos its reply-to addresses.
pub mod Clearing
pub mod Default
pub mod Kept
pub mod Sole
pub mod ReplyTos
mod Tests
use notification_api_spec.Base.{
  ℕ, suc, String, Bool, true, false, not, Option, none, some, List, [], ◌∷◌, map, ◌&&◌, ◌||◌, ◌==◌,
  ◌=s=◌, if◌then◌else◌, select, any, GoError, no_rows, plain_error, Outcome, ok, err,
}
use notification_api_spec.Base.Outcomes.{◌>>=◌}
use notification_api_spec.Delivery.{Uuid, nil_uuid}

-- A row of `service_sms_senders`, without its times.
pub record SmsSender : Type 0 where
  pub id : Uuid
  pub sms_sender : String
  pub service_id : Uuid
  pub is_default : Bool
  pub inbound_number_id : Option Uuid
  pub archived : Bool

abbrev pub Table : Type 0
Table = List SmsSender

-- The statements of a transaction.
pub data Query : Type 0 where
  begin commit : Query
  select_senders : (service : Uuid) → Query
  insert_sender update_sender : (id : Uuid) → Query
  assign_number : (service inbound : Uuid) → Query

pub record UpdateParams : Type 0 where
  pub sms_sender : String
  pub is_default : Bool
  pub inbound_number_id : Option Uuid
  pub archived : Bool
  pub id : Uuid

abbrev pub counts_as_default : SmsSender → Bool
counts_as_default item = not item.archived && item.is_default

abbrev pub has_default : List SmsSender → Bool
has_default = any counts_as_default

-- The loop of `isSoleDefaultSMSSender`, with the defaults counted so far.
unfoldable pub sole_default_from : ℕ → List SmsSender → Uuid → Bool
sole_default_from count [] id = count == 1
sole_default_from count (item ∷ items) id =
    let counted = sole_default_from (suc count) items id in
    let skipped = sole_default_from count items id in
    if counts_as_default item then (if item.id =s= id then counted else false) else skipped

abbrev pub is_sole_default : List SmsSender → Uuid → Bool
is_sole_default items id = sole_default_from 0 items id

unfoldable pub find_sms_sender : List SmsSender → Uuid → Option SmsSender
find_sms_sender [] id = none
find_sms_sender (item ∷ items) id =
    let rest = find_sms_sender items id in
    if item.id =s= id && not item.archived then some item else rest

-- The row that an update leaves.
abbrev pub updated : UpdateParams → SmsSender → SmsSender
updated arg row = record row {
  sms_sender = arg.sms_sender;
  is_default = arg.is_default;
  inbound_number_id = arg.inbound_number_id;
  archived = arg.archived;
}

unfoldable pub set_row : UpdateParams → SmsSender → SmsSender
set_row arg row = if row.id =s= arg.id then updated arg row else row

abbrev pub invalid_request : String → GoError
invalid_request message = plain_error message

-- The row with this id.
unfoldable pub row_with : Uuid → Table → Option SmsSender
row_with id [] = none
row_with id (row ∷ rows) = let rest = row_with id rows in if row.id =s= id then some row else rest

-- What an operation returns and the table it leaves; with an error the transaction is rolled back.
abbrev pub Result : Type 0
Result = Outcome (Option SmsSender × Table)

abbrev pub in_service : Uuid → SmsSender → Bool
in_service service_id row = row.service_id =s= service_id && not row.archived

abbrev pub cleared : SmsSender → UpdateParams
cleared item = record {
  sms_sender = item.sms_sender;
  is_default = false;
  inbound_number_id = item.inbound_number_id;
  archived = item.archived;
  id = item.id;
}

abbrev pub is_kept : SmsSender → Uuid → Bool
is_kept item keep = item.archived || (not item.is_default || item.id =s= keep)

abbrev pub update_of : SmsSender → UpdateParams
update_of sender = record {
  sms_sender = sender.sms_sender;
  is_default = sender.is_default;
  inbound_number_id = sender.inbound_number_id;
  archived = sender.archived;
  id = sender.id;
}

-- The new row: a nil id is replaced by a new one.
abbrev pub new_row : Uuid → SmsSender → SmsSender
new_row new_id sender = record sender {
  id = if sender.id =s= nil_uuid then new_id else sender.id;
  archived = false;
}

abbrev pub default_required : GoError
default_required = invalid_request "You must have at least one SMS sender as the default."

abbrev pub has_number : SmsSender → Bool
has_number row = elim row.inbound_number_id [ none ↦ false | some _ ↦ true ]

-- `fails` says which statements the database refuses, and with what error.
module _ (fails : Query → Option GoError) where
  unfoldable pub unless_failed : {A : Type 0} → Query → Outcome A → Outcome A
  unless_failed q answer = elim (fails q) [ some e ↦ err e | none ↦ answer ]

  -- The rows of the service that are not archived; the query's order is left out, as the callers
  -- do not depend on it.
  unfoldable pub get_sms_senders : Uuid → Table → Outcome (List SmsSender)
  unfolding unless_failed
  get_sms_senders service_id t =
      unless_failed (select_senders service_id) (ok (select (in_service service_id) t))

  unfoldable pub update_sms_sender : UpdateParams → Table → Outcome (SmsSender × Table)
  unfolding unless_failed set_row row_with
  update_sms_sender arg t = unless_failed (update_sender arg.id) (elim (row_with arg.id t) [
    | none ↦ err (no_rows ∷ [])
    | some row ↦ ok (updated arg row, map (set_row arg) t)
  ])

  -- The id is the primary key.
  unfoldable pub create_sms_sender : SmsSender → Table → Outcome (SmsSender × Table)
  unfolding unless_failed
  create_sms_sender row t = unless_failed (insert_sender row.id) (
      if any (λ r. r.id =s= row.id) t then err (plain_error "duplicate key") else ok (row, row ∷ t))

  unfoldable pub clear_defaults : List SmsSender → Uuid → Table → Outcome Table
  unfolding update_sms_sender
  clear_defaults [] keep t = ok t
  clear_defaults (item ∷ items) keep t =
      let kept = clear_defaults items keep t in
      let next = update_sms_sender (cleared item) t >>= λ (_, t₁). clear_defaults items keep t₁ in
      if is_kept item keep then kept else next

  abbrev pub clear_if : Bool → List SmsSender → Uuid → Table → Outcome Table
  clear_if false items keep t = ok t
  clear_if true items keep t = clear_defaults items keep t

  abbrev pub assign : Uuid → Option Uuid → Outcome (Unit {0})
  assign service_id none = ok tt
  assign service_id (some id) = unless_failed (assign_number service_id id) (ok tt)

  abbrev pub committed : SmsSender → Table → Result
  committed row t = unless_failed commit (ok (some row, t))

  -- `AddSmsSenderForService`
  unfoldable pub add_sms_sender : Uuid → SmsSender → Table → Result
  unfolding get_sms_senders clear_defaults create_sms_sender unless_failed
  add_sms_sender new_id sender t =
      unless_failed begin (get_sms_senders sender.service_id t) >>= λ items.
      if not sender.is_default && not (has_default items)
      then err default_required
      else clear_if sender.is_default items sender.id t >>= λ t₁.
          create_sms_sender (new_row new_id sender) t₁ >>= λ (created, t₂).
          assign sender.service_id created.inbound_number_id >>= λ _. committed created t₂

  -- The checks and the statements of an update of the row `current`.
  unfoldable pub update_current : SmsSender → SmsSender → List SmsSender → Table → Result
  unfolding clear_defaults update_sms_sender unless_failed sole_default_from
  update_current current sender items t =
      if has_number current && not (sender.sms_sender =s= current.sms_sender)
      then err (invalid_request "You cannot update an inbound number")
      else if not sender.is_default && (current.is_default && is_sole_default items current.id)
      then err default_required
      else clear_if sender.is_default items sender.id t >>= λ t₁.
          update_sms_sender (update_of sender) t₁ >>= λ (row, t₂). committed row t₂

  -- The unarchived row of the service that has the id; without one an operation does nothing.
  unfoldable pub with_current : Uuid → Uuid → Table → (SmsSender → List SmsSender → Result) → Result
  unfolding get_sms_senders find_sms_sender unless_failed
  with_current service_id id t act = unless_failed begin (get_sms_senders service_id t) >>= λ items.
      elim (find_sms_sender items id) [ none ↦ ok (none, t) | some current ↦ act current items ]

  -- `UpdateServiceSmsSender`
  unfoldable pub update_service_sms_sender : SmsSender → Table → Result
  unfolding with_current update_current
  update_service_sms_sender sender t =
      with_current sender.service_id sender.id t
        (λ current items. update_current current sender items t)

  -- `UpdateSmsSenderWithInboundNumber`
  unfoldable pub update_with_inbound_number : (service sender inbound : Uuid) → Table → Result
  unfolding with_current update_sms_sender unless_failed
  update_with_inbound_number service_id sender_id inbound_id t =
      with_current service_id sender_id t (λ current items.
        update_sms_sender (record (update_of current) { inbound_number_id = some inbound_id }) t
        >>= λ (row, t₁). assign service_id (some inbound_id) >>= λ _. committed row t₁)

  -- `ArchiveSmsSender`
  unfoldable pub archive_sms_sender : (service sender : Uuid) → Table → Result
  unfolding with_current update_sms_sender unless_failed
  archive_sms_sender service_id sender_id t = with_current service_id sender_id t (λ current items.
      if has_number current
      then err (invalid_request "You cannot delete an inbound number")
      else if current.is_default
      then err (invalid_request "You cannot delete a default sms sender")
      else update_sms_sender (record (update_of current) { archived = true }) t >>= λ (row, t₁).
          committed row t₁)
