-- ===== src/Providers/Toggle/Updates.antt =====
-- What the lookups find in the table of providers, and what an update makes of it
-- (internal/repository/providers/wrappers.go).
use notification_api_spec.Base.{
  String, ◌≡◌, Bool, Option, none, List, [], ◌∷◌, arith, ◌=s=◌, eq_iff, GoError, ok, select, Among,
  Option-cases, inl, inr,
}
use notification_api_spec.Providers.{ProviderDetail, NotificationType}
use notification_api_spec.Providers.Toggle.{
  Tables, Query, read_identifier, read_id, read_current, update_row, insert_history, UpdateParams,
  unless_failed, first_row, by_identifier, by_id, current_provider, is_current_row, first_in_order,
  update_provider_details, replace_row, updated_row,
}
use notification_api_spec.Providers.Toggle.Rows.{first_row_lem, row_of_id}

first_row-identifier :
    (i : String) (rows : List ProviderDetail) (row : ProviderDetail)
    → first_row (λ r. r.identifier =s= i) rows ≡ ok row
    → row.identifier ≡ i
unfolding first_row
first_row-identifier i [] row e = absurd (ground arith)
first_row-identifier i (r ∷ rows) row e =
    ground (arith, first_row-identifier i rows row, eq_iff r.identifier i)

module _ (fails : Query → Option GoError) (collate : String → String → Bool) where
  pub found_identifier :
      (i : String) (t : Tables) (row : ProviderDetail)
      → by_identifier fails t i ≡ ok row
      → row.identifier ≡ i
  unfolding by_identifier unless_failed
  found_identifier i t row found = elim (Option-cases (fails (read_identifier i))) [
    | inl works ↦ first_row-identifier i t.details row (ground (arith, works, found))
    | inr (e, failed) ↦ absurd (ground (arith, failed, found))
  ]

  pub update_lem :
      (arg : UpdateParams) (t : Tables) (row : ProviderDetail)
      → ((q : Query) → fails q ≡ none)
      → by_id fails t arg.id ≡ ok row
      → let new = updated_row arg row in
        update_provider_details fails arg t
        ≡ (ok new, record { details = replace_row new t.details; history = new ∷ t.history })
  unfolding update_provider_details
  update_lem arg t row accepted found = ground (
    arith,
    found,
    accepted (update_row (updated_row arg row).id),
    accepted (insert_history (updated_row arg row).id),
  )

  pub by_id_lem :
      (t : Tables) (row : ProviderDetail)
      → ((q : Query) → fails q ≡ none)
      → ((r : ProviderDetail) → Among r t.details → r.id ≡ row.id → r ≡ row)
      → Among row t.details
      → by_id fails t row.id ≡ ok row
  unfolding by_id unless_failed
  by_id_lem t row accepted unique m =
      ground (arith, accepted (read_id row.id), row_of_id t.details row unique m)

  pub current_lem :
      (t : Tables) (row : ProviderDetail)
      → ((q : Query) → fails q ≡ none)
      → first_in_order collate (select (is_current_row NotificationType.sms) t.details) ≡ ok row
      → current_provider fails collate t NotificationType.sms ≡ ok row
  unfolding current_provider unless_failed
  current_lem t row accepted first =
      ground (arith, accepted (read_current NotificationType.sms), first)

  pub of_current :
      (t : Tables) (row : ProviderDetail)
      → ((q : Query) → fails q ≡ none)
      → current_provider fails collate t NotificationType.sms ≡ ok row
      → first_in_order collate (select (is_current_row NotificationType.sms) t.details) ≡ ok row
  unfolding current_provider unless_failed
  of_current t row accepted first =
      ground (arith, accepted (read_current NotificationType.sms), first)

  pub of_identifier :
      (i : String) (t : Tables) (row : ProviderDetail)
      → ((q : Query) → fails q ≡ none)
      → by_identifier fails t i ≡ ok row
      → Among row t.details
  unfolding by_identifier unless_failed
  of_identifier i t row accepted found =
      (first_row_lem (λ r. r.identifier =s= i) t.details row
        (ground (arith, accepted (read_identifier i), found))).0
