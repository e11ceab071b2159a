-- ===== src/Providers/Toggle/Failover.antt =====
-- What the failover does to the table of providers.
use notification_api_spec.Base.{
  ℕ, String, ◌≡◌, ◌≢◌, ◌<◌, ◌^◌, ◌⊎◌, refl, ap, sym, ◌∙◌, Bool, true, false, Option, none, ◌∷◌,
  arith, eq_iff, eq_refl, GoError, ok, select, Among, Among-select, Outcome-cases, inl, inr,
}
use notification_api_spec.Base.Members.{select-Among}
use notification_api_spec.Providers.{ProviderDetail, NotificationType}
use notification_api_spec.Providers.Toggle.{
  Tables, Query, by_identifier, current_provider, is_current_row, swapped_priorities,
  switch_to_target, switch_to_identifier, toggle_by_identifier, lt_int32, add_int32, first_in_order,
  update_provider_details, replace_row, swap_priorities, before, updated_row, priority_update,
}
use notification_api_spec.Providers.Toggle.Least.{
  lt_total, lt_irrefl, before_less, before_tie, first_in_order-Among, first_in_order-least,
  first_in_order_lem,
}
use notification_api_spec.Providers.Toggle.Rows.{
  IsUnique, replace_row-cases, replace_row-new, replace_row-old,
}
use notification_api_spec.Providers.Toggle.Updates.{
  found_identifier, update_lem, by_id_lem, current_lem, of_current, of_identifier,
}

module _ (fails : Query → Option GoError) (collate : String → String → Bool) where
  -- To toggle away from a provider is to switch to that provider: the "alternative" is the row of
  -- the same identifier.
  toggle-switch :
      (i : String) (t : Tables)
      → toggle_by_identifier fails collate i t ≡ switch_to_identifier fails collate i t
  unfolding toggle_by_identifier switch_to_identifier
  toggle-switch i t = elim (Outcome-cases (by_identifier fails t i)) [
    | inl (row, found) ↦
        let same : row.identifier ≡ i = found_identifier fails collate i t row found in
        ground (arith, found, same)
    | inr (e, failed) ↦ ground (arith, failed)
  ]

  -- So the failover after a failed send leaves the table as it was, when the provider that failed is
  -- the current one: nothing is switched.
  pub toggle_current :
      (i : String) (t : Tables) (row : ProviderDetail)
      → by_identifier fails t i ≡ ok row
      → current_provider fails collate t NotificationType.sms ≡ ok row
      → toggle_by_identifier fails collate i t ≡ (ok tt, t)
  unfolding switch_to_identifier switch_to_target
  toggle_current i t row found current = rw toggle-switch (ground (arith, eq_refl row.id))

  -- An active SMS provider, found by its identifier, to which the provider that is the current one can
  -- give way.
  pub record IsSwitchable (identifier : String) (t : Tables) (target current : ProviderDetail)
      : Type 0 where
    pub unique : IsUnique t.details
    pub found : by_identifier fails t identifier ≡ ok target
    pub active : target.active ≡ true
    pub sms : target.notification_type ≡ NotificationType.sms
    pub is_current : current_provider fails collate t NotificationType.sms ≡ ok current
    pub differ : target.id ≢ current.id
    -- The database refuses no statement, and its priorities have 32 bits.
    pub accepted : (q : Query) → fails q ≡ none
    pub int32 : (r : ProviderDetail) → Among r t.details → r.priority < 2 ^ 32
    -- Equal priorities can be told apart by ten.
    pub room :
        target.priority ≡ current.priority
        → lt_int32 current.priority (add_int32 current.priority 10) ≡ true
    -- Any other active SMS provider of the current one's priority stands after the target by its name.
    pub ties :
        (r : ProviderDetail)
        → Among r t.details
        → is_current_row NotificationType.sms r ≡ true
        → r.id ≢ target.id
        → r.id ≢ current.id
        → r.priority ≡ current.priority
        → (collate target.display_name r.display_name ≡ true)
          × (collate r.display_name target.display_name ≡ false)

  module _ (identifier : String) (t : Tables) (target current : ProviderDetail)
      (h : IsSwitchable identifier t target current) where
    abbrev priorities : ℕ × ℕ
    priorities = swapped_priorities target.priority current.priority

    abbrev promoted : ProviderDetail
    promoted = updated_row (priority_update target.id priorities.0) target

    abbrev demoted : ProviderDetail
    demoted = updated_row (priority_update current.id priorities.1) current

    abbrev half : Tables
    half = record { details = replace_row promoted t.details; history = promoted ∷ t.history }

    abbrev after_switch : Tables
    after_switch = record {
      details = replace_row demoted (replace_row promoted t.details);
      history = demoted ∷ promoted ∷ t.history;
    }

    target_listed : Among target t.details
    target_listed = of_identifier fails collate identifier t target h.accepted h.found

    current_first :
        first_in_order collate (select (is_current_row NotificationType.sms) t.details) ≡ ok current
    current_first = of_current fails collate t current h.accepted h.is_current

    current_listed : Among current t.details × (is_current_row NotificationType.sms current ≡ true)
    current_listed =
        Among-select (is_current_row NotificationType.sms) t.details current
          (first_in_order-Among collate _ current current_first)

    promoted_id : promoted.id ≡ target.id
    unfolding updated_row
    promoted_id = refl

    demoted_id : demoted.id ≡ current.id
    unfolding updated_row
    demoted_id = refl

    first_updated :
        update_provider_details fails (priority_update target.id priorities.0) t
        ≡ (ok promoted, half)
    first_updated =
        update_lem fails collate (priority_update target.id priorities.0) t target h.accepted (
          by_id_lem fails collate t target h.accepted (λ r m e. h.unique r target m target_listed e)
            target_listed)

    current_in_half : (r : ProviderDetail) → Among r half.details → r.id ≡ current.id → r ≡ current
    current_in_half r m e = elim (replace_row-cases promoted t.details r m) [
      | inl same ↦ absurd (h.differ (sym promoted_id ∙ sym (ap (λ x. x.id) same) ∙ e))
      | inr (k, _) ↦ h.unique r current k current_listed.0 e
    ]

    second_updated :
        update_provider_details fails (priority_update current.id priorities.1) half
        ≡ (ok demoted, after_switch)
    second_updated =
        update_lem fails collate (priority_update current.id priorities.1) half current h.accepted (
          by_id_lem fails collate half current h.accepted current_in_half (
            replace_row-old promoted t.details current current_listed.0
              (λ e. h.differ (sym (e ∙ promoted_id)))))

    swapped : swap_priorities fails collate target current t ≡ (ok tt, after_switch)
    unfolding swap_priorities
    swapped = ground (arith, first_updated, second_updated)

    switched : switch_to_identifier fails collate identifier t ≡ (ok tt, after_switch)
    unfolding switch_to_identifier switch_to_target
    switched =
        ground
          (arith, h.found, h.active, h.is_current, eq_iff current.id target.id, h.differ, swapped)

    target_selected : is_current_row NotificationType.sms target ≡ true
    target_selected = rw (h.active, h.sms) (eq_refl "sms")

    not_less :
        (r : ProviderDetail)
        → Among r t.details
        → is_current_row NotificationType.sms r ≡ true
        → (lt_int32 current.priority r.priority ≡ true) ⊎ (r.priority ≡ current.priority)
    not_less r m e =
        lt_total r.priority current.priority (h.int32 r m) (h.int32 current current_listed.0) (
          first_in_order-least collate _ current r current_first
            (select-Among (is_current_row NotificationType.sms) t.details r m e))

    -- The target gets the priority of the current provider, which moves behind it.
    priorities_lem :
        (promoted.priority ≡ current.priority) × (lt_int32 current.priority demoted.priority ≡ true)
    unfolding updated_row swapped_priorities
    priorities_lem = elim (not_less target target_listed target_selected) [
      | inl behind ↦ (ground (arith, behind), ground (arith, behind))
      | inr same ↦
          let level : lt_int32 current.priority target.priority ≡ false =
            ap (lt_int32 current.priority) same ∙ lt_irrefl current.priority in
          (ground (arith, level, same), ground (arith, level, same, h.room same))
    ]

    promoted_selected : is_current_row NotificationType.sms promoted ≡ true
    unfolding updated_row
    promoted_selected = target_selected

    promoted_name : promoted.display_name ≡ target.display_name
    unfolding updated_row
    promoted_name = refl

    promoted_identifier : promoted.identifier ≡ identifier
    unfolding updated_row
    promoted_identifier = found_identifier fails collate identifier t target h.found

    promoted_listed : Among promoted after_switch.details
    promoted_listed =
        replace_row-old demoted half.details promoted
          (replace_row-new promoted t.details target target_listed (sym promoted_id))
          (λ e. h.differ (sym promoted_id ∙ e ∙ demoted_id))

    abbrev Precedes : ProviderDetail → Type 0
    Precedes r =
        (r ≡ promoted) ⊎ ((before collate promoted r ≡ true) × (before collate r promoted ≡ false))

    old_follows :
        (r : ProviderDetail)
        → Among r t.details
        → is_current_row NotificationType.sms r ≡ true
        → r.id ≢ target.id
        → r.id ≢ current.id
        → Precedes r
    old_follows r m e nt nc = elim (not_less r m e) [
      | inl behind ↦ inr (
          before_less collate promoted r
            (ap (λ x. lt_int32 x r.priority) priorities_lem.0 ∙ behind))
      | inr same ↦
          let (up, down) = h.ties r m e nt nc same in
          inr (
            before_tie collate promoted r (priorities_lem.0 ∙ sym same)
              (ap (λ x. collate x r.display_name) promoted_name ∙ up)
              (ap (collate r.display_name) promoted_name ∙ down))
    ]

    promoted-Precedes :
        (r : ProviderDetail)
        → Among r (select (is_current_row NotificationType.sms) after_switch.details)
        → Precedes r
    promoted-Precedes r m =
        let (k, e) = Among-select (is_current_row NotificationType.sms) after_switch.details r m in
        elim (replace_row-cases demoted half.details r k) [
          | inl same ↦
              let less : lt_int32 promoted.priority r.priority ≡ true =
                ap (λ x. lt_int32 x r.priority) priorities_lem.0
                ∙ ap (λ x. lt_int32 current.priority x.priority) same
                ∙ priorities_lem.1 in
              inr (before_less collate promoted r less)
          | inr (k', nc) ↦ elim (replace_row-cases promoted t.details r k') [
            | inl same ↦ inl same
            | inr (old, nt) ↦
                old_follows r old e (λ x. nt (x ∙ sym promoted_id)) (λ x. nc (x ∙ sym demoted_id))
          ]
        ]

    -- In any table of providers whose ids differ, switching to an active SMS provider that is not the
    -- current one makes it the current one and notes both changed rows, where the database refuses no
    -- statement, the priorities have 32 bits, the current priority plus ten does not overflow if the
    -- two have the same priority, and any third active SMS provider of the current priority is sorted
    -- after the target by its name.
    pub switch_makes_current :
        let (result, t') = switch_to_identifier fails collate identifier t in
        (result ≡ ok tt)
        × ((row : ProviderDetail) × (current_provider fails collate t' NotificationType.sms
              ≡ ok row)
            × (row.identifier ≡ identifier)
            × (row.id ≡ target.id)
            × ((old : ProviderDetail) × (old.id ≡ current.id)
                × (t'.history ≡ old ∷ row ∷ t.history)))
    switch_makes_current =
        let first =
          first_in_order_lem collate
            (select (is_current_row NotificationType.sms) after_switch.details) promoted
            (select-Among (is_current_row NotificationType.sms) after_switch.details promoted
              promoted_listed promoted_selected)
            promoted-Precedes in
        rw switched (
          refl,
          (
            promoted,
            current_lem fails collate after_switch promoted h.accepted first,
            promoted_identifier,
            promoted_id,
            (demoted, demoted_id, refl),
          ),
        )
