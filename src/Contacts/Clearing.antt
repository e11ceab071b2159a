-- ===== src/Contacts/Clearing.antt =====
-- The loop that clears the defaults of a service.
use notification_api_spec.Base.{
  ◌≡◌, refl, subst, sym, ◌∙◌, Bool, true, false, not, Option, List, [], ◌∷◌, map, ◌&&◌, ◌||◌, arith,
  ◌=s=◌, eq_refl, select, any, All, GoError, ok, Outcome-cases, Bool-cases, inl, inr,
}
use notification_api_spec.Base.Members.{All-map, All-imp, All-Among, any-Among, select-Among}
use notification_api_spec.Delivery.{Uuid}
use notification_api_spec.Contacts.{
  SmsSender, Table, Query, UpdateParams, is_kept, cleared, set_row, in_service, clear_defaults,
  update_sms_sender, unless_failed,
}

-- A default of the service.
abbrev pub default_of : Uuid → SmsSender → Bool
default_of service_id row = in_service service_id row && row.is_default

-- A row is no default of the service unless it is the one to keep.
abbrev pub IsOnly : Uuid → Uuid → SmsSender → Type 0
IsOnly s keep row = default_of s row ≡ true → (row.id =s= keep) ≡ true

-- The loop is still to clear a row of this id.
abbrev pending : Uuid → List SmsSender → Uuid → Bool
pending keep items id = any (λ item. not (is_kept item keep) && id =s= item.id) items

-- A row that is a default only if it is the one to keep, or one that is still to clear.
abbrev Settles : Uuid → Uuid → List SmsSender → SmsSender → Type 0
Settles s keep items row =
    default_of s row ≡ true → (row.id =s= keep || pending keep items row.id) ≡ true

Settles-cleared :
    (s keep : Uuid) (item : SmsSender) (items : List SmsSender) (row : SmsSender)
    → Settles s keep (item ∷ items) row
    → Settles s keep items (set_row (cleared item) row)
unfolding set_row
Settles-cleared s keep item items row h = elim (Bool-cases (row.id =s= item.id)) [
  | inl e ↦ rw e (λ d. absurd (ground arith))
  | inr e ↦ rw e (λ d. ground (arith, h d))
]

Settles-kept :
    (s keep : Uuid) (item : SmsSender) (items : List SmsSender) (row : SmsSender)
    → is_kept item keep ≡ true
    → Settles s keep (item ∷ items) row
    → Settles s keep items row
Settles-kept s keep item items row k h d = ground (arith, h d)

-- At the start every default of the service is kept or still to clear.
pub Settles-All : (s keep : Uuid) (t : Table) → All (Settles s keep (select (in_service s) t)) t
Settles-All s keep t = All-Among _ t (λ row m d. elim (Bool-cases (row.id =s= keep)) [
  | inl e ↦ rw e refl
  | inr e ↦ rw e (
      any-Among _ (select (in_service s) t) row
        (select-Among (in_service s) t row m (ground (arith, d)))
        (ground (arith, d, e, eq_refl row.id)))
])

module _ (fails : Query → Option GoError) where
  pub updated_table :
      (arg : UpdateParams) (t t' : Table) (row : SmsSender)
      → update_sms_sender fails arg t ≡ ok (row, t')
      → t' ≡ map (set_row arg) t
  unfolding update_sms_sender unless_failed
  updated_table arg t t' row e = ground arith

  -- What holds of every row while the loop goes through the items.
  module _ (keep : Uuid) (J : List SmsSender → SmsSender → Type 0)
      (on_kept : (item : SmsSender) (items : List SmsSender) (row : SmsSender)
        → is_kept item keep ≡ true
        → J (item ∷ items) row
        → J items row)
      (on_cleared : (item : SmsSender) (items : List SmsSender) (row : SmsSender)
        → J (item ∷ items) row
        → J items (set_row (cleared item) row)) where
    clear_defaults-All :
        (items : List SmsSender) (t t' : Table)
        → clear_defaults fails items keep t ≡ ok t'
        → All (J items) t
        → All (J []) t'
    unfolding clear_defaults
    clear_defaults-All [] t t' e h =
        let same : t ≡ t' = ground (arith, e) in subst (All (J [])) same h
    clear_defaults-All (item ∷ items) t t' e h = elim (Bool-cases (is_kept item keep)) [
      | inl k ↦
          clear_defaults-All items t t' (sym (rw k refl) ∙ e)
            (All-imp _ _ t (λ row j. on_kept item items row k j) h)
      | inr k ↦ elim (Outcome-cases (update_sms_sender fails (cleared item) t)) [
        | inl ((row, t₁), u) ↦ clear_defaults-All items t₁ t' (sym (rw (k, u) refl) ∙ e) (
            subst (All (J items)) (sym (updated_table (cleared item) t t₁ row u))
              (All-map _ _ (set_row (cleared item)) t (on_cleared item items) h))
        | inr (x, u) ↦ absurd (ground (arith, e, k, u))
      ]
    ]

  pub cleared-IsOnly :
      (s keep : Uuid) (t t' : Table)
      → clear_defaults fails (select (in_service s) t) keep t ≡ ok t'
      → All (IsOnly s keep) t'
  cleared-IsOnly s keep t t' e =
      All-imp _ _ t' (λ row h d. ground (arith, h d))
        (clear_defaults-All keep (Settles s keep) (Settles-kept s keep) (Settles-cleared s keep)
          (select (in_service s) t) t t' e (Settles-All s keep t))

  pub cleared_without :
      (keep : Uuid) (id : Uuid) (items : List SmsSender) (t t' : Table)
      → clear_defaults fails items keep t ≡ ok t'
      → All (λ row. (row.id =s= id) ≡ false) t
      → All (λ row. (row.id =s= id) ≡ false) t'
  unfolding set_row
  cleared_without keep id items t t' e h =
      clear_defaults-All keep (λ _ row. (row.id =s= id) ≡ false) (λ item items row _ j. j)
        (λ item items row j. elim (Bool-cases (row.id =s= item.id)) [
          | inl e ↦ rw e j
          | inr e ↦ rw e j
        ])
        items t t' e h
