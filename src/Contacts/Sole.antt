-- ===== src/Contacts/Sole.antt =====
-- The test for the sole default of a service, and the update that it guards.
use notification_api_spec.Base.{
  ℕ, suc, ◌+◌, ◌==◌, ◌≡◌, refl, ap, subst, sym, ◌∙◌, Bool, true, false, not, Option, some, List, [],
  ◌∷◌, map, ◌&&◌, ◌⊎◌, arith, ◌=s=◌, eq_iff, select, count, All, Among, Among-select, GoError, ok,
  Outcome-cases, Bool-cases, Option-cases, inl, inr,
}
use notification_api_spec.Base.Members.{All-both, count-none, All-elim, map-Among, All-select}
use notification_api_spec.Delivery.{Uuid}
use notification_api_spec.Contacts.{
  update_of, with_current, find_sms_sender, SmsSender, Table, Query, UpdateParams, set_row,
  in_service, update_sms_sender, unless_failed, get_sms_senders, sole_default_from, is_sole_default,
  counts_as_default, update_current, update_service_sms_sender,
}
use notification_api_spec.Contacts.Clearing.{default_of, updated_table}
use notification_api_spec.Contacts.Kept.{IsKeyed, HasDefault, find-Among, keyed_same}

-- A default among the items that has another id.
abbrev HasOther : Uuid → List SmsSender → Type 0
HasOther id items =
    (i : SmsSender) × Among i items × (counts_as_default i ≡ true) × ((i.id =s= id) ≡ false)

abbrev IsNoOther : Uuid → SmsSender → Type 0
IsNoOther id i = counts_as_default i ≡ true → (i.id =s= id) ≡ true

other_cases : (id : Uuid) (items : List SmsSender) → HasOther id items ⊎ All (IsNoOther id) items
other_cases id [] = inr tt
other_cases id (x ∷ items) = elim (other_cases id items) [
  | inl (i, m, d, e) ↦ inl (i, inr m, d, e)
  | inr h ↦ elim (Bool-cases (counts_as_default x && not (x.id =s= id))) [
    | inl o ↦ inl (x, inl refl, ground (arith, o), ground (arith, o))
    | inr o ↦ inr (λ d. ground (arith, o, d), h)
  ]
]

sole_value :
    (n : ℕ) (items : List SmsSender) (id : Uuid)
    → All (IsNoOther id) items
    → sole_default_from n items id ≡ ((n + count counts_as_default items) == 1)
unfolding sole_default_from
sole_value n [] id h = ground arith
sole_value n (x ∷ items) id (h, hs) = elim (Bool-cases (counts_as_default x)) [
  | inl d ↦ rw (d, h d) (sole_value (suc n) items id hs ∙ ground arith)
  | inr d ↦ rw d (sole_value n items id hs)
]

keyed_count :
    (items : List SmsSender) (current : SmsSender)
    → IsKeyed items
    → All (IsNoOther current.id) items
    → Among current items
    → counts_as_default current ≡ true
    → count counts_as_default items ≡ 1
keyed_count [] current k h m d = absurd m
keyed_count (x ∷ items) current (apart, k) (h, hs) (inl same) d =
    let none_left : All (λ i. counts_as_default i ≡ false) items =
      All-both _ _ _ items
        (λ i p q. elim (Bool-cases (counts_as_default i)) [
          | inl c ↦ absurd (ground (arith, q c, p, same))
          | inr c ↦ c
        ])
        apart hs in
    let counted : counts_as_default x ≡ true = subst (λ y. counts_as_default y ≡ true) same d in
    rw counted (ap suc (count-none _ items none_left))
keyed_count (x ∷ items) current (apart, k) (h, hs) (inr m) d =
    elim (Bool-cases (counts_as_default x)) [
      | inl c ↦ absurd (
          ground (
            arith,
            eq_iff x.id current.id,
            eq_iff current.id x.id,
            h c,
            All-elim _ items current m apart,
          ))
      | inr c ↦ rw c (keyed_count items current k hs m d)
    ]

select-IsKeyed : (p : SmsSender → Bool) (t : Table) → IsKeyed t → IsKeyed (select p t)
select-IsKeyed p [] k = tt
select-IsKeyed p (x ∷ t) (h, k) = elim (Bool-cases (p x)) [
  | inl e ↦ rw e (All-select _ p t h, select-IsKeyed p t k)
  | inr e ↦ rw e (select-IsKeyed p t k)
]

-- A default that is not the sole one has another beside it.
not_sole_other :
    (items : List SmsSender) (current : SmsSender)
    → IsKeyed items
    → Among current items
    → counts_as_default current ≡ true
    → is_sole_default items current.id ≡ false
    → HasOther current.id items
not_sole_other items current k m d e = elim (other_cases current.id items) [
  | inl h ↦ h
  | inr h ↦
      absurd (ground (arith, sole_value 0 items current.id h, keyed_count items current k h m d, e))
]

module _ (fails : Query → Option GoError) where
  undefault_change :
      (sender row : SmsSender) (t t' : Table)
      → sender.is_default ≡ false
      → update_service_sms_sender fails sender t ≡ ok (some row, t')
      → (current : SmsSender) × ((current.is_default
            && is_sole_default (select (in_service sender.service_id) t) current.id)
          ≡ false)
        × (find_sms_sender (select (in_service sender.service_id) t) sender.id ≡ some current)
        × (update_sms_sender fails (update_of sender) t ≡ ok (row, t'))
  unfolding update_service_sms_sender with_current update_current unless_failed get_sms_senders
  undefault_change sender row t t' d e =
      let items = select (in_service sender.service_id) t in
      elim (Option-cases (find_sms_sender items sender.id)) [
        | inl n ↦ absurd (ground (arith, e, n))
        | inr (current, f) ↦ elim (Outcome-cases (update_sms_sender fails (update_of sender) t)) [
          | inl ((found, t₁), u) ↦
              let ends : (row ≡ found)
                  × (t' ≡ t₁)
                  × ((current.is_default && is_sole_default items current.id) ≡ false) =
                ground (arith, e, f, u, d) in
              (current, ends.2, f, u ∙ rw (ends.0, ends.1) refl)
          | inr (x, u) ↦ absurd (ground (arith, e, f, u, d))
        ]
      ]

  -- A row with another id stays as it was.
  stays :
      (s : Uuid) (arg : UpdateParams) (t : Table) (r : SmsSender)
      → Among r t
      → default_of s r ≡ true
      → (r.id =s= arg.id) ≡ false
      → HasDefault s (map (set_row arg) t)
  unfolding set_row
  stays s arg t r m d e = (set_row arg r, map-Among (set_row arg) t r m, rw e d)

  -- Updating an SMS sender to be no default, in a table whose ids differ: if it succeeds, the
  -- service still has a default if it had one.
  pub update-HasDefault :
      (sender row : SmsSender) (t t' : Table)
      → IsKeyed t
      → sender.is_default ≡ false
      → update_service_sms_sender fails sender t ≡ ok (some row, t')
      → HasDefault sender.service_id t
      → HasDefault sender.service_id t'
  update-HasDefault sender row t t' k d e (r, m, was) =
      let s = sender.service_id in
      let items = select (in_service s) t in
      let (current, guard, f, u) = undefault_change sender row t t' d e in
      let (listed, id) = find-Among items sender.id current f in
      let (present, _) = Among-select (in_service s) t current listed in
      subst (HasDefault s) (sym (updated_table fails (update_of sender) t t' row u))
        (elim (Bool-cases (r.id =s= sender.id)) [
          | inr apart ↦ stays s (update_of sender) t r m was apart
          | inl h ↦
              let same : r ≡ current =
                keyed_same t r current k m present
                  (ground (arith, eq_iff r.id sender.id, h) ∙ sym id) in
              let now : default_of s current ≡ true = subst (λ y. default_of s y ≡ true) same was in
              let (other, o, c, apart) =
                not_sole_other items current (select-IsKeyed _ t k) listed (ground (arith, now))
                  (ground (arith, guard, now)) in
              let (o, inside) = Among-select (in_service s) t other o in
              stays s (update_of sender) t other o (ground (arith, inside, c))
                (subst (λ i. (other.id =s= i) ≡ false) id apart)
        ])
