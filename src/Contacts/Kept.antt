-- ===== src/Contacts/Kept.antt =====
-- A service keeps its default SMS sender when a sender is archived or is given a number.
use notification_api_spec.Base.{
  ◌≡◌, refl, ap, subst, sym, ◌∙◌, true, false, not, Option, none, some, List, [], ◌∷◌, map, ◌&&◌,
  arith, ◌=s=◌, eq_iff, select, All, Among, Among-select, GoError, ok, Outcome-cases, Bool-cases,
  Option-cases, inl, inr,
}
use notification_api_spec.Base.Members.{All-elim, map-Among}
use notification_api_spec.Delivery.{Uuid}
use notification_api_spec.Contacts.{
  update_of, with_current, find_sms_sender, SmsSender, Table, Query, UpdateParams, set_row,
  in_service, update_sms_sender, unless_failed, get_sms_senders, updated, archive_sms_sender,
  update_with_inbound_number, has_number,
}
use notification_api_spec.Contacts.Clearing.{default_of, updated_table}
use notification_api_spec.Contacts.Default.{found_row}

-- No two rows have the same id.
abbrev pub IsKeyed : Table → Type 0
IsKeyed [] = Unit
IsKeyed (r ∷ rows) = All (λ q. (q.id =s= r.id) ≡ false) rows × IsKeyed rows

-- The service has a default.
abbrev pub HasDefault : Uuid → Table → Type 0
HasDefault s t = (r : SmsSender) × Among r t × (default_of s r ≡ true)

pub keyed_same :
    (t : Table) (r q : SmsSender) → IsKeyed t → Among r t → Among q t → r.id ≡ q.id → r ≡ q
keyed_same [] r q k m n e = absurd m
keyed_same (x ∷ t) r q (h, k) (inl m) (inl n) e = m ∙ sym n
keyed_same (x ∷ t) r q (h, k) (inl m) (inr n) e =
    let apart = All-elim _ t q n h in
    absurd (ground (arith, apart, eq_iff q.id x.id, sym e ∙ ap (λ y. y.id) m))
keyed_same (x ∷ t) r q (h, k) (inr m) (inl n) e =
    let apart = All-elim _ t r m h in
    absurd (ground (arith, apart, eq_iff r.id x.id, e ∙ ap (λ y. y.id) n))
keyed_same (x ∷ t) r q (h, k) (inr m) (inr n) e = keyed_same t r q k m n e

pub find-Among :
    (items : List SmsSender) (id : Uuid) (row : SmsSender)
    → find_sms_sender items id ≡ some row
    → Among row items × (row.id ≡ id)
unfolding find_sms_sender
find-Among [] id row e = absurd (ground arith)
find-Among (x ∷ items) id row e = elim (Bool-cases (x.id =s= id && not x.archived)) [
  | inl h ↦
      let same : row ≡ x = ground (arith, h, e) in
      (inl same, ap (λ y. y.id) same ∙ ground (arith, eq_iff x.id id, h))
  | inr h ↦ let (m, i) = find-Among items id row (ground (arith, h, e)) in (inr m, i)
]

-- An update of the row `current` that leaves it a default if it was one keeps every default.
set_keeps :
    (s : Uuid) (arg : UpdateParams) (current : SmsSender) (t : Table)
    → IsKeyed t
    → Among current t
    → current.id ≡ arg.id
    → (default_of s current ≡ true → default_of s (updated arg current) ≡ true)
    → HasDefault s t
    → HasDefault s (map (set_row arg) t)
unfolding set_row
set_keeps s arg current t k m i keeps (r, n, d) = (
  set_row arg r,
  map-Among (set_row arg) t r n,
  elim (Bool-cases (r.id =s= arg.id)) [
    | inl e ↦
        let same : r ≡ current =
          keyed_same t r current k n m (ground (arith, eq_iff r.id arg.id, e) ∙ sym i) in
        rw e (
          subst (λ y. default_of s (updated arg y) ≡ true) (sym same)
            (keeps (subst (λ y. default_of s y ≡ true) same d)))
    | inr e ↦ rw e d
  ],
)

module _ (fails : Query → Option GoError) where
  -- What a change of one listed row has done.
  pub record IsChange (service_id id : Uuid) (current : SmsSender) (arg : UpdateParams)
      (row : SmsSender) (t t' : Table) : Type 0 where
    pub listed : find_sms_sender (select (in_service service_id) t) id ≡ some current
    pub set : update_sms_sender fails arg t ≡ ok (row, t')

  change_keeps :
      (s service_id id : Uuid) (current : SmsSender) (arg : UpdateParams) (row : SmsSender)
      (t t' : Table)
      → IsKeyed t
      → IsChange service_id id current arg row t t'
      → current.id ≡ arg.id
      → (default_of s current ≡ true → default_of s (updated arg current) ≡ true)
      → HasDefault s t
      → HasDefault s t'
  change_keeps s service_id id current arg row t t' k h i keeps had =
      let (m, _) = find-Among (select (in_service service_id) t) id current h.listed in
      let (m, _) = Among-select (in_service service_id) t current m in
      subst (HasDefault s) (sym (updated_table fails arg t t' row h.set))
        (set_keeps s arg current t k m i keeps had)

  archive-IsChange :
      (service_id id : Uuid) (row : SmsSender) (t t' : Table)
      → archive_sms_sender fails service_id id t ≡ ok (some row, t')
      → (current : SmsSender) × (current.is_default ≡ false)
        × (has_number current ≡ false)
        × IsChange service_id id current (record (update_of current) { archived = true }) row t t'
  unfolding archive_sms_sender with_current unless_failed get_sms_senders
  archive-IsChange service_id id row t t' e =
      elim (Option-cases (find_sms_sender (select (in_service service_id) t) id)) [
        | inl n ↦ absurd (ground (arith, e, n))
        | inr (current, f) ↦
            let arg = record (update_of current) { archived = true } in
            elim (Outcome-cases (update_sms_sender fails arg t)) [
              | inl ((found, t₁), u) ↦
                  let ends : (row ≡ found)
                      × (t' ≡ t₁)
                      × (current.is_default ≡ false)
                      × (has_number current ≡ false) =
                    ground (arith, e, f, u) in
                  (
                    current,
                    ends.2,
                    ends.3,
                    record { listed = f; set = u ∙ rw (ends.0, ends.1) refl },
                  )
              | inr (x, u) ↦ absurd (ground (arith, e, f, u))
            ]
      ]

  -- Archiving an SMS sender, in a table whose ids differ: if it succeeds, the row had no inbound
  -- number, and every service that had a default still has one.
  pub archive-HasDefault :
      (service_id id : Uuid) (row : SmsSender) (t t' : Table)
      → IsKeyed t
      → archive_sms_sender fails service_id id t ≡ ok (some row, t')
      → ((s : Uuid) → HasDefault s t → HasDefault s t')
        × (row.archived ≡ true)
        × (row.inbound_number_id ≡ none)
  archive-HasDefault service_id id row t t' k e =
      let (current, plain, unnumbered, h) = archive-IsChange service_id id row t t' e in
      let arg = record (update_of current) { archived = true } in
      let (found, _, same) = found_row fails arg t t' row h.set in
      (
        λ s.
            change_keeps s service_id id current arg row t t' k h refl
              (λ d. absurd (ground (arith, d, plain))),
        rw same refl,
        rw same (ground (arith, unnumbered)),
      )

  inbound-IsChange :
      (service_id id inbound : Uuid) (row : SmsSender) (t t' : Table)
      → update_with_inbound_number fails service_id id inbound t ≡ ok (some row, t')
      → (current : SmsSender) × IsChange service_id id current
          (record (update_of current) { inbound_number_id = some inbound })
          row
          t
          t'
  unfolding update_with_inbound_number with_current unless_failed get_sms_senders
  inbound-IsChange service_id id inbound row t t' e =
      elim (Option-cases (find_sms_sender (select (in_service service_id) t) id)) [
        | inl n ↦ absurd (ground (arith, e, n))
        | inr (current, f) ↦
            let arg = record (update_of current) { inbound_number_id = some inbound } in
            elim (Outcome-cases (update_sms_sender fails arg t)) [
              | inl ((found, t₁), u) ↦
                  let ends : (row ≡ found) × (t' ≡ t₁) = ground (arith, e, f, u) in
                  (current, record { listed = f; set = u ∙ rw (ends.0, ends.1) refl })
              | inr (x, u) ↦ absurd (ground (arith, e, f, u))
            ]
      ]

  -- Giving an SMS sender an inbound number, in a table whose ids differ: if it succeeds, the row
  -- has that number, and every service that had a default still has one.
  pub inbound-HasDefault :
      (service_id id inbound : Uuid) (row : SmsSender) (t t' : Table)
      → IsKeyed t
      → update_with_inbound_number fails service_id id inbound t ≡ ok (some row, t')
      → ((s : Uuid) → HasDefault s t → HasDefault s t') × (row.inbound_number_id ≡ some inbound)
  inbound-HasDefault service_id id inbound row t t' k e =
      let (current, h) = inbound-IsChange service_id id inbound row t t' e in
      let arg = record (update_of current) { inbound_number_id = some inbound } in
      let (found, _, same) = found_row fails arg t t' row h.set in
      (λ s. change_keeps s service_id id current arg row t t' k h refl (λ d. d), rw same refl)
