-- ===== src/Contacts/Default.antt =====
-- Which SMS senders of a service are its default after one is added or updated.
use notification_api_spec.Base.{
  suc, ◌≡◌, refl, ap, subst, sym, ◌∙◌, true, false, Option, some, [], ◌∷◌, map, arith, ◌=s=◌,
  eq_iff, eq_refl, select, any, count, All, Among, GoError, ok, Outcome-cases, Bool-cases,
  Option-cases, inl, inr,
}
use notification_api_spec.Base.Members.{All-map, All-both, count-none, any-none}
use notification_api_spec.Delivery.{Uuid, nil_uuid}
use notification_api_spec.Contacts.{
  update_of, update_current, update_service_sms_sender, with_current, SmsSender, Table, Query,
  UpdateParams, set_row, in_service, clear_defaults, update_sms_sender, row_with, unless_failed,
  get_sms_senders, create_sms_sender, add_sms_sender, new_row, updated,
}
use notification_api_spec.Contacts.Clearing.{
  updated_table, cleared-IsOnly, cleared_without, default_of, IsOnly,
}

module _ (fails : Query → Option GoError) where
  -- What an addition of a default has done.
  record IsAddition (sender row : SmsSender) (t t' : Table) : Type 0 where
    rest : Table
    emptied : clear_defaults fails (select (in_service sender.service_id) t) sender.id t ≡ ok rest
    fresh : any (λ r. r.id =s= row.id) rest ≡ false
    now : t' ≡ row ∷ rest

  created_row :
      (row created : SmsSender) (t t' : Table)
      → create_sms_sender fails row t ≡ ok (created, t')
      → (created ≡ row) × (t' ≡ row ∷ t) × (any (λ r. r.id =s= row.id) t ≡ false)
  unfolding create_sms_sender unless_failed
  created_row row created t t' e = ground (arith, e)

  addition :
      (new_id : Uuid) (sender created : SmsSender) (t t' : Table)
      → sender.is_default ≡ true
      → add_sms_sender fails new_id sender t ≡ ok (some created, t')
      → (created ≡ new_row new_id sender) × IsAddition sender created t t'
  unfolding add_sms_sender get_sms_senders unless_failed
  addition new_id sender created t t' d e =
      elim (Outcome-cases
        (clear_defaults fails (select (in_service sender.service_id) t) sender.id t)) [
          | inl (rest, c) ↦
              elim (Outcome-cases (create_sms_sender fails (new_row new_id sender) rest)) [
                | inl ((row, t₂), k) ↦
                    let (same, after, fresh) = created_row (new_row new_id sender) row rest t₂ k in
                    let ends : (created ≡ row) × (t' ≡ t₂) = ground (arith, e, c, k, d) in
                    let named : created ≡ new_row new_id sender = ends.0 ∙ same in
                    (
                      named,
                      record {
                        rest = rest;
                        emptied = c;
                        fresh =
                            subst (λ r. any (λ x. x.id =s= r.id) rest ≡ false) (sym named) fresh;
                        now = ends.1 ∙ (after ∙ ap (λ r. r ∷ rest) (sym named));
                      },
                    )
                | inr (x, k) ↦ absurd (ground (arith, e, c, k, d))
              ]
          | inr (x, c) ↦ absurd (ground (arith, e, c, d))
        ]

  -- No default is left before the new row: one with the id to keep would have the id of the new
  -- row, or the nil id.
  rest_no_default :
      (new_id : Uuid) (sender : SmsSender) (t t' : Table)
      → IsAddition sender (new_row new_id sender) t t'
      → All (λ row. (row.id =s= nil_uuid) ≡ false) t
      → (rest : Table) × (t' ≡ new_row new_id sender ∷ rest)
        × All (λ row. default_of sender.service_id row ≡ false) rest
  rest_no_default new_id sender t t' h ids =
      let items = select (in_service sender.service_id) t in
      let gone : All (λ row. (row.id =s= sender.id) ≡ false) h.rest =
        elim (Bool-cases (sender.id =s= nil_uuid)) [
          | inl e ↦
              let same : sender.id ≡ nil_uuid = ground (arith, eq_iff sender.id nil_uuid, e) in
              subst (λ k. All (λ row. (row.id =s= k) ≡ false) h.rest) (sym same)
                (cleared_without fails sender.id nil_uuid items t h.rest h.emptied ids)
          | inr e ↦
              let same : (new_row new_id sender).id ≡ sender.id = rw e refl in
              subst (λ k. All (λ row. (row.id =s= k) ≡ false) h.rest) same
                (any-none (λ r. r.id =s= (new_row new_id sender).id) h.rest h.fresh)
        ] in
      (
        h.rest,
        h.now,
        All-both (λ row. (row.id =s= sender.id) ≡ false) (IsOnly sender.service_id sender.id) _
            h.rest
            (λ row p q. elim (Bool-cases (default_of sender.service_id row)) [
              | inl d ↦ absurd (ground (arith, q d, p))
              | inr d ↦ d
            ])
            gone (cleared-IsOnly fails sender.service_id sender.id t h.rest h.emptied),
      )

  -- Adding a default SMS sender, where no row has the nil id: if it succeeds, the row that it
  -- returns is in the table, is a default of the service, has the name that was asked for, and
  -- the service has no other default.
  pub add-sole_default :
      (new_id : Uuid) (sender created : SmsSender) (t t' : Table)
      → All (λ row. (row.id =s= nil_uuid) ≡ false) t
      → sender.is_default ≡ true
      → add_sms_sender fails new_id sender t ≡ ok (some created, t')
      → Among created t'
        × (default_of sender.service_id created ≡ true)
        × (created.sms_sender ≡ sender.sms_sender)
        × (count (default_of sender.service_id) t' ≡ 1)
  add-sole_default new_id sender created t t' ids d e =
      let (same, h) = addition new_id sender created t t' d e in
      let (rest, after, none_left) =
        rest_no_default new_id sender t t' (subst (λ r. IsAddition sender r t t') same h) ids in
      let is_default : default_of sender.service_id (new_row new_id sender) ≡ true =
        rw (eq_refl sender.service_id, d) refl in
      rw (same, after)
        (inl refl, is_default, refl, rw is_default (ap suc (count-none _ rest none_left)))

  row_with-Among :
      (arg : UpdateParams) (rows : Table) (row : SmsSender)
      → row_with arg.id rows ≡ some row
      → (row.id ≡ arg.id) × Among (updated arg row) (map (set_row arg) rows)
  unfolding row_with set_row
  row_with-Among arg [] row e = absurd (ground arith)
  row_with-Among arg (r ∷ rows) row e = elim (Bool-cases (r.id =s= arg.id)) [
    | inl h ↦
        let same : r ≡ row = ground (arith, h, e) in
        let found : r.id ≡ arg.id = ground (arith, eq_iff r.id arg.id, h) in
        (ap (λ x. x.id) (sym same) ∙ found, rw h (inl (ap (updated arg) (sym same))))
    | inr h ↦ let (found, m) = row_with-Among arg rows row (ground (arith, h, e)) in (found, inr m)
  ]

  -- What an update has done.
  record IsUpdate (sender row : SmsSender) (t t' : Table) : Type 0 where
    cleared_table : Table
    emptied :
        clear_defaults fails (select (in_service sender.service_id) t) sender.id t
        ≡ ok cleared_table
    set : update_sms_sender fails (update_of sender) cleared_table ≡ ok (row, t')

  promoted-IsUpdate :
      (sender row : SmsSender) (t t' : Table)
      → sender.is_default ≡ true
      → update_service_sms_sender fails sender t ≡ ok (some row, t')
      → IsUpdate sender row t t'
  unfolding update_service_sms_sender with_current update_current unless_failed get_sms_senders
  promoted-IsUpdate sender row t t' d e =
      let items = select (in_service sender.service_id) t in
      elim (Outcome-cases (clear_defaults fails items sender.id t)) [
        | inl (rest, c) ↦ elim (Outcome-cases (update_sms_sender fails (update_of sender) rest)) [
          | inl ((found, t₂), k) ↦
              let ends : (row ≡ found) × (t' ≡ t₂) = ground (arith, e, c, k, d) in
              record { cleared_table = rest; emptied = c; set = k ∙ rw (ends.0, ends.1) refl }
          | inr (x, k) ↦ absurd (ground (arith, e, c, k, d))
        ]
        | inr (x, c) ↦ absurd (ground (arith, e, c, d))
      ]

  pub found_row :
      (arg : UpdateParams) (t t' : Table) (row : SmsSender)
      → update_sms_sender fails arg t ≡ ok (row, t')
      → (found : SmsSender) × (row_with arg.id t ≡ some found) × (row ≡ updated arg found)
  unfolding update_sms_sender unless_failed
  found_row arg t t' row e = elim (Option-cases (row_with arg.id t)) [
    | inl n ↦ absurd (ground (arith, e, n))
    | inr (found, f) ↦ (found, f, ground (arith, e, f))
  ]

  -- Updating an SMS sender to be a default: if it succeeds, the row that it returns is in the
  -- table, has the id and the name that were asked for and is marked as default, and every default
  -- of the service has that id.
  update-sole_default :
      (sender row : SmsSender) (t t' : Table)
      → sender.is_default ≡ true
      → update_service_sms_sender fails sender t ≡ ok (some row, t')
      → Among row t'
        × (row.id ≡ sender.id)
        × (row.sms_sender ≡ sender.sms_sender)
        × (row.is_default ≡ true)
        × All (IsOnly sender.service_id sender.id) t'
  unfolding set_row
  update-sole_default sender row t t' d e =
      let h = promoted-IsUpdate sender row t t' d e in
      let (found, f, same) = found_row (update_of sender) h.cleared_table t' row h.set in
      let (id, m) = row_with-Among (update_of sender) h.cleared_table found f in
      let after = updated_table fails (update_of sender) h.cleared_table t' row h.set in
      (
        rw (after, same) m,
        rw same id,
        rw same refl,
        rw same d,
        rw after (
            All-map _ _ (set_row (update_of sender)) h.cleared_table
              (λ r only. elim (Bool-cases (r.id =s= sender.id)) [
                | inl k ↦ rw k (λ _. k)
                | inr k ↦ rw k only
              ])
              (cleared-IsOnly fails sender.service_id sender.id t h.cleared_table h.emptied)),
      )
