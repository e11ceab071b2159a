-- ===== src/Contacts/ReplyTos/Archived.antt =====
-- What `ArchiveReplyToEmailAddress` leaves.
use notification_api_spec.Base.{
  ◌≡◌, ◌⊎◌, ap, sym, subst, ◌∙◌, true, false, not, Option, some, List, [], ◌∷◌, map, length, ltb,
  ◌&&◌, ◌=s=◌, select, GoError, ok, arith, All, Among, Among-select, inl, inr, Bool-cases,
  Option-cases, eq_iff,
}
use notification_api_spec.Base.Members.{All-map, All-Among, All-elim, map-Among, select-Among}
use notification_api_spec.Delivery.{Uuid}
use notification_api_spec.Contacts.ReplyTos.{
  ReplyTo, Table, Query, begin, select_reply_tos, UpdateParams, counts_as_default, find_reply_to,
  set_row, row_with, in_service, update_of, unless_failed, get_reply_tos, update_reply_to_row,
  with_current, archive_reply_to_email_address,
}

abbrev archiving : ReplyTo → UpdateParams
archiving current = record (update_of current) { is_default = false; archived = true }

find_reply_to_lem :
    (items : List ReplyTo) (id : Uuid) (current : ReplyTo)
    → find_reply_to items id ≡ some current
    → Among current items × (current.id ≡ id)
unfolding find_reply_to
find_reply_to_lem [] id current e = absurd (ground (arith, e))
find_reply_to_lem (item ∷ items) id current e =
    elim (Bool-cases (item.id =s= id && not item.archived)) [
      | inl here ↦
          let same : item ≡ current = ground (arith, here, e) in
          (inl (sym same), ap (λ r. r.id) (sym same) ∙ ground (arith, eq_iff item.id id, here))
      | inr other ↦
          let (m, same) = find_reply_to_lem items id current (ground (arith, other, e)) in
          (inr m, same)
    ]

-- The ids of a table differ.
abbrev pub IsUnique : Table → Type 0
IsUnique t = (r r' : ReplyTo) → Among r t → Among r' t → r.id ≡ r'.id → r ≡ r'

-- A list of one has one member.
sole_member :
    (items : List ReplyTo) (r r' : ReplyTo)
    → ltb 1 (length items) ≡ false
    → Among r items
    → Among r' items
    → r ≡ r'
sole_member [] r r' few m m' = absurd m
sole_member (x ∷ []) r r' few (inl a) (inl b) = a ∙ sym b
sole_member (x ∷ []) r r' few (inl a) (inr m') = absurd m'
sole_member (x ∷ []) r r' few (inr m) m' = absurd m
sole_member (x ∷ y ∷ items) r r' few m m' = absurd (ground (arith, few))

module _ (fails : Query → Option GoError) where
  archive_ends :
      (service_id id : Uuid) (row : ReplyTo) (t t' : Table)
      → archive_reply_to_email_address fails service_id id t ≡ ok (some row, t')
      → (current : ReplyTo) × (find_reply_to (select (in_service service_id) t) id ≡ some current)
        × (current.is_default && ltb 1 (length (select (in_service service_id) t)) ≡ false)
        × (t' ≡ map (set_row (archiving current)) t)
        × (row.archived ≡ true)
  unfolding archive_reply_to_email_address with_current unless_failed get_reply_tos
      update_reply_to_row
  archive_ends service_id id row t t' e =
      let items = select (in_service service_id) t in
      elim (Option-cases (fails begin)) [
        | inr (x, failed) ↦ absurd (ground (arith, failed, e))
        | inl begun ↦ elim (Option-cases (fails (select_reply_tos service_id))) [
          | inr (x, failed) ↦ absurd (ground (arith, begun, failed, e))
          | inl listed ↦ elim (Option-cases (find_reply_to items id)) [
            | inl n ↦ absurd (ground (arith, begun, listed, n, e))
            | inr (current, f) ↦ elim (Bool-cases (current.is_default && ltb 1 (length items))) [
              | inl refused ↦ absurd (ground (arith, begun, listed, f, refused, e))
              | inr allowed ↦ elim (Option-cases (row_with current.id t)) [
                | inl gone ↦ absurd (ground (arith, begun, listed, f, allowed, gone, e))
                | inr (old, there) ↦
                    let ends : (t' ≡ map (set_row (archiving current)) t) × (row.archived ≡ true) =
                      ground (arith, begun, listed, f, allowed, there, e) in
                    (current, f, allowed, ends.0, ends.1)
              ]
            ]
          ]
        ]
      ]

  -- Archiving a reply-to address, in a table whose ids differ: if it succeeds, every default of any
  -- service is still in the table, or the service has no address left.
  pub archive_default :
      (service_id id : Uuid) (row : ReplyTo) (t t' : Table)
      → IsUnique t
      → archive_reply_to_email_address fails service_id id t ≡ ok (some row, t')
      → (row.archived ≡ true)
        × ((r : ReplyTo)
            → Among r t
            → counts_as_default r ≡ true
            → Among r t' ⊎ ((r' : ReplyTo) → Among r' t' → in_service r.service_id r' ≡ false))
  unfolding set_row
  archive_default service_id id row t t' unique e =
      let (current, f, allowed, table, its) = archive_ends service_id id row t t' e in
      let items = select (in_service service_id) t in
      let (listed, its_id) = find_reply_to_lem items id current f in
      let (m, mine) = Among-select (in_service service_id) t current listed in
      (
        its,
        λ r n d. elim (Bool-cases (r.id =s= current.id)) [
          | inr other ↦
              let stays : set_row (archiving current) r ≡ r = ground (arith, other) in
              inl (
                subst (Among r) (sym table) (
                  subst (λ x. Among x (map (set_row (archiving current)) t)) stays
                    (map-Among (set_row (archiving current)) t r n)))
          | inl same ↦
              let this : r ≡ current =
                unique r current n m (ground (arith, eq_iff r.id current.id, same)) in
              let few : ltb 1 (length items) ≡ false =
                ground (arith, allowed, ap (λ x. x.is_default) this, d) in
              let its_service : r.service_id ≡ service_id =
                ap (λ x. x.service_id) this
                ∙ ground (arith, eq_iff current.service_id service_id, mine) in
              let gone : All (λ x. in_service service_id x ≡ false)
                  (map (set_row (archiving current)) t) =
                All-map (λ x. Among x t) (λ x. in_service service_id x ≡ false)
                  (set_row (archiving current)) t
                  (λ x k. elim (Bool-cases (x.id =s= current.id)) [
                    | inl hit ↦ ground (arith, hit)
                    | inr miss ↦ elim (Bool-cases (in_service service_id x)) [
                      | inr outside ↦ ground (arith, miss, outside)
                      | inl inside ↦
                          let one =
                            sole_member items x current few
                              (select-Among (in_service service_id) t x k inside) listed in
                          absurd (ground (arith, miss, ap (λ y. y.id) one, eq_iff x.id current.id))
                    ]
                  ])
                  (All-Among (λ x. Among x t) t (λ x k. k)) in
              inr (λ r' k.
                ap (λ s. in_service s r') its_service
                ∙ All-elim (λ x. in_service service_id x ≡ false) t' r' k
                    (subst (All (λ x. in_service service_id x ≡ false)) (sym table) gone))
        ],
      )
