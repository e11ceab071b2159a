-- ===== src/Providers/Toggle/Rows.antt =====
-- What the updates of providers leave in the table.
use notification_api_spec.Base.{
  ◌≡◌, ◌≢◌, ◌⊎◌, refl, ap, sym, subst, ◌∙◌, Bool, true, List, [], ◌∷◌, arith, ◌=s=◌, eq_iff,
  eq_refl, Among, ok, Bool-cases, inl, inr,
}
use notification_api_spec.Providers.{ProviderDetail}
use notification_api_spec.Providers.Toggle.{first_row, replace_row}

pub first_row_lem :
    (p : ProviderDetail → Bool) (rows : List ProviderDetail) (row : ProviderDetail)
    → first_row p rows ≡ ok row
    → Among row rows × (p row ≡ true)
unfolding first_row
first_row_lem p [] row e = absurd (ground (arith, e))
first_row_lem p (r ∷ rows) row e = elim (Bool-cases (p r)) [
  | inl hit ↦
      let same : r ≡ row = ground (arith, hit, e) in
      (inl (sym same), subst (λ x. p x ≡ true) same hit)
  | inr miss ↦ let (m, t) = first_row_lem p rows row (ground (arith, miss, e)) in (inr m, t)
]

first_row-Among :
    (p : ProviderDetail → Bool) (rows : List ProviderDetail) (row : ProviderDetail)
    → Among row rows
    → p row ≡ true
    → (found : ProviderDetail) × (first_row p rows ≡ ok found)
unfolding first_row
first_row-Among p [] row m t = absurd m
first_row-Among p (r ∷ rows) row m t = elim (Bool-cases (p r)) [
  | inl hit ↦ (r, ground (arith, hit))
  | inr miss ↦ elim m [
    | inl here ↦ absurd (ground (arith, miss, ap p here, t))
    | inr later ↦
        let (found, e) = first_row-Among p rows row later t in (found, ground (arith, miss, e))
  ]
]

-- The ids of a table differ.
abbrev pub IsUnique : List ProviderDetail → Type 0
IsUnique rows = (r r' : ProviderDetail) → Among r rows → Among r' rows → r.id ≡ r'.id → r ≡ r'

pub row_of_id :
    (rows : List ProviderDetail) (row : ProviderDetail)
    → ((r : ProviderDetail) → Among r rows → r.id ≡ row.id → r ≡ row)
    → Among row rows
    → first_row (λ r. r.id =s= row.id) rows ≡ ok row
row_of_id rows row unique m =
    let (found, e) = first_row-Among (λ r. r.id =s= row.id) rows row m (eq_refl row.id) in
    let (k, t) = first_row_lem (λ r. r.id =s= row.id) rows found e in
    e ∙ ap ok (unique found k (ground (arith, t, eq_iff found.id row.id)))

-- A row of the new table is the updated one, or an old one of another id.
pub replace_row-cases :
    (row : ProviderDetail) (rows : List ProviderDetail) (r : ProviderDetail)
    → Among r (replace_row row rows)
    → (r ≡ row) ⊎ (Among r rows × (r.id ≢ row.id))
unfolding replace_row
replace_row-cases row [] r m = absurd m
replace_row-cases row (x ∷ rows) r m = elim (Bool-cases (x.id =s= row.id)) [
  | inl hit ↦ elim (rw hit at m) [
    | inl here ↦ inl here
    | inr later ↦ elim (replace_row-cases row rows r later) [
      | inl same ↦ inl same
      | inr (k, other) ↦ inr (inr k, other)
    ]
  ]
  | inr miss ↦ elim (rw miss at m) [
    | inl here ↦
        inr (inl here, λ e. ground (arith, miss, eq_iff x.id row.id, ap (λ y. y.id) (sym here) ∙ e))
    | inr later ↦ elim (replace_row-cases row rows r later) [
      | inl same ↦ inl same
      | inr (k, other) ↦ inr (inr k, other)
    ]
  ]
]

pub replace_row-new :
    (row : ProviderDetail) (rows : List ProviderDetail) (r : ProviderDetail)
    → Among r rows
    → r.id ≡ row.id
    → Among row (replace_row row rows)
unfolding replace_row
replace_row-new row [] r m e = absurd m
replace_row-new row (x ∷ rows) r m e = elim (Bool-cases (x.id =s= row.id)) [
  | inl hit ↦ rw hit (inl refl)
  | inr miss ↦ elim m [
    | inl here ↦ absurd (ground (arith, miss, eq_iff x.id row.id, ap (λ y. y.id) (sym here) ∙ e))
    | inr later ↦ rw miss (inr (replace_row-new row rows r later e))
  ]
]

pub replace_row-old :
    (row : ProviderDetail) (rows : List ProviderDetail) (r : ProviderDetail)
    → Among r rows
    → r.id ≢ row.id
    → Among r (replace_row row rows)
unfolding replace_row
replace_row-old row [] r m e = absurd m
replace_row-old row (x ∷ rows) r m e = elim (Bool-cases (x.id =s= row.id)) [
  | inl hit ↦ elim m [
    | inl here ↦ absurd (e (ap (λ y. y.id) here ∙ ground (arith, hit, eq_iff x.id row.id)))
    | inr later ↦ rw hit (inr (replace_row-old row rows r later e))
  ]
  | inr miss ↦ elim m [
    | inl here ↦ rw miss (inl here)
    | inr later ↦ rw miss (inr (replace_row-old row rows r later e))
  ]
]
