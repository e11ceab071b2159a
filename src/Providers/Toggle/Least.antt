-- ===== src/Providers/Toggle/Least.antt =====
-- The first row in the order of `GetCurrentProvider`.
use notification_api_spec.Base.{
  ℕ, String, ◌≡◌, ◌⊎◌, ◌<◌, ◌^◌, refl, ap, sym, subst, ◌∙◌, Bool, true, false, List, [], ◌∷◌, arith,
  ◌==◌, Among, GoError, ok, err, Outcome-cases, Bool-cases, inl, inr,
}
use notification_api_spec.Providers.{ProviderDetail}
use notification_api_spec.Providers.Toggle.{lt_int32, before, first_in_order}

pub lt_irrefl : (a : ℕ) → lt_int32 a a ≡ false
unfolding lt_int32
lt_irrefl a = ground arith

lt_asym : (a b : ℕ) → lt_int32 a b ≡ true → lt_int32 b a ≡ false
unfolding lt_int32
lt_asym a b h = ground arith

-- "Not less" is transitive.
not_lt_trans : (a b c : ℕ) → lt_int32 a b ≡ false → lt_int32 b c ≡ false → lt_int32 a c ≡ false
unfolding lt_int32
not_lt_trans a b c h k = ground arith

pub lt_total :
    (a b : ℕ) → a < 2 ^ 32 → b < 2 ^ 32 → lt_int32 a b ≡ false → (lt_int32 b a ≡ true) ⊎ (a ≡ b)
unfolding lt_int32
lt_total a b h k e = elim (Bool-cases (lt_int32 b a)) [
  | inl less ↦ inl less
  | inr more ↦ inr (ground (arith, more))
]

lt_apart : (a b : ℕ) → lt_int32 a b ≡ true → (b == a) ≡ false
unfolding lt_int32
lt_apart a b h = ground arith

module _ (collate : String → String → Bool) where
  pub before_less :
      (p q : ProviderDetail)
      → lt_int32 p.priority q.priority ≡ true
      → (before collate p q ≡ true) × (before collate q p ≡ false)
  unfolding before
  before_less p q h = (
    ground (arith, h),
    ground (arith, lt_asym p.priority q.priority h, lt_apart p.priority q.priority h),
  )

  pub before_tie :
      (p q : ProviderDetail)
      → p.priority ≡ q.priority
      → collate p.display_name q.display_name ≡ true
      → collate q.display_name p.display_name ≡ false
      → (before collate p q ≡ true) × (before collate q p ≡ false)
  unfolding before
  before_tie p q same up down = (
    ground (arith, same, up),
    ground (
      arith,
      same,
      down,
      ap (λ x. lt_int32 x p.priority) same,
      ap (λ x. lt_int32 q.priority x) same,
      lt_irrefl q.priority,
    ),
  )

  before_not_lt :
      (p q : ProviderDetail) → before collate p q ≡ true → lt_int32 q.priority p.priority ≡ false
  unfolding before
  before_not_lt p q h = elim (Bool-cases (lt_int32 p.priority q.priority)) [
    | inl less ↦ lt_asym p.priority q.priority less
    | inr more ↦
        let same : p.priority ≡ q.priority = ground (arith, h, more) in
        ap (λ x. lt_int32 q.priority x) same ∙ lt_irrefl q.priority
  ]

  not_before_not_lt :
      (p q : ProviderDetail) → before collate p q ≡ false → lt_int32 p.priority q.priority ≡ false
  unfolding before
  not_before_not_lt p q h = ground (arith, h)

  pub first_in_order-Among :
      (rows : List ProviderDetail) (m : ProviderDetail)
      → first_in_order collate rows ≡ ok m
      → Among m rows
  unfolding first_in_order
  first_in_order-Among [] m e = absurd (ground (arith, e))
  first_in_order-Among (row ∷ rows) m e = elim (Outcome-cases (first_in_order collate rows)) [
    | inr (x, none_left) ↦ let same : row ≡ m = ground (arith, none_left, e) in inl (sym same)
    | inl (best, found) ↦ elim (Bool-cases (before collate best row)) [
      | inl first ↦
          let same : best ≡ m = ground (arith, found, first, e) in
          inr (subst (λ x. Among x rows) same (first_in_order-Among rows best found))
      | inr later ↦ let same : row ≡ m = ground (arith, found, later, e) in inl (sym same)
    ]
  ]

  no_member :
      (rows : List ProviderDetail) (r : ProviderDetail) (x : GoError)
      → first_in_order collate rows ≡ err x
      → ¬ Among r rows
  unfolding first_in_order
  no_member [] r x e m = m
  no_member (row ∷ rows) r x e m = elim (Outcome-cases (first_in_order collate rows)) [
    | inr (y, none_left) ↦ ground (arith, none_left, e)
    | inl (best, found) ↦ elim (Bool-cases (before collate best row)) [
      | inl first ↦ ground (arith, found, first, e)
      | inr later ↦ ground (arith, found, later, e)
    ]
  ]

  -- No row has a priority before that of the first.
  pub first_in_order-least :
      (rows : List ProviderDetail) (m r : ProviderDetail)
      → first_in_order collate rows ≡ ok m
      → Among r rows
      → lt_int32 r.priority m.priority ≡ false
  unfolding first_in_order
  first_in_order-least [] m r e k = absurd k
  first_in_order-least (row ∷ rows) m r e k = elim (Outcome-cases (first_in_order collate rows)) [
    | inr (x, none_left) ↦
        let same : row ≡ m = ground (arith, none_left, e) in
        elim k [
          | inl here ↦ ap (λ y. lt_int32 y.priority m.priority) (here ∙ same) ∙ lt_irrefl m.priority
          | inr later ↦ absurd (no_member rows r x none_left later)
        ]
    | inl (best, found) ↦ elim (Bool-cases (before collate best row)) [
      | inl first ↦
          let same : best ≡ m = ground (arith, found, first, e) in
          subst (λ y. lt_int32 r.priority y.priority ≡ false) same
            (elim k [
              | inl here ↦
                  ap (λ y. lt_int32 y.priority best.priority) here ∙ before_not_lt best row first
              | inr later ↦ first_in_order-least rows best r found later
            ])
      | inr later ↦
          let same : row ≡ m = ground (arith, found, later, e) in
          subst (λ y. lt_int32 r.priority y.priority ≡ false) same
            (elim k [
              | inl here ↦ ap (λ y. lt_int32 y.priority row.priority) here ∙ lt_irrefl row.priority
              | inr k' ↦
                  not_lt_trans r.priority best.priority row.priority
                    (first_in_order-least rows best r found k') (not_before_not_lt best row later)
            ])
    ]
  ]

  -- A row that stands before all others is the first.
  pub first_in_order_lem :
      (rows : List ProviderDetail) (m : ProviderDetail)
      → Among m rows
      → ((r : ProviderDetail)
          → Among r rows
          → (r ≡ m) ⊎ ((before collate m r ≡ true) × (before collate r m ≡ false)))
      → first_in_order collate rows ≡ ok m
  unfolding first_in_order
  first_in_order_lem [] m k d = absurd k
  first_in_order_lem (row ∷ rows) m k d = elim k [
    | inl here ↦ elim (Outcome-cases (first_in_order collate rows)) [
      | inr (x, none_left) ↦ ground (arith, none_left, here)
      | inl (best, found) ↦ elim (d best (inr (first_in_order-Among rows best found))) [
        | inl same ↦ elim (Bool-cases (before collate best row)) [
          | inl first ↦ ground (arith, found, first, same)
          | inr later ↦ ground (arith, found, later, here)
        ]
        | inr (_, later) ↦ ground (arith, found, ap (before collate best) here, later, here)
      ]
    ]
    | inr k' ↦
        let found = first_in_order_lem rows m k' (λ r n. d r (inr n)) in
        elim (d row (inl refl)) [
          | inl same ↦ elim (Bool-cases (before collate m row)) [
            | inl first ↦ ground (arith, found, first)
            | inr later ↦ ground (arith, found, later, same)
          ]
          | inr (first, _) ↦ ground (arith, found, first)
        ]
  ]
