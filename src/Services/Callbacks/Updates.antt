-- ===== src/Services/Callbacks/Updates.antt =====
-- What the updates of `ResignServiceCallbacks` leave of a row.
use notification_api_spec.Base.{
  ◌≡◌, refl, ap, sym, subst, String, List, [], ◌∷◌, map, ◌=s=◌, ok, arith, Among, inl, inr,
  Bool-cases, Option-cases, eq_iff,
}
use notification_api_spec.Base.Members.{map-Among}
use notification_api_spec.Signing.Token.{Hashes}
use notification_api_spec.Services.{RepositoryConfig, Failures, update_callback_token}
use notification_api_spec.Services.Callbacks.{Callback}
use notification_api_spec.Services.Callbacks.Resign.{TokenUpdate, set_token, put_token, put_tokens}

module _ (h : Hashes) (cfg : RepositoryConfig) where
  -- Every update of the row sets this token.
  abbrev pub Agrees : Callback → String → List TokenUpdate → Type 0
  Agrees row token updates =
      (u : TokenUpdate) → Among u updates → u.id ≡ row.id → u.bearer_token ≡ token

  put_token_hit :
      (update : TokenUpdate) (row : Callback) (token : String)
      → update.id ≡ row.id
      → update.bearer_token ≡ token
      → put_token update row ≡ set_token token row
  unfolding put_token
  put_token_hit update row token same its = ground (arith, eq_iff row.id update.id, same, its)

  module _ (fails : Failures) where
    put_tokens_step :
        (update : TokenUpdate) (updates : List TokenUpdate) (rows rows' : List Callback)
        → put_tokens h cfg fails (update ∷ updates) rows ≡ ok rows'
        → put_tokens h cfg fails updates (map (put_token update) rows) ≡ ok rows'
    unfolding put_tokens
    put_tokens_step update updates rows rows' e =
        elim (Option-cases (fails (update_callback_token update.id))) [
          | inr (x, failed) ↦ absurd (ground (arith, failed, e))
          | inl works ↦ ground (arith, works, e)
        ]

    -- A row that has its token keeps it.
    token_stays :
        (updates : List TokenUpdate) (rows rows' : List Callback) (row : Callback) (token : String)
        → put_tokens h cfg fails updates rows ≡ ok rows'
        → Agrees row token updates
        → Among (set_token token row) rows
        → Among (set_token token row) rows'
    unfolding put_tokens put_token
    token_stays [] rows rows' row token e a m =
        let same : rows ≡ rows' = ground (arith, e) in subst (Among (set_token token row)) same m
    token_stays (u ∷ updates) rows rows' row token e a m =
        token_stays updates (map (put_token u) rows) rows' row token
          (put_tokens_step u updates rows rows' e) (λ x k. a x (inr k))
          (elim (Bool-cases (row.id =s= u.id)) [
            | inl hit ↦
                let its = a u (inl refl) (sym (ground (arith, eq_iff row.id u.id, hit))) in
                subst (λ r. Among r (map (put_token u) rows))
                  (put_token_hit u (set_token token row) token
                    (sym (ground (arith, eq_iff row.id u.id, hit))) its)
                  (map-Among (put_token u) rows (set_token token row) m)
            | inr miss ↦
                let its : put_token u (set_token token row) ≡ set_token token row =
                  ground (arith, miss) in
                subst (λ r. Among r (map (put_token u) rows)) its
                  (map-Among (put_token u) rows (set_token token row) m)
          ])

    pub token_arrives :
        (updates : List TokenUpdate) (rows rows' : List Callback) (row : Callback) (token : String)
        (update : TokenUpdate)
        → put_tokens h cfg fails updates rows ≡ ok rows'
        → Agrees row token updates
        → Among row rows
        → Among update updates
        → update.id ≡ row.id
        → Among (set_token token row) rows'
    unfolding put_token
    token_arrives [] rows rows' row token update e a m k its = absurd k
    token_arrives (u ∷ updates) rows rows' row token update e a m k its =
        let went = put_tokens_step u updates rows rows' e in
        elim (Bool-cases (row.id =s= u.id)) [
          | inl hit ↦
              let same : u.id ≡ row.id = sym (ground (arith, eq_iff row.id u.id, hit)) in
              token_stays updates (map (put_token u) rows) rows' row token went (λ x n. a x (inr n))
                (subst (λ r. Among r (map (put_token u) rows))
                  (put_token_hit u row token same (a u (inl refl) same))
                  (map-Among (put_token u) rows row m))
          | inr miss ↦
              let stays : put_token u row ≡ row = ground (arith, miss) in
              token_arrives updates (map (put_token u) rows) rows' row token update went
                (λ x n. a x (inr n))
                (subst (λ r. Among r (map (put_token u) rows)) stays
                  (map-Among (put_token u) rows row m))
                (elim k [
                  | inl here ↦
                      absurd (ground (arith, miss, eq_iff row.id u.id, ap (λ x. x.id) here, its))
                  | inr later ↦ later
                ])
                its
        ]
