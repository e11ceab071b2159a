-- ===== src/Services/Callbacks/Resigned.antt =====
-- Tokens of callbacks after `ResignServiceCallbacks`.
use notification_api_spec.Base.{
  ℕ, ◌≡◌, refl, ap, sym, subst, ◌∙◌, String, Bool, true, false, not, List, [], ◌∷◌, ◌=s=◌, ok,
  arith, Among, Among-select, inl, inr, Outcome-cases, Option-cases,
}
use notification_api_spec.Base.Members.{select-Among}
use notification_api_spec.Delivery.{Uuid}
use notification_api_spec.Signing.Token.{Hashes}
use notification_api_spec.Signing.Token.RoundTrip.{GivesBytes}
use notification_api_spec.Services.{
  RepositoryConfig, Failures, begin, commit, list_signed_callbacks,
}
use notification_api_spec.Services.Tokens.{sign_bearer_token, unsign_bearer_token}
use notification_api_spec.Services.Tokens.Rotation.{Reads, unsign-sign_bearer}
use notification_api_spec.Services.Callbacks.Updates.{Agrees, token_arrives}
use notification_api_spec.Services.Callbacks.{Callback, CallbackTables}
use notification_api_spec.Services.Callbacks.Resign.{
  TokenUpdate, signed_callbacks, set_token, read_token, resign_row, resign_rows, put_tokens,
  resign_service_callbacks,
}

-- The ids of a table differ.
abbrev pub IsUnique : List Callback → Type 0
IsUnique rows = (r r' : Callback) → Among r rows → Among r' rows → r.id ≡ r'.id → r ≡ r'

module _ (h : Hashes) (cfg : RepositoryConfig) where
  module _ (now : Uuid → ℕ) (unsafe : Bool) where
    rows_cover :
        (rows : List Callback) (count : ℕ) (updates : List TokenUpdate) (row : Callback)
        → resign_rows h cfg now unsafe rows ≡ (count, ok updates)
        → Among row rows
        → (update : TokenUpdate) × (resign_row h cfg now unsafe row ≡ ok update)
          × Among update updates
    unfolding resign_rows
    rows_cover [] count updates row e m = absurd m
    rows_cover (item ∷ items) count updates row e m =
        elim (Outcome-cases (resign_row h cfg now unsafe item)) [
          | inr (x, failed) ↦ absurd (ground (arith, failed, e))
          | inl (update, done) ↦ elim (Outcome-cases (resign_rows h cfg now unsafe items).1) [
            | inr (x, failed) ↦ absurd (ground (arith, done, failed, e))
            | inl (rest, went) ↦
                let its : updates ≡ update ∷ rest = ground (arith, done, went, e) in
                elim m [
                  | inl here ↦ (
                    update,
                    subst (λ r. resign_row h cfg now unsafe r ≡ ok update) (sym here) done,
                    subst (Among update) (sym its) (inl refl),
                  )
                  | inr m' ↦
                      let (u, d, k) =
                        rows_cover items (resign_rows h cfg now unsafe items).0 rest row
                          (ap (λ x. ((resign_rows h cfg now unsafe items).0, x)) went) m' in
                      (u, d, subst (Among u) (sym its) (inr k))
                ]
          ]
        ]

    rows_only :
        (rows : List Callback) (count : ℕ) (updates : List TokenUpdate) (update : TokenUpdate)
        → resign_rows h cfg now unsafe rows ≡ (count, ok updates)
        → Among update updates
        → (row : Callback) × Among row rows × (resign_row h cfg now unsafe row ≡ ok update)
    unfolding resign_rows
    rows_only [] count updates update e m =
        let its : updates ≡ [] = ground (arith, e) in absurd (subst (Among update) its m)
    rows_only (item ∷ items) count updates update e m =
        elim (Outcome-cases (resign_row h cfg now unsafe item)) [
          | inr (x, failed) ↦ absurd (ground (arith, failed, e))
          | inl (first, done) ↦ elim (Outcome-cases (resign_rows h cfg now unsafe items).1) [
            | inr (x, failed) ↦ absurd (ground (arith, done, failed, e))
            | inl (rest, went) ↦
                let its : updates ≡ first ∷ rest = ground (arith, done, went, e) in
                elim (subst (Among update) its m) [
                  | inl here ↦ (item, inl refl, done ∙ ap ok (sym here))
                  | inr m' ↦
                      let (r, k, d) =
                        rows_only items (resign_rows h cfg now unsafe items).0 rest update
                          (ap (λ x. ((resign_rows h cfg now unsafe items).0, x)) went) m' in
                      (r, inr k, d)
                ]
          ]
        ]

    resign_row_lem :
        (row : Callback) (update : TokenUpdate)
        → resign_row h cfg now unsafe row ≡ ok update
        → (plaintext : String) × (read_token h cfg unsafe row.bearer_token ≡ ok plaintext)
          × (sign_bearer_token h cfg (now row.id) plaintext ≡ ok update.bearer_token)
          × (update.id ≡ row.id)
    unfolding resign_row
    resign_row_lem row update e = elim (Outcome-cases (read_token h cfg unsafe row.bearer_token)) [
      | inr (x, failed) ↦ absurd (ground (arith, failed, e))
      | inl (plaintext, read) ↦
          elim (Outcome-cases (sign_bearer_token h cfg (now row.id) plaintext)) [
            | inr (x, failed) ↦ absurd (ground (arith, read, failed, e))
            | inl (token, signed) ↦
                let its : record { id = row.id; bearer_token = token } ≡ update =
                  ground (arith, read, signed, e) in
                (
                  plaintext,
                  read,
                  signed ∙ ap (λ u. ok u.bearer_token) its,
                  sym (ap (λ u. u.id) its),
                )
          ]
    ]

  module _ (fails : Failures) where
    resign_ends :
        (now : Uuid → ℕ) (unsafe : Bool) (count : ℕ) (t t' : CallbackTables)
        → resign_service_callbacks h cfg fails now true unsafe t ≡ ((count, ok tt), t')
        → (updates : List TokenUpdate) × (resign_rows h cfg now unsafe
              (signed_callbacks t.callbacks)
            ≡ (count, ok updates))
          × (put_tokens h cfg fails updates t.callbacks ≡ ok t'.callbacks)
    unfolding resign_service_callbacks
    resign_ends now unsafe count t t' e =
        let made = resign_rows h cfg now unsafe (signed_callbacks t.callbacks) in
        elim (Option-cases (fails begin)) [
          | inr (x, failed) ↦ absurd (ground (arith, failed, e))
          | inl begun ↦ elim (Option-cases (fails list_signed_callbacks)) [
            | inr (x, failed) ↦ absurd (ground (arith, begun, failed, e))
            | inl listed ↦ elim (Outcome-cases made.1) [
              | inr (x, failed) ↦ absurd (ground (arith, begun, listed, failed, e))
              | inl (updates, signed) ↦
                  elim (Outcome-cases (put_tokens h cfg fails updates t.callbacks)) [
                    | inr (x, failed) ↦ absurd (ground (arith, begun, listed, signed, failed, e))
                    | inl (rows, put) ↦ elim (Option-cases (fails commit)) [
                      | inr (x, failed) ↦
                          absurd (ground (arith, begun, listed, signed, put, failed, e))
                      | inl committed ↦
                          let ends : (made.0 ≡ count) × (rows ≡ t'.callbacks) =
                            ground (arith, begun, listed, signed, put, committed, e) in
                          (
                            updates,
                            ap (λ x. (made.0, x)) signed ∙ ap (λ n. (n, ok updates)) ends.0,
                            put ∙ ap ok ends.1,
                          )
                    ]
                  ]
            ]
          ]
        ]

    -- After a signing of all tokens anew, in a table whose ids differ, where HMAC gives bytes, a
    -- callback with a token that could be read stands there with a token that is read as the plaintext
    -- of the old one, with any secrets that have the current one; the callback is otherwise as it was.
    pub resign_keeps :
        (later : RepositoryConfig) (now : Uuid → ℕ) (unsafe : Bool) (count : ℕ)
        (t t' : CallbackTables) (row : Callback) (plaintext : String)
        → resign_service_callbacks h cfg fails now true unsafe t ≡ ((count, ok tt), t')
        → GivesBytes h
        → Reads h cfg later
        → IsUnique t.callbacks
        → Among row t.callbacks
        → row.bearer_token =s= "" ≡ false
        → read_token h cfg unsafe row.bearer_token ≡ ok plaintext
        → (token : String) × Among (set_token token row) t'.callbacks
          × (unsign_bearer_token h later token ≡ ok plaintext)
    unfolding signed_callbacks
    resign_keeps later now unsafe count t t' row plaintext e bytes r unique m filled read =
        let (updates, signed, put) = resign_ends now unsafe count t t' e in
        let listed =
          select-Among (λ row. not (row.bearer_token =s= "")) t.callbacks row m
            (ground (arith, filled)) in
        let (update, done, k) =
          rows_cover now unsafe (signed_callbacks t.callbacks) count updates row signed listed in
        let (p, read', its_token, its_id) = resign_row_lem now unsafe row update done in
        let agrees : Agrees h cfg row update.bearer_token updates = λ u n same.
          let (row', m', done') =
            rows_only now unsafe (signed_callbacks t.callbacks) count updates u signed n in
          let its' = resign_row_lem now unsafe row' u done' in
          let one : row' ≡ row =
            unique row' row (Among-select _ t.callbacks row' m').0 m (sym its'.3 ∙ same) in
          let both : ok u ≡ ok update = sym done' ∙ ap (resign_row h cfg now unsafe) one ∙ done in
          ground (arith, both) in
        let same_plaintext : p ≡ plaintext = ground (arith, read, read') in
        (
          update.bearer_token,
          token_arrives h cfg fails updates t.callbacks t'.callbacks row update.bearer_token update
              put agrees m k its_id,
          unsign-sign_bearer h cfg later (now row.id) p update.bearer_token bytes r its_token
              ∙ ap ok same_plaintext,
        )
