-- ===== src/Services/Callbacks/Resign.antt =====
-- internal/repository/services/dao.go: `ResignServiceCallbacks`.
use notification_api_spec.Base.{
  ℕ, suc, String, Bool, not, List, [], ◌∷◌, map, select, ◌=s=◌, if◌then◌else◌, Outcome, ok, err,
}
use notification_api_spec.Base.Outcomes.{◌>>=◌, ◌>>◌}
use notification_api_spec.Delivery.{Uuid}
use notification_api_spec.Signing.Token.{Hashes}
use notification_api_spec.Services.{
  RepositoryConfig, begin, commit, rollback, update_callback_token, list_signed_callbacks, Failures,
  unless_failed,
}
use notification_api_spec.Services.Callbacks.{Callback, CallbackTables}
use notification_api_spec.Services.Tokens.{
  sign_bearer_token, unsign_bearer_token, unsign_bearer_token_unsafe,
}

-- `callbackTokenUpdate`
pub record TokenUpdate : Type 0 where
  pub id : Uuid
  pub bearer_token : String

-- The query for `ResignServiceCallbacks`, its order left out.
unfoldable pub signed_callbacks : List Callback → List Callback
signed_callbacks rows = select (λ row. not (row.bearer_token =s= "")) rows

abbrev pub set_token : String → Callback → Callback
set_token token row = record row { bearer_token = token }

-- The statement that updates the token of an id.
unfoldable pub put_token : TokenUpdate → Callback → Callback
put_token update row = if row.id =s= update.id then set_token update.bearer_token row else row

module _ (h : Hashes) (cfg : RepositoryConfig) where
  -- `ResignServiceCallbacks`: the plaintext of a token.
  unfoldable pub read_token : (unsafe : Bool) → String → Outcome String
  unfolding unsign_bearer_token unsign_bearer_token_unsafe
  read_token unsafe token = elim (unsign_bearer_token h cfg token) [
    | ok plaintext ↦ ok plaintext
    | err e ↦ if not unsafe then err e else unsign_bearer_token_unsafe h cfg token
  ]

  -- The update of one row, signed at the time `now`.
  unfoldable pub resign_row : (now : Uuid → ℕ) (unsafe : Bool) → Callback → Outcome TokenUpdate
  unfolding read_token sign_bearer_token
  resign_row now unsafe item = do
    plaintext ← read_token unsafe item.bearer_token
    resigned ← sign_bearer_token h cfg (now item.id) plaintext
    ok (record { id = item.id; bearer_token = resigned })

  -- The loop over the rows: how many were signed, and their updates if all were.
  unfoldable pub resign_rows :
      (now : Uuid → ℕ) (unsafe : Bool) → List Callback → ℕ × Outcome (List TokenUpdate)
  unfolding resign_row
  resign_rows now unsafe [] = (0, ok [])
  resign_rows now unsafe (item ∷ items) =
      let (count, rest) = resign_rows now unsafe items in
      elim (resign_row now unsafe item) [
        | err e ↦ (0, err e)
        | ok update ↦ (suc count, rest >>= λ updates. ok (update ∷ updates))
      ]

  module _ (fails : Failures) where
    -- The loop over the updates.
    unfoldable pub put_tokens : List TokenUpdate → List Callback → Outcome (List Callback)
    unfolding put_token
    put_tokens [] rows = ok rows
    put_tokens (update ∷ updates) rows =
        unless_failed fails (update_callback_token update.id) (ok tt)
        >> put_tokens updates (map (put_token update) rows)

    -- The count and the error that `ResignServiceCallbacks` returns, and the tables that it leaves.
    unfoldable pub resign_service_callbacks :
        (now : Uuid → ℕ) (resign unsafe : Bool)
        → CallbackTables
        → (ℕ × Outcome (Unit {0})) × CallbackTables
    unfolding signed_callbacks resign_rows put_tokens
    resign_service_callbacks now resign unsafe t =
        elim (unless_failed fails begin (ok tt)
          >> unless_failed fails list_signed_callbacks (ok (signed_callbacks t.callbacks))) [
            | err e ↦ ((0, err e), t)
            | ok items ↦
                let (count, signed) = resign_rows now unsafe items in
                elim signed [
                  | err e ↦ ((count, err e), t)
                  | ok updates ↦
                      if not resign
                      then ((count, unless_failed fails rollback (ok tt)), t)
                      else elim (put_tokens updates t.callbacks >>= λ rows.
                          unless_failed fails commit (ok rows)) [
                            | err e ↦ ((count, err e), t)
                            | ok rows ↦ ((count, ok tt), record t { callbacks = rows })
                          ]
                ]
          ]
