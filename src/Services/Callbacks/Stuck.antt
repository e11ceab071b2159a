-- ===== src/Services/Callbacks/Stuck.antt =====
-- What `ResetServiceCallbackApi` and `SuspendUnsuspendCallbackApi` can return.
use notification_api_spec.Base.{
  ℕ, ◌≡◌, ◌≢◌, refl, ap, sym, ◌∙◌, String, Bool, true, Option, none, some, List, [], ◌∷◌, any,
  ◌=s=◌, Outcome, ok, err, GoError, no_rows, arith, Among, inl, inr, Among-select, Bool-cases,
  Outcome-cases, Option-cases, eq_refl,
}
use notification_api_spec.Base.Outcomes.{◌>>◌}
use notification_api_spec.Base.Members.{any-Among}
use notification_api_spec.Delivery.{Uuid}
use notification_api_spec.Signing.Token.{Hashes}
use notification_api_spec.Auth.Jwt.{Instant}
use notification_api_spec.Services.{
  RepositoryConfig, Failures, unless_failed, upsert_callback, list_callbacks, begin,
}
use notification_api_spec.Services.Callbacks.{
  Callback, CallbackTables, same_type, replaces, upsert_rows, callbacks_of, null_string,
  unsign_callback, unsign_found, first_of, with_id, get_callback_by_type, get_callback,
  store_callback, change_callback, given, callback_type_delivery_status, reset_callback,
  suspend_unsuspend_callback,
}
use notification_api_spec.Services.Tokens.{sign_bearer_token, unsign_bearer_token}

same_type_refl : (t : Option String) → same_type t t ≡ true
same_type_refl none = refl
same_type_refl (some s) = eq_refl s

-- A row that stands in the table for the same callback as `row`.
abbrev HasRow : Callback → List Callback → Type 0
HasRow row rows =
    (item : Callback) × Among item rows
    × (item.service_id ≡ row.service_id)
    × (item.callback_type ≡ row.callback_type)

HasRow-replaces :
    (row : Callback) (rows : List Callback) → HasRow row rows → any (replaces row) rows ≡ true
HasRow-replaces row rows (item, m, s, ty) = any-Among (replaces row) rows item m (
    ground (
      arith,
      ap (λ x. x =s= row.service_id) s,
      eq_refl row.service_id,
      ap (λ x. same_type x row.callback_type) ty,
      same_type_refl row.callback_type,
    ))

with_id-Among :
    (id : Uuid) (items : List Callback) (item : Callback)
    → with_id id items ≡ some item
    → Among item items
unfolding with_id
with_id-Among id [] item e = absurd (ground (arith, e))
with_id-Among id (x ∷ items) item e = elim (Bool-cases (x.id =s= id)) [
  | inl here ↦ let same : x ≡ item = ground (arith, here, e) in inl (sym same)
  | inr other ↦ inr (with_id-Among id items item (ground (arith, other, e)))
]

first_of-Among :
    (items : List Callback) (item : Callback) → first_of items ≡ some item → Among item items
first_of-Among [] item e = absurd (ground (arith, e))
first_of-Among (x ∷ items) item e = let same : x ≡ item = ground (arith, e) in inl (sym same)

callbacks_of-Among :
    (service_id : Uuid) (ty : Option String) (rows : List Callback) (item : Callback)
    → Among item (callbacks_of service_id ty rows)
    → Among item rows
unfolding callbacks_of
callbacks_of-Among service_id ty rows item m = (Among-select _ rows item m).0

-- The call returns no callback and leaves the tables as they were.
abbrev pub ReturnsNothing : Outcome (Option Callback) × CallbackTables → CallbackTables → Type 0
ReturnsNothing r t = ((item : Callback) → r.0 ≢ ok (some item)) × (r.1 ≡ t)

module _ (h : Hashes) (cfg : RepositoryConfig) where
  found_row :
      (found : Option Callback) (current : Callback) (rows : List Callback)
      → unsign_found h cfg found ≡ ok (some current)
      → ((item : Callback) → found ≡ some item → Among item rows)
      → HasRow current rows
  unfolding unsign_callback
  found_row none current rows e m = absurd (ground (arith, e))
  found_row (some item) current rows e m =
      elim (Outcome-cases (unsign_bearer_token h cfg item.bearer_token)) [
        | inr (x, failed) ↦ absurd (ground (arith, failed, e))
        | inl (token, done) ↦
            let same : record item { bearer_token = token } ≡ current = ground (arith, done, e) in
            (item, m item refl, ap (λ c. c.service_id) same, ap (λ c. c.callback_type) same)
      ]

  module _ (fails : Failures) where
    get_callback-HasRow :
        (service_id id : Uuid) (t : CallbackTables) (current : Callback)
        → get_callback h cfg fails service_id id t ≡ ok (some current)
        → HasRow current t.callbacks
    unfolding get_callback
    get_callback-HasRow service_id id t current e =
        elim (Option-cases (fails (list_callbacks service_id))) [
          | inr (x, failed) ↦ absurd (ground (arith, failed, e))
          | inl works ↦
              found_row (with_id id (callbacks_of service_id none t.callbacks)) current t.callbacks
                (ground (arith, works, e))
                (λ item f.
                  callbacks_of-Among service_id none t.callbacks item (with_id-Among id _ item f))
        ]

    get_callback_by_type-HasRow :
        (service_id : Uuid) (ty : String) (t : CallbackTables) (current : Callback)
        → get_callback_by_type h cfg fails service_id ty t ≡ ok (some current)
        → HasRow current t.callbacks
    unfolding get_callback_by_type
    get_callback_by_type-HasRow service_id ty t current e =
        elim (Option-cases (fails (list_callbacks service_id))) [
          | inr (x, failed) ↦ absurd (ground (arith, failed, e))
          | inl works ↦
              found_row (first_of (callbacks_of service_id (null_string ty) t.callbacks)) current
                t.callbacks (ground (arith, works, e))
                (λ item f.
                  callbacks_of-Among service_id (null_string ty) t.callbacks item
                    (first_of-Among _ item f))
        ]

    -- The statement adds no row where the table has one, and so returns none.
    store_fails :
        (row : Callback) (t : CallbackTables)
        → HasRow row t.callbacks
        → (e : GoError) × (store_callback h cfg fails row t ≡ (err e, t))
    unfolding store_callback upsert_rows
    store_fails row t has = elim (Option-cases (fails (upsert_callback row.service_id))) [
      | inr (x, failed) ↦ (x, ground (arith, HasRow-replaces row t.callbacks has, failed))
      | inl works ↦ (no_rows ∷ [], ground (arith, HasRow-replaces row t.callbacks has, works))
    ]

    refused :
        (e : GoError) (r : Outcome (Option Callback) × CallbackTables) (t : CallbackTables)
        → r ≡ (err e, t)
        → ReturnsNothing r t
    refused e r t failed = (λ item x. ground (arith, x, failed), ground (arith, failed))

    change-ReturnsNothing :
        (read : Outcome (Option Callback)) (change : Callback → Outcome Callback)
        (t : CallbackTables)
        → ((current updated : Callback)
            → read ≡ ok (some current)
            → change current ≡ ok updated
            → HasRow updated t.callbacks)
        → ReturnsNothing (change_callback h cfg fails read change t) t
    unfolding change_callback
    change-ReturnsNothing (err e) change t has = (λ item x. ground (arith, x), refl)
    change-ReturnsNothing (ok none) change t has = (λ item x. ground (arith, x), refl)
    change-ReturnsNothing (ok (some current)) change t has = elim (Outcome-cases (change current)) [
      | inr (e, failed) ↦
          refused e (change_callback h cfg fails (ok (some current)) change t) t
            (ground (arith, failed))
      | inl (updated, done) ↦
          let (e, stored) = store_fails updated t (has current updated refl done) in
          refused e (change_callback h cfg fails (ok (some current)) change t) t
            (ground (arith, done, stored))
    ]

    -- What a change makes of a callback, its service and its type stay.
    KeepsPlace : (Callback → Outcome Callback) → Type 0
    KeepsPlace change =
        (current updated : Callback)
        → change current ≡ ok updated
        → (current.service_id ≡ updated.service_id)
          × (current.callback_type ≡ updated.callback_type)

    moved :
        (current updated : Callback) (rows : List Callback)
        → HasRow current rows
        → (current.service_id ≡ updated.service_id)
          × (current.callback_type ≡ updated.callback_type)
        → HasRow updated rows
    moved current updated rows (item, m, s, ty) (s', ty') = (item, m, s ∙ s', ty ∙ ty')

    begun :
        {A : Type 0} (r : Outcome A) (a : A)
        → (unless_failed fails begin (ok tt) >> r) ≡ ok a
        → r ≡ ok a
    begun r a e = elim (Option-cases (fails begin)) [
      | inr (x, failed) ↦ absurd (ground (arith, failed, e))
      | inl works ↦ ground (arith, works, e)
    ]

    -- Neither `ResetServiceCallbackApi` nor `SuspendUnsuspendCallbackApi` ever returns a callback,
    -- and both leave the tables as they were: the statement that updates a callback returns no row.
    pub change_returns_nothing :
        (now : Instant) (seconds : ℕ) (service_id callback_id user : Uuid)
        (url token : Option String) (suspend : Bool) (t : CallbackTables)
        → ReturnsNothing
            (reset_callback h cfg fails now seconds service_id callback_id user url token t)
            t
          × ReturnsNothing
              (suspend_unsuspend_callback h cfg fails now seconds service_id user suspend t)
              t
    unfolding reset_callback suspend_unsuspend_callback
    change_returns_nothing now seconds service_id callback_id user url token suspend t = (
      change-ReturnsNothing _ _ t (λ current updated e c.
          moved current updated t.callbacks
            (get_callback-HasRow service_id callback_id t current
              (begun (get_callback h cfg fails service_id callback_id t) (some current) e))
            (elim (Outcome-cases
              (sign_bearer_token h cfg seconds (given token current.bearer_token))) [
                | inr (x, failed) ↦ absurd (ground (arith, failed, c))
                | inl (signed, done) ↦ (ground (arith, done, c), ground (arith, done, c))
              ])),
      change-ReturnsNothing _ _ t (λ current updated e c.
          moved current updated t.callbacks
            (get_callback_by_type-HasRow service_id callback_type_delivery_status t current (
              begun (get_callback_by_type h cfg fails service_id callback_type_delivery_status t)
                (some current) e))
            (elim (Outcome-cases (sign_bearer_token h cfg seconds current.bearer_token)) [
              | inr (x, failed) ↦ absurd (ground (arith, failed, c))
              | inl (signed, done) ↦ (ground (arith, done, c), ground (arith, done, c))
            ])),
    )
