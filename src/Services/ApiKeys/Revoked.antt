-- ===== src/Services/ApiKeys/Revoked.antt =====
-- What `RevokeAPIKey` does to the table of keys.
use notification_api_spec.Base.{
  ◌≡◌, ◌≢◌, refl, ap, sym, subst, ◌∙◌, String, Bool, true, false, some, List, [], ◌∷◌, map, ◌=s=◌,
  ok, arith, All, Among, inl, inr, Bool-cases, Outcome-cases, eq_iff, Among-select,
}
use notification_api_spec.Base.Members.{All-map, All-Among, All-elim}
use notification_api_spec.Delivery.{Uuid}
use notification_api_spec.Auth.Jwt.{Instant, after}
use notification_api_spec.Auth.Cache.{ApiKey}
use notification_api_spec.Services.{Failures}
use notification_api_spec.Services.ApiKeys.{
  KeyTables, is_live, first_key, key_by_secret, keys_of_service, revoked_row, revoke_where,
  revoke_key_row, revoke_and_note, revoke_api_key,
}

pub first_key_lem :
    (test : ApiKey → Bool) (keys : List ApiKey) (key : ApiKey)
    → first_key test keys ≡ ok key
    → Among key keys × (test key ≡ true)
unfolding first_key
first_key_lem test [] key e = absurd (ground arith)
first_key_lem test (k ∷ keys) key e = elim (Bool-cases (test k)) [
  | inl yes_here ↦
      let same : k ≡ key = ground (arith, yes_here, e) in
      (inl (sym same), subst (λ x. test x ≡ true) same yes_here)
  | inr no_here ↦
      let (m, t) = first_key_lem test keys key (ground (arith, no_here, e)) in (inr m, t)
]

-- A row that a key of this id would be, is dead.
abbrev pub IsDead : Instant → Uuid → ApiKey → Type 0
IsDead later id key = key.id ≡ id → is_live later key ≡ false

-- Whatever row the test of the revocation picks is dead from then on.
revoke_where-IsDead :
    (now later : Instant) (id : Uuid) (key : ApiKey)
    → after now later ≡ false
    → IsDead later id (revoke_where now id key)
unfolding revoke_where
revoke_where-IsDead now later id key past = elim (Bool-cases (key.id =s= id)) [
  | inl same ↦ rw same (λ e. past)
  | inr other ↦ rw other (λ e. absurd (ground (arith, eq_iff key.id id, other, e)))
]

pub revoked-IsDead :
    (now later : Instant) (id : Uuid) (keys : List ApiKey)
    → after now later ≡ false
    → All (IsDead later id) (map (revoke_where now id) keys)
revoked-IsDead now later id keys past =
    All-map (λ key. Unit {0}) (IsDead later id) (revoke_where now id) keys
      (λ key _. revoke_where-IsDead now later id key past) (All-Among _ keys (λ key m. tt))

-- A dead key is found neither by its secret nor among the keys of its service.
pub dead_not_found :
    (later : Instant) (id : Uuid) (keys : List ApiKey)
    → All (IsDead later id) keys
    → ((v : String) (key : ApiKey) → key_by_secret later keys v ≡ ok key → key.id ≢ id)
      × ((s : Uuid) (key : ApiKey) → Among key (keys_of_service later keys s) → key.id ≢ id)
unfolding key_by_secret keys_of_service
dead_not_found later id keys dead = (
  λ v key found e.
      let (m, t) = first_key_lem _ keys key found in
      let gone = All-elim _ keys key m dead e in ground (arith, t, gone),
  λ s key listed e.
      let (m, t) = Among-select _ keys key listed in
      let gone = All-elim _ keys key m dead e in ground (arith, t, gone),
)

module _ (fails : Failures) where
  pub revoke_row_lem :
      (now : Instant) (id : Uuid) (row : ApiKey) (keys keys' : List ApiKey)
      → revoke_key_row fails now id keys ≡ ok (row, keys')
      → (found : ApiKey) × (first_key (λ key. key.id =s= id) keys ≡ ok found)
        × (row ≡ revoked_row now found)
        × (keys' ≡ map (revoke_where now id) keys)
  unfolding revoke_key_row
  revoke_row_lem now id row keys keys' e =
      elim (Outcome-cases (first_key (λ key. key.id =s= id) keys)) [
        | inl (found, f) ↦ (found, f, ground (arith, f, e), ground (arith, f, e))
        | inr (x, f) ↦ absurd (ground (arith, f, e))
      ]

  pub revoke_and_note_lem :
      (now : Instant) (id : Uuid) (row : ApiKey) (t t' : KeyTables)
      → revoke_and_note fails now id t ≡ ok (row, t')
      → (found : ApiKey) × (first_key (λ key. key.id =s= id) t.keys ≡ ok found)
        × (row ≡ revoked_row now found)
        × (t'.keys ≡ map (revoke_where now id) t.keys)
        × (t'.history ≡ row ∷ t.history)
  unfolding revoke_and_note
  revoke_and_note_lem now id row t t' e =
      elim (Outcome-cases (revoke_key_row fails now id t.keys)) [
        | inr (x, f) ↦ absurd (ground (arith, f, e))
        | inl ((r, keys), f) ↦
            let ends : (r ≡ row) × (keys ≡ t'.keys) × (t'.history ≡ r ∷ t.history) =
              ground (arith, f, e) in
            let (found, first, its, table) = revoke_row_lem now id r t.keys keys f in
            (
              found,
              first,
              sym ends.0 ∙ its,
              sym ends.1 ∙ table,
              ends.2 ∙ ap (λ x. x ∷ t.history) ends.0,
            )
      ]

  revoke_ends :
      (now : Instant) (service_id key_id : Uuid) (row : ApiKey) (t t' : KeyTables)
      → revoke_api_key fails now service_id key_id t ≡ ok (some row, t')
      → (current : ApiKey) × (first_key (λ key. key.id =s= key_id) t.keys ≡ ok current)
        × (current.service_id ≡ service_id)
        × (revoke_and_note fails now key_id t ≡ ok (row, t'))
  unfolding revoke_api_key
  revoke_ends now service_id key_id row t t' e =
      elim (Outcome-cases (first_key (λ key. key.id =s= key_id) t.keys)) [
        | inr (x, f) ↦ absurd (ground (arith, f, e))
        | inl (current, f) ↦ elim (Bool-cases (current.service_id =s= service_id)) [
          | inr other ↦ absurd (ground (arith, f, other, e))
          | inl mine ↦ elim (Outcome-cases (revoke_and_note fails now key_id t)) [
            | inr (x, failed) ↦ absurd (ground (arith, f, mine, failed, e))
            | inl ((r, t₁), done) ↦
                let ends : (r ≡ row) × (t₁ ≡ t') = ground (arith, f, mine, done, e) in
                let its : current.service_id ≡ service_id =
                  ground (arith, eq_iff current.service_id service_id, mine) in
                (current, f, its, done ∙ rw (ends.0, ends.1) refl)
          ]
        ]
      ]

  -- A revocation that returns a key has found it at the service, has noted it in the history, and
  -- from then on no key of that id is found by a secret or among the keys of any service.
  pub revoke_removes :
      (now later : Instant) (service_id key_id : Uuid) (row : ApiKey) (t t' : KeyTables)
      → revoke_api_key fails now service_id key_id t ≡ ok (some row, t')
      → after now later ≡ false
      → (row.id ≡ key_id)
        × (row.service_id ≡ service_id)
        × (t'.history ≡ row ∷ t.history)
        × ((v : String) (key : ApiKey) → key_by_secret later t'.keys v ≡ ok key → key.id ≢ key_id)
        × ((s : Uuid) (key : ApiKey)
            → Among key (keys_of_service later t'.keys s)
            → key.id ≢ key_id)
  revoke_removes now later service_id key_id row t t' e past =
      let (current, first, mine, noted) = revoke_ends now service_id key_id row t t' e in
      let (found, first', its, table, history) = revoke_and_note_lem now key_id row t t' noted in
      let same : current ≡ found = ground (arith, first, first') in
      let (m, test) = first_key_lem _ t.keys found first' in
      let dead =
        subst (All (IsDead later key_id)) (sym table)
          (revoked-IsDead now later key_id t.keys past) in
      let (by_secret, listed) = dead_not_found later key_id t'.keys dead in
      (
        ap (λ r. r.id) its ∙ ground (arith, eq_iff found.id key_id, test),
        ap (λ r. r.service_id) its ∙ ap (λ r. r.service_id) (sym same) ∙ mine,
        history,
        by_secret,
        listed,
      )
