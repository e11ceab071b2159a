-- ===== src/Providers/Choice.antt =====
-- What the choice of a provider guarantees.
use notification_api_spec.Base.{
  String, ◌≡◌, ◌≢◌, refl, ◌∙◌, Bool, true, false, some, List, [], ◌∷◌, arith, eq_iff, select, Among,
  Among-select, ◌⊎◌, ok, Bool-cases, Outcome-cases, inl, inr,
}
use notification_api_spec.Delivery.{Uuid, Selection}
use notification_api_spec.Providers

module _ (s : Providers.ProviderService) where
  -- A provider of the list that a selection may name.
  pub record IsChosen (rows : List Providers.ProviderDetail) (avoid : Bool) (sel : Selection)
      : Type 0 where
    pub row : Providers.ProviderDetail
    pub listed : Among row rows
    pub active : row.active ≡ true
    pub candidate : Providers.is_candidate s avoid row ≡ true
    pub identified : row.identifier ≡ sel.identifier

  select_provider-identifier :
      (p : Providers.ProviderDetail) (rest : List Providers.ProviderDetail)
      (t : Providers.NotificationType) (v : Providers.SmsSendingVehicle) (sel : Selection)
      → Providers.select_provider s (p ∷ rest) t v ≡ ok sel
      → p.identifier ≡ sel.identifier
  unfolding Providers.select_provider
  select_provider-identifier p rest t v sel e = ground arith

  candidates-IsChosen :
      (rows : List Providers.ProviderDetail) (avoid : Bool) (t : Providers.NotificationType)
      (v : Providers.SmsSendingVehicle) (sel : Selection) (found : List Providers.ProviderDetail)
      → select (Providers.is_candidate s avoid) (select (λ p. p.active) rows) ≡ found
      → Providers.select_provider s found t v ≡ ok sel
      → IsChosen rows avoid sel
  candidates-IsChosen rows avoid t v sel [] e h =
      absurd (unfold Providers.select_provider in ground arith)
  candidates-IsChosen rows avoid t v sel (p ∷ rest) e h =
      let (inner, fits) =
        Among-select (Providers.is_candidate s avoid) (select (λ p. p.active) rows) p
          (rw e (inl refl)) in
      let (listed, active) =
        Among-select (λ (p : Providers.ProviderDetail). p.active) rows p inner in
      record {
        row = p;
        listed = listed;
        active = active;
        candidate = fits;
        identified = select_provider-identifier p rest t v sel h;
      }

  candidate_names :
      (avoid : Bool) (row : Providers.ProviderDetail)
      → Providers.is_candidate s avoid row ≡ true
      → (avoid ≡ true → row.identifier ≢ "pinpoint") × (avoid ≡ false → row.identifier ≢ "sns")
  unfolding Providers.is_candidate
  candidate_names avoid row h = (
    λ a i. ground (arith, eq_iff row.identifier "pinpoint"),
    λ a i. ground (arith, eq_iff row.identifier "sns"),
  )

  kept_region :
      (sender to : String) (abroad short : Bool)
      → Providers.avoids_pinpoint s sender to abroad short ≡ false
      → (Providers.classify_recipient_region to ≡ some Providers.Region.canada)
        ⊎ ((abroad ≡ true)
            × ((Providers.classify_recipient_region to ≡ some Providers.Region.guam)
                ⊎ (Providers.classify_recipient_region to ≡ some Providers.Region.abroad)))
  unfolding Providers.avoids_pinpoint
  kept_region sender to abroad short h = ground arith

  -- The facts under which an SMS may not go out by Pinpoint, and by SNS.
  sms_lookup :
      (sender to : String) (template : Uuid) (abroad : Bool) (sel : Selection)
      → Providers.provider_to_use s Providers.NotificationType.sms sender to template abroad
        ≡ ok sel
      → (rows : List Providers.ProviderDetail) × (short : Bool) × (v : Providers.SmsSendingVehicle)
        × (s.providers_by_type Providers.NotificationType.sms abroad ≡ ok rows)
        × (Providers.resolve_sending_vehicle s template ≡ ok (short, v))
        × IsChosen rows (Providers.avoids_pinpoint s sender to abroad short) sel
  unfolding Providers.provider_to_use
  sms_lookup sender to template abroad sel e =
      elim (Outcome-cases (s.providers_by_type Providers.NotificationType.sms abroad)) [
        | inl (rows, found) ↦ elim (Outcome-cases (Providers.resolve_sending_vehicle s template)) [
          | inl ((short, v), resolved) ↦ (
            rows,
            short,
            v,
            found,
            resolved,
            candidates-IsChosen rows (Providers.avoids_pinpoint s sender to abroad short)
                Providers.NotificationType.sms v sel _ refl (ground arith),
          )
          | inr (x, failed) ↦ absurd (ground arith)
        ]
        | inr (x, failed) ↦ absurd (ground arith)
      ]

  -- An SMS goes out by an active provider of the list that the repository gives. It is not Pinpoint
  -- where Pinpoint is to be avoided, and not SNS where it is not.
  pub sms_provider :
      (sender to : String) (template : Uuid) (abroad : Bool) (sel : Selection)
      → Providers.provider_to_use s Providers.NotificationType.sms sender to template abroad
        ≡ ok sel
      → (rows : List Providers.ProviderDetail) × (row : Providers.ProviderDetail) × (short : Bool)
        × (v : Providers.SmsSendingVehicle) × (s.providers_by_type Providers.NotificationType.sms
              abroad
            ≡ ok rows)
        × (Providers.resolve_sending_vehicle s template ≡ ok (short, v))
        × Among row rows
        × (row.active ≡ true)
        × (row.identifier ≡ sel.identifier)
        × ((Providers.avoids_pinpoint s sender to abroad short ≡ true)
            → sel.identifier ≢ "pinpoint")
        × ((Providers.avoids_pinpoint s sender to abroad short ≡ false) → sel.identifier ≢ "sns")
  sms_provider sender to template abroad sel e =
      let (rows, short, v, found, resolved, c) = sms_lookup sender to template abroad sel e in
      (
        rows,
        c.row,
        short,
        v,
        found,
        resolved,
        c.listed,
        c.active,
        c.identified,
        λ a i. (candidate_names _ c.row c.candidate).0 a (c.identified ∙ i),
        λ a i. (candidate_names _ c.row c.candidate).1 a (c.identified ∙ i),
      )

  -- A text to a number of the United States, of an unknown region, or outside North America without
  -- the notification's mark as international never goes out by Pinpoint.
  pinpoint_regions :
      (sender to : String) (template : Uuid) (abroad : Bool) (sel : Selection)
      → Providers.provider_to_use s Providers.NotificationType.sms sender to template abroad
        ≡ ok sel
      → sel.identifier ≡ "pinpoint"
      → (Providers.classify_recipient_region to ≡ some Providers.Region.canada)
        ⊎ ((abroad ≡ true)
            × ((Providers.classify_recipient_region to ≡ some Providers.Region.guam)
                ⊎ (Providers.classify_recipient_region to ≡ some Providers.Region.abroad)))
  pinpoint_regions sender to template abroad sel e named =
      let (rows, row, short, v, found, resolved, listed, active, same, avoided, kept) =
        sms_provider sender to template abroad sel e in
      elim (Bool-cases (Providers.avoids_pinpoint s sender to abroad short)) [
        | inl avoids ↦ absurd (avoided avoids named)
        | inr uses ↦ kept_region sender to abroad short uses
      ]
