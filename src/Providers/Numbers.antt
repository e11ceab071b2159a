-- ===== src/Providers/Numbers.antt =====
-- Which numbers are taken for North American ones.
use notification_api_spec.Base.{ℕ, String, ◌≡◌, ◌+◌, ◌*◌, refl, some, [], ◌∷◌}
use notification_api_spec.Providers.{phone_digits, area_region, classify_recipient_region}

-- Only the digits of a number of ten digits count, and a country code 1 in front changes nothing:
-- two texts with those digits have the same region, that of their area code.
region_of_ten_digits :
    (s t : String) (a b c d e f g h i j : ℕ)
    → phone_digits s ≡ a ∷ b ∷ c ∷ d ∷ e ∷ f ∷ g ∷ h ∷ i ∷ j ∷ []
    → phone_digits t ≡ 1 ∷ phone_digits s
    → (classify_recipient_region s ≡ some (area_region (a * 100 + (b * 10 + c))))
      × (classify_recipient_region t ≡ classify_recipient_region s)
unfolding classify_recipient_region
region_of_ten_digits s t a b c d e f g h i j p q = (rw p refl, rw q (rw p refl))
