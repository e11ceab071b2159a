-- ===== src/Delivery/Pii/Tests.antt =====
-- Social insurance numbers, and texts without one.
use notification_api_spec.Base.{◌≡◌, ◌↔◌, refl, true, false, ◌∷◌, ◌++◌, codes}
use notification_api_spec.Delivery.Pii.{luhn_valid, luhn_sum, contains_valid_sin}
use notification_api_spec.Delivery.Pii.Scan.{HasSin, contains_valid_sin_iff}

found : contains_valid_sin "SIN 046-454-286." ≡ true
unfolding contains_valid_sin
found = refl

not_found : contains_valid_sin "SIN 046-454-287." ≡ false
unfolding contains_valid_sin
not_found = refl

contains_valid_sin_iff_example :
    (contains_valid_sin "SIN 046-454-286." ≡ true) ↔ HasSin (codes "SIN 046-454-286.")
contains_valid_sin_iff_example = contains_valid_sin_iff "SIN 046-454-286."

valid : luhn_valid (codes "04645" ++ 52 ∷ codes "286") ≡ true
unfolding luhn_valid luhn_sum
valid = refl
