-- ===== src/Smsutil/Tests.antt =====
-- Texts that are normalised and prefixed.
use notification_api_spec.Base.{◌≡◌, refl, true}
use notification_api_spec.Smsutil.{normalize, apply_prefix, holds_rune, normalize_rune}

curly : normalize "“Hi”" ≡ "?Hi?"
unfolding normalize holds_rune normalize_rune
curly = refl

prefixed : apply_prefix "Parks" "Hi" true ≡ "Parks: Hi"
unfolding apply_prefix
prefixed = refl
