-- ===== src/Smsutil.antt =====
-- pkg/smsutil: the text of an SMS.
pub mod Alphabet
mod Tests
use Prim.Native.String
use notification_api_spec.Base.{
  ℕ, String, Char, code, Bool, true, false, ◌==◌, leb, ◌||◌, if◌then◌else◌, ◌<>◌, ◌=s=◌, push,
  trim_space,
}

-- Whether the text has the code point.
unfoldable pub holds_rune : String → ℕ → Bool
holds_rune String.[] n = false
holds_rune (String.◌∷◌ c s) n = code c == n || holds_rune s n

-- `gsmRunes`, in the order of the source.
abbrev pub gsm_runes : String
gsm_runes =
    "@£$¥èéùìòÇ\nØø\rÅåΔ_ΦΓΛΩΠΨΣΘΞ !\"#¤%&'()*+,-./0123456789:;<=>?¡ABCDEFGHIJKLMNOPQRSTUVWXYZÄÖÑÜ§¿abcdefghijklmnopqrstuvwxyzäöñüà^{}\\[~]|€"

-- What `Normalize` writes for one rune.
unfoldable pub normalize_rune : Char → String
normalize_rune c =
    if code c == 9
    then " "
    else if code c == 0x200b || code c == 0x200c || code c == 0x200d || code c == 0xfeff
    then ""
    else if code c == 0x2026
    then "..."
    else if holds_rune gsm_runes (code c)
    then push c ""
    else if leb (code c) 127
    then push c ""
    else "?"

unfoldable pub normalize : String → String
unfolding normalize_rune
normalize String.[] = ""
normalize (String.◌∷◌ c s) = normalize_rune c <> normalize s

unfoldable pub apply_prefix : String → String → Bool → String
unfolding trim_space
apply_prefix service_name content false = content
apply_prefix service_name content true =
    let name = trim_space service_name in if name =s= "" then content else name <> ": " <> content
