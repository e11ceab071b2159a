-- ===== src/Signing.antt =====
-- pkg/signing and pkg/crypto: signed tokens, and the encodings they are made of.
pub mod Base64
pub mod Token
pub mod ApiKeys
pub mod Crypto
mod Tests
use Prim.Native.Char.{code}
use Prim.Native.String
use notification_api_spec.Base.{ℕ, ◌+◌, ◌/◌, ◌%◌, String, List, [], ◌∷◌, ◌++◌, ltb, if◌then◌else◌}

-- The UTF-8 encoding of a code point, and of a text: `[]byte(s)`.
abbrev pub utf8_rune : ℕ → List ℕ
utf8_rune n =
    if ltb n 0x80
    then n ∷ []
    else if ltb n 0x800
    then (0xc0 + n / 64) ∷ (0x80 + n % 64) ∷ []
    else if ltb n 0x10000
    then (0xe0 + n / 4096) ∷ (0x80 + n / 64 % 64) ∷ (0x80 + n % 64) ∷ []
    else (0xf0 + n / 262144) ∷ (0x80 + n / 4096 % 64) ∷ (0x80 + n / 64 % 64) ∷ (0x80 + n % 64) ∷ []

unfoldable pub utf8 : String → List ℕ
utf8 String.[] = []
utf8 (String.◌∷◌ c s) = utf8_rune (code c) ++ utf8 s
