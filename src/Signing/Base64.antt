-- ===== src/Signing/Base64.antt =====
-- `base64.RawURLEncoding`, as the packages use it: `base64Encode` and `base64Decode`.
pub mod RoundTrip
use Prim.Native.Char.{Char, code}
use Prim.Native.String
use notification_api_spec.Base.{
  ℕ, zero, suc, ◌+◌, ◌*◌, ◌/◌, ◌%◌, ◌-◌, String, Bool, true, false, Option, none, some, List, [],
  ◌∷◌, ◌==◌, ◌||◌, ◌&&◌, leb, if◌then◌else◌, push, is_digit, Outcome, ok, err, GoError, plain_error,
}

abbrev pub Bytes : Type 0
Bytes = List ℕ

abbrev pub alphabet : String
alphabet = "ABCDEFGHIJKLMNOPQRSTUVWXYZabcdefghijklmnopqrstuvwxyz0123456789-_"

abbrev pub char_at : String → ℕ → Char
char_at String.[] n = "A"
char_at (String.◌∷◌ c s) zero = c
char_at (String.◌∷◌ c s) (suc n) = char_at s n

-- The character of six bits.
unfoldable pub sextet_char : ℕ → Char
sextet_char n = char_at alphabet n

-- The six bits of a character.
unfoldable pub char_sextet : Char → Option ℕ
char_sextet c =
    if leb b'A' (code c) && leb (code c) b'Z'
    then some (code c - b'A')
    else if leb b'a' (code c) && leb (code c) b'z'
    then some (code c - b'a' + 26)
    else if is_digit c
    then some (code c - b'0' + 52)
    else if code c == b'-'
    then some 62
    else if code c == b'_'
    then some 63
    else none

unfoldable pub encode : Bytes → String
unfolding sextet_char
encode [] = ""
encode (a ∷ []) = push (sextet_char (a / 4)) (push (sextet_char (a % 4 * 16)) "")
encode (a ∷ b ∷ []) =
    push (sextet_char (a / 4))
      (push (sextet_char (a % 4 * 16 + b / 16)) (push (sextet_char (b % 16 * 4)) ""))
encode (a ∷ b ∷ c ∷ bytes) = push (sextet_char (a / 4)) (
    push (sextet_char (a % 4 * 16 + b / 16))
      (push (sextet_char (b % 16 * 4 + c / 64)) (push (sextet_char (c % 64)) (encode bytes))))

abbrev pub is_line_end : Char → Bool
is_line_end c = code c == 10 || code c == 13

abbrev pub cons_sextet : Option ℕ → Option Bytes → Option Bytes
cons_sextet none rest = none
cons_sextet (some n) none = none
cons_sextet (some n) (some ns) = some (n ∷ ns)

-- The sextets of a text, its line ends left out; `none` where a character is not of the alphabet.
unfoldable pub sextets : String → Option Bytes
sextets String.[] = some []
sextets (String.◌∷◌ c s) =
    let rest = sextets s in if is_line_end c then rest else cons_sextet (char_sextet c) rest

-- The bytes of the sextets. The last bits are dropped, whatever they are.
unfoldable pub join : Bytes → Option Bytes
join [] = some []
join (p ∷ []) = none
join (p ∷ q ∷ []) = some ((p * 4 + q / 16) ∷ [])
join (p ∷ q ∷ r ∷ []) = some ((p * 4 + q / 16) ∷ (q % 16 * 16 + r / 4) ∷ [])
join (p ∷ q ∷ r ∷ s ∷ ns) = elim (join ns) [
  | none ↦ none
  | some bytes ↦ some ((p * 4 + q / 16) ∷ (q % 16 * 16 + r / 4) ∷ (r % 4 * 64 + s) ∷ bytes)
]

unfoldable pub join_read : Option Bytes → Option Bytes
unfolding join
join_read none = none
join_read (some ns) = join ns

unfoldable pub decode : String → Option Bytes
unfolding sextets join_read
decode s = join_read (sextets s)
