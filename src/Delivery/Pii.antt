-- ===== src/Delivery/Pii.antt =====
-- internal/worker/delivery/deliver_email.go: the search for social insurance numbers.
pub mod Luhn
pub mod Scan
mod Tests
use notification_api_spec.Base.{
  ℕ, String, ◌+◌, ◌-◌, ◌*◌, ◌%◌, Bool, true, false, not, ◌&&◌, ◌||◌, List, [], ◌∷◌, ◌++◌, reverse,
  leb, ltb, ◌==◌, if◌then◌else◌, codes, length, select,
}

abbrev pub is_digit_code : ℕ → Bool
is_digit_code r = leb b'0' r && leb r b'9'

-- A rune that may stand in a token: a digit, a space or a hyphen.
abbrev pub in_token : ℕ → Bool
in_token r = is_digit_code r || (r == b' ' || r == b'-')

-- What one digit adds to the sum.
unfoldable pub luhn_term : Bool → ℕ → ℕ
luhn_term false c = c - b'0'
luhn_term true c = let digit = (c - b'0') * 2 in if ltb 9 digit then digit - 9 else digit

-- The loop, from the last byte to the first: `value` is reversed.
unfoldable pub luhn_sum : Bool → List ℕ → ℕ
unfolding luhn_term
luhn_sum double [] = 0
luhn_sum double (c ∷ value) = luhn_term double c + luhn_sum (not double) value

unfoldable pub luhn_valid : List ℕ → Bool
unfolding luhn_sum
luhn_valid value = if length value == 9 then luhn_sum false (reverse value) % 10 == 0 else false

-- `flush`, on the token built so far. An empty token has no nine digits.
unfoldable pub flush : List ℕ → Bool
unfolding luhn_valid
flush [] = false
flush (r ∷ token) =
    let digits = select is_digit_code (r ∷ token) in length digits == 9 && luhn_valid digits

-- The loop over the runes, with the token built so far.
unfoldable pub scan : List ℕ → List ℕ → Bool
unfolding flush
scan token [] = flush token
scan token (r ∷ value) =
    let longer = scan (token ++ r ∷ []) value in
    let fresh = scan [] value in if in_token r then longer else if flush token then true else fresh

unfoldable pub contains_valid_sin : String → Bool
unfolding scan
contains_valid_sin value = scan [] (codes value)
