-- ===== src/Clients.antt =====
-- internal/client: the clients of Pinpoint, SES and SNS, and the numbers that they send to.
pub mod Pinpoint
pub mod Ses
pub mod Sns
pub mod Destination
mod Tests
use Prim.Native.String
use notification_api_spec.Base.{
  ℕ, suc, String, Bool, true, false, not, Option, none, some, ◌&&◌, ◌==◌, ◌=s=◌, ◌<>◌,
  if◌then◌else◌, push, is_digit, code, trim_space, has_prefix, Outcome, ok, err, plain_error,
  GoError,
}

-- `onlyDigits`
unfoldable pub only_digits : String → String
only_digits String.[] = ""
only_digits (String.◌∷◌ c s) = let rest = only_digits s in if is_digit c then push c rest else rest

-- The number of runes.
unfoldable pub rune_count : String → ℕ
rune_count String.[] = 0
rune_count (String.◌∷◌ c s) = suc (rune_count s)

abbrev pub begins_with_one : String → Bool
begins_with_one String.[] = false
begins_with_one (String.◌∷◌ c s) = code c == b'1'

-- The number to send to, and whether it is one abroad, of a text that is trimmed and not empty.
unfoldable pub destination_of : String → String × Bool
unfolding only_digits rune_count has_prefix
destination_of trimmed =
    let digits = only_digits trimmed in
    if rune_count digits == 10
    then ("+1" <> digits, false)
    else if has_prefix trimmed "+"
    then ("+" <> digits, not (has_prefix trimmed "+1"))
    else if rune_count digits == 11 && begins_with_one digits
    then ("+" <> digits, false)
    else ("+" <> digits, true)

abbrev pub no_numbers : GoError
no_numbers = plain_error "No valid numbers found for SMS delivery"

-- `normalizeDestination` of the Pinpoint client.
unfoldable pub normalize_destination : String → Outcome (String × Bool)
unfolding trim_space destination_of
normalize_destination value =
    let trimmed = trim_space value in
    if trimmed =s= "" then err no_numbers else ok (destination_of trimmed)

-- `normalizeDestination` of the SNS client.
unfoldable pub sns_destination : String → Outcome String
unfolding trim_space only_digits rune_count has_prefix
sns_destination value =
    let trimmed = trim_space value in
    let digits = only_digits trimmed in
    if trimmed =s= ""
    then err no_numbers
    else if rune_count digits == 10
    then ok ("+1" <> digits)
    else if has_prefix trimmed "+"
    then ok ("+" <> digits)
    else if rune_count digits == 11 && begins_with_one digits
    then ok ("+" <> digits)
    else ok ("+" <> digits)
