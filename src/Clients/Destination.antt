-- ===== src/Clients/Destination.antt =====
-- The numbers that the clients send to.

use text.Mathlib.TextLemmas.{nil-append, cons-append}
use notification_api_spec.Base.{
  Char, code, String, ◌≡◌, ◌≢◌, refl, sym, ap, ◌∙◌, Bool, true, false, not, arith, eq_iff, ◌==◌,
  ◌<>◌, push, ok, is_digit, is_space, trim_left, trim_right, trim_space, has_prefix, Bool-cases,
  inl, inr,
}
use notification_api_spec.Clients.{only_digits, rune_count, destination_of, normalize_destination}

abbrev AllDigits : String → Type 0
AllDigits String.[] = Unit
AllDigits (String.◌∷◌ c s) = (is_digit c ≡ true) × AllDigits s

only_digits-AllDigits : (s : String) → AllDigits (only_digits s)
unfolding only_digits
only_digits-AllDigits String.[] = tt
only_digits-AllDigits (String.◌∷◌ c s) = ground (arith, only_digits-AllDigits s)

only_digits_of_AllDigits : (s : String) → AllDigits s → only_digits s ≡ s
unfolding only_digits
only_digits_of_AllDigits String.[] _ = refl
only_digits_of_AllDigits (String.◌∷◌ c s) (p, h) = ground (arith, only_digits_of_AllDigits s h)

digit_not_space : (c : Char) → is_digit c ≡ true → is_space (code c) ≡ false
unfolding is_space
digit_not_space c h = ground arith

trim_right_of_AllDigits : (s : String) → AllDigits s → trim_right s ≡ s
unfolding trim_right
trim_right_of_AllDigits String.[] _ = refl
trim_right_of_AllDigits (String.◌∷◌ c s) (p, h) =
    rw (digit_not_space c p) (rw (trim_right_of_AllDigits s h))

-- Trimming keeps the digits.
only_digits-trim_left : (s : String) → only_digits (trim_left s) ≡ only_digits s
unfolding trim_left only_digits
only_digits-trim_left String.[] = refl
only_digits-trim_left (String.◌∷◌ c s) = ground (arith, only_digits-trim_left s, digit_not_space c)

only_digits-trim_right : (s : String) → only_digits (trim_right s) ≡ only_digits s
unfolding trim_right only_digits
only_digits-trim_right String.[] = refl
only_digits-trim_right (String.◌∷◌ c s) =
    ground (arith, only_digits-trim_right s, digit_not_space c, eq_iff (trim_right s) "")

only_digits-trim_space : (s : String) → only_digits (trim_space s) ≡ only_digits s
unfolding trim_space
only_digits-trim_space s = only_digits-trim_right (trim_left s) ∙ only_digits-trim_left s

trim_left-plus : (s : String) → trim_space (push "+" s) ≡ push "+" (trim_right s)
unfolding trim_space trim_left trim_right is_space
trim_left-plus s = refl

only_digits-plus : (s : String) → only_digits (push "+" s) ≡ only_digits s
unfolding only_digits
only_digits-plus s = refl

push_is_some : {c : Char} {s : String} → push c s ≢ ""
unfolding rune_count
push_is_some {c} {s} e = let same = ap rune_count e in omega (arith, same)

normalize_ten :
    (s : String)
    → rune_count (only_digits s) ≡ 10
    → trim_space s ≢ ""
    → normalize_destination s ≡ ok ("+1" <> only_digits s, false)
unfolding normalize_destination destination_of
normalize_ten s ten some_text = ground (arith, only_digits-trim_space s, eq_iff (trim_space s) "")

-- A text of ten digits, after a plus sign or not, is taken for a Canadian or American number, and not
-- for one abroad.
plus_is_ignored :
    (s : String)
    → rune_count (only_digits s) ≡ 10
    → (normalize_destination (push "+" s) ≡ ok ("+1" <> only_digits s, false))
      × (trim_space s ≢ "" → normalize_destination s ≡ ok ("+1" <> only_digits s, false))
plus_is_ignored s ten = (
  normalize_ten (push "+" s) (ap rune_count (only_digits-plus s) ∙ ten)
        (λ e. push_is_some (sym (trim_left-plus s) ∙ e))
      ∙ ap (λ d. ok ("+1" <> d, false)) (only_digits-plus s),
  normalize_ten s ten,
)

plus_append : (s : String) → "+" <> s ≡ push "+" s
plus_append s = cons-append "+" "" s ∙ ap (push "+") (nil-append s)

one_append : (s : String) → "+1" <> s ≡ push "+" (push "1" s)
one_append s =
    cons-append "+" "1" s ∙ ap (push "+") (cons-append "1" "" s ∙ ap (push "1") (nil-append s))

-- A plus sign and digits, not ten of them, is sent to as it is.
normalize_plus_digits :
    (d : String)
    → AllDigits d
    → rune_count d ≢ 10
    → (abroad : Bool) × (normalize_destination (push "+" d) ≡ ok (push "+" d, abroad))
unfolding normalize_destination destination_of has_prefix
normalize_plus_digits d h other =
    let same = only_digits-plus d ∙ only_digits_of_AllDigits d h in
    (
      not (has_prefix (push "+" d) "+1"),
      ground (
        arith,
        same,
        trim_left-plus d,
        trim_right_of_AllDigits d h,
        eq_iff (push "+" d) "",
        push_is_some {c = "+"} {s = d},
        plus_append d,
      ),
    )

-- The number of a destination is a plus sign and digits, and not ten of them.
abbrev IsNumber : String → Type 0
IsNumber number = (d : String) × AllDigits d × (rune_count d ≢ 10) × (number ≡ push "+" d)

destination_of-IsNumber : (t : String) → IsNumber (destination_of t).0
unfolding destination_of rune_count
destination_of-IsNumber t =
    let digits = only_digits t in
    let h = only_digits-AllDigits t in
    elim (Bool-cases (rune_count digits == 10)) [
      | inl ten ↦ (push "1" digits, (refl, h), ground arith, ground (arith, one_append digits))
      | inr other ↦ (digits, h, ground arith, ground (arith, plus_append digits))
    ]

-- Sending to the number of a destination sends to that same number.
normalize_settles :
    (value number : String) (abroad : Bool)
    → normalize_destination value ≡ ok (number, abroad)
    → (again : Bool) × (normalize_destination number ≡ ok (number, again))
unfolding normalize_destination
normalize_settles value number abroad e =
    let (d, h, other, same) = destination_of-IsNumber (trim_space value) in
    let (again, f) = normalize_plus_digits d h other in
    let here : number ≡ push "+" d = ground (arith, same) in (again, rw here f)
