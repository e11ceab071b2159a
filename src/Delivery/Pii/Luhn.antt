-- ===== src/Delivery/Pii/Luhn.antt =====
-- The checksum notices every wrong digit.
use mathlib.Core.List.{reverse-append, reverse-cons, append_assoc}
use notification_api_spec.Base.{
  ℕ, ◌+◌, ◌%◌, ◌≡◌, ◌≢◌, ◌<◌, refl, Bool, true, false, not, List, [], ◌∷◌, ◌++◌, reverse, arith,
  Bool-cases, inl, inr,
}
use notification_api_spec.Delivery.Pii.{is_digit_code, luhn_term, luhn_sum, luhn_valid}

luhn_term_injective :
    (double : Bool) (c d : ℕ)
    → is_digit_code c ≡ true
    → is_digit_code d ≡ true
    → luhn_term double c ≡ luhn_term double d
    → c ≡ d
unfolding luhn_term
luhn_term_injective false c d hc hd e = ground arith
luhn_term_injective true c d hc hd e = ground arith

luhn_term-lt : (double : Bool) (c : ℕ) → is_digit_code c ≡ true → luhn_term double c < 10
unfolding luhn_term
luhn_term-lt false c h = ground arith
luhn_term-lt true c h = ground arith

-- Whether the digit behind `xs` is doubled.
parity : Bool → List ℕ → Bool
parity double [] = double
parity double (x ∷ xs) = parity (not double) xs

luhn_sum-append :
    (double : Bool) (xs ys : List ℕ)
    → luhn_sum double (xs ++ ys) ≡ luhn_sum double xs + luhn_sum (parity double xs) ys
unfolding luhn_sum parity
luhn_sum-append double [] ys = omega arith
luhn_sum-append double (x ∷ xs) ys = omega (arith, luhn_sum-append (not double) xs ys)

-- Two digits in one place with one remainder are the same digit.
same_place :
    (before double_after : ℕ) (double : Bool) (c d : ℕ)
    → is_digit_code c ≡ true
    → is_digit_code d ≡ true
    → (before + (luhn_term double c + double_after)) % 10 ≡ 0
    → (before + (luhn_term double d + double_after)) % 10 ≡ 0
    → c ≡ d
same_place a b double c d hc hd e f =
    luhn_term_injective double c d hc hd
      (omega (arith, luhn_term-lt double c hc, luhn_term-lt double d hd))

reverse_middle : (xs ys : List ℕ) (c : ℕ) → reverse (xs ++ c ∷ ys) ≡ reverse ys ++ c ∷ reverse xs
reverse_middle xs ys c = simp (reverse-append, reverse-cons, append_assoc)

luhn_sum_middle :
    (xs ys : List ℕ) (c : ℕ)
    → luhn_sum false (reverse (xs ++ c ∷ ys))
      ≡ luhn_sum false (reverse ys)
        + (luhn_term (parity false (reverse ys)) c
            + luhn_sum (not (parity false (reverse ys))) (reverse xs))
luhn_sum_middle xs ys c = rw reverse_middle (rw luhn_sum-append (unfold luhn_sum in refl))

sum_of_valid : (value : List ℕ) → luhn_valid value ≡ true → luhn_sum false (reverse value) % 10 ≡ 0
unfolding luhn_valid
sum_of_valid value v = ground arith

-- A number in which one digit is replaced by another is not valid, if it was valid before.
luhn_detects_substitution :
    (xs ys : List ℕ) (c d : ℕ)
    → is_digit_code c ≡ true
    → is_digit_code d ≡ true
    → c ≢ d
    → luhn_valid (xs ++ c ∷ ys) ≡ true
    → luhn_valid (xs ++ d ∷ ys) ≡ false
luhn_detects_substitution xs ys c d hc hd ne v = elim (Bool-cases (luhn_valid (xs ++ d ∷ ys))) [
  | inl w ↦ absurd (
      ne (
        same_place (luhn_sum false (reverse ys))
          (luhn_sum (not (parity false (reverse ys))) (reverse xs)) (parity false (reverse ys)) c d
          hc hd (rw luhn_sum_middle at (sum_of_valid _ v))
          (rw luhn_sum_middle at (sum_of_valid _ w))))
  | inr w ↦ w
]
