-- ===== src/Signing/Base64/RoundTrip.antt =====
-- Decoding what was encoded.
use Prim.Native.Char.{code}
use notification_api_spec.Base.{
  ℕ, zero, suc, ◌+◌, ◌*◌, ◌/◌, ◌%◌, ◌<◌, ◌≡◌, refl, ap, ◌∙◌, Bool, true, false, not, String, none,
  some, [], ◌∷◌, ◌==◌, ◌&&◌, ◌⊎◌, inl, inr, arith, push, All,
}
use notification_api_spec.Signing.Base64.{
  Bytes, sextet_char, char_sextet, is_line_end, cons_sextet, encode, sextets, join, join_read,
  decode,
}

-- A test that holds below a bound.
below : (ℕ → Bool) → ℕ → Bool
below p zero = true
below p (suc n) = p n && below p n

le_cases : (n m : ℕ) → m < suc n → (m ≡ n) ⊎ (m < n)
le_cases n m l = ground (arith)

below_lem : (p : ℕ → Bool) (n m : ℕ) → below p n ≡ true → m < n → p m ≡ true
unfolding below
below_lem p zero m h l = absurd (omega (arith, l))
below_lem p (suc n) m h l = elim (le_cases n m l) [
  | inl e ↦ ground (arith, ap p e)
  | inr less ↦ below_lem p n m (ground arith) less
]

abbrev pub IsReadable : ℕ → Type 0
IsReadable n =
    (is_line_end (sextet_char n) ≡ false)
    × (code (sextet_char n) == b'.' ≡ false)
    × (char_sextet (sextet_char n) ≡ some n)

is_sextet : ℕ → Bool
is_sextet n =
    not (is_line_end (sextet_char n))
    && not (code (sextet_char n) == b'.')
    && elim (char_sextet (sextet_char n)) [ none ↦ false | some m ↦ m == n ]

all_sextets : below is_sextet 64 ≡ true
unfolding below is_sextet sextet_char char_sextet
all_sextets = refl

pub sextet_char-IsReadable : (n : ℕ) → n < 64 → IsReadable n
unfolding is_sextet
sextet_char-IsReadable n l = ground (arith, below_lem is_sextet 64 n all_sextets l)

sextets-push :
    (n : ℕ) (s : _) → n < 64 → sextets (push (sextet_char n) s) ≡ cons_sextet (some n) (sextets s)
unfolding sextets
sextets-push n s l = let (a, b, c) = sextet_char-IsReadable n l in rw (a, c) refl

-- Whether each number is a byte.
abbrev pub IsBytes : Bytes → Type 0
IsBytes = All (λ b. b < 256)

-- Six bits each, as the encoder makes them.
unfoldable sextets_of : Bytes → Bytes
sextets_of [] = []
sextets_of (a ∷ []) = a / 4 ∷ a % 4 * 16 ∷ []
sextets_of (a ∷ b ∷ []) = a / 4 ∷ (a % 4 * 16 + b / 16) ∷ b % 16 * 4 ∷ []
sextets_of (a ∷ b ∷ c ∷ bytes) =
    a / 4 ∷ (a % 4 * 16 + b / 16) ∷ (b % 16 * 4 + c / 64) ∷ c % 64 ∷ sextets_of bytes

sextets-nil : sextets "" ≡ some []
unfolding sextets
sextets-nil = refl

sextets-push-some :
    (n : ℕ) (s : String) (ns : Bytes)
    → n < 64
    → sextets s ≡ some ns
    → sextets (push (sextet_char n) s) ≡ some (n ∷ ns)
sextets-push-some n s ns l e = sextets-push n s l ∙ ap (cons_sextet (some n)) e

sextets-encode : (bytes : Bytes) → IsBytes bytes → sextets (encode bytes) ≡ some (sextets_of bytes)
unfolding encode sextets_of
sextets-encode [] h = sextets-nil
sextets-encode (a ∷ []) (ha, h) =
    sextets-push-some (a / 4) _ _ (omega (arith, ha))
      (sextets-push-some (a % 4 * 16) _ _ (omega arith) sextets-nil)
sextets-encode (a ∷ b ∷ []) (ha, (hb, h)) = sextets-push-some (a / 4) _ _ (omega (arith, ha)) (
    sextets-push-some (a % 4 * 16 + b / 16) _ _ (omega (arith, hb))
      (sextets-push-some (b % 16 * 4) _ _ (omega arith) sextets-nil))
sextets-encode (a ∷ b ∷ c ∷ bytes) (ha, (hb, (hc, h))) =
    sextets-push-some (a / 4) _ _ (omega (arith, ha)) (
      sextets-push-some (a % 4 * 16 + b / 16) _ _ (omega (arith, hb)) (
        sextets-push-some (b % 16 * 4 + c / 64) _ _ (omega (arith, hc))
          (sextets-push-some (c % 64) _ _ (omega arith) (sextets-encode bytes h))))

join-sextets_of : (bytes : Bytes) → IsBytes bytes → join (sextets_of bytes) ≡ some bytes
unfolding join sextets_of
join-sextets_of [] h = refl
join-sextets_of (a ∷ []) (ha, h) = ap (λ x. some (x ∷ [])) (omega (arith, ha))
join-sextets_of (a ∷ b ∷ []) (ha, (hb, h)) =
    let first : a / 4 * 4 + (a % 4 * 16 + b / 16) / 16 ≡ a = omega (arith, hb) in
    let second : (a % 4 * 16 + b / 16) % 16 * 16 + b % 16 * 4 / 4 ≡ b = omega (arith, hb) in
    rw (first, second) refl
join-sextets_of (a ∷ b ∷ c ∷ bytes) (ha, (hb, (hc, h))) =
    let first : a / 4 * 4 + (a % 4 * 16 + b / 16) / 16 ≡ a = omega (arith, hb) in
    let second : (a % 4 * 16 + b / 16) % 16 * 16 + (b % 16 * 4 + c / 64) / 4 ≡ b =
      omega (arith, hb, hc) in
    let third : (b % 16 * 4 + c / 64) % 4 * 64 + c % 64 ≡ c = omega (arith, hc) in
    rw (join-sextets_of bytes h, first, second, third) refl

-- Decoding an encoded text gives the bytes back.
pub decode-encode : (bytes : Bytes) → IsBytes bytes → decode (encode bytes) ≡ some bytes
unfolding decode join_read
decode-encode bytes h = ap join_read (sextets-encode bytes h) ∙ join-sextets_of bytes h
