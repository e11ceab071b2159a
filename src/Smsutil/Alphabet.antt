-- ===== src/Smsutil/Alphabet.antt =====
-- What `Normalize` writes: its characters, and that a second pass changes nothing.

use text.Mathlib.TextLemmas.{nil-append, cons-append}
use notification_api_spec.Base.{
  ℕ, String, Char, code, Bool, true, false, ◌≡◌, ◌≢◌, refl, sym, ap, ◌∙◌, ◌==◌, leb, ◌||◌, ◌<>◌,
  push, arith, inl, inr, Bool-cases,
}
use notification_api_spec.Smsutil.{holds_rune, gsm_runes, normalize_rune, normalize}

-- A character that `Normalize` lets stand: one of the GSM alphabet, or an ASCII one, except the tab.
abbrev pub is_sendable : Char → Bool
is_sendable c = holds_rune gsm_runes (code c) || (leb (code c) 127)

abbrev pub Sendable : String → Type 0
Sendable String.[] = Unit
Sendable (String.◌∷◌ c s) = (is_sendable c ≡ true) × Sendable s

-- A character that `Normalize` lets stand.
abbrev pub Stands : Char → Type 0
Stands c = (code c ≢ 9) × (is_sendable c ≡ true)

abbrev pub AllStand : String → Type 0
AllStand String.[] = Unit
AllStand (String.◌∷◌ c s) = Stands c × AllStand s

AllStand-append : (s t : String) → AllStand s → AllStand t → AllStand (s <> t)
AllStand-append String.[] t _ k = rw nil-append k
AllStand-append (String.◌∷◌ c s) t (p, h) k = rw cons-append (p, AllStand-append s t h k)

abbrev pub is_format : ℕ → Bool
is_format n = n == 0x200b || n == 0x200c || n == 0x200d || n == 0xfeff

abbrev in_alphabet : ℕ → Bool
in_alphabet n = holds_rune gsm_runes n || leb n 127

differs : (k n : ℕ) → in_alphabet n ≡ true → in_alphabet k ≡ false → (n == k) ≡ false
differs k n h e = elim (Bool-cases (n == k)) [
  | inl same ↦ let at : n ≡ k = ground arith in cc (sym h ∙ ap in_alphabet at ∙ e)
  | inr other ↦ other
]

-- None of the code points that are dropped or spelled out is in the alphabet.
not_format : (n : ℕ) → in_alphabet n ≡ true → (is_format n ≡ false) × ((n == 0x2026) ≡ false)
unfolding holds_rune
not_format n h = (
  rw (differs 0x200b n h refl, differs 0x200c n h refl, differs 0x200d n h refl)
      (differs 0xfeff n h refl),
  differs 0x2026 n h refl,
)

fixed_texts : Stands " " × Stands "." × Stands "?"
unfolding holds_rune
fixed_texts = ((omega arith, refl), (omega arith, refl), (omega arith, refl))

normalize_rune-AllStand : (c : Char) → AllStand (normalize_rune c)
unfolding normalize_rune
normalize_rune-AllStand c = elim (Bool-cases (code c == 9)) [
  | inl e ↦ rw e (fixed_texts.0, tt)
  | inr tab ↦ rw tab (elim (Bool-cases (is_format (code c))) [
    | inl e ↦ rw e tt
    | inr e ↦ rw e (elim (Bool-cases (code c == 0x2026)) [
      | inl e ↦ rw e (fixed_texts.1, (fixed_texts.1, (fixed_texts.1, tt)))
      | inr e ↦ rw e (elim (Bool-cases (holds_rune gsm_runes (code c))) [
        | inl e ↦ rw e ((ground arith, rw e), tt)
        | inr e ↦ rw e (elim (Bool-cases (leb (code c) 127)) [
          | inl a ↦ rw a ((ground arith, rw (e, a)), tt)
          | inr a ↦ rw a (fixed_texts.2, tt)
        ])
      ])
    ])
  ])
]

normalize_rune_of_Stands : (c : Char) → Stands c → normalize_rune c ≡ push c ""
unfolding normalize_rune
normalize_rune_of_Stands c (tab, h) = ground (arith, not_format (code c) h)

normalize-AllStand : (s : String) → AllStand (normalize s)
unfolding normalize
normalize-AllStand String.[] = tt
normalize-AllStand (String.◌∷◌ c s) =
    AllStand-append (normalize_rune c) (normalize s) (normalize_rune-AllStand c)
      (normalize-AllStand s)

normalize_of_AllStand : (s : String) → AllStand s → normalize s ≡ s
unfolding normalize
normalize_of_AllStand String.[] _ = refl
normalize_of_AllStand (String.◌∷◌ c s) (p, h) =
    rw (normalize_rune_of_Stands c p, normalize_of_AllStand s h, cons-append, nil-append)

-- A normalised text is normal.
normalize_idempotent : (s : String) → normalize (normalize s) ≡ normalize s
normalize_idempotent s = normalize_of_AllStand (normalize s) (normalize-AllStand s)
