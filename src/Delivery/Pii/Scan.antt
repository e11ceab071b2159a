-- ===== src/Delivery/Pii/Scan.antt =====
-- What the search finds: a maximal run of digits, spaces and hyphens whose digits are a number.
use mathlib.Core.List.{append_assoc, append-nil}
use notification_api_spec.Base.{
  ℕ, String, ◌≡◌, ◌↔◌, refl, sym, ap, ◌∙◌, subst, true, false, List, [], ◌∷◌, ◌++◌, arith, codes,
  length, select, Bool-cases, inl, inr, All, All-append,
}
use notification_api_spec.Delivery.Pii.{
  is_digit_code, in_token, luhn_valid, flush, scan, contains_valid_sin,
}

abbrev pub InToken : ℕ → Type 0
InToken r = in_token r ≡ true

-- The text before a run is empty or ends outside a token.
abbrev pub EndsOutside : List ℕ → Type 0
EndsOutside [] = Unit
EndsOutside (r ∷ []) = in_token r ≡ false
EndsOutside (r ∷ s ∷ rest) = EndsOutside (s ∷ rest)

-- The text behind a run is empty or begins outside a token.
abbrev pub StartsOutside : List ℕ → Type 0
StartsOutside [] = Unit
StartsOutside (r ∷ rest) = in_token r ≡ false

-- A maximal run of the text whose digits are nine and pass the checksum.
pub record HasSin (text : List ℕ) : Type 0 where
  pub before : List ℕ
  pub token : List ℕ
  pub after : List ℕ
  pub splits : text ≡ before ++ (token ++ after)
  pub is_run : All InToken token
  pub opens : EndsOutside before
  pub closes : StartsOutside after
  pub nine : length (select is_digit_code token) ≡ 9
  pub checks : luhn_valid (select is_digit_code token) ≡ true

flush_sound :
    (token : List ℕ)
    → flush token ≡ true
    → (length (select is_digit_code token) ≡ 9) × (luhn_valid (select is_digit_code token) ≡ true)
unfolding flush
flush_sound [] h = cc
flush_sound (r ∷ token) h = ground arith

flush_complete :
    (token : List ℕ)
    → length (select is_digit_code token) ≡ 9
    → luhn_valid (select is_digit_code token) ≡ true
    → flush token ≡ true
unfolding flush
flush_complete [] h v = absurd (omega arith)
flush_complete (r ∷ token) h v = ground arith

EndsOutside-append :
    (xs : List ℕ) (r : ℕ) (ys : List ℕ)
    → in_token r ≡ false
    → EndsOutside ys
    → EndsOutside (xs ++ r ∷ ys)
EndsOutside-append [] r [] h k = h
EndsOutside-append [] r (y ∷ ys) h k = k
EndsOutside-append (x ∷ []) r ys h k = EndsOutside-append [] r ys h k
EndsOutside-append (x ∷ x' ∷ xs) r ys h k = EndsOutside-append (x' ∷ xs) r ys h k

scan_sound :
    (token text : List ℕ) → All InToken token → scan token text ≡ true → HasSin (token ++ text)
unfolding scan
scan_sound token [] h e = record {
  before = [];
  token = token;
  after = [];
  splits = refl;
  is_run = h;
  opens = tt;
  closes = tt;
  nine = (flush_sound token e).0;
  checks = (flush_sound token e).1;
}
scan_sound token (r ∷ text) h e = elim (Bool-cases (in_token r)) [
  | inl within ↦ subst HasSin (append_assoc token (r ∷ []) text) (
      scan_sound (token ++ r ∷ []) text (All-append InToken token (r ∷ []) h (within, tt))
        (rw within at e))
  | inr outside ↦ elim (Bool-cases (flush token)) [
    | inl found ↦ record {
      before = [];
      token = token;
      after = r ∷ text;
      splits = refl;
      is_run = h;
      opens = tt;
      closes = outside;
      nine = (flush_sound token found).0;
      checks = (flush_sound token found).1;
    }
    | inr more ↦ later (scan_sound [] text tt (rw (outside, more) at e)) outside
  ]
]
  where
    later : HasSin text → in_token r ≡ false → HasSin (token ++ r ∷ text)
    later s outside = record {
      before = token ++ r ∷ s.before;
      token = s.token;
      after = s.after;
      splits =
          ap (λ t. token ++ r ∷ t) s.splits
          ∙ sym (append_assoc token (r ∷ s.before) (s.token ++ s.after));
      is_run = s.is_run;
      opens = EndsOutside-append token r s.before outside s.opens;
      closes = s.closes;
      nine = s.nine;
      checks = s.checks;
    }

scan_of_run :
    (token run after : List ℕ)
    → All InToken run
    → StartsOutside after
    → flush (token ++ run) ≡ true
    → scan token (run ++ after) ≡ true
unfolding scan
scan_of_run token [] [] h k e = rw append-nil at e
scan_of_run token [] (r ∷ after) h k e =
    let f : flush token ≡ true = rw append-nil at e in ground arith
scan_of_run token (x ∷ run) after (p, h) k e =
    rw p (scan_of_run (token ++ x ∷ []) run after h k (rw append_assoc e))

scan_skips :
    (token : List ℕ) (x : ℕ) (before rest : List ℕ)
    → EndsOutside (x ∷ before)
    → scan [] rest ≡ true
    → scan token (x ∷ (before ++ rest)) ≡ true
unfolding scan
scan_skips token x [] rest h e = ground arith
scan_skips token x (y ∷ before) rest h e =
    ground (arith, scan_skips (token ++ x ∷ []) y before rest h e, scan_skips [] y before rest h e)

scan_complete :
    (before run after : List ℕ)
    → EndsOutside before
    → scan [] (run ++ after) ≡ true
    → scan [] (before ++ (run ++ after)) ≡ true
scan_complete [] run after h e = e
scan_complete (x ∷ before) run after h e = scan_skips [] x before (run ++ after) h e

-- The search answers yes exactly when a maximal run of digits, spaces and hyphens has nine digits
-- that pass the checksum.
pub contains_valid_sin_iff :
    (value : String) → (contains_valid_sin value ≡ true) ↔ HasSin (codes value)
unfolding contains_valid_sin
contains_valid_sin_iff value = (
  scan_sound [] (codes value) tt,
  λ s.
      subst (λ t. scan [] t ≡ true) (sym s.splits)
        (scan_complete s.before s.token s.after s.opens (
          scan_of_run [] s.token s.after s.is_run s.closes
            (flush_complete s.token s.nine s.checks))),
)
