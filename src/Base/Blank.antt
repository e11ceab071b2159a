-- ===== src/Base/Blank.antt =====
-- Blank texts.
use Prim.Native.Char.{code}
use Prim.Native.String.{String}
use mathlib.Core.Path.{◌≡◌, refl, sym, ap, ◌∙◌}
use mathlib.Core.Logic.{inl, inr}
use mathlib.Core.Bool.{Bool, true, false, not, ◌||◌}
use text.Mathlib.TextLemmas.{nil-append, cons-append}
use native.Mathlib.Omega.{arith}
use text.Mathlib.TextEquality.{eq_iff}
use notification_api_spec.Base.Tests.{Bool-cases}
use notification_api_spec.Base.Text.{◌<>◌, push, is_space, trim_left, trim_right, trim_space, blank}

-- Whether a character is no space.
has_ink : String → Bool
has_ink String.[] = false
has_ink (String.◌∷◌ c s) = not (is_space (code c)) || has_ink s

has_ink-trim_left : (s : String) → has_ink (trim_left s) ≡ has_ink s
unfolding has_ink trim_left
has_ink-trim_left String.[] = refl
has_ink-trim_left (String.◌∷◌ c s) = ground (arith, has_ink-trim_left s)

has_ink-trim_right : (s : String) → has_ink (trim_right s) ≡ has_ink s
unfolding has_ink trim_right
has_ink-trim_right String.[] = refl
has_ink-trim_right (String.◌∷◌ c s) =
    ground (arith, has_ink-trim_right s, eq_iff (trim_right s) "", ap has_ink)

has_ink-trim_space : (s : String) → has_ink (trim_space s) ≡ has_ink s
unfolding trim_space
has_ink-trim_space s = has_ink-trim_right (trim_left s) ∙ has_ink-trim_left s

trim_left-inkless : (s : String) → has_ink s ≡ false → trim_left s ≡ ""
unfolding has_ink trim_left
trim_left-inkless String.[] h = refl
trim_left-inkless (String.◌∷◌ c s) h = ground (arith, trim_left-inkless s)

inkless_of_empty : (s : String) → trim_space s ≡ "" → has_ink s ≡ false
unfolding has_ink
inkless_of_empty s e = sym (has_ink-trim_space s) ∙ ap has_ink e

blank_lem : (s : String) → blank s ≡ not (has_ink s)
unfolding trim_space has_ink
blank_lem s = elim (Bool-cases (has_ink s)) [
  | inl ink ↦ ground (arith, inkless_of_empty s, eq_iff (trim_space s) "")
  | inr no_ink ↦ rw (trim_left-inkless s no_ink, no_ink) refl
]

-- Trimming a text leaves it blank or not blank.
pub blank-trim_space : (s : String) → blank (trim_space s) ≡ blank s
blank-trim_space s = blank_lem (trim_space s) ∙ ap not (has_ink-trim_space s) ∙ sym (blank_lem s)

inked : (a b : String) → has_ink (a <> push "." b) ≡ true
unfolding has_ink is_space
inked String.[] b = ap has_ink (nil-append (push "." b)) ∙ refl
inked (String.◌∷◌ c a) b = ap has_ink (cons-append c a (push "." b)) ∙ ground (arith, inked a b)

-- A text with a dot is not blank.
pub blank-dotted : (a b : String) → blank (a <> push "." b) ≡ false
blank-dotted a b = blank_lem (a <> push "." b) ∙ ap not (inked a b)
