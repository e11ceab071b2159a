-- ===== src/Base/Affixes.antt =====
-- Prefixes, lengths and ends of texts that are put together.
use Prim.Native.Nat.{ℕ, ◌+◌}
use Prim.Native.String.{String}
use Prim.Native.Char.{code}
use mathlib.Core.Path.{◌≡◌, refl, ap}
use mathlib.Core.Bool.{true}
use mathlib.Core.Option.{some}
use native.Mathlib.Omega.{arith}
use text.Mathlib.TextLemmas.{nil-append, cons-append}
use notification_api_spec.Base.Tests.{◌==◌}
use notification_api_spec.Base.Text.{
  ◌<>◌, push, has_prefix, strip_prefix, trim_prefix, text_length, drop_text, take_text,
}

==_refl : (n : ℕ) → (n == n) ≡ true
==_refl n = ground arith

pub has_prefix-append : (p s : String) → has_prefix (p <> s) p ≡ true
unfolding has_prefix
has_prefix-append String.[] s = refl
has_prefix-append (String.◌∷◌ c p) s =
    rw (cons-append c p s, ==_refl (code c)) (has_prefix-append p s)

strip_prefix-append : (p s : String) → strip_prefix (p <> s) p ≡ some s
unfolding strip_prefix
strip_prefix-append String.[] s = rw (nil-append s) refl
strip_prefix-append (String.◌∷◌ c p) s =
    rw (cons-append c p s, ==_refl (code c)) (strip_prefix-append p s)

pub trim_prefix-append : (p s : String) → trim_prefix (p <> s) p ≡ s
unfolding trim_prefix
trim_prefix-append p s = rw (trim_prefix, strip_prefix-append p s) refl

pub text_length-append : (s t : String) → text_length (s <> t) ≡ text_length s + text_length t
text_length-append String.[] t = rw (nil-append t) (omega arith)
text_length-append (String.◌∷◌ c s) t =
    rw (cons-append c s t) (omega (arith, text_length-append s t))

pub drop_text-append : (s t : String) → drop_text (text_length s) (s <> t) ≡ t
unfolding drop_text
drop_text-append String.[] t = nil-append t
drop_text-append (String.◌∷◌ c s) t = rw (cons-append c s t) (drop_text-append s t)

pub take_text-append : (s t : String) → take_text (text_length s) (s <> t) ≡ s
unfolding take_text
take_text-append String.[] t = refl
take_text-append (String.◌∷◌ c s) t = rw (cons-append c s t) (ap (push c) (take_text-append s t))
