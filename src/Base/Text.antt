-- ===== src/Base/Text.antt =====
-- The functions of Go's package `strings` that the program calls, over texts that are lists of
-- Unicode scalar values.
use Prim.Native.Nat.{ℕ, zero, suc, ◌-◌}
use Prim.Native.Char.{Char, code}
use Prim.Native.String
use Prim.Native.String.{String}
use mathlib.Core.Bool.{Bool, true, false, ◌&&◌, ◌||◌}
use mathlib.Core.Option.{Option, none, some}
use mathlib.Core.List.{List, [], ◌∷◌}
use notification_api_spec.Base.Tests.{leb, ◌==◌, ◌=s=◌, if◌then◌else◌}

infixr 65 ◌<>◌
-- Concatenation, Go's `+` on strings.
abbrev pub ◌<>◌ : String → String → String
s <> t = String.◌++◌ s t

abbrev pub push : Char → String → String
push c s = String.◌∷◌ c s

-- The code points of a text.
abbrev pub codes : String → List ℕ
codes String.[] = []
codes (String.◌∷◌ c s) = code c ∷ codes s

-- `unicode.IsSpace`
unfoldable pub is_space : ℕ → Bool
is_space n =
    (leb 9 n && leb n 13)
    || n == 32
    || n == 0x85
    || n == 0xa0
    || n == 0x1680
    || (leb 0x2000 n && leb n 0x200a)
    || n == 0x2028
    || n == 0x2029
    || n == 0x202f
    || n == 0x205f
    || n == 0x3000

unfoldable pub trim_left : String → String
unfolding is_space
trim_left String.[] = ""
trim_left (String.◌∷◌ c s) = let rest = trim_left s in if is_space (code c) then rest else push c s

unfoldable pub trim_right : String → String
unfolding is_space
trim_right String.[] = ""
trim_right (String.◌∷◌ c s) =
    let rest = trim_right s in if is_space (code c) && rest =s= "" then "" else push c rest

-- `strings.TrimSpace`
unfoldable pub trim_space : String → String
unfolding trim_left trim_right
trim_space s = trim_right (trim_left s)

-- The tests `strings.TrimSpace(s) == ""`.
abbrev pub blank : String → Bool
blank s = trim_space s =s= ""

-- `strings.HasPrefix(s, prefix)`
unfoldable pub has_prefix : String → String → Bool
has_prefix s String.[] = true
has_prefix String.[] (String.◌∷◌ d p) = false
has_prefix (String.◌∷◌ c s) (String.◌∷◌ d p) = code c == code d && has_prefix s p

-- `strings.HasSuffix(s, suffix)`
unfoldable pub has_suffix : String → String → Bool
has_suffix String.[] suffix = suffix =s= ""
has_suffix (String.◌∷◌ c s) suffix = push c s =s= suffix || has_suffix s suffix

-- What follows a prefix; `none` where the text has another beginning.
unfoldable pub strip_prefix : String → String → Option String
strip_prefix s String.[] = some s
strip_prefix String.[] (String.◌∷◌ d p) = none
strip_prefix (String.◌∷◌ c s) (String.◌∷◌ d p) =
    let rest = strip_prefix s p in if code c == code d then rest else none

-- `strings.TrimPrefix(s, prefix)`
unfoldable pub trim_prefix : String → String → String
unfolding strip_prefix
trim_prefix s prefix = elim (strip_prefix s prefix) [ none ↦ s | some rest ↦ rest ]

char_or : Char → String → ℕ → Char
char_or d String.[] n = d
char_or d (String.◌∷◌ c s) zero = c
char_or d (String.◌∷◌ c s) (suc n) = char_or d s n

-- `unicode.ToLower`, on the code points whose lower case is an ASCII letter: A to Z, the capital I
-- with a dot, and the Kelvin sign. The program compares the results with ASCII texts only, and
-- other code points have lower cases outside ASCII.
lower_rune : Char → Char
unfolding char_or
lower_rune c =
    if leb 65 (code c) && leb (code c) 90
    then char_or c "abcdefghijklmnopqrstuvwxyz" (code c - 65)
    else if code c == 0x130
    then "i"
    else if code c == 0x212a
    then "k"
    else c

-- `strings.ToLower`
unfoldable pub to_lower : String → String
unfolding lower_rune
to_lower String.[] = ""
to_lower (String.◌∷◌ c s) = push (lower_rune c) (to_lower s)

-- Simple case folding towards ASCII: A to Z, the Kelvin sign and the long s.
fold_rune : Char → Char
unfolding char_or
fold_rune c =
    if leb 65 (code c) && leb (code c) 90
    then char_or c "abcdefghijklmnopqrstuvwxyz" (code c - 65)
    else if code c == 0x212a
    then "k"
    else if code c == 0x17f
    then "s"
    else c

fold_case : String → String
unfolding fold_rune
fold_case String.[] = ""
fold_case (String.◌∷◌ c s) = push (fold_rune c) (fold_case s)

-- `strings.EqualFold(s, t)`, where `t` is an ASCII text.
unfoldable pub equal_fold : String → String → Bool
unfolding fold_case
equal_fold s t = fold_case s =s= fold_case t

abbrev pub is_digit : Char → Bool
is_digit c = leb b'0' (code c) && leb (code c) b'9'

-- `strings.Split(s, sep)` for a separator of one character: the first part, and the others.
unfoldable pub split_at : ℕ → String → String × List String
split_at sep String.[] = ("", [])
split_at sep (String.◌∷◌ c s) =
    let (part, parts) = split_at sep s in
    if code c == sep then ("", part ∷ parts) else (push c part, parts)

-- The word that a text begins with, which is empty before a space, and the words after it.
unfoldable pub words : String → String × List String
unfolding is_space
words String.[] = ("", [])
words (String.◌∷◌ c s) =
    let (word, rest) = words s in
    if is_space (code c)
    then ("", if word =s= "" then rest else word ∷ rest)
    else (push c word, rest)

-- `strings.Fields(s)`
unfoldable pub fields : String → List String
unfolding words
fields s = let (word, rest) = words s in if word =s= "" then rest else word ∷ rest

-- `strings.Join(parts, sep)`
unfoldable pub join_texts : List String → String → String
join_texts [] sep = ""
join_texts (part ∷ []) sep = part
join_texts (part ∷ part' ∷ parts) sep = part <> sep <> join_texts (part' ∷ parts) sep

abbrev pub text_length : String → ℕ
text_length String.[] = 0
text_length (String.◌∷◌ c s) = suc (text_length s)

unfoldable pub drop_text : ℕ → String → String
drop_text zero s = s
drop_text (suc n) String.[] = ""
drop_text (suc n) (String.◌∷◌ c s) = drop_text n s

unfoldable pub take_text : ℕ → String → String
take_text zero s = ""
take_text (suc n) String.[] = ""
take_text (suc n) (String.◌∷◌ c s) = push c (take_text n s)
