-- ===== src/Base/Members.antt =====
-- What holds of all members of a list, and of the members that pass a test.
use mathlib.Core.Path.{◌≡◌, refl, ap, sym, subst}
use mathlib.Core.Logic.{inl, inr}
use mathlib.Core.Bool.{Bool, true, false}
use mathlib.Core.List.{List, [], ◌∷◌, map}
use native.Mathlib.Omega.{arith}
use notification_api_spec.Base.Tests.{Bool-cases}
use notification_api_spec.Base.Lists.{any, select, count, All, Among}

pub All-map :
    {A : Type 0} (P Q : A → Type 0) (f : A → A) (xs : List A)
    → ((x : A) → P x → Q (f x))
    → All P xs
    → All Q (map f xs)
All-map P Q f [] h _ = tt
All-map P Q f (x ∷ xs) h (p, ps) = (h x p, All-map P Q f xs h ps)

pub All-imp :
    {A : Type 0} (P Q : A → Type 0) (xs : List A) → ((x : A) → P x → Q x) → All P xs → All Q xs
All-imp P Q [] h _ = tt
All-imp P Q (x ∷ xs) h (p, ps) = (h x p, All-imp P Q xs h ps)

pub All-both :
    {A : Type 0} (P Q R : A → Type 0) (xs : List A)
    → ((x : A) → P x → Q x → R x)
    → All P xs
    → All Q xs
    → All R xs
All-both P Q R [] h _ _ = tt
All-both P Q R (x ∷ xs) h (p, ps) (q, qs) = (h x p q, All-both P Q R xs h ps qs)

pub All-Among :
    {A : Type 0} (P : A → Type 0) (xs : List A) → ((x : A) → Among x xs → P x) → All P xs
All-Among P [] h = tt
All-Among P (x ∷ xs) h = (h x (inl refl), All-Among P xs (λ y m. h y (inr m)))

pub any-Among :
    {A : Type 0} (p : A → Bool) (xs : List A) (a : A) → Among a xs → p a ≡ true → any p xs ≡ true
any-Among p [] a m e = absurd m
any-Among p (x ∷ xs) a (inl same) e = rw (sym same) (rw e refl)
any-Among p (x ∷ xs) a (inr m) e = ground (arith, any-Among p xs a m e)

pub select-Among :
    {A : Type 0} (p : A → Bool) (xs : List A) (a : A)
    → Among a xs
    → p a ≡ true
    → Among a (select p xs)
select-Among p [] a m e = absurd m
select-Among p (x ∷ xs) a (inl same) e =
    let px : p x ≡ true = subst (λ y. p y ≡ true) same e in rw px (inl same)
select-Among p (x ∷ xs) a (inr m) e = elim (Bool-cases (p x)) [
  | inl px ↦ rw px (inr (select-Among p xs a m e))
  | inr px ↦ rw px (select-Among p xs a m e)
]

pub count-none :
    {A : Type 0} (p : A → Bool) (xs : List A) → All (λ x. p x ≡ false) xs → count p xs ≡ 0
count-none p [] h = refl
count-none p (x ∷ xs) (e, h) = rw e (count-none p xs h)

pub any-none :
    {A : Type 0} (p : A → Bool) (xs : List A) → any p xs ≡ false → All (λ x. p x ≡ false) xs
any-none p [] e = tt
any-none p (x ∷ xs) e = (ground (arith, e), any-none p xs (ground (arith, e)))

pub All-elim : {A : Type 0} (P : A → Type 0) (xs : List A) (a : A) → Among a xs → All P xs → P a
All-elim P [] a m h = absurd m
All-elim P (x ∷ xs) a (inl same) (h, hs) = subst P (sym same) h
All-elim P (x ∷ xs) a (inr m) (h, hs) = All-elim P xs a m hs

pub map-Among : {A : Type 0} (f : A → A) (xs : List A) (a : A) → Among a xs → Among (f a) (map f xs)
map-Among f [] a m = absurd m
map-Among f (x ∷ xs) a (inl same) = inl (ap f same)
map-Among f (x ∷ xs) a (inr m) = inr (map-Among f xs a m)

pub All-select :
    {A : Type 0} (P : A → Type 0) (p : A → Bool) (xs : List A) → All P xs → All P (select p xs)
All-select P p [] h = tt
All-select P p (x ∷ xs) (h, hs) = elim (Bool-cases (p x)) [
  | inl e ↦ rw e (h, All-select P p xs hs)
  | inr e ↦ rw e (All-select P p xs hs)
]
