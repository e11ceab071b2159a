-- ===== src/Base/Outcomes.antt =====
-- Go's `if err != nil { return err }`, for functions that make no calls.
use notification_api_spec.Base.Effects.{Outcome, ok, err, GoError}
use mathlib.Core.Path.{◌≡◌, refl}
use mathlib.Core.Bool.{Bool, true, false}
use mathlib.Core.Option.{Option, none, some}
use native.Mathlib.Omega.{arith}

infixl 5 ◌>>=◌ ◌>>◌
abbrev pub ◌>>=◌ : {A B : Type 0} → Outcome A → (A → Outcome B) → Outcome B
ok a >>= f = f a
err e >>= f = err e

abbrev pub ◌>>◌ : {B : Type 0} → Outcome (Unit {0}) → Outcome B → Outcome B
m >> k = m >>= λ _. k

-- `if !test { return err }`
abbrev pub guard : Bool → GoError → Outcome (Unit {0})
guard true e = ok tt
guard false e = err e

-- The value, or the error where there is none.
abbrev pub required : {A : Type 0} → GoError → Option A → Outcome A
required e none = err e
required e (some a) = ok a

-- The value of a call of another package, any error of which is replaced.
abbrev pub or_error : {A : Type 0} → GoError → Outcome A → Outcome A
or_error e (ok a) = ok a
or_error e (err _) = err e

-- What a chain that succeeds has gone through.
pub bind_ok :
    {A B : Type 0} (m : Outcome A) (f : A → Outcome B) {b : B}
    → (m >>= f) ≡ ok b
    → (a : A) × (m ≡ ok a) × (f a ≡ ok b)
bind_ok (ok a) f h = (a, refl, h)
bind_ok (err e) f h = absurd (ground arith)

pub guard_ok : (t : Bool) (e : GoError) {u : Unit {0}} → guard t e ≡ ok u → t ≡ true
guard_ok true e h = refl
guard_ok false e h = absurd (ground arith)

pub required_ok :
    {A : Type 0} (o : Option A) (e : GoError) {a : A} → required e o ≡ ok a → o ≡ some a
required_ok none e h = absurd (ground arith)
required_ok (some a) e h = ground arith

pub or_error-ok :
    {A : Type 0} (m : Outcome A) (e : GoError) {a : A} → or_error e m ≡ ok a → m ≡ ok a
or_error-ok (ok a) e h = h
or_error-ok (err x) e h = absurd (ground arith)
