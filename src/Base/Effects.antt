-- ===== src/Base/Effects.antt =====
-- Go's results and errors, and the calls that a function makes through its interfaces.
use Prim.Native.Nat.{ℕ}
use Prim.Native.String.{String}
use mathlib.Core.Path.{◌≡◌, refl}
use mathlib.Core.Logic.{◌⊎◌, inl, inr}
use mathlib.Core.Bool.{Bool}
use mathlib.Core.Option.{Option, none, some}
use mathlib.Core.List.{List, [], ◌∷◌}
use notification_api_spec.Base.Lists.{any}

-- One error value of a chain. `plain` is an error that no code tells apart by its type.
pub data ErrorNode : Type 0 where
  plain : String → ErrorNode
  no_rows canceled : ErrorNode
  transient : ErrorNode
  retryable : (after : ℕ) → ErrorNode
  technical_failure : (id : String) → ErrorNode
  invalid_url malware_detected scan_in_progress document_download : (url : String) → ErrorNode
  pinpoint_api : (code reason : String) → ErrorNode
  pinpoint_validation pinpoint_conflict : (reason : String) → ErrorNode
  ses_client : (code message : String) → ErrorNode
  invalid_email aws_ses : (message : String) → ErrorNode
  live_limit trial_limit : ErrorNode
  bad_signature : ErrorNode
  token_validation : (reason : String) → ErrorNode

-- A non-nil `error`: the value, then what `Unwrap` gives again and again.
abbrev pub GoError : Type 0
GoError = List ErrorNode

abbrev pub plain_error : String → GoError
plain_error text = plain text ∷ []

-- What `errors.Is` and `errors.As` look for in the chain.
abbrev pub chain_has : (ErrorNode → Bool) → GoError → Bool
chain_has = any

pub data Outcome (A : Type 0) : Type 0 where
  ok : A → Outcome A
  err : GoError → Outcome A

pub Outcome-cases :
    {A : Type 0} (o : Outcome A) → ((a : A) × (o ≡ ok a)) ⊎ ((e : GoError) × (o ≡ err e))
Outcome-cases (ok a) = inl (a, refl)
Outcome-cases (err e) = inr (e, refl)

abbrev pub Done : Type 0
Done = Outcome (Unit {0})

-- A function that makes calls of type `C` through its interfaces. The log holds the calls made so
-- far, the newest first. An interface answers from the log and the arguments, so it may keep any
-- state of its own.
abbrev pub Proc : Type 0 → Type 0 → Type 0
Proc C A = List C → Outcome A × List C

module _ {C : Type 0} where
  abbrev pub pure : {A : Type 0} → A → Proc C A
  pure a log = (ok a, log)

  abbrev pub raise : {A : Type 0} → GoError → Proc C A
  raise e log = (err e, log)

  -- One call through an interface, and its answer.
  abbrev pub call : {A : Type 0} → C → (List C → Outcome A) → Proc C A
  call c answer log = (answer log, c ∷ log)

  -- A call that returns no error.
  abbrev pub emit : C → Proc C (Unit {0})
  emit c log = (ok tt, c ∷ log)

  infixl 5 ◌>>=◌ ◌>>◌
  abbrev pub ◌>>=◌ : {A B : Type 0} → Proc C A → (A → Proc C B) → Proc C B
  ◌>>=◌ m f log = let (r, log') = m log in elim r [ ok a ↦ f a log' | err e ↦ (err e, log') ]

  abbrev pub ◌>>◌ : {A B : Type 0} → Proc C A → Proc C B → Proc C B
  m >> k = m >>= λ _. k

  -- The result with its error in hand, `err != nil` being a test of the code that follows.
  abbrev pub attempt : {A : Type 0} → Proc C A → Proc C (Outcome A)
  attempt m log = let (r, log') = m log in (ok r, log')

  -- `if err != nil { return change(err) }`
  abbrev pub map_error : {A : Type 0} → (GoError → GoError) → Proc C A → Proc C A
  map_error f m log =
      let (r, log') = m log in elim r [ ok a ↦ (ok a, log') | err e ↦ (err (f e), log') ]

  -- A call that is made only if the interface is not nil.
  abbrev pub call_if : {F : Type 0} → Option F → (F → Proc C (Unit {0})) → Proc C (Unit {0})
  call_if none f = pure tt
  call_if (some g) f = f g
