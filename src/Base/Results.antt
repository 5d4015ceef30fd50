-- ===== src/Base/Results.antt =====
-- Go's pair of a value and an error. An error keeps the reason by which `apierrors.IsNotFound`,
-- `IsAlreadyExists` and `IsInvalid` tell it apart, also when it is wrapped by `%w`.
use Prim.Native.String.{String}
use mathlib.Core.Path.{◌≡◌, refl}
use mathlib.Core.Logic.{◌⊎◌, inl, inr}
use mathlib.Core.Bool.{Bool, true, false}
use mathlib.Core.Option.{Option, none, some}

pub data Error : Type 0 where
  not_found already_exists invalid : Error
  other : String → Error

pub data Result {ℓ} (A : Type ℓ) : Type ℓ where
  ok : A → Result A
  err : Error → Result A

abbrev pub is_not_found : Error → Bool
is_not_found not_found = true
is_not_found _ = false

-- A call that returns only an error: `nil` is `ok tt`.
abbrev pub Outcome : Type 0
Outcome = Result (Unit {0})

abbrev pub done : Outcome
done = ok tt

abbrev pub error? {ℓ} : {A : Type ℓ} → Result A → Option Error
error? (ok _) = none
error? (err e) = some e

pub Result-cases {ℓ} :
    {A : Type ℓ} (r : Result A) → ((a : A) × (r ≡ ok a)) ⊎ ((e : Error) × (r ≡ err e))
Result-cases (ok a) = inl (a, refl)
Result-cases (err e) = inr (e, refl)
