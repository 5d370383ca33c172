-- ===== src/Prelude/Results.antt =====
-- Go's `(value, error)` pairs and its error values. `wrapped` is `fmt.Errorf("...: %w", err)`: a
-- type assertion such as `err.(*RequestError)` looks at the outer constructor only.
use Prim.Native.Nat.{ℕ}
use Prim.Native.String.{String}
use mathlib.Core.Path.{◌≡◌, refl}
use mathlib.Core.Bool.{Bool, true, false}
use mathlib.Core.Logic.{◌⊎◌, inl, inr}

pub data Error : Type 0 where
  plain : String → Error
  wrapped : String → Error → Error
  request_error : String → Error → Error
  api_error : ℕ → String → String → Error
  canceled deadline_exceeded : Error

pub data Result {ℓ} (A : Type ℓ) : Type ℓ where
  ok : A → Result A
  err : Error → Result A

-- To split on a computed result and keep the equation.
pub Result-cases {ℓ} :
    {A : Type ℓ} (r : Result A) → ((a : A) × (r ≡ ok a)) ⊎ ((e : Error) × (r ≡ err e))
Result-cases (ok a) = inl (a, refl)
Result-cases (err e) = inr (e, refl)

-- What holds of each way out of an attempt: it was not made, it succeeded, or it failed.
pub three_ways :
    {A : Type 0} (P : A → Type 0) (go : Bool) (r : Result (Unit {0})) (x y z : A)
    → P x
    → P y
    → P z
    → P (elim go as (λ _. A) [ false ↦ x | true ↦ elim r as (λ _. A) [ ok u ↦ y | err e ↦ z ] ])
three_ways P true (ok u) x y z h k l = k
three_ways P true (err e) x y z h k l = l
three_ways P false r x y z h k l = h
