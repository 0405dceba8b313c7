-- ===== src/Base/Errors.antt =====
-- Go's `(value, error)` results. An error is made by `errors.New` or `fmt.Errorf`, wraps another one
-- with `%w`, or comes from code outside the repository (type `E`).
use Prim.Native.String.{String}
use mathlib.Core.Path.{◌≡◌, refl}
use mathlib.Core.Logic.{◌⊎◌, inl, inr}

pub data Error (E : Type 0) : Type 0 where
  message : String → Error E
  wrapped : String → Error E → Error E
  foreign : E → Error E

pub data Result (E A : Type 0) : Type 0 where
  ok : A → Result E A
  err : E → Result E A

pub Result-cases :
    {E A : Type 0} (r : Result E A) → ((a : A) × (r ≡ ok a)) ⊎ ((e : E) × (r ≡ err e))
Result-cases (ok a) = inl (a, refl)
Result-cases (err e) = inr (e, refl)
