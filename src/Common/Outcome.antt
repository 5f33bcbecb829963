-- ===== src/Common/Outcome.antt =====
-- `Result` with the error type of the source, and operations on a mutable state. What was written
-- before an early return stays written, so the state comes back beside the error too.
use Prim.Native.String.{String}
use mathlib.Core.Path.{◌≡◌, refl}
use mathlib.Core.Logic.{◌⊎◌, inl, inr}
use mathlib.Core.Bool.{Bool, true, false}
use mathlib.Core.Option.{Option, none, some}

-- `TwinError` of twin-service.
pub data TwinError : Type 0 where
  operation : String → TwinError

pub data Result {ℓ} (E : Type ℓ) (A : Type ℓ) : Type ℓ where
  ok : A → Result E A
  err : E → Result E A

abbrev pub Op : Type 0 → Type 0 → Type 0 → Type 0
Op E S A = S → Result E A × S

module _ {E S A : Type 0} where
  abbrev pub pure : A → Op E S A
  pure a s = (ok a, s)

  abbrev pub fail : E → Op E S A
  fail e s = (err e, s)

  abbrev pub gets : (S → A) → Op E S A
  gets f s = (ok (f s), s)

  -- `.ok_or_else(..)?`
  abbrev pub ok_or : Option A → E → Op E S A
  ok_or none e s = (err e, s)
  ok_or (some a) e s = (ok a, s)

module _ {E S : Type 0} where
  abbrev pub modify : (S → S) → Op E S (Unit {0})
  modify f s = (ok tt, f s)

  -- `if !test { return Err(..) }`
  abbrev pub require : Bool → E → Op E S (Unit {0})
  require true e s = (ok tt, s)
  require false e s = (err e, s)

module _ {E S A B : Type 0} where
  abbrev pub continue : Result E A × S → (A → Op E S B) → Result E B × S
  continue (ok a, s) f = f a s
  continue (err e, s) f = (err e, s)

  infixl 5 ◌>>=◌ ◌>>◌
  abbrev pub ◌>>=◌ : Op E S A → (A → Op E S B) → Op E S B
  ◌>>=◌ m f s = continue (m s) f

  abbrev pub ◌>>◌ : Op E S A → Op E S B → Op E S B
  ◌>>◌ m k s = continue (m s) (λ _. k)

pub Result-cases {ℓ} :
    {E A : Type ℓ} (r : Result E A) → ((a : A) × (r ≡ ok a)) ⊎ ((e : E) × (r ≡ err e))
Result-cases (ok a) = inl (a, refl)
Result-cases (err e) = inr (e, refl)
