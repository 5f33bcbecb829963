-- ===== src/Common/BTreeMap/Search.antt =====
-- `values().find(p)` and `get`.
use Prim.Native.String.{String}
use text.Mathlib.TextPositions.{eq_refl}
use mathlib.Core.Path.{◌≡◌}
use mathlib.Core.Bool.{Bool, true, false}
use mathlib.Core.Option.{none, some}
use mathlib.Core.List.{[], ◌∷◌}
use mathlib.Core.Logic.{inl, inr}
use native.Mathlib.Omega.{arith}
use agent_sandbox.Common.Tests.{eq_iff, Bool-cases}
use agent_sandbox.Common.Lists.{find}
use agent_sandbox.Common.BTreeMap.{BTreeMap, get, values}
use agent_sandbox.Common.BTreeMap.Order.{IsAbove, IsSorted, get_of_above}

module _ {V : Type 0} where
  pub get-tail :
      (j k : String) (v w : V) (m : BTreeMap V)
      → IsAbove j m
      → get k m ≡ some v
      → get k ((j, w) ∷ m) ≡ some v
  unfolding get
  get-tail j k v w m above e = ground (arith, eq_iff j k, get_of_above j m above)

  pub find-values-none :
      (p : V → Bool) (m : BTreeMap V) (k : String) (v : V)
      → find p (values m) ≡ none
      → get k m ≡ some v
      → p v ≡ false
  unfolding values get
  find-values-none p [] k v e h = absurd (ground arith)
  find-values-none p ((j, w) ∷ m) k v e h = ground (arith, find-values-none p m k v)

  pub find-values-some :
      (p : V → Bool) (m : BTreeMap V) (v : V)
      → IsSorted m
      → find p (values m) ≡ some v
      → (k : String) × (get k m ≡ some v) × (p v ≡ true)
  unfolding values
  find-values-some p [] v sorted e = absurd (ground arith)
  find-values-some p ((j, w) ∷ m) v (above, sorted) e = elim (Bool-cases (p w)) [
    | inl this ↦
        let same : w ≡ v = ground arith in
        (j, unfold get in ground (arith, eq_refl j), ground arith)
    | inr other ↦
        let (k, found, holds) = find-values-some p m v sorted (ground arith) in
        (k, get-tail j k v w m above found, holds)
  ]
