-- ===== src/Common/BTreeMap/Order.antt =====
-- The order of the keys: the operations keep the entries ascending, so that each key has one entry.
use Prim.Native.Nat.{Ordering}
use Prim.Native.String.compare
use Prim.Native.String.{String, compare}
use text.Mathlib.TextPositions.{compare_refl}
use text.Mathlib.TextEquality.{path_by_compare}
use mathlib.Core.Path.{◌≡◌, refl}
use mathlib.Core.Option.{none}
use mathlib.Core.List.{[], ◌∷◌}
use native.Mathlib.Omega.{arith}
use agent_sandbox.Common.Tests.{eq_iff}
use agent_sandbox.Common.BTreeMap.{BTreeMap, get, insert, remove, update, map_values}

abbrev pub IsBefore : String → String → Type 0
IsBefore s t = compare s t ≡ Ordering.lt

pub compare_trans : (r s t : String) → IsBefore r s → IsBefore s t → IsBefore r t
compare_trans String.[] String.[] t h k = ground (arith, compare.nil-nil)
compare_trans String.[] (String.◌∷◌ d s) String.[] h k = ground (arith, compare.cons-nil d s)
compare_trans String.[] (String.◌∷◌ d s) (String.◌∷◌ e t) h k = compare.nil-cons e t
compare_trans (String.◌∷◌ c r) String.[] t h k = ground (arith, compare.cons-nil c r)
compare_trans (String.◌∷◌ c r) (String.◌∷◌ d s) String.[] h k = ground (arith, compare.cons-nil d s)
compare_trans (String.◌∷◌ c r) (String.◌∷◌ d s) (String.◌∷◌ e t) h k = ground (
  arith,
  compare.cons-cons c d r s,
  compare.cons-cons d e s t,
  compare.cons-cons c e r t,
  compare_trans r s t,
)

pub compare_flip : (s t : String) → compare s t ≡ Ordering.gt → IsBefore t s
compare_flip String.[] String.[] h = ground (arith, compare.nil-nil)
compare_flip String.[] (String.◌∷◌ d t) h = ground (arith, compare.nil-cons d t)
compare_flip (String.◌∷◌ c s) String.[] h = compare.nil-cons c s
compare_flip (String.◌∷◌ c s) (String.◌∷◌ d t) h =
    ground (arith, compare.cons-cons c d s t, compare.cons-cons d c t s, compare_flip s t)

module _ {ℓ} {V : Type ℓ} where
  -- Every key of the map comes after `k`.
  abbrev pub IsAbove : String → BTreeMap V → Type 0
  IsAbove k [] = Unit
  IsAbove k ((j, _) ∷ m) = IsBefore k j × IsAbove k m

  abbrev pub IsSorted : BTreeMap V → Type 0
  IsSorted [] = Unit
  IsSorted ((k, _) ∷ m) = IsAbove k m × IsSorted m

  IsAbove-trans : (k j : String) (m : BTreeMap V) → IsBefore k j → IsAbove j m → IsAbove k m
  IsAbove-trans k j [] h a = tt
  IsAbove-trans k j ((i, _) ∷ m) h (b, a) = (compare_trans k j i h b, IsAbove-trans k j m h a)

  IsAbove-insert :
      (j k : String) (v : V) (m : BTreeMap V)
      → IsBefore j k
      → IsAbove j m
      → IsAbove j (insert k v m)
  unfolding insert
  IsAbove-insert j k v [] h a = (h, tt)
  IsAbove-insert j k v ((i, w) ∷ m) h (b, a) = ground (arith, IsAbove-insert j k v m h a)

  IsAbove-remove : (j k : String) (m : BTreeMap V) → IsAbove j m → IsAbove j (remove k m)
  unfolding remove
  IsAbove-remove j k [] a = tt
  IsAbove-remove j k ((i, w) ∷ m) (b, a) = ground (arith, IsAbove-remove j k m a)

  IsAbove-update :
      (j k : String) (f : V → V) (m : BTreeMap V) → IsAbove j m → IsAbove j (update k f m)
  unfolding update
  IsAbove-update j k f [] a = tt
  IsAbove-update j k f ((i, w) ∷ m) (b, a) = (b, IsAbove-update j k f m a)

  pub IsSorted-insert : (k : String) (v : V) (m : BTreeMap V) → IsSorted m → IsSorted (insert k v m)
  unfolding insert
  IsSorted-insert k v [] s = (tt, tt)
  IsSorted-insert k v ((j, w) ∷ m) (a, s) = ground (
    arith,
    IsAbove-trans k j m,
    path_by_compare k j,
    compare_flip k j,
    IsAbove-insert j k v m,
    IsSorted-insert k v m s,
  )

  pub IsSorted-remove : (k : String) (m : BTreeMap V) → IsSorted m → IsSorted (remove k m)
  unfolding remove
  IsSorted-remove k [] s = tt
  IsSorted-remove k ((j, w) ∷ m) (a, s) =
      ground (arith, IsAbove-remove j k m a, IsSorted-remove k m s)

  pub IsSorted-update :
      (k : String) (f : V → V) (m : BTreeMap V) → IsSorted m → IsSorted (update k f m)
  unfolding update
  IsSorted-update k f [] s = tt
  IsSorted-update k f ((j, w) ∷ m) (a, s) = (IsAbove-update j k f m a, IsSorted-update k f m s)

  IsAbove-map_values :
      (j : String) (f : V → V) (m : BTreeMap V) → IsAbove j m → IsAbove j (map_values f m)
  unfolding map_values
  IsAbove-map_values j f [] a = tt
  IsAbove-map_values j f ((i, w) ∷ m) (b, a) = (b, IsAbove-map_values j f m a)

  pub IsSorted-map_values : (f : V → V) (m : BTreeMap V) → IsSorted m → IsSorted (map_values f m)
  unfolding map_values
  IsSorted-map_values f [] s = tt
  IsSorted-map_values f ((j, w) ∷ m) (a, s) =
      (IsAbove-map_values j f m a, IsSorted-map_values f m s)

  pub get_of_above : (k : String) (m : BTreeMap V) → IsAbove k m → get k m ≡ none
  unfolding get
  get_of_above k [] a = refl
  get_of_above k ((j, w) ∷ m) (b, a) =
      ground (arith, eq_iff j k, compare_refl k, get_of_above k m a)
