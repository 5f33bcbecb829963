-- ===== src/Common/BTreeMap.antt =====
-- Rust's `BTreeMap<String, V>`: the entries in ascending order of their keys.
pub mod Order
pub mod Search
use Prim.Native.Nat.{Ordering}
use Prim.Native.String.{String, compare}
use mathlib.Core.Option
use agent_sandbox.Common.Tests.{str_eq, eq_iff, if◌then◌else◌}
use text.Mathlib.TextEquality.{path_by_compare}
use mathlib.Core.Path.{◌≡◌, refl}
use mathlib.Core.Bool.{Bool, true, false}
use mathlib.Core.Option.{Option, none, some}
use mathlib.Core.List.{List, [], ◌∷◌}
use native.Mathlib.Omega.{arith}

abbrev pub BTreeMap {ℓ} : Type ℓ → Type ℓ
BTreeMap V = List (String × V)

module _ {ℓ} {V : Type ℓ} where
  unfoldable pub get : String → BTreeMap V → Option V
  get k [] = none
  get k ((j, v) ∷ m) = if str_eq j k then some v else get k m

  abbrev pub is_some : Option V → Bool
  is_some none = false
  is_some (some v) = true

  abbrev pub contains_key : String → BTreeMap V → Bool
  contains_key k m = is_some (get k m)

  unfoldable pub insert : String → V → BTreeMap V → BTreeMap V
  insert k v [] = (k, v) ∷ []
  insert k v ((j, w) ∷ m) = elim (compare k j) [
    | Ordering.lt ↦ (k, v) ∷ (j, w) ∷ m
    | Ordering.eq ↦ (k, v) ∷ m
    | Ordering.gt ↦ (j, w) ∷ insert k v m
  ]

  unfoldable pub remove : String → BTreeMap V → BTreeMap V
  remove k [] = []
  remove k ((j, w) ∷ m) = let rest = remove k m in if str_eq j k then rest else (j, w) ∷ rest

  -- `if let Some(v) = m.get_mut(k) { *v = f(v) }`
  unfoldable pub update : String → (V → V) → BTreeMap V → BTreeMap V
  update k f [] = []
  update k f ((j, w) ∷ m) = (j, if str_eq j k then f w else w) ∷ update k f m

  -- `for v in m.values_mut() { *v = f(v) }`
  unfoldable pub map_values : (V → V) → BTreeMap V → BTreeMap V
  map_values f [] = []
  map_values f ((j, w) ∷ m) = (j, f w) ∷ map_values f m

  unfoldable pub values : BTreeMap V → List V
  values [] = []
  values ((j, w) ∷ m) = w ∷ values m

  unfoldable pub keys : BTreeMap V → List String
  keys [] = []
  keys ((j, w) ∷ m) = j ∷ keys m

  pub get-nil : (k : String) → get k [] ≡ none
  unfolding get
  get-nil k = refl

  pub get-insert :
      (j k : String) (v : V) (m : BTreeMap V)
      → get j (insert k v m) ≡ (if str_eq k j then some v else get j m)
  unfolding get insert
  get-insert j k v [] = refl
  get-insert j k v ((i, w) ∷ m) =
      ground (arith, path_by_compare k i, eq_iff i j, eq_iff k j, get-insert j k v m)

  pub get-remove :
      (j k : String) (m : BTreeMap V) → get j (remove k m) ≡ (if str_eq k j then none else get j m)
  unfolding get remove
  get-remove j k [] = ground arith
  get-remove j k ((i, w) ∷ m) = ground (arith, eq_iff i k, eq_iff i j, eq_iff k j, get-remove j k m)

  pub get-update :
      (j k : String) (f : V → V) (m : BTreeMap V)
      → get j (update k f m) ≡ (if str_eq k j then Option.map f (get j m) else get j m)
  unfolding get update
  get-update j k f [] = ground arith
  get-update j k f ((i, w) ∷ m) =
      ground (arith, eq_iff i k, eq_iff i j, eq_iff k j, get-update j k f m)

  pub get-map_values :
      (j : String) (f : V → V) (m : BTreeMap V) → get j (map_values f m) ≡ Option.map f (get j m)
  unfolding get map_values
  get-map_values j f [] = refl
  get-map_values j f ((i, w) ∷ m) = ground (arith, get-map_values j f m)

pub ruleset map_laws = (get-nil, get-insert, get-remove, get-update, get-map_values)
