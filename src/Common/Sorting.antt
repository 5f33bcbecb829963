-- ===== src/Common/Sorting.antt =====
-- Rust's stable `sort_by` and `sort_by_key`, as an insertion sort: the standard library promises which
-- list comes out, not how it is made.
pub mod Laws
use agent_sandbox.Common.{[], Bool, List, ◌∷◌, ◌∷◌, if◌then◌else◌}

module _ {A : Type 0} (before : A → A → Bool) where
  -- An element goes behind those that must stand before it, and in front of its equals.
  unfoldable pub insert_by : A → List A → List A
  insert_by a [] = a ∷ []
  insert_by a (x ∷ xs) = let rest = insert_by a xs in if before x a then x ∷ rest else a ∷ x ∷ xs

  unfoldable pub sort_by : List A → List A
  unfolding insert_by
  sort_by [] = []
  sort_by (x ∷ xs) = insert_by x (sort_by xs)
