-- ===== src/Common/Sorting/Laws.antt =====
-- What `sort_by` promises: an ordered list, a rearrangement, and equal elements left in their order.
use agent_sandbox.Common.Sorting.{sort_by, insert_by}
use agent_sandbox.Common.{
  [], Bool, List, ◌≡◌, true, All, ◌∷◌, Bool-cases, false, filter, inl, ◌∙◌, arith, inr, All-mono,
  refl,
}
use mathlib.Core.List.{Perm}
use mathlib.Core.List.Perm

module _ {A : Type 0} (before : A → A → Bool) where
  -- No element stands in front of one that must stand before it.
  abbrev pub IsOrdered : List A → Type 0
  IsOrdered [] = Unit
  IsOrdered (x ∷ xs) = All (λ y. before y x ≡ false) xs × IsOrdered xs

  All-insert_by :
      (P : A → Type 0) (a : A) (xs : List A) → P a → All P xs → All P (insert_by before a xs)
  unfolding insert_by
  All-insert_by P a [] h k = (h, tt)
  All-insert_by P a (x ∷ xs) h (here, there) = elim (Bool-cases (before x a)) [
    | inl e ↦ rw e (here, All-insert_by P a xs h there)
    | inr e ↦ rw e (h, (here, there))
  ]

  insert_by-perm : (a : A) (xs : List A) → Perm (insert_by before a xs) (a ∷ xs)
  unfolding insert_by
  insert_by-perm a [] = Perm.rfl
  insert_by-perm a (x ∷ xs) = elim (Bool-cases (before x a)) [
    | inl e ↦ rw e (Perm.trans (Perm.cons x (insert_by-perm a xs)) (Perm.swap a x xs))
    | inr e ↦ rw e Perm.rfl
  ]

  pub sort_by-perm : (xs : List A) → Perm (sort_by before xs) xs
  unfolding sort_by
  sort_by-perm [] = Perm.rfl
  sort_by-perm (x ∷ xs) =
      Perm.trans (insert_by-perm x (sort_by before xs)) (Perm.cons x (sort_by-perm xs))

  -- Elements of which none must stand before another keep their order.
  module _ (p : A → Bool) (equal : (x y : A) → p x ≡ true → p y ≡ true → before x y ≡ false) where
    filter-insert_by : (a : A) (xs : List A) → filter p (insert_by before a xs) ≡ filter p (a ∷ xs)
    unfolding insert_by
    filter-insert_by a [] = refl
    filter-insert_by a (x ∷ xs) = ground (arith, equal x a, filter-insert_by a xs)

    pub filter-sort_by : (xs : List A) → filter p (sort_by before xs) ≡ filter p xs
    unfolding sort_by
    filter-sort_by [] = refl
    filter-sort_by (x ∷ xs) =
        filter-insert_by x (sort_by before xs) ∙ ground (arith, filter-sort_by xs)

  module _ (asym : (x y : A) → before x y ≡ true → before y x ≡ false)
      (trans : (x y z : A) → before y x ≡ false → before z y ≡ false → before z x ≡ false) where
    insert_by-IsOrdered : (a : A) (xs : List A) → IsOrdered xs → IsOrdered (insert_by before a xs)
    unfolding insert_by
    insert_by-IsOrdered a [] h = (tt, tt)
    insert_by-IsOrdered a (x ∷ xs) (here, there) = elim (Bool-cases (before x a)) [
      | inl e ↦ rw e (
        All-insert_by (λ y. before y x ≡ false) a xs (asym x a e) here,
        insert_by-IsOrdered a xs there,
      )
      | inr e ↦ rw e ((e, All-mono xs (λ y. trans a x y e) here), (here, there))
    ]

    pub sort_by-IsOrdered : (xs : List A) → IsOrdered (sort_by before xs)
    unfolding sort_by
    sort_by-IsOrdered [] = tt
    sort_by-IsOrdered (x ∷ xs) = insert_by-IsOrdered x (sort_by before xs) (sort_by-IsOrdered xs)
