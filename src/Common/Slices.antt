-- ===== src/Common/Slices.antt =====
-- `skip` and `take` on lists.
use agent_sandbox.Common.{
  [], ℕ, List, ◌≡◌, take, length, suc, arith, ◌-◌, ◌+◌, ◌++◌, ◌⊎◌, ◌≤◌, ◌∷◌, inl, ap, zero, inr,
  ◌∙◌, refl, sym, map,
}

module _ {ℓ} {A : Type ℓ} where
  -- `skip(n)`
  unfoldable pub drop : ℕ → List A → List A
  drop zero xs = xs
  drop (suc n) [] = []
  drop (suc n) (x ∷ xs) = drop n xs

  pub length-take_le : (n : ℕ) (xs : List A) → length (take n xs) ≤ n
  length-take_le zero xs = omega arith
  length-take_le (suc n) [] = omega arith
  length-take_le (suc n) (x ∷ xs) = omega (arith, length-take_le n xs)

  -- Either the slice is full or it is the whole list.
  pub take_cases :
      (n : ℕ) (xs : List A) → (length (take n xs) ≡ n) ⊎ ((take n xs ≡ xs) × (drop n xs ≡ []))
  unfolding drop
  take_cases zero xs = inl refl
  take_cases (suc n) [] = inr (refl, refl)
  take_cases (suc n) (x ∷ xs) = elim (take_cases n xs) [
    | inl full ↦ inl (omega (arith, full))
    | inr (whole, nothing) ↦ inr (ap (◌∷◌ x) whole, nothing)
  ]

  pub take_all : (n : ℕ) (xs : List A) → length xs ≤ n → take n xs ≡ xs
  take_all zero [] h = refl
  take_all zero (x ∷ xs) h = absurd (omega arith)
  take_all (suc n) [] h = refl
  take_all (suc n) (x ∷ xs) h = ap (◌∷◌ x) (take_all n xs (omega arith))

  pub take-append-drop : (n : ℕ) (xs : List A) → take n xs ++ drop n xs ≡ xs
  unfolding drop
  take-append-drop zero xs = refl
  take-append-drop (suc n) [] = refl
  take-append-drop (suc n) (x ∷ xs) = ap (◌∷◌ x) (take-append-drop n xs)

  drop-nil : (n : ℕ) → drop n [] ≡ []
  unfolding drop
  drop-nil zero = refl
  drop-nil (suc n) = refl

  pub drop-drop : (m n : ℕ) (xs : List A) → drop n (drop m xs) ≡ drop (m + n) xs
  unfolding drop
  drop-drop zero n xs = ap (λ k. drop k xs) (omega arith)
  drop-drop (suc m) n [] = drop-nil n ∙ sym (drop-nil (suc m + n))
  drop-drop (suc m) n (x ∷ xs) =
      let sum : suc (m + n) ≡ suc m + n = omega arith in
      drop-drop m n xs ∙ ap (λ k. drop k (x ∷ xs)) sum

  pub length-drop : (n : ℕ) (xs : List A) → length (drop n xs) ≡ length xs - n
  unfolding drop
  length-drop zero xs = omega arith
  length-drop (suc n) [] = omega arith
  length-drop (suc n) (x ∷ xs) = omega (arith, length-drop n xs)

pub length-map {ℓ} : {A B : Type ℓ} (f : A → B) (xs : List A) → length (map f xs) ≡ length xs
length-map f [] = omega arith
length-map f (x ∷ xs) = omega (arith, length-map f xs)
