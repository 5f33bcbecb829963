-- ===== src/Common/Post.antt =====
-- Postconditions of operations: what holds of the result and the state, and of the state where an
-- error is returned.
use agent_sandbox.Common.{
  Result, ok, err, Op, Option, continue, ◌≡◌, some, ok_or, none, refl, Bool, true, require, false,
}

module _ {E S A : Type 0} where
  abbrev pub Post : (A → S → Type 0) → (S → Type 0) → Result E A × S → Type 0
  Post Q P (ok a, s) = Q a s
  Post Q P (err e, s) = P s

  pub ok_or-Post :
      (Q : A → S → Type 0) (P : S → Type 0) (o : Option A) (e : E) (s : S)
      → P s
      → ((a : A) → o ≡ some a → Q a s)
      → Post Q P (ok_or o e s)
  ok_or-Post Q P none e s h k = h
  ok_or-Post Q P (some a) e s h k = k a refl

  -- What holds on success and on failure holds of the state.
  pub state-Post : (P : S → Type 0) (r : Result E A × S) → Post (λ a s. P s) P r → P r.1
  state-Post P (ok a, s) h = h
  state-Post P (err e, s) h = h

pub require-Post :
    {E S : Type 0} (Q : Unit {0} → S → Type 0) (P : S → Type 0) (b : Bool) (e : E) (s : S)
    → P s
    → (b ≡ true → Q tt s)
    → Post Q P (require b e s)
require-Post Q P true e s h k = k refl
require-Post Q P false e s h k = h

module _ {E S A B : Type 0} where
  pub continue-Post :
      (Q : A → S → Type 0) (R : B → S → Type 0) (P : S → Type 0) (r : Result E A × S)
      (f : A → Op E S B)
      → Post Q P r
      → ((a : A) (t : S) → Q a t → Post R P (f a t))
      → Post R P (continue r f)
  continue-Post Q R P (ok a, t) f h k = k a t h
  continue-Post Q R P (err e, t) f h k = h
