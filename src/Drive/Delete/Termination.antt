-- ===== src/Drive/Delete/Termination.antt =====
-- The loop of `delete_item` ends if no item lies below itself.
use agent_sandbox.Common.{
  ℕ, zero, suc, ◌+◌, ◌<◌, String, ◌≡◌, ◌∙◌, ap, sym, true, some, List, [], ◌∷◌, ◌++◌, arith, length,
  eq_iff, eq_refl, Bool-cases, inl, inr, str_eq, false, ok, contains, contains-append,
}
use mathlib.Core.List.{append_assoc, append-nil}
use agent_sandbox.Common.BTreeMap.{BTreeMap, get}
use agent_sandbox.Common.BTreeMap.Order.{IsSorted}
use agent_sandbox.Drive.Types.{DriveItem, DriveTwinService, deleted, editor}
use agent_sandbox.Drive.Access.{has_role}
use agent_sandbox.Drive.Items.{HasOwnIds, own_id_of_get}
use agent_sandbox.Drive.Delete.{kids, collect, delete_item}
use agent_sandbox.Drive.Delete.Subtree.{IsChild, IsChild-of_kids}

-- A height for each identifier that falls from parent to child: there is one just where the chains
-- of parents have no cycle.
abbrev pub Falls : BTreeMap DriveItem → (String → ℕ) → Type 0
Falls items height = (p c : String) → IsChild items p c → height c < height p

module _ (items : BTreeMap DriveItem) where
  -- The children of all members of a list, the next level of the search.
  abbrev pub next_level : List String → List String
  next_level [] = []
  next_level (x ∷ xs) = kids items x ++ next_level xs

  -- The levels one after the other, and the rounds that they take.
  abbrev pub levels : ℕ → List String → List String
  levels zero queue = []
  levels (suc h) queue = queue ++ levels h (next_level queue)

  abbrev pub rounds : ℕ → List String → ℕ
  rounds zero queue = 1
  rounds (suc h) queue = length queue + rounds h (next_level queue)

  collect-level :
      (queue : List String) (fuel : ℕ) (seen later : List String)
      → collect items (length queue + fuel) seen (queue ++ later)
        ≡ collect items fuel (seen ++ queue) (later ++ next_level queue)
  unfolding collect
  collect-level [] fuel seen later =
      let none_left : 0 + fuel ≡ fuel = omega arith in rw (none_left, append-nil, append-nil)
  collect-level (x ∷ queue) fuel seen later =
      let one_more : suc (length queue) + fuel ≡ suc (length queue + fuel) = omega arith in
      rw one_more (
        ap (collect items (length queue + fuel) (seen ++ x ∷ [])) (append_assoc queue later _)
        ∙ collect-level queue fuel (seen ++ x ∷ []) (later ++ kids items x)
        ∙ rw (append_assoc seen, append_assoc later))

  contains-next_level :
      (queue : List String) (c : String)
      → contains c (next_level queue) ≡ true
      → (p : String) × (contains p queue ≡ true) × (contains c (kids items p) ≡ true)
  contains-next_level [] c h = cc
  contains-next_level (x ∷ queue) c h = elim (Bool-cases (contains c (kids items x))) [
    | inl first ↦ (x, ground (arith, eq_refl x), first)
    | inr other ↦
        let (p, listed, below) =
          contains-next_level queue c
            (ground (arith, contains-append c (kids items x) (next_level queue))) in
        (p, ground arith, below)
  ]

  Falls-next_level :
      (height : String → ℕ) (h : ℕ) (queue : List String)
      → IsSorted items
      → HasOwnIds items
      → Falls items height
      → ((c : String) → contains c queue ≡ true → height c < suc h)
      → (c : String) → contains c (next_level queue) ≡ true
      → height c < h
  Falls-next_level height h queue sorted own falls low c listed =
      let (p, in_queue, below) = contains-next_level queue c listed in
      omega (arith, falls p c (IsChild-of_kids items p c sorted own below), low p in_queue)

  -- A queue below a height is worked off level by level.
  collect-levels :
      (height : String → ℕ) (h extra : ℕ) (seen queue : List String)
      → IsSorted items
      → HasOwnIds items
      → Falls items height
      → ((c : String) → contains c queue ≡ true → height c < h)
      → collect items (rounds h queue + extra) seen queue ≡ some (seen ++ levels h queue)
  unfolding collect
  collect-levels height zero extra seen [] sorted own falls low =
      let one : 1 + extra ≡ suc extra = omega arith in rw (one, append-nil)
  collect-levels height zero extra seen (x ∷ queue) sorted own falls low =
      absurd (omega (arith, low x (ground (arith, eq_refl x))))
  collect-levels height (suc h) extra seen queue sorted own falls low =
      let rest = rounds h (next_level queue) + extra in
      let split : length queue + rounds h (next_level queue) + extra ≡ length queue + rest =
        omega arith in
      rw split (
        ap (collect items (length queue + rest) seen) (sym (append-nil queue))
        ∙ collect-level queue rest seen []
        ∙ collect-levels height h extra (seen ++ queue) (next_level queue) sorted own falls
            (Falls-next_level height h queue sorted own falls low)
        ∙ ap some (append_assoc seen queue _))

-- If heights fall from parent to child, the loop ends within `rounds` rounds, with the levels below
-- the item one after the other.
pub collect-total :
    (items : BTreeMap DriveItem) (height : String → ℕ) (id : String) (extra : ℕ)
    → IsSorted items
    → HasOwnIds items
    → Falls items height
    → collect items (rounds items (suc (height id)) (id ∷ []) + extra) [] (id ∷ [])
      ≡ some (levels items (suc (height id)) (id ∷ []))
collect-total items height id extra sorted own falls =
    collect-levels items height (suc (height id)) extra [] (id ∷ []) sorted own falls
      (λ c h. rw (← (eq_iff id c).0 (ground arith)) (omega arith))

-- A deletion of an item that is not the root, by an actor who may edit it, returns when heights fall
-- from parent to child, with any fuel from `rounds` on.
pub delete_item-returns :
    (actor id : String) (s : DriveTwinService) (item : DriveItem) (height : String → ℕ) (extra : ℕ)
    → IsSorted s.items
    → HasOwnIds s.items
    → Falls s.items height
    → get id s.items ≡ some item
    → str_eq id "root" ≡ false
    → has_role item actor editor ≡ true
    → (delete_item (rounds s.items (suc (height id)) (id ∷ []) + extra) actor id s).0
      ≡ ok (deleted id)
unfolding delete_item
delete_item-returns actor id s item height extra sorted own falls found other allowed = ground (
  arith,
  own_id_of_get s.items id item own found,
  collect-total s.items height id extra sorted own falls,
)
