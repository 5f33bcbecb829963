-- ===== src/Drive/Delete/Subtree.antt =====
-- What lies below an item, as a relation, and the children that `children_map` lists.
use agent_sandbox.Common.{
  String, ◌≡◌, refl, true, ◌&&◌, Option, none, some, [], ◌∷◌, ◌⊎◌, inl, inr, arith, str_eq, eq_iff,
  eq_refl, is_some_text, Bool-cases, contains,
}
use agent_sandbox.Common.BTreeMap.{BTreeMap, get}
use agent_sandbox.Common.BTreeMap.Order.{IsSorted, IsAbove, get_of_above}
use agent_sandbox.Drive.Types.{DriveItem}
use agent_sandbox.Drive.Items.{HasOwnIds}
use agent_sandbox.Drive.Delete.{kids}

module _ (items : BTreeMap DriveItem) where
  abbrev pub IsChild : String → String → Type 0
  IsChild p c = (item : DriveItem) × (get c items ≡ some item) × (item.parent_id ≡ some p)

  -- `c` is `p`, or an item whose chain of parents leads to `p`.
  pub data Below (p : String) : String → Type 0 where
    here : Below p p
    child : {q c : String} → Below p q → IsChild q c → Below p c

pub Below-first :
    (items : BTreeMap DriveItem) {p c : String}
    → Below items p c
    → (p ≡ c) ⊎ ((d : String) × IsChild items p d × Below items d c)
Below-first items here = inl refl
Below-first items {p} {c} (child {q = q} b e) = elim (Below-first items b) [
  | inl same ↦ inr (c, rw same e, here)
  | inr (d, first, rest) ↦ inr (d, first, child rest e)
]

is_some_text-true : (o : Option String) (p : String) → is_some_text o p ≡ true → o ≡ some p
is_some_text-true none p h = cc
is_some_text-true (some q) p h = ground (arith, eq_iff q p)

-- A child is listed among the children of its parent.
pub kids_of_child :
    (items : BTreeMap DriveItem) (p c : String) (item : DriveItem)
    → HasOwnIds items
    → get c items ≡ some item
    → item.parent_id ≡ some p
    → contains c (kids items p) ≡ true
unfolding get kids
kids_of_child [] p c item own e q = cc
kids_of_child ((key, it) ∷ items) p c item (same, own) e q =
    ground (arith, eq_refl p, eq_iff key c, eq_iff it.id c, kids_of_child items p c item own)

IsChild-of_tail :
    (items : BTreeMap DriveItem) (key p c : String) (it : DriveItem)
    → IsAbove key items
    → IsChild items p c
    → IsChild ((key, it) ∷ items) p c
unfolding get
IsChild-of_tail items key p c it above (item, e, q) =
    (item, ground (arith, eq_iff key c, get_of_above key items above), q)

-- What is listed there is a child.
pub IsChild-of_kids :
    (items : BTreeMap DriveItem) (p c : String)
    → IsSorted items
    → HasOwnIds items
    → contains c (kids items p) ≡ true
    → IsChild items p c
unfolding get kids
IsChild-of_kids [] p c sorted own h = cc
IsChild-of_kids ((key, it) ∷ items) p c (above, sorted) (same, own) h =
    elim (Bool-cases (is_some_text it.parent_id p && str_eq it.id c)) [
      | inl found ↦ (
        it,
        ground (arith, eq_iff it.id c, eq_iff key c),
        is_some_text-true it.parent_id p (ground arith),
      )
      | inr other ↦
          IsChild-of_tail items key p c it above
            (IsChild-of_kids items p c sorted own (ground arith))
    ]
