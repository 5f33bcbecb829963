-- ===== src/Drive/Delete/Cycle.antt =====
-- The loop of `delete_item` never ends where an item lies below itself, and `move_item` makes such
-- items: it does not look whether the new parent lies below the item.
use agent_sandbox.Drive.Outcomes.Changes.{move_item_cases}
use agent_sandbox.Drive.Access.{has_role}
use agent_sandbox.Common.{
  ℕ, zero, suc, String, ◌≡◌, refl, true, none, List, [], ◌∷◌, ◌++◌, inl, inr, arith, str_eq, eq_iff,
  Bool-cases, ok, err, some, false, eq_refl, contains-append, contains,
}
use agent_sandbox.Common.BTreeMap.{BTreeMap, update, get-update, get}
use agent_sandbox.Drive.Types.{DriveItem, DriveTwinService, DriveResponse, still_running, editor}
use agent_sandbox.Drive.Items.{HasOwnIds, HasOwnIds-update, own_id_of_get}
use agent_sandbox.Drive.Change.{move_item, write, with_parent}
use agent_sandbox.Drive.Delete.{kids, collect, delete_item}
use agent_sandbox.Drive.Delete.Subtree.{IsChild, Below, here, child, Below-first, kids_of_child}

-- `x` lies below one of its own children.
abbrev pub OnCycle : BTreeMap DriveItem → String → Type 0
OnCycle items x = (c : String) × IsChild items x c × Below items c x

next-OnCycle :
    (items : BTreeMap DriveItem) (x c : String)
    → IsChild items x c
    → Below items c x
    → OnCycle items c
next-OnCycle items x c e b = elim (Below-first items b) [
  | inl same ↦ (c, rw (← same) at e, here)
  | inr (d, first, rest) ↦ (d, first, child rest e)
]

collect-OnCycle :
    (items : BTreeMap DriveItem) (fuel : ℕ) (x : String) (seen queue : List String)
    → HasOwnIds items
    → OnCycle items x
    → contains x queue ≡ true
    → collect items fuel seen queue ≡ none
unfolding collect
collect-OnCycle items zero x seen queue own on h = refl
collect-OnCycle items (suc fuel) x seen [] own on h = cc
collect-OnCycle items (suc fuel) x seen (y ∷ queue) own (c, e, b) h =
    elim (Bool-cases (str_eq y x)) [
      | inl same ↦
          collect-OnCycle items fuel c (seen ++ y ∷ []) (queue ++ kids items y) own
            (next-OnCycle items x c e b)
            (ground (
              arith,
              eq_iff y x,
              contains-append c queue (kids items y),
              kids_of_child items x c e.0 own e.1 e.2,
            ))
      | inr differ ↦
          collect-OnCycle items fuel x (seen ++ y ∷ []) (queue ++ kids items y) own (c, e, b)
            (ground (arith, contains-append x queue (kids items y)))
    ]

-- The state after a move that returned.
move_item-state :
    (actor id parent : String) (s : DriveTwinService) (r : DriveResponse)
    → (move_item actor id parent s).0 ≡ ok r
    → (item : DriveItem) × (get id s.items ≡ some item)
      × (str_eq id "root" ≡ true → HasOwnIds s.items → ⊥)
      × (has_role item actor editor ≡ true)
      × ((move_item actor id parent s).1 ≡ write id (with_parent parent item) s)
move_item-state actor id parent s r e = elim (move_item_cases actor id s parent) [
  | inl (why, stopped) ↦ absurd (ground arith)
  | inr ((item, found, allowed, done), place, may_add, other) ↦
      (item, found, other, allowed, ground arith)
]

-- A chain of parents from `parent` up to `id` is still there when the parent of `id` changes.
Below-write :
    (items : BTreeMap DriveItem) (id parent : String) (item : DriveItem)
    → Below items id parent
    → Below (update id (λ _. item) items) id parent
Below-write items id parent item here = here
Below-write items id parent item (child {q = q} b (it, e, p)) =
    elim (Bool-cases (str_eq id parent)) [
      | inl same ↦ rw (← (eq_iff id parent).0 same) here
      | inr differ ↦
          child (Below-write items id q item b)
            (it, ground (arith, get-update parent id (λ _. item) items), p)
    ]

-- After an item has been moved to a folder that lies below it, its deletion by the actor who moved
-- it never returns: whatever the fuel, the loop is still running.
pub move_item-cycle :
    (actor id parent : String) (s : DriveTwinService) (r : DriveResponse) (fuel : ℕ)
    → HasOwnIds s.items
    → Below s.items id parent
    → (move_item actor id parent s).0 ≡ ok r
    → (delete_item fuel actor id (move_item actor id parent s).1).0 ≡ err still_running
move_item-cycle actor id parent s r fuel own below e =
    let (item, found, not_root, allowed, after) = move_item-state actor id parent s r e in
    let new = with_parent parent item in
    let same_id : item.id ≡ id = own_id_of_get s.items id item own found in
    let other : str_eq item.id "root" ≡ false = elim (Bool-cases (str_eq item.id "root")) [
      | inl is_root ↦ absurd (not_root (rw same_id at is_root) own)
      | inr fine ↦ fine
    ] in
    let items' = update id (λ _. new) s.items in
    let found' : get id items' ≡ some new =
      ground (arith, get-update id id (λ _. new) s.items, eq_refl id) in
    let runs : collect items' fuel [] (id ∷ []) ≡ none =
      collect-OnCycle items' fuel id [] (id ∷ []) (HasOwnIds-update s.items id new same_id own)
        (next-OnCycle items' parent id (new, found', refl)
          (Below-write s.items id parent new below))
        (ground (arith, eq_refl id)) in
    rw after (unfold delete_item has_role in ground (arith, runs, found', other, allowed))
