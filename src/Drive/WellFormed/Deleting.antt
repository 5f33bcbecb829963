-- ===== src/Drive/WellFormed/Deleting.antt =====
-- Deleting an item with all that lies below it keeps the invariant: no orphan is left.
use agent_sandbox.Drive.Outcomes.{has_place}
use agent_sandbox.Common.BTreeMap.{get, remove}
use agent_sandbox.Drive.Delete.Removal.{items-remove_all, content-remove_all}
use agent_sandbox.Common.BTreeMap.Order.{IsSorted, IsSorted-remove}
use agent_sandbox.Drive.Items.{HasOwnIds, HasOwnIds-remove}
use agent_sandbox.Drive.Delete.Subtree.{Below, child, here}
use agent_sandbox.Common.{
  List, String, ◌≢◌, ◌≡◌, true, ◌↔◌, false, Bool-cases, Option, some, none, ◌∷◌, inl, refl, arith,
  inr, [], contains,
}
use agent_sandbox.Drive.Delete.{remove_all}
use agent_sandbox.Drive.Types.{DriveTwinService, DriveItem}
use agent_sandbox.Drive.WellFormed.{IsWellFormed}

pub IsSorted-remove_all :
    (ids : List String) (s : DriveTwinService)
    → IsSorted s.items
    → IsSorted (remove_all ids s).items
unfolding remove_all
IsSorted-remove_all [] s sorted = sorted
IsSorted-remove_all (id ∷ ids) s sorted =
    IsSorted-remove_all ids (record s { items = remove id s.items; content = remove id s.content })
      (IsSorted-remove id s.items sorted)

pub HasOwnIds-remove_all :
    (ids : List String) (s : DriveTwinService)
    → HasOwnIds s.items
    → HasOwnIds (remove_all ids s).items
unfolding remove_all
HasOwnIds-remove_all [] s own = own
HasOwnIds-remove_all (id ∷ ids) s own =
    HasOwnIds-remove_all ids (record s { items = remove id s.items; content = remove id s.content })
      (HasOwnIds-remove s.items id own)

next_id-remove_all :
    (ids : List String) (s : DriveTwinService) → (remove_all ids s).next_id ≡ s.next_id
unfolding remove_all
next_id-remove_all [] s = refl
next_id-remove_all (id ∷ ids) s =
    next_id-remove_all ids (record s { items = remove id s.items; content = remove id s.content })

-- The root lies below no other item.
root_apart :
    (s : DriveTwinService) (id : String) → IsWellFormed s → Below s.items id "root" → id ≡ "root"
root_apart s id wf here = refl
root_apart s id wf (child b (item, e, p)) = absurd (ground (arith, wf.root))

module _ (s : DriveTwinService) (id : String) (out : List String) (wf : IsWellFormed s)
    (other : id ≢ "root")
    (exact : (c : String) → (contains c out ≡ true) ↔ Below s.items id c) where
  root_kept : contains "root" out ≡ false
  root_kept = elim (Bool-cases (contains "root" out)) [
    | inl gone ↦ absurd (other (root_apart s id wf ((exact "root").0 gone)))
    | inr kept ↦ kept
  ]

  -- An item that stays has a parent that stays.
  parent_kept :
      (k p : String) (item : DriveItem)
      → get k s.items ≡ some item
      → item.parent_id ≡ some p
      → contains k out ≡ false
      → contains p out ≡ false
  parent_kept k p item e parent kept = elim (Bool-cases (contains p out)) [
    | inl gone ↦ absurd (ground (arith, (exact k).1 (child ((exact p).0 gone) (item, e, parent))))
    | inr stays ↦ stays
  ]

  place_kept :
      (k : String) (item : DriveItem) (o : Option String)
      → get k s.items ≡ some item
      → item.parent_id ≡ o
      → contains k out ≡ false
      → has_place s.items o ≡ true
      → has_place (remove_all out s).items o ≡ true
  place_kept k item none e parent kept place = refl
  place_kept k item (some p) e parent kept place =
      rw (items-remove_all out s p, parent_kept k p item e parent kept) place

  pub remove_all-IsWellFormed : IsWellFormed (remove_all out s)
  remove_all-IsWellFormed = record {
    sorted = IsSorted-remove_all out s wf.sorted;
    own = HasOwnIds-remove_all out s wf.own;
    root = rw (items-remove_all out s "root", root_kept) wf.root;
    placed = λ k item e. elim (Bool-cases (contains k out)) [
      | inl gone ↦ absurd (ground (arith, items-remove_all out s k))
      | inr kept ↦
          let found : get k s.items ≡ some item = ground (arith, items-remove_all out s k) in
          place_kept k item item.parent_id found refl kept (wf.placed k item found)
    ];
    content =
        λ k h. ground (arith, items-remove_all out s k, content-remove_all out s k, wf.content k);
    counted = λ k n h p.
        ground (arith, items-remove_all out s k, next_id-remove_all out s, wf.counted k n);
  }
