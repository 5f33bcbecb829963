-- ===== src/Drive/Delete/Removal.antt =====
-- What a deletion leaves: everything that does not lie below the deleted item, unchanged.
use agent_sandbox.Common.{
  ℕ, String, ◌≡◌, refl, ◌∙◌, true, false, none, some, List, [], ◌∷◌, arith, if◌then◌else◌, ok,
  Option-cases, inl, inr, contains,
}
use agent_sandbox.Common.BTreeMap.{get, remove, get-remove}
use agent_sandbox.Common.BTreeMap.Order.{IsSorted}
use agent_sandbox.Drive.Types.{DriveResponse, DriveTwinService}
use agent_sandbox.Drive.Items.{HasOwnIds}
use agent_sandbox.Drive.Delete.{collect, remove_all, delete_item}
use agent_sandbox.Drive.Delete.Subtree.{Below}
use agent_sandbox.Drive.Delete.Loop.{collect-Below}

pub items-remove_all :
    (ids : List String) (s : DriveTwinService) (j : String)
    → get j (remove_all ids s).items ≡ (if contains j ids then none else get j s.items)
unfolding remove_all
items-remove_all [] s j = refl
items-remove_all (id ∷ ids) s j =
    items-remove_all ids (record s { items = remove id s.items; content = remove id s.content }) j
    ∙ ground (arith, get-remove j id s.items)

pub content-remove_all :
    (ids : List String) (s : DriveTwinService) (j : String)
    → get j (remove_all ids s).content ≡ (if contains j ids then none else get j s.content)
unfolding remove_all
content-remove_all [] s j = refl
content-remove_all (id ∷ ids) s j =
    content-remove_all ids (record s { items = remove id s.items; content = remove id s.content }) j
    ∙ ground (arith, get-remove j id s.content)

-- The state after a deletion that returned.
pub delete_item-state :
    (fuel : ℕ) (actor id : String) (s : DriveTwinService) (r : DriveResponse)
    → (delete_item fuel actor id s).0 ≡ ok r
    → (out : List String) × (collect s.items fuel [] (id ∷ []) ≡ some out)
      × ((delete_item fuel actor id s).1 ≡ remove_all out s)
unfolding delete_item
delete_item-state fuel actor id s r e = elim (Option-cases (collect s.items fuel [] (id ∷ []))) [
  | inl runs ↦ absurd (ground arith)
  | inr (out, ends) ↦ (out, ends, ground arith)
]

-- If a deletion returns, exactly the items that lie below the deleted one are gone, with their
-- content, whoever may read or change them; every other item and content is as it was.
pub delete_item-removes :
    (fuel : ℕ) (actor id : String) (s : DriveTwinService) (r : DriveResponse) (j : String)
    → IsSorted s.items
    → HasOwnIds s.items
    → (delete_item fuel actor id s).0 ≡ ok r
    → let t = (delete_item fuel actor id s).1 in
      (Below s.items id j → (get j t.items ≡ none) × (get j t.content ≡ none))
      × (¬ Below s.items id j
          → (get j t.items ≡ get j s.items) × (get j t.content ≡ get j s.content))
delete_item-removes fuel actor id s r j sorted own e =
    let (out, ends, after) = delete_item-state fuel actor id s r e in
    let within = collect-Below s.items fuel id j sorted own ends in
    (
      λ below. rw after (removed out (within.1 below)),
      λ apart. rw after (kept out (not_listed out (λ h. apart (within.0 h)))),
    )
  where
    not_listed : (out : List String) → ¬ (contains j out ≡ true) → contains j out ≡ false
    not_listed out h = ground arith

    removed :
        (out : List String)
        → contains j out ≡ true
        → (get j (remove_all out s).items ≡ none) × (get j (remove_all out s).content ≡ none)
    removed out h = ground (arith, items-remove_all out s j, content-remove_all out s j)

    kept :
        (out : List String)
        → contains j out ≡ false
        → (get j (remove_all out s).items ≡ get j s.items)
          × (get j (remove_all out s).content ≡ get j s.content)
    kept out h = ground (arith, items-remove_all out s j, content-remove_all out s j)
