-- ===== src/Drive/Delete.antt =====
-- `handle`, the request that deletes an item and all that lies below it.
pub mod Subtree
pub mod Cycle
pub mod Removal
pub mod Termination
pub mod Loop
use agent_sandbox.Common.{
  ℕ, zero, suc, String, Bool, not, Option, none, some, List, [], ◌∷◌, ◌++◌, str_eq, is_some_text,
  if◌then◌else◌, Op, pure, modify, ok_or, require, gets, ◌>>=◌, ◌>>◌,
}
use agent_sandbox.Common.BTreeMap.{BTreeMap, remove}
use agent_sandbox.Drive.Types.{
  editor, DriveItem, DriveResponse, deleted, DriveTwinService, refused, still_running, Drive, fetch,
}
use agent_sandbox.Drive.Access.{has_role}

-- `children_map.get(id)`: the identifiers of the items with that parent, in the order of the map.
unfoldable pub kids : BTreeMap DriveItem → String → List String
kids [] id = []
kids ((key, item) ∷ items) id =
    let rest = kids items id in if is_some_text item.parent_id id then item.id ∷ rest else rest

-- The loop `while i < to_delete.len()`. `to_delete` is `seen ++ queue`, and `i` is the length of
-- `seen`. `none` means that the loop still runs when the fuel is spent.
unfoldable pub collect : BTreeMap DriveItem → ℕ → List String → List String → Option (List String)
unfolding kids
collect items zero seen queue = none
collect items (suc fuel) seen [] = some seen
collect items (suc fuel) seen (id ∷ queue) =
    collect items fuel (seen ++ (id ∷ [])) (queue ++ kids items id)

-- The loop over `to_delete`.
unfoldable pub remove_all : List String → DriveTwinService → DriveTwinService
remove_all [] s = s
remove_all (id ∷ ids) s =
    remove_all ids (record s { items = remove id s.items; content = remove id s.content })

unfoldable pub delete_item : ℕ → String → String → Drive DriveResponse
delete_item fuel actor_id item_id = do
  item ← fetch item_id "item not found"
  require (not (str_eq item.id "root")) (refused "cannot delete root")
  require (has_role item actor_id editor) (refused "permission denied")
  to_delete ← (λ s. ok_or (collect s.items fuel [] (item_id ∷ [])) still_running s)
  modify (remove_all to_delete)
  pure (deleted item_id)
