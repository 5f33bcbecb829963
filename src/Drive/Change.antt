-- ===== src/Drive/Change.antt =====
-- `handle`, the requests that change an item in place. The source changes it behind `get_mut`; here
-- the changed item is computed from the one that was found, and written back under its key.
use agent_sandbox.Common.{
  ◌+◌, ◌%◌, String, not, ◌&&◌, Option, none, some, List, [], ◌∷◌, str_eq, if◌then◌else◌, u64_mod,
  pure, modify, require, ◌>>=◌, ◌>>◌,
}
use agent_sandbox.Common.BTreeMap.{update, is_some}
use agent_sandbox.Drive.Types.{
  PermissionRole, owner, editor, Permission, DriveItem, DriveResponse, updated, DriveTwinService,
  refused, Drive, fetch,
}
use agent_sandbox.Drive.Access.{is_folder, has_role}

abbrev pub bump_revision : DriveItem → DriveItem
bump_revision item = record item { revision = (item.revision + 1) % u64_mod }

abbrev pub write : String → DriveItem → DriveTwinService → DriveTwinService
write key item s = record s { items = update key (λ _. item) s.items }

-- The first permission of the target gets the role; without one, a permission is added at the end.
unfoldable pub grant : String → PermissionRole → List Permission → List Permission
grant target role [] = record { actor_id = target; role = role } ∷ []
grant target role (p ∷ ps) =
    if str_eq p.actor_id target then record p { role = role } ∷ ps else p ∷ grant target role ps

abbrev pub with_permission : String → PermissionRole → DriveItem → DriveItem
with_permission target role item =
    bump_revision (record item { permissions = grant target role item.permissions })

unfoldable pub set_permission : String → String → String → PermissionRole → Drive DriveResponse
unfolding grant
set_permission actor_id item_id target_actor_id role = do
  item ← fetch item_id "item not found"
  require (has_role item actor_id owner) (refused "only owners can set permissions")
  modify (write item_id (with_permission target_actor_id role item))
  pure (updated (with_permission target_actor_id role item))

-- The checks on a new parent that a move makes.
unfoldable pub check_destination : String → String → Drive (Unit {0})
check_destination actor_id new_parent_id = do
  parent ← fetch new_parent_id "destination parent not found"
  require (is_folder parent.kind) (refused "destination parent must be a folder")
  require (has_role parent actor_id editor) (refused "permission denied on destination parent")

abbrev pub with_parent : String → DriveItem → DriveItem
with_parent new_parent_id item = bump_revision (record item { parent_id = some new_parent_id })

unfoldable pub move_item : String → String → String → Drive DriveResponse
move_item actor_id item_id new_parent_id = do
  check_destination actor_id new_parent_id
  item ← fetch item_id "item not found"
  require (not (str_eq item.id "root")) (refused "cannot move root")
  require (has_role item actor_id editor) (refused "permission denied")
  modify (write item_id (with_parent new_parent_id item))
  pure (updated (with_parent new_parent_id item))

-- The move is checked first, if one is asked for.
unfoldable pub check_move : String → Option String → Drive (Unit {0})
unfolding check_destination
check_move actor_id none = pure tt
check_move actor_id (some new_parent_id) = check_destination actor_id new_parent_id

abbrev pub renamed : Option String → DriveItem → DriveItem
renamed none item = item
renamed (some name) item = record item { name = name }

abbrev pub moved : Option String → DriveItem → DriveItem
moved none item = item
moved (some new_parent_id) item = record item { parent_id = some new_parent_id }

-- The revision grows only if something changed.
abbrev pub edited : Option String → Option String → DriveItem → DriveItem
edited none none item = item
edited new_name new_parent_id item = bump_revision (moved new_parent_id (renamed new_name item))

unfoldable pub update_item : String → String → Option String → Option String → Drive DriveResponse
update_item actor_id item_id new_name new_parent_id = do
  check_move actor_id new_parent_id
  item ← fetch item_id "item not found"
  require (not (str_eq item.id "root" && is_some new_parent_id)) (refused "cannot move root")
  require (has_role item actor_id editor) (refused "permission denied")
  modify (write item_id (edited new_name new_parent_id item))
  pure (updated (edited new_name new_parent_id item))
