-- ===== src/Drive/Read.antt =====
-- `handle`, the requests that only read.
use agent_sandbox.Common.{
  String, List, filter, is_some_text, pure, gets, ok_or, require, ◌>>=◌, ◌>>◌,
}
use agent_sandbox.Common.BTreeMap.{get, values}
use agent_sandbox.Drive.Types.{
  viewer, DriveItem, DriveResponse, listed, got, content_of, DriveTwinService, refused, Drive,
  fetch,
}
use agent_sandbox.Drive.Access.{has_role}

-- The items whose parent is the given one, in the order of their identifiers.
abbrev pub children : String → DriveTwinService → List DriveItem
children parent_id s = filter (λ item. is_some_text item.parent_id parent_id) (values s.items)

unfoldable pub list_children : String → String → Drive DriveResponse
list_children actor_id parent_id = do
  parent ← fetch parent_id "parent not found"
  require (has_role parent actor_id viewer) (refused "permission denied")
  items ← gets (children parent_id)
  pure (listed items)

unfoldable pub get_item : String → String → Drive DriveResponse
get_item actor_id item_id = do
  item ← fetch item_id "item not found"
  require (has_role item actor_id viewer) (refused "permission denied")
  pure (got item)

unfoldable pub download_content : String → String → Drive DriveResponse
download_content actor_id item_id = do
  item ← fetch item_id "item not found"
  require (has_role item actor_id viewer) (refused "permission denied")
  bytes ← (λ s. ok_or (get item_id s.content) (refused "file has no content") s)
  pure (content_of item bytes)
