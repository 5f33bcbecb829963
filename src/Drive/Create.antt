-- ===== src/Drive/Create.antt =====
-- `handle`, the requests that create an item.
use agent_sandbox.Common.{
  String, Option, none, some, [], length, pure, modify, require, ◌>>=◌, ◌>>◌, ◌+◌, ◌%◌, u64_mod,
}
use agent_sandbox.Common.BTreeMap.{BTreeMap, insert}
use agent_sandbox.Drive.Types.{
  folder, file, editor, DriveItem, DriveResponse, created, content_created, DriveTwinService, Bytes,
  folder_mime, octet_stream, owned_by, refused, Drive, fetch,
}
use agent_sandbox.Drive.Access.{is_folder, has_role, new_item_id}

-- The checks that the three requests share in the source's text.
unfoldable pub check_parent : String → String → Drive DriveItem
check_parent actor_id parent_id = do
  parent ← fetch parent_id "parent not found"
  require (is_folder parent.kind) (refused "parent must be a folder")
  require (has_role parent actor_id editor) (refused "permission denied")
  pure parent

abbrev pub put_item : DriveItem → DriveTwinService → DriveTwinService
put_item item s = record s { items = insert item.id item s.items }

abbrev pub new_folder : String → String → String → String → DriveItem
new_folder id actor_id parent_id name = record {
  id = id;
  name = name;
  kind = folder;
  parent_id = some parent_id;
  owner_id = actor_id;
  permissions = owned_by actor_id;
  revision = 1;
  mime_type = some folder_mime;
  size = none;
  app_properties = [];
}

-- The state after `new_item_id` and `put_item`.
abbrev pub grown : DriveItem → DriveTwinService → DriveTwinService
grown item s = put_item item (record s { next_id = (s.next_id + 1) % u64_mod })

unfoldable pub create_folder : String → String → String → Drive DriveResponse
unfolding new_item_id
create_folder actor_id parent_id name = do
  check_parent actor_id parent_id
  id ← new_item_id
  modify (put_item (new_folder id actor_id parent_id name))
  pure (created (new_folder id actor_id parent_id name))

abbrev pub new_file : String → String → String → String → DriveItem
new_file id actor_id parent_id name = record {
  id = id;
  name = name;
  kind = file;
  parent_id = some parent_id;
  owner_id = actor_id;
  permissions = owned_by actor_id;
  revision = 1;
  mime_type = none;
  size = none;
  app_properties = [];
}

unfoldable pub create_file : String → String → String → Drive DriveResponse
unfolding new_item_id
create_file actor_id parent_id name = do
  check_parent actor_id parent_id
  id ← new_item_id
  modify (put_item (new_file id actor_id parent_id name))
  pure (created (new_file id actor_id parent_id name))

abbrev pub mime_or_default : Option String → String
mime_or_default none = octet_stream
mime_or_default (some mime) = mime

abbrev pub put_content : String → Bytes → DriveTwinService → DriveTwinService
put_content id content s = record s { content = insert id content s.content }

abbrev pub new_upload :
    String → String → String → String → Option String → Bytes → BTreeMap String → DriveItem
new_upload id actor_id parent_id name mime_type content app_properties = record {
  id = id;
  name = name;
  kind = file;
  parent_id = some parent_id;
  owner_id = actor_id;
  permissions = owned_by actor_id;
  revision = 1;
  mime_type = some (mime_or_default mime_type);
  size = some (length content);
  app_properties = app_properties;
}

unfoldable pub upload_content :
    String → String → String → Option String → Bytes → BTreeMap String → Drive DriveResponse
unfolding new_item_id
upload_content actor_id parent_id name mime_type content app_properties = do
  check_parent actor_id parent_id
  id ← new_item_id
  modify (put_item (new_upload id actor_id parent_id name mime_type content app_properties))
  modify (put_content id content)
  pure (
      content_created (new_upload id actor_id parent_id name mime_type content app_properties)
        (length content))
