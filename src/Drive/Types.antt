-- ===== src/Drive/Types.antt =====
-- The data of the Drive twin: items, permissions, requests and responses, and the service's state.
use agent_sandbox.Common.{
  ℕ, String, Option, none, some, List, [], ◌∷◌, TwinError, operation, Op, ok_or,
}
use agent_sandbox.Common.BTreeMap.{BTreeMap, get}
pub use agent_sandbox.Common.{Bytes}

pub data DriveItemKind : Type 0 where
  file folder : DriveItemKind

pub data PermissionRole : Type 0 where
  owner editor viewer : PermissionRole

pub record Permission : Type 0 where
  pub actor_id : String
  pub role : PermissionRole

pub record DriveItem : Type 0 where
  pub id : String
  pub name : String
  pub kind : DriveItemKind
  pub parent_id : Option String
  pub owner_id : String
  pub permissions : List Permission
  pub revision : ℕ
  pub mime_type : Option String
  pub size : Option ℕ
  pub app_properties : BTreeMap String

-- Actor first, as in the source; `upload_content` has the name, the type, the content and the
-- application's properties last.
pub data DriveRequest : Type 0 where
  health : DriveRequest
  create_folder create_file : String → String → String → DriveRequest
  list_children : String → String → DriveRequest
  set_permission : String → String → String → PermissionRole → DriveRequest
  move_item : String → String → String → DriveRequest
  get_item delete_item : String → String → DriveRequest
  update_item : String → String → Option String → Option String → DriveRequest
  upload_content : String → String → String → Option String → Bytes → BTreeMap String → DriveRequest
  download_content : String → String → DriveRequest

pub data DriveResponse : Type 0 where
  service_ok : String → DriveResponse
  created : DriveItem → DriveResponse
  listed : List DriveItem → DriveResponse
  updated : DriveItem → DriveResponse
  got : DriveItem → DriveResponse
  deleted : String → DriveResponse
  content_created : DriveItem → ℕ → DriveResponse
  content_of : DriveItem → Bytes → DriveResponse

pub record DriveTwinService : Type 0 where
  pub items : BTreeMap DriveItem
  pub content : BTreeMap Bytes
  pub next_id : ℕ

abbrev pub folder_mime : String
folder_mime = "application/vnd.google-apps.folder"

abbrev pub octet_stream : String
octet_stream = "application/octet-stream"

abbrev pub owned_by : String → List Permission
owned_by actor = record { actor_id = actor; role = owner } ∷ []

abbrev pub default_root : DriveItem
default_root = record {
  id = "root";
  name = "My Drive";
  kind = folder;
  parent_id = none;
  owner_id = "system";
  permissions = owned_by "system";
  revision = 0;
  mime_type = some folder_mime;
  size = none;
  app_properties = [];
}

-- `DriveTwinService::default()`
abbrev pub default_service : DriveTwinService
default_service = record { items = ("root", default_root) ∷ []; content = []; next_id = 1 }

-- How a request ends without a response: by an error of the twin, or, in the model alone, by a loop
-- that is still running when its fuel is spent.
pub data Failure : Type 0 where
  error : TwinError → Failure
  still_running : Failure

abbrev pub refused : String → Failure
refused message = error (operation message)

abbrev pub Drive : Type 0 → Type 0
Drive A = Op Failure DriveTwinService A

-- `self.items.get(key).ok_or_else(|| TwinError::Operation(message))?`
abbrev pub fetch : String → String → Drive DriveItem
fetch key message s = ok_or (get key s.items) (refused message) s
